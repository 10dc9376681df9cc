-- ===== src/Publish/Upload/Tests.antt =====
-- Three blobs, in calls of two.
use anfra.Prelude.{◌≡◌, refl, ◌⊎◌, some, [], ◌∷◌, arith, All, ok, err}
use anfra.Publish.Upload.{Limits, UploadError, Uploader, upload}
use anfra.Publish.Upload.Within.{IsCall, joined, upload-within}

-- A content is its own id, and has ten bytes.
abbrev uploader : Uploader
uploader = record {
  len = λ c. 10;
  blob_id = λ c. c;
  read = λ oid. some oid;
  create_blobs = λ cs. some cs;
}

abbrev two_blobs : Limits
two_blobs = record { upload_blobs = 2; upload_bytes = 25 }

calls_test :
    upload uploader two_blobs ("a" ∷ "b" ∷ "c" ∷ []) ≡ (("a" ∷ "b" ∷ []) ∷ ("c" ∷ []) ∷ [], ok tt)
unfolding upload
calls_test = refl

upload-within_example :
    All (IsCall uploader two_blobs) (upload uploader two_blobs ("a" ∷ "b" ∷ "c" ∷ [])).0
    × (((e : UploadError) × ((upload uploader two_blobs ("a" ∷ "b" ∷ "c" ∷ [])).1 ≡ err e))
        ⊎ (joined uploader two_blobs (upload uploader two_blobs ("a" ∷ "b" ∷ "c" ∷ [])).0
            ≡ "a" ∷ "b" ∷ "c" ∷ []))
upload-within_example = upload-within uploader two_blobs ("a" ∷ "b" ∷ "c" ∷ []) (omega arith)
