-- ===== src/Publish/Upload.antt =====
-- internal/publish/publish.go: `upload`, which sends blobs in calls within the server's limits. A
-- content's bytes and its blob id, which is a hash of it, are parameters.
pub mod Within
mod Tests
use anfra.Prelude.{
  ℕ, ◌+◌, String, Bool, true, false, not, ◌&&◌, ◌||◌, Option, none, some, List, [], ◌∷◌, ◌++◌,
  str_eq, ltb, ◌==◌, if◌then◌else◌, length, is_nil, Result, ok, err,
}

-- The limits of a call: how many blobs, and how many bytes.
pub record Limits : Type 0 where
  pub upload_blobs : ℕ
  pub upload_bytes : ℕ

pub data UploadError : Type 0 where
  unreadable changed : String → UploadError
  misnamed refused : UploadError

abbrev pub Content : Type 0
Content = String

-- What an upload rests on: a content's bytes, its id, the content of the file that holds a blob, none
-- where it cannot be read, and the ids that the server answers a call with, none where it fails.
pub record Uploader : Type 0 where
  pub len : Content → ℕ
  pub blob_id : Content → String
  pub read : String → Option Content
  pub create_blobs : List Content → Option (List String)

abbrev pub same_oids : List String → List String → Bool
same_oids [] [] = true
same_oids [] (y ∷ ys) = false
same_oids (x ∷ xs) [] = false
same_oids (x ∷ xs) (y ∷ ys) = str_eq x y && same_oids xs ys

-- The batch under way, its ids and bytes, and the calls made, newest last.
pub record Batch : Type 0 where
  pub contents : List Content
  pub oids : List String
  pub size : ℕ
  pub calls : List (List Content)

abbrev pub empty_batch : Batch
empty_batch = record { contents = []; oids = []; size = 0; calls = [] }

module _ (u : Uploader) (limits : Limits) where
  -- What the server's answer to a batch makes of it.
  abbrev pub answered : Option (List String) → Batch → Batch × Result UploadError (Unit {0})
  answered none b = (record b { calls = b.calls ++ b.contents ∷ [] }, err refused)
  answered (some got) b =
      if same_oids got b.oids
      then (
        record { contents = []; oids = []; size = 0; calls = b.calls ++ b.contents ∷ [] },
        ok tt,
      )
      else (record b { calls = b.calls ++ b.contents ∷ [] }, err misnamed)

  pub flush : Batch → Batch × Result UploadError (Unit {0})
  flush b = if is_nil b.contents then (b, ok tt) else answered (u.create_blobs b.contents) b

  abbrev pub is_full : Content → Batch → Bool
  is_full content b =
      length b.contents == limits.upload_blobs || ltb limits.upload_bytes (b.size + u.len content)

  abbrev pub added : String → Content → Batch → Batch
  added oid content b = record b {
    contents = b.contents ++ content ∷ [];
    oids = b.oids ++ oid ∷ [];
    size = b.size + u.len content;
  }

  -- `upload`, for the blobs that are left.
  pub upload_rest : List String → Batch → Batch × Result UploadError (Unit {0})
  unfolding flush
  upload_rest [] b = flush b
  upload_rest (oid ∷ oids) b = elim (u.read oid) [
    | none ↦ (b, err (unreadable oid))
    | some content ↦
        if not (str_eq (u.blob_id content) oid)
        then (b, err (changed oid))
        else if is_full content b
        then (let (flushed, ended) = flush b in
            elim ended [
              | err e ↦ (flushed, err e)
              | ok _ ↦ upload_rest oids (added oid content flushed)
            ])
        else upload_rest oids (added oid content b)
  ]

  -- `upload`: the calls made, none where there is no blob, and how it ended.
  pub upload : List String → List (List Content) × Result UploadError (Unit {0})
  unfolding upload_rest
  upload oids = let (b, ended) = upload_rest oids empty_batch in (b.calls, ended)
