-- ===== src/Publish/Upload/Within.antt =====
-- internal/publish/publish.go: an upload's calls are within the server's limits, and hold each blob once.
use anfra.Prelude.{
  ℕ, ◌+◌, ◌≤◌, ◌<◌, String, ◌≡◌, refl, sym, ap, ◌∙◌, ◌⊎◌, inl, inr, true, false, Option, none, some,
  List, [], ◌∷◌, ◌++◌, arith, str_eq, eq_iff, Bool-cases, Option-cases, length, length-append,
  is_nil, All, All-append, Result, ok, err, Result-cases,
}
use mathlib.Core.List.{append-nil, append_assoc}
use mathlib.Core.Path.{subst}
use anfra.Publish.Upload.{
  Limits, UploadError, Content, Uploader, same_oids, Batch, empty_batch, answered, flush, is_full,
  added, upload_rest, upload,
}

module _ (u : Uploader) (limits : Limits) where
  abbrev pub bytes : List Content → ℕ
  bytes [] = 0
  bytes (c ∷ cs) = u.len c + bytes cs

  -- A call within the limits: one blob, or no more than they let it be.
  abbrev pub IsCall : List Content → Type 0
  IsCall c =
      (0 < length c)
      × (length c ≤ limits.upload_blobs)
      × ((bytes c ≤ limits.upload_bytes) ⊎ (length c ≤ 1))

  -- The ids of the blobs that calls hold, in order.
  abbrev pub ids : List Content → List String
  ids [] = []
  ids (c ∷ cs) = u.blob_id c ∷ ids cs

  abbrev pub joined : List (List Content) → List String
  joined [] = []
  joined (c ∷ cs) = ids c ++ joined cs

  record Held (b : Batch) : Type 0 where
    pub few : length b.contents ≤ limits.upload_blobs
    pub sized : b.size ≡ bytes b.contents
    pub fits : (b.size ≤ limits.upload_bytes) ⊎ (length b.contents ≤ 1)
    pub named : ids b.contents ≡ b.oids
    pub called : All IsCall b.calls

  bytes-append : (xs ys : List Content) → bytes (xs ++ ys) ≡ bytes xs + bytes ys
  bytes-append [] ys = omega arith
  bytes-append (x ∷ xs) ys = omega (arith, bytes-append xs ys)

  ids-append : (xs ys : List Content) → ids (xs ++ ys) ≡ ids xs ++ ids ys
  ids-append [] ys = refl
  ids-append (x ∷ xs) ys = ap (λ l. u.blob_id x ∷ l) (ids-append xs ys)

  joined-append :
      (xs : List (List Content)) (c : List Content) → joined (xs ++ c ∷ []) ≡ joined xs ++ ids c
  joined-append [] c = append-nil (ids c)
  joined-append (x ∷ xs) c =
      ap (λ l. ids x ++ l) (joined-append xs c) ∙ sym (append_assoc (ids x) (joined xs) (ids c))

  -- What a flush leaves: calls within the limits, and, where it went well, no blob to send and the
  -- same blobs in all.
  abbrev Flushed : Batch → Batch × Result UploadError (Unit {0}) → Type 0
  Flushed b (b', ended) =
      All IsCall b'.calls
      × (ended ≡ ok tt
          → Held b'
            × (b'.contents ≡ [])
            × (b'.oids ≡ [])
            × (b'.size ≡ 0)
            × (joined b'.calls ≡ joined b.calls ++ b.oids))

  sent-IsCall :
      (b : Batch) → Held b → 0 < length b.contents → All IsCall (b.calls ++ b.contents ∷ [])
  sent-IsCall b h full =
      let fits : (bytes b.contents ≤ limits.upload_bytes) ⊎ (length b.contents ≤ 1) =
        subst (λ n. (n ≤ limits.upload_bytes) ⊎ (length b.contents ≤ 1)) h.sized h.fits in
      All-append IsCall b.calls (b.contents ∷ []) h.called ((full, h.few, fits), tt)

  emptied-Held :
      (b : Batch)
      → Held b
      → 0 < length b.contents
      → Held (record { contents = []; oids = []; size = 0; calls = b.calls ++ b.contents ∷ [] })
  emptied-Held b h full = record {
    few = omega arith;
    sized = refl;
    fits = inr (omega arith);
    named = refl;
    called = sent-IsCall b h full;
  }

  answered-Flushed :
      (got : Option (List String)) (b : Batch)
      → Held b
      → 0 < length b.contents
      → Flushed b (answered u limits got b)
  answered-Flushed none b h full = (sent-IsCall b h full, λ e. absurd cc)
  answered-Flushed (some got) b h full = elim (Bool-cases (same_oids got b.oids)) [
    | inr other ↦ rw other (sent-IsCall b h full, λ e. absurd cc)
    | inl same ↦ rw same (
      sent-IsCall b h full,
      λ e. (
        emptied-Held b h full,
        refl,
        refl,
        refl,
        joined-append b.calls b.contents ∙ ap (λ l. joined b.calls ++ l) h.named,
      ),
    )
  ]

  flush-Flushed : (b : Batch) → Held b → Flushed b (flush u limits b)
  unfolding flush
  flush-Flushed b h = elim (Bool-cases (is_nil b.contents)) [
    | inr some_ ↦
        rw some_ (answered-Flushed (u.create_blobs b.contents) b h (not_nil b.contents some_))
    | inl empty ↦
        let none_ = is_nil-eq b.contents empty in
        rw empty (
          h.called,
          λ e. (
            h,
            none_,
            no_oids none_,
            no_bytes none_,
            sym (ap (λ l. joined b.calls ++ l) (no_oids none_) ∙ append-nil (joined b.calls)),
          ),
        )
  ]
    where
      not_nil : (cs : List Content) → is_nil cs ≡ false → 0 < length cs
      not_nil [] e = cc
      not_nil (c ∷ cs) e = omega arith

      is_nil-eq : (cs : List Content) → is_nil cs ≡ true → cs ≡ []
      is_nil-eq [] e = refl
      is_nil-eq (c ∷ cs) e = cc

      no_oids : b.contents ≡ [] → b.oids ≡ []
      no_oids e = sym h.named ∙ ap ids e

      no_bytes : b.contents ≡ [] → b.size ≡ 0
      no_bytes e = h.sized ∙ ap bytes e

  -- A blob that is added to a batch with room for it.
  added-Held :
      (oid : String) (content : Content) (b : Batch)
      → Held b
      → u.blob_id content ≡ oid
      → 0 < limits.upload_blobs
      → (b.contents ≡ []) ⊎ (is_full u limits content b ≡ false)
      → Held (added u limits oid content b)
  added-Held oid content b h its some_ room =
      let longer = length-append b.contents (content ∷ []) in
      let larger = bytes-append b.contents (content ∷ []) in
      record {
        few = elim room [
          | inl empty ↦ let none_ = ap length empty in omega (arith, longer, none_)
          | inr open_ ↦ let e = h.few in ground (arith, longer)
        ];
        sized = let e = h.sized in omega (arith, larger);
        fits = elim room [
          | inl empty ↦ let none_ = ap length empty in inr (omega (arith, longer, none_))
          | inr open_ ↦ inl (ground (arith))
        ];
        named =
            ids-append b.contents (content ∷ [])
            ∙ ap (λ l. l ++ u.blob_id content ∷ []) h.named
            ∙ ap (λ i. b.oids ++ i ∷ []) its;
        called = h.called;
      }

  -- What uploading the blobs that are left comes to.
  abbrev Uploaded : Batch → List String → Batch × Result UploadError (Unit {0}) → Type 0
  Uploaded b oids (b', ended) =
      All IsCall b'.calls × (ended ≡ ok tt → joined b'.calls ≡ joined b.calls ++ (b.oids ++ oids))

  upload_rest-Uploaded :
      (oids : List String) (b : Batch)
      → Held b
      → 0 < limits.upload_blobs
      → Uploaded b oids (upload_rest u limits oids b)
  unfolding upload_rest
  upload_rest-Uploaded [] b h some_ =
      let (calls, went) = flush-Flushed b h in
      (calls, λ e. (went e).4 ∙ ap (λ l. joined b.calls ++ l) (sym (append-nil b.oids)))
  upload_rest-Uploaded (oid ∷ oids) b h some_ = elim (Option-cases (u.read oid)) [
    | inl none_ ↦ rw (none_, upload_rest) (h.called, λ e. absurd cc)
    | inr (content, got) ↦ elim (Bool-cases (str_eq (u.blob_id content) oid)) [
      | inr differs ↦ rw (got, upload_rest) (rw differs (h.called, λ e. absurd cc))
      | inl same ↦
          let its = (eq_iff (u.blob_id content) oid).0 same in
          elim (Bool-cases (is_full u limits content b)) [
            | inl full ↦
                rw (got, upload_rest)
                  (rw same (
                    rw full (
                      after content its (λ k held. upload_rest-Uploaded oids k held some_)
                        (flush u limits b) (flush-Flushed b h))))
            | inr open_ ↦
                rw (got, upload_rest)
                  (rw same (
                    rw open_ (
                      let (calls, went) =
                        upload_rest-Uploaded oids (added u limits oid content b)
                          (added-Held oid content b h its some_ (inr open_)) some_ in
                      (
                        calls,
                        λ e.
                            went e
                            ∙ ap (λ l. joined b.calls ++ l) (append_assoc b.oids (oid ∷ []) oids),
                      ))))
          ]
    ]
  ]
    where
      after :
          (content : Content)
          → u.blob_id content ≡ oid
          → ((k : Batch) → Held k → Uploaded k oids (upload_rest u limits oids k))
          → (p : Batch × Result UploadError (Unit {0})) → Flushed b p
          → Uploaded b (oid ∷ oids) (elim p.1 [
            | err e ↦ (p.0, err e)
            | ok _ ↦ upload_rest u limits oids (added u limits oid content p.0)
          ])
      after content its later (flushed, err e) (calls, went) = (calls, λ f. absurd cc)
      after content its later (flushed, ok _) (calls, went) =
          let (h', empty, no_oids, _, same) = went refl in
          let (calls', went') =
            later (added u limits oid content flushed)
              (added-Held oid content flushed h' its some_ (inl empty)) in
          (
            calls',
            λ e.
                went' e
                ∙ ap (λ l. joined flushed.calls ++ ((l ++ oid ∷ []) ++ oids)) no_oids
                ∙ ap (λ l. l ++ (oid ∷ oids)) same
                ∙ append_assoc (joined b.calls) b.oids (oid ∷ oids),
          )

  -- `upload`, whatever the server answers and whichever files cannot be read or have changed: each
  -- call it makes holds at least one blob, no more than the server's limit of blobs, and no more than
  -- its limit of bytes unless it is one blob alone; and it fails, or the calls hold the blobs
  -- that were to be uploaded, each in its place and none twice. The limit of blobs is positive.
  pub upload-within :
      (oids : List String)
      → 0 < limits.upload_blobs
      → All IsCall (upload u limits oids).0
        × (((e : UploadError) × ((upload u limits oids).1 ≡ err e))
            ⊎ (joined (upload u limits oids).0 ≡ oids))
  unfolding upload
  upload-within oids some_ =
      let start : Held empty_batch = record {
        few = omega arith;
        sized = refl;
        fits = inr (omega arith);
        named = refl;
        called = tt;
      } in
      let (calls, went) = upload_rest-Uploaded oids empty_batch start some_ in
      (
        calls,
        elim (Result-cases (upload_rest u limits oids empty_batch).1) [
          | inl failed ↦ inl failed
          | inr (_, done) ↦ inr (went done)
        ],
      )
