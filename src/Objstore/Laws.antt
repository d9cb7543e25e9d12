-- ===== src/Objstore/Laws.antt =====
-- internal/objstore/objstore.go: what is put is what is got, and nothing stored is lost.
use pgdesign.Base.{
  ℕ, ◌<◌, Text, List, ◌∷◌, Bool, true, false, not, none, some, Result, ok, err, text_eq,
  text_eq_iff, take, drop, length, ltb, ◌==◌, ◌≡◌, ◌≢◌, refl, arith, Bool-cases, Option-cases, ◌⊎◌,
  inl, inr, sym, ◌∙◌, ap, subst,
}
use pgdesign.Objstore.{
  Store, Files, Disk, Call, stat, remove_temp, read_all, StoreError, epoch_mismatch, io_error,
  read_file, get_uint32, magic, header_len, envelope, object_path, put, get, open_object,
}
use pgdesign.Objstore.Cases.{PutCase, failed, abandoned, found, made, put-cases, read_again}
use pgdesign.Objstore.Stored.{
  never, open_envelope, IsStore, IsCollisionFree, get_at, same_files, stored_at, keep_old,
  added_file, write-IsStore, temp-IsStore, get_stored,
}

module _ (hash : List ℕ → Text) (join : Text → Text → Text → Text) where
  -- What a run of Put keeps to; `out` is its result and the files after it.
  pub record Kept (disk : Disk) (s : Store) (content : List ℕ) (fs : Files)
      (out : Result StoreError Text × Files) : Type 0 where
    pub store : IsStore hash join s out.1
    pub old : (p : Text) (raw : List ℕ) → read_file p fs ≡ some raw → read_file p out.1 ≡ some raw
    pub new :
        (p : Text) (raw : List ℕ)
        → read_file p out.1 ≡ some raw
        → (read_file p fs ≡ some raw)
          ⊎ (out.0 ≡ ok (hash content))
            × (p ≡ object_path hash join s (hash content))
            × (raw ≡ envelope s.epoch content)
          ⊎ (p ≡ disk.temp)
            × (disk.fails remove_temp ≡ true)
            × ((c : Call) × (disk.fails c ≡ true) × (out.0 ≡ err (io_error c)))
    pub got :
        (id : Text)
        → out.0 ≡ ok id
        → (id ≡ hash content) × (get hash join never s id out.1 ≡ ok content)
    pub done : ((c : Call) → disk.fails c ≡ false) → out.0 ≡ ok (hash content)

  module _ (disk : Disk) (s : Store) (content : List ℕ) (fs : Files) (small : s.epoch < 4294967296)
      (free : IsCollisionFree hash join s)
      (apart : (d : List ℕ) → disk.temp ≢ object_path hash join s (hash d))
      (fresh : read_file disk.temp fs ≡ none) (w : IsStore hash join s fs) where
    Kept-of :
        (out : Result StoreError Text × Files)
        → PutCase hash join disk s content fs out
        → Kept disk s content fs out
    Kept-of (res, gs) (failed c f is same) = record {
      store = same_files hash join s fs gs same w;
      old = λ p raw h. same p ∙ h;
      new = λ p raw h. inl (sym (same p) ∙ h);
      got = λ id h. cc;
      done = λ all. cc (all c, f);
    }
    Kept-of (res, gs) (abandoned c b f r is at) = record {
      store =
          subst (IsStore hash join s) (sym at) (temp-IsStore hash join s disk.temp b fs apart w);
      old = λ p raw h. rw at (keep_old hash join disk.temp p b raw fs fresh h);
      new = λ p raw h. elim (added_file hash join disk.temp p b raw fs (rw at at h)) [
        | inl (here, same) ↦ inr (inr (sym here, r, (c, f, is)))
        | inr before ↦ inl before
      ];
      got = λ id h. cc;
      done = λ all. cc (all c, f);
    }
    Kept-of (res, gs) (found raw there is) =
        let result : res ≡ ok (hash content) =
          ap (λ (o : Result StoreError Text × Files). o.0) is in
        let files : gs ≡ fs = ap (λ (o : Result StoreError Text × Files). o.1) is in
        record {
          store = subst (IsStore hash join s) (sym files) w;
          old = λ p r h. rw files h;
          new = λ p r h. inl (rw files at h);
          got = λ id h.
              let named : id ≡ hash content = cc in
              (
                named,
                rw (named, files)
                    (get_stored hash join s content raw fs small
                      (stored_at hash join s fs w content raw there) there),
              );
          done = λ all. result;
        }
    Kept-of (res, gs) (made none_there result same) =
        let path = object_path hash join s (hash content) in
        let raw = envelope s.epoch content in
        record {
          store =
              same_files hash join s ((path, raw) ∷ fs) gs same
                (write-IsStore hash join s content fs free w);
          old = λ p r h. same p ∙ keep_old hash join path p raw r fs none_there h;
          new = λ p r h. elim (added_file hash join path p raw r fs (sym (same p) ∙ h)) [
            | inl (here, is) ↦ inr (inl (result, sym here, sym is))
            | inr before ↦ inl before
          ];
          got = λ id h.
              let named : id ≡ hash content = cc in
              (
                named,
                rw named (
                    get_stored hash join s content raw gs small refl
                      (same path ∙ read_again hash join path raw fs)),
              );
          done = λ all. result;
        }

    -- Put on a store of its own epoch, with an epoch of 32 bits, no collisions, and a temp file whose
    -- path is new and no object's, whatever calls fail, os.Remove among them: the store stays one and
    -- no file that it held changes or goes. A file that is new is the object, and Put then returns
    -- its id, or the temp file, and then os.Remove fails after another failed call that Put returns
    -- as its error. When Put returns an id, it is the hash of the content and Get gives the content
    -- back under it; and Put returns it when no call fails.
    pub put-get : Kept disk s content fs (put hash join disk s content fs)
    put-get =
        Kept-of (put hash join disk s content fs) (put-cases hash join disk s content fs fresh)

  open_sound :
      (s : Store) (id : Text) (raw content : List ℕ)
      → open_object hash join s id raw ≡ ok content
      → (hash content ≡ id) × (get_uint32 (drop 4 raw) ≡ s.epoch)
  unfolding open_object
  open_sound s id raw content h = elim (Bool-cases (ltb (length raw) header_len)) [
    | inl a ↦ cc (rw a at h)
    | inr a ↦ elim (Bool-cases (not (text_eq (take 4 raw) magic))) [
      | inl b ↦ cc (rw (a, b) at h)
      | inr b ↦ elim (Bool-cases (not (get_uint32 (drop 4 raw) == s.epoch))) [
        | inl c ↦ cc (rw (a, b, c) at h)
        | inr c ↦ elim (Bool-cases (not (text_eq (hash (drop header_len raw)) id))) [
          | inl d ↦ cc (rw (a, b, c, d) at h)
          | inr d ↦
              let same : drop header_len raw ≡ content = cc (rw (a, b, c, d) at h) in
              (
                rw (sym same) ((text_eq_iff (hash (drop header_len raw)) id).0 (ground arith)),
                ground arith,
              )
        ]
      ]
    ]
  ]

  -- Whatever the files hold and whatever calls fail, content that Get returns hashes to the id,
  -- and the file it comes from records the epoch of the store.
  pub get_sound :
      (fails : Call → Bool) (s : Store) (id : Text) (fs : Files) (content : List ℕ)
      → get hash join fails s id fs ≡ ok content
      → (hash content ≡ id)
        × ((raw : List ℕ) × (read_file (object_path hash join s id) fs ≡ some raw)
            × (get_uint32 (drop 4 raw) ≡ s.epoch))
  unfolding get
  get_sound fails s id fs content h = elim (Bool-cases (fails read_all)) [
    | inl f ↦ cc (rw f at h)
    | inr f ↦ elim (Option-cases (read_file (object_path hash join s id) fs)) [
      | inl n ↦ cc (rw (f, n) at h)
      | inr (raw, e) ↦ let o = open_sound s id raw content (rw (f, e) at h) in (o.0, (raw, e, o.1))
    ]
  ]

  -- When an object was stored at one epoch, a Put of the same content through a store of another
  -- epoch on the same root, whose os.Stat does not fail, reports success without writing, and Get through that store then fails
  -- with an epoch mismatch.
  pub put-get_other_epoch :
      (disk : Disk) (s t : Store) (content : List ℕ) (fs : Files)
      → disk.fails stat ≡ false
      → s.epoch < 4294967296
      → t.epoch ≢ s.epoch
      → read_file (object_path hash join t (hash content)) fs ≡ some (envelope s.epoch content)
      → (put hash join disk t content fs ≡ (ok (hash content), fs))
        × (get hash join never t (hash content) fs
            ≡ err (epoch_mismatch (hash content) t.epoch s.epoch))
  unfolding put
  put-get_other_epoch disk s t content fs seen small apart e =
      let differ : not (s.epoch == t.epoch) ≡ true = ground arith in
      (
        rw (seen, e) refl,
        get_at hash join t (hash content) fs (envelope s.epoch content) e
            ∙ (open_envelope hash join t s.epoch content small ∙ rw differ refl),
      )
