-- ===== src/Objstore/Cases.antt =====
-- internal/objstore/objstore.go, Put: the files after each way it ends.
use pgdesign.Base.{
  ℕ, Text, List, [], ◌∷◌, true, false, none, some, Result, ok, err, if◌then◌else◌, text_eq,
  text_eq_iff, text_eq_refl, ◌≡◌, refl, arith, Bool-cases, Option-cases, inl, inr, sym,
}
use pgdesign.Objstore.{
  Store, Files, Disk, Call, stat, mkdir, create_temp, write_temp, close_temp, rename_temp,
  remove_temp, StoreError, io_error, read_file, remove_file, rename_file, envelope, object_path,
  abandon, stage, write_object, put,
}

module _ (hash : List ℕ → Text) (join : Text → Text → Text → Text) where
  pub read_again : (p : Text) (raw : List ℕ) (fs : Files) → read_file p ((p, raw) ∷ fs) ≡ some raw
  unfolding read_file
  read_again p raw fs = rw (text_eq_refl p) refl

  pub read_other :
      (q p : Text) (raw : List ℕ) (fs : Files)
      → text_eq p q ≡ false
      → read_file q ((p, raw) ∷ fs) ≡ read_file q fs
  unfolding read_file
  read_other q p raw fs h = rw h refl

  read-remove_file :
      (t q : Text) (fs : Files)
      → read_file q (remove_file t fs) ≡ (if text_eq t q then none else read_file q fs)
  unfolding read_file remove_file
  read-remove_file t q [] = ground arith
  read-remove_file t q ((p, raw) ∷ fs) =
      ground (arith, read-remove_file t q fs, text_eq_iff p t, text_eq_iff p q, text_eq_iff t q)

  -- A new file comes and goes.
  read_clean :
      (t : Text) (b : List ℕ) (fs : Files) (q : Text)
      → read_file t fs ≡ none
      → read_file q (remove_file t ((t, b) ∷ fs)) ≡ read_file q fs
  unfolding remove_file
  read_clean t b fs q fresh = rw (text_eq_refl t) (elim (Bool-cases (text_eq t q)) [
    | inl same ↦ rw (read-remove_file t q fs, same) (rw ((text_eq_iff t q).0 same) at (sym fresh))
    | inr other ↦ rw (read-remove_file t q fs, other) refl
  ])

  renamed :
      (t p : Text) (raw : List ℕ) (fs : Files)
      → rename_file t p ((t, raw) ∷ fs) ≡ (p, raw) ∷ remove_file t ((t, raw) ∷ fs)
  unfolding rename_file
  renamed t p raw fs = rw (read_again t raw fs, rename_file) refl

  read_cons :
      (q p : Text) (raw : List ℕ) (fs gs : Files)
      → read_file q fs ≡ read_file q gs
      → read_file q ((p, raw) ∷ fs) ≡ read_file q ((p, raw) ∷ gs)
  unfolding read_file
  read_cons q p raw fs gs h = rw h refl

  -- What Put does: a call fails and the files are as they were, or the temp file is left, or the
  -- object is there already, or it is new.
  pub data PutCase (disk : Disk) (s : Store) (content : List ℕ) (fs : Files)
      (out : Result StoreError Text × Files) : Type 0 where
    failed :
        (c : Call)
        → disk.fails c ≡ true
        → out.0 ≡ err (io_error c)
        → ((q : Text) → read_file q out.1 ≡ read_file q fs)
        → PutCase disk s content fs out
    abandoned :
        (c : Call) (b : List ℕ)
        → disk.fails c ≡ true
        → disk.fails remove_temp ≡ true
        → out.0 ≡ err (io_error c)
        → out.1 ≡ (disk.temp, b) ∷ fs
        → PutCase disk s content fs out
    found :
        (raw : List ℕ)
        → read_file (object_path hash join s (hash content)) fs ≡ some raw
        → out ≡ (ok (hash content), fs)
        → PutCase disk s content fs out
    made :
        read_file (object_path hash join s (hash content)) fs ≡ none
        → out.0 ≡ ok (hash content)
        → ((q : Text)
            → read_file q out.1
              ≡ read_file q
                  ((object_path hash join s (hash content), envelope s.epoch content) ∷ fs))
        → PutCase disk s content fs out

  module _ (disk : Disk) (s : Store) (content : List ℕ) (fs : Files)
      (fresh : read_file disk.temp fs ≡ none) where
    abandon-cases :
        (c : Call) (b : List ℕ)
        → disk.fails c ≡ true
        → PutCase disk s content fs (abandon disk c ((disk.temp, b) ∷ fs))
    unfolding abandon
    abandon-cases c b f = elim (Bool-cases (disk.fails remove_temp)) [
      | inl r ↦ abandoned c b f r refl (rw r refl)
      | inr r ↦ failed c f refl (λ q. rw r (read_clean disk.temp b fs q fresh))
    ]

    stage-cases :
        read_file (object_path hash join s (hash content)) fs ≡ none
        → PutCase disk s content fs (
            stage disk
              (hash content)
              (object_path hash join s (hash content))
              (envelope s.epoch content)
              fs)
    unfolding stage
    stage-cases none_there =
        let path = object_path hash join s (hash content) in
        let raw = envelope s.epoch content in
        elim (Bool-cases (disk.fails write_temp)) [
          | inl f ↦ rw f (abandon-cases write_temp disk.left f)
          | inr f ↦ elim (Bool-cases (disk.fails close_temp)) [
            | inl g ↦ rw (f, g) (abandon-cases close_temp disk.left g)
            | inr g ↦ elim (Bool-cases (disk.fails rename_temp)) [
              | inl h ↦ rw (f, g, h) (abandon-cases rename_temp raw h)
              | inr h ↦
                  rw (f, g, h, renamed disk.temp path raw fs)
                    (made none_there refl (λ q.
                      read_cons q path raw (remove_file disk.temp ((disk.temp, raw) ∷ fs)) fs
                        (read_clean disk.temp raw fs q fresh)))
            ]
          ]
        ]

    pub put-cases : PutCase disk s content fs (put hash join disk s content fs)
    unfolding put write_object
    put-cases = elim (Bool-cases (disk.fails stat)) [
      | inl f ↦ rw f (failed stat f refl (λ q. refl))
      | inr f ↦ elim (Option-cases (read_file (object_path hash join s (hash content)) fs)) [
        | inr (raw, e) ↦ rw (f, e) (found raw e refl)
        | inl e ↦ elim (Bool-cases (disk.fails mkdir)) [
          | inl g ↦ rw (f, e, g) (failed mkdir g refl (λ q. refl))
          | inr g ↦ elim (Bool-cases (disk.fails create_temp)) [
            | inl h ↦ rw (f, e, g, h) (failed create_temp h refl (λ q. refl))
            | inr h ↦ rw (f, e, g, h) (stage-cases e)
          ]
        ]
      ]
    ]
