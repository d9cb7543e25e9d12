-- ===== src/Objstore/Stored.antt =====
-- internal/objstore/objstore.go: the files of a store, and what Get reads from them.
use pgdesign.Base.{
  ℕ, suc, ◌<◌, Text, List, ◌∷◌, ◌++◌, Bool, false, not, none, some, ok, err, if◌then◌else◌, text_eq,
  text_eq_iff, text_eq_refl, length, ltb, ◌==◌, ◌≡◌, ◌≢◌, refl, arith, Bool-cases, ◌⊎◌, inl, inr,
  sym, ◌∙◌, ap,
}
use pgdesign.Objstore.{
  Store, Files, Call, epoch_mismatch, read_file, put_uint32, get_uint32, header_len, envelope,
  object_path, get, open_object,
}
use pgdesign.Objstore.Cases.{read_again, read_other}

uint32_round :
    (n : ℕ) (content : List ℕ) → n < 4294967296 → get_uint32 (put_uint32 n ++ content) ≡ n
unfolding get_uint32 put_uint32
uint32_round n content h = omega arith

some_bytes : {a b : List ℕ} → some a ≡ some b → a ≡ b
some_bytes e = cc

-- No call fails.
abbrev pub never : Call → Bool
never c = false

not_short : (n : ℕ) → ltb (suc (suc (suc (suc (suc (suc (suc (suc n)))))))) header_len ≡ false
not_short n = ground arith

module _ (hash : List ℕ → Text) (join : Text → Text → Text → Text) where
  pub open_envelope :
      (s : Store) (epoch : ℕ) (content : List ℕ)
      → epoch < 4294967296
      → open_object hash join s (hash content) (envelope epoch content) ≡ (
          if not (epoch == s.epoch)
          then err (epoch_mismatch (hash content) s.epoch epoch)
          else ok content)
  unfolding open_object envelope put_uint32 get_uint32 text_eq
  open_envelope s epoch content h =
      let back : get_uint32 (put_uint32 epoch ++ content) ≡ epoch = uint32_round epoch content h in
      rw (not_short (length content), back, text_eq_refl (hash content)) refl

  -- A file at the path of an object is the envelope of its content, at the store's epoch.
  unfoldable pub IsStore : Store → Files → Type 0
  IsStore s fs =
      (content raw : List ℕ)
      → read_file (object_path hash join s (hash content)) fs ≡ some raw
      → raw ≡ envelope s.epoch content

  -- Contents at one path are one: no two contents have the same digest or share a path.
  abbrev pub IsCollisionFree : Store → Type 0
  IsCollisionFree s =
      (c d : List ℕ) → object_path hash join s (hash c) ≡ object_path hash join s (hash d) → c ≡ d

  pub get_at :
      (s : Store) (id : Text) (fs : Files) (raw : List ℕ)
      → read_file (object_path hash join s id) fs ≡ some raw
      → get hash join never s id fs ≡ open_object hash join s id raw
  unfolding get
  get_at s id fs raw e = rw e refl

  open_own :
      (s : Store) (content : List ℕ)
      → s.epoch < 4294967296
      → open_object hash join s (hash content) (envelope s.epoch content) ≡ ok content
  open_own s content h =
      let same : not (s.epoch == s.epoch) ≡ false = ground arith in
      open_envelope s s.epoch content h ∙ rw same refl

  pub same_files :
      (s : Store) (fs gs : Files)
      → ((q : Text) → read_file q gs ≡ read_file q fs)
      → IsStore s fs
      → IsStore s gs
  unfolding IsStore
  same_files s fs gs same w content raw e =
      w content raw (sym (same (object_path hash join s (hash content))) ∙ e)

  pub stored_at :
      (s : Store) (fs : Files)
      → IsStore s fs
      → (content raw : List ℕ) → read_file (object_path hash join s (hash content)) fs ≡ some raw
      → raw ≡ envelope s.epoch content
  unfolding IsStore
  stored_at s fs w = w

  -- A file at a path where there was none.
  pub keep_old :
      (p q : Text) (new raw : List ℕ) (fs : Files)
      → read_file p fs ≡ none
      → read_file q fs ≡ some raw
      → read_file q ((p, new) ∷ fs) ≡ some raw
  keep_old p q new raw fs fresh h = elim (Bool-cases (text_eq p q)) [
    | inl same ↦ cc ((text_eq_iff p q).0 same, fresh, h)
    | inr other ↦ read_other hash join q p new fs other ∙ h
  ]

  pub added_file :
      (p q : Text) (new raw : List ℕ) (fs : Files)
      → read_file q ((p, new) ∷ fs) ≡ some raw
      → (p ≡ q) × (new ≡ raw) ⊎ (read_file q fs ≡ some raw)
  added_file p q new raw fs h = elim (Bool-cases (text_eq p q)) [
    | inl same ↦
        let at = (text_eq_iff p q).0 same in
        inl (at, some_bytes (sym (read_again hash join p new fs) ∙ (rw (sym at) at h)))
    | inr other ↦ inr (sym (read_other hash join q p new fs other) ∙ h)
  ]

  pub write-IsStore :
      (s : Store) (content : List ℕ) (fs : Files)
      → IsCollisionFree s
      → IsStore s fs
      → IsStore s ((object_path hash join s (hash content), envelope s.epoch content) ∷ fs)
  unfolding IsStore
  write-IsStore s content fs free w d raw e =
      let path = object_path hash join s (hash content) in
      let other = object_path hash join s (hash d) in
      elim (added_file path other (envelope s.epoch content) raw fs e) [
        | inl (at, is) ↦ let same : content ≡ d = free content d at in rw (sym same) (sym is)
        | inr old ↦ w d raw old
      ]

  pub temp-IsStore :
      (s : Store) (t : Text) (b : List ℕ) (fs : Files)
      → ((d : List ℕ) → t ≢ object_path hash join s (hash d))
      → IsStore s fs
      → IsStore s ((t, b) ∷ fs)
  unfolding IsStore
  temp-IsStore s t b fs apart w d raw e =
      elim (added_file t (object_path hash join s (hash d)) b raw fs e) [
        | inl (at, is) ↦ elim (apart d at) [ ]
        | inr old ↦ w d raw old
      ]

  pub get_stored :
      (s : Store) (content raw : List ℕ) (fs : Files)
      → s.epoch < 4294967296
      → raw ≡ envelope s.epoch content
      → read_file (object_path hash join s (hash content)) fs ≡ some raw
      → get hash join never s (hash content) fs ≡ ok content
  get_stored s content raw fs small is e =
      get_at s (hash content) fs raw e
      ∙ (ap (open_object hash join s (hash content)) is ∙ open_own s content small)
