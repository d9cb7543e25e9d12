-- ===== src/Diff/Match/Truncated.antt =====
-- internal/diff/match.go, matchObjectsTrunc: which objects are paired.
use pgdesign.Base.{
  ℕ, Text, List, [], ◌∷◌, map, true, some, none, take, In, inl, inr, ◌⊎◌, ◌↔◌, ◌≡◌, ◌≢◌, refl, sym,
  ◌∙◌, ap, subst, arith, Bool-cases, Option-cases, text_eq, text_eq_iff, elem, length, zero, suc,
  leb, ◌≤◌,
}
use pgdesign.Diff.Match.{
  truncate_ident, max_ident_bytes, Pair, by_key, resolve_trunc, match_loop, match_objects_trunc,
}
use pgdesign.Diff.Match.Pairing.{by_key-some, by_key-none, match_loop_lem, In-unmarked}
use pgdesign.Diff.Match.{truncation_collisions}
use pgdesign.Diff.Match.Grouped.{no_collisions}
use pgdesign.Diff.Match.Collisions.{truncate_ident_lem}
use pgdesign.Diff.Match.Exact.{elem-map}

length-take_le : (n : ℕ) (s : Text) → length (take n s) ≤ n
length-take_le zero s = omega arith
length-take_le (suc n) [] = omega arith
length-take_le (suc n) (x ∷ s) = omega (arith, length-take_le n s)

leb_of_le : (a b : ℕ) → a ≤ b → leb a b ≡ true
leb_of_le a b h = ground arith

truncate_short : (s : Text) → length s ≤ max_ident_bytes → truncate_ident s ≡ s
unfolding truncate_ident
truncate_short s h = rw (leb_of_le (length s) max_ident_bytes h) refl

truncate_twice : (s : Text) → truncate_ident (truncate_ident s) ≡ truncate_ident s
unfolding truncate_ident
truncate_twice s = elim (Bool-cases (leb (length s) max_ident_bytes)) [
  | inl short ↦ rw short (rw short refl)
  | inr long ↦ rw long (truncate_short (take max_ident_bytes s) (length-take_le max_ident_bytes s))
]

module _ {T : Type 0} (key : T → Text) where
  -- No object of the list has the key.
  abbrev pub IsAbsent : List T → Text → Type 0
  IsAbsent actual k = (b : T) → In b actual → key b ≢ k

  resolve_trunc-some :
      (actual : List T) (k : Text) (a : T) (j : Text)
      → resolve_trunc key actual k ≡ some (a, j)
      → In a actual × (key a ≡ j) × ((j ≡ k) ⊎ IsAbsent actual k × (j ≡ truncate_ident k))
  unfolding resolve_trunc
  resolve_trunc-some actual k a j h = elim (Option-cases (by_key key k actual)) [
    | inr (b, e) ↦
        let found : some (b, k) ≡ some (a, j) = rw (e, resolve_trunc) at h in
        let same : b ≡ a = cc in
        let named : k ≡ j = cc in
        let (m, n) = by_key-some key k actual b e in
        (subst (λ x. In x actual) same m, sym (ap key same) ∙ (n ∙ named), inl (sym named))
    | inl e ↦ elim (Bool-cases (text_eq (truncate_ident k) k)) [
      | inl t ↦ cc (rw (e, t, resolve_trunc) at h)
      | inr t ↦ elim (Option-cases (by_key key (truncate_ident k) actual)) [
        | inl f ↦ cc (rw (e, t, f, resolve_trunc) at h)
        | inr (b, f) ↦
            let found : some (b, truncate_ident k) ≡ some (a, j) =
              rw (e, t, f, resolve_trunc) at h in
            let same : b ≡ a = cc in
            let named : truncate_ident k ≡ j = cc in
            let (m, n) = by_key-some key (truncate_ident k) actual b f in
            (
              subst (λ x. In x actual) same m,
              sym (ap key same) ∙ (n ∙ named),
              inr (λ c m. by_key-none key k actual c e m, sym named),
            )
      ]
    ]
  ]

  resolve_trunc-none :
      (actual : List T) (k : Text)
      → resolve_trunc key actual k ≡ none
      → IsAbsent actual k × IsAbsent actual (truncate_ident k)
  unfolding resolve_trunc
  resolve_trunc-none actual k h = elim (Option-cases (by_key key k actual)) [
    | inr (b, e) ↦ cc (rw (e, resolve_trunc) at h)
    | inl e ↦
        let absent : IsAbsent actual k = λ b m. by_key-none key k actual b e m in
        elim (Bool-cases (text_eq (truncate_ident k) k)) [
          | inl t ↦
              let same : truncate_ident k ≡ k = (text_eq_iff (truncate_ident k) k).0 t in
              (absent, subst (IsAbsent actual) (sym same) absent)
          | inr t ↦ elim (Option-cases (by_key key (truncate_ident k) actual)) [
            | inl f ↦ (absent, λ b m. by_key-none key (truncate_ident k) actual b f m)
            | inr (b, f) ↦ cc (rw (e, t, f, resolve_trunc) at h)
          ]
        ]
  ]

  absent_none :
      (actual : List T) (k : Text)
      → IsAbsent actual k
      → IsAbsent actual (truncate_ident k)
      → resolve_trunc key actual k ≡ none
  absent_none actual k f g = elim (Option-cases (resolve_trunc key actual k)) [
    | inl e ↦ e
    | inr ((a, j), e) ↦
        let (m, named, how) = resolve_trunc-some actual k a j e in
        elim how [
          | inl is ↦ elim (f a m (named ∙ is)) [ ]
          | inr (absent, is) ↦ elim (g a m (named ∙ is)) [ ]
        ]
  ]

  -- matchObjectsTrunc, for all lists: every desired object is paired or added. A pair joins a desired
  -- object and an actual one with its key, or, where no actual object has its key, one whose key is
  -- the first 63 bytes of it. The added objects are the desired ones such that no actual object has
  -- their key nor the first 63 bytes of it, and the removed objects are the actual ones whose key no
  -- paired object has.
  pub match_objects_trunc_correct :
      (desired actual : List T)
      → ((p : Pair T)
          → In p (match_objects_trunc key desired actual).matched
          → In p.desired desired
            × In p.actual actual
            × ((key p.actual ≡ key p.desired)
                ⊎ IsAbsent actual (key p.desired) × (key p.actual ≡ take 63 (key p.desired))))
        × ((d : T)
            → In d desired
            → In d (match_objects_trunc key desired actual).added
              ⊎ ((p : Pair T) × In p (match_objects_trunc key desired actual).matched
                  × (p.desired ≡ d)))
        × ((d : T)
            → In d (match_objects_trunc key desired actual).added
              ↔ In d desired × IsAbsent actual (key d) × IsAbsent actual (take 63 (key d)))
        × ((a : T)
            → In a (match_objects_trunc key desired actual).removed
              ↔ In a actual
                × ((p : Pair T)
                    → In p (match_objects_trunc key desired actual).matched
                    → key p.actual ≢ key a))
  unfolding match_objects_trunc
  match_objects_trunc_correct desired actual =
      let pass = match_loop key (resolve_trunc key actual) desired in
      let l = match_loop_lem key (resolve_trunc key actual) desired in
      (
        λ p m.
            let (i, (k, e)) = l.paired p m in
            let (j, same, how) = resolve_trunc-some actual (key p.desired) p.actual k e in
            (
              i,
              j,
              elim how [
                | inl whole ↦ inl (same ∙ whole)
                | inr (a, cut) ↦ inr (a, same ∙ (cut ∙ truncate_ident_lem (key p.desired)))
              ],
            ),
        l.covered,
        λ d.
            let cut = truncate_ident_lem (key d) in
            (
              λ m.
                  let (i, e) = (l.unpaired d).0 m in
                  let (f, g) = resolve_trunc-none actual (key d) e in
                  (i, f, subst (IsAbsent actual) cut g),
              λ (i, f, g).
                  (l.unpaired d).1
                    (i, absent_none actual (key d) f (subst (IsAbsent actual) (sym cut) g)),
            ),
        λ a.
            let u = In-unmarked key pass.keys actual a in
            (
              λ m.
                  let (i, e) = u.0 m in
                  (
                    i,
                    λ p n same.
                        let (w, (k, f)) = l.paired p n in
                        let (j, named, how) =
                          resolve_trunc-some actual (key p.desired) p.actual k f in
                        let is : k ≡ key a = sym named ∙ same in
                        cc ((l.marked k).1 (p, n, f), (rw (sym is) at e)),
                  ),
              λ (i, h). u.1 (
                i,
                elim (Bool-cases (elem (key a) pass.keys)) [
                  | inl t ↦
                      let (p, n, f) = (l.marked (key a)).0 t in
                      let (j, named, how) =
                        resolve_trunc-some actual (key p.desired) p.actual (key a) f in
                      elim (h p n named) [ ]
                  | inr f ↦ f
                ],
              ),
            ),
      )

  same_cut :
      (actual : List T) (d : T) (a : T) (k : Text)
      → resolve_trunc key actual (key d) ≡ some (a, k)
      → truncate_ident (key a) ≡ truncate_ident (key d)
  same_cut actual d a k e =
      let (j, same, how) = resolve_trunc-some actual (key d) a k e in
      elim how [
        | inl whole ↦ ap truncate_ident (same ∙ whole)
        | inr (absent, cut) ↦ ap truncate_ident (same ∙ cut) ∙ truncate_twice (key d)
      ]

  -- When the guard reports no collision among the desired keys, matchObjectsTrunc pairs no two
  -- desired objects of different keys with actual objects of the same key.
  pub match_objects_trunc_injective :
      (desired actual : List T)
      → truncation_collisions (map key desired) ≡ []
      → (p q : Pair T) → In p (match_objects_trunc key desired actual).matched
      → In q (match_objects_trunc key desired actual).matched
      → key p.actual ≡ key q.actual
      → key p.desired ≡ key q.desired
  unfolding match_objects_trunc
  match_objects_trunc_injective desired actual none_found p q m n same =
      let l = match_loop_lem key (resolve_trunc key actual) desired in
      let (i, (j, e)) = l.paired p m in
      let (i', (j', f)) = l.paired q n in
      (no_collisions (map key desired)).0 none_found (key p.desired) (key q.desired)
        ((elem-map key (key p.desired) desired).1 (p.desired, i, refl))
        ((elem-map key (key q.desired) desired).1 (q.desired, i', refl))
        (sym (same_cut actual p.desired p.actual j e)
          ∙ (ap truncate_ident same ∙ same_cut actual q.desired q.actual j' f))
