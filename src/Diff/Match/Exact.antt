-- ===== src/Diff/Match/Exact.antt =====
-- internal/diff/match.go, matchObjects: which objects are paired.
use pgdesign.Base.{
  Text, List, [], ◌∷◌, map, true, Option, none, some, In, inl, inr, ◌⊎◌, ◌↔◌, ◌≡◌, ◌≢◌, refl, sym,
  ◌∙◌, ap, subst, arith, Bool-cases, Option-cases, text_eq, text_eq_iff, elem,
}
use pgdesign.Diff.Match.{Pair, by_key, resolve, match_objects}
use pgdesign.Diff.Match.Pairing.{by_key-some, by_key-none, match_loop_lem, In-unmarked}

module _ {T : Type 0} (key : T → Text) where
  resolve-some :
      (actual : List T) (k : Text) (a : T) (j : Text)
      → resolve key actual k ≡ some (a, j)
      → In a actual × (key a ≡ k)
  unfolding resolve
  resolve-some actual k a j h = elim (Option-cases (by_key key k actual)) [
    | inl e ↦ cc (rw e at h)
    | inr (b, e) ↦
        let found : some (b, k) ≡ some (a, j) = rw e at h in
        let same : b ≡ a = cc in
        subst (λ x. In x actual × (key x ≡ k)) same (by_key-some key k actual b e)
  ]

  resolve-none :
      (actual : List T) (k : Text) → resolve key actual k ≡ none → (a : T) → In a actual → key a ≢ k
  unfolding resolve
  resolve-none actual k h a m = elim (Option-cases (by_key key k actual)) [
    | inl e ↦ by_key-none key k actual a e m
    | inr (b, e) ↦ cc (rw e at h)
  ]

  pub elem-map :
      (k : Text) (ds : List T) → (elem k (map key ds) ≡ true) ↔ ((d : T) × In d ds × (key d ≡ k))
  unfolding elem
  elem-map k [] = (λ h. cc, λ (d, m, e). elim m [ ])
  elem-map k (x ∷ ds) =
      let ih = elem-map k ds in
      (
        λ h. elim (Bool-cases (text_eq k (key x))) [
          | inl t ↦ (x, inl refl, sym ((text_eq_iff k (key x)).0 t))
          | inr f ↦ let (d, m, e) = ih.0 (rw f at h) in (d, inr m, e)
        ],
        λ (d, m, e). elim m [
          | inl same ↦
              let t : text_eq k (key x) ≡ true = (text_eq_iff k (key x)).1 (sym e ∙ ap key same) in
              ground arith
          | inr i ↦ let old = ih.1 (d, i, e) in ground arith
        ],
      )

  none_of_no :
      (find : Text → Option (T × Text)) (k : Text)
      → ((a : T) (j : Text) → find k ≢ some (a, j))
      → find k ≡ none
  none_of_no find k h = elim (Option-cases (find k)) [
    | inl e ↦ e
    | inr ((a, j), e) ↦ elim (h a j e) [ ]
  ]

  -- matchObjects pairs a desired object with an actual one of the same key, and every desired
  -- object is paired or added; the added objects are the desired ones whose key no actual object
  -- has, and the removed objects are the actual ones whose key no desired object has.
  pub match_objects_correct :
      (desired actual : List T)
      → ((p : Pair T)
          → In p (match_objects key desired actual).matched
          → In p.desired desired × In p.actual actual × (key p.actual ≡ key p.desired))
        × ((d : T)
            → In d desired
            → In d (match_objects key desired actual).added
              ⊎ ((p : Pair T) × In p (match_objects key desired actual).matched × (p.desired ≡ d)))
        × ((d : T)
            → In d (match_objects key desired actual).added
              ↔ In d desired × ((a : T) → In a actual → key a ≢ key d))
        × ((a : T)
            → In a (match_objects key desired actual).removed
              ↔ In a actual × ((d : T) → In d desired → key d ≢ key a))
  unfolding match_objects
  match_objects_correct desired actual =
      let l = match_loop_lem key (resolve key actual) desired in
      (
        λ p m.
            let (i, (k, e)) = l.paired p m in
            let (j, same) = resolve-some actual (key p.desired) p.actual k e in (i, j, same),
        l.covered,
        λ d. (
          λ m. let (i, e) = (l.unpaired d).0 m in (i, resolve-none actual (key d) e),
          λ (i, h). (l.unpaired d).1 (
            i,
            none_of_no (resolve key actual) (key d)
                (λ a j e. let (m, same) = resolve-some actual (key d) a j e in h a m same),
          ),
        ),
        λ a.
            let u = In-unmarked key (map key desired) actual a in
            let k = elem-map (key a) desired in
            (
              λ m. let (i, e) = u.0 m in (i, λ d n same. cc (k.1 (d, n, same), e)),
              λ (i, h). u.1 (
                i,
                elim (Bool-cases (elem (key a) (map key desired))) [
                  | inl t ↦ let (d, n, same) = k.0 t in elim (h d n same) [ ]
                  | inr f ↦ f
                ],
              ),
            ),
      )
