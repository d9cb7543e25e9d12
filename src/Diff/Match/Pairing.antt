-- ===== src/Diff/Match/Pairing.antt =====
-- internal/diff/match.go, the loop over the desired objects.
use pgdesign.Base.{
  Text, List, [], ◌∷◌, true, false, Option, none, some, In, inl, inr, ◌⊎◌, ◌↔◌, ◌≡◌, ◌≢◌, refl, sym,
  ◌∙◌, ap, subst, arith, Bool-cases, Option-cases, text_eq, text_eq_iff, elem,
}
use pgdesign.Diff.Match.{Pair, Pass, by_key, add_object, match_loop, unmarked}

module _ {T : Type 0} (key : T → Text) where
  pub by_key-some :
      (k : Text) (actual : List T) (a : T)
      → by_key key k actual ≡ some a
      → In a actual × (key a ≡ k)
  unfolding by_key
  by_key-some k [] a h = cc
  by_key-some k (b ∷ rest) a h = elim (Option-cases (by_key key k rest)) [
    | inr (c, e) ↦
        let same : c ≡ a = cc (rw (e, by_key) at h) in
        let (m, n) = by_key-some k rest c e in
        (inr (subst (λ x. In x rest) same m), subst (λ x. key x ≡ k) same n)
    | inl e ↦ elim (Bool-cases (text_eq (key b) k)) [
      | inl t ↦
          let same : b ≡ a = cc (rw (e, t, by_key) at h) in
          (inl (sym same), subst (λ x. key x ≡ k) same ((text_eq_iff (key b) k).0 t))
      | inr f ↦ cc (rw (e, f, by_key) at h)
    ]
  ]

  pub by_key-none :
      (k : Text) (actual : List T) (a : T) → by_key key k actual ≡ none → In a actual → key a ≢ k
  unfolding by_key
  by_key-none k [] a h m n = elim m [ ]
  by_key-none k (b ∷ rest) a h m n = elim (Option-cases (by_key key k rest)) [
    | inr (c, e) ↦ cc (rw (e, by_key) at h)
    | inl e ↦ elim (Bool-cases (text_eq (key b) k)) [
      | inl t ↦ cc (rw (e, t, by_key) at h)
      | inr f ↦ elim m [
        | inl same ↦ cc ((text_eq_iff (key b) k).1 (rw (sym same) n), f)
        | inr later ↦ by_key-none k rest a e later n
      ]
    ]
  ]

  -- What the loop leaves, for any way of finding the actual object of a key.
  pub record Loop (find : Text → Option (T × Text)) (ds : List T) (pass : Pass T) : Type 0 where
    pub paired :
        (p : Pair T)
        → In p pass.matched
        → In p.desired ds × ((k : Text) × (find (key p.desired) ≡ some (p.actual, k)))
    pub unpaired : (d : T) → In d pass.added ↔ In d ds × (find (key d) ≡ none)
    pub covered :
        (d : T) → In d ds → In d pass.added ⊎ ((p : Pair T) × In p pass.matched × (p.desired ≡ d))
    pub marked :
        (k : Text)
        → (elem k pass.keys ≡ true)
          ↔ ((p : Pair T) × In p pass.matched × (find (key p.desired) ≡ some (p.actual, k)))

  Loop-added :
      (find : Text → Option (T × Text)) (d : T) (ds : List T) (pass : Pass T)
      → find (key d) ≡ none
      → Loop find ds pass
      → Loop find (d ∷ ds) (add_object key d none pass)
  unfolding add_object
  Loop-added find d ds pass e l = record {
    paired = λ p m. let (i, f) = l.paired p m in (inr i, f);
    unpaired = λ c. (
      λ m. elim m [
        | inl same ↦ (inl same, rw same e)
        | inr m' ↦ let (i, f) = (l.unpaired c).0 m' in (inr i, f)
      ],
      λ (m, f). elim m [ inl same ↦ inl same | inr i ↦ inr ((l.unpaired c).1 (i, f)) ],
    );
    covered = λ c m. elim m [
      | inl same ↦ inl (inl same)
      | inr i ↦ elim (l.covered c i) [ inl a ↦ inl (inr a) | inr p ↦ inr p ]
    ];
    marked = l.marked;
  }

  Loop-matched :
      (find : Text → Option (T × Text)) (d a : T) (k : Text) (ds : List T) (pass : Pass T)
      → find (key d) ≡ some (a, k)
      → Loop find ds pass
      → Loop find (d ∷ ds) (add_object key d (some (a, k)) pass)
  unfolding add_object elem
  Loop-matched find d a k ds pass e l =
      let here : Pair T = record { desired = d; actual = a } in
      record {
        paired = λ p m. elim m [
          | inl same ↦ (inl (ap (λ (x : Pair T). x.desired) same), (k, rw same e))
          | inr m' ↦ let (i, f) = l.paired p m' in (inr i, f)
        ];
        unpaired = λ c. (
          λ m. let (i, f) = (l.unpaired c).0 m in (inr i, f),
          λ (m, f). elim m [ inl same ↦ cc (rw same at f, e) | inr i ↦ (l.unpaired c).1 (i, f) ],
        );
        covered = λ c m. elim m [
          | inl same ↦ inr (here, inl refl, sym same)
          | inr i ↦ elim (l.covered c i) [ inl b ↦ inl b | inr (p, q, same) ↦ inr (p, inr q, same) ]
        ];
        marked = λ j. (
          λ h. elim (Bool-cases (text_eq j k)) [
            | inl t ↦ (here, inl refl, rw ((text_eq_iff j k).0 t) e)
            | inr f ↦ let (p, m, g) = (l.marked j).0 (rw f at h) in (p, inr m, g)
          ],
          λ (p, m, g). elim m [
            | inl same ↦
                let both : some (a, k) ≡ some (p.actual, j) =
                  sym e ∙ (rw (ap (λ (x : Pair T). x.desired) same) at g) in
                let key_same : j ≡ k = cc in ground (arith, text_eq_iff j k)
            | inr m' ↦ let old = (l.marked j).1 (p, m', g) in ground arith
          ],
        );
      }

  pub match_loop_lem :
      (find : Text → Option (T × Text)) (ds : List T) → Loop find ds (match_loop key find ds)
  unfolding match_loop elem
  match_loop_lem find [] = record {
    paired = λ p m. elim m [ ];
    unpaired = λ d. (λ m. elim m [ ], λ (m, e). elim m [ ]);
    covered = λ d m. elim m [ ];
    marked = λ k. (λ h. cc, λ (p, m, e). elim m [ ]);
  }
  match_loop_lem find (d ∷ ds) =
      let rest = match_loop_lem find ds in
      elim (Option-cases (find (key d))) [
        | inl e ↦
            subst (λ o. Loop find (d ∷ ds) (add_object key d o (match_loop key find ds))) (sym e)
              (Loop-added find d ds (match_loop key find ds) e rest)
        | inr ((a, k), e) ↦
            subst (λ o. Loop find (d ∷ ds) (add_object key d o (match_loop key find ds))) (sym e)
              (Loop-matched find d a k ds (match_loop key find ds) e rest)
      ]

  pub In-unmarked :
      (keys : List Text) (actual : List T) (a : T)
      → In a (unmarked key keys actual) ↔ In a actual × (elem (key a) keys ≡ false)
  unfolding unmarked
  In-unmarked keys [] a = (λ m. elim m [ ], λ (m, e). elim m [ ])
  In-unmarked keys (b ∷ rest) a =
      let ih = In-unmarked keys rest a in
      elim (Bool-cases (elem (key b) keys)) [
        | inl out ↦ rw out (
          λ m. let (i, e) = ih.0 m in (inr i, e),
          λ (m, e). elim m [ inl same ↦ cc (rw same at e, out) | inr i ↦ ih.1 (i, e) ],
        )
        | inr kept ↦ rw kept (
          λ m. elim m [
            | inl same ↦ (inl same, rw same kept)
            | inr m' ↦ let (i, e) = ih.0 m' in (inr i, e)
          ],
          λ (m, e). elim m [ inl same ↦ inl same | inr i ↦ inr (ih.1 (i, e)) ],
        )
      ]
