-- ===== src/PathFinder/Reachable/Search.antt =====
-- internal/migrate/path_finder.go, reachable: the search decides whether a route exists.
use pgdesign.Base.{
  ℕ, zero, suc, ◌+◌, ◌≤◌, Text, List, [], ◌∷◌, map, Bool, true, false, In, inl, inr, ◌⊎◌, ◌↔◌, ◌≡◌,
  refl, arith, Bool-cases, length, text_eq, text_eq_iff, elem, subst, sym, ◌∙◌, missing, Within,
  missing_le_length,
}
use pgdesign.PathFinder.{CanonEdge, Scan, hit, more, scan, after_scan, search, reachable}
use pgdesign.PathFinder.Reachable.{Goes, Outcome, scan-Outcome}

-- A route of edges, each starting where the one before ends.
abbrev pub Route : List CanonEdge → Text → Text → List CanonEdge → Type 0
Route edges target f [] = f ≡ target
Route edges target f (e ∷ p) = In e edges × (e.parent ≡ f) × Route edges target e.target p

abbrev pub Reach : List CanonEdge → Text → Text → Type 0
Reach edges f target = (p : List CanonEdge) × Route edges target f p

targets : List CanonEdge → List Text
targets edges = map (λ e. e.target) edges

elem-targets :
    (e : CanonEdge) (edges : List CanonEdge) → In e edges → elem e.target (targets edges) ≡ true
unfolding elem targets
elem-targets e [] m = elim m [ ]
elem-targets e (x ∷ edges) (inl same) = rw same (ground (arith, text_eq_iff x.target x.target))
elem-targets e (x ∷ edges) (inr m) = ground (arith, elem-targets e edges m)

length-targets : (edges : List CanonEdge) → length (targets edges) ≡ length edges
unfolding targets
length-targets [] = refl
length-targets (e ∷ edges) = omega (arith, length-targets edges)

module _ (edges : List CanonEdge) where
  Route-snoc :
      (f a b : Text) (p : List CanonEdge) → Route edges a f p → Goes edges a b → Reach edges f b
  Route-snoc f a b [] r (e, m, par, to) = (e ∷ [], (m, par ∙ sym r, to))
  Route-snoc f a b (d ∷ p) (m, par, r) g =
      let (q, r') = Route-snoc d.target a b p r g in (d ∷ q, (m, par, r'))

  -- The revisions of the queue are reached.
  Reached : Text → List Text → Type 0
  Reached start queue = (a : Text) → elem a queue ≡ true → Reach edges start a

  module _ (target start : Text) where
    round_true :
        (next : List Text → List Text → Bool) (cur : Text) (visited queue : List Text) (s : Scan)
        → Outcome (targets edges) target cur edges visited queue s
        → Reached start (cur ∷ queue)
        → ((v q : List Text) → Reached start q → next v q ≡ true → Reach edges start target)
        → after_scan next s ≡ true
        → Reach edges start target
    unfolding after_scan Outcome Reached elem
    round_true next cur visited queue hit o r rec h =
        let (p, way) = r cur (ground (arith, text_eq_iff cur cur)) in
        Route-snoc start cur target p way o
    round_true next cur visited queue (more v q) o r rec h =
        rec v q
          (λ a m. elim (o.queued a m) [
            | inl old ↦ r a (ground arith)
            | inr g ↦
                let (p, way) = r cur (ground (arith, text_eq_iff cur cur)) in
                Route-snoc start cur a p way g
          ])
          h

    search-true :
        (fuel : ℕ) (visited queue : List Text)
        → Reached start queue
        → search fuel target edges visited queue ≡ true
        → Reach edges start target
    unfolding search
    search-true zero visited [] r h = cc
    search-true (suc fuel) visited [] r h = cc
    search-true zero visited (cur ∷ queue) r h = cc
    search-true (suc fuel) visited (cur ∷ queue) r h =
        round_true (search fuel target edges) cur visited queue
          (scan target cur edges visited queue)
          (scan-Outcome (targets edges) target cur edges visited queue
            (λ e m. elem-targets e edges m))
          r (search-true fuel) h

  -- What the search keeps: the marked revisions are in the queue, or all their targets are marked.
  Explored : List Text → List Text → Type 0
  Explored visited queue =
      (a : Text)
      → elem a visited ≡ true
      → (elem a queue ≡ true) ⊎ ((b : Text) → Goes edges a b → elem b visited ≡ true)

  -- A set that the edges do not leave and that holds what was marked, without the target.
  Separates : Text → List Text → Type 0
  Separates target visited =
      (cut : List Text) × Within visited cut
      × (elem target cut ≡ false)
      × ((a b : Text) → elem a cut ≡ true → Goes edges a b → elem b cut ≡ true)

  module _ (target : Text) where
    round_false :
        (next : List Text → List Text → Bool) (fuel : ℕ) (cur : Text) (visited queue : List Text)
        (s : Scan)
        → Outcome (targets edges) target cur edges visited queue s
        → elem target visited ≡ false
        → Explored visited (cur ∷ queue)
        → missing (targets edges) visited + length queue ≤ fuel
        → ((v q : List Text)
            → elem target v ≡ false
            → Explored v q
            → missing (targets edges) v + length q ≤ fuel
            → next v q ≡ false
            → Separates target v)
        → after_scan next s ≡ false
        → Separates target visited
    unfolding after_scan Outcome Explored Separates elem
    round_false next fuel cur visited queue hit o n x b rec h = cc
    round_false next fuel cur visited queue (more v q) o n x b rec h =
        let explored : Explored v q = λ a m. elim (o.new_queued a m) [
          | inr there ↦ inl there
          | inl old ↦ elim (x a old) [
            | inl waiting ↦ elim (Bool-cases (text_eq a cur)) [
              | inl same ↦
                  inr
                    (λ d g. o.marks d (subst (λ f. Goes edges f d) ((text_eq_iff a cur).0 same) g))
              | inr other ↦ inl (o.keeps_queue a (rw other at waiting))
            ]
            | inr closed ↦ inr (λ d g. o.keeps d (closed d g))
          ]
        ] in
        let (cut, w, away, closed) =
          rec v q (o.avoids n) explored (omega (arith, o.measure, b)) h in
        (cut, λ a m. w a (o.keeps a m), away, closed)

    search-false :
        (fuel : ℕ) (visited queue : List Text)
        → elem target visited ≡ false
        → Explored visited queue
        → missing (targets edges) visited + length queue ≤ fuel
        → search fuel target edges visited queue ≡ false
        → Separates target visited
    unfolding search Explored Separates elem
    search-false fuel visited [] n x b h =
        (visited, λ a m. m, n, λ a d m g. elim (x a m) [ inl q ↦ cc | inr c ↦ c d g ])
    search-false zero visited (cur ∷ queue) n x b h =
        let absurd : ⊥ = omega (arith, b) in elim absurd [ ]
    search-false (suc fuel) visited (cur ∷ queue) n x b h =
        round_false (search fuel target edges) fuel cur visited queue
          (scan target cur edges visited queue)
          (scan-Outcome (targets edges) target cur edges visited queue
            (λ e m. elem-targets e edges m))
          n x (omega (arith, b)) (search-false fuel) h

    separated :
        (f : Text) (p : List CanonEdge) (cut : List Text)
        → ((a b : Text) → elem a cut ≡ true → Goes edges a b → elem b cut ≡ true)
        → elem f cut ≡ true
        → Route edges target f p
        → elem target cut ≡ true
    separated f [] cut closed m r = rw (sym r) m
    separated f (e ∷ p) cut closed m (i, par, r) =
        separated e.target p cut closed (closed f e.target m (e, i, par, refl)) r

elem_one : (a b : Text) → elem a (b ∷ []) ≡ true → a ≡ b
unfolding elem
elem_one a b h = (text_eq_iff a b).0 (ground arith)

elem_self : (a : Text) → elem a (a ∷ []) ≡ true
unfolding elem
elem_self a = ground (arith, text_eq_iff a a)

-- `reachable` decides whether some route of edges leads from the start to the target: it finds
-- nothing else, and the search ends with the queue empty before it misses one.
pub reachable_correct :
    (start target : Text) (edges : List CanonEdge)
    → (reachable start target edges ≡ true) ↔ Reach edges start target
unfolding reachable Reached Explored Separates
reachable_correct start target edges = elim (Bool-cases (text_eq start target)) [
  | inl e ↦ (λ h. ([], (text_eq_iff start target).0 e), λ h. rw e refl)
  | inr n ↦
      let fuel = suc (length edges) in
      let one = start ∷ [] in
      let begun : elem target one ≡ false = elim (Bool-cases (elem target one)) [
        | inl m ↦ cc ((text_eq_iff start target).1 (sym (elem_one target start m)), n)
        | inr m ↦ m
      ] in
      (
        λ h.
            search-true edges target start fuel one one (λ a m. ([], sym (elem_one a start m)))
              (rw n at h),
        λ (p, r). rw n (elim (Bool-cases (search fuel target edges one one)) [
          | inl t ↦ t
          | inr f ↦
              let (cut, w, away, closed) =
                search-false edges target fuel one one begun (λ a m. inl m)
                  (omega (arith, missing_le_length (targets edges) one, length-targets edges)) f in
              cc (separated edges target start p cut closed (w start (elem_self start)) r, away)
        ]),
      )
]
