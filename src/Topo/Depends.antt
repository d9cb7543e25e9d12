-- ===== src/Topo/Depends.antt =====
-- internal/graph/topo.go, TopoSort: the edges of the arrays against the dependencies between the
-- items.
use pgdesign.Base.{
  ℕ, zero, suc, ◌+◌, Text, List, [], ◌∷◌, true, false, not, ◌&&◌, some, none, In, inl, inr, ◌≡◌,
  ◌≢◌, refl, arith, Bool-cases, if◌then◌else◌, get_elem?, ◌==◌, ==_iff, subst, sym, ◌∙◌, ap,
  text_eq, text_eq_iff, In-append_left, In-append_right, In-append_cases, Option,
}
use pgdesign.Topo.{name_to_idx}
use pgdesign.Topo.Count.{has}
use pgdesign.Topo.Queue.{pending}
use pgdesign.Topo.Names.{IsLastNamed, name_to_idx-some, name_to_idx_last}
use pgdesign.Topo.Edges.{edges_to, deps_edges, item_edges}

pub pending-In :
    (edges : List (ℕ × ℕ)) (out : List ℕ) (i d : ℕ)
    → pending edges out i ≡ 0
    → In (d, i) edges
    → has d out ≡ true
unfolding pending
pending-In [] out i d z m = elim m [ ]
pending-In ((e, j) ∷ edges) out i d z (inl same) =
    let first : d ≡ e = ap (λ (p : ℕ × ℕ). p.0) same in
    let second : i ≡ j = ap (λ (p : ℕ × ℕ). p.1) same in
    rw first (ground (arith, (==_iff i j).1 second))
pending-In ((e, j) ∷ edges) out i d z (inr m) = pending-In edges out i d (ground arith) m

pub pending-waits :
    (edges : List (ℕ × ℕ)) (out : List ℕ) (i : ℕ)
    → pending edges out i ≢ 0
    → (d : ℕ) × In (d, i) edges × (has d out ≡ false)
unfolding pending
pending-waits [] out i n = elim (n refl) [ ]
pending-waits ((e, j) ∷ edges) out i n = elim (Bool-cases (i == j && not (has e out))) [
  | inl c ↦ (e, inl (ap (λ k. (e, k)) ((==_iff i j).0 (ground arith))), ground arith)
  | inr c ↦ let (d, m, f) = pending-waits edges out i (λ z. n (ground arith)) in (d, inr m, f)
]

In-edges_to : (o : Option ℕ) (i d j : ℕ) → In (d, j) (edges_to o i) → (j ≡ i) × (o ≡ some d)
unfolding edges_to
In-edges_to none i d j m = elim m [ ]
In-edges_to (some e) i d j (inl same) =
    (ap (λ (p : ℕ × ℕ). p.1) same, ap (λ (p : ℕ × ℕ). some p.0) (sym same))
In-edges_to (some e) i d j (inr m) = elim m [ ]

module _ {T : Type 0} (get_name : T → Text) (get_deps : T → List Text) (items : List T) where
  -- The item at `i` lists the name of the item at `d`, which is not its own; of the items of one
  -- name it is the last.
  unfoldable pub DependsOn : ℕ → ℕ → Type 0
  DependsOn i d =
      (x : T) × (dep : Text) × (get_elem? items i ≡ some x)
      × In dep (get_deps x)
      × (dep ≢ get_name x)
      × IsLastNamed get_name items d dep

  In-deps_edges :
      (name : Text) (i : ℕ) (deps : List Text) (d j : ℕ)
      → In (d, j) (deps_edges get_name get_deps items name i deps)
      → (j ≡ i) × ((dep : Text) × In dep deps × (dep ≢ name) × IsLastNamed get_name items d dep)
  unfolding deps_edges edges_to
  In-deps_edges name i [] d j m = elim m [ ]
  In-deps_edges name i (dep ∷ deps) d j m =
      let found = name_to_idx get_name 0 items dep in
      let this = if text_eq dep name then [] else edges_to found i in
      elim (In-append_cases (d, j) this (deps_edges get_name get_deps items name i deps) m) [
        | inr there ↦
            let (same, (e, n, apart, last)) = In-deps_edges name i deps d j there in
            (same, (e, inr n, apart, last))
        | inl here ↦ elim (Bool-cases (text_eq dep name)) [
          | inl e ↦ elim (subst (λ b. In (d, j) (if b then [] else edges_to found i)) e here) [ ]
          | inr e ↦
              let (same, f) =
                In-edges_to found i d j
                  (subst (λ b. In (d, j) (if b then [] else edges_to found i)) e here) in
              let (k, at, b, last) = name_to_idx-some get_name 0 items dep d f in
              let is : k ≡ d = omega (arith, at) in
              (
                same,
                (
                  dep,
                  inl refl,
                  λ own. cc ((text_eq_iff dep name).1 own, e),
                  subst (λ c. IsLastNamed get_name items c dep) is last,
                ),
              )
        ]
      ]

  deps_edges-In :
      (name : Text) (i : ℕ) (deps : List Text) (d : ℕ) (dep : Text)
      → In dep deps
      → dep ≢ name
      → IsLastNamed get_name items d dep
      → In (d, i) (deps_edges get_name get_deps items name i deps)
  unfolding deps_edges edges_to
  deps_edges-In name i [] d dep m n last = elim m [ ]
  deps_edges-In name i (e ∷ deps) d dep (inr m) n last =
      In-append_right (d, i)
        (if text_eq e name then [] else edges_to (name_to_idx get_name 0 items e) i)
        (deps_edges get_name get_deps items name i deps) (deps_edges-In name i deps d dep m n last)
  deps_edges-In name i (e ∷ deps) d dep (inl same) n last =
      let differ : text_eq e name ≡ false = elim (Bool-cases (text_eq e name)) [
        | inl t ↦ elim (n (same ∙ (text_eq_iff e name).0 t)) [ ]
        | inr f ↦ f
      ] in
      let entry : name_to_idx get_name 0 items e ≡ some d =
        name_to_idx_last get_name items e d (subst (IsLastNamed get_name items d) same last) in
      rw (differ, entry, edges_to) (inl refl)

  pub In-item_edges :
      (k : ℕ) (rest : List T) (d i : ℕ)
      → In (d, i) (item_edges get_name get_deps items k rest)
      → (m : ℕ) × (i ≡ k + m)
        × ((x : T) × (dep : Text) × (get_elem? rest m ≡ some x)
            × In dep (get_deps x)
            × (dep ≢ get_name x)
            × IsLastNamed get_name items d dep)
  unfolding item_edges
  In-item_edges k [] d i m = elim m [ ]
  In-item_edges k (x ∷ rest) d i m =
      elim (In-append_cases (d, i) (deps_edges get_name get_deps items (get_name x) k (get_deps x))
        (item_edges get_name get_deps items (suc k) rest) m) [
          | inl here ↦
              let (same, (dep, n, apart, last)) =
                In-deps_edges (get_name x) k (get_deps x) d i here in
              (0, omega (arith, same), (x, dep, refl, n, apart, last))
          | inr there ↦
              let (j, at, found) = In-item_edges (suc k) rest d i there in
              (suc j, omega (arith, at), found)
        ]

  pub item_edges-In :
      (k : ℕ) (rest : List T) (m d : ℕ) (x : T) (dep : Text)
      → get_elem? rest m ≡ some x
      → In dep (get_deps x)
      → dep ≢ get_name x
      → IsLastNamed get_name items d dep
      → In (d, k + m) (item_edges get_name get_deps items k rest)
  unfolding item_edges
  item_edges-In k [] m d x dep g n apart last = cc
  item_edges-In k (y ∷ rest) zero d x dep g n apart last =
      let is : x ≡ y = cc in
      let same : k ≡ k + 0 = omega arith in
      In-append_left (d, k + 0) (deps_edges get_name get_deps items (get_name y) k (get_deps y))
        (item_edges get_name get_deps items (suc k) rest)
        (subst (λ i. In (d, i) (deps_edges get_name get_deps items (get_name y) k (get_deps y)))
          same
          (deps_edges-In (get_name y) k (get_deps y) d dep (subst (λ z. In dep (get_deps z)) is n)
            (λ own. apart (own ∙ ap get_name (sym is))) last))
  item_edges-In k (y ∷ rest) (suc m) d x dep g n apart last =
      let shift : suc k + m ≡ k + suc m = omega arith in
      In-append_right (d, k + suc m)
        (deps_edges get_name get_deps items (get_name y) k (get_deps y))
        (item_edges get_name get_deps items (suc k) rest)
        (subst (λ i. In (d, i) (item_edges get_name get_deps items (suc k) rest)) shift
          (item_edges-In (suc k) rest m d x dep g n apart last))
