-- ===== src/PathFinder/Choice.antt =====
-- internal/migrate/path_finder.go, lessPath and choosePath: the chosen path is a least one.
use pgdesign.Base.{
  ℕ, ◌≤◌, ◌<◌, List, [], ◌∷◌, Bool, true, false, In, inl, inr, ◌≡◌, refl, arith, Bool-cases, length,
  text_lt, text_lt_irrefl, text_lt_trans, text_trichotomy, subst, sym, Text, ltb, ◌==◌,
  if◌then◌else◌, not,
}
use pgdesign.PathFinder.{CanonEdge, less_path, choose, count_consolidation, edge_id_seq}

-- The rule on the three measures of a path.
less_by : ℕ → ℕ → ℕ → ℕ → Text → Text → Bool
less_by n m c d s t =
    if not (n == m) then ltb n m else if not (c == d) then ltb d c else text_lt s t

less_by_irrefl : (n c : ℕ) (s : Text) → less_by n n c c s s ≡ false
unfolding less_by
less_by_irrefl n c s = ground (arith, text_lt_irrefl s)

less_by_trans :
    (n m k c d e : ℕ) (s t u : Text)
    → less_by n m c d s t ≡ true
    → less_by m k d e t u ≡ true
    → less_by n k c e s u ≡ true
unfolding less_by
less_by_trans n m k c d e s t u h j = ground (arith, text_lt_trans s t u)

less_by_total :
    (n m c d : ℕ) (s t : Text)
    → less_by n m c d s t ≡ false
    → less_by m n d c t s ≡ false
    → (n ≡ m) × (c ≡ d) × (s ≡ t)
unfolding less_by
less_by_total n m c d s t h j = ground (arith, text_trichotomy s t)

less_path_irrefl : (a : List CanonEdge) → less_path a a ≡ false
unfolding less_path less_by
less_path_irrefl a = less_by_irrefl (length a) (count_consolidation a) (edge_id_seq a)

less_path_trans :
    (a b c : List CanonEdge) → less_path a b ≡ true → less_path b c ≡ true → less_path a c ≡ true
unfolding less_path less_by
less_path_trans a b c h k =
    less_by_trans (length a) (length b) (length c) (count_consolidation a) (count_consolidation b)
      (count_consolidation c) (edge_id_seq a) (edge_id_seq b) (edge_id_seq c) h k

less_by_cotrans :
    (n m k c d e : ℕ) (s t u : Text)
    → less_by n m c d s t ≡ false
    → less_by m k d e t u ≡ false
    → less_by n k c e s u ≡ false
unfolding less_by
less_by_cotrans n m k c d e s t u h j =
    ground
      (arith, text_trichotomy s t, text_trichotomy t u, text_lt_trans s u t, text_lt_trans t s u)

less_path_cotrans :
    (a b c : List CanonEdge) → less_path a b ≡ false → less_path b c ≡ false → less_path a c ≡ false
unfolding less_path less_by
less_path_cotrans a b c h k =
    less_by_cotrans (length a) (length b) (length c) (count_consolidation a) (count_consolidation b)
      (count_consolidation c) (edge_id_seq a) (edge_id_seq b) (edge_id_seq c) h k

-- No candidate is less than `r`.
abbrev pub IsLeast : List CanonEdge → List (List CanonEdge) → Type 0
IsLeast r ps = (q : List CanonEdge) → In q ps → less_path q r ≡ false

-- lessPath is a strict order, total up to paths of the same length, the same number of
-- consolidation edges and the same sequence of sorted ids.
pub less_path-IsOrder :
    (a b c : List CanonEdge)
    → (less_path a a ≡ false)
      × (less_path a b ≡ true → less_path b c ≡ true → less_path a c ≡ true)
      × (less_path a b ≡ false
          → less_path b a ≡ false
          → (length a ≡ length b)
            × (count_consolidation a ≡ count_consolidation b)
            × (edge_id_seq a ≡ edge_id_seq b))
unfolding less_path less_by
less_path-IsOrder a b c = (
  less_path_irrefl a,
  less_path_trans a b c,
  less_by_total (length a) (length b) (count_consolidation a) (count_consolidation b)
      (edge_id_seq a) (edge_id_seq b),
)

less_path_asymm : (a b : List CanonEdge) → less_path a b ≡ true → less_path b a ≡ false
less_path_asymm a b h = elim (Bool-cases (less_path b a)) [
  | inl k ↦ cc (less_path_trans a b a h k, less_path_irrefl a)
  | inr k ↦ k
]

choose_on :
    (best p : List CanonEdge) (ps : List (List CanonEdge))
    → less_path p best ≡ true
    → choose best (p ∷ ps) ≡ choose p ps
unfolding choose
choose_on best p ps h = rw h refl

choose_off :
    (best p : List CanonEdge) (ps : List (List CanonEdge))
    → less_path p best ≡ false
    → choose best (p ∷ ps) ≡ choose best ps
unfolding choose
choose_off best p ps h = rw h refl

-- What choose_correct says of a path.
abbrev pub IsChoice : List CanonEdge → List (List CanonEdge) → Type 0
IsChoice r ps = In r ps × IsLeast r ps

IsChoice-on :
    (r best p : List CanonEdge) (ps : List (List CanonEdge))
    → less_path p best ≡ true
    → IsChoice r (p ∷ ps)
    → IsChoice r (best ∷ p ∷ ps)
IsChoice-on r best p ps h (m, least) = (
  inr m,
  λ q i. elim i [
    | inl e ↦ rw e (less_path_cotrans best p r (less_path_asymm p best h) (least p (inl refl)))
    | inr i' ↦ least q i'
  ],
)

IsChoice-off :
    (r best p : List CanonEdge) (ps : List (List CanonEdge))
    → less_path p best ≡ false
    → IsChoice r (best ∷ ps)
    → IsChoice r (best ∷ p ∷ ps)
IsChoice-off r best p ps h (m, least) = (
  elim m [ inl e ↦ inl e | inr m' ↦ inr (inr m') ],
  λ q i. elim i [
    | inl e ↦ least q (inl e)
    | inr (inl e) ↦ rw e (less_path_cotrans p best r h (least best (inl refl)))
    | inr (inr i') ↦ least q (inr i')
  ],
)

-- The path that choosePath gives is one of the candidates, and no candidate is less.
pub choose_correct :
    (best : List CanonEdge) (ps : List (List CanonEdge)) → IsChoice (choose best ps) (best ∷ ps)
unfolding choose
choose_correct best [] =
    (inl refl, λ q m. elim m [ inl e ↦ rw e (less_path_irrefl best) | inr m' ↦ elim m' [ ] ])
choose_correct best (p ∷ ps) = elim (Bool-cases (less_path p best)) [
  | inl h ↦
      subst (λ r. IsChoice r (best ∷ p ∷ ps)) (sym (choose_on best p ps h))
        (IsChoice-on (choose p ps) best p ps h (choose_correct p ps))
  | inr h ↦
      subst (λ r. IsChoice r (best ∷ p ∷ ps)) (sym (choose_off best p ps h))
        (IsChoice-off (choose best ps) best p ps h (choose_correct best ps))
]

less_path_shorter : (a b : List CanonEdge) → length a < length b → less_path a b ≡ true
unfolding less_path
less_path_shorter a b h = ground arith

-- choosePath prefers the fewest edges.
pub choose_fewest :
    (best : List CanonEdge) (ps : List (List CanonEdge)) (q : List CanonEdge)
    → In q (best ∷ ps)
    → length (choose best ps) ≤ length q
choose_fewest best ps q i =
    ground (arith, (choose_correct best ps).1 q i, less_path_shorter q (choose best ps))
