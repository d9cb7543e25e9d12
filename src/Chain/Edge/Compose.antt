-- ===== src/Chain/Edge/Compose.antt =====
-- `ComposePath` succeeds exactly on contiguous paths, where it concatenates the edges' steps.
use pgdesign.Base.{
  ℕ, ◌+◌, List, [], ◌∷◌, ◌++◌, Result, ok, err, ◌≡◌, refl, sym, ap, ◌∙◌, arith, text_eq,
  text_eq_iff, append_assoc, append-nil, Bool-cases, inl, inr, ◌≢◌, ◌↔◌,
}
use pgdesign.Rev.{Revision, revision_string}
use pgdesign.Chain.Edge.{Edge, PathBreak, compose_loop, compose_path}

module _ {Op : Type 0} where
  -- A walk from a revision: each edge starts, by its text, where the one before ended.
  pub data IsWalk : Revision → List (Edge Op) → Type 0 where
    stay : {a : Revision} → IsWalk a []
    go :
        {a : Revision} {e : Edge Op} {es : List (Edge Op)}
        → revision_string a ≡ revision_string e.parent
        → IsWalk e.target es
        → IsWalk a (e ∷ es)

  abbrev pub all_ops : List (Edge Op) → List Op
  all_ops [] = []
  all_ops (e ∷ es) = e.ops ++ all_ops es

  -- Where the last edge ends.
  abbrev pub end_of : Revision → List (Edge Op) → Revision
  end_of a [] = a
  end_of a (e ∷ es) = end_of e.target es

  compose_loop_walk :
      (i : ℕ) (a : Revision) (ops : List Op) (es : List (Edge Op))
      → IsWalk a es
      → compose_loop i a ops es ≡ ok (ops ++ all_ops es)
  unfolding compose_loop
  compose_loop_walk i a ops es stay = ap ok (sym (append-nil ops))
  compose_loop_walk i a ops es (go {e} {es = es'} j w) =
      rw ((text_eq_iff (revision_string a) (revision_string e.parent)).1 j, compose_loop)
        (compose_loop_walk (i + 1) e.target (ops ++ e.ops) es' w
          ∙ ap ok (append_assoc ops e.ops (all_ops es')))

  compose_loop_ok :
      (i : ℕ) (a : Revision) (ops out : List Op) (es : List (Edge Op))
      → compose_loop i a ops es ≡ ok out
      → IsWalk a es
  unfolding compose_loop
  compose_loop_ok i a ops out [] h = stay
  compose_loop_ok i a ops out (e ∷ es) h =
      elim (Bool-cases (text_eq (revision_string a) (revision_string e.parent))) [
        | inl q ↦
            go ((text_eq_iff (revision_string a) (revision_string e.parent)).0 q)
              (compose_loop_ok (i + 1) e.target (ops ++ e.ops) out es (rw q at h))
        | inr q ↦ cc (rw q at h)
      ]

  -- From the first edge on, the edges are a walk.
  abbrev pub IsContiguous : List (Edge Op) → Type 0
  IsContiguous [] = Unit
  IsContiguous (e ∷ es) = IsWalk e.target es

  -- Composition succeeds exactly on contiguous paths, and then it is the concatenation of the
  -- edges' steps in order.
  pub compose_path_correct :
      (es : List (Edge Op)) (out : List Op)
      → (compose_path es ≡ ok out) ↔ (IsContiguous es × (out ≡ all_ops es))
  unfolding compose_path
  compose_path_correct [] out = (λ h. (tt, ground arith), λ h. ground arith)
  compose_path_correct (e ∷ es) out = (
    λ h.
        let w = compose_loop_ok 1 e.target e.ops out es h in
        let same = compose_loop_walk 1 e.target e.ops es w in (w, ground arith),
    λ h. compose_loop_walk 1 e.target e.ops es h.0 ∙ ap ok (sym h.1),
  )

  -- Where a composition breaks: the edges before compose, and the texts on the two sides differ.
  pub record Breaks (a : Revision) (es : List (Edge Op)) (br : PathBreak) : Type 0 where
    pub before : List (Edge Op)
    pub edge : Edge Op
    pub after : List (Edge Op)
    pub split : es ≡ before ++ (edge ∷ after)
    pub walk : IsWalk a before
    pub left : br.previous ≡ revision_string (end_of a before)
    pub right : br.parent ≡ revision_string edge.parent
    pub differ : br.previous ≢ br.parent

  compose_loop_err :
      (i : ℕ) (a : Revision) (ops : List Op) (es : List (Edge Op)) (br : PathBreak)
      → compose_loop i a ops es ≡ err br
      → Breaks a es br
  unfolding compose_loop
  compose_loop_err i a ops [] br h = cc
  compose_loop_err i a ops (e ∷ es) br h =
      elim (Bool-cases (text_eq (revision_string a) (revision_string e.parent))) [
        | inl q ↦
            let rec = compose_loop_err (i + 1) e.target (ops ++ e.ops) es br (rw q at h) in
            record {
              before = e ∷ rec.before;
              edge = rec.edge;
              after = rec.after;
              split = ap (λ l. e ∷ l) rec.split;
              walk = go ((text_eq_iff (revision_string a) (revision_string e.parent)).0 q) rec.walk;
              left = rec.left;
              right = rec.right;
              differ = rec.differ;
            }
        | inr q ↦
            let same : br ≡ record {
              at = i;
              previous = revision_string a;
              parent = revision_string e.parent;
            } =
              break_eq (rw q at h) in
            record {
              before = [];
              edge = e;
              after = es;
              split = refl;
              walk = stay;
              left = ap (λ (b : PathBreak). b.previous) same;
              right = ap (λ (b : PathBreak). b.parent) same;
              differ =
                  λ x. ground (arith, text_eq_iff (revision_string a) (revision_string e.parent));
            }
      ]
    where
      break_eq : {b c : PathBreak} → ◌≡◌ {A = Result PathBreak (List Op)} (err c) (err b) → b ≡ c
      break_eq e = ground arith

  -- An error of the composition names the first break.
  pub compose_path_err :
      (e : Edge Op) (es : List (Edge Op)) (br : PathBreak)
      → compose_path (e ∷ es) ≡ err br
      → Breaks e.target es br
  unfolding compose_path
  compose_path_err e es br h = compose_loop_err 1 e.target e.ops es br h
