-- ===== src/Fd/Closure/Fixpoint.antt =====
-- The loop of `Closure`: its fuel is enough, its result is closed under the dependencies, and its
-- members are exactly the attributes that the dependencies determine.
use pgdesign.Base.{
  ℕ, zero, suc, ◌<◌, Text, List, true, false, sort_texts, elem, In, length, ◌≡◌, refl, arith,
  IsSorted, Bool-cases, inl, inr, elem-sort_texts, sort_texts-IsSorted, ap, ◌↔◌, missing, Within,
  missing_le_length, missing_lt,
}
use pgdesign.Fd.{FuncDep}
use pgdesign.Fd.Sets.{is_subset_elim, is_subset_intro}
use pgdesign.Fd.Closure.{Pass, run_pass, all_dependents, closure_loop, closure, is_superkey}
use pgdesign.Fd.Closure.Grows.{elem-run_pass, run_pass_sound}
use pgdesign.Fd.Closure.Flag.{Respects, run_pass_quiet, run_pass_loud}
use pgdesign.Fd.Closure.Derives.{Determines, given, by_fd}

abbrev pub IsClosed : List FuncDep → List Text → Type 0
IsClosed fds r = (fd : FuncDep) → In fd fds → Respects r fd

Within-sort : (r : List Text) → Within r (sort_texts r)
Within-sort r a h = rw elem-sort_texts h

abbrev begin : List Text → Pass
begin r = record { result = r; changed = false }

-- A round that goes on leaves less to be found.
missing-run_pass :
    (fds : List FuncDep) (r : List Text)
    → IsSorted r
    → (run_pass (begin r) fds).changed ≡ true
    → missing (all_dependents fds) (sort_texts (run_pass (begin r) fds).result)
      < missing (all_dependents fds) r
missing-run_pass fds r o up =
    let out = (run_pass (begin r) fds).result in
    let (a, i, b, e) = run_pass_loud (begin r) fds o refl up in
    missing_lt (all_dependents fds) r (sort_texts out) a
      (λ x h. Within-sort out x (elem-run_pass (begin r) fds x h)) i b (Within-sort out a e)

closure_loop-IsClosed :
    (f : ℕ) (fds : List FuncDep) (r : List Text)
    → IsSorted r
    → missing (all_dependents fds) r < f
    → IsClosed fds (closure_loop f fds r)
      × IsSorted (closure_loop f fds r)
      × Within r (closure_loop f fds r)
unfolding closure_loop
closure_loop-IsClosed zero fds r o m = absurd (omega arith)
closure_loop-IsClosed (suc f) fds r o m = elim (Bool-cases (run_pass (begin r) fds).changed) [
  | inl up ↦
      let out = (run_pass (begin r) fds).result in
      let rec =
        closure_loop-IsClosed f fds (sort_texts out) (sort_texts-IsSorted out)
          (omega (arith, missing-run_pass fds r o up)) in
      rw up (rec.0, rec.1, λ a h. rec.2 a (Within-sort out a (elem-run_pass (begin r) fds a h)))
  | inr down ↦
      let q = run_pass_quiet (begin r) fds down in
      let same : (run_pass (begin r) fds).result ≡ r = ap (λ (p : Pass). p.result) q.0 in
      rw down (rw same (q.1, o, λ a h. h))
]

closure_loop_sound :
    (P : Text → Type 0) (f : ℕ) (fds : List FuncDep)
    → ((fd : FuncDep)
        → In fd fds
        → ((b : Text) → elem b fd.determinant ≡ true → P b)
        → (a : Text) → elem a fd.dependent ≡ true
        → P a)
    → (r : List Text) → ((a : Text) → elem a r ≡ true → P a)
    → (a : Text) → elem a (closure_loop f fds r) ≡ true
    → P a
unfolding closure_loop
closure_loop_sound P zero fds step r h = h
closure_loop_sound P (suc f) fds step r h =
    let out = (run_pass (begin r) fds).result in
    let next = run_pass_sound P fds step (begin r) h in
    elim (Bool-cases (run_pass (begin r) fds).changed) [
      | inl up ↦ rw up (
          closure_loop_sound P f fds step (sort_texts out)
            (λ a e. next a (rw (elem-sort_texts a out) at e)))
      | inr down ↦ rw down next
    ]

abbrev enough : List FuncDep → ℕ
enough fds = suc (length (all_dependents fds))

closure_lem :
    (xs : List Text) (fds : List FuncDep)
    → IsClosed fds (closure xs fds)
      × IsSorted (closure xs fds)
      × Within (sort_texts xs) (closure xs fds)
unfolding closure
closure_lem xs fds =
    closure_loop-IsClosed (enough fds) fds (sort_texts xs) (sort_texts-IsSorted xs)
      (omega (arith, missing_le_length (all_dependents fds) (sort_texts xs)))

-- Whatever the inputs, the closure contains the given attributes, is sorted, and holds the right
-- side of each dependency whose left side it holds: the fuel of the model is always enough.
pub closure_fixpoint :
    (xs : List Text) (fds : List FuncDep)
    → ((a : Text) → elem a xs ≡ true → elem a (closure xs fds) ≡ true)
      × IsSorted (closure xs fds)
      × IsClosed fds (closure xs fds)
closure_fixpoint xs fds =
    let l = closure_lem xs fds in (λ a h. l.2 a (Within-sort xs a h), l.1, l.0)

closure_complete :
    (xs : List Text) (fds : List FuncDep) (a : Text)
    → Determines fds xs a
    → elem a (closure xs fds) ≡ true
closure_complete xs fds a (given e) = (closure_fixpoint xs fds).0 a e
closure_complete xs fds a (by_fd fd m d e) =
    (closure_fixpoint xs fds).2 fd m
      (is_subset_intro fd.determinant (closure xs fds) (λ b q. closure_complete xs fds b (d b q))) a
      e

closure_sound :
    (xs : List Text) (fds : List FuncDep) (a : Text)
    → elem a (closure xs fds) ≡ true
    → Determines fds xs a
unfolding closure
closure_sound xs fds =
    closure_loop_sound (Determines fds xs) (enough fds) fds (λ fd m d a e. by_fd fd m d e)
      (sort_texts xs) (λ a h. given (rw (elem-sort_texts a xs) at h))

-- An attribute is in the closure exactly when the dependencies determine it.
pub closure_correct :
    (xs : List Text) (fds : List FuncDep) (a : Text)
    → (elem a (closure xs fds) ≡ true) ↔ Determines fds xs a
closure_correct xs fds a = (closure_sound xs fds a, closure_complete xs fds a)

-- A list of attributes is a superkey exactly when it determines every attribute of the relation.
pub is_superkey_correct :
    (xs all_attrs : List Text) (fds : List FuncDep)
    → (is_superkey xs all_attrs fds ≡ true)
      ↔ ((a : Text) → elem a all_attrs ≡ true → Determines fds xs a)
unfolding is_superkey
is_superkey_correct xs all_attrs fds = (
  λ h a e. closure_sound xs fds a (is_subset_elim all_attrs (closure xs fds) a h e),
  λ h. is_subset_intro all_attrs (closure xs fds) (λ a e. closure_complete xs fds a (h a e)),
)
