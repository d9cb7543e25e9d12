-- ===== src/PathFinder/Reachable.antt =====
-- internal/migrate/path_finder.go, reachable: what one round of the search does.
pub mod Search
use pgdesign.Base.{
  ℕ, zero, suc, ◌+◌, ◌≤◌, ◌<◌, Text, List, [], ◌∷◌, ◌++◌, map, Bool, true, false, not, ◌&&◌, ◌||◌,
  In, inl, inr, ◌⊎◌, ◌≡◌, refl, arith, Bool-cases, length, length-append, text_eq, text_eq_iff,
  elem, elem-append, if◌then◌else◌, subst, sym, ◌∙◌, missing, Within, missing_lt,
}
use pgdesign.PathFinder.{CanonEdge, Scan, hit, more, scan}

-- An edge of `es` from `f` to `a`.
abbrev pub Goes : List CanonEdge → Text → Text → Type 0
Goes es f a = (e : CanonEdge) × In e es × (e.parent ≡ f) × (e.target ≡ a)

-- What a round leaves behind: all targets of the dequeued revision are marked, the new marks
-- are queued, nothing else is queued, the target is not marked by it, and every revision that
-- joins the queue leaves `ts`, the revisions still to be marked.
pub record Scanned (ts : List Text) (target cur : Text) (es : List CanonEdge)
    (visited queue visited' queue' : List Text) : Type 0 where
  pub keeps : Within visited visited'
  pub keeps_queue : Within queue queue'
  pub new_queued :
      (a : Text) → elem a visited' ≡ true → (elem a visited ≡ true) ⊎ (elem a queue' ≡ true)
  pub queued : (a : Text) → elem a queue' ≡ true → (elem a queue ≡ true) ⊎ Goes es cur a
  pub marks : (a : Text) → Goes es cur a → elem a visited' ≡ true
  pub avoids : elem target visited ≡ false → elem target visited' ≡ false
  pub measure : missing ts visited' + length queue' ≤ missing ts visited + length queue

Goes-later : (e : CanonEdge) (es : List CanonEdge) (f a : Text) → Goes es f a → Goes (e ∷ es) f a
Goes-later e es f a (d, m, p, t) = (d, inr m, p, t)

module _ (ts : List Text) (target cur : Text) where
  Scanned-none : (visited queue : List Text) → Scanned ts target cur [] visited queue visited queue
  Scanned-none visited queue = record {
    keeps = λ a h. h;
    keeps_queue = λ a h. h;
    new_queued = λ a h. inl h;
    queued = λ a h. inl h;
    marks = λ a (e, m, p, t). elim m [ ];
    avoids = λ h. h;
    measure = omega arith;
  }

  Scanned-skip :
      (e : CanonEdge) (es : List CanonEdge) (visited queue visited' queue' : List Text)
      → (e.parent ≡ cur → elem e.target visited ≡ true)
      → Scanned ts target cur es visited queue visited' queue'
      → Scanned ts target cur (e ∷ es) visited queue visited' queue'
  Scanned-skip e es visited queue visited' queue' c s = record {
    keeps = s.keeps;
    keeps_queue = s.keeps_queue;
    new_queued = s.new_queued;
    queued = λ a h. elim (s.queued a h) [ inl q ↦ inl q | inr g ↦ inr (Goes-later e es cur a g) ];
    marks = λ a (d, m, p, t). elim m [
      | inl same ↦ rw (sym t) (s.keeps d.target (rw same (c (rw (sym same) p))))
      | inr m' ↦ s.marks a (d, m', p, t)
    ];
    avoids = s.avoids;
    measure = s.measure;
  }

  Scanned-mark :
      (e : CanonEdge) (es : List CanonEdge) (visited queue visited' queue' : List Text)
      → e.parent ≡ cur
      → elem e.target visited ≡ false
      → text_eq e.target target ≡ false
      → elem e.target ts ≡ true
      → Scanned ts target cur es (e.target ∷ visited) (queue ++ (e.target ∷ [])) visited' queue'
      → Scanned ts target cur (e ∷ es) visited queue visited' queue'
  unfolding elem
  Scanned-mark e es visited queue visited' queue' par new away known s =
      let t = e.target in
      let wide : Within visited (t ∷ visited) = λ a h. ground arith in
      let queued' : elem t (queue ++ (t ∷ [])) ≡ true =
        ground (arith, elem-append t queue (t ∷ []), text_eq_iff t t) in
      record {
        keeps = λ a h. s.keeps a (wide a h);
        keeps_queue = λ a h. s.keeps_queue a (ground (arith, elem-append a queue (t ∷ [])));
        new_queued = λ a h. elim (s.new_queued a h) [
          | inl old ↦ elim (Bool-cases (text_eq a t)) [
            | inl same ↦ inr (s.keeps_queue a (rw ((text_eq_iff a t).0 same) queued'))
            | inr other ↦ inl (rw other at old)
          ]
          | inr q ↦ inr q
        ];
        queued = λ a h. elim (s.queued a h) [
          | inl q ↦ elim (Bool-cases (elem a queue)) [
            | inl old ↦ inl old
            | inr n ↦ inr (
              e,
              inl refl,
              par,
              sym ((text_eq_iff a t).0 (ground (arith, elem-append a queue (t ∷ [])))),
            )
          ]
          | inr g ↦ inr (Goes-later e es cur a g)
        ];
        marks = λ a (d, m, p, to). elim m [
          | inl same ↦ s.keeps a (rw (sym to, same) (ground (arith, text_eq_iff t t)))
          | inr m' ↦ s.marks a (d, m', p, to)
        ];
        avoids = λ h. s.avoids (ground (arith, text_eq_iff target t, text_eq_iff t target));
        measure = omega (
          arith,
          s.measure,
          length-append queue (t ∷ []),
          missing_lt ts visited (t ∷ visited) t wide known new (ground (arith, text_eq_iff t t)),
        );
      }

  -- A round ends at the target, or leaves what `Scanned` says.
  unfoldable pub Outcome : List CanonEdge → List Text → List Text → Scan → Type 0
  Outcome es visited queue hit = Goes es cur target
  Outcome es visited queue (more visited' queue') =
      Scanned ts target cur es visited queue visited' queue'

  Outcome-skip :
      (e : CanonEdge) (es : List CanonEdge) (visited queue : List Text) (s : Scan)
      → (e.parent ≡ cur → elem e.target visited ≡ true)
      → Outcome es visited queue s
      → Outcome (e ∷ es) visited queue s
  unfolding Outcome
  Outcome-skip e es visited queue hit c o = Goes-later e es cur target o
  Outcome-skip e es visited queue (more visited' queue') c o =
      Scanned-skip e es visited queue visited' queue' c o

  Outcome-mark :
      (e : CanonEdge) (es : List CanonEdge) (visited queue : List Text) (s : Scan)
      → e.parent ≡ cur
      → elem e.target visited ≡ false
      → text_eq e.target target ≡ false
      → elem e.target ts ≡ true
      → Outcome es (e.target ∷ visited) (queue ++ (e.target ∷ [])) s
      → Outcome (e ∷ es) visited queue s
  unfolding Outcome
  Outcome-mark e es visited queue hit par new away known o = Goes-later e es cur target o
  Outcome-mark e es visited queue (more visited' queue') par new away known o =
      Scanned-mark e es visited queue visited' queue' par new away known o

  scan_skip :
      (e : CanonEdge) (es : List CanonEdge) (visited queue : List Text)
      → (text_eq e.parent cur && not (elem e.target visited)) ≡ false
      → scan target cur (e ∷ es) visited queue ≡ scan target cur es visited queue
  unfolding scan
  scan_skip e es visited queue h = rw h refl

  scan_hit :
      (e : CanonEdge) (es : List CanonEdge) (visited queue : List Text)
      → (text_eq e.parent cur && not (elem e.target visited)) ≡ true
      → text_eq e.target target ≡ true
      → scan target cur (e ∷ es) visited queue ≡ hit
  unfolding scan
  scan_hit e es visited queue h k = rw (h, k) refl

  scan_mark :
      (e : CanonEdge) (es : List CanonEdge) (visited queue : List Text)
      → (text_eq e.parent cur && not (elem e.target visited)) ≡ true
      → text_eq e.target target ≡ false
      → scan target cur (e ∷ es) visited queue
        ≡ scan target cur es (e.target ∷ visited) (queue ++ (e.target ∷ []))
  unfolding scan
  scan_mark e es visited queue h k = rw (h, k) refl

  pub scan-Outcome :
      (es : List CanonEdge) (visited queue : List Text)
      → ((e : CanonEdge) → In e es → elem e.target ts ≡ true)
      → Outcome es visited queue (scan target cur es visited queue)
  unfolding Outcome scan
  scan-Outcome [] visited queue known = Scanned-none visited queue
  scan-Outcome (e ∷ es) visited queue known =
      let known' : (d : CanonEdge) → In d es → elem d.target ts ≡ true = λ d m. known d (inr m) in
      elim (Bool-cases (text_eq e.parent cur && not (elem e.target visited))) [
        | inl go ↦
            let par = (text_eq_iff e.parent cur).0 (ground arith) in
            elim (Bool-cases (text_eq e.target target)) [
              | inl at ↦
                  subst (Outcome (e ∷ es) visited queue) (sym (scan_hit e es visited queue go at))
                    (e, inl refl, par, (text_eq_iff e.target target).0 at)
              | inr away ↦
                  subst (Outcome (e ∷ es) visited queue)
                    (sym (scan_mark e es visited queue go away))
                    (Outcome-mark e es visited queue
                      (scan target cur es (e.target ∷ visited) (queue ++ (e.target ∷ []))) par
                      (ground arith) away (known e (inl refl))
                      (scan-Outcome es (e.target ∷ visited) (queue ++ (e.target ∷ [])) known'))
            ]
        | inr stay ↦
            subst (Outcome (e ∷ es) visited queue) (sym (scan_skip e es visited queue stay)) (
              Outcome-skip e es visited queue (scan target cur es visited queue)
                (λ p. ground (arith, (text_eq_iff e.parent cur).1 p))
                (scan-Outcome es visited queue known'))
      ]
