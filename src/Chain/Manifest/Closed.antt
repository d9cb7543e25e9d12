-- ===== src/Chain/Manifest/Closed.antt =====
-- `VerifyClosure` succeeds exactly when the store has the object of every entry; the check of an
-- edge's endpoint succeeds exactly when the simulated steps give the edge's target manifest.
use pgdesign.Base.{
  Text, List, [], ◌∷◌, none, some, ◌≡◌, ◌≢◌, refl, sym, arith, ◌↔◌, Bool-cases, Option-cases, inl,
  inr, ◌⊎◌, subst, In, In-sort_by, sort_by-In,
}
use pgdesign.Enc.Key.{Key}
use pgdesign.Chain.Edge.{Edge}
use pgdesign.Chain.Manifest.{
  Manifest, key_eq, find, IsMap, key_less, sort_keys, Answer, there, absent, failed, id_of,
  verify_keys, keys_of, verify_closure, manifest_equal, Simulator, no_simulator,
  verify_edge_endpoint,
}
use pgdesign.Chain.Manifest.Equality.{key_eq_iff, SameIds, manifest_equal_correct}

-- The store has what the manifest names.
abbrev pub Resolves : (Text → Answer) → Manifest → Type 0
Resolves has m = (k : Key) (id : Text) → find k m ≡ some id → has id ≡ there

Answer-cases : (a : Answer) → (a ≡ there) ⊎ (a ≢ there)
Answer-cases there = inl refl
Answer-cases absent = inr (λ h. cc)
Answer-cases failed = inr (λ h. cc)

verify_keys_sound :
    (has : Text → Answer) (m : Manifest) (ks : List Key)
    → verify_keys has m ks ≡ none
    → (k : Key) → In k ks
    → has (id_of (find k m)) ≡ there
unfolding verify_keys
verify_keys_sound has m [] h k i = elim i [ ]
verify_keys_sound has m (x ∷ ks) h k i = elim (Answer-cases (has (id_of (find x m)))) [
  | inl a ↦ elim i [
    | inl e ↦ rw e a
    | inr r ↦ verify_keys_sound has m ks (rw (a, verify_keys) at h) k r
  ]
  | inr a ↦ ground arith
]

verify_keys_complete :
    (has : Text → Answer) (m : Manifest) (ks : List Key)
    → ((k : Key) → In k ks → has (id_of (find k m)) ≡ there)
    → verify_keys has m ks ≡ none
unfolding verify_keys
verify_keys_complete has m [] h = refl
verify_keys_complete has m (x ∷ ks) h =
    rw (h x (inl refl), verify_keys) (verify_keys_complete has m ks (λ k i. h k (inr i)))

In-keys_of : (k : Key) (id : Text) (m : Manifest) → find k m ≡ some id → In k (keys_of m)
unfolding find
In-keys_of k id [] h = cc
In-keys_of k id ((j, v) ∷ m) h = elim (Bool-cases (key_eq j k)) [
  | inl q ↦ inl (sym ((key_eq_iff j k).0 q))
  | inr q ↦ inr (In-keys_of k id m (rw q at h))
]

find-keys_of : (k : Key) (m : Manifest) → In k (keys_of m) → (id : Text) × (find k m ≡ some id)
unfolding find
find-keys_of k [] i = elim i [ ]
find-keys_of k ((j, v) ∷ m) i = elim (Bool-cases (key_eq j k)) [
  | inl q ↦ (v, rw q)
  | inr q ↦ elim i [
    | inl e ↦ cc ((key_eq_iff j k).1 (sym e))
    | inr r ↦ let (id, f) = find-keys_of k m r in (id, rw q f)
  ]
]

-- `VerifyClosure` returns no error exactly when the store answers that it has every id that the
-- manifest holds.
pub verify_closure_correct :
    (has : Text → Answer) (m : Manifest) → (verify_closure has m ≡ none) ↔ Resolves has m
unfolding verify_closure sort_keys
verify_closure_correct has m = (
  λ h k id e.
      let at =
        verify_keys_sound has m (sort_keys (keys_of m)) h k
          (sort_by-In key_less k (keys_of m) (In-keys_of k id m e)) in
      subst (λ o. has (id_of o) ≡ there) e at,
  λ r. verify_keys_complete has m (sort_keys (keys_of m)) (λ k i.
      let (id, e) = find-keys_of k m (In-sort_by key_less k (keys_of m) i) in
      subst (λ o. has (id_of o) ≡ there) (sym e) (r k id e)),
)

-- What makes an endpoint consistent: the steps, simulated on the from-manifest, give a manifest
-- with the ids of the to-manifest.
abbrev pub Reaches : {Op : Type 0} → Simulator Op → List Op → Manifest → Manifest → Type 0
Reaches sim ops from to = (got : Manifest) × (sim from ops ≡ some got) × SameIds got to

-- The endpoint check passes exactly when the simulated steps reach the to-manifest; with no
-- simulator it is an error.
pub verify_edge_endpoint_correct :
    {Op : Type 0} (sim : Simulator Op) (e : Edge Op) (from to : Manifest)
    → IsMap to
    → ((got : Manifest) → sim from e.ops ≡ some got → IsMap got)
    → (verify_edge_endpoint (some sim) e from to ≡ none ↔ Reaches sim e.ops from to)
      × (verify_edge_endpoint none e from to ≡ some no_simulator)
unfolding verify_edge_endpoint
verify_edge_endpoint_correct sim e from to d maps = (
  elim (Option-cases (sim from e.ops)) [
    | inl n ↦ (λ h. cc (rw n at h), λ r. cc (r.1))
    | inr (got, g) ↦
        let eq = manifest_equal_correct got to (maps got g) d in
        elim (Bool-cases (manifest_equal got to)) [
          | inl q ↦ (λ h. (got, g, eq.0 q), λ r. rw (g, q))
          | inr q ↦ (
            λ h. cc (rw (g, q) at h),
            λ (other, o, same).
                let twins : got ≡ other = ground arith in
                cc (eq.1 (subst (λ x. SameIds x to) (sym twins) same)),
          )
        ]
  ],
  refl,
)
