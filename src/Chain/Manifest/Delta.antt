-- ===== src/Chain/Manifest/Delta.antt =====
-- `Diff` and `ChangedKeys` hold exactly the keys at which two manifests differ.
use pgdesign.Base.{
  Text, List, [], ◌∷◌, ◌++◌, false, none, some, text_eq, text_eq_iff, ◌≡◌, ◌≢◌, sym, ap, ◌∙◌, arith,
  ◌↔◌, Bool-cases, Option-cases, inl, inr, ◌⊎◌, In, In-append_cases, In-append_left,
  In-append_right, In-sort_by, sort_by-In,
}
use pgdesign.Enc.Key.{Key}
use pgdesign.Chain.Manifest.{
  Manifest, key_eq, find, IsMap, key_less, sort_keys, added_keys, changed_ids, diff, changed_keys,
}
use pgdesign.Chain.Manifest.Equality.{key_eq_iff}

-- `other` holds `k`, and `m` does not.
pub record IsAdded (m other : Manifest) (k : Key) : Type 0 where
  pub missing : find k m ≡ none
  pub id : Text
  pub held : find k other ≡ some id

-- Both hold `k`, under different ids.
pub record IsChanged (m other : Manifest) (k : Key) : Type 0 where
  pub old : Text
  pub new : Text
  pub before : find k m ≡ some old
  pub after : find k other ≡ some new
  pub differ : old ≢ new

find-other :
    (j k : Key) (v id : Text) (m : Manifest)
    → find j m ≡ none
    → find k m ≡ some id
    → key_eq j k ≡ false
find-other j k v id m n h = elim (Bool-cases (key_eq j k)) [
  | inl q ↦ cc ((key_eq_iff j k).0 q)
  | inr q ↦ q
]

added_keys_sound :
    (m other : Manifest) (k : Key) → IsMap other → In k (added_keys m other) → IsAdded m other k
unfolding added_keys find
added_keys_sound m [] k d i = elim i [ ]
added_keys_sound m ((j, v) ∷ other) k d i = elim (Option-cases (find j m)) [
  | inl n ↦
      let i' : (k ≡ j) ⊎ In k (added_keys m other) = rw (n, added_keys) at i in
      elim i' [
        | inl e ↦ record { missing = rw e n; id = v; held = rw ((key_eq_iff j k).1 (sym e)) }
        | inr r ↦
            let rec = added_keys_sound m other k d.1 r in
            record {
              missing = rec.missing;
              id = rec.id;
              held = rw (find-other j k v rec.id other d.0 rec.held) rec.held;
            }
      ]
  | inr (id, s) ↦
      let rec = added_keys_sound m other k d.1 (rw (s, added_keys) at i) in
      record {
        missing = rec.missing;
        id = rec.id;
        held = rw (find-other j k v rec.id other d.0 rec.held) rec.held;
      }
]

added_keys_complete :
    (m other : Manifest) (k : Key) (id : Text)
    → find k m ≡ none
    → find k other ≡ some id
    → In k (added_keys m other)
unfolding added_keys find
added_keys_complete m [] k id n h = cc
added_keys_complete m ((j, v) ∷ other) k id n h = elim (Bool-cases (key_eq j k)) [
  | inl q ↦
      let same = (key_eq_iff j k).0 q in
      let gone : find j m ≡ none = rw same n in rw (gone, added_keys) (inl (sym same))
  | inr q ↦
      let rec = added_keys_complete m other k id n (rw q at h) in
      elim (Option-cases (find j m)) [
        | inl g ↦ rw (g, added_keys) (inr rec)
        | inr (x, g) ↦ rw (g, added_keys) rec
      ]
]

changed_ids_sound :
    (m other : Manifest) (k : Key) → IsMap other → In k (changed_ids m other) → IsChanged m other k
unfolding changed_ids find
changed_ids_sound m [] k d i = elim i [ ]
changed_ids_sound m ((j, v) ∷ other) k d i =
    let keep = λ (r : IsChanged m other k).
      let c : IsChanged m ((j, v) ∷ other) k = record {
        old = r.old;
        new = r.new;
        before = r.before;
        after = rw (find-other j k v r.new other d.0 r.after) r.after;
        differ = r.differ;
      } in
      c in
    elim (Option-cases (find j m)) [
      | inl n ↦ keep (changed_ids_sound m other k d.1 (rw (n, changed_ids) at i))
      | inr (id, s) ↦ elim (Bool-cases (text_eq id v)) [
        | inl q ↦ keep (changed_ids_sound m other k d.1 (rw (s, q, changed_ids) at i))
        | inr q ↦
            let i' : (k ≡ j) ⊎ In k (changed_ids m other) = rw (s, q, changed_ids) at i in
            elim i' [
              | inl e ↦ record {
                old = id;
                new = v;
                before = rw e s;
                after = rw ((key_eq_iff j k).1 (sym e));
                differ = λ x. ground (arith, text_eq_iff id v);
              }
              | inr r ↦ keep (changed_ids_sound m other k d.1 r)
            ]
      ]
    ]

changed_ids_complete :
    (m other : Manifest) (k : Key) → IsChanged m other k → In k (changed_ids m other)
unfolding changed_ids find
changed_ids_complete m [] k c = cc (c.after)
changed_ids_complete m ((j, v) ∷ other) k c = elim (Bool-cases (key_eq j k)) [
  | inl q ↦
      let same = (key_eq_iff j k).0 q in
      let at_j : find j m ≡ some c.old = rw same c.before in
      let new_v : v ≡ c.new = ground (arith, c.after) in
      let far : text_eq c.old v ≡ false = ground (arith, text_eq_iff c.old v, c.differ) in
      rw (at_j, far, changed_ids) (inl (sym same))
  | inr q ↦
      let rec = changed_ids_complete m other k (record {
        old = c.old;
        new = c.new;
        before = c.before;
        after = rw (q, find) at (c.after);
        differ = c.differ;
      }) in
      elim (Option-cases (find j m)) [
        | inl g ↦ rw (g, changed_ids) rec
        | inr (id, g) ↦ elim (Bool-cases (text_eq id v)) [
          | inl s ↦ rw (g, s, changed_ids) rec
          | inr s ↦ rw (g, s, changed_ids) (inr rec)
        ]
      ]
]

In-sort_keys : (k : Key) (ks : List Key) → In k (sort_keys ks) ↔ In k ks
unfolding sort_keys
In-sort_keys k ks = (In-sort_by key_less k ks, sort_by-In key_less k ks)

-- The delta from `m` to `other`: added keys are those of `other` alone, removed keys those of `m`
-- alone, and changed keys those of both with different ids.
pub diff_correct :
    (m other : Manifest) (k : Key)
    → IsMap m
    → IsMap other
    → (In k (diff m other).added ↔ IsAdded m other k)
      × (In k (diff m other).removed ↔ IsAdded other m k)
      × (In k (diff m other).changed ↔ IsChanged m other k)
unfolding diff
diff_correct m other k d e = (
  (
    λ i. added_keys_sound m other k e ((In-sort_keys k (added_keys m other)).0 i),
    λ a.
        (In-sort_keys k (added_keys m other)).1
          (added_keys_complete m other k a.id a.missing a.held),
  ),
  (
    λ i. added_keys_sound other m k d ((In-sort_keys k (added_keys other m)).0 i),
    λ a.
        (In-sort_keys k (added_keys other m)).1
          (added_keys_complete other m k a.id a.missing a.held),
  ),
  (
    λ i. changed_ids_sound m other k e ((In-sort_keys k (changed_ids m other)).0 i),
    λ c. (In-sort_keys k (changed_ids m other)).1 (changed_ids_complete m other k c),
  ),
)

changed_keys_of_differ :
    (m other : Manifest) (k : Key)
    → IsMap m
    → IsMap other
    → find k m ≢ find k other
    → In k (changed_keys m other)
unfolding changed_keys
changed_keys_of_differ m other k d e n =
    let c = diff_correct m other k d e in
    let dl = diff m other in
    let add = λ (i : In k dl.added). In-append_left k dl.added (dl.removed ++ dl.changed) i in
    let rem = λ (i : In k dl.removed).
      In-append_right k dl.added (dl.removed ++ dl.changed)
        (In-append_left k dl.removed dl.changed i) in
    let cha = λ (i : In k dl.changed).
      In-append_right k dl.added (dl.removed ++ dl.changed)
        (In-append_right k dl.removed dl.changed i) in
    (In-sort_keys k (dl.added ++ (dl.removed ++ dl.changed))).1 (elim (Option-cases (find k m)) [
      | inl a ↦ elim (Option-cases (find k other)) [
        | inl b ↦ absurd (n (a ∙ sym b))
        | inr (id, b) ↦ add (c.0.1 (record { missing = a; id = id; held = b }))
      ]
      | inr (x, a) ↦ elim (Option-cases (find k other)) [
        | inl b ↦ rem (c.1.1 (record { missing = b; id = x; held = a }))
        | inr (y, b) ↦ cha (
            c.2.1 (record {
              old = x;
              new = y;
              before = a;
              after = b;
              differ = λ q. n (a ∙ ap some q ∙ sym b);
            }))
      ]
    ])

-- `ChangedKeys` holds exactly the keys at which the manifests differ, so a deep comparison may
-- skip all others.
pub changed_keys_correct :
    (m other : Manifest) (k : Key)
    → IsMap m
    → IsMap other
    → In k (changed_keys m other) ↔ (find k m ≢ find k other)
unfolding changed_keys
changed_keys_correct m other k d e = (
  λ i same.
      let c = diff_correct m other k d e in
      let dl = diff m other in
      elim (In-append_cases k dl.added (dl.removed ++ dl.changed)
        ((In-sort_keys k (dl.added ++ (dl.removed ++ dl.changed))).0 i)) [
          | inl a ↦ let x = c.0.0 a in cc (x.missing, x.held)
          | inr r ↦ elim (In-append_cases k dl.removed dl.changed r) [
            | inl a ↦ let x = c.1.0 a in cc (x.missing, x.held)
            | inr a ↦ let x = c.2.0 a in absurd (x.differ (ground (arith, x.before, x.after)))
          ]
        ],
  changed_keys_of_differ m other k d e,
)
