-- ===== src/Topology/Store/Lookup.antt =====
-- proberca/topology/core.py: what a query finds.
use probe_rca.Prelude.{
  ℕ, ◌≤◌, ◌<◌, ◌≡◌, ◌≢◌, ◌⊎◌, inl, inr, refl, ap, sym, ◌∙◌, String, Bool, true, false, Option, none,
  some, List, [], ◌∷◌, ◌++◌, any, all, keep, arith, eq_iff, ok, err, ltb, string_eq, Bool-cases,
  if◌then◌else◌, Result,
}
use probe_rca.Prelude.Sorting.{sort_by, insert_sorted}
use probe_rca.Topology.Snapshot.{TopologySnapshot, canonical_snapshot, snapshot_le}
use probe_rca.Topology.Store.{
  StoreError, overlap, overlaps, add, covers, select, query, remove_expired, check_scope,
}
use probe_rca.Topology.Store.Disjoint.{
  apart, is_disjoint, add-is_disjoint, is_disjoint-keep, Change, adds, expires, change, change_all,
  any-canonical, overlaps_comm,
}

covers_both :
    (c : String) (t : ℕ) (a b : TopologySnapshot)
    → covers c t a ≡ true
    → covers c t b ≡ true
    → overlaps a b ≡ true
unfolding covers overlaps
covers_both c t a b h k =
    ground (arith, eq_iff a.cluster_id c, eq_iff b.cluster_id c, eq_iff a.cluster_id b.cluster_id)

covered_alone :
    (c : String) (t : ℕ) (s : TopologySnapshot) (xs : List TopologySnapshot)
    → covers c t s ≡ true
    → all (apart s) xs ≡ true
    → keep (covers c t) xs ≡ []
covered_alone c t s [] h k = refl
covered_alone c t s (x ∷ xs) h k = ground (arith, covered_alone c t s xs h, covers_both c t s x h)

at_most_one :
    (c : String) (t : ℕ) (xs : List TopologySnapshot)
    → is_disjoint xs ≡ true
    → (keep (covers c t) xs ≡ []) ⊎ ((s : TopologySnapshot) × (keep (covers c t) xs ≡ s ∷ []))
at_most_one c t [] h = inl refl
at_most_one c t (x ∷ xs) h = elim (Bool-cases (covers c t x)) [
  | inl here ↦ inr (x, ground (arith, covered_alone c t x xs here))
  | inr elsewhere ↦ elim (at_most_one c t xs (ground arith)) [
    | inl nothing ↦ inl (ground arith)
    | inr (s, found) ↦ inr (s, ground arith)
  ]
]

change-is_disjoint :
    (c : Change) (store : List TopologySnapshot)
    → is_disjoint store ≡ true
    → is_disjoint (change c store) ≡ true
unfolding change remove_expired
change-is_disjoint (expires before_ns) store h =
    is_disjoint-keep (λ s. ltb before_ns s.valid_to_ns) store h
change-is_disjoint (adds s) store h = kept (add s store) refl
  where
    kept :
        (r : Result StoreError (List TopologySnapshot))
        → add s store ≡ r
        → is_disjoint (elim r [ ok store' ↦ store' | err e ↦ store ]) ≡ true
    kept (ok store') e = add-is_disjoint s store store' h e
    kept (err e) e' = h

pub change_all-is_disjoint :
    (cs : List Change) (store : List TopologySnapshot)
    → is_disjoint store ≡ true
    → is_disjoint (change_all cs store) ≡ true
unfolding change_all
change_all-is_disjoint [] store h = h
change_all-is_disjoint (c ∷ cs) store h =
    change_all-is_disjoint cs (change c store) (change-is_disjoint c store h)

check_scope_lem :
    (scope : Option (List String)) (s : TopologySnapshot) → check_scope scope s ≢ err overlap
unfolding check_scope
check_scope_lem none s e = absurd (ground arith)
check_scope_lem (some wanted) s e = absurd (ground arith)

nothing_found : (scope : Option (List String)) → select scope [] ≢ err overlap
unfolding select
nothing_found scope e = absurd (ground arith)

-- Whatever was added, refused and expired before, no query of a store that began empty finds more
-- than one snapshot.
pub query_unique :
    (cs : List Change) (c : String) (t : ℕ) (scope : Option (List String))
    → query c t scope (change_all cs []) ≢ err overlap
unfolding query select
query_unique cs c t scope e =
    elim (at_most_one c t (change_all cs []) (change_all-is_disjoint cs [] refl)) [
      | inl nothing ↦ nothing_found scope (sym (ap (select scope) nothing) ∙ e)
      | inr (s, found) ↦ check_scope_lem scope s (sym (ap (select scope) found) ∙ e)
    ]

module _ {A : Type 0} (le : A → A → Bool) (p : A → Bool) where
  keep-insert_none :
      (x : A) (xs : List A)
      → keep p xs ≡ []
      → keep p (insert_sorted le x xs) ≡ (if p x then x ∷ [] else [])
  unfolding insert_sorted
  keep-insert_none x [] h = refl
  keep-insert_none x (y ∷ ys) h = ground (arith, keep-insert_none x ys)

  keep-insert_one :
      (x y : A) (xs : List A)
      → p x ≡ false
      → keep p xs ≡ y ∷ []
      → keep p (insert_sorted le x xs) ≡ y ∷ []
  unfolding insert_sorted
  keep-insert_one x y [] h k = ground arith
  keep-insert_one x y (z ∷ zs) h k = ground (arith, keep-insert_one x y zs h, keep-insert_none x zs)

  keep-sort_none : (xs : List A) → keep p xs ≡ [] → keep p (sort_by le xs) ≡ []
  unfolding sort_by
  keep-sort_none [] h = refl
  keep-sort_none (x ∷ xs) h = ground (arith, keep-sort_none xs, keep-insert_none x (sort_by le xs))

  keep-sort_one : (y : A) (xs : List A) → keep p xs ≡ y ∷ [] → keep p (sort_by le xs) ≡ y ∷ []
  unfolding sort_by
  keep-sort_one y [] h = ground arith
  keep-sort_one y (x ∷ xs) h = ground (
    arith,
    keep-sort_none xs,
    keep-sort_one y xs,
    keep-insert_none x (sort_by le xs),
    keep-insert_one x y (sort_by le xs),
  )

  keep-append_one :
      (y : A) (xs : List A) → keep p xs ≡ [] → p y ≡ true → keep p (xs ++ y ∷ []) ≡ y ∷ []
  keep-append_one y [] h k = ground arith
  keep-append_one y (x ∷ xs) h k = ground (arith, keep-append_one y xs)

all-apart :
    (s : TopologySnapshot) (xs : List TopologySnapshot)
    → any (λ e. overlaps e s) xs ≡ false
    → all (apart s) xs ≡ true
all-apart s [] h = refl
all-apart s (x ∷ xs) h = ground (arith, all-apart s xs, overlaps_comm s x)

covers-canonical :
    (c : String) (t : ℕ) (s : TopologySnapshot) → covers c t (canonical_snapshot s) ≡ covers c t s
unfolding covers canonical_snapshot
covers-canonical c t s = refl

-- A snapshot that was added is what a query at any time of its interval finds, in canonical order,
-- and only the scope is left to check.
pub query-add :
    (s : TopologySnapshot) (store store' : List TopologySnapshot) (t : ℕ)
    (scope : Option (List String))
    → add s store ≡ ok store'
    → s.valid_from_ns ≤ t
    → t < s.valid_to_ns
    → query s.cluster_id t scope store' ≡ check_scope scope (canonical_snapshot s)
unfolding add query select
query-add s store store' t scope added from until =
    let canonical = canonical_snapshot s in
    let here : covers s.cluster_id t canonical ≡ true =
      covers-canonical s.cluster_id t s
      ∙ (unfold covers in ground (arith, eq_iff s.cluster_id s.cluster_id)) in
    let free : any (λ e. overlaps e canonical) store ≡ false =
      any-canonical s store ∙ ground arith in
    let alone =
      covered_alone s.cluster_id t canonical store here (all-apart canonical store free) in
    let found =
      keep-sort_one snapshot_le (covers s.cluster_id t) canonical (store ++ canonical ∷ [])
        (keep-append_one snapshot_le (covers s.cluster_id t) canonical store alone here) in
    let same : store' ≡ sort_by snapshot_le (store ++ canonical ∷ []) = ground arith in
    ap (λ l. select scope (keep (covers s.cluster_id t) l)) same ∙ ap (select scope) found

keep-keep :
    (c : String) (t before_ns : ℕ) (xs : List TopologySnapshot)
    → before_ns ≤ t
    → keep (covers c t) (keep (λ s. ltb before_ns s.valid_to_ns) xs) ≡ keep (covers c t) xs
unfolding covers
keep-keep c t before_ns [] h = refl
keep-keep c t before_ns (x ∷ xs) h = ground (arith, keep-keep c t before_ns xs h)

-- Expiry before a time changes no query from that time on.
pub query-remove_expired :
    (c : String) (t before_ns : ℕ) (scope : Option (List String)) (store : List TopologySnapshot)
    → before_ns ≤ t
    → query c t scope (remove_expired before_ns store) ≡ query c t scope store
unfolding query remove_expired
query-remove_expired c t before_ns scope store h =
    ap (select scope) (keep-keep c t before_ns store h)
