-- ===== src/Topology/Store/Disjoint.antt =====
-- proberca/topology/core.py: no two snapshots of a store overlap.
use probe_rca.Prelude.{
  ℕ, ◌≡◌, refl, Bool, true, ◌&&◌, not, List, [], ◌∷◌, ◌++◌, any, all, keep, arith, eq_iff, ok, err,
  string_eq,
}
use probe_rca.Prelude.Sorting.{sort_by, insert_sorted, all-insert_sorted, all-sort_by, all-append}
use probe_rca.Topology.Snapshot.{TopologySnapshot, canonical_snapshot, snapshot_le}
use probe_rca.Topology.Store.{overlaps, add, remove_expired}

abbrev pub apart : TopologySnapshot → TopologySnapshot → Bool
apart a b = not (overlaps a b)

abbrev pub is_disjoint : List TopologySnapshot → Bool
is_disjoint [] = true
is_disjoint (s ∷ ss) = all (apart s) ss && is_disjoint ss

pub overlaps_comm : (a b : TopologySnapshot) → overlaps a b ≡ overlaps b a
unfolding overlaps
overlaps_comm a b =
    ground (arith, eq_iff a.cluster_id b.cluster_id, eq_iff b.cluster_id a.cluster_id)

is_disjoint-insert :
    (x : TopologySnapshot) (xs : List TopologySnapshot)
    → is_disjoint (insert_sorted snapshot_le x xs) ≡ (all (apart x) xs && is_disjoint xs)
unfolding insert_sorted
is_disjoint-insert x [] = refl
is_disjoint-insert x (y ∷ ys) = ground (
  arith,
  is_disjoint-insert x ys,
  all-insert_sorted snapshot_le (apart y) x ys,
  overlaps_comm x y,
)

is_disjoint-sort :
    (xs : List TopologySnapshot) → is_disjoint (sort_by snapshot_le xs) ≡ is_disjoint xs
unfolding sort_by
is_disjoint-sort [] = refl
is_disjoint-sort (x ∷ xs) = ground (
  arith,
  is_disjoint-insert x (sort_by snapshot_le xs),
  is_disjoint-sort xs,
  all-sort_by snapshot_le (apart x) xs,
)

is_disjoint-append :
    (s : TopologySnapshot) (xs : List TopologySnapshot)
    → is_disjoint (xs ++ s ∷ []) ≡ (is_disjoint xs && not (any (λ e. overlaps e s) xs))
is_disjoint-append s [] = refl
is_disjoint-append s (x ∷ xs) =
    ground (arith, is_disjoint-append s xs, all-append (apart x) xs (s ∷ []))

pub any-canonical :
    (s : TopologySnapshot) (xs : List TopologySnapshot)
    → any (λ e. overlaps e (canonical_snapshot s)) xs ≡ any (λ e. overlaps e s) xs
unfolding overlaps canonical_snapshot
any-canonical s [] = refl
any-canonical s (x ∷ xs) = ground (arith, any-canonical s xs)

pub add-is_disjoint :
    (s : TopologySnapshot) (store store' : List TopologySnapshot)
    → is_disjoint store ≡ true
    → add s store ≡ ok store'
    → is_disjoint store' ≡ true
unfolding add
add-is_disjoint s store store' h e = ground (
  arith,
  is_disjoint-sort (store ++ canonical_snapshot s ∷ []),
  is_disjoint-append (canonical_snapshot s) store,
  any-canonical s store,
)

all-keep : {A : Type 0} (p q : A → Bool) (xs : List A) → all p xs ≡ true → all p (keep q xs) ≡ true
all-keep p q [] h = refl
all-keep p q (x ∷ xs) h = ground (arith, all-keep p q xs)

pub is_disjoint-keep :
    (q : TopologySnapshot → Bool) (xs : List TopologySnapshot)
    → is_disjoint xs ≡ true
    → is_disjoint (keep q xs) ≡ true
is_disjoint-keep q [] h = refl
is_disjoint-keep q (x ∷ xs) h = ground (arith, is_disjoint-keep q xs, all-keep (apart x) q xs)

-- A call that changes the store; one that raises leaves it.
pub data Change : Type 0 where
  adds : TopologySnapshot → Change
  expires : (before_ns : ℕ) → Change

unfoldable pub change : Change → List TopologySnapshot → List TopologySnapshot
change (adds s) store = elim (add s store) [ ok store' ↦ store' | err e ↦ store ]
change (expires before_ns) store = remove_expired before_ns store

unfoldable pub change_all : List Change → List TopologySnapshot → List TopologySnapshot
change_all [] store = store
change_all (c ∷ cs) store = change_all cs (change c store)
