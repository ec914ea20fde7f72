-- ===== src/Topology/Store.antt =====
-- proberca/topology/core.py: TopologyStore. Of `validate` the interval is checked here: the rest
-- concerns fields that the store does not read. The store is its list of snapshots.
pub mod Disjoint
pub mod Lookup
use Prim.Native.Nat.{max, min}
use probe_rca.Prelude.{
  ℕ, ◌+◌, String, Bool, true, false, ◌&&◌, not, Option, none, some, List, [], ◌∷◌, ◌++◌, map, mem,
  ltb, leb, length, any, all, keep, ◌==◌, string_eq, nat_eq, if◌then◌else◌, Result, ok, err,
}
use probe_rca.Prelude.Keys.{set_of}
use probe_rca.Prelude.Texts.{split_once}
use probe_rca.Prelude.Sorting.{sort_by, insert_sorted, all-insert_sorted, all-sort_by, all-append}
use probe_rca.Topology.Snapshot.{TopologySnapshot, canonical_snapshot, snapshot_le}

pub data StoreError : Type 0 where
  invalid_interval overlap not_found ambiguous_namespace absent_namespace : StoreError

unfoldable pub overlaps : TopologySnapshot → TopologySnapshot → Bool
overlaps a b =
    a.cluster_id == b.cluster_id
    && ltb (max a.valid_from_ns b.valid_from_ns) (min a.valid_to_ns b.valid_to_ns)

unfoldable pub add :
    TopologySnapshot → List TopologySnapshot → Result StoreError (List TopologySnapshot)
add s store =
    if leb s.valid_to_ns s.valid_from_ns
    then err invalid_interval
    else if any (λ existing. overlaps existing s) store
    then err overlap
    else ok (sort_by snapshot_le (store ++ canonical_snapshot s ∷ []))

unfoldable pub covers : (cluster_id : String) (timestamp_ns : ℕ) → TopologySnapshot → Bool
covers cluster_id timestamp_ns s =
    s.cluster_id == cluster_id && leb s.valid_from_ns timestamp_ns && ltb timestamp_ns s.valid_to_ns

-- item.split("::", 1)[0]
unfoldable pub namespace_of : String → String
namespace_of service = elim (split_once b':' b':' service) [
  | none ↦ service
  | some (namespace, _) ↦ namespace
]

-- The checks of the scope, on the one snapshot that was found.
unfoldable pub check_scope :
    (namespace_scope : Option (List String)) → TopologySnapshot → Result StoreError TopologySnapshot
check_scope scope s =
    let namespaces = set_of (map namespace_of s.services) in
    elim scope [
      | none ↦ if ltb 1 (length namespaces) then err ambiguous_namespace else ok s
      | some wanted ↦ if all (λ n. mem n namespaces) wanted then ok s else err absent_namespace
    ]

-- `query` from its list of matches on.
unfoldable pub select :
    (namespace_scope : Option (List String))
    → List TopologySnapshot
    → Result StoreError TopologySnapshot
select scope [] = err not_found
select scope (s ∷ []) = check_scope scope s
select scope (s ∷ t ∷ rest) = err overlap

unfoldable pub query :
    (cluster_id : String) (timestamp_ns : ℕ) (namespace_scope : Option (List String))
    → List TopologySnapshot
    → Result StoreError TopologySnapshot
query cluster_id timestamp_ns scope store =
    select scope (keep (covers cluster_id timestamp_ns) store)

unfoldable pub remove_expired : (before_ns : ℕ) → List TopologySnapshot → List TopologySnapshot
remove_expired before_ns store = keep (λ s. ltb before_ns s.valid_to_ns) store
