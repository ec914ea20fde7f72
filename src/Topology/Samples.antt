-- ===== src/Topology/Samples.antt =====
-- proberca/topology/core.py: a store of two snapshots of one cluster.
use probe_rca.Prelude.{ℕ, ◌≡◌, ◌≢◌, refl, String, none, List, [], ◌∷◌, arith, ok, err}
use probe_rca.Prelude.Sorting.{sort_by}
use probe_rca.Topology.Snapshot.{TopologySnapshot, canonical_snapshot, snapshot_le}
use probe_rca.Topology.Store.{overlap, overlaps, add, query, check_scope}
use probe_rca.Topology.Store.Disjoint.{adds, expires, change_all}
use probe_rca.Topology.Store.Lookup.{query_unique, query-add}

abbrev snapshot : String → ℕ → ℕ → TopologySnapshot
snapshot id from until = record {
  snapshot_id = id;
  valid_from_ns = from;
  valid_to_ns = until;
  cluster_id = "c1";
  services = "shop::web" ∷ "shop::cart" ∷ [];
  call_edges = [];
  host_edges = [];
  resource_edges = [];
  service_nodes = [];
  service_resources = [];
}

abbrev earlier : TopologySnapshot
earlier = snapshot "s1" 10 20

abbrev later : TopologySnapshot
later = snapshot "s2" 20 30

abbrev store : List TopologySnapshot
store = sort_by snapshot_le (earlier ∷ canonical_snapshot later ∷ [])

query_unique_example :
    query "c1" 15 none (change_all (adds earlier ∷ adds later ∷ adds earlier ∷ expires 12 ∷ []) [])
    ≢ err overlap
query_unique_example =
    query_unique (adds earlier ∷ adds later ∷ adds earlier ∷ expires 12 ∷ []) "c1" 15 none

added_lem : add later (earlier ∷ []) ≡ ok store
unfolding add overlaps
added_lem = refl

query-add_example : query "c1" 25 none store ≡ check_scope none (canonical_snapshot later)
query-add_example =
    query-add later (earlier ∷ []) store 25 none added_lem (omega arith) (omega arith)
