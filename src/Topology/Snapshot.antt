-- ===== src/Topology/Snapshot.antt =====
-- proberca/topology/core.py: a snapshot and its canonical order, with the fields of the records of
-- proberca/data/schema.py that the store reads or sorts by.
use Prim.Native.Nat.{compare as nat_compare, Ordering}
use Prim.Native.String.{compare}
use probe_rca.Prelude.Sorting.{lex_le, sort_by, text_le}
use probe_rca.Prelude.{ℕ, String, Bool, true, false, Option, none, some, List, [], ◌∷◌}

pub record TopologyEdge : Type 0 where
  pub relation_type : String
  pub src_namespace : Option String
  pub src_service : String
  pub dst_namespace : Option String
  pub dst_service : String
  pub protocol : Option String
  pub resource_type : Option String
  pub resource_id : Option String
  pub directed : Option Bool

pub record ServiceNodePlacement : Type 0 where
  pub namespace : String
  pub service_name : String
  pub node_name : String
  pub pod_uid : Option String

pub record ServiceResourceBinding : Type 0 where
  pub resource_type : String
  pub resource_id : String
  pub namespace : String
  pub service_name : String

pub record TopologySnapshot : Type 0 where
  pub snapshot_id : String
  pub valid_from_ns : ℕ
  pub valid_to_ns : ℕ
  pub cluster_id : String
  pub services : List String
  pub call_edges : List TopologyEdge
  pub host_edges : List TopologyEdge
  pub resource_edges : List TopologyEdge
  pub service_nodes : List ServiceNodePlacement
  pub service_resources : List ServiceResourceBinding

-- `value or ""`
abbrev or_empty : Option String → String
or_empty none = ""
or_empty (some s) = s

unfoldable pub edge_key : TopologyEdge → List String
edge_key e =
    e.relation_type
    ∷ or_empty e.src_namespace
    ∷ e.src_service
    ∷ or_empty e.dst_namespace
    ∷ e.dst_service
    ∷ or_empty e.protocol
    ∷ or_empty e.resource_type
    ∷ or_empty e.resource_id
    ∷ []

abbrev edge_le : TopologyEdge → TopologyEdge → Bool
edge_le a b = lex_le (edge_key a) (edge_key b)

abbrev node_key : ServiceNodePlacement → List String
node_key p = p.namespace ∷ p.service_name ∷ p.node_name ∷ or_empty p.pod_uid ∷ []

abbrev node_le : ServiceNodePlacement → ServiceNodePlacement → Bool
node_le a b = lex_le (node_key a) (node_key b)

abbrev resource_key : ServiceResourceBinding → List String
resource_key b = b.resource_type ∷ b.resource_id ∷ b.namespace ∷ b.service_name ∷ []

abbrev resource_le : ServiceResourceBinding → ServiceResourceBinding → Bool
resource_le a b = lex_le (resource_key a) (resource_key b)

-- _canonical_snapshot
unfoldable pub canonical_snapshot : TopologySnapshot → TopologySnapshot
canonical_snapshot s = record s {
  services = sort_by text_le s.services;
  call_edges = sort_by edge_le s.call_edges;
  host_edges = sort_by edge_le s.host_edges;
  resource_edges = sort_by edge_le s.resource_edges;
  service_nodes = sort_by node_le s.service_nodes;
  service_resources = sort_by resource_le s.service_resources;
}

-- The order of the store: cluster, start, end, id.
unfoldable pub snapshot_le : TopologySnapshot → TopologySnapshot → Bool
snapshot_le a b = elim (compare a.cluster_id b.cluster_id) [
  | Ordering.lt ↦ true
  | Ordering.gt ↦ false
  | Ordering.eq ↦ elim (nat_compare a.valid_from_ns b.valid_from_ns) [
    | Ordering.lt ↦ true
    | Ordering.gt ↦ false
    | Ordering.eq ↦ elim (nat_compare a.valid_to_ns b.valid_to_ns) [
      | Ordering.lt ↦ true
      | Ordering.gt ↦ false
      | Ordering.eq ↦ text_le a.snapshot_id b.snapshot_id
    ]
  ]
]
