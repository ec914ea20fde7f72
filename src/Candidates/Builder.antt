-- ===== src/Candidates/Builder.antt =====
-- proberca/candidates/builder.py: CandidateSubgraphBuilder up to the candidate services. The topology
-- graph is the value that `build_topology_graph` returned. A set is its sorted list.
use probe_rca.Prelude.{
  ℕ, String, Bool, ◌&&◌, ◌||◌, not, Option, none, some, List, [], ◌∷◌, ◌++◌, length, leb, mem, keep,
  ◌==◌, string_eq, if◌then◌else◌, Result, ok, err, guard, ◌>>=◌, ◌>>◌,
}
use probe_rca.Prelude.Keys.{Dict, set_of, insert}
use probe_rca.Prelude.Texts.{split, split_once}
use probe_rca.Alerting.Types.{AlertEvent}
use probe_rca.Candidates.Relation.{TopologyRelation, CandidateProvenance}

pub data BuildError : Type 0 where
  no_trigger ambiguous_cluster not_an_id outside_namespaces : BuildError
  stale_service stale_edge overflow : BuildError

pub record CandidateGraphConfig : Type 0 where
  pub upstream_hops : ℕ
  pub downstream_hops : ℕ
  pub include_cohost : Bool
  pub include_shared_resource : Bool
  pub allowed_namespaces : List String
  pub max_candidate_services : ℕ
  pub max_candidate_physical_edges : ℕ
  pub include_trigger_edge_endpoints : Bool

pub record TopologyGraph : Type 0 where
  pub snapshot_id : String
  pub cluster_id : String
  pub service_ids : List String
  pub call_edges : List TopologyRelation
  pub impact_edges : List TopologyRelation
  pub host_relations : List TopologyRelation
  pub resource_relations : List TopologyRelation
  pub physical_edges : List TopologyRelation

-- item.split("::", 1)[0] for the items with a "::"
unfoldable pub cluster_prefixes : List String → List String
cluster_prefixes [] = []
cluster_prefixes (x ∷ xs) =
    let rest = cluster_prefixes xs in
    elim (split_once b':' b':' x) [ none ↦ rest | some (cluster, _) ↦ cluster ∷ rest ]

abbrev only : List String → Result BuildError String
only (cluster ∷ []) = ok cluster
only _ = err ambiguous_cluster

-- _alert_cluster
unfoldable pub alert_cluster : AlertEvent → Result BuildError String
alert_cluster alert = do
  guard (not (leb (length (alert.trigger_services ++ alert.trigger_edges)) 0)) no_trigger
  only (set_of (cluster_prefixes (alert.trigger_services ++ alert.trigger_edges)))

abbrev second : List String → Option String
second (x ∷ y ∷ ys) = some y
second _ = none

-- item.split("::")[1], which raises if there is none.
unfoldable pub namespace_of : String → Option String
namespace_of service = second (split b':' b':' service)

unfoldable pub services_in : (allowed : List String) → List String → Result BuildError (List String)
services_in allowed [] = ok []
services_in allowed (x ∷ xs) = elim (namespace_of x) [
  | none ↦ err not_an_id
  | some namespace ↦ (do
    rest ← services_in allowed xs
    ok (if mem namespace allowed then x ∷ rest else rest))
]

abbrev pub joins : (services : List String) → TopologyRelation → Bool
joins services r = mem r.src_service_id services && mem r.dst_service_id services

abbrev restrict : (services : List String) → TopologyGraph → TopologyGraph
restrict services g = record g {
  service_ids = services;
  call_edges = keep (joins services) g.call_edges;
  impact_edges = keep (joins services) g.impact_edges;
  host_relations = keep (joins services) g.host_relations;
  resource_relations = keep (joins services) g.resource_relations;
  physical_edges = keep (joins services) g.physical_edges;
}

-- _namespace_scoped_graph
unfoldable pub namespace_scoped_graph :
    CandidateGraphConfig → TopologyGraph → Result BuildError TopologyGraph
namespace_scoped_graph config g = if leb (length config.allowed_namespaces) 0 then ok g else (do
  services ← services_in config.allowed_namespaces g.service_ids
  ok (restrict services g))

-- The record of a seed.
abbrev pub seed_record :
    AlertEvent
    → TopologyGraph
    → (service reason source : String) → Dict String
    → CandidateProvenance
seed_record alert g service reason source detail = record {
  object_id = service;
  object_type = "service";
  reason_code = reason;
  source_object_id = source;
  hop_count = 0;
  relation_path = service ∷ [];
  relation_ids = [];
  snapshot_id = g.snapshot_id;
  alert_id = alert.alert_id;
  detail = detail;
}

-- The loop of `_seeds` over the trigger services.
unfoldable pub trigger_seeds :
    CandidateGraphConfig
    → AlertEvent
    → TopologyGraph
    → List String
    → Result BuildError (List CandidateProvenance)
trigger_seeds config alert g [] = ok []
trigger_seeds config alert g (service ∷ services) = elim (namespace_of service) [
  | none ↦ err not_an_id
  | some namespace ↦ (do
    guard (leb (length config.allowed_namespaces) 0 || mem namespace config.allowed_namespaces)
        outside_namespaces
    guard (mem service g.service_ids) stale_service
    rest ← trigger_seeds config alert g services
    ok (seed_record alert g service "trigger_service" alert.alert_id [] ∷ rest))
]

-- physical.get(edge_id): of two relations with one id, the dict has the last.
unfoldable pub relation_of : (edge_id : String) → List TopologyRelation → Option TopologyRelation
relation_of edge_id [] = none
relation_of edge_id (r ∷ rs) = elim (relation_of edge_id rs) [
  | some later ↦ some later
  | none ↦ if r.relation_id == edge_id then some r else none
]

abbrev pub Seeds : Type 0
Seeds = List String × List CandidateProvenance

abbrev endpoint_record :
    AlertEvent → TopologyGraph → (edge_id service : String) → CandidateProvenance
endpoint_record alert g edge_id service =
    seed_record alert g service "trigger_edge_endpoint" edge_id (("physical_edge_id", edge_id) ∷ [])

abbrev pub with_endpoints :
    CandidateGraphConfig
    → AlertEvent
    → TopologyGraph
    → (edge_id : String) → TopologyRelation
    → Seeds
    → Seeds
with_endpoints config alert g edge_id r (seeds, provenance) =
    if config.include_trigger_edge_endpoints
    then (
      insert r.dst_service_id (insert r.src_service_id seeds),
      provenance
          ++ endpoint_record alert g edge_id r.src_service_id
            ∷ endpoint_record alert g edge_id r.dst_service_id
            ∷ [],
    )
    else (seeds, provenance)

-- The loop of `_seeds` over the trigger edges.
unfoldable pub edge_seeds :
    CandidateGraphConfig
    → AlertEvent
    → TopologyGraph
    → List String
    → Seeds
    → Result BuildError Seeds
edge_seeds config alert g [] found = ok found
edge_seeds config alert g (edge_id ∷ edges) found = elim (relation_of edge_id g.physical_edges) [
  | none ↦ err stale_edge
  | some r ↦ edge_seeds config alert g edges (with_endpoints config alert g edge_id r found)
]

-- _seeds
unfoldable pub seeds_of :
    CandidateGraphConfig → AlertEvent → TopologyGraph → Result BuildError Seeds
seeds_of config alert g = do
  provenance ← trigger_seeds config alert g (set_of alert.trigger_services)
  edge_seeds config alert g alert.trigger_edges (set_of alert.trigger_services, provenance)
