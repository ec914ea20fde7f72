-- ===== src/Candidates/Services.antt =====
-- proberca/candidates/builder.py: the candidate services and the physical edges between them, which
-- `prepare` collects before it looks at metrics. The query of the topology store and
-- `build_topology_graph` come before: `graph` is what the latter returned.
pub mod Records
pub mod Reach
use probe_rca.Prelude.{
  ℕ, String, Bool, true, false, ◌&&◌, ◌||◌, not, Option, none, some, List, [], ◌∷◌, ◌++◌, length,
  leb, mem, keep, ◌==◌, string_eq, if◌then◌else◌, Result, ok, err, guard, ◌>>=◌, ◌>>◌,
}
use probe_rca.Prelude.Keys.{Dict, get, keys}
use probe_rca.Alerting.Types.{AlertEvent}
use probe_rca.Candidates.Relation.{TopologyRelation, CandidateProvenance, Provenance, append_to}
use probe_rca.Candidates.Search.{Bfs, bfs}
use probe_rca.Candidates.Builder.{
  BuildError, CandidateGraphConfig, TopologyGraph, namespace_scoped_graph, seeds_of, joins,
  overflow,
}

-- The arguments of `_direct_context` but the seeds and the output.
pub record Context : Type 0 where
  pub relations : List TopologyRelation
  pub reason : String
  pub alert_id : String
  pub snapshot_id : String

-- relation.detail[k], which the relations of the kind have.
abbrev or_empty : Option String → String
or_empty none = ""
or_empty (some s) = s

unfoldable pub context_detail : (reason : String) → Dict String → Dict String
context_detail reason detail =
    if reason == "cohost"
    then ("shared_node", or_empty (get "node_name" detail)) ∷ []
    else ("resource_type", or_empty (get "resource_type" detail))
      ∷ ("resource_id", or_empty (get "resource_id" detail))
      ∷ []

unfoldable pub other_end : (seed : String) → TopologyRelation → String
other_end seed r = if seed == r.src_service_id then r.dst_service_id else r.src_service_id

unfoldable pub context_record : Context → (seed : String) → TopologyRelation → CandidateProvenance
context_record c seed r = record {
  object_id = other_end seed r;
  object_type = "service";
  reason_code = c.reason;
  source_object_id = seed;
  hop_count = 1;
  relation_path = seed ∷ other_end seed r ∷ [];
  relation_ids = r.relation_id ∷ [];
  snapshot_id = c.snapshot_id;
  alert_id = c.alert_id;
  detail = context_detail c.reason r.detail;
}

-- The loop of `_direct_context` over the relations.
unfoldable pub context_of :
    Context → (seed : String) → List TopologyRelation → Provenance → Provenance
context_of c seed [] output = output
context_of c seed (r ∷ rs) output =
    let with_record = append_to (other_end seed r) (context_record c seed r) output in
    context_of c seed rs
      (if seed == r.src_service_id || seed == r.dst_service_id then with_record else output)

-- _direct_context, for the sorted seeds
unfoldable pub direct_context : Context → (seeds : List String) → Provenance → Provenance
direct_context c [] output = output
direct_context c (seed ∷ seeds) output =
    direct_context c seeds (context_of c seed c.relations output)

-- for item in seed_provenance: service_provenance.setdefault(item.object_id, []).append(item)
unfoldable pub grouped : List CandidateProvenance → Provenance → Provenance
grouped [] output = output
grouped (p ∷ ps) output = grouped ps (append_to p.object_id p output)

-- The list, if `_check_limit` accepts how long it is.
unfoldable pub limited {ℓ} : {A : Type ℓ} → (limit : ℕ) → List A → Result BuildError (List A)
limited limit xs = if leb (length xs) limit then ok xs else err overflow

module _ (config : CandidateGraphConfig) (alert : AlertEvent) (g : TopologyGraph) where
  abbrev pub upstream : Bfs
  upstream = record {
    relations = g.impact_edges;
    max_hops = config.upstream_hops;
    incoming = true;
    reason = "impact_ancestor";
    alert_id = alert.alert_id;
    snapshot_id = g.snapshot_id;
  }

  abbrev pub downstream : Bfs
  downstream = record {
    relations = g.call_edges;
    max_hops = config.downstream_hops;
    incoming = false;
    reason = "call_descendant";
    alert_id = alert.alert_id;
    snapshot_id = g.snapshot_id;
  }

  abbrev pub context : List TopologyRelation → String → Context
  context relations reason = record {
    relations = relations;
    reason = reason;
    alert_id = alert.alert_id;
    snapshot_id = g.snapshot_id;
  }

  unfoldable pub with_cohosts : (seeds : List String) → Provenance → Provenance
  with_cohosts seeds output =
      if config.include_cohost
      then direct_context (context g.host_relations "cohost") seeds output
      else output

  unfoldable pub with_shared : (seeds : List String) → Provenance → Provenance
  with_shared seeds output =
      if config.include_shared_resource
      then direct_context (context g.resource_relations "shared_resource") seeds output
      else output

  -- `service_provenance`, from the seeds on.
  unfoldable pub service_provenance : (seeds : List String) → List CandidateProvenance → Provenance
  service_provenance seeds provenance =
      with_shared seeds
        (with_cohosts seeds (bfs downstream seeds (bfs upstream seeds (grouped provenance []))))

  -- `prepare` from the seeds to the physical edges, on the graph of the allowed namespaces.
  unfoldable pub scoped_services :
      Result BuildError (List String × Provenance × List TopologyRelation)
  scoped_services = do
    (seeds, provenance) ← seeds_of config alert g
    services ← limited config.max_candidate_services (keys (service_provenance seeds provenance))
    physical ← limited config.max_candidate_physical_edges (keep (joins services) g.physical_edges)
    ok (services, service_provenance seeds provenance, physical)

-- `prepare` from the topology graph to the physical edges.
unfoldable pub candidate_services :
    CandidateGraphConfig
    → AlertEvent
    → TopologyGraph
    → Result BuildError (List String × Provenance × List TopologyRelation)
candidate_services config alert graph = do
  g ← namespace_scoped_graph config graph
  scoped_services config alert g
