-- ===== src/Candidates/Samples.antt =====
-- proberca/candidates/builder.py: an alert on a small graph, and applications of the theorems.
use probe_rca.Prelude.{
  ℕ, ◌+◌, ◌≤◌, ◌≡◌, ◌⊎◌, inl, inr, refl, String, true, false, none, List, [], ◌∷◌, length, mem,
  zero, suc, ◌<◌, ap, ok, arith, eq_iff, string_eq,
}
use probe_rca.Alerting.Types.{AlertEvent, EventState, Reason}
use probe_rca.Candidates.Relation.{TopologyRelation, CandidateProvenance, Provenance, append_to}
use probe_rca.Candidates.Search.{
  Bfs, bfs, search_from, key_of, target_of, adjacent, extend, extend_all, extension, found,
  fuel_for, provenance_of, round, run, visit,
}
use probe_rca.Candidates.Search.Ends.{search_from_ends}
use probe_rca.Candidates.Search.Sound.{has, bfs_sound}
use probe_rca.Candidates.Search.Ways.{Leads}
use probe_rca.Candidates.Search.Nearest.{IsAt}
use probe_rca.Candidates.Search.Complete.{bfs_complete}
use probe_rca.Prelude.Members.{Among}
use probe_rca.Candidates.Builder.{
  CandidateGraphConfig, TopologyGraph, namespace_scoped_graph, seeds_of, trigger_seeds,
  namespace_of, edge_seeds, relation_of,
}
use probe_rca.Prelude.Keys.{set_of, insert, keys, get, put}
use probe_rca.Prelude.Sorting.{insert_sorted, lex_le, sort_by}
use probe_rca.Prelude.Texts.{split}
use probe_rca.Candidates.Services.{
  upstream, candidate_services, scoped_services, limited, service_provenance, with_shared,
  with_cohosts, direct_context, context_of, grouped,
}
use probe_rca.Candidates.Services.Reach.{candidate_services_complete}
use probe_rca.Candidates.Limits.{limit_provenance}
use probe_rca.Candidates.Limits.Count.{limit_provenance-accounted, dropped}

abbrev relation : (id kind src dst : String) → TopologyRelation
relation id kind src dst = record {
  relation_id = id;
  relation_type = kind;
  src_service_id = src;
  dst_service_id = dst;
  protocol = none;
  symmetric = false;
  detail = [];
}

abbrev graph : TopologyGraph
graph = record {
  snapshot_id = "s1";
  cluster_id = "c";
  service_ids = "c::n::a" ∷ "c::n::b" ∷ "c::n::d" ∷ [];
  call_edges = relation "1" "call" "c::n::a" "c::n::b" ∷ [];
  impact_edges =
      relation "2" "impact" "c::n::b" "c::n::a" ∷ relation "3" "impact" "c::n::d" "c::n::b" ∷ [];
  host_relations = [];
  resource_relations = [];
  physical_edges = [];
}

abbrev config : CandidateGraphConfig
config = record {
  upstream_hops = 2;
  downstream_hops = 1;
  include_cohost = true;
  include_shared_resource = false;
  allowed_namespaces = [];
  max_candidate_services = 10;
  max_candidate_physical_edges = 10;
  include_trigger_edge_endpoints = true;
}

abbrev alert : AlertEvent
alert = record {
  alert_id = "alert";
  timestamp_ns = 5;
  state = EventState.edge_anomaly;
  trigger_services = "c::n::a" ∷ [];
  trigger_edges = [];
  service_scores = [];
  edge_scores = [];
  code = Reason.isolated_edge_anomaly;
  frozen_baseline = false;
  frozen_service_model = false;
  frozen_metric_model = false;
}

abbrev search : Bfs
search = upstream config alert graph

abbrev from_b : TopologyRelation
from_b = relation "2" "impact" "c::n::b" "c::n::a"

abbrev from_d : TopologyRelation
from_d = relation "3" "impact" "c::n::d" "c::n::b"

not_shorter : (m : ℕ) → m < 2 → ¬ Leads search "c::n::a" m "c::n::d"
unfolding key_of target_of
not_shorter zero fewer way = ground (arith, way, eq_iff "c::n::a" "c::n::d")
not_shorter (suc zero) fewer (r, inl e, from, on) =
    ground (arith, ap (target_of search) e, on, eq_iff "c::n::b" "c::n::d")
not_shorter (suc zero) fewer (r, inr (inl e), from, on) =
    ground (arith, ap (key_of search) e, from, eq_iff "c::n::b" "c::n::a")
not_shorter (suc zero) fewer (r, inr (inr none_left), from, on) = absurd none_left
not_shorter (suc (suc m)) fewer way = omega (arith, fewer)

-- The relations lead from "a" to "d" in two.
IsAt-d : IsAt search "c::n::a" 2 "c::n::d"
unfolding key_of target_of
IsAt-d = ((from_b, inl refl, refl, (from_d, inr (inl refl), refl, refl)), not_shorter)

search_from_ends_example : (search_from search "c::n::a" []).queue ≡ []
search_from_ends_example = search_from_ends search "c::n::a" []

bfs_complete_example : has search "c::n::a" 2 "c::n::d" (bfs search ("c::n::a" ∷ []) []) ≡ true
bfs_complete_example =
    bfs_complete search ("c::n::a" ∷ []) [] "c::n::a" 2 "c::n::d" (inl refl) (omega arith) IsAt-d
      (omega arith)

on_record : has search "c::n::a" 2 "c::n::d" (bfs search ("c::n::a" ∷ []) []) ≡ true
on_record =
    bfs_complete search ("c::n::a" ∷ []) [] "c::n::a" 2 "c::n::d" (inl refl) (omega arith) IsAt-d
      (omega arith)

bfs_sound_example :
    (has search "c::n::a" 2 "c::n::d" [] ≡ true)
    ⊎ (Among {A = String} "c::n::a" ("c::n::a" ∷ []) × (2 ≤ 2) × Leads search "c::n::a" 2 "c::n::d")
bfs_sound_example = bfs_sound search ("c::n::a" ∷ []) [] "c::n::a" 2 "c::n::d" on_record

abbrev services : List String
services = "c::n::a" ∷ "c::n::b" ∷ "c::n::d" ∷ []

abbrev service_record :
    (service reason source : String) (hop_count : ℕ) (path relation_ids : List String)
    → CandidateProvenance
service_record service reason source n path ids = record {
  object_id = service;
  object_type = "service";
  reason_code = reason;
  source_object_id = source;
  hop_count = n;
  relation_path = path;
  relation_ids = ids;
  snapshot_id = "s1";
  alert_id = "alert";
  detail = [];
}

abbrev provenance : Provenance
provenance =
    ("c::n::a", service_record "c::n::a" "trigger_service" "alert" 0 ("c::n::a" ∷ []) [] ∷ [])
    ∷ (
      "c::n::b",
      service_record "c::n::b" "impact_ancestor" "c::n::a" 1 ("c::n::b" ∷ "c::n::a" ∷ []) ("2" ∷ [])
          ∷ service_record "c::n::b" "call_descendant" "c::n::a" 1 ("c::n::a" ∷ "c::n::b" ∷ [])
              ("1" ∷ [])
          ∷ [],
    )
    ∷ (
      "c::n::d",
      service_record "c::n::d" "impact_ancestor" "c::n::a" 2
            ("c::n::d" ∷ "c::n::b" ∷ "c::n::a" ∷ []) ("3" ∷ "2" ∷ [])
          ∷ [],
    )
    ∷ []

same_graph : namespace_scoped_graph config graph ≡ ok graph
unfolding namespace_scoped_graph
same_graph = refl

built : candidate_services config alert graph ≡ ok (services, provenance, [])
unfolding candidate_services namespace_scoped_graph scoped_services seeds_of trigger_seeds set_of
    insert namespace_of split edge_seeds limited keys service_provenance with_shared with_cohosts
    direct_context context_of relation_of append_to adjacent bfs extend extend_all extension found
    fuel_for key_of provenance_of round run search_from target_of visit grouped get put
    insert_sorted lex_le sort_by
built = refl

candidate_services_complete_example : (mem "c::n::d" services ≡ true) × (length services ≤ 10)
candidate_services_complete_example =
    candidate_services_complete config alert graph graph search services provenance [] "c::n::a" 2
      "c::n::d" same_graph built (inl refl) refl (omega arith) IsAt-d (omega arith)

abbrev a_record : (hop_count : ℕ) → CandidateProvenance
a_record n = service_record "c::n::a" "impact_ancestor" "c::n::b" n [] []

limit_provenance-accounted_example :
    length (limit_provenance false 1 (a_record 2 ∷ a_record 1 ∷ [])).0
      + dropped (limit_provenance false 1 (a_record 2 ∷ a_record 1 ∷ [])).1
    ≡ 2
limit_provenance-accounted_example =
    limit_provenance-accounted false 1 (a_record 2 ∷ a_record 1 ∷ [])
