-- ===== src/Alerting/Alarms.antt =====
-- proberca/alerting/state_machine.py: what alarms in one window.
use probe_rca.Prelude.{
  ℕ, String, Bool, ◌&&◌, not, Option, none, some, List, [], ◌∷◌, ltb, leb, nat_eq, string_eq,
  if◌then◌else◌, Result, ok, ◌>>=◌,
}
use probe_rca.Prelude.Keys.{Dict, keys_where, union, difference}
use probe_rca.Alerting.Types.{
  AnomalyScore, ServiceState, StateScores, Reason, direct_hard, composite_hard, AlertStateMachine,
  AlertError, is_recovery,
}
use probe_rca.Alerting.Counters.{advance}
use probe_rca.Alerting.Triggers.{impact_edges, direct_services, direct_edges, is_empty, Composites}

-- {key: state.score for key, state in services.items() if state.score is not None}
unfoldable pub service_values : Dict ServiceState → Dict ℕ
service_values [] = []
service_values ((k, state) ∷ d) = elim state.score [
  | none ↦ service_values d
  | some score ↦ (k, score) ∷ service_values d
]

-- What alarms in one window.
pub record Alarms : Type 0 where
  pub soft_services : List String
  pub soft_edges : List String
  pub hard_services : List String
  pub hard_edges : List String

abbrev pub has_hard : Alarms → Bool
has_hard a = not (is_empty a.hard_services && is_empty a.hard_edges)

abbrev pub has_soft : Alarms → Bool
has_soft a = not (is_empty a.soft_services && is_empty a.soft_edges)

unfoldable pub advance_counters : AlertStateMachine → StateScores → AlertStateMachine
advance_counters m scores =
    let services = service_values scores.services in
    record m {
      service_soft = advance m.service_soft services m.config.soft_threshold;
      service_hard = advance m.service_hard services m.config.hard_threshold;
      edge_soft = advance m.edge_soft scores.edges m.config.soft_threshold;
      edge_hard = advance m.edge_hard scores.edges m.config.hard_threshold;
    }

unfoldable pub edge_hard_candidates : AlertStateMachine → List String
edge_hard_candidates m = keys_where (leb m.config.hard_consecutive_windows) m.edge_hard

unfoldable pub direct_code : List AnomalyScore → Composites → Option Reason
direct_code metrics c =
    if not (is_empty (direct_services metrics) && is_empty (direct_edges metrics))
    then some direct_hard
    else if not (is_empty c.hard_services && is_empty c.hard_edges)
    then some composite_hard
    else none

-- The alarms of the counters, the direct alarms and the composite rules together.
unfoldable pub alarms :
    AlertStateMachine → List AnomalyScore → Composites → (impacted isolated : List String) → Alarms
alarms m metrics c impacted isolated = record {
  soft_services =
      union (keys_where (leb m.config.soft_consecutive_windows) m.service_soft) c.soft_services;
  soft_edges =
      union (difference (keys_where (leb m.config.soft_consecutive_windows) m.edge_soft) isolated)
        c.soft_edges;
  hard_services =
      union (keys_where (leb m.config.hard_consecutive_windows) m.service_hard)
        (union (direct_services metrics) c.hard_services);
  hard_edges = union impacted (union (direct_edges metrics) c.hard_edges);
}

-- In recovery a single window over a threshold alarms again.
unfoldable pub realert :
    AlertStateMachine → StateScores → Alarms → (impacted_now : List String) → Alarms
realert m scores a impacted_now =
    let services = service_values scores.services in
    let raised : Alarms = record a {
      hard_services = union a.hard_services (keys_where (ltb m.config.hard_threshold) services);
      hard_edges = union a.hard_edges impacted_now;
    } in
    if has_hard raised then raised else record raised {
      soft_services = union a.soft_services (keys_where (ltb m.config.soft_threshold) services);
      soft_edges = union a.soft_edges (keys_where (ltb m.config.soft_threshold) scores.edges);
    }

unfoldable pub relapse : AlertStateMachine → StateScores → Alarms → Result AlertError Alarms
relapse m scores a =
    if is_recovery m.state
    then (do
      impacted_now ←
          impact_edges m.config scores (keys_where (ltb m.config.hard_threshold) scores.edges)
      ok (realert m scores a impacted_now))
    else ok a
