-- ===== src/Alerting/Outputs.antt =====
-- proberca/alerting/state_machine.py: the events and the update gate of a window. SHA-256 is the
-- parameter `sha`.
pub mod Gates
use probe_rca.Prelude.{
  ℕ, ◌+◌, ◌-◌, ◌*◌, ◌/◌, String, Bool, true, false, ◌&&◌, ◌||◌, not, Option, none, some, List, [],
  ◌∷◌, ◌++◌, ltb, leb, list_beq, ◌==◌, nat_eq, string_eq, if◌then◌else◌, Result, ok, err, ◌>>=◌,
}
use probe_rca.Prelude.Keys.{Dict, keys_where, union, difference}
use probe_rca.Alerting.Types.{
  AlertState, healthy, soft, hard, recovery, AlertStateConfig, CompositeAlertRule, AnomalyScore,
  ServiceState, StateScores, Reason, direct_hard, composite_hard, composite_soft, hard_threshold,
  soft_threshold, recovery_threshold, recovery_realert_soft, cooldown_complete, soft_cleared,
  trigger_changed, isolated_edge_anomaly, EventState, machine, edge_anomaly, AlertEvent, UpdateGate,
  AlertStateMachine, AlertError, StateMachineResult, is_hard, is_soft, is_recovery, is_healthy,
  state_beq,
}
use probe_rca.Alerting.Counters.{advance}
use probe_rca.Alerting.Triggers.{
  impact_edges, direct_services, direct_edges, is_empty, Composites, evaluate_composites,
}
use probe_rca.Alerting.Alarms.{service_values}
use probe_rca.Alerting.Transition.{Transition, or_reason}

-- What an event's id is computed from.
pub record Material : Type 0 where
  pub timestamp_ns : ℕ
  pub state : EventState
  pub services : List String
  pub edges : List String
  pub code : Reason

abbrev freezes_all : EventState → Bool
freezes_all (machine s) = is_hard s || is_recovery s
freezes_all edge_anomaly = false

abbrev freezes_service_model : EventState → Bool
freezes_service_model (machine s) = is_soft s || is_hard s || is_recovery s
freezes_service_model edge_anomaly = false

unfoldable pub event : (sha : Material → String) → Material → StateScores → AlertEvent
event sha material scores = record {
  alert_id = sha material;
  timestamp_ns = material.timestamp_ns;
  state = material.state;
  trigger_services = material.services;
  trigger_edges = material.edges;
  service_scores = service_values scores.services;
  edge_scores = scores.edges;
  code = material.code;
  frozen_baseline = freezes_all material.state;
  frozen_service_model = freezes_service_model material.state;
  frozen_metric_model = freezes_all material.state;
}

-- Whether a window is announced: another state, or other triggers while soft or hard.
unfoldable pub is_announced : (before after : AlertStateMachine) → Bool
is_announced before after =
    not (state_beq after.state before.state)
    || ((is_soft after.state || is_hard after.state)
        && (not (list_beq after.trigger_services before.trigger_services)
            || not (list_beq after.trigger_edges before.trigger_edges)))

unfoldable pub state_events :
    (sha : Material → String) (timestamp_ns : ℕ) (before : AlertStateMachine)
    → Transition
    → StateScores
    → List AlertEvent
state_events sha timestamp_ns before (after, reason) scores =
    if is_announced before after
    then event sha
        (record {
          timestamp_ns = timestamp_ns;
          state = machine after.state;
          services = after.trigger_services;
          edges = after.trigger_edges;
          code = or_reason reason (trigger_changed after.state);
        })
        scores
      ∷ []
    else []

unfoldable pub isolated_events :
    (sha : Material → String) (timestamp_ns : ℕ) (before isolated : List String)
    → StateScores
    → List AlertEvent
isolated_events sha timestamp_ns before isolated scores =
    if not (list_beq isolated before) && not (is_empty isolated)
    then event sha
        (record {
          timestamp_ns = timestamp_ns;
          state = edge_anomaly;
          services = [];
          edges = isolated;
          code = isolated_edge_anomaly;
        })
        scores
      ∷ []
    else []

abbrev frozen_gate : AlertStateMachine → Bool → UpdateGate
frozen_gate m baseline_ready = record {
  update_node_baselines = false;
  update_edge_baselines = false;
  frozen_node_ids = [];
  frozen_edge_ids = [];
  update_service_model = false;
  prepare_metric_model = false;
  freeze_metric_model = true;
  request_burst = is_hard m.state;
  request_rca = is_hard m.state;
  baseline_ready = baseline_ready;
}

abbrev open_gate :
    (updates updates_service prepares : Bool) (nodes edges : List String) → Bool → UpdateGate
open_gate updates updates_service prepares nodes edges baseline_ready = record {
  update_node_baselines = updates;
  update_edge_baselines = updates;
  frozen_node_ids = nodes;
  frozen_edge_ids = edges;
  update_service_model = updates_service;
  prepare_metric_model = prepares;
  freeze_metric_model = false;
  request_burst = false;
  request_rca = false;
  baseline_ready = baseline_ready;
}

unfoldable pub gate : AlertStateMachine → Bool → StateScores → UpdateGate
gate m baseline_ready scores =
    if is_hard m.state || is_recovery m.state
    then frozen_gate m baseline_ready
    else if is_soft m.state
    then open_gate true false true m.trigger_services (union m.trigger_edges m.isolated_edges)
        baseline_ready
    else if not (is_empty m.isolated_edges)
    then open_gate true baseline_ready false [] m.isolated_edges baseline_ready
    else (let calm = ltb scores.global_anomaly m.config.healthy_threshold in
        open_gate calm (baseline_ready && calm) false [] [] baseline_ready)
