-- ===== src/Alerting/Machine.antt =====
-- proberca/alerting/state_machine.py: `step`, in the order of the code. A step that raises leaves
-- the machine with the counters that it had advanced.
pub mod Steps
pub mod Detection
use probe_rca.Prelude.{
  ℕ, ◌+◌, ◌-◌, ◌*◌, ◌/◌, String, Bool, true, false, ◌&&◌, ◌||◌, not, Option, none, some, List, [],
  ◌∷◌, ◌++◌, ltb, leb, list_beq, ◌==◌, nat_eq, string_eq, if◌then◌else◌, Result, ok, err, ◌>>=◌,
}
use probe_rca.Prelude.Keys.{Dict, keys_where, union, difference}
use probe_rca.Alerting.Types.{
  AlertState, healthy, soft, hard, recovery, AlertStateConfig, CompositeAlertRule, AnomalyScore,
  ServiceState, StateScores, Reason, direct_hard, composite_hard, composite_soft, hard_threshold,
  soft_threshold, recovery_threshold, recovery_realert_soft, cooldown_complete, soft_cleared,
  trigger_changed, isolated_edge_anomaly, EventState, machine, edge_anomaly, AlertEvent, UpdateGate,
  AlertStateMachine, AlertError, StateMachineResult, is_hard, is_soft, is_recovery, is_healthy,
  state_beq,
}
use probe_rca.Alerting.Counters.{advance}
use probe_rca.Alerting.Triggers.{
  impact_edges, direct_services, direct_edges, is_empty, Composites, evaluate_composites,
}
use probe_rca.Alerting.Alarms.{
  Alarms, advance_counters, edge_hard_candidates, direct_code, alarms, relapse,
}
use probe_rca.Alerting.Transition.{Transition, transition}
use probe_rca.Alerting.Outputs.{Material, state_events, isolated_events, gate}

-- __init__
unfoldable pub new : AlertStateConfig → ℕ → List CompositeAlertRule → AlertStateMachine
new config window_sec rules = record {
  config = config;
  window_sec = window_sec;
  rules = rules;
  state = healthy;
  service_soft = [];
  service_hard = [];
  edge_soft = [];
  edge_hard = [];
  rule_counts = [];
  recovery_count = 0;
  cooldown_remaining = 0;
  trigger_services = [];
  trigger_edges = [];
  isolated_edges = [];
}

unfoldable pub reset_counters : AlertStateMachine → AlertStateMachine
reset_counters m = record m {
  service_soft = [];
  service_hard = [];
  edge_soft = [];
  edge_hard = [];
  rule_counts = [];
  isolated_edges = [];
}

abbrev pub Stepped : Type 0
Stepped = Result AlertError StateMachineResult × AlertStateMachine

unfoldable pub conclude :
    (sha : Material → String) (timestamp_ns : ℕ) (before : AlertStateMachine)
    (isolated : List String)
    → Transition
    → StateScores
    → Stepped
conclude sha timestamp_ns before isolated t scores =
    let m = record (t.0) { isolated_edges = isolated } in
    (
      ok (record {
        state = m.state;
        events =
            state_events sha timestamp_ns before t scores
            ++ isolated_events sha timestamp_ns before.isolated_edges isolated scores;
        gate = gate m true scores;
        scores = scores;
      }),
      m,
    )

-- The end of a step, after the check for a relapse.
unfoldable pub settle :
    (sha : Material → String) (timestamp_ns : ℕ)
    → AlertStateMachine
    → StateScores
    → List AnomalyScore
    → Composites
    → (isolated : List String) → Result AlertError Alarms
    → Stepped
settle sha timestamp_ns m scores metrics c isolated (err e) = (err e, m)
settle sha timestamp_ns m scores metrics c isolated (ok a) =
    conclude sha timestamp_ns m isolated
      (transition m a (direct_code metrics c) c.code scores.global_anomaly) scores

-- The part of a step after the search for the edges with business impact.
unfoldable pub step_impacted :
    (sha : Material → String) (timestamp_ns : ℕ)
    → AlertStateMachine
    → StateScores
    → List AnomalyScore
    → (impacted : Result AlertError (List String)) → Stepped
step_impacted sha timestamp_ns m scores metrics (err e) = (err e, m)
step_impacted sha timestamp_ns m scores metrics (ok impacted) =
    let isolated = difference (edge_hard_candidates m) impacted in
    let c = evaluate_composites m.rules m.rule_counts metrics in
    let counted : AlertStateMachine = record m { rule_counts = c.counts } in
    settle sha timestamp_ns counted scores metrics c isolated
      (relapse counted scores (alarms counted metrics c impacted isolated))

unfoldable pub step :
    (sha : Material → String) (timestamp_ns : ℕ)
    → AlertStateMachine
    → StateScores
    → List AnomalyScore
    → (baseline_ready : Bool) → Stepped
step sha timestamp_ns m scores metrics baseline_ready =
    let reset = reset_counters m in
    let advanced = advance_counters m scores in
    if not baseline_ready
    then (
      ok (record { state = m.state; events = []; gate = gate reset false scores; scores = scores }),
      reset,
    )
    else step_impacted sha timestamp_ns advanced scores metrics
        (impact_edges m.config scores (edge_hard_candidates advanced))
