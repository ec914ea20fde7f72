-- ===== src/Alerting/Samples.antt =====
-- proberca/alerting/state_machine.py: a machine that alarms after two windows over a threshold.
use probe_rca.Prelude.{
  ℕ, ◌+◌, ◌≤◌, ◌≡◌, ◌↔◌, ◌⊎◌, inl, inr, refl, String, true, false, ◌&&◌, ◌||◌, not, none, some,
  List, [], ◌∷◌, map, ltb, leb, arith, Result, ok, err,
}
use probe_rca.Prelude.Keys.{Dict, keys_where, tabulate, union, keys, insert, get, difference}
use probe_rca.Alerting.Types.{
  healthy, soft, hard, recovery, AlertStateConfig, StateScores, AlertEvent, AlertStateMachine,
  AlertError, StateMachineResult, is_hard, is_soft, machine, cooldown_complete,
}
use probe_rca.Alerting.Counters.{counters_after, count, Streak, count-Streak, advance, exceeds}
use probe_rca.Alerting.Alarms.{
  Alarms, has_hard, advance_counters, relapse, alarms, edge_hard_candidates, service_values,
}
use probe_rca.Alerting.Triggers.{
  impact_edges, evaluate_composites, evaluate_rules, direct_services, direct_edges,
}
use probe_rca.Alerting.Transition.{transition}
use probe_rca.Alerting.Transition.Moves.{can_move, IsConsistent, transition-hard}
use probe_rca.Alerting.Transition.Recovery.{quiet, realert_dropped, realert_cleared_at_once}
use probe_rca.Alerting.Outputs.{Material, gate, state_events}
use probe_rca.Alerting.Outputs.Gates.{gate_safe, state_events_exact}
use probe_rca.Alerting.Machine.{new, step, step_impacted, settle, conclude, reset_counters}
use probe_rca.Alerting.Machine.Steps.{step_sound}
use probe_rca.Alerting.Machine.Detection.{Window, values, run, step-detects}

abbrev config : AlertStateConfig
config = record {
  healthy_threshold = 2;
  soft_threshold = 3;
  soft_consecutive_windows = 2;
  hard_threshold = 5;
  hard_consecutive_windows = 2;
  recovery_threshold = 3;
  recovery_windows = 2;
  recovery_cooldown_sec = 30;
  edge_business_impact_threshold = 3;
}

abbrev sha : Material → String
sha material = "alert"

abbrev loud : StateScores
loud = record {
  services = ("cart", record { score = some 9; family_scores = [] }) ∷ [];
  edges = [];
  global_anomaly = 9;
}

abbrev window : ℕ → Window
window time = record { time = time; scores = loud; metrics = [] }

abbrev fresh : AlertStateMachine
fresh = record {
  config = config;
  window_sec = 10;
  rules = [];
  state = healthy;
  service_soft = [];
  service_hard = [];
  edge_soft = [];
  edge_hard = [];
  rule_counts = [];
  recovery_count = 0;
  cooldown_remaining = 0;
  trigger_services = [];
  trigger_edges = [];
  isolated_edges = [];
}

fresh-IsConsistent : IsConsistent fresh
fresh-IsConsistent = record { calm = inr (refl, refl); alarmed = inl refl }

step_sound_example :
    (can_move healthy (step sha 1 fresh loud [] true).1.state ≡ true)
    × IsConsistent (step sha 1 fresh loud [] true).1
step_sound_example = step_sound sha 1 fresh loud [] true fresh-IsConsistent

transition-hard_example :
    is_hard
      (transition (record fresh { state = hard; recovery_count = 1 }) quiet none none 0).0.state
    ≡ (has_hard quiet || (true && not (ltb 0 3 && leb 2 (1 + 1))))
transition-hard_example =
    transition-hard (record fresh { state = hard; recovery_count = 1 }) quiet none none 0
      (omega arith)

abbrev recovering : AlertStateMachine
recovering = record fresh { state = recovery; recovery_count = 2; cooldown_remaining = 3 }

abbrev cart_alarms : Alarms
cart_alarms = record quiet { soft_services = "cart" ∷ [] }

abbrev waited : AlertStateMachine
waited = record recovering { cooldown_remaining = 0 }

realert_dropped_example :
    ((transition waited cart_alarms none none 1).0.state ≡ healthy)
    × ((transition waited cart_alarms none none 1).0.trigger_services ≡ [])
    × ((transition waited cart_alarms none none 1).0.trigger_edges ≡ [])
    × ((transition waited cart_alarms none none 1).1 ≡ some cooldown_complete)
realert_dropped_example =
    realert_dropped waited cart_alarms none none 1 refl refl refl refl (omega arith)

realert_cleared_at_once_example :
    ((transition waited cart_alarms none none 4).0.state ≡ soft)
    × ((transition (transition waited cart_alarms none none 4).0 quiet none none 1).0.state
        ≡ healthy)
realert_cleared_at_once_example =
    realert_cleared_at_once waited cart_alarms none none 4 1 refl refl refl (omega arith)
      (omega arith) (omega arith)

gate_safe_example :
    ((gate recovering true loud).request_rca ≡ false)
    × ((gate recovering true loud).request_burst ≡ false)
    × ((gate recovering true loud).freeze_metric_model ≡ true)
    × ((gate recovering true loud).update_node_baselines
          && (gate recovering true loud).freeze_metric_model
        ≡ false)
    × ((gate recovering true loud).update_edge_baselines
        ≡ (gate recovering true loud).update_node_baselines)
    × ((gate recovering true loud).update_service_model && true ≡ false)
gate_safe_example = gate_safe recovering true loud

abbrev alarmed : AlertStateMachine
alarmed = record fresh { state = hard; trigger_services = "cart" ∷ [] }

state_events_exact_example :
    ((state_events sha 1 fresh (alarmed, none) loud ≡ [])
      × ((alarmed.state ≡ fresh.state)
          × ((is_soft alarmed.state || is_hard alarmed.state ≡ false)
              ⊎ ((alarmed.trigger_services ≡ fresh.trigger_services)
                  × (alarmed.trigger_edges ≡ fresh.trigger_edges)))))
    ⊎ ((e : AlertEvent) × (state_events sha 1 fresh (alarmed, none) loud ≡ e ∷ [])
        × (e.state ≡ machine alarmed.state)
        × (e.trigger_services ≡ alarmed.trigger_services)
        × (e.trigger_edges ≡ alarmed.trigger_edges)
        × (e.frozen_metric_model ≡ (gate alarmed true loud).freeze_metric_model))
state_events_exact_example = state_events_exact sha 1 fresh alarmed none loud true

abbrev two_windows : List (Dict ℕ)
two_windows = (("cart", 9) ∷ []) ∷ (("cart", 7) ∷ []) ∷ []

count-Streak_example :
    (2 ≤ count "cart" (counters_after 5 two_windows)) ↔ Streak 5 "cart" 2 two_windows
count-Streak_example = count-Streak 5 "cart" 2 two_windows

abbrev alarm_result : Result AlertError StateMachineResult → StateMachineResult
alarm_result (ok result) = result
alarm_result (err e) = record {
  state = healthy;
  events = [];
  gate = gate fresh true loud;
  scores = loud;
}

abbrev second : Result AlertError StateMachineResult
second = (step sha 2 (run sha (new config 10 []) (window 1 ∷ [])) loud [] true).0

second_lem : second ≡ ok (alarm_result second)
unfolding step step_impacted settle conclude advance_counters reset_counters new relapse alarms
    impact_edges transition edge_hard_candidates evaluate_composites keys_where advance tabulate
    union keys service_values insert exceeds get count direct_services evaluate_rules direct_edges
    difference
second_lem = refl

streak_lem : Streak 5 "cart" 2 (map values (window 2 ∷ window 1 ∷ []))
unfolding exceeds service_values get
streak_lem = (refl, (refl, tt))

step-detects_example : (alarm_result second).state ≡ hard
step-detects_example =
    step-detects sha config 10 [] (window 2) (window 1 ∷ []) "cart" (alarm_result second)
      (omega arith) streak_lem second_lem
