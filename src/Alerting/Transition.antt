-- ===== src/Alerting/Transition.antt =====
-- proberca/alerting/state_machine.py: the state after a window, from what alarms in it.
pub mod Moves
pub mod Recovery
use probe_rca.Prelude.{
  ℕ, ◌+◌, ◌-◌, ◌*◌, ◌/◌, String, Bool, true, false, ◌&&◌, ◌||◌, not, Option, none, some, List, [],
  ◌∷◌, ◌++◌, ltb, leb, list_beq, ◌==◌, nat_eq, string_eq, if◌then◌else◌, Result, ok, err, ◌>>=◌,
}
use probe_rca.Prelude.Keys.{Dict, keys_where, union, difference}
use probe_rca.Alerting.Types.{
  AlertState, healthy, soft, hard, recovery, AlertStateConfig, CompositeAlertRule, AnomalyScore,
  ServiceState, StateScores, Reason, direct_hard, composite_hard, composite_soft, hard_threshold,
  soft_threshold, recovery_threshold, recovery_realert_soft, cooldown_complete, soft_cleared,
  trigger_changed, isolated_edge_anomaly, EventState, machine, edge_anomaly, AlertEvent, UpdateGate,
  AlertStateMachine, AlertError, StateMachineResult, is_hard, is_soft, is_recovery, is_healthy,
  state_beq,
}
use probe_rca.Alerting.Counters.{advance}
use probe_rca.Alerting.Triggers.{
  impact_edges, direct_services, direct_edges, is_empty, Composites, evaluate_composites,
}
use probe_rca.Alerting.Alarms.{Alarms, has_hard, has_soft}

-- math.ceil(recovery_cooldown_sec / window_sec)
abbrev pub cooldown_windows : AlertStateMachine → ℕ
cooldown_windows m = (m.config.recovery_cooldown_sec + m.window_sec - 1) / m.window_sec

abbrev pub or_reason : Option Reason → Reason → Reason
or_reason none other = other
or_reason (some reason) other = reason

abbrev pub Transition : Type 0
Transition = AlertStateMachine × Option Reason

unfoldable pub enter_hard : AlertStateMachine → Alarms → Option Reason → Transition
enter_hard m a direct = (
  record m {
    state = hard;
    recovery_count = 0;
    cooldown_remaining = 0;
    trigger_services = a.hard_services;
    trigger_edges = a.hard_edges;
  },
  some (or_reason direct hard_threshold),
)

-- The counter of calm windows, under the threshold that ends the state.
unfoldable pub count_calm : AlertStateMachine → (global threshold : ℕ) → AlertStateMachine
count_calm m global threshold =
    if ltb global threshold
    then record m { recovery_count = m.recovery_count + 1 }
    else record m { recovery_count = 0 }

unfoldable pub leave_hard : AlertStateMachine → (global : ℕ) → Transition
leave_hard m global =
    let m' = count_calm m global m.config.recovery_threshold in
    if leb m.config.recovery_windows m'.recovery_count
    then (
      record m' { state = recovery; cooldown_remaining = cooldown_windows m },
      some recovery_threshold,
    )
    else (m', none)

-- The first part of the recovery branch: a soft alarm, or one window less to wait.
unfoldable pub wait_recovery : AlertStateMachine → Alarms → Transition
wait_recovery m a =
    if has_soft a
    then (
      record m { state = soft; trigger_services = a.soft_services; trigger_edges = a.soft_edges },
      some recovery_realert_soft,
    )
    else (record m { cooldown_remaining = m.cooldown_remaining - 1 }, none)

-- The second part, which the code reaches after either.
unfoldable pub leave_recovery : Transition → (global : ℕ) → Transition
leave_recovery (m, reason) global =
    if m.cooldown_remaining == 0 && ltb global m.config.healthy_threshold
    then (
      record m { state = healthy; trigger_services = []; trigger_edges = [] },
      some cooldown_complete,
    )
    else (m, reason)

unfoldable pub enter_soft : AlertStateMachine → Alarms → Option Reason → Transition
enter_soft m a composite = (
  record m {
    state = soft;
    trigger_services = a.soft_services;
    trigger_edges = a.soft_edges;
    recovery_count = 0;
  },
  some (elim composite [ some composite_soft ↦ composite_soft | _ ↦ soft_threshold ]),
)

unfoldable pub leave_soft : AlertStateMachine → (global : ℕ) → Transition
leave_soft m global =
    let m' = count_calm m global m.config.healthy_threshold in
    if leb m.config.recovery_windows m'.recovery_count
    then (
      record m' { state = healthy; trigger_services = []; trigger_edges = [] },
      some soft_cleared,
    )
    else (m', none)

unfoldable pub transition :
    AlertStateMachine → Alarms → (direct composite : Option Reason) → (global : ℕ) → Transition
transition m a direct composite global =
    if has_hard a
    then enter_hard m a direct
    else if is_hard m.state
    then leave_hard m global
    else if is_recovery m.state
    then leave_recovery (wait_recovery m a) global
    else if has_soft a
    then enter_soft m a composite
    else if is_soft m.state
    then leave_soft m global
    else (m, none)
