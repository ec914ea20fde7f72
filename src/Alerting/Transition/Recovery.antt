-- ===== src/Alerting/Transition/Recovery.antt =====
-- proberca/alerting/state_machine.py: the way back from a hard alarm.
use probe_rca.Prelude.{
  ℕ, ◌-◌, ◌≤◌, ◌<◌, ◌≡◌, true, false, Option, none, some, List, [], ◌∷◌, ap, ◌∙◌, length, arith,
}
use probe_rca.Alerting.Types.{healthy, soft, recovery, Reason, cooldown_complete, AlertStateMachine}
use probe_rca.Alerting.Alarms.{Alarms, has_hard, has_soft}
use probe_rca.Alerting.Transition.{transition}
use probe_rca.Alerting.Transition.Moves.{transitions}

-- A window in which nothing alarms.
abbrev pub quiet : Alarms
quiet = record { soft_services = []; soft_edges = []; hard_services = []; hard_edges = [] }

-- The machine after windows in which nothing alarms, under their global scores.
unfoldable pub run_quiet : AlertStateMachine → List ℕ → AlertStateMachine
run_quiet m [] = m
run_quiet m (global ∷ rest) = run_quiet (transition m quiet none none global).0 rest

-- While a window remains to wait, a quiet window takes one off and stays in recovery, whatever the
-- global score is.
wait_one :
    (m : AlertStateMachine) (global : ℕ)
    → m.state ≡ recovery
    → 1 < m.cooldown_remaining
    → (transition m quiet none none global).0
      ≡ record m { cooldown_remaining = m.cooldown_remaining - 1 }
unfolding transitions
wait_one m global at_recovery more = ground arith

-- From recovery the machine stays in recovery through every run of quiet windows that is shorter
-- than what remains of the cooldown.
pub run_quiet-cooldown :
    (m : AlertStateMachine) (globals : List ℕ)
    → m.state ≡ recovery
    → length globals < m.cooldown_remaining
    → (run_quiet m globals).state ≡ recovery
unfolding run_quiet
run_quiet-cooldown m [] at_recovery short = at_recovery
run_quiet-cooldown m (global ∷ rest) at_recovery short =
    ap (λ (m' : AlertStateMachine). (run_quiet m' rest).state)
      (wait_one m global at_recovery (omega arith))
    ∙ (run_quiet-cooldown (record m { cooldown_remaining = m.cooldown_remaining - 1 }) rest
        at_recovery (omega arith))

-- A soft alarm in recovery, in a window whose global score is under the healthy threshold and with
-- no window left to wait, is dropped: the machine turns healthy with no triggers on record.
pub realert_dropped :
    (m : AlertStateMachine) (a : Alarms) (direct composite : Option Reason) (global : ℕ)
    → m.state ≡ recovery
    → has_hard a ≡ false
    → has_soft a ≡ true
    → m.cooldown_remaining ≡ 0
    → global < m.config.healthy_threshold
    → ((transition m a direct composite global).0.state ≡ healthy)
      × ((transition m a direct composite global).0.trigger_services ≡ [])
      × ((transition m a direct composite global).0.trigger_edges ≡ [])
      × ((transition m a direct composite global).1 ≡ some cooldown_complete)
unfolding transitions
realert_dropped m a direct composite global at_recovery no_hard soft_alarm waited calm =
    ground arith

-- A soft alarm in recovery keeps the calm windows that ended the hard state: once they were enough,
-- the first quiet window under the healthy threshold clears the alarm, however many windows are
-- configured.
pub realert_cleared_at_once :
    (m : AlertStateMachine) (a : Alarms) (direct composite : Option Reason) (global later : ℕ)
    → m.state ≡ recovery
    → has_hard a ≡ false
    → has_soft a ≡ true
    → m.config.healthy_threshold ≤ global
    → m.config.recovery_windows ≤ m.recovery_count
    → later < m.config.healthy_threshold
    → ((transition m a direct composite global).0.state ≡ soft)
      × ((transition (transition m a direct composite global).0 quiet none none later).0.state
          ≡ healthy)
unfolding transitions
realert_cleared_at_once m a direct composite global later at_recovery no_hard soft_alarm loud enough
      calm =
    ground arith
