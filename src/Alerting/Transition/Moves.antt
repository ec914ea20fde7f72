-- ===== src/Alerting/Transition/Moves.antt =====
-- proberca/alerting/state_machine.py: which state follows which, and why.
use probe_rca.Prelude.{
  ℕ, ◌+◌, ◌<◌, ◌≡◌, ◌⊎◌, Bool, true, false, ◌&&◌, ◌||◌, not, Option, [], ltb, leb, arith,
}
use probe_rca.Alerting.Types.{
  AlertState, healthy, soft, hard, recovery, Reason, AlertStateMachine, is_hard, is_soft,
  is_healthy,
}
use probe_rca.Alerting.Alarms.{Alarms, has_hard}
use probe_rca.Alerting.Triggers.{is_empty}
use probe_rca.Alerting.Transition.{
  transition, enter_hard, leave_hard, count_calm, wait_recovery, leave_recovery, enter_soft,
  leave_soft,
}

unfoldable pub transitions : Unit {0}
unfolding transition enter_hard leave_hard count_calm wait_recovery leave_recovery enter_soft
    leave_soft
transitions = tt

-- Hard is left for recovery only, and recovery is entered from hard only.
abbrev pub can_move : AlertState → AlertState → Bool
can_move hard soft = false
can_move hard healthy = false
can_move healthy recovery = false
can_move soft recovery = false
can_move _ _ = true

module _ (m : AlertStateMachine) (a : Alarms) (direct composite : Option Reason) (global : ℕ) where
  abbrev after : AlertStateMachine
  after = (transition m a direct composite global).0

  -- After a window the machine is hard exactly if something alarms hard, or if it was hard and the
  -- calm windows, this one included, do not yet reach the configured number.
  pub transition-hard :
      0 < m.config.recovery_windows
      → is_hard after.state ≡ (
          has_hard a
          || (is_hard m.state
              && not (
                  ltb global m.config.recovery_threshold
                  && leb m.config.recovery_windows (m.recovery_count + 1))))
  unfolding transitions
  transition-hard positive = ground arith

  -- A hard alarm puts its services and edges on record and restarts both counters.
  transition-hard_fields :
      has_hard a ≡ true
      → (after.trigger_services ≡ a.hard_services)
        × (after.trigger_edges ≡ a.hard_edges)
        × (after.recovery_count ≡ 0)
        × (after.cooldown_remaining ≡ 0)
  unfolding transitions
  transition-hard_fields alarmed = ground arith

  -- Every move of the machine is one of those that `can_move` lists.
  pub transition-can_move : can_move m.state after.state ≡ true
  unfolding transitions
  transition-can_move = ground arith

-- A healthy machine has no triggers on record, a soft or hard one has some.
pub record IsConsistent (m : AlertStateMachine) : Type 0 where
  pub calm : (is_healthy m.state ≡ false) ⊎ ((m.trigger_services ≡ []) × (m.trigger_edges ≡ []))
  pub alarmed :
      ((is_soft m.state || is_hard m.state) ≡ false)
      ⊎ ((is_empty m.trigger_services && is_empty m.trigger_edges) ≡ false)

-- A transition keeps the triggers on record consistent with the state.
pub transition-IsConsistent :
    (m : AlertStateMachine) (a : Alarms) (direct composite : Option Reason) (global : ℕ)
    → IsConsistent m
    → IsConsistent (transition m a direct composite global).0
unfolding transitions
transition-IsConsistent m a direct composite global h = ground arith
