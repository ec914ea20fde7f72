-- ===== src/Alerting/Outputs/Gates.antt =====
-- proberca/alerting/state_machine.py: what the gate and the events tell the rest of the pipeline.
use probe_rca.Prelude.{
  ℕ, ◌≡◌, ◌⊎◌, inl, inr, refl, String, Bool, false, ◌&&◌, ◌||◌, not, Option, [], ◌∷◌,
  list_beq_sound, string_eq, arith, Bool-cases,
}
use probe_rca.Alerting.Types.{
  AlertStateMachine, StateScores, is_hard, is_soft, is_recovery, machine, AlertEvent, Reason,
  trigger_changed,
}
use probe_rca.Alerting.Transition.{or_reason}
use probe_rca.Alerting.Outputs.{gate, Material, state_events, is_announced, event}

-- RCA and bursts are requested in the hard state and in no other; while the machine is hard or
-- recovering no baseline and no model may learn, and while it is soft the service model may not.
pub gate_safe :
    (m : AlertStateMachine) (baseline_ready : Bool) (scores : StateScores)
    → ((gate m baseline_ready scores).request_rca ≡ is_hard m.state)
      × ((gate m baseline_ready scores).request_burst ≡ is_hard m.state)
      × ((gate m baseline_ready scores).freeze_metric_model
          ≡ (is_hard m.state || is_recovery m.state))
      × ((gate m baseline_ready scores).update_node_baselines
            && (gate m baseline_ready scores).freeze_metric_model
          ≡ false)
      × ((gate m baseline_ready scores).update_edge_baselines
          ≡ (gate m baseline_ready scores).update_node_baselines)
      × ((gate m baseline_ready scores).update_service_model
            && (is_soft m.state || is_hard m.state || is_recovery m.state || not baseline_ready)
          ≡ false)
unfolding gate
gate_safe m baseline_ready scores = ground arith

-- A window is announced if the state changes, or if it is soft or hard and the triggers change.
announced_or_same :
    (before after : AlertStateMachine)
    → is_announced before after ≡ false
    → (after.state ≡ before.state)
      × ((is_soft after.state || is_hard after.state ≡ false)
          ⊎ ((after.trigger_services ≡ before.trigger_services)
              × (after.trigger_edges ≡ before.trigger_edges)))
unfolding is_announced
announced_or_same before after quiet = ground (
  arith,
  list_beq_sound after.trigger_services before.trigger_services,
  list_beq_sound after.trigger_edges before.trigger_edges,
)

-- There is no state-change event only if the machine stays in its state and, where that state is
-- soft or hard, keeps its triggers; otherwise there is exactly one, which carries the state and the
-- triggers after the window, and freezes the metric model exactly where the gate does. The events
-- of isolated edges are separate.
pub state_events_exact :
    (sha : Material → String) (time : ℕ) (before after : AlertStateMachine) (reason : Option Reason)
    (scores : StateScores) (baseline_ready : Bool)
    → ((state_events sha time before (after, reason) scores ≡ [])
        × ((after.state ≡ before.state)
            × ((is_soft after.state || is_hard after.state ≡ false)
                ⊎ ((after.trigger_services ≡ before.trigger_services)
                    × (after.trigger_edges ≡ before.trigger_edges)))))
      ⊎ ((e : AlertEvent) × (state_events sha time before (after, reason) scores ≡ e ∷ [])
          × (e.state ≡ machine after.state)
          × (e.trigger_services ≡ after.trigger_services)
          × (e.trigger_edges ≡ after.trigger_edges)
          × (e.frozen_metric_model ≡ (gate after baseline_ready scores).freeze_metric_model))
unfolding state_events event gate
state_events_exact sha time before after reason scores baseline_ready =
    elim (Bool-cases (is_announced before after)) [
      | inl announced ↦ inr (
        event sha
            (record {
              timestamp_ns = time;
              state = machine after.state;
              services = after.trigger_services;
              edges = after.trigger_edges;
              code = or_reason reason (trigger_changed after.state);
            })
            scores,
        ground arith,
        refl,
        refl,
        refl,
        ground arith,
      )
      | inr quiet ↦ inl (ground arith, announced_or_same before after quiet)
    ]
