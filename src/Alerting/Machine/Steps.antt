-- ===== src/Alerting/Machine/Steps.antt =====
-- proberca/alerting/state_machine.py: whole steps, and runs of them.
use probe_rca.Prelude.{
  ℕ, ◌≡◌, refl, sym, String, Bool, true, false, Option, List, [], string_eq, Result, ok, err,
}
use probe_rca.Prelude.Keys.{Dict, difference}
use probe_rca.Alerting.Types.{
  AlertState, healthy, soft, hard, recovery, AnomalyScore, StateScores, AlertStateMachine,
  AlertError, Reason,
}
use probe_rca.Alerting.Triggers.{impact_edges, evaluate_composites, Composites}
use probe_rca.Alerting.Alarms.{
  Alarms, advance_counters, edge_hard_candidates, direct_code, alarms, relapse,
}
use probe_rca.Alerting.Transition.{transition}
use probe_rca.Alerting.Transition.Moves.{
  can_move, transition-can_move, IsConsistent, transition-IsConsistent,
}
use probe_rca.Alerting.Outputs.{Material}
use probe_rca.Alerting.Machine.{reset_counters, conclude, settle, step_impacted, step}

-- Fields that a step writes without moving the machine: the counters and the isolated edges.
abbrev recount :
    AlertStateMachine
    → (service_soft service_hard edge_soft edge_hard : Dict ℕ) → Dict (Dict ℕ)
    → List String
    → AlertStateMachine
recount m ss sh es eh rules isolated = record m {
  service_soft = ss;
  service_hard = sh;
  edge_soft = es;
  edge_hard = eh;
  rule_counts = rules;
  isolated_edges = isolated;
}

-- What holds after a step follows from what no count changes and what a transition brings about.
module _ (P Q : AlertStateMachine → Type 0)
    (counted : (m : AlertStateMachine) (ss sh es eh : Dict ℕ) (rules : Dict (Dict ℕ))
        (isolated : List String)
      → P m
      → P (recount m ss sh es eh rules isolated))
    (kept : (m : AlertStateMachine) → P m → Q m)
    (moved : (m : AlertStateMachine) (a : Alarms) (direct composite : Option Reason) (global : ℕ)
        (isolated : List String)
      → P m
      → Q (record ((transition m a direct composite global).0) { isolated_edges = isolated }))
    (sha : Material → String) (time : ℕ) (scores : StateScores) (metrics : List AnomalyScore) where
  settle-induct :
      (m : AlertStateMachine) (c : Composites) (isolated : List String)
      (r : Result AlertError Alarms)
      → P m
      → Q (settle sha time m scores metrics c isolated r).1
  unfolding settle conclude
  settle-induct m c isolated (err e) h = kept m h
  settle-induct m c isolated (ok a) h =
      moved m a (direct_code metrics c) c.code scores.global_anomaly isolated h

  impacted-induct :
      (m : AlertStateMachine) (r : Result AlertError (List String))
      → P m
      → Q (step_impacted sha time m scores metrics r).1
  unfolding step_impacted
  impacted-induct m (err e) h = kept m h
  impacted-induct m (ok impacted) h =
      let isolated = difference (edge_hard_candidates m) impacted in
      let c = evaluate_composites m.rules m.rule_counts metrics in
      let counted_m : AlertStateMachine = record m { rule_counts = c.counts } in
      settle-induct counted_m c isolated
        (relapse counted_m scores (alarms counted_m metrics c impacted isolated))
        (counted m m.service_soft m.service_hard m.edge_soft m.edge_hard c.counts m.isolated_edges
          h)

  step-induct :
      (m : AlertStateMachine) (ready : Bool) → P m → Q (step sha time m scores metrics ready).1
  unfolding step reset_counters advance_counters
  step-induct m false h = kept (reset_counters m) (counted m [] [] [] [] [] [] h)
  step-induct m true h =
      let advanced = advance_counters m scores in
      impacted-induct advanced (impact_edges m.config scores (edge_hard_candidates advanced)) (
        counted m advanced.service_soft advanced.service_hard advanced.edge_soft advanced.edge_hard
          m.rule_counts m.isolated_edges h)

stays : (s : AlertState) → can_move s s ≡ true
stays healthy = refl
stays soft = refl
stays hard = refl
stays recovery = refl

recount-IsConsistent :
    (m : AlertStateMachine) (ss sh es eh : Dict ℕ) (rules : Dict (Dict ℕ)) (isolated : List String)
    → IsConsistent m
    → IsConsistent (recount m ss sh es eh rules isolated)
recount-IsConsistent m ss sh es eh rules isolated h = record { calm = h.calm; alarmed = h.alarmed }

-- A step, ready or not and failing or not, moves the machine along an edge of `can_move` or not at
-- all, and keeps its triggers consistent with its state.
pub step_sound :
    (sha : Material → String) (time : ℕ) (m : AlertStateMachine) (scores : StateScores)
    (metrics : List AnomalyScore) (ready : Bool)
    → IsConsistent m
    → (can_move m.state (step sha time m scores metrics ready).1.state ≡ true)
      × IsConsistent (step sha time m scores metrics ready).1
step_sound sha time m scores metrics ready h = (
  step-induct (λ m'. m'.state ≡ m.state) (λ m'. can_move m.state m'.state ≡ true)
      (λ m' ss sh es eh rules isolated e. e) (λ m' e. rw e (stays m.state))
      (λ m' a d c g isolated e. rw (sym e) (transition-can_move m' a d c g)) sha time scores metrics
      m ready refl,
  step-induct IsConsistent IsConsistent recount-IsConsistent (λ m' c. c)
      (λ m' a d c g isolated c'.
        let k = transition-IsConsistent m' a d c g c' in
        record { calm = k.calm; alarmed = k.alarmed })
      sha time scores metrics m ready h,
)
