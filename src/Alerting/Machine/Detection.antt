-- ===== src/Alerting/Machine/Detection.antt =====
-- proberca/alerting/state_machine.py: a service over the hard threshold alarms after the configured
-- number of windows.
use probe_rca.Prelude.{
  ℕ, ◌≤◌, ◌<◌, ◌≡◌, inl, inr, refl, ap, ◌∙◌, sym, String, true, false, Option, List, [], ◌∷◌, map,
  mem, ltb, leb, string_eq, arith, Result, ok, err, Bool-cases, eq_iff, ◌>>=◌,
}
use probe_rca.Prelude.Keys.{Dict, get, keys_where, union, difference, mem-union, mem-insert}
use probe_rca.Alerting.Types.{
  AlertState, healthy, hard, AlertStateConfig, CompositeAlertRule, AnomalyScore, StateScores,
  AlertStateMachine, AlertError, StateMachineResult, is_recovery, Reason,
}
use probe_rca.Alerting.Counters.{count, counters_after, Streak, count-Streak}
use probe_rca.Alerting.Triggers.{
  impact_edges, is_empty, evaluate_composites, Composites, direct_services,
}
use probe_rca.Alerting.Alarms.{
  Alarms, advance_counters, edge_hard_candidates, direct_code, alarms, relapse, realert,
  service_values, has_hard,
}
use probe_rca.Alerting.Transition.{transition}
use probe_rca.Alerting.Transition.Moves.{transitions}
use probe_rca.Alerting.Outputs.{Material}
use probe_rca.Alerting.Machine.{new, conclude, settle, step_impacted, step}

-- The part of the machine that only the head of a step changes.
record SameHard (before after : AlertStateMachine) : Type 0 where
  service_hard : after.service_hard ≡ before.service_hard
  config : after.config ≡ before.config

transition-SameHard :
    (m : AlertStateMachine) (a : Alarms) (direct composite : Option Reason) (global : ℕ)
    → SameHard m (transition m a direct composite global).0
unfolding transitions
transition-SameHard m a direct composite global = record {
  service_hard = ground arith;
  config = ground arith;
}

module _ (sha : Material → String) (time : ℕ) (scores : StateScores)
    (metrics : List AnomalyScore) where
  settle-SameHard :
      (m : AlertStateMachine) (c : Composites) (isolated : List String)
      (r : Result AlertError Alarms)
      → SameHard m (settle sha time m scores metrics c isolated r).1
  unfolding settle conclude
  settle-SameHard m c isolated (err e) = record { service_hard = refl; config = refl }
  settle-SameHard m c isolated (ok a) =
      let t = transition-SameHard m a (direct_code metrics c) c.code scores.global_anomaly in
      record { service_hard = t.service_hard; config = t.config }

  impacted-SameHard :
      (m : AlertStateMachine) (r : Result AlertError (List String))
      → SameHard m (step_impacted sha time m scores metrics r).1
  unfolding step_impacted
  impacted-SameHard m (err e) = record { service_hard = refl; config = refl }
  impacted-SameHard m (ok impacted) =
      let isolated = difference (edge_hard_candidates m) impacted in
      let c = evaluate_composites m.rules m.rule_counts metrics in
      let counted : AlertStateMachine = record m { rule_counts = c.counts } in
      let s =
        settle-SameHard counted c isolated
          (relapse counted scores (alarms counted metrics c impacted isolated)) in
      record { service_hard = s.service_hard; config = s.config }

  -- A ready step counts its window once, whether it fails or not.
  step-SameHard :
      (m : AlertStateMachine)
      → SameHard (advance_counters m scores) (step sha time m scores metrics true).1
  unfolding step
  step-SameHard m =
      impacted-SameHard (advance_counters m scores)
        (impact_edges m.config scores (edge_hard_candidates (advance_counters m scores)))

-- A key whose counter has reached a positive number is one of those that the counter selects.
reached-mem :
    (n : ℕ) (k : String) (d : Dict ℕ) → 0 < n → n ≤ count k d → mem k (keys_where (leb n) d) ≡ true
unfolding count get keys_where
reached-mem n k [] positive h = absurd (omega arith)
reached-mem n k ((j, v) ∷ d) positive h =
    ground (arith, reached-mem n k d positive, eq_iff k j, mem-insert k j (keys_where (leb n) d))

mem-is_empty : (k : String) (xs : List String) → mem k xs ≡ true → is_empty xs ≡ false
mem-is_empty k [] h = sym h
mem-is_empty k (x ∷ xs) h = refl

realert-hard :
    (k : String) (m : AlertStateMachine) (scores : StateScores) (a : Alarms) (now : List String)
    → mem k a.hard_services ≡ true
    → has_hard (realert m scores a now) ≡ true
unfolding realert
realert-hard k m scores a now h = ground (
  arith,
  mem-is_empty k (
      union a.hard_services
        (keys_where (ltb m.config.hard_threshold) (service_values scores.services))),
  mem-union k a.hard_services
      (keys_where (ltb m.config.hard_threshold) (service_values scores.services)),
)

relapse-hard :
    (k : String) (m : AlertStateMachine) (scores : StateScores) (a b : Alarms)
    → mem k a.hard_services ≡ true
    → relapse m scores a ≡ ok b
    → has_hard b ≡ true
unfolding relapse
relapse-hard k m scores a b h e = elim (Bool-cases (is_recovery m.state)) [
  | inl back ↦
      raised (impact_edges m.config scores (keys_where (ltb m.config.hard_threshold) scores.edges))
        (ground arith)
  | inr away ↦ ground (arith, mem-is_empty k a.hard_services h)
]
  where
    raised :
        (r : Result AlertError (List String))
        → (r >>= λ now. ok (realert m scores a now)) ≡ ok b
        → has_hard b ≡ true
    raised (ok now) same = let hard_now = realert-hard k m scores a now h in cc
    raised (err e) same = cc

alarms-hard :
    (k : String) (m : AlertStateMachine) (metrics : List AnomalyScore) (c : Composites)
    (impacted isolated : List String)
    → 0 < m.config.hard_consecutive_windows
    → m.config.hard_consecutive_windows ≤ count k m.service_hard
    → mem k (alarms m metrics c impacted isolated).hard_services ≡ true
unfolding alarms
alarms-hard k m metrics c impacted isolated positive h = ground (
  arith,
  mem-union k (keys_where (leb m.config.hard_consecutive_windows) m.service_hard)
      (union (direct_services metrics) c.hard_services),
  reached-mem m.config.hard_consecutive_windows k m.service_hard positive h,
)

abbrev state_of : Result AlertError StateMachineResult → AlertState
state_of (ok res) = res.state
state_of (err e) = healthy

settle-hard :
    (sha : Material → String) (time : ℕ) (m : AlertStateMachine) (scores : StateScores)
    (metrics : List AnomalyScore) (c : Composites) (isolated : List String) (a : Alarms)
    (res : StateMachineResult)
    → has_hard a ≡ true
    → (settle sha time m scores metrics c isolated (ok a)).0 ≡ ok res
    → res.state ≡ hard
unfolding settle conclude transitions
settle-hard sha time m scores metrics c isolated a res h e =
    let entered : (transition m a (direct_code metrics c) c.code scores.global_anomaly).0.state
        ≡ hard =
      ground arith in
    sym (ap state_of e) ∙ entered

impacted-hard :
    (sha : Material → String) (time : ℕ) (k : String) (m : AlertStateMachine) (scores : StateScores)
    (metrics : List AnomalyScore) (r : Result AlertError (List String)) (res : StateMachineResult)
    → 0 < m.config.hard_consecutive_windows
    → m.config.hard_consecutive_windows ≤ count k m.service_hard
    → (step_impacted sha time m scores metrics r).0 ≡ ok res
    → res.state ≡ hard
unfolding step_impacted settle
impacted-hard sha time k m scores metrics (err e) res positive reached h = cc
impacted-hard sha time k m scores metrics (ok impacted) res positive reached h =
    let isolated = difference (edge_hard_candidates m) impacted in
    let c = evaluate_composites m.rules m.rule_counts metrics in
    let counted : AlertStateMachine = record m { rule_counts = c.counts } in
    let found = alarms counted metrics c impacted isolated in
    after_relapse counted c isolated found (relapse counted scores found) refl
      (alarms-hard k counted metrics c impacted isolated positive reached) h
  where
    after_relapse :
        (m' : AlertStateMachine) (c : Composites) (isolated : List String) (a : Alarms)
        (r' : Result AlertError Alarms)
        → relapse m' scores a ≡ r'
        → mem k a.hard_services ≡ true
        → (settle sha time m' scores metrics c isolated r').0 ≡ ok res
        → res.state ≡ hard
    after_relapse m' c isolated a (err e) same alarmed h' = cc
    after_relapse m' c isolated a (ok b) same alarmed h' =
        settle-hard sha time m' scores metrics c isolated b res
          (relapse-hard k m' scores a b alarmed same) h'

-- A window of a run: its time, its scores and its metrics.
pub record Window : Type 0 where
  pub time : ℕ
  pub scores : StateScores
  pub metrics : List AnomalyScore

abbrev pub values : Window → Dict ℕ
values w = service_values w.scores.services

-- The machine after ready windows, the latest first.
abbrev pub run : (sha : Material → String) → AlertStateMachine → List Window → AlertStateMachine
run sha m [] = m
run sha m (w ∷ earlier) = (step sha w.time (run sha m earlier) w.scores w.metrics true).1

run_hard :
    (sha : Material → String) (config : AlertStateConfig) (seconds : ℕ)
    (rules : List CompositeAlertRule) (windows : List Window)
    → ((run sha (new config seconds rules) windows).config ≡ config)
      × ((run sha (new config seconds rules) windows).service_hard
          ≡ counters_after config.hard_threshold (map values windows))
unfolding new advance_counters
run_hard sha config seconds rules [] = (refl, refl)
run_hard sha config seconds rules (w ∷ earlier) =
    let before = run sha (new config seconds rules) earlier in
    let (same, counts) = run_hard sha config seconds rules earlier in
    let s = step-SameHard sha w.time w.scores w.metrics before in
    (
      s.config ∙ same,
      s.service_hard ∙ (let hard_before = before.service_hard in rw (counts, same) refl),
    )

-- From a new machine, over ready windows: if a service's score exceeded the hard threshold in each
-- of the last `hard_consecutive_windows` windows, then the last one, unless it raises, ends hard,
-- whatever happened before.
pub step-detects :
    (sha : Material → String) (config : AlertStateConfig) (seconds : ℕ)
    (rules : List CompositeAlertRule) (w : Window) (earlier : List Window) (k : String)
    (res : StateMachineResult)
    → 0 < config.hard_consecutive_windows
    → Streak config.hard_threshold k config.hard_consecutive_windows (map values (w ∷ earlier))
    → (step sha w.time (run sha (new config seconds rules) earlier) w.scores w.metrics true).0
      ≡ ok res
    → res.state ≡ hard
unfolding step advance_counters
step-detects sha config seconds rules w earlier k res positive streak h =
    let before = run sha (new config seconds rules) earlier in
    let (same, counts) = run_hard sha config seconds rules earlier in
    let advanced = advance_counters before w.scores in
    let reached =
      (count-Streak config.hard_threshold k config.hard_consecutive_windows
          (map values (w ∷ earlier))).1
        streak in
    impacted-hard sha w.time k advanced w.scores w.metrics
      (impact_edges before.config w.scores (edge_hard_candidates advanced)) res (rw same positive)
      (rw (counts, same) reached) h
