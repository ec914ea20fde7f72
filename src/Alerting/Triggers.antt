-- ===== src/Alerting/Triggers.antt =====
-- proberca/alerting/state_machine.py: business impact, direct alarms and composite rules.
use Prim.Native.String
use probe_rca.Prelude.{
  ℕ, ◌+◌, String, Bool, true, false, ◌&&◌, ◌||◌, Option, none, some, List, [], ◌∷◌, mem, ltb, leb,
  keep, all, any, ◌==◌, string_eq, if◌then◌else◌, Result, ok, err, ◌>>=◌,
}
use probe_rca.Prelude.Keys.{Dict, get, put, keys, union, insert, tabulate}
use probe_rca.Prelude.Texts.{split, split_once}
use probe_rca.Alerting.Types.{
  AlertStateConfig, Target, same_service, same_edge, soft_level, hard_level, CompositeAlertRule,
  AnomalyScore, StateScores, Reason, composite_hard, composite_soft, AlertError, invalid_edge_id,
}
use probe_rca.Alerting.Counters.{count, or_zero}

abbrev service_id : String → String → String → String
service_id cluster namespace service =
    String.◌++◌ cluster (String.◌++◌ "::" (String.◌++◌ namespace (String.◌++◌ "::" service)))

unfoldable pub endpoints_of : List String → Option (String × String)
endpoints_of (cluster ∷ namespace ∷ edge ∷ kind ∷ []) = elim (split_once b'-' b'>' edge) [
  | none ↦ none
  | some (src, dst) ↦ some (service_id cluster namespace src, service_id cluster namespace dst)
]
endpoints_of parts = none

unfoldable pub request_impact : AlertStateConfig → StateScores → String → Bool
request_impact config scores service = elim (get service scores.services) [
  | none ↦ false
  | some state ↦
      ltb config.edge_business_impact_threshold (or_zero (get "request" state.family_scores))
]

unfoldable pub edge_has_business_impact :
    AlertStateConfig → StateScores → String → Result AlertError Bool
edge_has_business_impact config scores edge_id = elim (endpoints_of (split b':' b':' edge_id)) [
  | none ↦ err (invalid_edge_id edge_id)
  | some (src, dst) ↦ ok (request_impact config scores src || request_impact config scores dst)
]

-- {key for key in edges if self._edge_has_business_impact(key, scores)}
unfoldable pub impact_edges :
    AlertStateConfig → StateScores → List String → Result AlertError (List String)
impact_edges config scores [] = ok []
impact_edges config scores (edge ∷ edges) = do
  impact ← edge_has_business_impact config scores edge
  rest ← impact_edges config scores edges
  ok (if impact then edge ∷ rest else rest)

abbrev insert_named : Option String → List String → List String
insert_named none s = s
insert_named (some name) s = if name == "" then s else insert name s

unfoldable pub direct_services : List AnomalyScore → List String
direct_services [] = []
direct_services (m ∷ ms) =
    let rest = direct_services ms in if m.direct_hard then insert_named m.service_id rest else rest

unfoldable pub direct_edges : List AnomalyScore → List String
direct_edges [] = []
direct_edges (m ∷ ms) =
    let rest = direct_edges ms in if m.direct_hard then insert_named m.edge_id rest else rest

abbrev pub target_id : Target → AnomalyScore → Option String
target_id same_service score = score.service_id
target_id same_edge score = score.edge_id

abbrev insert_some : Option String → List String → List String
insert_some none s = s
insert_some (some name) s = insert name s

-- The targets under which the scores are grouped.
unfoldable pub targets : Target → List AnomalyScore → List String
targets target [] = []
targets target (m ∷ ms) = insert_some (target_id target m) (targets target ms)

abbrev is_for : Target → String → String → AnomalyScore → Bool
is_for target id selector m =
    elim (target_id target m) [ none ↦ false | some t ↦ t == id ] && m.stable_id == selector

-- grouped[id].get(selector): of several scores of one metric the last counts.
unfoldable pub observed : Target → String → String → List AnomalyScore → Option ℕ
observed target id selector [] = none
observed target id selector (m ∷ ms) = elim (observed target id selector ms) [
  | some v ↦ some v
  | none ↦ if is_for target id selector m then some m.anomaly else none
]

-- A metric that was not observed exceeds nothing.
unfoldable pub selector_exceeds : CompositeAlertRule → List AnomalyScore → String → String → Bool
selector_exceeds rule metrics id selector = elim (observed rule.target id selector metrics) [
  | none ↦ false
  | some v ↦ ltb rule.threshold v
]

abbrev pub is_empty {ℓ} : {A : Type ℓ} → List A → Bool
is_empty [] = true
is_empty (x ∷ xs) = false

unfoldable pub rule_matches : CompositeAlertRule → List AnomalyScore → String → Bool
rule_matches rule metrics id =
    if is_empty rule.all_of
    then any (selector_exceeds rule metrics id) rule.any_of
    else all (selector_exceeds rule metrics id) rule.all_of

unfoldable pub matched_targets : CompositeAlertRule → List AnomalyScore → List String
matched_targets rule metrics = keep (rule_matches rule metrics) (targets rule.target metrics)

abbrev or_no_counts : Option (Dict ℕ) → Dict ℕ
or_no_counts none = []
or_no_counts (some counts) = counts

unfoldable pub rule_counters : Dict (Dict ℕ) → CompositeAlertRule → Dict ℕ
rule_counters counts rule = or_no_counts (get rule.rule_id counts)

-- The rule's counters after this window: each known or matched target goes up or is reset.
unfoldable pub bump_rule : Dict ℕ → List String → Dict ℕ
bump_rule counters matched =
    tabulate (λ id. if mem id matched then count id counters + 1 else 0)
      (union (keys counters) matched)

pub record Composites : Type 0 where
  pub soft_services : List String
  pub soft_edges : List String
  pub hard_services : List String
  pub hard_edges : List String
  pub code : Option Reason
  pub counts : Dict (Dict ℕ)

abbrev pub no_composites : Dict (Dict ℕ) → Composites
no_composites counts = record {
  soft_services = [];
  soft_edges = [];
  hard_services = [];
  hard_edges = [];
  code = none;
  counts = counts;
}

unfoldable pub trigger : CompositeAlertRule → List String → Composites → Composites
trigger rule triggered c = if is_empty triggered then c else elim rule.resulting_level [
  | hard_level ↦ elim rule.target [
    | same_service ↦ record c {
      hard_services = union triggered c.hard_services;
      code = some composite_hard;
    }
    | same_edge ↦ record c { hard_edges = union triggered c.hard_edges; code = some composite_hard }
  ]
  | soft_level ↦ elim rule.target [
    | same_service ↦ record c {
      soft_services = union triggered c.soft_services;
      code = some composite_soft;
    }
    | same_edge ↦ record c { soft_edges = union triggered c.soft_edges; code = some composite_soft }
  ]
]

unfoldable pub evaluate_rule : List AnomalyScore → CompositeAlertRule → Composites → Composites
evaluate_rule metrics rule c =
    let matched = matched_targets rule metrics in
    let counters = bump_rule (rule_counters c.counts rule) matched in
    let triggered = keep (λ id. leb rule.consecutive_windows (count id counters)) matched in
    trigger rule triggered (record c { counts = put rule.rule_id counters c.counts })

unfoldable pub evaluate_rules :
    List AnomalyScore → List CompositeAlertRule → Composites → Composites
evaluate_rules metrics [] c = c
evaluate_rules metrics (rule ∷ rules) c =
    evaluate_rules metrics rules (evaluate_rule metrics rule c)

unfoldable pub evaluate_composites :
    List CompositeAlertRule → Dict (Dict ℕ) → List AnomalyScore → Composites
evaluate_composites rules counts metrics = evaluate_rules metrics rules (no_composites counts)
