-- ===== src/Alerting/Types.antt =====
-- proberca/alerting/state_machine.py, with the records of proberca/baseline and proberca/config that
-- it reads. A score or threshold is a non-negative float, read in one fixed unit: the machine only
-- compares them. The duration that the cooldown is computed from is in seconds.
use probe_rca.Prelude.{ℕ, String, Bool, true, false, Option, List}
use probe_rca.Prelude.Keys.{Dict}

pub data AlertState : Type 0 where
  healthy soft hard recovery : AlertState

pub record AlertStateConfig : Type 0 where
  pub healthy_threshold : ℕ
  pub soft_threshold : ℕ
  pub soft_consecutive_windows : ℕ
  pub hard_threshold : ℕ
  pub hard_consecutive_windows : ℕ
  pub recovery_threshold : ℕ
  pub recovery_windows : ℕ
  pub recovery_cooldown_sec : ℕ
  pub edge_business_impact_threshold : ℕ

pub data Target : Type 0 where
  same_service same_edge : Target

pub data Level : Type 0 where
  soft_level hard_level : Level

pub record CompositeAlertRule : Type 0 where
  pub rule_id : String
  pub target : Target
  pub all_of : List String
  pub any_of : List String
  pub threshold : ℕ
  pub consecutive_windows : ℕ
  pub resulting_level : Level

-- The fields of an `AnomalyScore` that the machine reads.
pub record AnomalyScore : Type 0 where
  pub stable_id : String
  pub service_id : Option String
  pub edge_id : Option String
  pub anomaly : ℕ
  pub direct_hard : Bool

pub record ServiceState : Type 0 where
  pub score : Option ℕ
  pub family_scores : Dict ℕ

pub record StateScores : Type 0 where
  pub services : Dict ServiceState
  pub edges : Dict ℕ
  pub global_anomaly : ℕ

pub data Reason : Type 0 where
  direct_hard composite_hard composite_soft hard_threshold soft_threshold : Reason
  recovery_threshold recovery_realert_soft cooldown_complete soft_cleared : Reason
  trigger_changed : AlertState → Reason
  isolated_edge_anomaly : Reason

-- `state` of an event: the machine's, or that of an isolated edge.
pub data EventState : Type 0 where
  machine : AlertState → EventState
  edge_anomaly : EventState

pub record AlertEvent : Type 0 where
  pub alert_id : String
  pub timestamp_ns : ℕ
  pub state : EventState
  pub trigger_services : List String
  pub trigger_edges : List String
  pub service_scores : Dict ℕ
  pub edge_scores : Dict ℕ
  pub code : Reason
  pub frozen_baseline : Bool
  pub frozen_service_model : Bool
  pub frozen_metric_model : Bool

pub record UpdateGate : Type 0 where
  pub update_node_baselines : Bool
  pub update_edge_baselines : Bool
  pub frozen_node_ids : List String
  pub frozen_edge_ids : List String
  pub update_service_model : Bool
  pub prepare_metric_model : Bool
  pub freeze_metric_model : Bool
  pub request_burst : Bool
  pub request_rca : Bool
  pub baseline_ready : Bool

-- A composite rule's counters are kept under its id: the source joins the id and the target to one
-- key by `::`, which no rule id contains.
pub record AlertStateMachine : Type 0 where
  pub config : AlertStateConfig
  pub window_sec : ℕ
  pub rules : List CompositeAlertRule
  pub state : AlertState
  pub service_soft : Dict ℕ
  pub service_hard : Dict ℕ
  pub edge_soft : Dict ℕ
  pub edge_hard : Dict ℕ
  pub rule_counts : Dict (Dict ℕ)
  pub recovery_count : ℕ
  pub cooldown_remaining : ℕ
  pub trigger_services : List String
  pub trigger_edges : List String
  pub isolated_edges : List String

pub data AlertError : Type 0 where
  invalid_edge_id : String → AlertError

pub record StateMachineResult : Type 0 where
  pub state : AlertState
  pub events : List AlertEvent
  pub gate : UpdateGate
  pub scores : StateScores

abbrev pub is_hard : AlertState → Bool
is_hard hard = true
is_hard _ = false

abbrev pub is_soft : AlertState → Bool
is_soft soft = true
is_soft _ = false

abbrev pub is_recovery : AlertState → Bool
is_recovery recovery = true
is_recovery _ = false

abbrev pub is_healthy : AlertState → Bool
is_healthy healthy = true
is_healthy _ = false

abbrev pub state_beq : AlertState → AlertState → Bool
state_beq healthy s = is_healthy s
state_beq soft s = is_soft s
state_beq hard s = is_hard s
state_beq recovery s = is_recovery s
