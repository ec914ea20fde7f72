-- ===== src/Live/Progress.antt =====
-- proberca/live/progress.py: StageProgressTracker. A method takes the clocks and the thread that it
-- reads, and returns what it raises or the event, and the tracker after it. The text of an id is its
-- value, SHA-256 of it the parameter `digest`. The event sink is what it raises on an event. The
-- lock, the type checks and the writer of the audit file are left out.
pub mod Methods
pub mod History
pub mod Marks
use probe_rca.Prelude.{
  ℕ, ◌+◌, ◌-◌, String, Bool, true, false, ◌&&◌, ◌||◌, not, Option, none, some, List, [], ◌∷◌, ◌++◌,
  length, leb, ◌==◌, string_eq, if◌then◌else◌, Result, ok, err,
}

pub data LiveStage : Type 0 where
  idle begin_window freeze_revision build_topology collect_call_edges : LiveStage
  collect_node_metrics collect_edge_metrics adapt_records adapt_node_records : LiveStage
  adapt_edge_records build_engine_input engine_process prepare_generation : LiveStage
  commit_run_state project_output retention window_complete window_aborted : LiveStage
  stalled fatal : LiveStage

pub data StageEventType : Type 0 where
  enter_event progress_event retry_event exit_event timeout_event error_event : StageEventType
  abort_event attempt_enter attempt_resource attempt_classified attempt_commit : StageEventType

pub data ProgressError : Type 0 where
  transaction_id_required fingerprints_required not_bound already_materialized : ProgressError
  classification_required reason_code_required invalid_history : ProgressError
  sink_raised : String → ProgressError

pub data TransactionState : Type 0 where
  idle_state active committed aborted : TransactionState

-- What the tracker holds and each event repeats.
pub record Status : Type 0 where
  pub sequence : Option ℕ
  pub window_start_ns : Option ℕ
  pub window_end_ns : Option ℕ
  pub transaction_id : Option String
  pub leadership_epoch : Option String
  pub stage : LiveStage
  pub previous_duration : ℕ
  pub retry_attempt : ℕ
  pub backlog_count : ℕ
  pub working_engine_fingerprint : Option String
  pub generation_staging_fingerprint : Option String
  pub working_engine_materialized : Bool
  pub generation_staging_materialized : Bool
  pub transaction_state : TransactionState
  pub classification : Option String
  pub raw_sample_count : Option ℕ
  pub normalized_sample_count : Option ℕ
  pub adapted_record_count : Option ℕ
  pub retry_backoff_sec : Option ℕ
  pub committed_sequence : Option ℕ

-- What only an event has: the arguments of `_append`.
pub record Details : Type 0 where
  pub event_type : StageEventType
  pub input_count : Option ℕ
  pub output_count : Option ℕ
  pub result_code : Option String
  pub exception_type : Option String
  pub reason_code : Option String

-- The clocks and the thread, as a call finds them.
pub record Call : Type 0 where
  pub now : ℕ
  pub wall_timestamp_ns : ℕ
  pub thread_name : String
  pub thread_ident : String

pub record StageEvent : Type 0 where
  pub event_index : ℕ
  pub status : Status
  pub details : Details
  pub monotonic : ℕ
  pub wall_timestamp_ns : ℕ
  pub stage_age : ℕ
  pub thread_name : String
  pub thread_ident_fingerprint : String

pub record StructuredError : Type 0 where
  pub error_type : String
  pub reason_code : String

pub record Tracker : Type 0 where
  pub maximum_history : ℕ
  pub events : List StageEvent
  pub status : Status
  pub stage_started : ℕ
  pub last_progress : ℕ
  pub operation_counter : ℕ
  pub last_error : Option StructuredError
  pub thread_name : String
  pub thread_ident_fingerprint : String

-- The text of the exception that the sink raises.
abbrev pub Sink : Type 0
Sink = StageEvent → Option String

abbrev pub Outcome : Type 0
Outcome = Result ProgressError StageEvent × Tracker

abbrev pub details : StageEventType → Details
details kind = record {
  event_type = kind;
  input_count = none;
  output_count = none;
  result_code = none;
  exception_type = none;
  reason_code = none;
}

-- deque(maxlen=…).append
abbrev pub drop_first : List StageEvent → List StageEvent
drop_first [] = []
drop_first (e ∷ es) = es

unfoldable pub push : (maximum : ℕ) → StageEvent → List StageEvent → List StageEvent
push maximum e es =
    if leb (length (es ++ e ∷ [])) maximum then es ++ e ∷ [] else drop_first (es ++ e ∷ [])

abbrev pub is_named : Option String → Bool
is_named none = false
is_named (some s) = not (s == "")

abbrev pub same_text : Option String → Option String → Bool
same_text none none = true
same_text (some a) (some b) = a == b
same_text none (some b) = false
same_text (some a) none = false

abbrev pub or_else {ℓ} : {A : Type ℓ} → Option A → A → A
or_else none d = d
or_else (some a) d = a

abbrev pub first_some {ℓ} : {A : Type ℓ} → Option A → Option A → Option A
first_some none b = b
first_some (some a) b = some a

abbrev pub idle_status : Status
idle_status = record {
  sequence = none;
  window_start_ns = none;
  window_end_ns = none;
  transaction_id = none;
  leadership_epoch = none;
  stage = idle;
  previous_duration = 0;
  retry_attempt = 0;
  backlog_count = 0;
  working_engine_fingerprint = none;
  generation_staging_fingerprint = none;
  working_engine_materialized = false;
  generation_staging_materialized = false;
  transaction_state = idle_state;
  classification = none;
  raw_sample_count = none;
  normalized_sample_count = none;
  adapted_record_count = none;
  retry_backoff_sec = none;
  committed_sequence = none;
}

-- The arguments of `enter` after the stage; an `Option` twice is an argument that may be unset.
pub record Entry : Type 0 where
  pub sequence : Option ℕ
  pub window_start_ns : Option ℕ
  pub window_end_ns : Option ℕ
  pub transaction_id : Option (Option String)
  pub leadership_epoch_fingerprint : Option String
  pub backlog_count : Option ℕ
  pub retry_attempt : Option ℕ
  pub attempt : Option ℕ
  pub input_count : Option ℕ
  pub working_engine_fingerprint : Option (Option String)
  pub generation_staging_fingerprint : Option (Option String)

-- A fingerprint that is set anew unmarks its resource, unless it is the same.
abbrev pub keeps_mark : Option (Option String) → (own : Option String) → Bool → Bool
keeps_mark none own mark = mark
keeps_mark (some fingerprint) own mark = mark && same_text fingerprint own

module _ (digest : String → String) where
  abbrev pub fingerprint : Option String → Option String
  fingerprint none = none
  fingerprint (some s) = some (digest s)

  unfoldable pub new : (maximum_history : ℕ) → Call → Result ProgressError Tracker
  new maximum call =
      if leb maximum 0
      then err invalid_history
      else ok (record {
        maximum_history = maximum;
        events = [];
        status = idle_status;
        stage_started = call.now;
        last_progress = call.now;
        operation_counter = 0;
        last_error = none;
        thread_name = call.thread_name;
        thread_ident_fingerprint = digest call.thread_ident;
      })

  unfoldable pub event_of : Call → Details → Tracker → StageEvent
  event_of call d t = record {
    event_index = t.operation_counter + 1;
    status = t.status;
    details = d;
    monotonic = call.now;
    wall_timestamp_ns = call.wall_timestamp_ns;
    stage_age = call.now - t.stage_started;
    thread_name = call.thread_name;
    thread_ident_fingerprint = digest call.thread_ident;
  }

  unfoldable pub recorded : Call → Details → Tracker → Tracker
  recorded call d t = record t {
    events = push t.maximum_history (event_of call d t) t.events;
    operation_counter = t.operation_counter + 1;
    last_progress = call.now;
    thread_name = call.thread_name;
    thread_ident_fingerprint = digest call.thread_ident;
  }

  abbrev streamed : Option String → StageEvent → Result ProgressError StageEvent
  streamed none e = ok e
  streamed (some text) e = err (sink_raised text)

  -- _append: the sink is called after the event is on record.
  unfoldable pub append : Sink → Call → Details → Tracker → Outcome
  append sink call d t =
      (streamed (sink (event_of call d t)) (event_of call d t), recorded call d t)
