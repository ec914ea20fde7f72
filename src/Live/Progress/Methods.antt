-- ===== src/Live/Progress/Methods.antt =====
-- proberca/live/progress.py: the methods of StageProgressTracker that record an event.
use probe_rca.Prelude.{
  ℕ, ◌-◌, String, true, false, ◌||◌, not, Option, none, some, List, [], ◌∷◌, ◌==◌, string_eq,
  if◌then◌else◌, err,
}
use probe_rca.Live.Progress.{
  LiveStage, Status, Call, Tracker, Sink, Outcome, Entry, details, is_named, or_else, first_some,
  keeps_mark, fingerprint, append, enter_event, progress_event, retry_event, exit_event,
  timeout_event, error_event, abort_event, attempt_enter, attempt_resource, attempt_classified,
  attempt_commit, transaction_id_required, fingerprints_required, not_bound, already_materialized,
  classification_required, reason_code_required, active, committed, aborted, window_aborted,
}

-- The arguments of `bind_attempt`.
pub record Attempt : Type 0 where
  pub sequence : ℕ
  pub window_start_ns : ℕ
  pub window_end_ns : ℕ
  pub attempt : ℕ
  pub transaction_id : String
  pub working_engine_fingerprint : String
  pub generation_staging_fingerprint : String

module _ (digest : String → String) (sink : Sink) (call : Call) where
  unfoldable pub entered : LiveStage → Entry → Tracker → Tracker
  entered stage a t = record t {
    status = record (t.status) {
      previous_duration = call.now - t.stage_started;
      stage = stage;
      sequence = first_some a.sequence t.status.sequence;
      window_start_ns = first_some a.window_start_ns t.status.window_start_ns;
      window_end_ns = first_some a.window_end_ns t.status.window_end_ns;
      transaction_id = elim a.transaction_id [
        | none ↦ t.status.transaction_id
        | some id ↦ fingerprint digest id
      ];
      working_engine_materialized =
          keeps_mark a.working_engine_fingerprint t.status.working_engine_fingerprint
            t.status.working_engine_materialized;
      working_engine_fingerprint =
          or_else a.working_engine_fingerprint t.status.working_engine_fingerprint;
      generation_staging_materialized =
          keeps_mark a.generation_staging_fingerprint t.status.generation_staging_fingerprint
            t.status.generation_staging_materialized;
      generation_staging_fingerprint =
          or_else a.generation_staging_fingerprint t.status.generation_staging_fingerprint;
      leadership_epoch =
          first_some (fingerprint digest a.leadership_epoch_fingerprint) t.status.leadership_epoch;
      backlog_count = or_else a.backlog_count t.status.backlog_count;
      retry_attempt = or_else (first_some a.attempt a.retry_attempt) t.status.retry_attempt;
    };
    stage_started = call.now;
    last_error = none;
  }

  unfoldable pub enter : LiveStage → Entry → Tracker → Outcome
  enter stage a t =
      append digest sink call (record (details enter_event) { input_count = a.input_count })
        (entered stage a t)

  unfoldable pub bound : Attempt → Status → Status
  bound a s = record s {
    sequence = some a.sequence;
    window_start_ns = some a.window_start_ns;
    window_end_ns = some a.window_end_ns;
    retry_attempt = a.attempt;
    transaction_id = some (digest a.transaction_id);
    working_engine_fingerprint = some a.working_engine_fingerprint;
    generation_staging_fingerprint = some a.generation_staging_fingerprint;
    working_engine_materialized = false;
    generation_staging_materialized = false;
    transaction_state = active;
    classification = none;
    raw_sample_count = none;
    normalized_sample_count = none;
    adapted_record_count = none;
    retry_backoff_sec = none;
    committed_sequence = none;
  }

  unfoldable pub bind_attempt : Attempt → Tracker → Outcome
  bind_attempt a t =
      if a.transaction_id == ""
      then (err transaction_id_required, t)
      else if a.working_engine_fingerprint == "" || a.generation_staging_fingerprint == ""
      then (err fingerprints_required, t)
      else append digest sink call (details attempt_enter) (record t { status = bound a t.status })

  unfoldable pub materialize_working_engine : Tracker → Outcome
  materialize_working_engine t =
      if not (is_named t.status.working_engine_fingerprint)
      then (err not_bound, t)
      else if t.status.working_engine_materialized
      then (err already_materialized, t)
      else append digest sink call
          (record (details attempt_resource) { result_code = some "working_engine_materialized" })
          (record t { status = record (t.status) { working_engine_materialized = true } })

  unfoldable pub materialize_generation_staging : Tracker → Outcome
  materialize_generation_staging t =
      if not (is_named t.status.generation_staging_fingerprint)
      then (err not_bound, t)
      else if t.status.generation_staging_materialized
      then (err already_materialized, t)
      else append digest sink call
          (record (details attempt_resource) {
            result_code = some "generation_staging_materialized";
          })
          (record t { status = record (t.status) { generation_staging_materialized = true } })

  unfoldable pub record_collection_counts :
      (raw_sample_count normalized_sample_count adapted_record_count : ℕ) → Tracker → Outcome
  record_collection_counts raw normalized adapted t =
      append digest sink call
        (record (details progress_event) {
          input_count = some raw;
          output_count = some adapted;
          result_code = some "collection_counts";
        })
        (record t {
          status = record (t.status) {
            raw_sample_count = some raw;
            normalized_sample_count = some normalized;
            adapted_record_count = some adapted;
          };
        })

  unfoldable pub classify_attempt :
      (classification : String) (reason_code : Option String) → Tracker → Outcome
  classify_attempt classification reason t =
      if classification == ""
      then (err classification_required, t)
      else append digest sink call
          (record (details attempt_classified) {
            reason_code = if is_named reason then reason else none;
          })
          (record t { status = record (t.status) { classification = some classification } })

  unfoldable pub commit_attempt : (committed_sequence : ℕ) → Tracker → Outcome
  commit_attempt sequence t = append digest sink call (details attempt_commit) (record t {
    status = record (t.status) {
      transaction_state = committed;
      classification = some "SUCCESS";
      committed_sequence = some sequence;
    };
  })

  unfoldable pub progress :
      (input_count output_count : Option ℕ) (result_code : Option String) → Tracker → Outcome
  progress input output result t =
      append digest sink call
        (record (details progress_event) {
          input_count = input;
          output_count = output;
          result_code = result;
        })
        t

  unfoldable pub exit : (output_count : Option ℕ) (result_code : Option String) → Tracker → Outcome
  exit output result t =
      append digest sink call
        (record (details exit_event) { output_count = output; result_code = result }) t

  unfoldable pub retry :
      (attempt : ℕ) (reason_code : String) (backoff_sec : Option ℕ) → Tracker → Outcome
  retry attempt reason backoff t =
      append digest sink call (record (details retry_event) { reason_code = some reason })
        (record t {
          status = record (t.status) { retry_attempt = attempt; retry_backoff_sec = backoff };
        })

  abbrev with_error : (error_type reason_code : String) → Tracker → Tracker
  with_error kind reason t = record t {
    last_error = some (record { error_type = kind; reason_code = reason });
  }

  unfoldable pub timeout : (reason_code : String) → Tracker → Outcome
  timeout reason t =
      append digest sink call
        (record (details timeout_event) {
          exception_type = some "LiveStageTimeoutError";
          reason_code = some reason;
        })
        (with_error "LiveStageTimeoutError" reason t)

  unfoldable pub record_error : (error_type reason_code : String) → Tracker → Outcome
  record_error kind reason t =
      if reason == ""
      then (err reason_code_required, t)
      else append digest sink call
          (record (details error_event) { exception_type = some kind; reason_code = some reason })
          (with_error kind reason t)

  unfoldable pub abort : (reason_code : String) (classification : Option String) → Tracker → Outcome
  abort reason classification t =
      append digest sink call (record (details abort_event) { reason_code = some reason })
        (record t {
          stage_started = call.now;
          status = record (t.status) {
            stage = window_aborted;
            transaction_state = aborted;
            classification = first_some classification t.status.classification;
          };
        })

-- A call of a method, with its arguments.
pub data Method : Type 0 where
  entering : LiveStage → Entry → Method
  binding : Attempt → Method
  materializing_engine materializing_staging : Method
  counting : (raw normalized adapted : ℕ) → Method
  classifying : (classification : String) (reason_code : Option String) → Method
  committing : (committed_sequence : ℕ) → Method
  progressing : (input_count output_count : Option ℕ) (result_code : Option String) → Method
  exiting : (output_count : Option ℕ) (result_code : Option String) → Method
  retrying : (attempt : ℕ) (reason_code : String) (backoff_sec : Option ℕ) → Method
  timing_out : (reason_code : String) → Method
  failing : (error_type reason_code : String) → Method
  aborting : (reason_code : String) (classification : Option String) → Method

unfoldable pub perform : (String → String) → Sink → Call → Method → Tracker → Outcome
perform digest sink call (entering stage a) = enter digest sink call stage a
perform digest sink call (binding a) = bind_attempt digest sink call a
perform digest sink call materializing_engine = materialize_working_engine digest sink call
perform digest sink call materializing_staging = materialize_generation_staging digest sink call
perform digest sink call (counting raw normalized adapted) =
    record_collection_counts digest sink call raw normalized adapted
perform digest sink call (classifying classification reason) =
    classify_attempt digest sink call classification reason
perform digest sink call (committing sequence) = commit_attempt digest sink call sequence
perform digest sink call (progressing input output result) =
    progress digest sink call input output result
perform digest sink call (exiting output result) = exit digest sink call output result
perform digest sink call (retrying attempt reason backoff) =
    retry digest sink call attempt reason backoff
perform digest sink call (timing_out reason) = timeout digest sink call reason
perform digest sink call (failing kind reason) = record_error digest sink call kind reason
perform digest sink call (aborting reason classification) =
    abort digest sink call reason classification

-- The tracker after calls in turn, whatever they raised.
unfoldable pub perform_all : (String → String) → Sink → List (Call × Method) → Tracker → Tracker
perform_all digest sink [] t = t
perform_all digest sink ((call, m) ∷ ms) t =
    perform_all digest sink ms (perform digest sink call m t).1
