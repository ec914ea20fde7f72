-- ===== src/Live/Samples/Trackers.antt =====
-- proberca/live/progress.py: a tracker with a history of two events, and applications of the theorems.
use probe_rca.Prelude.{
  ◌≡◌, refl, String, none, some, List, [], ◌∷◌, ok, if◌then◌else◌, ◌==◌, nat_eq,
}
use probe_rca.Live.Progress.{Entry, engine_process, Tracker, Call, Sink, new, idle_status}
use probe_rca.Live.Progress.Methods.{
  entering, Attempt, Method, perform_all, bound, binding, materializing_engine, progressing,
  retrying,
}
use probe_rca.Live.Progress.History.{IsTracked, perform_all-IsTracked}

abbrev digest : String → String
digest s = s

-- The sink raises on the third event.
abbrev sink : Sink
sink e = if e.event_index == 3 then some "disk full" else none

abbrev call : Call
call = record { now = 7; wall_timestamp_ns = 70; thread_name = "main"; thread_ident = "1" }

abbrev tracker : Tracker
tracker = record {
  maximum_history = 2;
  events = [];
  status = idle_status;
  stage_started = 7;
  last_progress = 7;
  operation_counter = 0;
  last_error = none;
  thread_name = "main";
  thread_ident_fingerprint = "1";
}

new-tracker : new digest 2 call ≡ ok tracker
unfolding new
new-tracker = refl

abbrev attempt : Attempt
attempt = record {
  sequence = 1;
  window_start_ns = 0;
  window_end_ns = 10;
  attempt = 1;
  transaction_id = "t";
  working_engine_fingerprint = "w";
  generation_staging_fingerprint = "g";
}

abbrev calls : List (Call × Method)
calls =
    (call, binding attempt)
    ∷ (call, materializing_engine)
    ∷ (call, progressing none none none)
    ∷ (call, retrying 2 "lost" none)
    ∷ []

perform_all-IsTracked_example : IsTracked (perform_all digest sink calls tracker)
perform_all-IsTracked_example = perform_all-IsTracked digest sink 2 call tracker calls new-tracker

abbrev bound_tracker : Tracker
bound_tracker = record tracker {
  status = bound digest sink call attempt idle_status;
  operation_counter = 1;
}

-- The attempt's own engine is named again.
abbrev same_engine : Entry
same_engine = record {
  sequence = none;
  window_start_ns = none;
  window_end_ns = none;
  transaction_id = none;
  leadership_epoch_fingerprint = none;
  backlog_count = none;
  retry_attempt = none;
  attempt = none;
  input_count = none;
  working_engine_fingerprint = some (some "w");
  generation_staging_fingerprint = none;
}

abbrev later : List (Call × Method)
later =
    (call, progressing none none none)
    ∷ (call, entering engine_process same_engine)
    ∷ (call, retrying 2 "lost" none)
    ∷ []
