-- ===== src/Live/Samples/Watchdogs.antt =====
-- proberca/live/watchdog.py: a watchdog whose backlog is old.
use probe_rca.Prelude.{◌≤◌, ◌≡◌, refl, true, false, none, some, List, [], ◌∷◌, nat_eq}
use probe_rca.Prelude.Keys.{get}
use probe_rca.Live.Watchdog.{
  mark_stalled, is_backlog_fatal, Watchdog, Callbacks, Reading, evaluate, poll, enforce_grace,
  is_stage_stalled, is_progress_stalled, new, stops_lease, raised, returned_false,
}
use probe_rca.Live.Watchdog.Stops.{
  act, Action, commits, polls, enforces, run, count_effects, is_exit, is_dump, is_abort,
  is_lease_first, run_bounded, enforce_raised,
}

abbrev callbacks : Callbacks
callbacks = record {
  stack_dump = some "OSError";
  abort_transaction = none;
  stop_lease_renew = none;
}

abbrev failing : Callbacks
failing = record { stack_dump = none; abort_transaction = none; stop_lease_renew = some "OSError" }

abbrev reading : Reading
reading = record {
  stage = "ENGINE_PROCESS";
  stage_age_sec = 50;
  now = 100;
  leader_active = true;
  backlog_count = 2;
  active_transaction = true;
  working_engine_count = 1;
}

abbrev watchdog : Watchdog
watchdog = record {
  progress_timeout_sec = 60;
  stage_timeouts = ("ENGINE_PROCESS", 30) ∷ [];
  backlog_fatal = some 9;
  last_commit_monotonic = 10;
  last_committed_sequence = 4;
  stalled = false;
  fail_stopped = false;
  progress_stalled = false;
  stage_timed_out = false;
  collection_retrying = false;
  fatal_error = none;
  stall_total = 0;
  stage_timeout_total = 0;
  fail_stop_total = 0;
  progress = none;
  effects = [];
}

found_lem : (poll callbacks 10 reading watchdog).0 ≡ true
unfolding poll evaluate is_progress_stalled is_stage_stalled get
found_lem = refl

abbrev actions : List Action
actions =
    polls callbacks 10 reading
    ∷ enforces callbacks
    ∷ commits 5 120
    ∷ polls callbacks 10 reading
    ∷ enforces failing
    ∷ []

abbrev after : Watchdog
after = run actions (new 60 [] none 0)

run_bounded_example :
    (count_effects is_exit after.effects ≤ 1)
    × (is_lease_first after.effects ≡ true)
    × (count_effects is_dump after.effects ≡ after.stall_total)
    × (count_effects is_abort after.effects ≡ after.stall_total)
run_bounded_example = run_bounded actions 60 [] none 0

abbrev before : List Action
before = polls callbacks 0 reading ∷ []

abbrev stalled_watchdog : Watchdog
stalled_watchdog = run before (new 60 [] none 0)

abbrev stopped_watchdog : Watchdog
stopped_watchdog = (enforce_grace failing stalled_watchdog).1

raised_lem : enforce_grace failing stalled_watchdog ≡ (raised, stopped_watchdog)
unfolding enforce_grace run act poll evaluate mark_stalled is_progress_stalled is_stage_stalled
    is_backlog_fatal new get
raised_lem = refl

enforce_raised_example :
    (stopped_watchdog.effects ≡ stops_lease ∷ stalled_watchdog.effects)
    × (count_effects is_exit (run actions stopped_watchdog).effects ≡ 0)
    × (enforce_grace callbacks (run actions stopped_watchdog)
        ≡ (returned_false, run actions stopped_watchdog))
enforce_raised_example =
    enforce_raised failing callbacks before actions 60 [] none 0 stalled_watchdog stopped_watchdog
      refl raised_lem
