-- ===== src/Live/Watchdog.antt =====
-- proberca/live/watchdog.py: the stall detector and its fail-stop.
-- Times are numbers in one unit of the monotonic clock. A stage is its text. The callbacks are
-- parameters: what the code sees of one is whether it raises. Of the health state the fields that
-- the watchdog writes are kept. The thread, its waits and the grace periods are left out: a pass of
-- the loop is `poll` or `provider_failed`, and `enforce_grace` when a stall outlasts the grace.
pub mod Verdict
pub mod Stops
use probe_rca.Prelude.{
  ℕ, ◌+◌, ◌-◌, String, Bool, true, false, ◌&&◌, ◌||◌, not, Option, none, some, List, [], ◌∷◌, ltb,
  leb, ◌==◌, nat_eq, if◌then◌else◌,
}
use probe_rca.Prelude.Keys.{Dict, get}

pub data Decision : Type 0 where
  is_healthy is_stalled is_inactive : Decision

pub data StallReason : Type 0 where
  backlog_fatal_threshold stage_deadline_exceeded commit_progress_timeout : StallReason
  watchdog_state_error : StallReason

pub data StructuredError : Type 0 where
  stack_dump_failed abort_failed state_error : (error_type : String) → StructuredError

-- The progress snapshot that is published.
pub record Progress : Type 0 where
  pub stage : String
  pub stage_age_sec : ℕ
  pub backlog_count : ℕ
  pub last_committed_sequence : ℕ
  pub last_commit_age_sec : ℕ
  pub active_transaction : Bool
  pub working_engine_count : ℕ
  pub stalled_reason : Option StallReason
  pub last_structured_error : Option StructuredError

-- A callback that ran.
pub data Effect : Type 0 where
  dumps_stack aborts_transaction stops_lease exits : Effect

-- What each callback raises, if it does.
pub record Callbacks : Type 0 where
  pub stack_dump : Option String
  pub abort_transaction : Option String
  pub stop_lease_renew : Option String

-- `effects` has the latest first.
pub record Watchdog : Type 0 where
  pub progress_timeout_sec : ℕ
  pub stage_timeouts : Dict ℕ
  pub backlog_fatal : Option ℕ
  pub last_commit_monotonic : ℕ
  pub last_committed_sequence : ℕ
  pub stalled : Bool
  pub fail_stopped : Bool
  pub progress_stalled : Bool
  pub stage_timed_out : Bool
  pub collection_retrying : Bool
  pub fatal_error : Option String
  pub stall_total : ℕ
  pub stage_timeout_total : ℕ
  pub fail_stop_total : ℕ
  pub progress : Option Progress
  pub effects : List Effect

-- __init__
unfoldable pub new : (timeout : ℕ) → Dict ℕ → Option ℕ → (now : ℕ) → Watchdog
new timeout stages fatal now = record {
  progress_timeout_sec = timeout;
  stage_timeouts = stages;
  backlog_fatal = fatal;
  last_commit_monotonic = now;
  last_committed_sequence = 0;
  stalled = false;
  fail_stopped = false;
  progress_stalled = false;
  stage_timed_out = false;
  collection_retrying = false;
  fatal_error = none;
  stall_total = 0;
  stage_timeout_total = 0;
  fail_stop_total = 0;
  progress = none;
  effects = [];
}

unfoldable pub note_commit : (sequence now : ℕ) → Watchdog → Watchdog
note_commit sequence now w = record w {
  last_committed_sequence = sequence;
  last_commit_monotonic = now;
  stalled = false;
  progress_stalled = false;
  stage_timed_out = false;
  collection_retrying = false;
}

-- A callback that ran, with the snapshot that is published if it raised.
abbrev called : Effect → Option Progress → Watchdog → Watchdog
called effect none w = record w { effects = effect ∷ w.effects }
called effect (some failed) w = record w { effects = effect ∷ w.effects; progress = some failed }

abbrev dump_failure : Callbacks → Progress → Option Progress
dump_failure callbacks snapshot = elim callbacks.stack_dump [
  | none ↦ none
  | some error ↦ some (record snapshot { last_structured_error = some (stack_dump_failed error) })
]

-- The code writes the error into the snapshot itself, which the second callback then meets.
abbrev abort_failure : Callbacks → Progress → Option Progress
abort_failure callbacks snapshot = elim callbacks.abort_transaction [
  | none ↦ none
  | some error ↦ some (record snapshot { last_structured_error = some (abort_failed error) })
]

unfoldable pub mark_stalled : Callbacks → StallReason → Progress → Watchdog → Watchdog
mark_stalled callbacks reason snapshot w =
    if w.stalled
    then w
    else (let marked : Watchdog = record w {
      stalled = true;
      progress_stalled = true;
      progress = some (record snapshot { stalled_reason = some reason });
      stall_total = w.stall_total + 1;
    } in
        called aborts_transaction (abort_failure callbacks snapshot)
          (called dumps_stack (dump_failure callbacks snapshot) marked))

-- The arguments of `evaluate`, with the tracker's snapshot and the clock.
pub record Reading : Type 0 where
  pub stage : String
  pub stage_age_sec : ℕ
  pub now : ℕ
  pub leader_active : Bool
  pub backlog_count : ℕ
  pub active_transaction : Bool
  pub working_engine_count : ℕ

unfoldable pub snapshot_of : Reading → Watchdog → Progress
snapshot_of r w = record {
  stage = r.stage;
  stage_age_sec = r.stage_age_sec;
  backlog_count = r.backlog_count;
  last_committed_sequence = w.last_committed_sequence;
  last_commit_age_sec = r.now - w.last_commit_monotonic;
  active_transaction = r.active_transaction;
  working_engine_count = r.working_engine_count;
  stalled_reason = none;
  last_structured_error = none;
}

unfoldable pub is_stage_stalled : Reading → Watchdog → Bool
is_stage_stalled r w = elim (get r.stage w.stage_timeouts) [
  | none ↦ false
  | some timeout ↦ r.active_transaction && ltb timeout r.stage_age_sec
]

unfoldable pub is_progress_stalled : Reading → Watchdog → Bool
is_progress_stalled r w = ltb w.progress_timeout_sec (r.now - w.last_commit_monotonic)

unfoldable pub is_backlog_fatal : Reading → Watchdog → Bool
is_backlog_fatal r w = elim w.backlog_fatal [
  | none ↦ false
  | some threshold ↦ leb threshold r.backlog_count
]

abbrev pub reason_of : (backlog stage : Bool) → StallReason
reason_of backlog stage =
    if backlog
    then backlog_fatal_threshold
    else if stage
    then stage_deadline_exceeded
    else commit_progress_timeout

abbrev pub count_timeout : Bool → Watchdog → Watchdog
count_timeout true w = record w { stage_timeout_total = w.stage_timeout_total + 1 }
count_timeout false w = w

unfoldable pub evaluate : Callbacks → Reading → Watchdog → Decision × Watchdog
evaluate callbacks r w =
    let snapshot = snapshot_of r w in
    let published : Watchdog = record w { progress = some snapshot } in
    let cleared : Watchdog = record published {
      progress_stalled = false;
      stage_timed_out = false;
    } in
    let stage = is_stage_stalled r w in
    let backlog = is_backlog_fatal r w in
    if w.stalled
    then (is_stalled, w)
    else if not r.leader_active || r.backlog_count == 0
    then (is_inactive, cleared)
    else if stage || is_progress_stalled r w || backlog
    then (
      is_stalled,
      mark_stalled callbacks (reason_of backlog stage) snapshot (count_timeout stage published),
    )
    else (is_healthy, cleared)

abbrev pub is_stall : Decision → Bool
is_stall is_stalled = true
is_stall _ = false

unfoldable pub poll : Callbacks → (last_commit_monotonic : ℕ) → Reading → Watchdog → Bool × Watchdog
poll callbacks last_commit r w =
    let (decision, w') = evaluate callbacks r (record w { last_commit_monotonic = last_commit }) in
    if w.stalled then (true, w) else (is_stall decision, w')

-- The pass of the loop whose state provider, or whose poll, raises.
unfoldable pub provider_failed : Callbacks → (error_type : String) → Progress → Watchdog → Watchdog
provider_failed callbacks error snapshot w =
    mark_stalled callbacks watchdog_state_error
      (record snapshot { last_structured_error = some (state_error error) }) w

-- Whether it raised or what it returns, and the watchdog; `exit_process` is the last effect.
pub data Enforced : Type 0 where
  raised returned_true returned_false : Enforced

unfoldable pub enforce_grace : Callbacks → Watchdog → Enforced × Watchdog
enforce_grace callbacks w =
    let stopped : Watchdog = record w { fail_stopped = true; effects = stops_lease ∷ w.effects } in
    if not w.stalled || w.fail_stopped
    then (returned_false, w)
    else elim callbacks.stop_lease_renew [
      | some error ↦ (raised, stopped)
      | none ↦ (
        returned_true,
        record stopped {
          fail_stop_total = w.fail_stop_total + 1;
          fatal_error = some "live_stage_stalled";
          effects = exits ∷ stopped.effects;
        },
      )
    ]
