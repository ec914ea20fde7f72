-- ===== src/Live/Scheduler.antt =====
-- proberca/live/scheduler.py: the event-time window cursor.
-- Timestamps are nanoseconds after the epoch. `collection_delay_ns` is the code's
-- `int(collection_delay_sec * 1_000_000_000)`, computed once from a float by the caller.
pub mod Windows
pub mod Resume
use probe_rca.Prelude.{
  ℕ, zero, suc, ◌+◌, ◌-◌, ◌*◌, ◌/◌, Option, none, some, List, [], ◌∷◌, Bool, true, ltb, ◌==◌,
  nat_eq, if◌then◌else◌, Result, ok, err, guard, ◌>>=◌, ◌>>◌,
}

pub data SchedulerError : Type 0 where
  missed_window : ℕ → SchedulerError
  sequence_not_next start_not_next : SchedulerError
  cursor_without_commit commit_without_cursor : SchedulerError

pub record Config : Type 0 where
  pub window_sec : ℕ
  pub collection_delay_ns : ℕ
  pub maximum_catchup_windows : ℕ
  pub fail_on_missed_window : Bool

pub record LiveWindow : Type 0 where
  pub start_ns : ℕ
  pub end_ns : ℕ
  pub sequence : ℕ

pub record Scheduler : Type 0 where
  pub config : Config
  pub window_ns : ℕ
  pub delay_ns : ℕ
  pub next_start_ns : Option ℕ
  pub next_sequence : ℕ

-- __init__
unfoldable pub new : Config → Option ℕ → ℕ → Scheduler
new config next_start_ns next_sequence = record {
  config = config;
  window_ns = config.window_sec * 1000000000;
  delay_ns = config.collection_delay_ns;
  next_start_ns = next_start_ns;
  next_sequence = next_sequence;
}

-- The fields of a run-state record that the scheduler reads.
pub record Cursor : Type 0 where
  pub committed_sequence : ℕ
  pub last_window_end_ns : Option ℕ

unfoldable pub from_run_state : Config → Cursor → Result SchedulerError Scheduler
from_run_state config cursor =
    if cursor.committed_sequence == 0
    then elim cursor.last_window_end_ns [
      | none ↦ ok (new config none (cursor.committed_sequence + 1))
      | some last ↦
          if last == 0
          then ok (new config none (cursor.committed_sequence + 1))
          else err cursor_without_commit
    ]
    else elim cursor.last_window_end_ns [
      | none ↦ err commit_without_cursor
      | some last ↦
          if last == 0
          then err commit_without_cursor
          else ok (new config (some last) (cursor.committed_sequence + 1))
    ]

abbrev pub window_at : (start width sequence i : ℕ) → LiveWindow
window_at start width sequence i = record {
  start_ns = start + i * width;
  end_ns = start + (i + 1) * width;
  sequence = sequence + i;
}

-- tuple(LiveWindow(start + i * w, start + (i + 1) * w, sequence + i) for i in range(count)),
-- from index `i` on, `left` windows.
unfoldable pub windows_from : (start width sequence i left : ℕ) → List LiveWindow
windows_from start width sequence i zero = []
windows_from start width sequence i (suc left) =
    window_at start width sequence i ∷ windows_from start width sequence (i + 1) left

-- The end of the last window whose collection delay has passed. Before the first delay has
-- passed the code's difference is negative and rounds to an end that is not positive: 0 here.
unfoldable pub ready_end : Scheduler → ℕ → ℕ
ready_end s now_ns = ((now_ns - s.delay_ns) / s.window_ns) * s.window_ns

unfoldable pub first_start : Scheduler → ℕ → ℕ
first_start s ready = elim s.next_start_ns [ none ↦ ready - s.window_ns | some start ↦ start ]

-- The windows from `start` to `ready`, or as many as the catch-up policy lets through.
unfoldable pub catch_up : Scheduler → ℕ → ℕ → Result SchedulerError (List LiveWindow)
catch_up s start count =
    if ltb s.config.maximum_catchup_windows count
    then (if s.config.fail_on_missed_window
        then err (missed_window count)
        else ok (windows_from start s.window_ns s.next_sequence 0 s.config.maximum_catchup_windows))
    else ok (windows_from start s.window_ns s.next_sequence 0 count)

unfoldable pub eligible_windows : Scheduler → ℕ → Result SchedulerError (List LiveWindow)
eligible_windows s now_ns =
    let ready = ready_end s now_ns in
    let start = first_start s ready in
    if ready == 0
    then ok []
    else if ltb ready (start + s.window_ns)
    then ok []
    else catch_up s start ((ready - start) / s.window_ns)

abbrev starts_next : Option ℕ → ℕ → Bool
starts_next none start = true
starts_next (some next) start = start == next

-- `commit` is an alias of `advance`.
unfoldable pub advance : Scheduler → LiveWindow → Result SchedulerError Scheduler
advance s window = do
  guard (window.sequence == s.next_sequence) sequence_not_next
  guard (starts_next s.next_start_ns window.start_ns) start_not_next
  ok (record s { next_start_ns = some window.end_ns; next_sequence = s.next_sequence + 1 })

-- The runner's loop: every window that was handed out is advanced over in turn.
unfoldable pub advance_all : Scheduler → List LiveWindow → Result SchedulerError Scheduler
advance_all s [] = ok s
advance_all s (window ∷ rest) = do s' ← advance s window; advance_all s' rest
