-- ===== src/Live/Samples/Windows.antt =====
-- proberca/live/scheduler.py: one scheduler, polled with two windows ready.
use probe_rca.Prelude.{ℕ, ◌≤◌, ◌≡◌, refl, some, List, [], ◌∷◌, true, length, nat_eq, ok, arith}
use probe_rca.Live.Scheduler.{
  advance_all, Config, Scheduler, LiveWindow, new, eligible_windows, ready_end, first_start,
  catch_up, windows_from, advance, from_run_state,
}
use probe_rca.Live.Scheduler.Windows.{IsRun, HasElapsed, eligible_windows-safe}
use probe_rca.Live.Scheduler.Resume.{eligible_windows-once, from_run_state-advance, committed}

abbrev second : ℕ
second = 1000000000

abbrev config : Config
config = record {
  window_sec = 10;
  collection_delay_ns = 0;
  maximum_catchup_windows = 3;
  fail_on_missed_window = true;
}

abbrev scheduler : Scheduler
scheduler = record {
  config = config;
  window_ns = 10000000000;
  delay_ns = 0;
  next_start_ns = some 20000000000;
  next_sequence = 3;
}

abbrev windows : List LiveWindow
windows =
    record { start_ns = 20000000000; end_ns = 30000000000; sequence = 3 }
    ∷ record { start_ns = 30000000000; end_ns = 40000000000; sequence = 4 }
    ∷ []

scheduler_lem : new config (some 20000000000) 3 ≡ scheduler
unfolding new
scheduler_lem = refl

windows_lem : eligible_windows scheduler 45000000000 ≡ ok windows
unfolding eligible_windows ready_end first_start catch_up windows_from
windows_lem = refl

eligible_windows-safe_example :
    IsRun 10000000000 (first_start scheduler (ready_end scheduler 45000000000)) 3 windows
    × HasElapsed 45000000000 0 windows
    × (length windows ≤ 3)
eligible_windows-safe_example = eligible_windows-safe scheduler 45000000000 windows_lem

eligible_windows-once_example :
    (s' : Scheduler) × (advance_all scheduler windows ≡ ok s')
    × (eligible_windows s' 45000000000 ≡ ok [])
eligible_windows-once_example = eligible_windows-once scheduler 45000000000 windows refl windows_lem

abbrev first_window : LiveWindow
first_window = record { start_ns = 20000000000; end_ns = 30000000000; sequence = 3 }

abbrev advanced : Scheduler
advanced = record scheduler { next_start_ns = some 30000000000; next_sequence = 4 }

advanced_lem : advance (new config (some 20000000000) 3) first_window ≡ ok advanced
unfolding advance new
advanced_lem = refl

from_run_state-advance_example : from_run_state config (committed first_window) ≡ ok advanced
from_run_state-advance_example =
    from_run_state-advance config (some 20000000000) 3 first_window (omega arith) (omega arith)
      advanced_lem
