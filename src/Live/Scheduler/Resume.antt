-- ===== src/Live/Scheduler/Resume.antt =====
-- proberca/live/scheduler.py: the cursor over the windows that were handed out, and restarts.
use native.Mathlib.Nat.{lt-div-mul-add, le-div_iff_mul-le}
use probe_rca.Prelude.{
  ℕ, zero, suc, ◌+◌, ◌-◌, ◌*◌, ◌/◌, ◌≤◌, ◌<◌, ◌≡◌, refl, List, [], ◌∷◌, Option, some, ltb, length,
  arith, ok, true, Bool-cases, ◌==◌, nat_eq, inl, inr, ◌∙◌, ap, ◌⊎◌,
}
use probe_rca.Live.Scheduler.{
  Config, Scheduler, LiveWindow, Cursor, new, from_run_state, windows_from, ready_end, first_start,
  catch_up, eligible_windows, advance, advance_all, starts_next, window_at,
}
use probe_rca.Live.Scheduler.Windows.{IsRun, eligible_windows-safe}

-- The cursor behind a window.
abbrev pub past : Scheduler → LiveWindow → Scheduler
past s x = record s { next_start_ns = some x.end_ns; next_sequence = s.next_sequence + 1 }

-- The cursor behind a list of windows.
abbrev pub past_all : Scheduler → List LiveWindow → Scheduler
past_all s [] = s
past_all s (x ∷ xs) = past_all (past s x) xs

sequence-past_all :
    (s : Scheduler) (ws : List LiveWindow)
    → (past_all s ws).next_sequence ≡ s.next_sequence + length ws
sequence-past_all s [] = omega arith
sequence-past_all s (x ∷ xs) = omega (arith, sequence-past_all (past s x) xs)

advance-next :
    (s : Scheduler) (x : LiveWindow)
    → x.sequence ≡ s.next_sequence
    → starts_next s.next_start_ns x.start_ns ≡ true
    → advance s x ≡ ok (past s x)
unfolding advance
advance-next s x number start = ground arith

-- A run that starts where the cursor stands is advanced over without an error.
advance_all-IsRun :
    (s : Scheduler) (start : ℕ) (ws : List LiveWindow)
    → IsRun s.window_ns start s.next_sequence ws
    → starts_next s.next_start_ns start ≡ true
    → advance_all s ws ≡ ok (past_all s ws)
unfolding advance_all
advance_all-IsRun s start [] run next = refl
advance_all-IsRun s start (x ∷ xs) (first, last, number, run) next =
    rw (advance-next s x number (rw first next))
      (advance_all-IsRun (past s x) (start + s.window_ns) xs run (ground arith))

first_start-next :
    (s : Scheduler) (ready : ℕ) → starts_next s.next_start_ns (first_start s ready) ≡ true
unfolding first_start
first_start-next s ready = ground arith

-- The windows of one poll are advanced over in turn without an error, and the cursor then stands
-- behind the last of them.
pub advance_all-eligible :
    (s : Scheduler) (now_ns : ℕ) (ws : List LiveWindow)
    → eligible_windows s now_ns ≡ ok ws
    → (advance_all s ws ≡ ok (past_all s ws))
      × ((past_all s ws).next_sequence ≡ s.next_sequence + length ws)
advance_all-eligible s now_ns ws e =
    let ready = ready_end s now_ns in
    let run = (eligible_windows-safe s now_ns e).0 in
    (
      advance_all-IsRun s (first_start s ready) ws run (first_start-next s ready),
      sequence-past_all s ws,
    )

cursor-eq :
    (s : Scheduler) (a b c d : ℕ)
    → a ≡ b
    → c ≡ d
    → ◌≡◌ {A = Scheduler}
        (record s { next_start_ns = some a; next_sequence = c })
        (record s { next_start_ns = some b; next_sequence = d })
cursor-eq s a b c d p q = cc

past_all-windows_from :
    (s : Scheduler) (start width sequence i left : ℕ)
    → past_all s (windows_from start width sequence i (suc left)) ≡ record s {
      next_start_ns = some (start + (i + suc left) * width);
      next_sequence = s.next_sequence + suc left;
    }
unfolding windows_from
past_all-windows_from s start width sequence i zero = refl
past_all-windows_from s start width sequence i (suc left) =
    past_all-windows_from (past s (window_at start width sequence i)) start width sequence (i + 1)
      left
    ∙ cursor-eq s _ _ _ _ (ap (λ (k : ℕ). start + k * width) (omega arith)) (omega arith)

abbrev behind : Scheduler → (start count : ℕ) → Scheduler
behind s start count = record s {
  next_start_ns = some (start + count * s.window_ns);
  next_sequence = s.next_sequence + count;
}

-- A cursor that no full window separates from the last ready one.
none_left :
    (s : Scheduler) (start count now_ns : ℕ)
    → ready_end s now_ns < start + count * s.window_ns + s.window_ns
    → eligible_windows (behind s start count) now_ns ≡ ok []
unfolding eligible_windows ready_end first_start
none_left s start count now_ns h = ground arith

past_all-behind :
    (s : Scheduler) (start count : ℕ)
    → 0 < count
    → past_all s (windows_from start s.window_ns s.next_sequence 0 count) ≡ behind s start count
past_all-behind s start zero h = absurd (omega arith)
past_all-behind s start (suc left) h =
    past_all-windows_from s start s.window_ns s.next_sequence 0 left
    ∙ cursor-eq s _ _ _ _ (ap (λ (k : ℕ). start + k * s.window_ns) (omega arith)) refl

-- Under the fail policy the windows of a poll are all that were ready.
catch_up-all :
    (s : Scheduler) (start count : ℕ) {ws : List LiveWindow}
    → s.config.fail_on_missed_window ≡ true
    → catch_up s start count ≡ ok ws
    → ws ≡ windows_from start s.window_ns s.next_sequence 0 count
unfolding catch_up
catch_up-all s start count fails e = ground arith

pos_of_mul-pos : (a b : ℕ) → 0 < a * b → 0 < b
pos_of_mul-pos a zero h = absurd (omega arith)
pos_of_mul-pos a (suc b) h = omega arith

ready_end-wide : (s : Scheduler) (now_ns : ℕ) → 0 < ready_end s now_ns → 0 < s.window_ns
unfolding ready_end
ready_end-wide s now_ns h = pos_of_mul-pos ((now_ns - s.delay_ns) / s.window_ns) s.window_ns h

module _ (s : Scheduler) (now_ns : ℕ) {ws : List LiveWindow} where
  poll-past_all :
      s.config.fail_on_missed_window ≡ true
      → eligible_windows s now_ns ≡ ok ws
      → (ws ≡ [])
        ⊎ ((start count : ℕ) × (past_all s ws ≡ behind s start count)
            × (ready_end s now_ns < start + count * s.window_ns + s.window_ns))
  unfolding eligible_windows
  poll-past_all fails e =
      let ready = ready_end s now_ns in
      let start = first_start s ready in
      let count = (ready - start) / s.window_ns in
      elim (Bool-cases (ready == 0)) [
        | inl zero_end ↦ inl (ground arith)
        | inr later ↦ elim (Bool-cases (ltb ready (start + s.window_ns))) [
          | inl no_room ↦ inl (ground arith)
          | inr room ↦
              let wide : 0 < s.window_ns = ready_end-wide s now_ns (ground arith) in
              let all = catch_up-all s start count {ws = ws} fails (ground arith) in
              let fits : start + s.window_ns ≤ ready = ground arith in
              let positive : 0 < count = (le-div_iff_mul-le wide).1 (omega arith) in
              inr (
                start,
                count,
                rw all (past_all-behind s start count positive),
                omega (arith, lt-div-mul-add {a = ready - start} wide),
              )
        ]
      ]

-- Under the fail policy the windows of a poll are advanced over in turn without an error, and the
-- scheduler that this leaves hands out none in the same poll.
pub eligible_windows-once :
    (s : Scheduler) (now_ns : ℕ) (ws : List LiveWindow)
    → s.config.fail_on_missed_window ≡ true
    → eligible_windows s now_ns ≡ ok ws
    → (s' : Scheduler) × (advance_all s ws ≡ ok s') × (eligible_windows s' now_ns ≡ ok [])
eligible_windows-once s now_ns ws fails e = (
  past_all s ws,
  (advance_all-eligible s now_ns ws e).0,
  elim (poll-past_all s now_ns fails e) [
    | inl nothing ↦ rw nothing (rw nothing at e)
    | inr (start, count, cursor, end) ↦ rw cursor (none_left s start count now_ns end)
  ],
)

-- The cursor that the run state records for a window that was committed.
abbrev pub committed : LiveWindow → Cursor
committed x = record { committed_sequence = x.sequence; last_window_end_ns = some x.end_ns }

-- A restart from the run state of a committed window stands where the scheduler that advanced
-- over that window stands.
pub from_run_state-advance :
    (config : Config) (start : Option ℕ) (sequence : ℕ) (x : LiveWindow) {s : Scheduler}
    → 0 < x.sequence
    → x.start_ns < x.end_ns
    → advance (new config start sequence) x ≡ ok s
    → from_run_state config (committed x) ≡ ok s
unfolding from_run_state advance new
from_run_state-advance config start sequence x number wide e = ground arith
