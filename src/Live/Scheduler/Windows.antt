-- ===== src/Live/Scheduler/Windows.antt =====
-- proberca/live/scheduler.py: what `eligible_windows` hands out.
use mathlib.Core.Path.{subst₂}
use native.Mathlib.Nat.{div-mul-le_self, mul-le-mul_right, add_assoc}
use probe_rca.Prelude.{
  refl, ℕ, zero, suc, ◌+◌, ◌-◌, ◌*◌, ◌/◌, ◌≤◌, ◌≡◌, List, [], ◌∷◌, All, ltb, length, arith, ok, ◌<◌,
  ◌⊎◌, inl, inr, Bool-cases, ◌==◌, nat_eq,
}
use probe_rca.Live.Scheduler.{
  Scheduler, LiveWindow, windows_from, ready_end, first_start, catch_up, eligible_windows,
}

-- Adjacent windows of one width with consecutive numbers, from `start` and `sequence` on.
abbrev pub IsRun : (width start sequence : ℕ) → List LiveWindow → Type 0
IsRun width start sequence [] = Unit
IsRun width start sequence (x ∷ xs) =
    (x.start_ns ≡ start)
    × (x.end_ns ≡ start + width)
    × (x.sequence ≡ sequence)
    × IsRun width (start + width) (sequence + 1) xs

-- Every window's collection delay has passed.
abbrev pub HasElapsed : (now_ns delay_ns : ℕ) → List LiveWindow → Type 0
HasElapsed now_ns delay_ns ws = All (λ x. x.end_ns + delay_ns ≤ now_ns) ws

step_start : (start i width : ℕ) → start + i * width + width ≡ start + (i + 1) * width
step_start start i width = omega arith

windows_from-IsRun :
    (start width sequence i left : ℕ)
    → IsRun width (start + i * width) (sequence + i) (windows_from start width sequence i left)
unfolding windows_from
windows_from-IsRun start width sequence i zero = tt
windows_from-IsRun start width sequence i (suc left) = (
  omega arith,
  omega arith,
  omega arith,
  rw (step_start start i width, add_assoc sequence i 1)
      (windows_from-IsRun start width sequence (i + 1) left),
)

windows_from-HasElapsed :
    (start width sequence i left now_ns delay_ns : ℕ)
    → start + (i + left) * width + delay_ns ≤ now_ns
    → HasElapsed now_ns delay_ns (windows_from start width sequence i left)
unfolding windows_from
windows_from-HasElapsed start width sequence i zero now_ns delay_ns h = tt
windows_from-HasElapsed start width sequence i (suc left) now_ns delay_ns h = (
  omega arith,
  windows_from-HasElapsed start width sequence (i + 1) left now_ns delay_ns (omega arith),
)

pub length-windows_from :
    (start width sequence i left : ℕ) → length (windows_from start width sequence i left) ≡ left
unfolding windows_from
length-windows_from start width sequence i zero = omega arith
length-windows_from start width sequence i (suc left) =
    omega (arith, length-windows_from start width sequence (i + 1) left)

pub ready_end-le :
    (s : Scheduler) (now_ns : ℕ) → 0 < ready_end s now_ns → ready_end s now_ns + s.delay_ns ≤ now_ns
unfolding ready_end
ready_end-le s now_ns h = omega (arith, div-mul-le_self (now_ns - s.delay_ns) s.window_ns)

windows-IsRun :
    (start width sequence count : ℕ)
    → IsRun width start sequence (windows_from start width sequence 0 count)
windows-IsRun start width sequence count =
    subst₂ (λ a b. IsRun width a b (windows_from start width sequence 0 count)) (omega arith)
      (omega arith) (windows_from-IsRun start width sequence 0 count)

windows-HasElapsed :
    (start width sequence count now_ns delay_ns : ℕ)
    → (count ≡ 0) ⊎ (start + count * width + delay_ns ≤ now_ns)
    → HasElapsed now_ns delay_ns (windows_from start width sequence 0 count)
unfolding windows_from
windows-HasElapsed start width sequence zero now_ns delay_ns h = tt
windows-HasElapsed start width sequence (suc count) now_ns delay_ns h =
    windows_from-HasElapsed start width sequence 0 (suc count) now_ns delay_ns (omega arith)

-- What a successful call hands out is a prefix of the windows that are ready.
pub record IsPrefixOfReady (s : Scheduler) (now_ns : ℕ) (ws : List LiveWindow) (k : ℕ)
    : Type 0 where
  pub windows :
      ws ≡ windows_from (first_start s (ready_end s now_ns)) s.window_ns s.next_sequence 0 k
  pub elapsed :
      (k ≡ 0) ⊎ (first_start s (ready_end s now_ns) + k * s.window_ns + s.delay_ns ≤ now_ns)
  pub within_limit : k ≤ s.config.maximum_catchup_windows

catch_up-eq-ok :
    (s : Scheduler) (start count : ℕ) {ws : List LiveWindow}
    → catch_up s start count ≡ ok ws
    → (k : ℕ) × (ws ≡ windows_from start s.window_ns s.next_sequence 0 k)
      × (k ≤ count)
      × (k ≤ s.config.maximum_catchup_windows)
unfolding catch_up
catch_up-eq-ok s start count e = elim (Bool-cases (ltb s.config.maximum_catchup_windows count)) [
  | inl over ↦ (s.config.maximum_catchup_windows, ground arith, ground arith, ground arith)
  | inr within ↦ (count, ground arith, ground arith, ground arith)
]

none_ready :
    (s : Scheduler) (now_ns : ℕ) {ws : List LiveWindow}
    → ws ≡ []
    → (k : ℕ) × IsPrefixOfReady s now_ns ws k
unfolding windows_from
none_ready s now_ns e = (0, record { windows = e; elapsed = inl refl; within_limit = omega arith })

some_ready :
    (s : Scheduler) (now_ns : ℕ) {ws : List LiveWindow}
    → 0 < ready_end s now_ns
    → first_start s (ready_end s now_ns) + s.window_ns ≤ ready_end s now_ns
    → catch_up s
        (first_start s (ready_end s now_ns))
        ((ready_end s now_ns - first_start s (ready_end s now_ns)) / s.window_ns)
      ≡ ok ws
    → (k : ℕ) × IsPrefixOfReady s now_ns ws k
some_ready s now_ns pos room e =
    let ready = ready_end s now_ns in
    let start = first_start s ready in
    let (k, windows, le, limit) = catch_up-eq-ok s start ((ready - start) / s.window_ns) e in
    let elapsed : start + k * s.window_ns + s.delay_ns ≤ now_ns = omega (
      arith,
      div-mul-le_self (ready - start) s.window_ns,
      mul-le-mul_right s.window_ns le,
      ready_end-le s now_ns pos,
    ) in
    (k, record { windows = windows; elapsed = inr elapsed; within_limit = limit })

pub eligible-eq-ok :
    (s : Scheduler) (now_ns : ℕ) {ws : List LiveWindow}
    → eligible_windows s now_ns ≡ ok ws
    → (k : ℕ) × IsPrefixOfReady s now_ns ws k
unfolding eligible_windows
eligible-eq-ok s now_ns e =
    let ready = ready_end s now_ns in
    let start = first_start s ready in
    elim (Bool-cases (ready == 0)) [
      | inl zero_end ↦ none_ready s now_ns (ground arith)
      | inr later ↦ elim (Bool-cases (ltb ready (start + s.window_ns))) [
        | inl no_room ↦ none_ready s now_ns (ground arith)
        | inr room ↦ some_ready s now_ns (ground arith) (ground arith) (ground arith)
      ]
    ]

-- A successful call hands out adjacent windows of the configured width, numbered from the next
-- sequence on and starting at the cursor, each past its collection delay, and no more of them
-- than the catch-up limit.
pub eligible_windows-safe :
    (s : Scheduler) (now_ns : ℕ) {ws : List LiveWindow}
    → eligible_windows s now_ns ≡ ok ws
    → IsRun s.window_ns (first_start s (ready_end s now_ns)) s.next_sequence ws
      × HasElapsed now_ns s.delay_ns ws
      × (length ws ≤ s.config.maximum_catchup_windows)
eligible_windows-safe s now_ns e =
    let (k, p) = eligible-eq-ok s now_ns e in
    let ready = ready_end s now_ns in
    let start = first_start s ready in
    rw p.windows (
      windows-IsRun start s.window_ns s.next_sequence k,
      windows-HasElapsed start s.window_ns s.next_sequence k now_ns s.delay_ns p.elapsed,
      omega (arith, length-windows_from start s.window_ns s.next_sequence 0 k, p.within_limit),
    )
