-- ===== src/Live/Watchdog/Stops.antt =====
-- proberca/live/watchdog.py: runs of the watchdog and its callbacks.
use mathlib.Core.Path.{subst}
use probe_rca.Prelude.{
  ap, ℕ, ◌+◌, ◌≤◌, ◌≡◌, refl, String, Bool, true, false, Option, some, List, [], ◌∷◌, if◌then◌else◌,
  arith, if-keeps, not, ◌||◌, ◌==◌, nat_eq,
}
use probe_rca.Prelude.Keys.{Dict}
use probe_rca.Live.Watchdog.{
  Watchdog, Callbacks, Reading, Progress, Effect, dumps_stack, aborts_transaction, stops_lease,
  exits, new, evaluate, mark_stalled, note_commit, poll, provider_failed, enforce_grace,
  StallReason, raised, watchdog_state_error, state_error, snapshot_of, is_stage_stalled,
  is_backlog_fatal, is_progress_stalled, reason_of, count_timeout, returned_false,
}

-- A call of the runner or of the watchdog's thread.
pub data Action : Type 0 where
  commits : (sequence now : ℕ) → Action
  polls : Callbacks → (last_commit : ℕ) → Reading → Action
  provider_fails : Callbacks → String → Progress → Action
  enforces : Callbacks → Action

unfoldable pub act : Action → Watchdog → Watchdog
act (commits sequence now) w = note_commit sequence now w
act (polls callbacks last r) w = (poll callbacks last r w).1
act (provider_fails callbacks error snapshot) w = provider_failed callbacks error snapshot w
act (enforces callbacks) w = (enforce_grace callbacks w).1

unfoldable pub run : List Action → Watchdog → Watchdog
run [] w = w
run (a ∷ rest) w = run rest (act a w)

abbrev pub is_exit : Effect → Bool
is_exit exits = true
is_exit _ = false

abbrev pub is_dump : Effect → Bool
is_dump dumps_stack = true
is_dump _ = false

abbrev pub is_abort : Effect → Bool
is_abort aborts_transaction = true
is_abort _ = false

abbrev pub count_effects : (Effect → Bool) → List Effect → ℕ
count_effects p [] = 0
count_effects p (e ∷ es) = if p e then count_effects p es + 1 else count_effects p es

-- The process exits only right after the lease renewal was stopped.
abbrev pub is_lease_first : List Effect → Bool
is_lease_first [] = true
is_lease_first (exits ∷ stops_lease ∷ es) = is_lease_first es
is_lease_first (exits ∷ es) = false
is_lease_first (e ∷ es) = is_lease_first es

pub record IsBounded (w : Watchdog) : Type 0 where
  pub exits_once : count_effects is_exit w.effects ≤ (if w.fail_stopped then 1 else 0)
  pub exits_counted : w.fail_stop_total ≡ count_effects is_exit w.effects
  pub dumps_counted : count_effects is_dump w.effects ≡ w.stall_total
  pub aborts_counted : count_effects is_abort w.effects ≡ w.stall_total
  pub lease_first : is_lease_first w.effects ≡ true

abbrev LeavesBounded : {A : Type 0} → A × Watchdog → Type 0
LeavesBounded o = IsBounded o.1

mark_stalled-IsBounded :
    (callbacks : Callbacks) (reason : StallReason) (snapshot : Progress) (w : Watchdog)
    → IsBounded w
    → IsBounded (mark_stalled callbacks reason snapshot w)
unfolding mark_stalled
mark_stalled-IsBounded callbacks reason snapshot w h = ground arith

-- Only the callbacks and their counters matter.
abbrev touched :
    Watchdog → (last timeouts : ℕ) → (stalled timed_out : Bool) → Option Progress → Watchdog
touched w last timeouts stalled timed_out progress = record w {
  last_commit_monotonic = last;
  stage_timeout_total = timeouts;
  progress_stalled = stalled;
  stage_timed_out = timed_out;
  progress = progress;
}

touched-IsBounded :
    (w : Watchdog) (last timeouts : ℕ) (stalled timed_out : Bool) (progress : Option Progress)
    → IsBounded w
    → IsBounded (touched w last timeouts stalled timed_out progress)
touched-IsBounded w last timeouts stalled timed_out progress h = record {
  exits_once = h.exits_once;
  exits_counted = h.exits_counted;
  dumps_counted = h.dumps_counted;
  aborts_counted = h.aborts_counted;
  lease_first = h.lease_first;
}

count_timeout-IsBounded : (b : Bool) (w : Watchdog) → IsBounded w → IsBounded (count_timeout b w)
count_timeout-IsBounded true w h =
    touched-IsBounded w w.last_commit_monotonic (w.stage_timeout_total + 1) w.progress_stalled
      w.stage_timed_out w.progress h
count_timeout-IsBounded false w h = h

evaluate-IsBounded :
    (callbacks : Callbacks) (r : Reading) (w : Watchdog)
    → IsBounded w
    → IsBounded (evaluate callbacks r w).1
unfolding evaluate
evaluate-IsBounded callbacks r w h =
    let snapshot = snapshot_of r w in
    let stage = is_stage_stalled r w in
    let backlog = is_backlog_fatal r w in
    let published =
      touched-IsBounded w w.last_commit_monotonic w.stage_timeout_total w.progress_stalled
        w.stage_timed_out (some snapshot) h in
    let cleared =
      touched-IsBounded w w.last_commit_monotonic w.stage_timeout_total false false (some snapshot)
        h in
    let marked =
      mark_stalled-IsBounded callbacks (reason_of backlog stage) snapshot
        (count_timeout stage (record w { progress = some snapshot }))
        (count_timeout-IsBounded stage (record w { progress = some snapshot }) published) in
    if-keeps LeavesBounded w.stalled h (
      if-keeps LeavesBounded (not r.leader_active || r.backlog_count == 0) cleared
        (if-keeps LeavesBounded (stage || is_progress_stalled r w || backlog) marked cleared))

act-IsBounded : (a : Action) (w : Watchdog) → IsBounded w → IsBounded (act a w)
unfolding act
act-IsBounded (commits sequence now) w h = unfold note_commit in ground arith
act-IsBounded (polls callbacks last r) w h =
    let polled =
      evaluate-IsBounded callbacks r (record w { last_commit_monotonic = last })
        (touched-IsBounded w last w.stage_timeout_total w.progress_stalled w.stage_timed_out
          w.progress h) in
    unfold poll in if-keeps LeavesBounded w.stalled h polled
act-IsBounded (provider_fails callbacks error snapshot) w h =
    unfold provider_failed in
    mark_stalled-IsBounded callbacks watchdog_state_error
      (record snapshot { last_structured_error = some (state_error error) }) w h
act-IsBounded (enforces callbacks) w h = unfold enforce_grace in ground arith

run-IsBounded : (actions : List Action) (w : Watchdog) → IsBounded w → IsBounded (run actions w)
unfolding run
run-IsBounded [] w h = h
run-IsBounded (a ∷ rest) w h = run-IsBounded rest (act a w) (act-IsBounded a w h)

new-IsBounded :
    (timeout : ℕ) (stages : Dict ℕ) (fatal : Option ℕ) (now : ℕ)
    → IsBounded (new timeout stages fatal now)
unfolding new
new-IsBounded timeout stages fatal now = record {
  exits_once = omega arith;
  exits_counted = refl;
  dumps_counted = refl;
  aborts_counted = refl;
  lease_first = refl;
}

at_most : (b : Bool) (n : ℕ) → n ≤ (if b then 1 else 0) → n ≤ 1
at_most true n h = h
at_most false n h = omega arith

-- Whatever calls a new watchdog gets, with commits and failing callbacks among them: it exits at
-- most once, right after it stopped the lease renewal, and it has dumped the stack and aborted the
-- transaction once for each stall that it counted.
pub run_bounded :
    (actions : List Action) (timeout : ℕ) (stages : Dict ℕ) (fatal : Option ℕ) (now : ℕ)
    → (count_effects is_exit (run actions (new timeout stages fatal now)).effects ≤ 1)
      × (is_lease_first (run actions (new timeout stages fatal now)).effects ≡ true)
      × (count_effects is_dump (run actions (new timeout stages fatal now)).effects
          ≡ (run actions (new timeout stages fatal now)).stall_total)
      × (count_effects is_abort (run actions (new timeout stages fatal now)).effects
          ≡ (run actions (new timeout stages fatal now)).stall_total)
run_bounded actions timeout stages fatal now =
    let w = run actions (new timeout stages fatal now) in
    let h =
      run-IsBounded actions (new timeout stages fatal now)
        (new-IsBounded timeout stages fatal now) in
    (
      at_most w.fail_stopped (count_effects is_exit w.effects) h.exits_once,
      h.lease_first,
      h.dumps_counted,
      h.aborts_counted,
    )

-- The mark of a watchdog that was stopped, with the exits counted by then.
pub record IsStopped (n : ℕ) (w : Watchdog) : Type 0 where
  pub marked : w.fail_stopped ≡ true
  pub exits_stay : count_effects is_exit w.effects ≡ n

abbrev LeavesStopped : ℕ → {A : Type 0} → A × Watchdog → Type 0
LeavesStopped n o = IsStopped n o.1

mark_stalled-IsStopped :
    (n : ℕ) (callbacks : Callbacks) (reason : StallReason) (snapshot : Progress) (w : Watchdog)
    → IsStopped n w
    → IsStopped n (mark_stalled callbacks reason snapshot w)
unfolding mark_stalled
mark_stalled-IsStopped n callbacks reason snapshot w h = ground arith

evaluate-IsStopped :
    (n : ℕ) (callbacks : Callbacks) (r : Reading) (w : Watchdog)
    → IsStopped n w
    → IsStopped n (evaluate callbacks r w).1
unfolding evaluate
evaluate-IsStopped n callbacks r w h =
    let snapshot = snapshot_of r w in
    let stage = is_stage_stalled r w in
    let backlog = is_backlog_fatal r w in
    let counted : IsStopped n (count_timeout stage (record w { progress = some snapshot })) =
      ground arith in
    let cleared : IsStopped n
        (record w { progress = some snapshot; progress_stalled = false; stage_timed_out = false }) =
      record { marked = h.marked; exits_stay = h.exits_stay } in
    let marked =
      mark_stalled-IsStopped n callbacks (reason_of backlog stage) snapshot
        (count_timeout stage (record w { progress = some snapshot })) counted in
    if-keeps (LeavesStopped n) w.stalled h (
      if-keeps (LeavesStopped n) (not r.leader_active || r.backlog_count == 0) cleared
        (if-keeps (LeavesStopped n) (stage || is_progress_stalled r w || backlog) marked cleared))

act-IsStopped : (n : ℕ) (a : Action) (w : Watchdog) → IsStopped n w → IsStopped n (act a w)
unfolding act
act-IsStopped n (commits sequence now) w h = unfold note_commit in ground arith
act-IsStopped n (polls callbacks last r) w h =
    let polled =
      evaluate-IsStopped n callbacks r (record w { last_commit_monotonic = last })
        (record { marked = h.marked; exits_stay = h.exits_stay }) in
    unfold poll in if-keeps (LeavesStopped n) w.stalled h polled
act-IsStopped n (provider_fails callbacks error snapshot) w h =
    unfold provider_failed in
    mark_stalled-IsStopped n callbacks watchdog_state_error
      (record snapshot { last_structured_error = some (state_error error) }) w h
act-IsStopped n (enforces callbacks) w h = unfold enforce_grace in ground arith

run-IsStopped :
    (n : ℕ) (actions : List Action) (w : Watchdog) → IsStopped n w → IsStopped n (run actions w)
unfolding run
run-IsStopped n [] w h = h
run-IsStopped n (a ∷ rest) w h = run-IsStopped n rest (act a w) (act-IsStopped n a w h)

raised-IsStopped :
    (callbacks : Callbacks) (w : Watchdog)
    → IsBounded w
    → (enforce_grace callbacks w).0 ≡ raised
    → IsStopped 0 (enforce_grace callbacks w).1
unfolding enforce_grace
raised-IsStopped callbacks w h failed = ground (arith, h.exits_once)

-- If an `enforce_grace` of a watchdog raises, since stopping the lease renewal raised, then whatever
-- calls came before and whatever calls follow, with commits and new stalls among them: the process
-- never exits through the watchdog, and every `enforce_grace` after them returns false and changes
-- nothing.
pub enforce_raised :
    (callbacks later : Callbacks) (before after : List Action) (timeout : ℕ) (stages : Dict ℕ)
    (fatal : Option ℕ) (now : ℕ) (w stopped : Watchdog)
    → run before (new timeout stages fatal now) ≡ w
    → enforce_grace callbacks w ≡ (raised, stopped)
    → (stopped.effects ≡ stops_lease ∷ w.effects)
      × (count_effects is_exit (run after stopped).effects ≡ 0)
      × (enforce_grace later (run after stopped) ≡ (returned_false, run after stopped))
enforce_raised callbacks later before after timeout stages fatal now w stopped from failed =
    let bounded : IsBounded w =
      subst IsBounded from (run-IsBounded before _ (new-IsBounded timeout stages fatal now)) in
    let marked : IsStopped 0 stopped =
      subst (IsStopped 0) (ap (λ o. o.1) failed)
        (raised-IsStopped callbacks w bounded (ap (λ o. o.0) failed)) in
    let end = run-IsStopped 0 after stopped marked in
    (
      unfold enforce_grace in ground (arith, failed),
      end.exits_stay,
      unfold enforce_grace in ground (arith, end.marked),
    )
