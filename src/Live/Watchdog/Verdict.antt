-- ===== src/Live/Watchdog/Verdict.antt =====
-- proberca/live/watchdog.py: when a reading is a stall.
use probe_rca.Prelude.{ℕ, ◌≡◌, true, false, ◌&&◌, ◌||◌, not, ◌∷◌, ◌==◌, nat_eq, arith}
use probe_rca.Live.Watchdog.{
  Watchdog, Callbacks, Reading, is_stall, evaluate, mark_stalled, poll, is_stage_stalled,
  is_progress_stalled, is_backlog_fatal, aborts_transaction, dumps_stack,
}

-- `evaluate` finds a stall exactly if the watchdog is stalled already, or the replica leads with
-- windows waiting, and the stage of an active transaction is past its timeout, or the last commit is
-- too long ago, or the backlog has reached the fatal threshold.
pub evaluate_exact :
    (callbacks : Callbacks) (r : Reading) (w : Watchdog)
    → is_stall (evaluate callbacks r w).0 ≡ (
        w.stalled
        || (r.leader_active
            && not (r.backlog_count == 0)
            && (is_stage_stalled r w || is_progress_stalled r w || is_backlog_fatal r w)))
unfolding evaluate
evaluate_exact callbacks r w = ground arith

-- A poll that finds a new stall dumps the stack and aborts the transaction once each, dump first,
-- and the poll after it reports the stall and changes nothing.
pub poll_latched :
    (callbacks : Callbacks) (last later : ℕ) (r r' : Reading) (w : Watchdog)
    → w.stalled ≡ false
    → (poll callbacks last r w).0 ≡ true
    → ((poll callbacks last r w).1.effects ≡ aborts_transaction ∷ dumps_stack ∷ w.effects)
      × (poll callbacks later r' (poll callbacks last r w).1 ≡ (true, (poll callbacks last r w).1))
unfolding poll evaluate mark_stalled
poll_latched callbacks last later r r' w fresh found = ground arith
