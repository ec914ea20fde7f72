-- ===== src/Live/Transaction/Phase.antt =====
-- proberca/live/transaction.py: the phase model around the run-state commit.
use probe_rca.Prelude.{ℕ, ◌+◌, ◌≡◌, ◌⊎◌, String, Bool, true, false, arith, ok}
use probe_rca.Live.Transaction.{
  CommitPhase, pre_commit, PhaseState, is_pre_commit, new_phase, enter_phase, abort_phase,
  mark_run_state_committed, mark_output_degraded, next_sequence, should_replay_sequence,
}

-- The calls but `abort`.
pub data PhaseStep : PhaseState → PhaseState → Type 0 where
  enters : (phase : CommitPhase) {s t : PhaseState} → enter_phase phase s ≡ ok t → PhaseStep s t
  commits : {s t : PhaseState} → mark_run_state_committed s ≡ ok t → PhaseStep s t
  degrades :
      (reason : String) {s t : PhaseState} → mark_output_degraded reason s ≡ ok t → PhaseStep s t

-- What may follow a state, with whether the transaction was aborted on the way.
pub data PhaseReach (s : PhaseState) : Bool → PhaseState → Type 0 where
  here : PhaseReach s false s
  next : {b : Bool} {t u : PhaseState} → PhaseReach s b t → PhaseStep t u → PhaseReach s b u
  abort :
      {b : Bool} (reason : String) {t u : PhaseState}
      → PhaseReach s b t
      → abort_phase reason t ≡ ok u
      → PhaseReach s true u

-- Before the commit the expected sequence is still to come; afterwards it is the committed one,
-- and an aborted transaction never gets there.
pub record IsPhased (before : ℕ) (b : Bool) (s : PhaseState) : Type 0 where
  pub expected : s.expected_sequence ≡ before + 1
  pub flagged : s.aborted ≡ b
  pub placed :
      ((s.phase ≡ pre_commit) × (s.committed_sequence ≡ before))
      ⊎ ((is_pre_commit s.phase ≡ false) × (s.committed_sequence ≡ before + 1) × (b ≡ false))

PhaseStep-IsPhased :
    {before : ℕ} {b : Bool} {s t : PhaseState}
    → PhaseStep s t
    → IsPhased before b s
    → IsPhased before b t
PhaseStep-IsPhased (enters phase e) h = unfold enter_phase in ground arith
PhaseStep-IsPhased (commits e) h = unfold mark_run_state_committed in ground arith
PhaseStep-IsPhased (degrades reason e) h = unfold mark_output_degraded in ground arith

abort_phase-IsPhased :
    {before : ℕ} {b : Bool} (reason : String) {s t : PhaseState}
    → abort_phase reason s ≡ ok t
    → IsPhased before b s
    → IsPhased before true t
unfolding abort_phase
abort_phase-IsPhased reason e h = ground arith

PhaseReach-IsPhased :
    {before : ℕ} {s : PhaseState} {b : Bool} {t : PhaseState}
    → IsPhased before false s
    → PhaseReach s b t
    → IsPhased before b t
PhaseReach-IsPhased h here = h
PhaseReach-IsPhased h (next r step) = PhaseStep-IsPhased step (PhaseReach-IsPhased h r)
PhaseReach-IsPhased h (abort reason r e) = abort_phase-IsPhased reason e (PhaseReach-IsPhased h r)

new_phase-IsPhased :
    (expected before : ℕ) {s : PhaseState}
    → new_phase expected before ≡ ok s
    → IsPhased before false s
unfolding new_phase
new_phase-IsPhased expected before e = ground arith

-- Whatever calls follow the construction, the committed sequence is the one before the expected
-- one until the run state is committed and the expected one from then on, so that the expected
-- window is replayed exactly before the commit; and the run state is committed only if no call
-- aborted the transaction, before or after.
pub commit_point :
    (expected before : ℕ) {aborted : Bool} {s t : PhaseState}
    → new_phase expected before ≡ ok s
    → PhaseReach s aborted t
    → ((should_replay_sequence expected t ≡ true)
        × (is_pre_commit t.phase ≡ true)
        × (next_sequence t ≡ expected))
      ⊎ ((should_replay_sequence expected t ≡ false)
          × (is_pre_commit t.phase ≡ false)
          × (next_sequence t ≡ expected + 1)
          × (t.aborted ≡ false)
          × (aborted ≡ false))
unfolding should_replay_sequence next_sequence new_phase
commit_point expected before e r =
    ground (arith, PhaseReach-IsPhased (new_phase-IsPhased expected before e) r)
