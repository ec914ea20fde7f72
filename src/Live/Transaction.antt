-- ===== src/Live/Transaction.antt =====
-- proberca/live/transaction.py: the fenced transaction of one live window, and the phase model
-- whose only commit point is the run state. SHA-256 over canonical JSON is the parameter `sha`.
pub mod Lifecycle
pub mod Phase
use probe_rca.Prelude.{
  ℕ, ◌+◌, String, Bool, true, false, ◌&&◌, ◌||◌, not, Option, none, some, List, [], ◌∷◌, mem, leb,
  ltb, ◌==◌, nat_eq, string_eq, if◌then◌else◌, Result, ok, err, guard, ◌>>=◌, ◌>>◌,
}
use probe_rca.Live.Lease.{LeaseFenceToken}

pub data TransactionError : Type 0 where
  invalid_bounds invalid_transition missing_fingerprint : TransactionError

pub data TransactionState : Type 0 where
  prepared engine_completed output_prepared checkpoint_prepared committed aborted : TransactionState

-- What the transaction's id is computed from.
pub record Seed : Type 0 where
  pub fence : String
  pub sequence : ℕ
  pub window_start_ns : ℕ
  pub window_end_ns : ℕ
  pub current : Option String
  pub ledger : String

pub record LiveWindowTransaction : Type 0 where
  pub transaction_id : String
  pub lease_fence_token : LeaseFenceToken
  pub expected_sequence : ℕ
  pub window_start_ns : ℕ
  pub window_end_ns : ℕ
  pub starting_current_generation : Option String
  pub starting_ledger_fingerprint : String
  pub state : TransactionState
  pub engine_result_fingerprint : Option String
  pub planned_output_ledger_fingerprint : Option String
  pub planned_checkpoint_fingerprint : Option String
  pub abort_reason : Option String

unfoldable pub create :
    (sha : Seed → String) (fence_token : LeaseFenceToken)
    (expected_sequence window_start_ns window_end_ns : ℕ)
    (starting_current_generation : Option String) (starting_ledger_fingerprint : String)
    → Result TransactionError LiveWindowTransaction
create sha fence_token expected_sequence start end current ledger =
    if expected_sequence == 0 || leb end start
    then err invalid_bounds
    else ok (record {
      transaction_id = sha (record {
        fence = fence_token.token_fingerprint;
        sequence = expected_sequence;
        window_start_ns = start;
        window_end_ns = end;
        current = current;
        ledger = ledger;
      });
      lease_fence_token = fence_token;
      expected_sequence = expected_sequence;
      window_start_ns = start;
      window_end_ns = end;
      starting_current_generation = current;
      starting_ledger_fingerprint = ledger;
      state = prepared;
      engine_result_fingerprint = none;
      planned_output_ledger_fingerprint = none;
      planned_checkpoint_fingerprint = none;
      abort_reason = none;
    })

abbrev pub is_prepared : TransactionState → Bool
is_prepared prepared = true
is_prepared _ = false

abbrev pub is_engine_completed : TransactionState → Bool
is_engine_completed engine_completed = true
is_engine_completed _ = false

abbrev pub is_output_prepared : TransactionState → Bool
is_output_prepared output_prepared = true
is_output_prepared _ = false

abbrev pub is_checkpoint_prepared : TransactionState → Bool
is_checkpoint_prepared checkpoint_prepared = true
is_checkpoint_prepared _ = false

-- The methods: each checks the state, then its argument, then writes.
unfoldable pub complete_engine :
    String → LiveWindowTransaction → Result TransactionError LiveWindowTransaction
complete_engine fingerprint t = do
  guard (is_prepared t.state) invalid_transition
  guard (not (fingerprint == "")) missing_fingerprint
  ok (record t { engine_result_fingerprint = some fingerprint; state = engine_completed })

unfoldable pub prepare_output :
    String → LiveWindowTransaction → Result TransactionError LiveWindowTransaction
prepare_output fingerprint t = do
  guard (is_engine_completed t.state) invalid_transition
  guard (not (fingerprint == "")) missing_fingerprint
  ok (record t { planned_output_ledger_fingerprint = some fingerprint; state = output_prepared })

unfoldable pub prepare_checkpoint :
    String → LiveWindowTransaction → Result TransactionError LiveWindowTransaction
prepare_checkpoint fingerprint t = do
  guard (is_output_prepared t.state) invalid_transition
  guard (not (fingerprint == "")) missing_fingerprint
  ok (record t { planned_checkpoint_fingerprint = some fingerprint; state = checkpoint_prepared })

unfoldable pub commit : LiveWindowTransaction → Result TransactionError LiveWindowTransaction
commit t = do
  guard (is_checkpoint_prepared t.state) invalid_transition
  ok (record t { state = committed })

unfoldable pub abort :
    String → LiveWindowTransaction → Result TransactionError LiveWindowTransaction
abort reason t = do
  guard
      (is_prepared t.state
        || is_engine_completed t.state
        || is_output_prepared t.state
        || is_checkpoint_prepared t.state)
      invalid_transition
  ok (record t { abort_reason = some reason; state = aborted })

-- A call of one of the methods.
pub data Call : Type 0 where
  calls_engine_completed calls_output_prepared calls_checkpoint_prepared : String → Call
  calls_commit : Call
  calls_abort : String → Call

unfoldable pub apply : Call → LiveWindowTransaction → Result TransactionError LiveWindowTransaction
apply (calls_engine_completed fingerprint) t = complete_engine fingerprint t
apply (calls_output_prepared fingerprint) t = prepare_output fingerprint t
apply (calls_checkpoint_prepared fingerprint) t = prepare_checkpoint fingerprint t
apply calls_commit t = commit t
apply (calls_abort reason) t = abort reason t

-- A sequence of calls, up to the first that raises.
unfoldable pub apply_all :
    List Call → LiveWindowTransaction → Result TransactionError LiveWindowTransaction
apply_all [] t = ok t
apply_all (c ∷ cs) t = do t' ← apply c t; apply_all cs t'

-- class CommitPhase, class LiveWindowTransactionState
pub data CommitPhase : Type 0 where
  pre_commit run_committed output_degraded : CommitPhase

pub data PhaseError : Type 0 where
  sequence_mismatch invalid_phase cannot_abort already_committed already_aborted : PhaseError
  not_committed : PhaseError

pub record PhaseState : Type 0 where
  pub expected_sequence : ℕ
  pub committed_sequence : ℕ
  pub phase : CommitPhase
  pub aborted : Bool
  pub reason_code : Option String

abbrev pub is_pre_commit : CommitPhase → Bool
is_pre_commit pre_commit = true
is_pre_commit _ = false

abbrev pub is_run_committed : CommitPhase → Bool
is_run_committed run_committed = true
is_run_committed _ = false

-- __init__ with the default fields, and __post_init__
unfoldable pub new_phase : (expected last : ℕ) → Result PhaseError PhaseState
new_phase expected last =
    if expected == last + 1
    then ok (record {
      expected_sequence = expected;
      committed_sequence = last;
      phase = pre_commit;
      aborted = false;
      reason_code = none;
    })
    else err sequence_mismatch

unfoldable pub enter_phase : CommitPhase → PhaseState → Result PhaseError PhaseState
enter_phase phase s = do guard (is_pre_commit phase && is_pre_commit s.phase) invalid_phase; ok s

unfoldable pub abort_phase : String → PhaseState → Result PhaseError PhaseState
abort_phase reason s = do
  guard (is_pre_commit s.phase) cannot_abort
  ok (record s { reason_code = some reason; aborted = true })

unfoldable pub mark_run_state_committed : PhaseState → Result PhaseError PhaseState
mark_run_state_committed s = do
  guard (is_pre_commit s.phase) already_committed
  guard (not s.aborted) already_aborted
  ok (record s { committed_sequence = s.expected_sequence; phase = run_committed })

unfoldable pub mark_output_degraded : String → PhaseState → Result PhaseError PhaseState
mark_output_degraded reason s = do
  guard (is_run_committed s.phase) not_committed
  ok (record s { reason_code = some reason; phase = output_degraded })

unfoldable pub next_sequence : PhaseState → ℕ
next_sequence s = s.committed_sequence + 1

unfoldable pub should_replay_sequence : ℕ → PhaseState → Bool
should_replay_sequence sequence s = ltb s.committed_sequence sequence
