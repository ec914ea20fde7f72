-- ===== src/Live/Transaction/Lifecycle.antt =====
-- proberca/live/transaction.py: the calls that lead to a commit.
use probe_rca.Prelude.{
  ◌≡◌, ◌≢◌, ap, ◌⊎◌, inl, inr, refl, String, some, List, [], ◌∷◌, arith, eq_iff, string_eq, ok, err,
}
use probe_rca.Live.Transaction.{
  LiveWindowTransaction, prepared, engine_completed, output_prepared, checkpoint_prepared,
  committed, aborted, complete_engine, prepare_output, prepare_checkpoint, commit, abort, Call,
  calls_engine_completed, calls_output_prepared, calls_checkpoint_prepared, calls_commit,
  calls_abort, apply, apply_all, invalid_transition,
}

-- A finished transaction takes no further call.
finished :
    (c : Call) (t : LiveWindowTransaction)
    → (t.state ≡ committed) ⊎ (t.state ≡ aborted)
    → apply c t ≡ err invalid_transition
unfolding apply complete_engine prepare_output prepare_checkpoint commit abort
finished (calls_engine_completed f) t h = ground arith
finished (calls_output_prepared f) t h = ground arith
finished (calls_checkpoint_prepared f) t h = ground arith
finished calls_commit t h = ground arith
finished (calls_abort r) t h = ground arith

from_finished :
    (cs : List Call) (t u : LiveWindowTransaction)
    → (t.state ≡ committed) ⊎ (t.state ≡ aborted)
    → apply_all cs t ≡ ok u
    → (cs ≡ []) × (u ≡ t)
unfolding apply_all
from_finished [] t u h e = (refl, cc)
from_finished (c ∷ cs) t u h e = ground (arith, finished c t h)

abort-uncommitted :
    (reason : String) (cs : List Call) (t u : LiveWindowTransaction)
    → apply_all (calls_abort reason ∷ cs) t ≡ ok u
    → u.state ≡ committed
    → ⊥
unfolding apply_all apply abort
abort-uncommitted reason cs t u e done =
    let stopped : LiveWindowTransaction = record t {
      abort_reason = some reason;
      state = aborted;
    } in
    ground (arith, from_finished cs stopped u (inr refl))

from_checkpoint :
    (cs : List Call) (t u : LiveWindowTransaction)
    → t.state ≡ checkpoint_prepared
    → apply_all cs t ≡ ok u
    → u.state ≡ committed
    → (cs ≡ calls_commit ∷ []) × (u ≡ record t { state = committed })
unfolding apply_all apply
from_checkpoint [] t u h e done = absurd (ground arith)
from_checkpoint (calls_engine_completed f ∷ cs) t u h e done =
    absurd (unfold complete_engine in ground arith)
from_checkpoint (calls_output_prepared f ∷ cs) t u h e done =
    absurd (unfold prepare_output in ground arith)
from_checkpoint (calls_checkpoint_prepared f ∷ cs) t u h e done =
    absurd (unfold prepare_checkpoint in ground arith)
from_checkpoint (calls_commit ∷ cs) t u h e done =
    unfold commit in ground (arith, from_finished cs (record t { state = committed }) u (inl refl))
from_checkpoint (calls_abort r ∷ cs) t u h e done = absurd (abort-uncommitted r cs t u e done)

from_output :
    (cs : List Call) (t u : LiveWindowTransaction)
    → t.state ≡ output_prepared
    → apply_all cs t ≡ ok u
    → u.state ≡ committed
    → (k : String) × (cs ≡ calls_checkpoint_prepared k ∷ calls_commit ∷ [])
      × (k ≢ "")
      × (u ≡ record t { planned_checkpoint_fingerprint = some k; state = committed })
unfolding apply_all apply
from_output [] t u h e done = absurd (ground arith)
from_output (calls_engine_completed f ∷ cs) t u h e done =
    absurd (unfold complete_engine in ground arith)
from_output (calls_output_prepared f ∷ cs) t u h e done =
    absurd (unfold prepare_output in ground arith)
from_output (calls_checkpoint_prepared f ∷ cs) t u h e done =
    let t' : LiveWindowTransaction = record t {
      planned_checkpoint_fingerprint = some f;
      state = checkpoint_prepared;
    } in
    let step : (f ≢ "") × (apply_all cs t' ≡ ok u) =
      unfold prepare_checkpoint in ground (arith, eq_iff f "") in
    let (calls, result) = from_checkpoint cs t' u refl step.1 done in
    (f, ap (λ (l : List Call). calls_checkpoint_prepared f ∷ l) calls, step.0, result)
from_output (calls_commit ∷ cs) t u h e done = absurd (unfold commit in ground arith)
from_output (calls_abort r ∷ cs) t u h e done = absurd (abort-uncommitted r cs t u e done)

from_engine :
    (cs : List Call) (t u : LiveWindowTransaction)
    → t.state ≡ engine_completed
    → apply_all cs t ≡ ok u
    → u.state ≡ committed
    → (o k : String) × (cs
        ≡ calls_output_prepared o ∷ calls_checkpoint_prepared k ∷ calls_commit ∷ [])
      × (o ≢ "")
      × (k ≢ "")
      × (u ≡ record t {
        planned_output_ledger_fingerprint = some o;
        planned_checkpoint_fingerprint = some k;
        state = committed;
      })
unfolding apply_all apply
from_engine [] t u h e done = absurd (ground arith)
from_engine (calls_engine_completed f ∷ cs) t u h e done =
    absurd (unfold complete_engine in ground arith)
from_engine (calls_output_prepared f ∷ cs) t u h e done =
    let t' : LiveWindowTransaction = record t {
      planned_output_ledger_fingerprint = some f;
      state = output_prepared;
    } in
    let step : (f ≢ "") × (apply_all cs t' ≡ ok u) =
      unfold prepare_output in ground (arith, eq_iff f "") in
    let (k, calls, ne_k, result) = from_output cs t' u refl step.1 done in
    (f, k, ap (λ (l : List Call). calls_output_prepared f ∷ l) calls, step.0, ne_k, result)
from_engine (calls_checkpoint_prepared f ∷ cs) t u h e done =
    absurd (unfold prepare_checkpoint in ground arith)
from_engine (calls_commit ∷ cs) t u h e done = absurd (unfold commit in ground arith)
from_engine (calls_abort r ∷ cs) t u h e done = absurd (abort-uncommitted r cs t u e done)

-- A transaction that reaches `committed` got there by exactly four calls in this order: the engine
-- result, the output ledger, the checkpoint, each with a nonempty fingerprint that is then on
-- record, and the commit. Nothing else of the transaction has changed.
pub committed_calls :
    (cs : List Call) (t u : LiveWindowTransaction)
    → t.state ≡ prepared
    → apply_all cs t ≡ ok u
    → u.state ≡ committed
    → (e o k : String) × (cs
        ≡ calls_engine_completed e
          ∷ calls_output_prepared o
          ∷ calls_checkpoint_prepared k
          ∷ calls_commit
          ∷ [])
      × (e ≢ "")
      × (o ≢ "")
      × (k ≢ "")
      × (u ≡ record t {
        engine_result_fingerprint = some e;
        planned_output_ledger_fingerprint = some o;
        planned_checkpoint_fingerprint = some k;
        state = committed;
      })
unfolding apply_all apply
committed_calls [] t u h e done = absurd (ground arith)
committed_calls (calls_engine_completed f ∷ cs) t u h e done =
    let t' : LiveWindowTransaction = record t {
      engine_result_fingerprint = some f;
      state = engine_completed;
    } in
    let step : (f ≢ "") × (apply_all cs t' ≡ ok u) =
      unfold complete_engine in ground (arith, eq_iff f "") in
    let (o, k, calls, ne_o, ne_k, result) = from_engine cs t' u refl step.1 done in
    (
      f,
      o,
      k,
      ap (λ (l : List Call). calls_engine_completed f ∷ l) calls,
      step.0,
      ne_o,
      ne_k,
      result,
    )
committed_calls (calls_output_prepared f ∷ cs) t u h e done =
    absurd (unfold prepare_output in ground arith)
committed_calls (calls_checkpoint_prepared f ∷ cs) t u h e done =
    absurd (unfold prepare_checkpoint in ground arith)
committed_calls (calls_commit ∷ cs) t u h e done = absurd (unfold commit in ground arith)
committed_calls (calls_abort r ∷ cs) t u h e done = absurd (abort-uncommitted r cs t u e done)

-- The four calls in order commit a prepared transaction.
pub commit_total :
    (t : LiveWindowTransaction) (e o k : String)
    → t.state ≡ prepared
    → e ≢ ""
    → o ≢ ""
    → k ≢ ""
    → apply_all
        (calls_engine_completed e
          ∷ calls_output_prepared o
          ∷ calls_checkpoint_prepared k
          ∷ calls_commit
          ∷ [])
        t
      ≡ ok (record t {
        state = committed;
        engine_result_fingerprint = some e;
        planned_output_ledger_fingerprint = some o;
        planned_checkpoint_fingerprint = some k;
      })
unfolding apply_all apply complete_engine prepare_output prepare_checkpoint commit
commit_total t e o k start ne_e ne_o ne_k = ground (arith, eq_iff e "", eq_iff o "", eq_iff k "")
