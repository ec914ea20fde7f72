-- ===== src/Live/RunState/LeaseSteps.antt =====
-- proberca/live/run_state.py: the steps of KubernetesLeaseRunStateStore, with the writes of other
-- replicas between its reads and its writes.
use mathlib.Core.Path.{subst}
use probe_rca.Prelude.{
  none, sym, ◌∙◌, Bool, ◌≡◌, ◌≢◌, true, false, Option, some, nat_eq, string_eq, ok, arith,
  Bool-cases, inl, inr, ℕ, String,
}
use probe_rca.Live.RunState.Record.{LeaseRunStateRecord, Hashes}
use probe_rca.Live.RunState.Memory.{LeaseFenceToken, CommitCasContext, LeaseRunStateSnapshot}
use probe_rca.Live.RunState.Store.{LeaseStore, is_same_run, decode}
use probe_rca.Live.RunState.Writes.{
  write, version_of, try_acquire_from, renew_from, release_from, commit_generation_from,
}
use probe_rca.Live.RunState.Authority.{Step, authority}
use probe_rca.Live.Lease.{LeaseState, LeaseApi, create_or_replace, conflicts}

-- What a method read before its write: the lease as it still is, one that another replica's write
-- has replaced since, or none where another replica has created one since.
pub data WasRead (api : LeaseApi) (lease : Option LeaseState) : Type 0 where
  current : api.value ≡ lease → WasRead api lease
  replaced :
      (old new : LeaseState)
      → lease ≡ some old
      → api.value ≡ some new
      → new.resource_version ≢ old.resource_version
      → WasRead api lease
  created : (new : LeaseState) → lease ≡ none → api.value ≡ some new → WasRead api lease

-- Whether the Kubernetes API answers a write that expects this version: a creation expects none.
abbrev pub Accepts : Type 0
Accepts = LeaseApi → Option ℕ → Bool

-- What Kubernetes documents of `create_namespaced_lease`: a name that exists is refused.
abbrev pub CreatesOnce : Accepts → Type 0
CreatesOnce accepts = (api : LeaseApi) → accepts api none ≡ true → api.value ≡ none

-- A write that succeeds: it carries the annotations, and the lease was still the one that was read.
pub write-ok :
    (expected : Option ℕ) (api api' : LeaseApi) (candidate written : LeaseState)
    → write api candidate expected ≡ ok (written, api')
    → (api'.value ≡ some written)
      × (written.annotations ≡ candidate.annotations)
      × (conflicts api expected ≡ false)
unfolding write create_or_replace
write-ok expected api api' candidate written p = elim (Bool-cases (conflicts api expected)) [
  | inl refused ↦ ground (arith, p, refused)
  | inr free ↦ (ground (arith, p, free), ground (arith, p, free), free)
]

pub not_replaced :
    (accepts : Accepts) (lease : Option LeaseState) (api : LeaseApi)
    → CreatesOnce accepts
    → WasRead api lease
    → accepts api (version_of lease) ≡ true
    → conflicts api (version_of lease) ≡ false
    → api.value ≡ lease
unfolding conflicts
not_replaced accepts lease api once (current same) accepted free = same
not_replaced accepts lease api once (replaced old new was held differ) accepted free =
    ground (arith, was, held, differ, free)
not_replaced accepts lease api once (created new was held) accepted free =
    once api (subst (λ l. accepts api (version_of l) ≡ true) was accepted) ∙ sym was

-- A method of the store that returns, its write accepted. A commit is of a candidate of the store's
-- run.
pub data LeaseStep (h : Hashes) (s : LeaseStore) (accepts : Accepts) (api api' : LeaseApi)
    : Type 0 where
  acquires :
      (name : String) (now : ℕ) (lease : Option LeaseState) (t : LeaseFenceToken)
      → WasRead api lease
      → accepts api (version_of lease) ≡ true
      → try_acquire_from h s name now lease api ≡ ok (t, api')
      → LeaseStep h s accepts api api'
  renews :
      (now later : ℕ) (t t' : LeaseFenceToken) (lease : Option LeaseState)
      → WasRead api lease
      → accepts api (version_of lease) ≡ true
      → renew_from h s now later t lease api ≡ ok (t', api')
      → LeaseStep h s accepts api api'
  releases :
      (now later : ℕ) (t : LeaseFenceToken) (lease : Option LeaseState)
      → WasRead api lease
      → accepts api (version_of lease) ≡ true
      → release_from h s now later t lease api ≡ ok api'
      → LeaseStep h s accepts api api'
  committing :
      (now later : ℕ) (c : CommitCasContext) (candidate : LeaseRunStateRecord)
      (lease : Option LeaseState) (result : LeaseRunStateSnapshot)
      → WasRead api lease
      → accepts api (version_of lease) ≡ true
      → is_same_run s.initial_record candidate ≡ true
      → commit_generation_from h s now later c candidate lease api ≡ ok (result, api')
      → LeaseStep h s accepts api api'

-- The stored run state before and after: both are decoded, and the second is a step from the first.
pub record Moves (h : Hashes) (s : LeaseStore) (api api' : LeaseApi) : Type 0 where
  pub before : LeaseRunStateRecord
  pub after : LeaseRunStateRecord
  pub reads_before : decode h s api.value ≡ ok before
  pub reads_after : decode h s api'.value ≡ ok after
  pub step : Step (authority before) (authority after)
