-- ===== src/Live/RunState/Writes.antt =====
-- proberca/live/run_state.py: the methods of KubernetesLeaseRunStateStore that write the lease. Each
-- reads the lease and then may write it: `…_from` is the method from the read on, so that another
-- replica's write can come between. `now` is the clock at the test of the token, and `later` at the
-- write.
use probe_rca.Prelude.{
  ℕ, ◌+◌, ◌-◌, String, Option, none, some, ◌&&◌, not, leb, ◌==◌, nat_eq, string_eq, if◌then◌else◌,
  Result, ok, err, guard, ◌>>=◌, ◌>>◌,
}
use probe_rca.Live.RunState.Record.{
  LeaseRunStateRecord, Hashes, RunStateError, validated, duplicate_commit, stale_version,
  changed_before_commit, write_conflict,
}
use probe_rca.Live.RunState.Memory.{
  LeaseFenceToken, LeaseRunStateSnapshot, CommitCasContext, option_beq,
}
use probe_rca.Live.RunState.Store.{
  LeaseStore, acquisition, owned, rewrite, rewritten, annotations_of, token_of, prepare_commit_from,
}
use probe_rca.Live.Lease.{LeaseState, LeaseApi, create_or_replace}

abbrev pub version_of : Option LeaseState → Option ℕ
version_of none = none
version_of (some lease) = some lease.resource_version

-- A write, whose conflict is reported as one of the store's.
unfoldable pub write :
    LeaseApi → LeaseState → (expected : Option ℕ) → Result RunStateError (LeaseState × LeaseApi)
write api lease expected = elim (create_or_replace api lease expected) [
  | ok done ↦ ok done
  | err e ↦ err write_conflict
]

module _ (h : Hashes) (s : LeaseStore) where
  unfoldable pub try_acquire_from :
      (instance : String) (now : ℕ)
      → Option LeaseState
      → LeaseApi
      → Result RunStateError (LeaseFenceToken × LeaseApi)
  try_acquire_from name now lease api = do
    (updated, candidate) ← acquisition h s name now lease
    (committed, api') ← write api candidate (version_of lease)
    ok (token_of h s committed updated, api')

  unfoldable pub try_acquire :
      (instance : String) (now : ℕ) → LeaseApi → Result RunStateError (LeaseFenceToken × LeaseApi)
  try_acquire name now api = try_acquire_from name now api.value api

  unfoldable pub renew_from :
      (now later : ℕ)
      → LeaseFenceToken
      → Option LeaseState
      → LeaseApi
      → Result RunStateError (LeaseFenceToken × LeaseApi)
  renew_from now later t lease api = do
    (r, candidate) ← rewrite h s now later t lease
    (committed, api') ← write api candidate (version_of lease)
    ok (token_of h s committed r, api')

  unfoldable pub renew :
      (now later : ℕ)
      → LeaseFenceToken
      → LeaseApi
      → Result RunStateError (LeaseFenceToken × LeaseApi)
  renew now later t api = renew_from now later t api.value api

  unfoldable pub release_from :
      (now later : ℕ)
      → LeaseFenceToken
      → Option LeaseState
      → LeaseApi
      → Result RunStateError LeaseApi
  release_from now later t lease api = do
    (r, candidate) ← rewrite h s now (later - (s.lease_duration_sec + s.second)) t lease
    (committed, api') ← write api candidate (version_of lease)
    ok api'

  unfoldable pub release :
      (now later : ℕ) → LeaseFenceToken → LeaseApi → Result RunStateError LeaseApi
  release now later t api = release_from now later t api.value api

  unfoldable pub prepare_commit :
      (now : ℕ)
      → LeaseFenceToken
      → (expected_sequence : ℕ) (expected_generation_id : Option String) → LeaseApi
      → Result RunStateError CommitCasContext
  prepare_commit now t sequence generation api =
      prepare_commit_from h s now t sequence generation api.value

  -- The tests of `commit_generation` on a candidate that is validated and not the current record.
  unfoldable pub check_candidate :
      CommitCasContext
      → (current candidate : LeaseRunStateRecord) → LeaseState
      → Result RunStateError (Unit {0})
  check_candidate c current candidate lease = do
    guard (not (leb candidate.committed_sequence current.committed_sequence)) duplicate_commit
    guard (lease.resource_version == c.expected_resource_version) stale_version
    guard
        (c.expected_sequence == current.committed_sequence + 1
          && option_beq c.expected_generation_id current.current_generation_id
          && candidate.committed_sequence == c.expected_sequence)
        changed_before_commit

  abbrev pub snapshot : LeaseRunStateRecord → LeaseState → LeaseRunStateSnapshot
  snapshot r lease = record { current = r; resource_version = lease.resource_version }

  -- `commit_generation` of a validated candidate that is not the current record.
  unfoldable pub replace_record :
      (later : ℕ)
      → CommitCasContext
      → (current candidate : LeaseRunStateRecord) → LeaseState
      → LeaseApi
      → Result RunStateError (LeaseRunStateSnapshot × LeaseApi)
  replace_record later c r v lease api = do
    check_candidate c r v lease
    annotations ← annotations_of h s v
    (written, api') ←
        write api (rewritten h s lease later annotations) (some lease.resource_version)
    ok (snapshot v written, api')

  -- `commit_generation` from the validated candidate on.
  unfoldable pub committed :
      (later : ℕ)
      → CommitCasContext
      → (current candidate : LeaseRunStateRecord) → LeaseState
      → LeaseApi
      → Result RunStateError (LeaseRunStateSnapshot × LeaseApi)
  committed later c r v lease api =
      if v.record_fingerprint == r.record_fingerprint
      then ok (snapshot r lease, api)
      else replace_record later c r v lease api

  unfoldable pub commit_generation_from :
      (now later : ℕ)
      → CommitCasContext
      → (candidate : LeaseRunStateRecord) → Option LeaseState
      → LeaseApi
      → Result RunStateError (LeaseRunStateSnapshot × LeaseApi)
  commit_generation_from now later c candidate lease api = do
    (r, old) ← owned h s now c.token lease
    v ← validated h candidate
    committed later c r v old api

  unfoldable pub commit_generation :
      (now later : ℕ)
      → CommitCasContext
      → (candidate : LeaseRunStateRecord) → LeaseApi
      → Result RunStateError (LeaseRunStateSnapshot × LeaseApi)
  commit_generation now later c candidate api =
      commit_generation_from now later c candidate api.value api
