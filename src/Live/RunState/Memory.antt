-- ===== src/Live/RunState/Memory.antt =====
-- proberca/live/run_state.py: the fence token, the commit context and InMemoryLeaseRunStateStore. A
-- resourceVersion is the number whose decimal text the code keeps.
use probe_rca.Prelude.{
  ℕ, ◌+◌, String, Bool, true, false, ◌&&◌, not, Option, none, some, leb, ◌==◌, nat_eq, string_eq,
  if◌then◌else◌, Result, ok, guard, ◌>>=◌, ◌>>◌,
}
use probe_rca.Live.RunState.Record.{
  LeaseRunStateRecord, Hashes, RunStateError, validated, with_holder, stale_epoch, stale_sequence,
  stale_generation, duplicate_commit, stale_version, changed_before_commit, candidate_mismatch,
}

pub record LeaseFenceToken : Type 0 where
  pub holder_fingerprint : Option String
  pub leadership_epoch : ℕ
  pub resource_version : ℕ
  pub token_fingerprint : String
  pub lease_uid : String
  pub lease_namespace : String
  pub lease_name : String
  pub expires_at : ℕ

pub record LeaseRunStateSnapshot : Type 0 where
  pub current : LeaseRunStateRecord
  pub resource_version : ℕ

pub record CommitCasContext : Type 0 where
  pub token : LeaseFenceToken
  pub expected_sequence : ℕ
  pub expected_generation_id : Option String
  pub expected_resource_version : ℕ

abbrev pub option_beq : Option String → Option String → Bool
option_beq none none = true
option_beq (some a) (some b) = a == b
option_beq none (some b) = false
option_beq (some a) none = false

-- InMemoryLeaseRunStateStore
pub record MemoryStore : Type 0 where
  pub current : LeaseRunStateRecord
  pub resource_version : ℕ

unfoldable pub read : MemoryStore → LeaseRunStateSnapshot
read s = record { current = s.current; resource_version = s.resource_version }

unfoldable pub is_current_token : LeaseFenceToken → LeaseRunStateRecord → Bool
is_current_token t r =
    option_beq t.holder_fingerprint r.holder_fingerprint && t.leadership_epoch == r.leadership_epoch

module _ (h : Hashes) where
  abbrev pub memory_token : (holder : String) (epoch resource_version : ℕ) → LeaseFenceToken
  memory_token holder epoch version = record {
    holder_fingerprint = some holder;
    leadership_epoch = epoch;
    resource_version = version;
    token_fingerprint = h.memory_token_sha holder epoch version;
    lease_uid = "";
    lease_namespace = "";
    lease_name = "";
    expires_at = 0;
  }

  -- `try_acquire` by another holder than the current one.
  unfoldable pub take_over :
      (holder : String) → MemoryStore → Result RunStateError (LeaseFenceToken × MemoryStore)
  take_over holder s = do
    updated ← with_holder h holder (s.current.leadership_epoch + 1) s.current
    ok (
      memory_token holder (s.current.leadership_epoch + 1) (s.resource_version + 1),
      record { current = updated; resource_version = s.resource_version + 1 },
    )

  unfoldable pub try_acquire :
      (instance_fingerprint : String)
      → MemoryStore
      → Result RunStateError (LeaseFenceToken × MemoryStore)
  try_acquire name s =
      let holder = h.holder_sha name in
      if option_beq s.current.holder_fingerprint (some holder)
      then ok (memory_token holder s.current.leadership_epoch s.resource_version, s)
      else take_over holder s

  unfoldable pub renew :
      LeaseFenceToken → MemoryStore → Result RunStateError (LeaseFenceToken × MemoryStore)
  renew t s = do
    guard (is_current_token t s.current) stale_epoch
    ok (
      record t { resource_version = s.resource_version + 1 },
      record s { resource_version = s.resource_version + 1 },
    )

  unfoldable pub prepare_commit :
      LeaseFenceToken
      → (expected_sequence : ℕ) (expected_generation_id : Option String) → MemoryStore
      → Result RunStateError CommitCasContext
  prepare_commit t sequence generation s = do
    guard (is_current_token t s.current) stale_epoch
    guard (sequence == s.current.committed_sequence + 1) stale_sequence
    guard (option_beq generation s.current.current_generation_id) stale_generation
    ok (record {
      token = t;
      expected_sequence = sequence;
      expected_generation_id = generation;
      expected_resource_version = s.resource_version;
    })

  -- The tests of `commit_generation` on a candidate that is validated and not the current record.
  unfoldable pub check_candidate :
      CommitCasContext
      → (current candidate : LeaseRunStateRecord) (resource_version : ℕ)
      → Result RunStateError (Unit {0})
  check_candidate c current candidate version = do
    guard (not (leb candidate.committed_sequence current.committed_sequence)) duplicate_commit
    guard (c.expected_resource_version == version) stale_version
    guard
        (c.expected_sequence == current.committed_sequence + 1
          && option_beq c.expected_generation_id current.current_generation_id)
        changed_before_commit
    guard (candidate.committed_sequence == c.expected_sequence) candidate_mismatch

  -- `commit_generation` from the validated candidate on.
  unfoldable pub committed :
      CommitCasContext
      → (candidate : LeaseRunStateRecord) → MemoryStore
      → Result RunStateError MemoryStore
  committed c v s = if v.record_fingerprint == s.current.record_fingerprint then ok s else (do
    check_candidate c s.current v s.resource_version
    ok (record { current = v; resource_version = s.resource_version + 1 }))

  unfoldable pub commit_generation :
      CommitCasContext
      → (candidate : LeaseRunStateRecord) → MemoryStore
      → Result RunStateError MemoryStore
  commit_generation c candidate s = do
    guard (is_current_token c.token s.current) stale_epoch
    v ← validated h candidate
    committed c v s
