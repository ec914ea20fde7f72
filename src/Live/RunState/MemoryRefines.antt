-- ===== src/Live/RunState/MemoryRefines.antt =====
-- proberca/live/run_state.py: InMemoryLeaseRunStateStore keeps what the stores promise.
use probe_rca.Prelude.{
  ◌+◌, ◌≡◌, String, some, ◌==◌, nat_eq, string_eq, ok, guard, arith, bind-eq-ok, Bool-cases, inl,
  inr,
}
use probe_rca.Live.RunState.Record.{LeaseRunStateRecord, Hashes, validated, with_holder}
use probe_rca.Live.RunState.Memory.{
  MemoryStore, LeaseFenceToken, CommitCasContext, try_acquire, take_over, renew, commit_generation,
  committed, option_beq, check_candidate, is_current_token,
}
use probe_rca.Live.RunState.Validity.{IsValid, validated-IsValid, with_holder-signed}
use probe_rca.Live.RunState.Authority.{authority, Step, stays, takes, valid_next-Step}

-- A method of the store that returns.
-- The arguments are those of the method.
pub data MemoryStep (h : Hashes) (s : MemoryStore) : MemoryStore → Type 0 where
  acquires :
      (name : String) (t : LeaseFenceToken) (s' : MemoryStore)
      → try_acquire h name s ≡ ok (t, s')
      → MemoryStep h s s'
  renews :
      (t t' : LeaseFenceToken) (s' : MemoryStore) → renew h t s ≡ ok (t', s') → MemoryStep h s s'
  committing :
      (c : CommitCasContext) (candidate : LeaseRunStateRecord) (s' : MemoryStore)
      → commit_generation h c candidate s ≡ ok s'
      → MemoryStep h s s'

module _ (h : Hashes) where
  take_over-Step :
      (holder : String) (s s' : MemoryStore) (t : LeaseFenceToken)
      → take_over h holder s ≡ ok (t, s')
      → Step (authority s.current) (authority s'.current)
  unfolding take_over authority
  take_over-Step holder s s' t p =
      let (updated, taken, rest) =
        bind-eq-ok (with_holder h holder (s.current.leadership_epoch + 1) s.current) _ p in
      let (up, valid, is_signed) = with_holder-signed h holder _ s.current updated taken in
      let same : s'.current ≡ updated = ground arith in
      rw same (rw is_signed (takes holder (s.current.leadership_epoch + 1) up (omega arith)))

  try_acquire-Step :
      (name : String) (s s' : MemoryStore) (t : LeaseFenceToken)
      → try_acquire h name s ≡ ok (t, s')
      → Step (authority s.current) (authority s'.current)
  unfolding try_acquire authority
  try_acquire-Step name s s' t p =
      elim (Bool-cases (option_beq s.current.holder_fingerprint (some (h.holder_sha name)))) [
        | inl same ↦ let kept : s' ≡ s = ground (arith, p, same) in rw kept stays
        | inr other ↦ take_over-Step (h.holder_sha name) s s' t (ground (arith, p, other))
      ]

  renew-Step :
      (s s' : MemoryStore) (t t' : LeaseFenceToken)
      → renew h t s ≡ ok (t', s')
      → Step (authority s.current) (authority s'.current)
  unfolding renew authority
  renew-Step s s' t t' p = let kept : s'.current ≡ s.current = ground (arith, p) in rw kept stays

  committed-Step :
      (c : CommitCasContext) (v : LeaseRunStateRecord) (s s' : MemoryStore)
      → IsValid h v
      → committed h c v s ≡ ok s'
      → Step (authority s.current) (authority s'.current)
  unfolding committed check_candidate authority
  committed-Step c v s s' valid p =
      elim (Bool-cases (v.record_fingerprint == s.current.record_fingerprint)) [
        | inl same ↦ let kept : s' ≡ s = ground (arith, p, same) in rw kept stays
        | inr other ↦
            let new : s'.current ≡ v = ground (arith, p, other) in
            let next : v.committed_sequence ≡ s.current.committed_sequence + 1 =
              ground (arith, p, other) in
            rw new (valid_next-Step h s.current v valid next)
      ]

  commit_generation-Step :
      (c : CommitCasContext) (r : LeaseRunStateRecord) (s s' : MemoryStore)
      → commit_generation h c r s ≡ ok s'
      → Step (authority s.current) (authority s'.current)
  unfolding commit_generation
  commit_generation-Step c r s s' p =
      let (_, _, p1) = bind-eq-ok (guard (is_current_token c.token s.current) _) _ p in
      let (v, is_validated, p2) = bind-eq-ok (validated h r) _ p1 in
      committed-Step c v s s' (validated-IsValid h r v is_validated) p2

  -- A method of the in-memory store that returns does a step of the authority, or none.
  pub MemoryStep-Step :
      {s s' : MemoryStore} → MemoryStep h s s' → Step (authority s.current) (authority s'.current)
  MemoryStep-Step {s} (acquires name t s' p) = try_acquire-Step name s s' t p
  MemoryStep-Step {s} (renews t t' s' p) = renew-Step s s' t t' p
  MemoryStep-Step {s} (committing c candidate s' p) = commit_generation-Step c candidate s s' p
