-- ===== src/Live/RunState/Store.antt =====
-- proberca/live/run_state.py: KubernetesLeaseRunStateStore, up to the writes (in Live.RunState.Writes).
-- `lease` is what the method read. The JSON text of the annotation is the record that it stands for, with the length that
-- `Hashes` gives; annotations of others on the lease are left out. The lock is left out.
use probe_rca.Prelude.{
  ℕ, ◌+◌, String, Bool, true, false, ◌&&◌, ◌||◌, not, Option, none, some, leb, ltb, list_beq, ◌==◌,
  nat_eq, string_eq, if◌then◌else◌, Result, ok, err, guard, ◌>>=◌, ◌>>◌,
}
use probe_rca.Live.RunState.Record.{
  LeaseRunStateRecord, Hashes, RunStateError, validated, with_holder, stale_epoch, stale_sequence,
  stale_generation, annotation_too_long, schema_annotation_invalid, annotation_missing,
  identity_mismatch, instance_required, lease_held, no_lease, lease_name_required, duration_invalid,
  limit_invalid,
}
use probe_rca.Live.RunState.Memory.{
  LeaseFenceToken, LeaseRunStateSnapshot, CommitCasContext, option_beq, is_current_token,
}
use probe_rca.Live.Lease.{LeaseState, Annotations, LeaseApi}

pub record LeaseStore : Type 0 where
  pub namespace : String
  pub name : String
  pub initial_record : LeaseRunStateRecord
  pub lease_duration_sec : ℕ
  pub annotation_max_bytes : ℕ
  -- One second, in the unit of the clock.
  pub second : ℕ

unfoldable pub is_same_run : (initial r : LeaseRunStateRecord) → Bool
is_same_run initial r =
    r.run_id == initial.run_id
    && r.cluster_id == initial.cluster_id
    && list_beq r.namespace_scope initial.namespace_scope
    && r.config_fingerprint == initial.config_fingerprint
    && r.code_schema_version == initial.code_schema_version

abbrev pub is_schema : Option String → Bool
is_schema none = false
is_schema (some s) = s == "1.0"

abbrev transition_of : Option LeaseState → ℕ
transition_of none = 0
transition_of (some lease) = lease.lease_transition

abbrev acquire_time_of : Option LeaseState → ℕ
acquire_time_of none = 0
acquire_time_of (some lease) = lease.acquire_time

abbrev uid_of : Option LeaseState → String
uid_of none = ""
uid_of (some lease) = lease.lease_uid

abbrev version_or_zero : Option LeaseState → ℕ
version_or_zero none = 0
version_or_zero (some lease) = lease.resource_version

-- KubernetesLeaseRunStateStore.__init__
unfoldable pub create_store : Hashes → LeaseStore → Result RunStateError LeaseStore
create_store h s = do
  guard (not (s.namespace == "" || s.name == "")) lease_name_required
  guard (ltb 0 s.lease_duration_sec) duration_invalid
  guard (ltb 0 s.annotation_max_bytes) limit_invalid
  r ← validated h s.initial_record
  ok (record s { initial_record = r })

module _ (h : Hashes) (s : LeaseStore) where
  -- decode_run_state_annotation
  unfoldable pub decode_run_state_annotation :
      LeaseRunStateRecord → Result RunStateError LeaseRunStateRecord
  decode_run_state_annotation r = do
    guard (leb (h.record_bytes r) s.annotation_max_bytes) annotation_too_long
    validated h r

  -- `_decode` from the payload on.
  unfoldable pub decode_payload :
      Option LeaseRunStateRecord → Result RunStateError LeaseRunStateRecord
  decode_payload none = err annotation_missing
  decode_payload (some payload) = do
    r ← decode_run_state_annotation payload
    guard (is_same_run s.initial_record r) identity_mismatch
    ok r

  -- _decode
  unfoldable pub decode : Option LeaseState → Result RunStateError LeaseRunStateRecord
  decode none = ok s.initial_record
  decode (some lease) = do
    guard (is_schema lease.annotations.schema) schema_annotation_invalid
    decode_payload lease.annotations.run_state

  -- _annotations, with encode_run_state_annotation
  unfoldable pub annotations_of : LeaseRunStateRecord → Result RunStateError Annotations
  annotations_of r = do
    guard (leb (h.record_bytes r) s.annotation_max_bytes) annotation_too_long
    ok (record { schema = some "1.0"; run_state = some r })

  -- _token
  unfoldable pub token_of : LeaseState → LeaseRunStateRecord → LeaseFenceToken
  token_of lease r = record {
    holder_fingerprint = r.holder_fingerprint;
    leadership_epoch = r.leadership_epoch;
    resource_version = lease.resource_version;
    token_fingerprint =
        h.lease_token_sha lease.lease_uid s.namespace s.name r.holder_fingerprint
          r.leadership_epoch;
    lease_uid = lease.lease_uid;
    lease_namespace = s.namespace;
    lease_name = s.name;
    expires_at = lease.renew_time + lease.duration;
  }

  -- The test of `_validate` on a lease that exists.
  unfoldable pub is_valid_token :
      (now : ℕ) → LeaseFenceToken → LeaseState → LeaseRunStateRecord → Bool
  is_valid_token now t lease r =
      t.lease_namespace == s.namespace
      && t.lease_name == s.name
      && t.lease_uid == lease.lease_uid
      && is_current_token t r
      && option_beq (some (h.holder_sha lease.holder)) t.holder_fingerprint
      && ltb now (lease.renew_time + lease.duration)

  -- The lease as its holder writes it again, with a time and a record.
  abbrev pub rewritten : LeaseState → (renew_time : ℕ) → Annotations → LeaseState
  rewritten lease renew_time annotations = record lease {
    renew_time = renew_time;
    duration = s.lease_duration_sec;
    annotations = annotations;
  }

  unfoldable pub read : LeaseApi → Result RunStateError LeaseRunStateSnapshot
  read api = do
    r ← decode api.value
    ok (record { current = r; resource_version = version_or_zero api.value })

  unfoldable pub is_available : (instance : String) (now : ℕ) → Option LeaseState → Bool
  is_available name now none = true
  is_available name now (some lease) =
      lease.holder == name || leb (lease.renew_time + lease.duration) now

  unfoldable pub is_same_epoch : (instance : String) (now : ℕ) → Option LeaseState → Bool
  is_same_epoch name now none = false
  is_same_epoch name now (some lease) =
      lease.holder == name && ltb now (lease.renew_time + lease.duration)

  unfoldable pub next_epoch : (instance : String) (now : ℕ) → Option LeaseState → (epoch : ℕ) → ℕ
  next_epoch name now lease epoch = if is_same_epoch name now lease then epoch else epoch + 1

  -- The lease that an acquisition writes.
  unfoldable pub acquired_lease :
      (instance : String) (now : ℕ) → Option LeaseState → Annotations → LeaseState
  acquired_lease name now lease annotations = record {
    holder = name;
    renew_time = now;
    duration = s.lease_duration_sec;
    resource_version = version_or_zero lease;
    lease_uid = uid_of lease;
    lease_transition = next_epoch name now lease (transition_of lease);
    annotations = annotations;
    acquire_time = if is_same_epoch name now lease then acquire_time_of lease else now;
  }

  -- `try_acquire` up to its write: the record and the lease to write.
  unfoldable pub acquisition :
      (instance : String) (now : ℕ)
      → Option LeaseState
      → Result RunStateError (LeaseRunStateRecord × LeaseState)
  acquisition name now lease = do
    guard (not (name == "")) instance_required
    r ← decode lease
    guard (is_available name now lease) lease_held
    updated ← with_holder h (h.holder_sha name) (next_epoch name now lease r.leadership_epoch) r
    annotations ← annotations_of updated
    ok (updated, acquired_lease name now lease annotations)

  -- What `_decode` and `_validate` establish: the lease exists, and the token owns it.
  unfoldable pub owned :
      (now : ℕ)
      → LeaseFenceToken
      → Option LeaseState
      → Result RunStateError (LeaseRunStateRecord × LeaseState)
  owned now t none = err no_lease
  owned now t (some lease) = do
    r ← decode (some lease)
    guard (is_valid_token now t lease r) stale_epoch
    ok (r, lease)

  -- `renew` and `release` up to their writes; `renew_time` is the time that they write.
  unfoldable pub rewrite :
      (now renew_time : ℕ)
      → LeaseFenceToken
      → Option LeaseState
      → Result RunStateError (LeaseRunStateRecord × LeaseState)
  rewrite now renew_time t lease = do
    (r, old) ← owned now t lease
    annotations ← annotations_of r
    ok (r, rewritten old renew_time annotations)

  unfoldable pub prepare_commit_from :
      (now : ℕ)
      → LeaseFenceToken
      → (expected_sequence : ℕ) (expected_generation_id : Option String) → Option LeaseState
      → Result RunStateError CommitCasContext
  prepare_commit_from now t sequence generation lease = do
    (r, old) ← owned now t lease
    guard (sequence == r.committed_sequence + 1) stale_sequence
    guard (option_beq generation r.current_generation_id) stale_generation
    ok (record {
      token = t;
      expected_sequence = sequence;
      expected_generation_id = generation;
      expected_resource_version = old.resource_version;
    })
