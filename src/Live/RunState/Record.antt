-- ===== src/Live/RunState/Record.antt =====
-- proberca/live/run_state.py: LeaseRunStateRecord. SHA-256 over canonical JSON is the parameter
-- `Hashes`. A fingerprint is checked as the code does: 64 characters of 0-9 and a-f. Epochs and
-- sequences are natural numbers, so that the code's test for negative ones has no counterpart.
use Prim.Native.Char.{code}
use Prim.Native.String.{String}
use probe_rca.Prelude.{
  ℕ, ◌+◌, Bool, true, false, ◌&&◌, ◌||◌, not, Option, none, some, List, [], ◌∷◌, ltb, leb, list_beq,
  ◌==◌, nat_eq, string_eq, Result, ok, guard, ◌>>◌,
}
use probe_rca.Prelude.Keys.{set_of}
use probe_rca.Prelude.Texts.{text_length}

pub data RunStateError : Type 0 where
  invalid_schema incomplete_identity scope_unsorted config_invalid : RunStateError
  code_schema_missing incomplete_commit uncommitted_reference holder_invalid : RunStateError
  fingerprint_invalid window_invalid fingerprint_mismatch : RunStateError
  epoch_regress sequence_skip epoch_mismatch holder_mismatch generation_required : RunStateError
  annotation_too_long schema_annotation_invalid annotation_missing : RunStateError
  identity_mismatch instance_required : RunStateError
  stale_epoch stale_sequence stale_generation duplicate_commit stale_version : RunStateError
  changed_before_commit candidate_mismatch lease_held no_lease write_conflict : RunStateError
  lease_name_required duration_invalid limit_invalid : RunStateError

-- The fields that the record's fingerprint covers.
pub record RunStatePayload : Type 0 where
  pub schema_version : String
  pub record_type : String
  pub run_id : String
  pub cluster_id : String
  pub namespace_scope : List String
  pub leadership_epoch : ℕ
  pub holder_fingerprint : Option String
  pub committed_sequence : ℕ
  pub current_generation_id : Option String
  pub current_generation_fingerprint : Option String
  pub output_ledger_fingerprint : Option String
  pub output_bundle_fingerprint : Option String
  pub last_window_start_ns : Option ℕ
  pub last_window_end_ns : Option ℕ
  pub last_engine_state_fingerprint : Option String
  pub commit_fingerprint : Option String
  pub config_fingerprint : String
  pub code_schema_version : String

pub record LeaseRunStateRecord : Type 0 where
  pub payload : RunStatePayload
  pub open payload use *
  pub record_fingerprint : String

-- The arguments of `with_commit`.
pub record Commit : Type 0 where
  pub holder_fingerprint : String
  pub leadership_epoch : ℕ
  pub sequence : ℕ
  pub generation_id : String
  pub generation_fingerprint : String
  pub output_ledger_fingerprint : String
  pub output_bundle_fingerprint : String
  pub engine_state_fingerprint : String
  pub window_start_ns : ℕ
  pub window_end_ns : ℕ

-- `record_bytes` is the length of the canonical JSON of a record.
pub record Hashes : Type 0 where
  pub record_sha : RunStatePayload → String
  pub commit_sha : (previous : String) → Commit → String
  pub holder_sha : String → String
  pub memory_token_sha : (holder : String) (epoch resource_version : ℕ) → String
  pub lease_token_sha :
      (lease_uid namespace name : String) (holder : Option String) (epoch : ℕ) → String
  pub record_bytes : LeaseRunStateRecord → ℕ

abbrev is_hex : ℕ → Bool
is_hex c = (leb 48 c && leb c 57) || (leb 97 c && leb c 102)

unfoldable pub all_hex : String → Bool
all_hex String.[] = true
all_hex (String.◌∷◌ c s) = is_hex (code c) && all_hex s

-- _fingerprint
unfoldable pub is_sha : String → Bool
is_sha s = text_length s == 64 && all_hex s

abbrev pub is_sha_or_none : Option String → Bool
is_sha_or_none none = true
is_sha_or_none (some s) = is_sha s

abbrev pub is_some {ℓ} : {A : Type ℓ} → Option A → Bool
is_some none = false
is_some (some a) = true

abbrev pub is_named : Option String → Bool
is_named none = false
is_named (some s) = not (s == "")

-- The fields that a commit sets: all of them, or none.
unfoldable pub has_all_dependents : RunStatePayload → Bool
has_all_dependents r =
    is_some r.current_generation_id
    && is_some r.current_generation_fingerprint
    && is_some r.output_ledger_fingerprint
    && is_some r.output_bundle_fingerprint
    && is_some r.last_engine_state_fingerprint
    && is_some r.commit_fingerprint
    && is_some r.last_window_start_ns
    && is_some r.last_window_end_ns

unfoldable pub has_a_dependent : RunStatePayload → Bool
has_a_dependent r =
    is_some r.current_generation_id
    || is_some r.current_generation_fingerprint
    || is_some r.output_ledger_fingerprint
    || is_some r.output_bundle_fingerprint
    || is_some r.last_engine_state_fingerprint
    || is_some r.commit_fingerprint
    || is_some r.last_window_start_ns
    || is_some r.last_window_end_ns

abbrev ends_after : Option ℕ → Option ℕ → Bool
ends_after (some start) (some end) = ltb start end
ends_after _ _ = false

abbrev pub is_empty_scope : List String → Bool
is_empty_scope [] = true
is_empty_scope (x ∷ xs) = false

-- The tests of `_validated_with_fingerprint`, in its order, before the fingerprint.
unfoldable pub check_payload : RunStatePayload → Result RunStateError (Unit {0})
check_payload r = do
  guard (r.schema_version == "1.0" && r.record_type == "lease_run_state") invalid_schema
  guard (not (r.run_id == "" || r.cluster_id == "" || is_empty_scope r.namespace_scope))
      incomplete_identity
  guard (list_beq (set_of r.namespace_scope) r.namespace_scope) scope_unsorted
  guard (is_sha r.config_fingerprint) config_invalid
  guard (not (r.code_schema_version == "")) code_schema_missing
  guard
      (not (ltb 0 r.committed_sequence) || (is_named r.holder_fingerprint && has_all_dependents r))
      incomplete_commit
  guard (ltb 0 r.committed_sequence || not (has_a_dependent r)) uncommitted_reference
  guard (is_sha_or_none r.holder_fingerprint) holder_invalid
  guard
      (is_sha_or_none r.current_generation_fingerprint
        && is_sha_or_none r.output_ledger_fingerprint
        && is_sha_or_none r.output_bundle_fingerprint
        && is_sha_or_none r.last_engine_state_fingerprint
        && is_sha_or_none r.commit_fingerprint)
      fingerprint_invalid
  guard (not (ltb 0 r.committed_sequence) || ends_after r.last_window_start_ns r.last_window_end_ns)
      window_invalid

module _ (h : Hashes) where
  -- _validated_with_fingerprint
  unfoldable pub validated : LeaseRunStateRecord → Result RunStateError LeaseRunStateRecord
  validated r = do
    check_payload r.payload
    guard (r.record_fingerprint == "" || r.record_fingerprint == h.record_sha r.payload)
        fingerprint_mismatch
    ok (record { payload = r.payload; record_fingerprint = h.record_sha r.payload })

  -- A record whose fingerprint is still to be computed.
  abbrev pub unsigned : RunStatePayload → LeaseRunStateRecord
  unsigned p = record { payload = p; record_fingerprint = "" }

  unfoldable pub initial :
      (run_id cluster_id : String) (namespace_scope : List String)
      (config_fingerprint code_schema_version : String)
      → Result RunStateError LeaseRunStateRecord
  initial run_id cluster_id scope config code_schema = validated (
      unsigned (record {
        schema_version = "1.0";
        record_type = "lease_run_state";
        run_id = run_id;
        cluster_id = cluster_id;
        namespace_scope = set_of scope;
        leadership_epoch = 0;
        holder_fingerprint = none;
        committed_sequence = 0;
        current_generation_id = none;
        current_generation_fingerprint = none;
        output_ledger_fingerprint = none;
        output_bundle_fingerprint = none;
        last_window_start_ns = none;
        last_window_end_ns = none;
        last_engine_state_fingerprint = none;
        commit_fingerprint = none;
        config_fingerprint = config;
        code_schema_version = code_schema;
      }))

  unfoldable pub with_holder :
      (holder_fingerprint : String) (leadership_epoch : ℕ)
      → LeaseRunStateRecord
      → Result RunStateError LeaseRunStateRecord
  with_holder holder epoch r = do
    guard (is_sha holder) holder_invalid
    guard (leb r.leadership_epoch epoch) epoch_regress
    validated (
        unsigned
          (record (r.payload) { holder_fingerprint = some holder; leadership_epoch = epoch }))

  abbrev pub is_holder : Option String → String → Bool
  is_holder none s = false
  is_holder (some own) s = s == own

  unfoldable pub commit_payload : Commit → LeaseRunStateRecord → RunStatePayload
  commit_payload c r = record (r.payload) {
    committed_sequence = c.sequence;
    current_generation_id = some c.generation_id;
    current_generation_fingerprint = some c.generation_fingerprint;
    output_ledger_fingerprint = some c.output_ledger_fingerprint;
    output_bundle_fingerprint = some c.output_bundle_fingerprint;
    last_engine_state_fingerprint = some c.engine_state_fingerprint;
    last_window_start_ns = some c.window_start_ns;
    last_window_end_ns = some c.window_end_ns;
    commit_fingerprint = some (h.commit_sha r.record_fingerprint c);
  }

  unfoldable pub with_commit :
      Commit → LeaseRunStateRecord → Result RunStateError LeaseRunStateRecord
  with_commit c r = do
    guard (c.sequence == r.committed_sequence + 1) sequence_skip
    guard (c.leadership_epoch == r.leadership_epoch) epoch_mismatch
    guard (is_holder r.holder_fingerprint c.holder_fingerprint) holder_mismatch
    guard (not (c.generation_id == "")) generation_required
    validated (unsigned (commit_payload c r))
