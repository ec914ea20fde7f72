-- ===== src/Live/Samples/RunStates.antt =====
-- proberca/live/run_state.py: a run state that is acquired and committed, and applications of the
-- theorems.
use probe_rca.Prelude.{
  Bool, Option, ◌≡◌, ◌≢◌, refl, String, true, false, none, some, [], ◌∷◌, ◌==◌, nat_eq, string_eq,
  if◌then◌else◌, ok, err, arith, eq_iff,
}
use probe_rca.Prelude.Keys.{set_of, insert}
use probe_rca.Live.RunState.Record.{
  LeaseRunStateRecord, Commit, identity_mismatch, Hashes, initial, with_commit, validated,
  with_holder, check_payload, is_sha, all_hex, commit_payload, has_all_dependents, has_a_dependent,
}
use probe_rca.Live.RunState.Store.{
  LeaseStore, decode, owned, decode_payload, decode_run_state_annotation, is_same_run,
  is_valid_token, prepare_commit_from, acquisition, is_available, next_epoch, is_same_epoch,
  annotations_of, acquired_lease, token_of, read,
}
use probe_rca.Live.RunState.Memory.{
  LeaseFenceToken, CommitCasContext, is_current_token, MemoryStore, take_over, memory_token,
}
use probe_rca.Live.RunState.Memory
use probe_rca.Live.RunState.Writes.{
  try_acquire, try_acquire_from, commit_generation, commit_generation_from, committed,
  replace_record, check_candidate, write, prepare_commit, snapshot,
}
use probe_rca.Live.RunState.Commits.{
  own_annotations, committed_api, committed_lease, commit_generation-total,
  commit_generation-foreign,
}
use probe_rca.Live.Lease.{LeaseApi, LeaseState, create_or_replace, conflicts}
use probe_rca.Live.RunState.Fresh.{try_acquire-owned}
use probe_rca.Live.Coordinator.{Coordinator, LiveCoordinatorState, release_leadership, drain}
use probe_rca.Live.Coordinator.Leadership
use probe_rca.Live.Coordinator.Leadership.{leads, is_some, drains, Reach-IsLed}
use probe_rca.Live.RunState.LeaseSteps.{Accepts, CreatesOnce, acquires, committing, current}
use probe_rca.Live.RunState.LeaseRefines.{LeaseRun, here, next}
use probe_rca.Live.RunState.Runs.{Reaches, LeaseRun-Reach}

abbrev zeros : String
zeros = "0000000000000000000000000000000000000000000000000000000000000000"

abbrev ones : String
ones = "1111111111111111111111111111111111111111111111111111111111111111"

abbrev twos : String
twos = "2222222222222222222222222222222222222222222222222222222222222222"

abbrev hashes : Hashes
hashes = record {
  record_sha = λ p. if p.committed_sequence == 0 then zeros else ones;
  commit_sha = λ previous c. twos;
  holder_sha = λ name. if name == "a" then ones else twos;
  memory_token_sha = λ holder epoch version. zeros;
  lease_token_sha = λ uid namespace name holder epoch. zeros;
  record_bytes = λ r. 900;
}

ones_differ : ones ≢ zeros
ones_differ = ground (arith, eq_iff ones zeros)

abbrev first_record : LeaseRunStateRecord
first_record = record {
  payload = record {
    schema_version = "1.0";
    record_type = "lease_run_state";
    run_id = "run-1";
    cluster_id = "cluster";
    namespace_scope = "shop" ∷ [];
    leadership_epoch = 0;
    holder_fingerprint = none;
    committed_sequence = 0;
    current_generation_id = none;
    current_generation_fingerprint = none;
    output_ledger_fingerprint = none;
    output_bundle_fingerprint = none;
    last_window_start_ns = none;
    last_window_end_ns = none;
    last_engine_state_fingerprint = none;
    commit_fingerprint = none;
    config_fingerprint = zeros;
    code_schema_version = "v1";
  };
  record_fingerprint = zeros;
}

abbrev store : LeaseStore
store = record {
  namespace = "ops";
  name = "probe";
  initial_record = first_record;
  lease_duration_sec = 15;
  annotation_max_bytes = 1000;
  second = 1;
}

initial_ok : initial hashes "run-1" "cluster" ("shop" ∷ []) zeros "v1" ≡ ok first_record
unfolding initial validated check_payload set_of insert is_sha all_hex has_a_dependent
initial_ok = refl

abbrev no_lease_yet : LeaseApi
no_lease_yet = record { value = none; version = 0; uid = "u" }

-- The run, held by the replica "a" from the time 100 on.
abbrev held_record : LeaseRunStateRecord
held_record = record {
  payload = record (first_record.payload) { leadership_epoch = 1; holder_fingerprint = some ones };
  record_fingerprint = zeros;
}

abbrev held_lease : LeaseState
held_lease = record {
  holder = "a";
  renew_time = 100;
  duration = 15;
  resource_version = 1;
  lease_uid = "u";
  lease_transition = 1;
  annotations = own_annotations hashes store held_record;
  acquire_time = 100;
}

abbrev held_api : LeaseApi
held_api = record { value = some held_lease; version = 1; uid = "u" }

abbrev token : LeaseFenceToken
token = record {
  holder_fingerprint = some ones;
  leadership_epoch = 1;
  resource_version = 1;
  token_fingerprint = zeros;
  lease_uid = "u";
  lease_namespace = "ops";
  lease_name = "probe";
  expires_at = 115;
}

acquired : try_acquire_from hashes store "a" 100 none no_lease_yet ≡ ok (token, held_api)
unfolding try_acquire_from acquisition is_available next_epoch is_same_epoch with_holder
    annotations_of acquired_lease token_of write create_or_replace conflicts decode validated
    check_payload set_of insert is_sha all_hex has_a_dependent
acquired = refl

abbrev commit : Commit
commit = record {
  holder_fingerprint = ones;
  leadership_epoch = 1;
  sequence = 1;
  generation_id = "g1";
  generation_fingerprint = twos;
  output_ledger_fingerprint = twos;
  output_bundle_fingerprint = twos;
  engine_state_fingerprint = twos;
  window_start_ns = 10;
  window_end_ns = 20;
}

abbrev committed_record : LeaseRunStateRecord
committed_record = record {
  payload = record (held_record.payload) {
    committed_sequence = 1;
    current_generation_id = some "g1";
    current_generation_fingerprint = some twos;
    output_ledger_fingerprint = some twos;
    output_bundle_fingerprint = some twos;
    last_window_start_ns = some 10;
    last_window_end_ns = some 20;
    last_engine_state_fingerprint = some twos;
    commit_fingerprint = some twos;
  };
  record_fingerprint = ones;
}

made : with_commit hashes commit held_record ≡ ok committed_record
unfolding with_commit commit_payload has_all_dependents validated check_payload set_of insert is_sha
    all_hex
made = refl

committed_same : is_same_run first_record committed_record ≡ true
unfolding is_same_run
committed_same = refl

committed_encoded :
    annotations_of hashes store committed_record
    ≡ ok (own_annotations hashes store committed_record)
unfolding annotations_of
committed_encoded = refl

abbrev context : CommitCasContext
context = record {
  token = token;
  expected_sequence = 1;
  expected_generation_id = none;
  expected_resource_version = 1;
}

prepared : prepare_commit hashes store 105 token 1 none held_api ≡ ok context
unfolding prepare_commit prepare_commit_from owned decode decode_payload decode_run_state_annotation
    validated check_payload set_of insert is_sha all_hex has_all_dependents has_a_dependent
    is_same_run is_valid_token is_current_token
prepared = refl

held_owned : owned hashes store 105 token (some held_lease) ≡ ok (held_record, held_lease)
unfolding owned decode decode_payload decode_run_state_annotation validated check_payload set_of
    insert is_sha all_hex has_all_dependents has_a_dependent is_same_run is_valid_token
    is_current_token
held_owned = refl

first_decoded : decode hashes store no_lease_yet.value ≡ ok first_record
unfolding decode
first_decoded = refl

abbrev after_commit : LeaseApi
after_commit = committed_api hashes store held_api held_lease 106 committed_record

abbrev committed_held : LeaseState
committed_held = committed_lease hashes store held_api held_lease 106 committed_record

later_owned :
    owned hashes store 107 token (some committed_held) ≡ ok (committed_record, committed_held)
unfolding owned decode decode_payload decode_run_state_annotation validated check_payload set_of
    insert is_sha all_hex has_all_dependents has_a_dependent is_same_run is_valid_token
    is_current_token
later_owned = refl

first_valid : validated hashes first_record ≡ ok first_record
unfolding validated check_payload set_of insert is_sha all_hex has_a_dependent
first_valid = refl

committed_valid : validated hashes committed_record ≡ ok committed_record
unfolding validated check_payload set_of insert is_sha all_hex has_all_dependents
committed_valid = refl

committed_once :
    commit_generation_from hashes store 105 106 context committed_record (some held_lease) held_api
    ≡ ok (snapshot hashes store committed_record committed_held, after_commit)
unfolding commit_generation_from committed replace_record check_candidate annotations_of write
    create_or_replace conflicts
committed_once = ground (arith, held_owned, committed_valid)

commit_generation-total_example :
    commit_generation hashes store 105 106 context committed_record held_api
    ≡ ok (snapshot hashes store committed_record committed_held, after_commit)
commit_generation-total_example =
    commit_generation-total hashes store 105 106 token 1 none held_lease held_api commit context
      held_record committed_record refl held_owned prepared made ones_differ refl

-- The record of another run, which the holder commits.
abbrev foreign_record : LeaseRunStateRecord
foreign_record = record {
  payload = record (committed_record.payload) { run_id = "run-2" };
  record_fingerprint = ones;
}

foreign_valid : validated hashes foreign_record ≡ ok foreign_record
unfolding validated check_payload set_of insert is_sha all_hex has_all_dependents
foreign_valid = refl

foreign_differs : is_same_run first_record foreign_record ≡ false
unfolding is_same_run
foreign_differs = refl

foreign_committed :
    commit_generation hashes store 105 106 context foreign_record held_api
    ≡ ok (
      snapshot hashes store foreign_record
          (committed_lease hashes store held_api held_lease 106 foreign_record),
      committed_api hashes store held_api held_lease 106 foreign_record,
    )
unfolding commit_generation commit_generation_from committed replace_record check_candidate
    annotations_of write create_or_replace conflicts
foreign_committed = ground (arith, held_owned, foreign_valid)

commit_generation-foreign_example :
    (written : LeaseState) × ((committed_api hashes store held_api held_lease 106
        foreign_record).value
      ≡ some written)
    × (written.annotations ≡ own_annotations hashes store foreign_record)
    × (read hashes store (committed_api hashes store held_api held_lease 106 foreign_record)
        ≡ err identity_mismatch)
commit_generation-foreign_example =
    commit_generation-foreign hashes store 105 106 context foreign_record held_record held_lease
      (snapshot hashes store foreign_record
        (committed_lease hashes store held_api held_lease 106 foreign_record))
      held_api (committed_api hashes store held_api held_lease 106 foreign_record) refl held_owned
      foreign_valid ones_differ foreign_differs foreign_committed

abbrev is_absent : Option LeaseState → Bool
is_absent none = true
is_absent (some lease) = false

-- A creation is accepted where there is no lease.
abbrev accepts : Accepts
accepts api none = is_absent api.value
accepts api (some version) = true

absent : (value : Option LeaseState) → is_absent value ≡ true → value ≡ none
absent none h = refl
absent (some lease) h = ground (arith, h)

creates_once : CreatesOnce accepts
creates_once api h = absent api.value h

a_run : LeaseRun hashes store accepts no_lease_yet after_commit
a_run = next (next here (acquires "a" 100 none token (current refl) refl acquired)) (
    committing 105 106 context committed_record (some held_lease)
      (snapshot hashes store committed_record committed_held) (current refl) refl committed_same
      committed_once)

LeaseRun-Reach_example : Reaches hashes store first_record after_commit
LeaseRun-Reach_example =
    LeaseRun-Reach hashes store accepts first_record no_lease_yet creates_once first_valid
      first_decoded a_run

abbrev new_memory : MemoryStore
new_memory = record { current = first_record; resource_version = 0 }

abbrev held_memory : MemoryStore
held_memory = record { current = held_record; resource_version = 1 }

memory_acquired :
    Memory.try_acquire hashes "a" new_memory ≡ ok (memory_token hashes ones 1 1, held_memory)
unfolding Memory.try_acquire take_over with_holder validated check_payload set_of insert is_sha
    all_hex has_a_dependent
memory_acquired = refl

acquired_now : try_acquire hashes store "a" 100 no_lease_yet ≡ ok (token, held_api)
unfolding try_acquire
acquired_now = acquired

try_acquire-owned_example :
    (r : LeaseRunStateRecord) × (lease : LeaseState) × (held_api.value ≡ some lease)
    × (owned hashes store 100 token (some lease) ≡ ok (r, lease))
try_acquire-owned_example =
    try_acquire-owned hashes store "a" 100 no_lease_yet held_api token first_valid (omega arith)
      acquired_now

abbrev active_leader : Coordinator
active_leader = record {
  instance_fingerprint = "a";
  state = LiveCoordinatorState.leader_active;
  token = some token;
}

abbrev led_run :
    Leadership.Reach hashes store active_leader
      (release_leadership hashes store 105 106 (drain active_leader) held_api).1
led_run =
    Leadership.next (Leadership.next Leadership.here drains) (Leadership.releases 105 106 held_api)

Reach-IsLed_example :
    leads (release_leadership hashes store 105 106 (drain active_leader) held_api).1.state
    ≡ is_some (release_leadership hashes store 105 106 (drain active_leader) held_api).1.token
Reach-IsLed_example = Reach-IsLed hashes store active_leader refl led_run
