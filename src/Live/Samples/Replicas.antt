-- ===== src/Live/Samples/Replicas.antt =====
-- proberca/live/leader.py: two replicas, the second of which takes the lease.
use probe_rca.Prelude.{◌≡◌, ◌≢◌, refl, String, true, false, none, some, arith, eq_iff}
use probe_rca.Live.Lease.{
  no_annotations, LeaseState, LeaseFenceToken, Digest, LeaseApi, create_or_replace, create_token,
  conflicts, token_beq,
}
use probe_rca.Live.Leader.{
  Coordinator, standby, leader_active, validate_fence, acquire, acquire_from, try_acquire,
  is_available, acquisition, token_for, current_matches, is_same_epoch,
}
use probe_rca.Live.Leader.Fence.{acquire_fences_out}
use probe_rca.Live.Leader.Epochs.{IsCoherent}
use probe_rca.Live.Leader.Replicas.{
  IsSettled, Replicas, IsSound, here, next, by_right, acquires, perform, Reach-IsSound,
  try_acquire-settles,
}

abbrev digest : Digest
digest = record { holder_digest = λ s. s; token_digest = λ p. p.lease_uid }

abbrev replica : String → Coordinator
replica identity = record {
  config = record {
    enabled = true;
    lease_namespace = "monitoring";
    lease_name = "proberca";
    lease_duration_sec = 15;
  };
  identity = identity;
  state = standby;
  fence_token = none;
  loss_reason = none;
}

abbrev empty_api : LeaseApi
empty_api = record { value = none; version = 0; uid = "uid" }

abbrev lease : LeaseState
lease = record {
  holder = "b";
  renew_time = 100;
  duration = 15;
  resource_version = 1;
  lease_uid = "uid";
  lease_transition = 1;
  annotations = no_annotations;
  acquire_time = 0;
}

abbrev taken_api : LeaseApi
taken_api = record { value = some lease; version = 1; uid = "uid" }

abbrev pub token : LeaseFenceToken
token = record {
  payload = record {
    lease_namespace = "monitoring";
    lease_name = "proberca";
    lease_uid = "uid";
    holder_identity_fingerprint = "b";
    lease_transition = 1;
    acquire_time = 100;
    acquisition_resource_version = 1;
  };
  token_fingerprint = "uid";
}

abbrev a_name : String
a_name = "a"

abbrev b_name : String
b_name = "b"

a_differs : a_name ≢ b_name
a_differs e = absurd (ground (arith, eq_iff "a" "b"))

abbrev leader : Coordinator
leader = record (replica "b") { state = leader_active; fence_token = some token }

leader_passes : validate_fence leader taken_api 105 (some token) true ≡ true
unfolding validate_fence current_matches token_beq
leader_passes = refl

b_differs : b_name ≢ a_name
b_differs e = absurd (ground (arith, eq_iff "b" "a"))

acquired_lem : (acquire digest (replica "b") empty_api 100).2 ≡ some token
unfolding acquire acquire_from is_available acquisition token_for is_same_epoch create_or_replace
    create_token conflicts
acquired_lem = refl

acquire_fences_out_example :
    validate_fence
      (replica "a")
      (acquire digest (replica "b") empty_api 100).1
      500
      (some token)
      true
    ≡ false
acquire_fences_out_example =
    acquire_fences_out digest (replica "a") (replica "b") empty_api 100 500 token token true refl
      refl a_differs acquired_lem

abbrev old_lease : LeaseState
old_lease = record lease { resource_version = 0 }

moved_on : lease.resource_version ≢ old_lease.resource_version
moved_on e = omega arith

fresh-IsCoherent : (identity : String) → IsCoherent (replica identity) empty_api
fresh-IsCoherent identity = record { at = λ t l held found same. cc }

abbrev pair : Replicas
pair = record { left = replica "a"; right = replica "b"; api = empty_api }

pair-IsSound : IsSound pair
pair-IsSound = record {
  left_enabled = refl;
  right_enabled = refl;
  differ = a_differs;
  left_coherent = fresh-IsCoherent "a";
  right_coherent = fresh-IsCoherent "b";
}

abbrev pair_after : Replicas
pair_after = record pair {
  right = (perform digest (acquires 100) (replica "b") empty_api).0;
  api = (perform digest (acquires 100) (replica "b") empty_api).1;
}

Reach-IsSound_example : IsSound pair_after
Reach-IsSound_example =
    Reach-IsSound {digest = digest} pair-IsSound (next here (by_right (acquires 100) pair))

try_acquire-settles_example :
    IsSettled taken_api 103 (try_acquire digest (replica "b") empty_api taken_api 100 103)
try_acquire-settles_example =
    try_acquire-settles digest (replica "b") empty_api taken_api 100 103 refl
