-- ===== src/Live/Coordinator.antt =====
-- proberca/live/coordinator.py: LiveCommitCoordinator's leadership: how its state and its token
-- follow from the calls of the Kubernetes run-state store. The engine, the generations and the
-- output view are left out. Each method has the lease API after it.
pub mod Leadership
use probe_rca.Prelude.{
  ℕ, String, Bool, true, false, ◌&&◌, ◌||◌, not, Option, none, some, ltb, Result, ok, err,
  if◌then◌else◌,
}
use probe_rca.Live.RunState.Record.{
  Hashes, RunStateError, stale_epoch, stale_sequence, stale_generation, duplicate_commit,
  stale_version, changed_before_commit, candidate_mismatch, lease_held, no_lease, write_conflict,
}
use probe_rca.Live.RunState.Memory.{LeaseFenceToken}
use probe_rca.Live.RunState.Store.{LeaseStore}
use probe_rca.Live.RunState.Writes.{try_acquire, renew, release}
use probe_rca.Live.Lease.{LeaseApi}

pub data LiveCoordinatorState : Type 0 where
  standby acquiring leader_recovering leader_active leader_draining : LiveCoordinatorState
  committed_output_degraded lost fatal : LiveCoordinatorState

pub data CoordinatorError : Type 0 where
  not_available not_renewable : CoordinatorError
  store_raised : RunStateError → CoordinatorError

pub record Coordinator : Type 0 where
  pub instance_fingerprint : String
  pub state : LiveCoordinatorState
  pub token : Option LeaseFenceToken

-- What a method raises or returns, and the coordinator and the API after it.
abbrev pub Outcome : Type 0 → Type 0
Outcome A = Result CoordinatorError A × Coordinator × LeaseApi

-- The errors that are a LeaseRunStateConflict.
unfoldable pub is_conflict : RunStateError → Bool
is_conflict stale_epoch = true
is_conflict stale_sequence = true
is_conflict stale_generation = true
is_conflict duplicate_commit = true
is_conflict stale_version = true
is_conflict changed_before_commit = true
is_conflict candidate_mismatch = true
is_conflict lease_held = true
is_conflict no_lease = true
is_conflict write_conflict = true
is_conflict _ = false

unfoldable pub can_acquire : LiveCoordinatorState → Bool
can_acquire standby = true
can_acquire lost = true
can_acquire _ = false

unfoldable pub can_renew : LiveCoordinatorState → Bool
can_renew leader_recovering = true
can_renew leader_active = true
can_renew committed_output_degraded = true
can_renew _ = false

unfoldable pub drained : LiveCoordinatorState → LiveCoordinatorState
drained leader_active = leader_draining
drained state = state

unfoldable pub drain : Coordinator → Coordinator
drain c = record c { state = drained c.state }

module _ (h : Hashes) (s : LeaseStore) where
  -- `acquire_and_recover` from the store's answer on.
  unfoldable pub acquired :
      Coordinator
      → LeaseApi
      → Result RunStateError (LeaseFenceToken × LeaseApi)
      → Outcome LeaseFenceToken
  acquired c api (ok (token, api')) =
      (ok token, record c { state = leader_recovering; token = some token }, api')
  acquired c api (err e) = (
    err (store_raised e),
    if is_conflict e
        then record c { state = standby; token = none }
        else record c { state = acquiring },
    api,
  )

  unfoldable pub acquire_and_recover : (now : ℕ) → Coordinator → LeaseApi → Outcome LeaseFenceToken
  acquire_and_recover now c api =
      if can_acquire c.state
      then acquired c api (try_acquire h s c.instance_fingerprint now api)
      else (err not_available, c, api)

  -- `renew` from the store's answer on.
  unfoldable pub renewed :
      Coordinator
      → LeaseApi
      → Result RunStateError (LeaseFenceToken × LeaseApi)
      → Outcome LeaseFenceToken
  renewed c api (ok (token, api')) = (ok token, record c { token = some token }, api')
  renewed c api (err e) = (
    err (store_raised e),
    if is_conflict e then record c { state = lost; token = none } else c,
    api,
  )

  unfoldable pub renew_held :
      (now later : ℕ) → Coordinator → LeaseApi → Option LeaseFenceToken → Outcome LeaseFenceToken
  renew_held now later c api none = (err not_renewable, c, api)
  renew_held now later c api (some token) =
      if can_renew c.state
      then renewed c api (renew h s now later token api)
      else (err not_renewable, c, api)

  unfoldable pub renew_leadership :
      (now later : ℕ) → Coordinator → LeaseApi → Outcome LeaseFenceToken
  renew_leadership now later c api = renew_held now later c api c.token

  -- `release` from the store's answer on.
  unfoldable pub released :
      Coordinator → LeaseApi → Result RunStateError LeaseApi → Outcome (Unit {0})
  released c api (ok api') = (ok tt, record c { state = standby; token = none }, api')
  released c api (err e) = (err (store_raised e), c, api)

  unfoldable pub release_held :
      (now later : ℕ) → Coordinator → LeaseApi → Option LeaseFenceToken → Outcome (Unit {0})
  release_held now later c api none = (ok tt, record c { state = standby; token = none }, api)
  release_held now later c api (some token) = released c api (release h s now later token api)

  unfoldable pub release_leadership : (now later : ℕ) → Coordinator → LeaseApi → Outcome (Unit {0})
  release_leadership now later c api = release_held now later c api c.token

abbrev pub new : (instance_fingerprint : String) → Coordinator
new instance = record { instance_fingerprint = instance; state = standby; token = none }
