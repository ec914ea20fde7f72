-- ===== src/Live/Leader.antt =====
-- proberca/live/leader.py: the coordinator of one replica and its write fence.
pub mod Fence
pub mod Epochs
pub mod Replicas
use probe_rca.Prelude.{
  ℕ, ◌+◌, String, Bool, true, false, ◌&&◌, ◌||◌, not, Option, none, some, List, [], ◌∷◌, mem, leb,
  ltb, ◌==◌, nat_eq, string_eq, if◌then◌else◌, Result, ok, err,
}
use probe_rca.Live.Lease.{
  LeaseState, no_annotations, LeaseFenceToken, Digest, create_token, token_beq, LeaseApi,
  create_or_replace,
}

pub data LeadershipState : Type 0 where
  standby acquiring leader_initializing leader_active leader_draining lost : LeadershipState

pub record LeaseConfig : Type 0 where
  pub enabled : Bool
  pub lease_namespace : String
  pub lease_name : String
  pub lease_duration_sec : ℕ

pub record Coordinator : Type 0 where
  pub config : LeaseConfig
  pub identity : String
  pub state : LeadershipState
  pub fence_token : Option LeaseFenceToken
  pub loss_reason : Option String

pub data LeadershipFenceError : Type 0 where
  unknown_operation activation_fence_invalid active_fence_required : LeadershipFenceError

abbrev pub write_operations : List String
write_operations =
    "engine_begin" ∷ "engine_complete" ∷ "output_publish" ∷ "generation_prepare"
    ∷ "generation_publish" ∷ "current_replace" ∷ "sequence_commit" ∷ "retention_cleanup" ∷ []

abbrev pub is_active : LeadershipState → Bool
is_active leader_active = true
is_active _ = false

abbrev pub is_initializing : LeadershipState → Bool
is_initializing leader_initializing = true
is_initializing _ = false

abbrev pub is_draining : LeadershipState → Bool
is_draining leader_draining = true
is_draining _ = false

-- `is_leader`, `can_commit`
unfoldable pub is_leader : Coordinator → Bool
is_leader c = is_active c.state

unfoldable pub current_matches : Coordinator → ℕ → Option LeaseState → LeaseFenceToken → Bool
current_matches c now none token = false
current_matches c now (some lease) token =
    lease.holder == c.identity
    && lease.lease_uid == token.lease_uid
    && lease.lease_transition == token.lease_transition
    && ltb now (lease.renew_time + lease.duration)

abbrev pub is_fence_of : Coordinator → LeaseFenceToken → Bool
is_fence_of c token = elim c.fence_token [ none ↦ false | some own ↦ token_beq token own ]

unfoldable pub validate_fence :
    Coordinator → LeaseApi → (now : ℕ) → Option LeaseFenceToken → (require_active : Bool) → Bool
validate_fence c api now none require_active = false
validate_fence c api now (some token) require_active =
    if not (is_fence_of c token)
    then false
    else if require_active && not (is_active c.state)
    then false
    else if not c.config.enabled
    then is_initializing c.state || is_active c.state || is_draining c.state
    else current_matches c now api.value token

unfoldable pub authorize :
    Coordinator
    → LeaseApi
    → (now : ℕ) → String
    → Option LeaseFenceToken
    → Result LeadershipFenceError (Unit {0})
authorize c api now operation token =
    if not (mem operation write_operations)
    then err unknown_operation
    else if validate_fence c api now token true
    then ok tt
    else err active_fence_required

unfoldable pub begin_draining : Coordinator → Coordinator
begin_draining c = if is_active c.state then record c { state = leader_draining } else c

unfoldable pub lose : String → Coordinator → Coordinator
lose reason c = record c { state = lost; loss_reason = some reason; fence_token = none }

abbrev has_expired : LeaseState → ℕ → Bool
has_expired lease now = leb (lease.renew_time + lease.duration) now

-- The lease is free, is the coordinator's own, or has run out.
unfoldable pub is_available : Coordinator → Option LeaseState → ℕ → Bool
is_available c none now = true
is_available c (some lease) now = lease.holder == c.identity || has_expired lease now

-- The coordinator's own lease, still running.
unfoldable pub is_same_epoch : Coordinator → Option LeaseState → ℕ → Bool
is_same_epoch c none now = false
is_same_epoch c (some lease) now =
    lease.holder == c.identity && ltb now (lease.renew_time + lease.duration)

abbrev pub transition_of : Option LeaseState → ℕ
transition_of none = 0
transition_of (some lease) = lease.lease_transition

abbrev pub version_of : Option LeaseState → Option ℕ
version_of none = none
version_of (some lease) = some lease.resource_version

-- The lease that an acquisition writes, from the lease that it read.
unfoldable pub acquisition : Coordinator → Option LeaseState → ℕ → LeaseState
acquisition c lease now = record {
  holder = c.identity;
  renew_time = now;
  duration = c.config.lease_duration_sec;
  resource_version = elim lease [ none ↦ 0 | some old ↦ old.resource_version ];
  lease_uid = elim lease [ none ↦ "" | some old ↦ old.lease_uid ];
  lease_transition =
      if is_same_epoch c lease now then transition_of lease else transition_of lease + 1;
  annotations = no_annotations;
  acquire_time = 0;
}

abbrev stand_by : Coordinator → Coordinator
stand_by c = record c { state = standby; fence_token = none }

abbrev pub Acquired : Type 0
Acquired = Coordinator × LeaseApi × Option LeaseFenceToken

-- The token of a running epoch is kept; a new epoch gets a new one.
unfoldable pub token_for :
    Digest → Coordinator → Option LeaseState → (now : ℕ) → LeaseState → LeaseFenceToken
token_for digest c lease now written =
    let created =
      create_token digest c.config.lease_namespace c.config.lease_name written.lease_uid c.identity
        written.lease_transition now written.resource_version in
    elim c.fence_token [
      | none ↦ created
      | some token ↦ if is_same_epoch c lease now then token else created
    ]

-- `acquire` from the read of the lease on: `lease` is what was read, and `api` is what the write
-- meets, which other replicas may have changed since.
unfoldable pub acquire_from :
    Digest → Coordinator → Option LeaseState → LeaseApi → (now : ℕ) → Acquired
acquire_from digest c lease api now =
    if not (is_available c lease now)
    then (stand_by c, api, none)
    else elim (create_or_replace api (acquisition c lease now) (version_of lease)) [
      | err _ ↦ (stand_by c, api, none)
      | ok (written, api') ↦
          let token = token_for digest c lease now written in
          (
            record c { state = leader_initializing; fence_token = some token; loss_reason = none },
            api',
            some token,
          )
    ]

-- `acquire` with leader election switched off.
unfoldable pub acquire_local : Digest → Coordinator → LeaseApi → (now : ℕ) → Acquired
acquire_local digest c api now =
    let token = create_token digest "local" "single-instance" "local" c.identity 1 now 1 in
    (record c { state = leader_initializing; fence_token = some token }, api, some token)

unfoldable pub acquire : Digest → Coordinator → LeaseApi → (now : ℕ) → Acquired
acquire digest c api now =
    if c.config.enabled
    then acquire_from digest (record c { state = acquiring }) api.value api now
    else acquire_local digest c api now

unfoldable pub activate :
    Coordinator
    → LeaseApi
    → (now : ℕ) → Option LeaseFenceToken
    → Result LeadershipFenceError (Unit {0}) × Coordinator
activate c api now token =
    if is_initializing c.state && validate_fence c api now token false
    then (ok tt, record c { state = leader_active })
    else (err activation_fence_invalid, lose "activation_fence_invalid" c)

abbrev pub Renewed : Type 0
Renewed = Bool × Coordinator × LeaseApi

abbrev renewal : Coordinator → LeaseState → ℕ → LeaseState
renewal c lease now = record lease {
  holder = c.identity;
  renew_time = now;
  duration = c.config.lease_duration_sec;
  annotations = no_annotations;
  acquire_time = 0;
}

-- `renew` from the read of the lease on, as for `acquire_from`. `now` is the clock at the test of
-- the lease, and `later` the time that is written.
unfoldable pub renew_from :
    Coordinator → Option LeaseState → LeaseApi → (now later : ℕ) → LeaseFenceToken → Renewed
renew_from c none api now later token = (false, lose "lease_epoch_changed" c, api)
renew_from c (some lease) api now later token =
    if not (current_matches c now (some lease) token)
    then (false, lose "lease_epoch_changed" c, api)
    else elim (create_or_replace api (renewal c lease later) (some lease.resource_version)) [
      | err _ ↦ (false, lose "lease_renew_failed" c, api)
      | ok (written, api') ↦ (true, c, api')
    ]

unfoldable pub renew : Coordinator → LeaseApi → (now later : ℕ) → Renewed
renew c api now later =
    if is_active c.state || is_initializing c.state
    then elim c.fence_token [
      | none ↦ (false, c, api)
      | some token ↦ renew_from c api.value api now later token
    ]
    else (false, c, api)

-- `try_acquire` after `acquire`: the lease is read again, as other replicas may have left it by
-- then, and so is the clock. A raise leaves the state that `activate` left.
unfoldable pub activate_acquired :
    Acquired
    → (again : LeaseApi) → (later : ℕ) → Result LeadershipFenceError Bool × Coordinator × LeaseApi
activate_acquired (c, api, none) again later = (ok false, c, api)
activate_acquired (c, api, some token) again later =
    let (outcome, c') = activate c again later (some token) in
    elim outcome [ ok _ ↦ (ok true, c', again) | err e ↦ (err e, c', again) ]

-- `now` and `later` are the two readings of the clock, and `again` is the lease API at the second.
unfoldable pub try_acquire :
    Digest
    → Coordinator
    → (api again : LeaseApi) → (now later : ℕ)
    → Result LeadershipFenceError Bool × Coordinator × LeaseApi
try_acquire digest c api again now later =
    if is_active c.state
    then (let (held, c', api') = renew c api now later in (ok held, c', api'))
    else activate_acquired (acquire digest c api now) again later
