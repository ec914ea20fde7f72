-- ===== src/Live/Lease.antt =====
-- proberca/live/leader.py: the lease, the fence token and the in-memory lease API.
-- Times are read in a fixed unit of the clock. A resourceVersion is the number whose decimal text
-- the API returns, 0 for the empty text. SHA-256 over canonical JSON is the parameter `Digest`.
-- The Kubernetes adapter of the same file is not modelled: the in-memory API stands for it.
use probe_rca.Prelude.{
  ℕ, ◌+◌, String, Bool, false, ◌&&◌, not, Option, none, some, ◌==◌, nat_eq, string_eq,
  if◌then◌else◌, Result, ok, err,
}
use probe_rca.Live.RunState.Record.{LeaseRunStateRecord}

-- The annotations of a lease that the code writes: the schema of the run state, and the run state
-- as the object that its JSON text stands for.
pub record Annotations : Type 0 where
  pub schema : Option String
  pub run_state : Option LeaseRunStateRecord

abbrev pub no_annotations : Annotations
no_annotations = record { schema = none; run_state = none }

pub record LeaseState : Type 0 where
  pub holder : String
  pub renew_time : ℕ
  pub duration : ℕ
  pub resource_version : ℕ
  pub lease_uid : String
  pub lease_transition : ℕ
  pub annotations : Annotations
  pub acquire_time : ℕ

-- What the token's fingerprint is computed from.
pub record TokenPayload : Type 0 where
  pub lease_namespace : String
  pub lease_name : String
  pub lease_uid : String
  pub holder_identity_fingerprint : String
  pub lease_transition : ℕ
  pub acquire_time : ℕ
  pub acquisition_resource_version : ℕ

pub record LeaseFenceToken : Type 0 where
  pub payload : TokenPayload
  pub open payload use *
  pub token_fingerprint : String

pub record Digest : Type 0 where
  pub holder_digest : String → String
  pub token_digest : TokenPayload → String

-- LeaseFenceToken.create
unfoldable pub create_token :
    Digest
    → (namespace name lease_uid holder_identity : String)
    → (lease_transition acquire_time resource_version : ℕ) → LeaseFenceToken
create_token digest namespace name lease_uid holder_identity transition acquire_time version =
    let payload : TokenPayload = record {
      lease_namespace = namespace;
      lease_name = name;
      lease_uid = lease_uid;
      holder_identity_fingerprint = digest.holder_digest holder_identity;
      lease_transition = transition;
      acquire_time = acquire_time;
      acquisition_resource_version = version;
    } in
    record { payload = payload; token_fingerprint = digest.token_digest payload }

-- The generated equality of the frozen dataclass.
unfoldable pub token_beq : LeaseFenceToken → LeaseFenceToken → Bool
token_beq a b =
    a.lease_namespace == b.lease_namespace
    && a.lease_name == b.lease_name
    && a.lease_uid == b.lease_uid
    && a.holder_identity_fingerprint == b.holder_identity_fingerprint
    && a.lease_transition == b.lease_transition
    && a.acquire_time == b.acquire_time
    && a.acquisition_resource_version == b.acquisition_resource_version
    && a.token_fingerprint == b.token_fingerprint

-- InMemoryLeaseAPI
pub record LeaseApi : Type 0 where
  pub value : Option LeaseState
  pub version : ℕ
  pub uid : String

pub data LeaseConflict : Type 0 where
  resource_version_conflict : LeaseConflict

unfoldable pub conflicts : LeaseApi → Option ℕ → Bool
conflicts api none = false
conflicts api (some expected) = elim api.value [
  | none ↦ false
  | some current ↦ not (current.resource_version == expected)
]

abbrev pub current_uid : LeaseApi → String
current_uid api = elim api.value [ none ↦ api.uid | some current ↦ current.lease_uid ]

-- The lease as the API stores it: with the next version, and the uid of the first one.
abbrev pub stored : LeaseApi → LeaseState → LeaseState
stored api value = record value { resource_version = api.version + 1; lease_uid = current_uid api }

unfoldable pub create_or_replace :
    LeaseApi → LeaseState → Option ℕ → Result LeaseConflict (LeaseState × LeaseApi)
create_or_replace api value expected =
    if conflicts api expected
    then err resource_version_conflict
    else ok (
      stored api value,
      record api { value = some (stored api value); version = api.version + 1 },
    )
