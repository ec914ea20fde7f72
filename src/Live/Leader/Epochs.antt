-- ===== src/Live/Leader/Epochs.antt =====
-- proberca/live/leader.py: leases and tokens over interleaved steps of two replicas.
use probe_rca.Prelude.{
  ℕ, ◌≡◌, ◌≢◌, true, none, some, arith, eq_iff, string_eq, nat_eq, inl, inr, Option-cases,
}
use probe_rca.Live.Lease.{
  LeaseState, LeaseFenceToken, Digest, LeaseApi, create_or_replace, stored, conflicts, create_token,
}
use probe_rca.Live.Leader.{
  Coordinator, acquiring, acquire, acquire_from, acquisition, token_for, is_same_epoch,
}
use probe_rca.Live.Leader.Fence.{acquire-enabled}

-- A write that was prepared from a read is refused if another write came between: the replica
-- stands by, holds no token, and the stored lease is untouched.
pub acquire_from-stale :
    (digest : Digest) (c : Coordinator) (read current : LeaseState) (api : LeaseApi) (now : ℕ)
    → api.value ≡ some current
    → current.resource_version ≢ read.resource_version
    → ((acquire_from digest c (some read) api now).2 ≡ none)
      × ((acquire_from digest c (some read) api now).1 ≡ api)
      × ((acquire_from digest c (some read) api now).0.fence_token ≡ none)
unfolding acquire_from create_or_replace conflicts
acquire_from-stale digest c read current api now held differ = ground arith

-- The replica's token carries the epoch of the lease, as long as the lease is the replica's.
pub record IsCoherent (c : Coordinator) (api : LeaseApi) : Type 0 where
  pub at :
      (t : LeaseFenceToken) (l : LeaseState)
      → c.fence_token ≡ some t
      → api.value ≡ some l
      → l.holder ≡ c.identity
      → (t.lease_uid ≡ l.lease_uid) × (t.lease_transition ≡ l.lease_transition)

abbrev pub written_by : Coordinator → LeaseApi → ℕ → LeaseState
written_by c api now = stored api (acquisition c api.value now)

pub token_for-epoch :
    (digest : Digest) (c : Coordinator) (api : LeaseApi) (now : ℕ)
    → IsCoherent c api
    → ((token_for digest c api.value now (written_by c api now)).lease_uid
        ≡ (written_by c api now).lease_uid)
      × ((token_for digest c api.value now (written_by c api now)).lease_transition
          ≡ (written_by c api now).lease_transition)
unfolding token_for create_token acquisition is_same_epoch
token_for-epoch digest c api now h = elim (Option-cases c.fence_token) [
  | inl no_token ↦ (ground arith, ground arith)
  | inr (t, held) ↦ elim (Option-cases api.value) [
    | inl no_lease ↦ (ground arith, ground arith)
    | inr (l, lease) ↦ (
      ground (arith, h.at t l held lease, eq_iff l.holder c.identity),
      ground (arith, h.at t l held lease, eq_iff l.holder c.identity),
    )
  ]
]

acquire_from-IsCoherent :
    (digest : Digest) (c : Coordinator) (api : LeaseApi) (now : ℕ)
    → IsCoherent c api
    → IsCoherent
        (acquire_from digest c api.value api now).0
        (acquire_from digest c api.value api now).1
unfolding acquire_from create_or_replace
acquire_from-IsCoherent digest c api now h = record {
  at = λ t l p q same. ground (arith, token_for-epoch digest c api now h);
}

pub acquire-IsCoherent :
    (digest : Digest) (c : Coordinator) (api : LeaseApi) (now : ℕ)
    → c.config.enabled ≡ true
    → IsCoherent c api
    → IsCoherent (acquire digest c api now).0 (acquire digest c api now).1
acquire-IsCoherent digest c api now enabled h =
    rw (acquire-enabled digest c api now enabled) (
      acquire_from-IsCoherent digest (record c { state = acquiring }) api now
        (record { at = h.at }))
