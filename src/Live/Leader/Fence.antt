-- ===== src/Live/Leader/Fence.antt =====
-- proberca/live/leader.py: who passes the write fence.
use text.Mathlib.TextPositions.{eq_refl}
use probe_rca.Prelude.{
  ℕ, ◌<◌, ◌+◌, ◌≡◌, ◌≢◌, ◌↔◌, refl, String, Bool, true, false, Option, none, some, mem, arith,
  eq_iff, string_eq, ◌⊎◌, ok, Bool-cases, inl, inr,
}
use probe_rca.Live.Lease.{
  LeaseState, LeaseFenceToken, Digest, token_beq, LeaseApi, create_or_replace, stored,
}
use probe_rca.Live.Leader.{
  Coordinator, current_matches, validate_fence, authorize, write_operations, is_active, is_fence_of,
  acquiring, acquire, acquire_from, acquisition,
}

pub token_beq_refl : (t : LeaseFenceToken) → token_beq t t ≡ true
unfolding token_beq
token_beq_refl t = ground (
  arith,
  eq_refl t.lease_namespace,
  eq_refl t.lease_name,
  eq_refl t.lease_uid,
  eq_refl t.holder_identity_fingerprint,
  eq_refl t.token_fingerprint,
)

-- A fence that holds with election on is held through the stored lease, which names the replica,
-- its token's epoch, and has not run out.
validate_fence-lease :
    (c : Coordinator) (api : LeaseApi) (now : ℕ) (t : LeaseFenceToken) (require_active : Bool)
    → c.config.enabled ≡ true
    → validate_fence c api now (some t) require_active ≡ true
    → current_matches c now api.value t ≡ true
unfolding validate_fence
validate_fence-lease c api now t r enabled h = ground arith

matches-holder :
    (c : Coordinator) (now : ℕ) (lease : Option LeaseState) (t : LeaseFenceToken)
    → current_matches c now lease t ≡ true
    → (l : LeaseState) × (lease ≡ some l)
      × (l.holder ≡ c.identity)
      × (now < l.renew_time + l.duration)
unfolding current_matches
matches-holder c now none t h = cc
matches-holder c now (some l) t h =
    (l, refl, ground (arith, eq_iff l.holder c.identity), ground arith)

-- With election on, two replicas of different identities never both pass the fence on one lease
-- at one time, whatever tokens they hold.
pub validate_fence-exclusive :
    (a b : Coordinator) (api : LeaseApi) (now : ℕ) (t u : LeaseFenceToken) (q r : Bool)
    → a.config.enabled ≡ true
    → b.config.enabled ≡ true
    → a.identity ≢ b.identity
    → validate_fence a api now (some t) q ≡ true
    → validate_fence b api now (some u) r ≡ false
validate_fence-exclusive a b api now t u q r on_a on_b differ pass =
    elim (Bool-cases (validate_fence b api now (some u) r)) [
      | inr refused ↦ refused
      | inl also ↦
          let left =
            matches-holder a now api.value t (validate_fence-lease a api now t q on_a pass) in
          let right =
            matches-holder b now api.value u (validate_fence-lease b api now u r on_b also) in
          absurd (differ (cc (left.1, right.1, left.2, right.2)))
    ]

-- `authorize` lets a durable operation pass exactly if it is a fenced operation, the replica is
-- the active leader, the token is the replica's own, and with election on the stored lease still
-- carries the replica's identity and the token's epoch and has not run out.
pub authorize_exact :
    (c : Coordinator) (api : LeaseApi) (now : ℕ) (operation : String) (t : LeaseFenceToken)
    → (authorize c api now operation (some t) ≡ ok tt) ↔ (
        (mem operation write_operations ≡ true)
        × (is_fence_of c t ≡ true)
        × (is_active c.state ≡ true)
        × ((c.config.enabled ≡ false) ⊎ (current_matches c now api.value t ≡ true)))
unfolding authorize validate_fence
authorize_exact c api now operation t = (λ h. ground arith, λ h. ground arith)

-- An acquisition that returns a token has stored its lease.
pub acquire_from-stored :
    (digest : Digest) (c : Coordinator) (lease : Option LeaseState) (api : LeaseApi) (now : ℕ)
    (u : LeaseFenceToken)
    → (acquire_from digest c lease api now).2 ≡ some u
    → (acquire_from digest c lease api now).1.value ≡ some (stored api (acquisition c lease now))
unfolding acquire_from create_or_replace
acquire_from-stored digest c lease api now u got = ground arith

pub acquire-enabled :
    (digest : Digest) (c : Coordinator) (api : LeaseApi) (now : ℕ)
    → c.config.enabled ≡ true
    → acquire digest c api now
      ≡ acquire_from digest (record c { state = acquiring }) api.value api now
unfolding acquire
acquire-enabled digest c api now enabled = simp enabled

pub acquire-stored :
    (digest : Digest) (c : Coordinator) (api : LeaseApi) (now : ℕ) (u : LeaseFenceToken)
    → c.config.enabled ≡ true
    → (acquire digest c api now).2 ≡ some u
    → (acquire digest c api now).1.value
      ≡ some (stored api (acquisition (record c { state = acquiring }) api.value now))
acquire-stored digest c api now u enabled got =
    let opened = acquire-enabled digest c api now enabled in
    rw opened (acquire_from-stored digest _ api.value api now u (rw opened at got))

-- Once another replica has acquired the lease, no token of this one passes the fence, at no later
-- reading of the clock, while that acquisition stands.
pub acquire_fences_out :
    (digest : Digest) (a b : Coordinator) (api : LeaseApi) (now later : ℕ) (t u : LeaseFenceToken)
    (q : Bool)
    → a.config.enabled ≡ true
    → b.config.enabled ≡ true
    → a.identity ≢ b.identity
    → (acquire digest b api now).2 ≡ some u
    → validate_fence a (acquire digest b api now).1 later (some t) q ≡ false
unfolding acquisition
acquire_fences_out digest a b api now later t u q on_a on_b differ got =
    let after = (acquire digest b api now).1 in
    elim (Bool-cases (validate_fence a after later (some t) q)) [
      | inr refused ↦ refused
      | inl pass ↦
          let mine =
            matches-holder a later after.value t
              (validate_fence-lease a after later t q on_a pass) in
          let theirs = acquire-stored digest b api now u on_b got in
          absurd (differ (cc (mine.1, mine.2, theirs)))
    ]
