-- ===== src/Live/Leader/Replicas.antt =====
-- proberca/live/leader.py: two replicas that take turns on one lease.
use probe_rca.Prelude.{
  not, if-keeps, err, ◌&&◌, Result, ℕ, ◌≡◌, ◌≢◌, ◌⊎◌, refl, sym, String, Bool, true, false, Option,
  none, some, arith, eq_iff, string_eq, nat_eq, ok, Bool-cases, inl, inr, Option-cases,
}
use probe_rca.Live.Lease.{
  LeaseConflict, LeaseState, LeaseFenceToken, Digest, LeaseApi, create_or_replace,
}
use probe_rca.Live.Leader.{
  Acquired, LeadershipState, standby, lost, leader_active, is_initializing,
  activation_fence_invalid, Coordinator, LeadershipFenceError, current_matches, validate_fence,
  acquiring, leader_initializing, is_active, acquire, acquire_from, acquire_local, token_for,
  acquisition, activate, activate_acquired, try_acquire, renew, renew_from, begin_draining, lose,
  is_available, version_of,
}
use probe_rca.Live.Leader.Fence.{token_beq_refl, acquire-enabled}
use probe_rca.Live.Leader.Epochs.{IsCoherent, acquire-IsCoherent}

-- What a replica does with the lease API.
pub data Action : Type 0 where
  acquires activates : (now : ℕ) → Action
  renews : (now later : ℕ) → Action
  drains : Action
  loses : (reason : String) → Action

unfoldable pub perform : Digest → Action → Coordinator → LeaseApi → Coordinator × LeaseApi
perform digest (acquires now) c api = let (c', api', token) = acquire digest c api now in (c', api')
perform digest (activates now) c api = ((activate c api now c.fence_token).1, api)
perform digest (renews now later) c api = let (held, c', api') = renew c api now later in (c', api')
perform digest drains c api = (begin_draining c, api)
perform digest (loses reason) c api = (lose reason c, api)

renew_from-IsCoherent :
    (c : Coordinator) (lease : Option LeaseState) (api : LeaseApi) (now later : ℕ)
    (t : LeaseFenceToken)
    → c.fence_token ≡ some t
    → lease ≡ api.value
    → IsCoherent c api
    → IsCoherent (renew_from c lease api now later t).1 (renew_from c lease api now later t).2
unfolding renew_from create_or_replace lose current_matches
renew_from-IsCoherent c none api now later t held read h = record { at = λ u l p q same. cc }
renew_from-IsCoherent c (some lease) api now later t held read h = record {
  at = λ u l p q same.
      ground (arith, eq_iff lease.holder c.identity, eq_iff lease.lease_uid t.lease_uid);
}

renew-IsCoherent :
    (c : Coordinator) (api : LeaseApi) (now later : ℕ)
    → IsCoherent c api
    → IsCoherent (renew c api now later).1 (renew c api now later).2
unfolding renew
renew-IsCoherent c api now later h = elim (Option-cases c.fence_token) [
  | inl no_token ↦ record { at = λ t l p q same. ground (arith, h.at t l) }
  | inr (t, held) ↦
      let kept = renew_from-IsCoherent c api.value api now later t held refl h in
      record { at = λ u l p q same. ground (arith, h.at u l, kept.at u l) }
]

perform-IsCoherent :
    (digest : Digest) (a : Action) (c : Coordinator) (api : LeaseApi)
    → c.config.enabled ≡ true
    → IsCoherent c api
    → IsCoherent (perform digest a c api).0 (perform digest a c api).1
unfolding perform
perform-IsCoherent digest (acquires now) c api enabled h =
    acquire-IsCoherent digest c api now enabled h
perform-IsCoherent digest (activates now) c api enabled h =
    unfold activate lose in record { at = λ t l p q same. ground (arith, h.at t l) }
perform-IsCoherent digest (renews now later) c api enabled h = renew-IsCoherent c api now later h
perform-IsCoherent digest drains c api enabled h =
    unfold begin_draining in record { at = λ t l p q same. ground (arith, h.at t l) }
perform-IsCoherent digest (loses reason) c api enabled h =
    unfold lose in record { at = λ t l p q same. cc }

-- A step of another replica leaves the token coherent: it stores no lease of this one's.
perform-IsCoherent_other :
    (digest : Digest) (a : Action) (c other : Coordinator) (api : LeaseApi)
    → other.config.enabled ≡ true
    → c.identity ≢ other.identity
    → IsCoherent c api
    → IsCoherent c (perform digest a other api).1
unfolding perform
perform-IsCoherent_other digest (acquires now) c other api enabled differ h =
    rw (acquire-enabled digest other api now enabled) (
      unfold acquire_from create_or_replace acquisition in
      record { at = λ t l p q same. ground (arith, h.at t l) })
perform-IsCoherent_other digest (activates now) c other api enabled differ h = h
perform-IsCoherent_other digest (renews now later) c other api enabled differ h =
    unfold renew renew_from create_or_replace in
    record { at = λ t l p q same. ground (arith, h.at t l) }
perform-IsCoherent_other digest drains c other api enabled differ h = h
perform-IsCoherent_other digest (loses reason) c other api enabled differ h = h

perform-config :
    (digest : Digest) (a : Action) (c : Coordinator) (api : LeaseApi)
    → ((perform digest a c api).0.config ≡ c.config)
      × ((perform digest a c api).0.identity ≡ c.identity)
unfolding perform
perform-config digest (acquires now) c api =
    unfold acquire acquire_from acquire_local in ground arith
perform-config digest (activates now) c api = unfold activate lose in ground arith
perform-config digest (renews now later) c api = unfold renew renew_from lose in ground arith
perform-config digest drains c api = unfold begin_draining in ground arith
perform-config digest (loses reason) c api = unfold lose in ground arith

pub record Replicas : Type 0 where
  pub left : Coordinator
  pub right : Coordinator
  pub api : LeaseApi

pub data Step (digest : Digest) : Replicas → Replicas → Type 0 where
  by_left :
      (a : Action) (s : Replicas)
      → Step digest s (record s {
        left = (perform digest a s.left s.api).0;
        api = (perform digest a s.left s.api).1;
      })
  by_right :
      (a : Action) (s : Replicas)
      → Step digest s (record s {
        right = (perform digest a s.right s.api).0;
        api = (perform digest a s.right s.api).1;
      })

pub data Reach (digest : Digest) (s : Replicas) : Replicas → Type 0 where
  here : Reach digest s s
  next : {t u : Replicas} → Reach digest s t → Step digest t u → Reach digest s u

-- Two replicas of different identities with election on, whose tokens carry the lease's epoch.
pub record IsSound (s : Replicas) : Type 0 where
  pub left_enabled : s.left.config.enabled ≡ true
  pub right_enabled : s.right.config.enabled ≡ true
  pub differ : s.left.identity ≢ s.right.identity
  pub left_coherent : IsCoherent s.left s.api
  pub right_coherent : IsCoherent s.right s.api

Step-IsSound : {digest : Digest} {s t : Replicas} → Step digest s t → IsSound s → IsSound t
Step-IsSound {digest = digest} (by_left a s) h =
    let (config, identity) = perform-config digest a s.left s.api in
    record {
      left_enabled = rw config h.left_enabled;
      right_enabled = h.right_enabled;
      differ = rw identity h.differ;
      left_coherent = perform-IsCoherent digest a s.left s.api h.left_enabled h.left_coherent;
      right_coherent =
          perform-IsCoherent_other digest a s.right s.left s.api h.left_enabled
            (λ e. h.differ (sym e)) h.right_coherent;
    }
Step-IsSound {digest = digest} (by_right a s) h =
    let (config, identity) = perform-config digest a s.right s.api in
    record {
      left_enabled = h.left_enabled;
      right_enabled = rw config h.right_enabled;
      differ = rw identity h.differ;
      left_coherent =
          perform-IsCoherent_other digest a s.left s.right s.api h.right_enabled h.differ
            h.left_coherent;
      right_coherent = perform-IsCoherent digest a s.right s.api h.right_enabled h.right_coherent;
    }

-- However two replicas of different identities interleave their calls, each one's token keeps the
-- uid and the transition count of the lease for as long as the lease names that replica.
pub Reach-IsSound : {digest : Digest} {s t : Replicas} → IsSound s → Reach digest s t → IsSound t
Reach-IsSound h here = h
Reach-IsSound h (next r step) = Step-IsSound step (Reach-IsSound h r)

-- What `try_acquire` of a replica that is not the leader comes to: it is now active and passes its
-- own fence, it stands by without a token, or it has raised, and has lost its token.
abbrev pub IsSettled :
    LeaseApi → ℕ → (r : Result LeadershipFenceError Bool × Coordinator × LeaseApi) → Type 0
IsSettled again later r =
    ((t : LeaseFenceToken) × (r.0 ≡ ok true)
      × (r.1.fence_token ≡ some t)
      × (validate_fence r.1 again later (some t) true ≡ true))
    ⊎ ((r.0 ≡ ok false) × (r.1.state ≡ standby) × (r.1.fence_token ≡ none))
    ⊎ ((r.0 ≡ err activation_fence_invalid) × (r.1.state ≡ lost) × (r.1.fence_token ≡ none))

-- `activate` asks the lease and the token, not the state.
matches-state :
    (c : Coordinator) (state : LeadershipState) (now : ℕ) (lease : Option LeaseState)
    (t : LeaseFenceToken)
    → current_matches (record c { state = state }) now lease t ≡ current_matches c now lease t
unfolding current_matches
matches-state c state now none t = refl
matches-state c state now (some l) t = refl

activate-IsSettled :
    (c : Coordinator) (api again : LeaseApi) (later : ℕ) (t : LeaseFenceToken)
    → c.fence_token ≡ some t
    → IsSettled again later (activate_acquired (c, api, some t) again later)
unfolding activate_acquired activate validate_fence lose
activate-IsSettled c api again later t held =
    elim (Bool-cases (is_initializing c.state && validate_fence c again later (some t) false)) [
      | inl valid ↦ inl (
        t,
        ground (arith, valid),
        ground (arith, valid, held),
        ground (
          arith,
          valid,
          held,
          token_beq_refl t,
          matches-state c leader_active later again.value t,
        ),
      )
      | inr invalid ↦
          inr (inr (ground (arith, invalid), ground (arith, invalid), ground (arith, invalid)))
    ]

-- What `acquire` leaves: a token that it holds and returns, or a replica that stands by.
abbrev IsAcquired : Acquired → Type 0
IsAcquired r =
    ((t : LeaseFenceToken) × (r.2 ≡ some t) × (r.0.fence_token ≡ some t))
    ⊎ ((r.2 ≡ none) × (r.0.state ≡ standby) × (r.0.fence_token ≡ none))

acquire_from-IsAcquired :
    (digest : Digest) (c : Coordinator) (lease : Option LeaseState) (api : LeaseApi) (now : ℕ)
    → IsAcquired (acquire_from digest c lease api now)
unfolding acquire_from
acquire_from-IsAcquired digest c lease api now =
    if-keeps IsAcquired (not (is_available c lease now)) (inr (refl, refl, refl))
      (written (create_or_replace api (acquisition c lease now) (version_of lease)))
  where
    written :
        (r : Result LeaseConflict (LeaseState × LeaseApi))
        → IsAcquired (elim r [
          | err _ ↦ (record c { state = standby; fence_token = none }, api, none)
          | ok (w, api') ↦ (
            record c {
              state = leader_initializing;
              fence_token = some (token_for digest c lease now w);
              loss_reason = none;
            },
            api',
            some (token_for digest c lease now w),
          )
        ])
    written (err e) = inr (refl, refl, refl)
    written (ok (w, api')) = inl (token_for digest c lease now w, refl, refl)

acquire-IsAcquired :
    (digest : Digest) (c : Coordinator) (api : LeaseApi) (now : ℕ)
    → IsAcquired (acquire digest c api now)
unfolding acquire acquire_local
acquire-IsAcquired digest c api now =
    if-keeps IsAcquired c.config.enabled
      (acquire_from-IsAcquired digest (record c { state = acquiring }) api.value api now)
      (inl (_, refl, refl))

activate_acquired-IsSettled :
    (r : Acquired) (again : LeaseApi) (later : ℕ)
    → IsAcquired r
    → IsSettled again later (activate_acquired r again later)
activate_acquired-IsSettled (c, api, token) again later (inl (t, returned, held)) =
    rw returned (activate-IsSettled c api again later t held)
activate_acquired-IsSettled (c, api, token) again later (inr (returned, idle, held)) =
    rw returned (unfold activate_acquired in inr (inl (refl, idle, held)))

-- `try_acquire` of a replica that is not the active leader, whatever other replicas do to the lease
-- between the acquisition and the activation and whatever time passes: it reports true, and then
-- the token it holds passes the fence of an active leader on the lease and at the time of the
-- activation; or it reports false and stands by without a token; or it raises that the fence was
-- invalid, and is lost and without a token.
pub try_acquire-settles :
    (digest : Digest) (c : Coordinator) (api again : LeaseApi) (now later : ℕ)
    → is_active c.state ≡ false
    → IsSettled again later (try_acquire digest c api again now later)
unfolding try_acquire
try_acquire-settles digest c api again now later idle = rw idle (
    activate_acquired-IsSettled (acquire digest c api now) again later
      (acquire-IsAcquired digest c api now))
