-- ===== src/Live/Coordinator/Leadership.antt =====
-- proberca/live/coordinator.py: the coordinator's state says whether it holds a token.
use probe_rca.Prelude.{
  ℕ, ◌≡◌, refl, ◌∙◌, Bool, true, false, Option, none, some, Result, ok, err, if-keeps, Bool-cases,
  inl, inr, arith,
}
use probe_rca.Live.RunState.Record.{Hashes, RunStateError}
use probe_rca.Live.RunState.Memory.{LeaseFenceToken}
use probe_rca.Live.RunState.Store.{LeaseStore}
use probe_rca.Live.RunState.Writes.{try_acquire, renew, release}
use probe_rca.Live.Lease.{LeaseApi}
use probe_rca.Live.Coordinator.{
  Coordinator, LiveCoordinatorState, standby, acquiring, leader_recovering, leader_active,
  leader_draining, committed_output_degraded, lost, fatal, acquire_and_recover, acquired,
  can_acquire, renew_leadership, renew_held, renewed, can_renew, drain, drained, release_leadership,
  release_held, released, is_conflict,
}

-- The states of a coordinator that has the lease.
abbrev pub leads : LiveCoordinatorState → Bool
leads leader_recovering = true
leads leader_active = true
leads leader_draining = true
leads committed_output_degraded = true
leads _ = false

abbrev pub is_some : Option LeaseFenceToken → Bool
is_some none = false
is_some (some t) = true

abbrev pub IsLed : Coordinator → Type 0
IsLed c = leads c.state ≡ is_some c.token

-- A method on a lease API as it then is, which other replicas may have written.
pub data Step (h : Hashes) (s : LeaseStore) (c : Coordinator) : Coordinator → Type 0 where
  acquires : (now : ℕ) (api : LeaseApi) → Step h s c (acquire_and_recover h s now c api).1
  renews : (now later : ℕ) (api : LeaseApi) → Step h s c (renew_leadership h s now later c api).1
  drains : Step h s c (drain c)
  releases :
      (now later : ℕ) (api : LeaseApi) → Step h s c (release_leadership h s now later c api).1

pub data Reach (h : Hashes) (s : LeaseStore) (c : Coordinator) : Coordinator → Type 0 where
  here : Reach h s c c
  next : {mid last : Coordinator} → Reach h s c mid → Step h s mid last → Reach h s c last

can_acquire-leads : (state : LiveCoordinatorState) → can_acquire state ≡ true → leads state ≡ false
unfolding can_acquire
can_acquire-leads standby h = refl
can_acquire-leads lost h = refl
can_acquire-leads acquiring h = ground arith
can_acquire-leads leader_recovering h = ground arith
can_acquire-leads leader_active h = ground arith
can_acquire-leads leader_draining h = ground arith
can_acquire-leads committed_output_degraded h = ground arith
can_acquire-leads fatal h = ground arith

leads-drained : (state : LiveCoordinatorState) → leads (drained state) ≡ leads state
unfolding drained
leads-drained standby = refl
leads-drained lost = refl
leads-drained acquiring = refl
leads-drained leader_recovering = refl
leads-drained leader_active = refl
leads-drained leader_draining = refl
leads-drained committed_output_degraded = refl
leads-drained fatal = refl

drain-IsLed : (c : Coordinator) → IsLed c → IsLed (drain c)
unfolding drain
drain-IsLed c led = leads-drained c.state ∙ led

module _ (h : Hashes) (s : LeaseStore) where
  acquired-IsLed :
      (c : Coordinator) (api : LeaseApi)
      (answer : Result RunStateError (LeaseFenceToken × LeaseApi))
      → leads c.state ≡ false
      → IsLed c
      → IsLed (acquired h s c api answer).1
  unfolding acquired
  acquired-IsLed c api (ok (token, api')) off led = refl
  acquired-IsLed c api (err e) off led =
      if-keeps IsLed (is_conflict e) refl (ground (arith, off, led))

  acquire_and_recover-IsLed :
      (now : ℕ) (c : Coordinator) (api : LeaseApi)
      → IsLed c
      → IsLed (acquire_and_recover h s now c api).1
  unfolding acquire_and_recover
  acquire_and_recover-IsLed now c api led = elim (Bool-cases (can_acquire c.state)) [
    | inl free ↦ rw free (
        acquired-IsLed c api (try_acquire h s c.instance_fingerprint now api)
          (can_acquire-leads c.state free) led)
    | inr busy ↦ rw busy led
  ]

  renewed-IsLed :
      (c : Coordinator) (api : LeaseApi)
      (answer : Result RunStateError (LeaseFenceToken × LeaseApi))
      → is_some c.token ≡ true
      → IsLed c
      → IsLed (renewed h s c api answer).1
  unfolding renewed
  renewed-IsLed c api (ok (token, api')) held led = ground (arith, held, led)
  renewed-IsLed c api (err e) held led = if-keeps IsLed (is_conflict e) refl led

  renew_held-IsLed :
      (now later : ℕ) (c : Coordinator) (api : LeaseApi) (o : Option LeaseFenceToken)
      → c.token ≡ o
      → IsLed c
      → IsLed (renew_held h s now later c api o).1
  unfolding renew_held
  renew_held-IsLed now later c api none same led = led
  renew_held-IsLed now later c api (some token) same led = elim (Bool-cases (can_renew c.state)) [
    | inl can ↦
        rw can (renewed-IsLed c api (renew h s now later token api) (ground (arith, same)) led)
    | inr not_now ↦ rw not_now led
  ]

  released-IsLed :
      (now later : ℕ) (c : Coordinator) (api : LeaseApi) (o : Option LeaseFenceToken)
      → IsLed c
      → IsLed (release_held h s now later c api o).1
  unfolding release_held released
  released-IsLed now later c api none led = refl
  released-IsLed now later c api (some token) led = answer (release h s now later token api)
    where
      answer : (r : Result RunStateError LeaseApi) → IsLed (released h s c api r).1
      answer (ok api') = refl
      answer (err e) = led

  Step-IsLed : {c c' : Coordinator} → Step h s c c' → IsLed c → IsLed c'
  unfolding renew_leadership release_leadership
  Step-IsLed {c} (acquires now api) led = acquire_and_recover-IsLed now c api led
  Step-IsLed {c} (renews now later api) led = renew_held-IsLed now later c api c.token refl led
  Step-IsLed {c} drains led = drain-IsLed c led
  Step-IsLed {c} (releases now later api) led = released-IsLed now later c api c.token led

  run-IsLed : {c c' : Coordinator} → IsLed c → Reach h s c c' → IsLed c'
  run-IsLed led here = led
  run-IsLed led (next run st) = Step-IsLed st (run-IsLed led run)

  -- Through any calls of acquire_and_recover, renew, drain and release, on whatever leases and with
  -- whatever answers of the store: a coordinator that holds a token exactly in the states of a
  -- leader, as a new one and an active leader do, keeps doing so.
  pub Reach-IsLed :
      (c : Coordinator) {c' : Coordinator}
      → leads c.state ≡ is_some c.token
      → Reach h s c c'
      → leads c'.state ≡ is_some c'.token
  Reach-IsLed c led run = run-IsLed led run
