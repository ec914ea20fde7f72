-- ===== src/Live/RunState/Fresh.antt =====
-- proberca/live/run_state.py: that a replica may use the token it was given.
use probe_rca.Prelude.{
  ℕ, ◌+◌, ◌<◌, ◌≡◌, sym, ap, String, true, Option, some, ◌==◌, string_eq, nat_eq, ok, not, guard,
  arith, eq_iff, bind-eq-ok, Bool-cases, inl, inr,
}
use probe_rca.Live.RunState.Record.{LeaseRunStateRecord, Hashes, with_holder}
use probe_rca.Live.RunState.Memory.{LeaseFenceToken, is_current_token}
use probe_rca.Live.RunState.Store.{
  LeaseStore, acquisition, acquired_lease, owned, is_valid_token, token_of, decode, annotations_of,
  is_available, next_epoch,
}
use probe_rca.Live.RunState.Writes.{try_acquire, try_acquire_from, write, version_of}
use probe_rca.Live.RunState.Validity.{IsValid, with_holder-signed}
use probe_rca.Live.RunState.Codec.{acquisition-ok, annotations_of-decode}
use probe_rca.Live.RunState.LeaseSteps.{write-ok}
use probe_rca.Live.Lease.{LeaseState, LeaseApi, create_or_replace, conflicts}

module _ (h : Hashes) (s : LeaseStore) where
  -- What an acquisition writes: the replica's name, the time, and its fingerprint in the record.
  acquisition-written :
      (name : String) (now : ℕ) (lease : Option LeaseState) (v : LeaseRunStateRecord)
      (candidate : LeaseState)
      → acquisition h s name now lease ≡ ok (v, candidate)
      → (candidate.holder ≡ name)
        × (candidate.renew_time ≡ now)
        × (candidate.duration ≡ s.lease_duration_sec)
        × (v.holder_fingerprint ≡ some (h.holder_sha name))
  unfolding acquisition acquired_lease
  acquisition-written name now lease v candidate p =
      let (_, _, p1) = bind-eq-ok (guard (not (name == "")) _) _ p in
      let (r, decoded, p2) = bind-eq-ok (decode h s lease) _ p1 in
      let (_, _, p3) = bind-eq-ok (guard (is_available h s name now lease) _) _ p2 in
      let epoch = next_epoch h s name now lease r.leadership_epoch in
      let (v', taken, p4) = bind-eq-ok (with_holder h (h.holder_sha name) epoch r) _ p3 in
      let (a, encoded, p5) = bind-eq-ok (annotations_of h s v') _ p4 in
      let (_, _, is_signed) = with_holder-signed h (h.holder_sha name) epoch r v' taken in
      let same : v' ≡ v = ground (arith, p5) in
      (
        ground (arith, p5),
        ground (arith, p5),
        ground (arith, p5),
        rw (sym same) (ap (λ x. x.holder_fingerprint) is_signed),
      )

  -- A successful write keeps the holder, the time and the duration of what it was given.
  write-kept :
      (expected : Option ℕ) (api api' : LeaseApi) (candidate written : LeaseState)
      → write api candidate expected ≡ ok (written, api')
      → (written.holder ≡ candidate.holder)
        × (written.renew_time ≡ candidate.renew_time)
        × (written.duration ≡ candidate.duration)
  unfolding write create_or_replace
  write-kept expected api api' candidate written p = elim (Bool-cases (conflicts api expected)) [
    | inl refused ↦ ground (arith, p, refused)
    | inr free ↦ (ground (arith, p, free), ground (arith, p, free), ground (arith, p, free))
  ]

  token_of-valid :
      (now : ℕ) (lease : LeaseState) (r : LeaseRunStateRecord)
      → r.holder_fingerprint ≡ some (h.holder_sha lease.holder)
      → now < lease.renew_time + lease.duration
      → is_valid_token h s now (token_of h s lease r) lease r ≡ true
  unfolding is_valid_token token_of is_current_token
  token_of-valid now lease r held fresh = rw held (
      ground (
        arith,
        fresh,
        eq_iff s.namespace s.namespace,
        eq_iff s.name s.name,
        eq_iff lease.lease_uid lease.lease_uid,
        eq_iff (h.holder_sha lease.holder) (h.holder_sha lease.holder),
      ))

  -- An acquisition that returns has stored a lease, of which its token is accepted at that time, so
  -- that the replica may renew and commit.
  pub try_acquire-owned :
      (name : String) (now : ℕ) (api api' : LeaseApi) (t : LeaseFenceToken)
      → IsValid h s.initial_record
      → 0 < s.lease_duration_sec
      → try_acquire h s name now api ≡ ok (t, api')
      → (r : LeaseRunStateRecord) × (lease : LeaseState) × (api'.value ≡ some lease)
        × (owned h s now t (some lease) ≡ ok (r, lease))
  unfolding try_acquire try_acquire_from owned
  try_acquire-owned name now api api' t valid lasting p =
      let ((v, candidate), acquired, p1) = bind-eq-ok (acquisition h s name now api.value) _ p in
      let ((written, api''), is_written, p2) =
        bind-eq-ok (write api candidate (version_of api.value)) _ p1 in
      let (r, _, own, _, encoded) =
        acquisition-ok h s name now api.value v candidate valid acquired in
      let (held, carried, _) =
        write-ok (version_of api.value) api api'' candidate written is_written in
      let (holder, time, lasts, named) =
        acquisition-written name now api.value v candidate acquired in
      let (same_holder, same_time, same_lasts) =
        write-kept (version_of api.value) api api'' candidate written is_written in
      let decoded = annotations_of-decode h s v candidate.annotations written own encoded carried in
      let same_api : api'' ≡ api' = ground (arith, p2) in
      let same_token : token_of h s written v ≡ t = ground (arith, p2) in
      let accepted =
        token_of-valid now written v (rw (same_holder, holder) named)
          (omega (arith, same_time, time, same_lasts, lasts, lasting)) in
      (v, written, rw (sym same_api) held, rw (sym same_token) (ground (arith, decoded, accepted)))
