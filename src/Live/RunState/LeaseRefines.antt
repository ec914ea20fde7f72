-- ===== src/Live/RunState/LeaseRefines.antt =====
-- proberca/live/run_state.py: KubernetesLeaseRunStateStore keeps what the stores promise.
use mathlib.Core.Path.{subst}
use probe_rca.Prelude.{
  ◌≡◌, ◌⊎◌, sym, true, Option, some, ◌==◌, nat_eq, string_eq, ok, ◌-◌, ◌+◌, arith, bind-eq-ok,
  Bool-cases, inl, inr, ℕ, String,
}
use probe_rca.Live.RunState.Record.{LeaseRunStateRecord, Hashes, validated}
use probe_rca.Live.RunState.Memory.{LeaseFenceToken, CommitCasContext, LeaseRunStateSnapshot}
use probe_rca.Live.RunState.Store.{
  LeaseStore, is_same_run, decode, annotations_of, owned, rewrite, rewritten, acquisition,
}
use probe_rca.Live.RunState.Writes.{
  write, version_of, try_acquire_from, renew_from, release_from, commit_generation_from, committed,
  replace_record, check_candidate,
}
use probe_rca.Live.RunState.Validity.{IsValid, validated-IsValid, validated-signed}
use probe_rca.Live.RunState.Codec.{
  IsOwn, decode-IsOwn, annotations_of-decode, owned-ok, rewrite-ok, acquisition-ok,
}
use probe_rca.Live.RunState.Authority.{Step, stays, authority, valid_next-Step}
use probe_rca.Live.Lease.{LeaseState, LeaseApi}
use probe_rca.Live.RunState.LeaseSteps.{
  Accepts, CreatesOnce, WasRead, write-ok, not_replaced, LeaseStep, acquires, renews, releases,
  committing, Moves,
}

module _ (h : Hashes) (s : LeaseStore) (accepts : Accepts) (once : CreatesOnce accepts) where
  -- What the methods have in common: a record of the run is encoded and written.
  writes-Moves :
      (lease : Option LeaseState) (api api' : LeaseApi) (candidate written : LeaseState)
      (r v : LeaseRunStateRecord)
      → WasRead api lease
      → accepts api (version_of lease) ≡ true
      → decode h s lease ≡ ok r
      → IsOwn h s v
      → Step (authority r) (authority v)
      → annotations_of h s v ≡ ok candidate.annotations
      → write api candidate (version_of lease) ≡ ok (written, api')
      → Moves h s api api'
  writes-Moves lease api api' candidate written r v was accepted decoded own moved encoded p =
      let (held, carried, free) = write-ok (version_of lease) api api' candidate written p in
      record {
        before = r;
        after = v;
        reads_before = rw (not_replaced accepts lease api once was accepted free) decoded;
        reads_after =
            rw held (annotations_of-decode h s v candidate.annotations written own encoded carried);
        step = moved;
      }

  acquires-Moves :
      (name : String) (now : ℕ) (lease : Option LeaseState) (t : LeaseFenceToken)
      (api api' : LeaseApi)
      → IsValid h s.initial_record
      → WasRead api lease
      → accepts api (version_of lease) ≡ true
      → try_acquire_from h s name now lease api ≡ ok (t, api')
      → Moves h s api api'
  unfolding try_acquire_from
  acquires-Moves name now lease t api api' valid was accepted p =
      let ((v, candidate), acquired, p1) = bind-eq-ok (acquisition h s name now lease) _ p in
      let ((written, api''), is_written, p2) =
        bind-eq-ok (write api candidate (version_of lease)) _ p1 in
      let (r, decoded, own, moved, encoded) =
        acquisition-ok h s name now lease v candidate valid acquired in
      let same : api'' ≡ api' = ground (arith, p2) in
      rw (sym same) (
        writes-Moves lease api api'' candidate written r v was accepted decoded own moved encoded
          is_written)

  rewrites-Moves :
      (now renew_time : ℕ) (t : LeaseFenceToken) (lease : Option LeaseState) (api api' : LeaseApi)
      (r : LeaseRunStateRecord) (candidate written : LeaseState)
      → IsValid h s.initial_record
      → WasRead api lease
      → accepts api (version_of lease) ≡ true
      → rewrite h s now renew_time t lease ≡ ok (r, candidate)
      → write api candidate (version_of lease) ≡ ok (written, api')
      → Moves h s api api'
  rewrites-Moves now renew_time t lease api api' r candidate written valid was accepted is_rewritten
        is_written =
      let (decoded, encoded) = rewrite-ok h s now renew_time t lease r candidate is_rewritten in
      writes-Moves lease api api' candidate written r r was accepted decoded
        (decode-IsOwn h s lease r valid decoded) stays encoded is_written

  renews-Moves :
      (now later : ℕ) (t t' : LeaseFenceToken) (lease : Option LeaseState) (api api' : LeaseApi)
      → IsValid h s.initial_record
      → WasRead api lease
      → accepts api (version_of lease) ≡ true
      → renew_from h s now later t lease api ≡ ok (t', api')
      → Moves h s api api'
  unfolding renew_from
  renews-Moves now later t t' lease api api' valid was accepted p =
      let ((r, candidate), is_rewritten, p1) = bind-eq-ok (rewrite h s now later t lease) _ p in
      let ((written, api''), is_written, p2) =
        bind-eq-ok (write api candidate (version_of lease)) _ p1 in
      let same : api'' ≡ api' = ground (arith, p2) in
      rw (sym same) (
        rewrites-Moves now later t lease api api'' r candidate written valid was accepted
          is_rewritten is_written)

  releases-Moves :
      (now later : ℕ) (t : LeaseFenceToken) (lease : Option LeaseState) (api api' : LeaseApi)
      → IsValid h s.initial_record
      → WasRead api lease
      → accepts api (version_of lease) ≡ true
      → release_from h s now later t lease api ≡ ok api'
      → Moves h s api api'
  unfolding release_from
  releases-Moves now later t lease api api' valid was accepted p =
      let ended = later - (s.lease_duration_sec + s.second) in
      let ((r, candidate), is_rewritten, p1) = bind-eq-ok (rewrite h s now ended t lease) _ p in
      let ((written, api''), is_written, p2) =
        bind-eq-ok (write api candidate (version_of lease)) _ p1 in
      let same : api'' ≡ api' = ground (arith, p2) in
      rw (sym same) (
        rewrites-Moves now ended t lease api api'' r candidate written valid was accepted
          is_rewritten is_written)

  replaces-Moves :
      (later : ℕ) (c : CommitCasContext) (r v : LeaseRunStateRecord) (lease : LeaseState)
      (result : LeaseRunStateSnapshot) (api api' : LeaseApi)
      → WasRead api (some lease)
      → accepts api (some lease.resource_version) ≡ true
      → decode h s (some lease) ≡ ok r
      → IsOwn h s v
      → replace_record h s later c r v lease api ≡ ok (result, api')
      → Moves h s api api'
  unfolding replace_record check_candidate
  replaces-Moves later c r v lease result api api' was accepted decoded own p =
      let (_, checked, p1) = bind-eq-ok (check_candidate h s c r v lease) _ p in
      let (a, encoded, p2) = bind-eq-ok (annotations_of h s v) _ p1 in
      let candidate = rewritten h s lease later a in
      let ((written, api''), is_written, p3) =
        bind-eq-ok (write api candidate (some lease.resource_version)) _ p2 in
      let same : api'' ≡ api' = ground (arith, p3) in
      let follows : v.committed_sequence ≡ r.committed_sequence + 1 = ground (arith, checked) in
      rw (sym same) (
        writes-Moves (some lease) api api'' candidate written r v was accepted decoded own
          (valid_next-Step h r v own.0 follows) encoded is_written)

  commits-Moves :
      (now later : ℕ) (c : CommitCasContext) (candidate : LeaseRunStateRecord)
      (lease : Option LeaseState) (result : LeaseRunStateSnapshot) (api api' : LeaseApi)
      → WasRead api lease
      → accepts api (version_of lease) ≡ true
      → is_same_run s.initial_record candidate ≡ true
      → commit_generation_from h s now later c candidate lease api ≡ ok (result, api')
      → (api' ≡ api) ⊎ Moves h s api api'
  unfolding commit_generation_from committed is_same_run
  commits-Moves now later c candidate lease result api api' was accepted same_run p =
      let ((r, old), is_owned, p1) = bind-eq-ok (owned h s now c.token lease) _ p in
      let (v, is_validated, p2) = bind-eq-ok (validated h candidate) _ p1 in
      let (held, decoded, _) = owned-ok h s now c.token lease r old is_owned in
      let valid = validated-IsValid h candidate v is_validated in
      let own : is_same_run s.initial_record v ≡ true =
        rw (validated-signed h candidate v is_validated).1 same_run in
      elim (Bool-cases (v.record_fingerprint == r.record_fingerprint)) [
        | inl again ↦ inl (ground (arith, p2, again))
        | inr other ↦ inr (
            replaces-Moves later c r v old result api api' (rw (sym held) was)
              (subst (λ l. accepts api (version_of l) ≡ true) held accepted) (rw (sym held) decoded)
              (valid, own) (ground (arith, p2, other)))
      ]

  -- A method of the Kubernetes store that returns leaves the lease as it was, or moves the stored
  -- record, which is read again, by a step of the authority. So it does when other replicas write
  -- between its read and its write, where a creation of a lease that exists is refused.
  pub LeaseStep-Step :
      (api api' : LeaseApi)
      → IsValid h s.initial_record
      → LeaseStep h s accepts api api'
      → (api' ≡ api) ⊎ Moves h s api api'
  LeaseStep-Step api api' valid (acquires name now lease t was accepted p) =
      inr (acquires-Moves name now lease t api api' valid was accepted p)
  LeaseStep-Step api api' valid (renews now later t t' lease was accepted p) =
      inr (renews-Moves now later t t' lease api api' valid was accepted p)
  LeaseStep-Step api api' valid (releases now later t lease was accepted p) =
      inr (releases-Moves now later t lease api api' valid was accepted p)
  LeaseStep-Step api api' valid
        (committing now later c candidate lease result was accepted same_run p) =
      commits-Moves now later c candidate lease result api api' was accepted same_run p

-- Runs of the store, in which each write was accepted.
module _ (h : Hashes) (s : LeaseStore) (accepts : Accepts) where
  pub data LeaseRun (api : LeaseApi) : LeaseApi → Type 0 where
    here : LeaseRun api api
    next :
        {mid last : LeaseApi}
        → LeaseRun api mid
        → LeaseStep h s accepts mid last
        → LeaseRun api last
