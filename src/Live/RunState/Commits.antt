-- ===== src/Live/RunState/Commits.antt =====
-- proberca/live/run_state.py: that a commit which is due succeeds, once.
use probe_rca.Prelude.{
  ◌≡◌, ◌≢◌, sym, true, false, Option, some, ◌==◌, nat_eq, string_eq, leb, if◌then◌else◌, ok, err,
  guard, ◌+◌, arith, eq_iff, bind-eq-ok, ℕ, String,
}
use probe_rca.Live.RunState.Record.{
  LeaseRunStateRecord, Hashes, Commit, validated, duplicate_commit, stale_version,
  identity_mismatch, with_commit, commit_payload,
}
use probe_rca.Live.RunState.Memory.{
  LeaseFenceToken, CommitCasContext, LeaseRunStateSnapshot, option_beq,
}
use probe_rca.Live.RunState.Store.{
  LeaseStore, is_same_run, decode, annotations_of, owned, rewritten, prepare_commit_from, read,
  decode_payload, decode_run_state_annotation,
}
use probe_rca.Live.RunState.Writes.{
  write, commit_generation, commit_generation_from, committed, replace_record, check_candidate,
  snapshot, prepare_commit,
}
use probe_rca.Live.RunState.Validity.{IsValid, with_commit-signed}
use probe_rca.Live.RunState.LeaseSteps.{write-ok}
use probe_rca.Live.Lease.{LeaseState, Annotations, LeaseApi, create_or_replace, stored, conflicts}

module _ (h : Hashes) (s : LeaseStore) where
  abbrev pub own_annotations : LeaseRunStateRecord → Annotations
  own_annotations v = record { schema = some "1.0"; run_state = some v }

  -- The lease as a commit leaves it.
  abbrev pub committed_lease :
      LeaseApi → LeaseState → (later : ℕ) → LeaseRunStateRecord → LeaseState
  committed_lease api lease later v = stored api (rewritten h s lease later (own_annotations v))

  abbrev pub committed_api : LeaseApi → LeaseState → (later : ℕ) → LeaseRunStateRecord → LeaseApi
  committed_api api lease later v = record api {
    value = some (committed_lease api lease later v);
    version = api.version + 1;
  }

  pub prepare_commit_from-ok :
      (now : ℕ) (t : LeaseFenceToken) (sequence : ℕ) (generation : Option String)
      (lease : LeaseState) (r : LeaseRunStateRecord) (c : CommitCasContext)
      → owned h s now t (some lease) ≡ ok (r, lease)
      → prepare_commit_from h s now t sequence generation (some lease) ≡ ok c
      → (c.token ≡ t)
        × (c.expected_sequence ≡ r.committed_sequence + 1)
        × (option_beq c.expected_generation_id r.current_generation_id ≡ true)
        × (c.expected_resource_version ≡ lease.resource_version)
  unfolding prepare_commit_from
  prepare_commit_from-ok now t sequence generation lease r c is_owned p =
      let (found, is_found, p1) = bind-eq-ok (owned h s now t (some lease)) _ p in
      let same_record : found.0 ≡ r = ground (arith, is_owned, is_found) in
      let same_lease : found.1 ≡ lease = ground (arith, is_owned, is_found) in
      let (_, is_next, p2) =
        bind-eq-ok (guard (sequence == found.0.committed_sequence + 1) _) _ p1 in
      let (_, is_current, p3) =
        bind-eq-ok (guard (option_beq generation found.0.current_generation_id) _) _ p2 in
      (
        ground (arith, p3),
        ground (arith, p3, is_next, same_record),
        rw (sym same_record) (ground (arith, p3, is_current)),
        ground (arith, p3, same_lease),
      )

  replace_record-total :
      (later : ℕ) (c : CommitCasContext) (r v : LeaseRunStateRecord) (lease : LeaseState)
      (api : LeaseApi)
      → api.value ≡ some lease
      → c.expected_sequence ≡ r.committed_sequence + 1
      → option_beq c.expected_generation_id r.current_generation_id ≡ true
      → c.expected_resource_version ≡ lease.resource_version
      → v.committed_sequence ≡ r.committed_sequence + 1
      → leb (h.record_bytes v) s.annotation_max_bytes ≡ true
      → replace_record h s later c r v lease api
        ≡ ok (snapshot h s v (committed_lease api lease later v), committed_api api lease later v)
  unfolding replace_record check_candidate write create_or_replace conflicts annotations_of
  replace_record-total later c r v lease api held sequence generation version follows fits =
      ground (arith, held, sequence, generation, version, follows, fits)

  -- A commit of the record that `with_commit` made from the one that is stored, by the holder of the
  -- lease, within its time, and with the context that `prepare_commit` gave for the lease as it
  -- still is: it succeeds, and the store holds the record.
  pub commit_generation-total :
      (now later : ℕ) (t : LeaseFenceToken) (sequence : ℕ) (generation : Option String)
      (lease : LeaseState) (api : LeaseApi) (commit : Commit) (c : CommitCasContext)
      (r v : LeaseRunStateRecord)
      → api.value ≡ some lease
      → owned h s now t (some lease) ≡ ok (r, lease)
      → prepare_commit h s now t sequence generation api ≡ ok c
      → with_commit h commit r ≡ ok v
      → v.record_fingerprint ≢ r.record_fingerprint
      → leb (h.record_bytes v) s.annotation_max_bytes ≡ true
      → commit_generation h s now later c v api
        ≡ ok (snapshot h s v (committed_lease api lease later v), committed_api api lease later v)
  unfolding commit_generation commit_generation_from committed prepare_commit commit_payload
  commit_generation-total now later t sequence generation lease api commit c r v held is_owned
        prepared made new fits =
      let (of_token, is_next, of_generation, of_version) =
        prepare_commit_from-ok now t sequence generation lease r c is_owned
          (rw (sym held) prepared) in
      let (number, _, _, valid, is_signed) = with_commit-signed h commit r v made in
      let follows : v.committed_sequence ≡ r.committed_sequence + 1 = rw is_signed (ground arith) in
      let replaced =
        replace_record-total later c r v lease api held is_next of_generation of_version follows
          fits in
      ground (
        arith,
        held,
        of_token,
        is_owned,
        valid,
        new,
        replaced,
        eq_iff v.record_fingerprint r.record_fingerprint,
      )

  -- The same commit again, with the same context, by the holder and within the time of the lease as
  -- the commit left it: the caller gets the committed record, and nothing is written.
  pub commit_generation-again :
      (now later : ℕ) (c : CommitCasContext) (candidate r : LeaseRunStateRecord)
      (lease : LeaseState) (api : LeaseApi)
      → api.value ≡ some lease
      → owned h s now c.token (some lease) ≡ ok (r, lease)
      → validated h candidate ≡ ok r
      → commit_generation h s now later c candidate api ≡ ok (snapshot h s r lease, api)
  unfolding commit_generation commit_generation_from committed
  commit_generation-again now later c candidate r lease api held is_owned valid =
      ground (arith, held, is_owned, valid, eq_iff r.record_fingerprint r.record_fingerprint)

  -- A commit on a lease that another write has changed since `prepare_commit`, of a record that is
  -- not the stored one: it is refused.
  pub commit_generation-stale :
      (now later : ℕ) (c : CommitCasContext) (candidate r v : LeaseRunStateRecord)
      (lease : LeaseState) (api : LeaseApi)
      → api.value ≡ some lease
      → owned h s now c.token (some lease) ≡ ok (r, lease)
      → validated h candidate ≡ ok v
      → v.record_fingerprint ≢ r.record_fingerprint
      → c.expected_resource_version ≢ lease.resource_version
      → commit_generation h s now later c candidate api
        ≡ err (
            if leb v.committed_sequence r.committed_sequence
            then duplicate_commit
            else stale_version)
  unfolding commit_generation commit_generation_from committed replace_record check_candidate
  commit_generation-stale now later c candidate r v lease api held is_owned valid new changed =
      ground (
        arith,
        held,
        is_owned,
        valid,
        new,
        changed,
        eq_iff v.record_fingerprint r.record_fingerprint,
      )

  -- What a write of a record leaves.
  replace_record-ok :
      (later : ℕ) (c : CommitCasContext) (r v : LeaseRunStateRecord) (lease : LeaseState)
      (result : LeaseRunStateSnapshot) (api api' : LeaseApi)
      → replace_record h s later c r v lease api ≡ ok (result, api')
      → (written : LeaseState) × (api'.value ≡ some written)
        × (written.annotations ≡ own_annotations v)
        × (leb (h.record_bytes v) s.annotation_max_bytes ≡ true)
  unfolding replace_record annotations_of
  replace_record-ok later c r v lease result api api' p =
      let (_, checked, p1) = bind-eq-ok (check_candidate h s c r v lease) _ p in
      let (a, encoded, p2) = bind-eq-ok (annotations_of h s v) _ p1 in
      let (_, fits, is_written) =
        bind-eq-ok (guard (leb (h.record_bytes v) s.annotation_max_bytes) _) _ encoded in
      let candidate = rewritten h s lease later a in
      let ((written, api''), stored, p3) =
        bind-eq-ok (write api candidate (some lease.resource_version)) _ p2 in
      let (held, carried, _) =
        write-ok (some lease.resource_version) api api'' candidate written stored in
      let same : api'' ≡ api' = ground (arith, p3) in
      (written, rw (sym same) held, ground (arith, carried, is_written), ground (arith, fits))

  decode-foreign :
      (v : LeaseRunStateRecord) (lease : LeaseState)
      → lease.annotations ≡ own_annotations v
      → leb (h.record_bytes v) s.annotation_max_bytes ≡ true
      → IsValid h v
      → is_same_run s.initial_record v ≡ false
      → decode h s (some lease) ≡ err identity_mismatch
  unfolding decode decode_payload decode_run_state_annotation
  decode-foreign v lease carried fits valid foreign =
      rw carried (ground (arith, fits, valid, foreign))

  -- A commit of a record of another run that returns has stored that record, and then the read of
  -- the lease raises that the identities differ.
  pub commit_generation-foreign :
      (now later : ℕ) (c : CommitCasContext) (candidate r : LeaseRunStateRecord)
      (lease : LeaseState) (result : LeaseRunStateSnapshot) (api api' : LeaseApi)
      → api.value ≡ some lease
      → owned h s now c.token (some lease) ≡ ok (r, lease)
      → IsValid h candidate
      → candidate.record_fingerprint ≢ r.record_fingerprint
      → is_same_run s.initial_record candidate ≡ false
      → commit_generation h s now later c candidate api ≡ ok (result, api')
      → (written : LeaseState) × (api'.value ≡ some written)
        × (written.annotations ≡ own_annotations candidate)
        × (read h s api' ≡ err identity_mismatch)
  unfolding commit_generation commit_generation_from committed read
  commit_generation-foreign now later c candidate r lease result api api' held is_owned valid new
        foreign p =
      let replaced : replace_record h s later c r candidate lease api ≡ ok (result, api') = ground (
        arith,
        held,
        is_owned,
        valid,
        new,
        p,
        eq_iff candidate.record_fingerprint r.record_fingerprint,
      ) in
      let (written, held', carried, fits) =
        replace_record-ok later c r candidate lease result api api' replaced in
      (
        written,
        held',
        carried,
        ground (arith, held', decode-foreign candidate written carried fits valid foreign),
      )
