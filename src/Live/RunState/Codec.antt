-- ===== src/Live/RunState/Codec.antt =====
-- proberca/live/run_state.py: what KubernetesLeaseRunStateStore writes, it reads again.
use probe_rca.Prelude.{
  ◌≡◌, sym, true, Option, none, some, leb, list_beq_refl, ◌==◌, nat_eq, string_eq, ok, guard, arith,
  eq_iff, bind-eq-ok, if-keeps, not, ◌≤◌, ◌+◌, ℕ, String,
}
use probe_rca.Live.RunState.Record.{LeaseRunStateRecord, Hashes, with_holder}
use probe_rca.Live.RunState.Memory.{LeaseFenceToken}
use probe_rca.Live.RunState.Store.{
  LeaseStore, is_same_run, decode, decode_payload, decode_run_state_annotation, annotations_of,
  owned, is_valid_token, rewrite, acquisition, acquired_lease, next_epoch, is_schema, is_available,
  is_same_epoch,
}
use probe_rca.Live.RunState.Validity.{IsValid, validated-IsValid, with_holder-signed}
use probe_rca.Live.RunState.Authority.{Step, takes, authority}
use probe_rca.Live.Lease.{LeaseState, Annotations}

-- A record that the store accepts: valid, and of the store's run.
abbrev pub IsOwn : Hashes → LeaseStore → LeaseRunStateRecord → Type 0
IsOwn h s r = IsValid h r × (is_same_run s.initial_record r ≡ true)

is_same_run_refl : (r : LeaseRunStateRecord) → is_same_run r r ≡ true
unfolding is_same_run
is_same_run_refl r = ground (
  arith,
  eq_iff r.run_id r.run_id,
  eq_iff r.cluster_id r.cluster_id,
  list_beq_refl r.namespace_scope,
  eq_iff r.config_fingerprint r.config_fingerprint,
  eq_iff r.code_schema_version r.code_schema_version,
)

module _ (h : Hashes) (s : LeaseStore) where
  decode_payload-IsOwn :
      (o : Option LeaseRunStateRecord) (r : LeaseRunStateRecord)
      → decode_payload h s o ≡ ok r
      → IsOwn h s r
  unfolding decode_payload decode_run_state_annotation
  decode_payload-IsOwn none r p = ground arith
  decode_payload-IsOwn (some payload) r p =
      let (v, decoded, p1) = bind-eq-ok (decode_run_state_annotation h s payload) _ p in
      let (_, _, is_validated) =
        bind-eq-ok (guard (leb (h.record_bytes payload) s.annotation_max_bytes) _) _ decoded in
      let (_, same, p2) = bind-eq-ok (guard (is_same_run s.initial_record v) _) _ p1 in
      let same_record : v ≡ r = ground arith in
      rw (sym same_record) (validated-IsValid h payload v is_validated, ground arith)

  pub decode-IsOwn :
      (lease : Option LeaseState) (r : LeaseRunStateRecord)
      → IsValid h s.initial_record
      → decode h s lease ≡ ok r
      → IsOwn h s r
  unfolding decode
  decode-IsOwn none r valid p =
      let first : s.initial_record ≡ r = ground arith in
      rw (sym first) (valid, is_same_run_refl s.initial_record)
  decode-IsOwn (some lease) r valid p =
      let (_, _, p1) = bind-eq-ok (guard (is_schema lease.annotations.schema) _) _ p in
      decode_payload-IsOwn lease.annotations.run_state r p1

  -- A record of the run that `_annotations` encodes is decoded from any lease that carries the
  -- annotations.
  pub annotations_of-decode :
      (r : LeaseRunStateRecord) (a : Annotations) (lease : LeaseState)
      → IsOwn h s r
      → annotations_of h s r ≡ ok a
      → lease.annotations ≡ a
      → decode h s (some lease) ≡ ok r
  unfolding annotations_of decode decode_payload decode_run_state_annotation
  annotations_of-decode r a lease own encoded carried =
      let (_, fits, is_written) =
        bind-eq-ok (guard (leb (h.record_bytes r) s.annotation_max_bytes) _) _ encoded in
      let written : lease.annotations ≡ record { schema = some "1.0"; run_state = some r } =
        ground (arith, carried, is_written) in
      rw written (ground (arith, fits, own.0, own.1))

  -- What `_decode` and `_validate` establish.
  pub owned-ok :
      (now : ℕ) (t : LeaseFenceToken) (lease : Option LeaseState) (r : LeaseRunStateRecord)
      (old : LeaseState)
      → owned h s now t lease ≡ ok (r, old)
      → (lease ≡ some old) × (decode h s lease ≡ ok r) × (is_valid_token h s now t old r ≡ true)
  unfolding owned
  owned-ok now t none r old p = ground arith
  owned-ok now t (some lease) r old p =
      let (r', decoded, p1) = bind-eq-ok (decode h s (some lease)) _ p in
      let (_, is_valid, p2) = bind-eq-ok (guard (is_valid_token h s now t lease r') _) _ p1 in
      let same_record : r' ≡ r = ground (arith, p2) in
      let same_lease : lease ≡ old = ground (arith, p2) in
      (
        ground (arith, same_lease),
        ground (arith, decoded, same_record),
        rw (sym same_record, sym same_lease) (ground arith),
      )

  pub rewrite-ok :
      (now renew_time : ℕ) (t : LeaseFenceToken) (lease : Option LeaseState)
      (r : LeaseRunStateRecord) (candidate : LeaseState)
      → rewrite h s now renew_time t lease ≡ ok (r, candidate)
      → (decode h s lease ≡ ok r) × (annotations_of h s r ≡ ok candidate.annotations)
  unfolding rewrite
  rewrite-ok now renew_time t lease r candidate p =
      let ((r', old), is_owned, p1) = bind-eq-ok (owned h s now t lease) _ p in
      let (a, encoded, p2) = bind-eq-ok (annotations_of h s r') _ p1 in
      let (_, decoded, _) = owned-ok now t lease r' old is_owned in
      let same : r' ≡ r = ground (arith, p2) in
      (ground (arith, same, decoded), ground (arith, same, encoded, p2))

  next_epoch-bounds :
      (name : String) (now : ℕ) (lease : Option LeaseState) (epoch : ℕ)
      → next_epoch h s name now lease epoch ≤ epoch + 1
  unfolding next_epoch
  next_epoch-bounds name now lease epoch =
      if-keeps (λ n. n ≤ epoch + 1) (is_same_epoch h s name now lease) (omega arith) (omega arith)

  -- An acquisition writes the record with the new holder, whose epoch is the same or the next.
  pub acquisition-ok :
      (name : String) (now : ℕ) (lease : Option LeaseState) (v : LeaseRunStateRecord)
      (candidate : LeaseState)
      → IsValid h s.initial_record
      → acquisition h s name now lease ≡ ok (v, candidate)
      → (r : LeaseRunStateRecord) × (decode h s lease ≡ ok r)
        × IsOwn h s v
        × Step (authority r) (authority v)
        × (annotations_of h s v ≡ ok candidate.annotations)
  unfolding acquisition acquired_lease authority is_same_run
  acquisition-ok name now lease v candidate valid p =
      let (_, _, p1) = bind-eq-ok (guard (not (name == "")) _) _ p in
      let (r, decoded, p2) = bind-eq-ok (decode h s lease) _ p1 in
      let (_, _, p3) = bind-eq-ok (guard (is_available h s name now lease) _) _ p2 in
      let epoch = next_epoch h s name now lease r.leadership_epoch in
      let (v', taken, p4) = bind-eq-ok (with_holder h (h.holder_sha name) epoch r) _ p3 in
      let (a, encoded, p5) = bind-eq-ok (annotations_of h s v') _ p4 in
      let (up, is_valid, is_signed) = with_holder-signed h (h.holder_sha name) epoch r v' taken in
      let own = decode-IsOwn lease r valid decoded in
      let same : v' ≡ v = ground (arith, p5) in
      let moved : Step (authority r) (authority v') = rw is_signed (
        takes (h.holder_sha name) epoch up (next_epoch-bounds name now lease r.leadership_epoch)) in
      let same_run : is_same_run s.initial_record v' ≡ true = rw is_signed own.1 in
      rw (sym same) (r, decoded, (is_valid, same_run), moved, ground (arith, encoded, p5))
