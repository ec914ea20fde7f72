-- ===== src/Live/RunState/Validity.antt =====
-- proberca/live/run_state.py: what a validated record keeps.
use probe_rca.Prelude.{
  ℕ, ◌+◌, ◌≡◌, ◌≤◌, String, true, not, Option, none, some, leb, ltb, ◌==◌, nat_eq, string_eq, ok,
  guard, arith, eq_iff, bind-eq-ok, Option-cases, inl, inr,
}
use probe_rca.Live.RunState.Record.{
  LeaseRunStateRecord, RunStatePayload, Commit, Hashes, validated, check_payload,
  has_all_dependents, with_holder, with_commit, commit_payload, is_sha, is_holder, unsigned,
}

module _ (h : Hashes) where
  abbrev pub signed : RunStatePayload → LeaseRunStateRecord
  signed p = record { payload = p; record_fingerprint = h.record_sha p }

  -- The record passes its own validation, with its fingerprint in place.
  abbrev pub IsValid : LeaseRunStateRecord → Type 0
  IsValid r = validated h r ≡ ok r

  pub validated-signed :
      (r v : LeaseRunStateRecord)
      → validated h r ≡ ok v
      → (check_payload r.payload ≡ ok tt) × (v ≡ signed r.payload)
  unfolding validated
  validated-signed r v p =
      let (u, checked, rest) = bind-eq-ok (check_payload r.payload) _ p in (checked, ground arith)

  pub signed-IsValid : (p : RunStatePayload) → check_payload p ≡ ok tt → IsValid (signed p)
  unfolding validated
  signed-IsValid p checked = ground (arith, checked, eq_iff (h.record_sha p) (h.record_sha p))

  pub validated-IsValid : (r v : LeaseRunStateRecord) → validated h r ≡ ok v → IsValid v
  validated-IsValid r v p =
      let (checked, is_signed) = validated-signed r v p in
      rw is_signed (signed-IsValid r.payload checked)

  is_holder-some : (o : Option String) (s : String) → is_holder h o s ≡ true → o ≡ some s
  is_holder-some none s p = ground arith
  is_holder-some (some own) s p = ground (arith, eq_iff s own)

  pub with_holder-signed :
      (holder : String) (epoch : ℕ) (r v : LeaseRunStateRecord)
      → with_holder h holder epoch r ≡ ok v
      → (r.leadership_epoch ≤ epoch)
        × IsValid v
        × (v
            ≡ signed
                (record (r.payload) { holder_fingerprint = some holder; leadership_epoch = epoch }))
  unfolding with_holder
  with_holder-signed holder epoch r v p =
      let taken = record (r.payload) {
        holder_fingerprint = some holder;
        leadership_epoch = epoch;
      } in
      let (_, is_holder_sha, p') = bind-eq-ok (guard (is_sha holder) _) _ p in
      let (_, no_regress, p'') = bind-eq-ok (guard (leb r.leadership_epoch epoch) _) _ p' in
      (
        ground arith,
        validated-IsValid (unsigned h taken) v p'',
        (validated-signed (unsigned h taken) v p'').1,
      )

  pub with_commit-signed :
      (c : Commit) (r v : LeaseRunStateRecord)
      → with_commit h c r ≡ ok v
      → (c.sequence ≡ r.committed_sequence + 1)
        × (c.leadership_epoch ≡ r.leadership_epoch)
        × (r.holder_fingerprint ≡ some c.holder_fingerprint)
        × IsValid v
        × (v ≡ signed (commit_payload h c r))
  unfolding with_commit
  with_commit-signed c r v p =
      let (_, next, p1) = bind-eq-ok (guard (c.sequence == r.committed_sequence + 1) _) _ p in
      let (_, epoch, p2) = bind-eq-ok (guard (c.leadership_epoch == r.leadership_epoch) _) _ p1 in
      let (_, holder, p3) =
        bind-eq-ok (guard (is_holder h r.holder_fingerprint c.holder_fingerprint) _) _ p2 in
      let (_, named, p4) = bind-eq-ok (guard (not (c.generation_id == "")) _) _ p3 in
      let candidate = unsigned h (commit_payload h c r) in
      (
        ground arith,
        ground arith,
        is_holder-some r.holder_fingerprint c.holder_fingerprint (ground arith),
        validated-IsValid candidate v p4,
        (validated-signed candidate v p4).1,
      )

  pub committed-names :
      (p : RunStatePayload)
      → check_payload p ≡ ok tt
      → ltb 0 p.committed_sequence ≡ true
      → (holder : String) × (generation : String) × (p.holder_fingerprint ≡ some holder)
        × (p.current_generation_id ≡ some generation)
  unfolding check_payload has_all_dependents
  committed-names p checked committed = elim (Option-cases p.holder_fingerprint) [
    | inl nobody ↦ ground (arith, checked, committed)
    | inr (holder, held) ↦ elim (Option-cases p.current_generation_id) [
      | inl nothing ↦ ground (arith, checked, committed)
      | inr (generation, named) ↦ (holder, generation, held, named)
    ]
  ]
