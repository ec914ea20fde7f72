-- ===== src/Candidates/Services/Records.antt =====
-- proberca/candidates/builder.py: that a service on record stays so, and is a candidate.
use probe_rca.Prelude.{
  ℕ, ◌≡◌, String, Bool, true, ◌||◌, ◌&&◌, List, [], ◌∷◌, any, mem, ◌==◌, string_eq, nat_eq,
  if-keeps, arith, eq_iff,
}
use probe_rca.Prelude.Keys.{keys, mem-insert}
use probe_rca.Alerting.Types.{AlertEvent}
use probe_rca.Candidates.Relation.{TopologyRelation, CandidateProvenance, Provenance, records}
use probe_rca.Candidates.Search.{Bfs}
use probe_rca.Candidates.Search.Sound.{has}
use probe_rca.Candidates.Search.Keeps.{append-has}
use probe_rca.Candidates.Builder.{CandidateGraphConfig, TopologyGraph}
use probe_rca.Candidates.Services.{
  Context, context_of, direct_context, context_record, other_end, with_cohosts, with_shared,
}

-- A service with a record is a key.
any-keys :
    (test : CandidateProvenance → Bool) (t : String) (output : Provenance)
    → any test (records t output) ≡ true
    → mem t (keys output) ≡ true
unfolding records keys
any-keys test t [] h = ground arith
any-keys test t ((j, ps) ∷ output) h =
    ground (arith, h, any-keys test t output, mem-insert t j (keys output), eq_iff t j)

pub has-keys :
    (b : Bfs) (source : String) (n : ℕ) (t : String) (output : Provenance)
    → has b source n t output ≡ true
    → mem t (keys output) ≡ true
unfolding has
has-keys b source n t output h =
    any-keys (λ p. p.source_object_id == source && p.reason_code == b.reason && p.hop_count == n) t
      output h

module _ (b : Bfs) (source : String) (n : ℕ) (t : String) where
  context_of-has :
      (c : Context) (seed : String) (rs : List TopologyRelation) (output : Provenance)
      → has b source n t output ≡ true
      → has b source n t (context_of c seed rs output) ≡ true
  unfolding context_of
  context_of-has c seed [] output h = h
  context_of-has c seed (r ∷ rs) output h = context_of-has c seed rs _ (
      if-keeps (λ o. has b source n t o ≡ true)
        (seed == r.src_service_id || seed == r.dst_service_id)
        (append-has b source n t (other_end seed r) (context_record c seed r) output h) h)

  direct_context-has :
      (c : Context) (seeds : List String) (output : Provenance)
      → has b source n t output ≡ true
      → has b source n t (direct_context c seeds output) ≡ true
  unfolding direct_context
  direct_context-has c [] output h = h
  direct_context-has c (seed ∷ seeds) output h =
      direct_context-has c seeds (context_of c seed c.relations output)
        (context_of-has c seed c.relations output h)

  pub contexts-has :
      (config : CandidateGraphConfig) (alert : AlertEvent) (g : TopologyGraph) (seeds : List String)
      (output : Provenance)
      → has b source n t output ≡ true
      → has b source n t
          (with_shared config alert g seeds (with_cohosts config alert g seeds output))
        ≡ true
  unfolding with_shared with_cohosts
  contexts-has config alert g seeds output h =
      let cohosts =
        if-keeps (λ o. has b source n t o ≡ true) config.include_cohost
          (direct_context-has _ seeds output h) h in
      if-keeps (λ o. has b source n t o ≡ true) config.include_shared_resource
        (direct_context-has _ seeds _ cohosts) cohosts
