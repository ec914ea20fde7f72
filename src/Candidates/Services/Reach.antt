-- ===== src/Candidates/Services/Reach.antt =====
-- proberca/candidates/builder.py: which services are candidates.
use mathlib.Core.Path.{subst}
use probe_rca.Prelude.{
  ℕ, ◌≤◌, ◌<◌, ◌≡◌, sym, ◌∙◌, String, true, List, [], ◌∷◌, keep, leb, mem, ◌==◌, string_eq, nat_eq,
  if-keeps, arith, eq_iff, ok, bind-eq-ok, Option-cases, Bool-cases, ◌⊎◌, inl, inr, length,
}
use probe_rca.Prelude.Keys.{keys, insert, mem-insert, set_of, mem-set_of}
use probe_rca.Prelude.Members.{Among}
use probe_rca.Alerting.Types.{AlertEvent}
use probe_rca.Candidates.Relation.{TopologyRelation, Provenance}
use probe_rca.Candidates.Search.{Bfs, bfs}
use probe_rca.Candidates.Search.Sound.{has}
use probe_rca.Candidates.Search.Keeps.{bfs-has}
use probe_rca.Candidates.Search.Nearest.{IsAt}
use probe_rca.Candidates.Search.Complete.{bfs_complete}
use probe_rca.Candidates.Builder.{
  CandidateGraphConfig, TopologyGraph, namespace_scoped_graph, seeds_of, joins, trigger_seeds,
  edge_seeds, relation_of, with_endpoints, Seeds,
}
use probe_rca.Candidates.Services.{
  grouped, service_provenance, limited, scoped_services, candidate_services, upstream, downstream,
}
use probe_rca.Candidates.Services.Records.{has-keys, contexts-has}

mem-Among : (x : String) (xs : List String) → mem x xs ≡ true → Among x xs
mem-Among x [] h = ground arith
mem-Among x (y ∷ ys) h = elim (Bool-cases (x == y)) [
  | inl same ↦ inl ((eq_iff x y).0 same)
  | inr other ↦ inr (mem-Among x ys (ground (arith, h, other)))
]

with_endpoints-mem :
    (config : CandidateGraphConfig) (alert : AlertEvent) (g : TopologyGraph) (edge_id : String)
    (r : TopologyRelation) (found : Seeds) (t : String)
    → mem t found.0 ≡ true
    → mem t (with_endpoints config alert g edge_id r found).0 ≡ true
with_endpoints-mem config alert g edge_id r (seeds, provenance) t h =
    if-keeps (λ (f : Seeds). mem t f.0 ≡ true) config.include_trigger_edge_endpoints
      (ground (
        arith,
        h,
        mem-insert t r.dst_service_id (insert r.src_service_id seeds),
        mem-insert t r.src_service_id seeds,
      ))
      h

edge_seeds-mem :
    (config : CandidateGraphConfig) (alert : AlertEvent) (g : TopologyGraph) (edges : List String)
    (found seeds : Seeds) (t : String)
    → edge_seeds config alert g edges found ≡ ok seeds
    → mem t found.0 ≡ true
    → mem t seeds.0 ≡ true
unfolding edge_seeds
edge_seeds-mem config alert g [] found seeds t p h =
    let same : found ≡ seeds = ground arith in rw (sym same) h
edge_seeds-mem config alert g (edge_id ∷ edges) found seeds t p h =
    elim (Option-cases (relation_of edge_id g.physical_edges)) [
      | inl stale ↦ ground (arith, p, stale)
      | inr (r, known) ↦
          edge_seeds-mem config alert g edges (with_endpoints config alert g edge_id r found) seeds
            t (ground (arith, p, known)) (with_endpoints-mem config alert g edge_id r found t h)
    ]

seeds_of-mem :
    (config : CandidateGraphConfig) (alert : AlertEvent) (g : TopologyGraph) (seeds : Seeds)
    (t : String)
    → seeds_of config alert g ≡ ok seeds
    → mem t alert.trigger_services ≡ true
    → mem t seeds.0 ≡ true
unfolding seeds_of
seeds_of-mem config alert g seeds t p h =
    let (provenance, _, p1) =
      bind-eq-ok (trigger_seeds config alert g (set_of alert.trigger_services)) _ p in
    edge_seeds-mem config alert g alert.trigger_edges (set_of alert.trigger_services, provenance)
      seeds t p1 (mem-set_of t alert.trigger_services ∙ h)

-- The two searches, of which one finds the services that others are affected by, and the other
-- those that are called.
abbrev pub IsDirection : CandidateGraphConfig → AlertEvent → TopologyGraph → Bfs → Type 0
IsDirection config alert g b = (b ≡ upstream config alert g) ⊎ (b ≡ downstream config alert g)

searches-has :
    (config : CandidateGraphConfig) (alert : AlertEvent) (g : TopologyGraph) (b : Bfs)
    (seeds : List String) (before : Provenance) (seed : String) (n : ℕ) (t : String)
    → IsDirection config alert g b
    → Among seed seeds
    → 0 < n
    → IsAt b seed n t
    → n ≤ b.max_hops
    → has b seed n t
        (bfs (downstream config alert g) seeds (bfs (upstream config alert g) seeds before))
      ≡ true
searches-has config alert g b seeds before seed n t (inl up) m far at within =
    bfs-has b (downstream config alert g) seeds (bfs (upstream config alert g) seeds before) seed n
      t
      (subst (λ x. has b seed n t (bfs x seeds before) ≡ true) up
        (bfs_complete b seeds before seed n t m far at within))
searches-has config alert g b seeds before seed n t (inr down) m far at within =
    subst (λ x. has b seed n t (bfs x seeds (bfs (upstream config alert g) seeds before)) ≡ true)
      down
      (bfs_complete b seeds (bfs (upstream config alert g) seeds before) seed n t m far at within)

limited-ok {ℓ} :
    {A : Type ℓ} (limit : ℕ) (xs ys : List A)
    → limited limit xs ≡ ok ys
    → (xs ≡ ys) × (length ys ≤ limit)
unfolding limited
limited-ok limit xs ys p = elim (Bool-cases (leb (length xs) limit)) [
  | inl short ↦
      let same : xs ≡ ys = ground (arith, p, short) in (same, rw (sym same) (ground (arith, short)))
  | inr long ↦ ground (arith, p, long)
]

scoped_services-ok :
    (config : CandidateGraphConfig) (alert : AlertEvent) (g : TopologyGraph)
    (services : List String) (output : Provenance) (physical : List TopologyRelation)
    → scoped_services config alert g ≡ ok (services, output, physical)
    → (found : Seeds) × (seeds_of config alert g ≡ ok found)
      × (services ≡ keys (service_provenance config alert g found.0 found.1))
      × (length services ≤ config.max_candidate_services)
unfolding scoped_services
scoped_services-ok config alert g services output physical p =
    let (found, is_seeds, p1) = bind-eq-ok (seeds_of config alert g) _ p in
    let all_services = keys (service_provenance config alert g found.0 found.1) in
    let (listed, is_listed, p2) =
      bind-eq-ok (limited config.max_candidate_services all_services) _ p1 in
    let (_, _, p3) =
      bind-eq-ok
        (limited config.max_candidate_physical_edges (keep (joins listed) g.physical_edges)) _ p2 in
    let same : listed ≡ services = ground (arith, p3) in
    let (kept, short) = limited-ok config.max_candidate_services all_services listed is_listed in
    (found, is_seeds, sym (kept ∙ same), rw (sym same) short)

service_provenance-has :
    (config : CandidateGraphConfig) (alert : AlertEvent) (g : TopologyGraph) (b : Bfs)
    (found : Seeds) (seed : String) (n : ℕ) (t : String)
    → IsDirection config alert g b
    → mem seed found.0 ≡ true
    → 0 < n
    → IsAt b seed n t
    → n ≤ b.max_hops
    → has b seed n t (service_provenance config alert g found.0 found.1) ≡ true
unfolding service_provenance
service_provenance-has config alert g b found seed n t dir m far at within =
    contexts-has b seed n t config alert g found.0 _ (
      searches-has config alert g b found.0 (grouped found.1 []) seed n t dir
        (mem-Among seed found.0 m) far at within)

-- The candidates that were built without an error: on the graph of the allowed namespaces, each
-- service to which a trigger service's shortest way has at most the configured number of relations,
-- up along impacts or down along calls, and at least one, is among them, and they are no more than
-- the limit.
pub candidate_services_complete :
    (config : CandidateGraphConfig) (alert : AlertEvent) (graph g : TopologyGraph) (b : Bfs)
    (services : List String) (output : Provenance) (physical : List TopologyRelation)
    (seed : String) (n : ℕ) (t : String)
    → namespace_scoped_graph config graph ≡ ok g
    → candidate_services config alert graph ≡ ok (services, output, physical)
    → IsDirection config alert g b
    → mem seed alert.trigger_services ≡ true
    → 0 < n
    → IsAt b seed n t
    → n ≤ b.max_hops
    → (mem t services ≡ true) × (length services ≤ config.max_candidate_services)
unfolding candidate_services
candidate_services_complete config alert graph g b services output physical seed n t scoped p dir
      triggers far at within =
    let p1 : scoped_services config alert g ≡ ok (services, output, physical) =
      ground (arith, scoped, p) in
    let (found, is_seeds, all_services, short) =
      scoped_services-ok config alert g services output physical p1 in
    let m = seeds_of-mem config alert g found seed is_seeds triggers in
    let on_record = service_provenance-has config alert g b found seed n t dir m far at within in
    (
      rw all_services
          (has-keys b seed n t (service_provenance config alert g found.0 found.1) on_record),
      short,
    )
