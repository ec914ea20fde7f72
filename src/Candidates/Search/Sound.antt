-- ===== src/Candidates/Search/Sound.antt =====
-- proberca/candidates/builder.py: what `_bfs` puts on record is on a way from the seed.
use probe_rca.Prelude.{
  ℕ, zero, suc, ◌+◌, ◌≤◌, ◌<◌, ◌≡◌, sym, String, Bool, true, ◌||◌, ◌&&◌, List, [], ◌∷◌, leb, mem,
  All, any, ◌==◌, string_eq, nat_eq, if-keeps, Bool-cases, List-cases, ◌⊎◌, inl, inr, arith, eq_iff,
}
use probe_rca.Candidates.Relation.{TopologyRelation, Provenance, records, any-records-append_to}
use probe_rca.Candidates.Search.{
  Bfs, Entry, Search, hops, adjacent, extension, extend, extend_all, found, visit, round, run,
  start, search_from, bfs, provenance_of, target_of, enough,
}
use mathlib.Core.Path.{subst}
use probe_rca.Prelude.Members.{Among, All-path}
use probe_rca.Candidates.Search.Ends.{hops-extension}
use probe_rca.Candidates.Search.Ways.{
  Leads, IsTrail, IsSearch, Leaves, adjacent-Leaves, extension-current, extension-Leads,
  round-IsSearch, start-IsSearch,
}

-- A service is on record for a seed, for the reason of the search, at so many hops.
unfoldable pub has :
    Bfs → (seed : String) → (hop_count : ℕ) → (service : String) → Provenance → Bool
has b seed n t output =
    any (λ p. p.source_object_id == seed && p.reason_code == b.reason && p.hop_count == n)
      (records t output)

pub found-has :
    (b : Bfs) (seed other : String) (e : Entry) (s : Search) (n : ℕ) (t : String)
    → has b seed n t (found b other e s).output
      ≡ (has b seed n t s.output || (t == e.current && other == seed && hops e == n))
unfolding has found provenance_of
found-has b seed other e s n t = ground (
  arith,
  eq_iff b.reason b.reason,
  any-records-append_to
      (λ p. p.source_object_id == seed && p.reason_code == b.reason && p.hop_count == n) t e.current
      (provenance_of b other e) s.output,
)

-- What the search may put on record, over what was there.
abbrev pub IsSound : Bfs → String → Provenance → Search → Type 0
IsSound b seed before s =
    (source : String) (n : ℕ) (t : String)
    → has b source n t s.output ≡ true
    → (has b source n t before ≡ true) ⊎ ((source ≡ seed) × (n ≤ b.max_hops) × Leads b source n t)

extend-IsSound :
    (b : Bfs) (seed : String) (before : Provenance) (e : Entry) (r : TopologyRelation) (s : Search)
    → hops e < b.max_hops
    → IsTrail b seed e
    → Leaves b e.current r
    → IsSound b seed before s
    → IsSound b seed before (extend b seed e r s)
unfolding extend
extend-IsSound b seed before e r s near trail leaves sound =
    if-keeps (IsSound b seed before) (mem (target_of b r) e.path) sound new
  where
    new : IsSound b seed before (found b seed (extension b e r) s)
    new source n t on_record = elim (Bool-cases (has b source n t s.output)) [
      | inl old ↦ sound source n t old
      | inr fresh ↦
          let same : (t ≡ target_of b r) × (n ≡ hops e + 1) × (source ≡ seed) = ground (
            arith,
            on_record,
            fresh,
            found-has b source seed (extension b e r) s n t,
            hops-extension b e r,
            extension-current b e r,
            eq_iff t (extension b e r).current,
            eq_iff seed source,
          ) in
          let way : Leads b source n t =
            rw (same.0, same.1, same.2) (extension-Leads b seed e r trail leaves) in
          inr (same.2, omega (arith, near, same.1), way)
    ]

extend_all-IsSound :
    (b : Bfs) (seed : String) (before : Provenance) (e : Entry) (rs : List TopologyRelation)
    (s : Search)
    → hops e < b.max_hops
    → IsTrail b seed e
    → All (Leaves b e.current) rs
    → IsSound b seed before s
    → IsSound b seed before (extend_all b seed e rs s)
unfolding extend_all
extend_all-IsSound b seed before e [] s near trail leave sound = sound
extend_all-IsSound b seed before e (r ∷ rs) s near trail leave sound =
    extend_all-IsSound b seed before e rs (extend b seed e r s) near trail leave.1
      (extend-IsSound b seed before e r s near trail leave.0 sound)

round-IsSound :
    (b : Bfs) (seed : String) (before : Provenance) (e : Entry) (rest : List Entry) (s : Search)
    → s.queue ≡ e ∷ rest
    → IsSearch b seed s
    → IsSound b seed before s
    → IsSound b seed before (round b seed (e ∷ rest) s)
unfolding round visit
round-IsSound b seed before e rest s held (trails, ways) sound =
    let (trail, others) : All (IsTrail b seed) (e ∷ rest) =
      All-path (IsTrail b seed) s.queue (e ∷ rest) held trails in
    elim (Bool-cases (leb b.max_hops (hops e))) [
      | inl far ↦ rw far sound
      | inr near ↦ rw near (
          extend_all-IsSound b seed before e (adjacent b e.current) (record s { queue = rest })
            (ground (arith, near)) trail (adjacent-Leaves b e.current) sound)
    ]

run-IsSound :
    (b : Bfs) (seed : String) (before : Provenance) (fuel : ℕ) (s : Search)
    → IsSearch b seed s
    → IsSound b seed before s
    → IsSound b seed before (run b seed fuel s)
unfolding run round
run-IsSound b seed before zero s search sound = sound
run-IsSound b seed before (suc fuel) s search sound = elim (List-cases s.queue) [
  | inl empty ↦
      subst (λ q. IsSound b seed before (run b seed fuel (round b seed q s))) (sym empty)
        (run-IsSound b seed before fuel s search sound)
  | inr (e, rest, held) ↦
      subst (λ q. IsSound b seed before (run b seed fuel (round b seed q s))) (sym held)
        (run-IsSound b seed before fuel (round b seed (e ∷ rest) s)
          (round-IsSearch b seed e rest s held search)
          (round-IsSound b seed before e rest s held search sound))
]

pub search_from-IsSound :
    (b : Bfs) (seed : String) (before : Provenance)
    → IsSound b seed before (search_from b seed before)
unfolding search_from
search_from-IsSound b seed before =
    run-IsSound b seed before (enough b) (start seed before) (start-IsSearch b seed before)
      (λ source n t on_record. inl on_record)

-- What is on record after the search was there before, or it is a service that so many relations
-- lead to from one of the seeds, and no more than `max_hops`.
pub bfs_sound :
    (b : Bfs) (seeds : List String) (before : Provenance) (source : String) (n : ℕ) (t : String)
    → has b source n t (bfs b seeds before) ≡ true
    → (has b source n t before ≡ true)
      ⊎ (Among source seeds × (n ≤ b.max_hops) × Leads b source n t)
unfolding bfs
bfs_sound b [] before source n t on_record = inl on_record
bfs_sound b (seed ∷ seeds) before source n t on_record =
    elim (bfs_sound b seeds (search_from b seed before).output source n t on_record) [
      | inr (among, within, way) ↦ inr (inr among, within, way)
      | inl one ↦ elim (search_from-IsSound b seed before source n t one) [
        | inl old ↦ inl old
        | inr (same, within, way) ↦ inr (inl same, within, way)
      ]
    ]
