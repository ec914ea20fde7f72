-- ===== src/Candidates/Search/Keeps.antt =====
-- proberca/candidates/builder.py: that `_bfs` keeps what is on record, of its own and of others.
use probe_rca.Prelude.{
  ℕ, zero, suc, ◌≡◌, String, true, ◌&&◌, List, [], ◌∷◌, leb, mem, ◌==◌, string_eq, nat_eq, if-keeps,
  arith,
}
use probe_rca.Prelude.Keys.{get}
use probe_rca.Candidates.Relation.{
  TopologyRelation, CandidateProvenance, Provenance, append_to, any-records-append_to,
}
use probe_rca.Candidates.Search.{
  Bfs, Entry, Search, hops, adjacent, extension, extend, extend_all, found, visit, round, run,
  start, search_from, bfs, target_of, enough, provenance_of, get_or,
}
use probe_rca.Candidates.Search.Sound.{has}

-- What is on record stays so, whatever is appended.
pub append-has :
    (b : Bfs) (source : String) (n : ℕ) (t k : String) (p : CandidateProvenance)
    (output : Provenance)
    → has b source n t output ≡ true
    → has b source n t (append_to k p output) ≡ true
unfolding has
append-has b source n t k p output h = ground (
  arith,
  h,
  any-records-append_to
      (λ q. q.source_object_id == source && q.reason_code == b.reason && q.hop_count == n) t k p
      output,
)

-- A search that is further on has what is on record.
module _ (b b' : Bfs) (seed source : String) where
  found-keeps :
      (e : Entry) (s : Search) (n : ℕ) (t : String)
      → has b source n t s.output ≡ true
      → has b source n t (found b' seed e s).output ≡ true
  unfolding found
  found-keeps e s n t h =
      let kept = append-has b source n t e.current (provenance_of b' seed e) s.output h in
      if-keeps (λ (s' : Search). has b source n t s'.output ≡ true)
        (leb (hops e) (get_or (hops e) (get e.current s.shortest))) kept kept

  extend-has :
      (e : Entry) (r : TopologyRelation) (s : Search) (n : ℕ) (t : String)
      → has b source n t s.output ≡ true
      → has b source n t (extend b' seed e r s).output ≡ true
  unfolding extend
  extend-has e r s n t h =
      if-keeps (λ (s' : Search). has b source n t s'.output ≡ true) (mem (target_of b' r) e.path) h
        (found-keeps (extension b' e r) s n t h)

  pub extend_all-has :
      (e : Entry) (rs : List TopologyRelation) (s : Search) (n : ℕ) (t : String)
      → has b source n t s.output ≡ true
      → has b source n t (extend_all b' seed e rs s).output ≡ true
  unfolding extend_all
  extend_all-has e [] s n t h = h
  extend_all-has e (r ∷ rs) s n t h =
      extend_all-has e rs (extend b' seed e r s) n t (extend-has e r s n t h)

  round-has :
      (q : List Entry) (s : Search) (n : ℕ) (t : String)
      → has b source n t s.output ≡ true
      → has b source n t (round b' seed q s).output ≡ true
  unfolding round visit
  round-has [] s n t h = h
  round-has (e ∷ rest) s n t h =
      if-keeps (λ (s' : Search). has b source n t s'.output ≡ true) (leb b'.max_hops (hops e)) h
        (extend_all-has e (adjacent b' e.current) (record s { queue = rest }) n t h)

  pub run-has :
      (fuel : ℕ) (s : Search) (n : ℕ) (t : String)
      → has b source n t s.output ≡ true
      → has b source n t (run b' seed fuel s).output ≡ true
  unfolding run
  run-has zero s n t h = h
  run-has (suc fuel) s n t h =
      run-has fuel (round b' seed s.queue s) n t (round-has s.queue s n t h)

  search_from-has :
      (before : Provenance) (n : ℕ) (t : String)
      → has b source n t before ≡ true
      → has b source n t (search_from b' seed before).output ≡ true
  unfolding search_from
  search_from-has before n t h = run-has (enough b') (start seed before) n t h

pub bfs-has :
    (b b' : Bfs) (seeds : List String) (before : Provenance) (source : String) (n : ℕ) (t : String)
    → has b source n t before ≡ true
    → has b source n t (bfs b' seeds before) ≡ true
unfolding bfs
bfs-has b b' [] before source n t h = h
bfs-has b b' (seed ∷ seeds) before source n t h =
    bfs-has b b' seeds (search_from b' seed before).output source n t
      (search_from-has b b' seed source before n t h)
