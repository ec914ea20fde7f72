-- ===== src/Candidates/Search.antt =====
-- proberca/candidates/builder.py: _bfs. The adjacency dict is the function that looks a service up in
-- it. `while queue` runs on fuel: a service at a depth of `hops` needs at most `fuel_for` rounds.
pub mod Ends
pub mod Ways
pub mod Sound
pub mod Keeps
pub mod Nearest
pub mod Complete
use probe_rca.Prelude.{
  ℕ, zero, suc, ◌+◌, ◌*◌, ◌-◌, String, Bool, true, false, Option, none, some, List, [], ◌∷◌, ◌++◌,
  length, leb, ltb, mem, keep, ◌==◌, string_eq, if◌then◌else◌,
}
use probe_rca.Prelude.Keys.{Dict, get, put}
use probe_rca.Prelude.Sorting.{sort_by, text_le}
use probe_rca.Candidates.Relation.{TopologyRelation, CandidateProvenance, Provenance, append_to}

-- The arguments of `_bfs` but the seeds and the output.
pub record Bfs : Type 0 where
  pub relations : List TopologyRelation
  pub max_hops : ℕ
  pub incoming : Bool
  pub reason : String
  pub alert_id : String
  pub snapshot_id : String

-- An element of the queue.
pub record Entry : Type 0 where
  pub current : String
  pub path : List String
  pub relation_ids : List String

pub record Search : Type 0 where
  pub queue : List Entry
  pub shortest : Dict ℕ
  pub output : Provenance

unfoldable pub key_of : Bfs → TopologyRelation → String
key_of b r = if b.incoming then r.dst_service_id else r.src_service_id

unfoldable pub target_of : Bfs → TopologyRelation → String
target_of b r = if b.incoming then r.src_service_id else r.dst_service_id

abbrev pub relation_le : TopologyRelation → TopologyRelation → Bool
relation_le r q = text_le r.relation_id q.relation_id

-- adjacency.get(current, [])
unfoldable pub adjacent : Bfs → String → List TopologyRelation
adjacent b current = sort_by relation_le (keep (λ r. key_of b r == current) b.relations)

-- The entry for the far end of a relation.
unfoldable pub extension : Bfs → Entry → TopologyRelation → Entry
extension b e r = record {
  current = target_of b r;
  path = if b.incoming then target_of b r ∷ e.path else e.path ++ target_of b r ∷ [];
  relation_ids =
      if b.incoming then r.relation_id ∷ e.relation_ids else e.relation_ids ++ r.relation_id ∷ [];
}

abbrev pub hops : Entry → ℕ
hops e = length e.relation_ids

unfoldable pub provenance_of : Bfs → (seed : String) → Entry → CandidateProvenance
provenance_of b seed e = record {
  object_id = e.current;
  object_type = "service";
  reason_code = b.reason;
  source_object_id = seed;
  hop_count = hops e;
  relation_path = e.path;
  relation_ids = e.relation_ids;
  snapshot_id = b.snapshot_id;
  alert_id = b.alert_id;
  detail = [];
}

-- shortest.get(target, hop)
abbrev pub get_or : ℕ → Option ℕ → ℕ
get_or d none = d
get_or d (some n) = n

-- A found entry is put on record, and in the queue if no shorter way to its service is known.
unfoldable pub found : Bfs → (seed : String) → Entry → Search → Search
found b seed e s =
    let output = append_to e.current (provenance_of b seed e) s.output in
    if leb (hops e) (get_or (hops e) (get e.current s.shortest))
    then record {
      queue = s.queue ++ e ∷ [];
      shortest = put e.current (hops e) s.shortest;
      output = output;
    }
    else record s { output = output }

-- The body of the loop over the relations of a service.
unfoldable pub extend : Bfs → (seed : String) → Entry → TopologyRelation → Search → Search
extend b seed e r s = if mem (target_of b r) e.path then s else found b seed (extension b e r) s

unfoldable pub extend_all : Bfs → (seed : String) → Entry → List TopologyRelation → Search → Search
extend_all b seed e [] s = s
extend_all b seed e (r ∷ rs) s = extend_all b seed e rs (extend b seed e r s)

unfoldable pub visit : Bfs → (seed : String) → Entry → Search → Search
visit b seed e s =
    if leb b.max_hops (hops e) then s else extend_all b seed e (adjacent b e.current) s

-- One round of `while queue`, for the queue that it finds.
unfoldable pub round : Bfs → (seed : String) → List Entry → Search → Search
round b seed [] s = s
round b seed (e ∷ rest) s = visit b seed e (record s { queue = rest })

unfoldable pub run : Bfs → (seed : String) → (fuel : ℕ) → Search → Search
run b seed zero s = s
run b seed (suc fuel) s = run b seed fuel (round b seed s.queue s)

-- A service, the ways on from it, and those on from each of them.
unfoldable pub fuel_for : (relations hops_left : ℕ) → ℕ
fuel_for n zero = 1
fuel_for n (suc k) = 1 + n * fuel_for n k

abbrev pub start : (seed : String) → Provenance → Search
start seed output = record {
  queue = record { current = seed; path = seed ∷ []; relation_ids = [] } ∷ [];
  shortest = (seed, 0) ∷ [];
  output = output;
}

abbrev pub enough : Bfs → ℕ
enough b = fuel_for (length b.relations) b.max_hops

-- The search from one seed.
unfoldable pub search_from : Bfs → (seed : String) → Provenance → Search
search_from b seed output = run b seed (enough b) (start seed output)

-- _bfs, for the sorted seeds
unfoldable pub bfs : Bfs → (seeds : List String) → Provenance → Provenance
bfs b [] output = output
bfs b (seed ∷ seeds) output = bfs b seeds (search_from b seed output).output
