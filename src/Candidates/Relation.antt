-- ===== src/Candidates/Relation.antt =====
-- proberca/topology/core.py, proberca/data/schema.py and proberca/candidates/builder.py: relations
-- between services, and the records that say why an object is a candidate. A detail is the dict of
-- its text values.
use probe_rca.Prelude.{
  ℕ, ◌≡◌, String, Bool, ◌&&◌, ◌||◌, Option, List, [], ◌∷◌, ◌++◌, ◌==◌, string_eq, any,
  if◌then◌else◌, arith, eq_iff,
}
use probe_rca.Prelude.Keys.{Dict}

pub record TopologyRelation : Type 0 where
  pub relation_id : String
  pub relation_type : String
  pub src_service_id : String
  pub dst_service_id : String
  pub protocol : Option String
  pub symmetric : Bool
  pub detail : Dict String

pub record CandidateProvenance : Type 0 where
  pub object_id : String
  pub object_type : String
  pub reason_code : String
  pub source_object_id : String
  pub hop_count : ℕ
  pub relation_path : List String
  pub relation_ids : List String
  pub snapshot_id : String
  pub alert_id : String
  pub detail : Dict String

-- dict[str, list[CandidateProvenance]]
abbrev pub Provenance : Type 0
Provenance = Dict (List CandidateProvenance)

-- output.get(k, [])
unfoldable pub records : String → Provenance → List CandidateProvenance
records k [] = []
records k ((j, ps) ∷ output) = let rest = records k output in if k == j then ps else rest

-- output.setdefault(k, []).append(p)
unfoldable pub append_to : String → CandidateProvenance → Provenance → Provenance
append_to k p [] = (k, p ∷ []) ∷ []
append_to k p ((j, ps) ∷ output) =
    let rest = append_to k p output in if k == j then (j, ps ++ p ∷ []) ∷ output else (j, ps) ∷ rest

any_last :
    (test : CandidateProvenance → Bool) (p : CandidateProvenance) (ps : List CandidateProvenance)
    → any test (ps ++ p ∷ []) ≡ (any test ps || test p)
any_last test p [] = ground arith
any_last test p (q ∷ ps) = ground (arith, any_last test p ps)

-- A service has a record of some kind after one is appended, if it had one, or if that is one.
pub any-records-append_to :
    (test : CandidateProvenance → Bool) (t k : String) (p : CandidateProvenance)
    (output : Provenance)
    → any test (records t (append_to k p output))
      ≡ (any test (records t output) || (t == k && test p))
unfolding records append_to
any-records-append_to test t k p [] = ground (arith, eq_iff t k)
any-records-append_to test t k p ((j, ps) ∷ output) = ground (
  arith,
  any-records-append_to test t k p output,
  any_last test p ps,
  eq_iff t k,
  eq_iff t j,
  eq_iff k j,
)
