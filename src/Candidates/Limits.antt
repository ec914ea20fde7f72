-- ===== src/Candidates/Limits.antt =====
-- proberca/candidates/builder.py: _limit_provenance, which cuts the records of an object.
pub mod Count
use Prim.Native.Nat.{compare as nat_compare, Ordering}
use Prim.Native.String.{compare}
use probe_rca.Prelude.{
  ℕ, String, Bool, true, false, ◌&&◌, not, List, [], ◌∷◌, ◌++◌, length, take, ltb, list_beq, ◌==◌,
  string_eq, if◌then◌else◌,
}
use probe_rca.Prelude.Sorting.{sort_by, text_le, lex_le}
use probe_rca.Candidates.Relation.{CandidateProvenance, Provenance}
use probe_rca.Candidates.Services.{grouped}

-- An entry of `quality_issues` with the reason "provenance_truncated".
pub record Truncated : Type 0 where
  pub object_id : String
  pub original_count : ℕ
  pub kept : ℕ

-- The order of the tuples (hop_count, reason_code, relation_ids, source_object_id).
unfoldable pub provenance_le : CandidateProvenance → CandidateProvenance → Bool
provenance_le a b = elim (nat_compare a.hop_count b.hop_count) [
  | Ordering.lt ↦ true
  | Ordering.gt ↦ false
  | Ordering.eq ↦ elim (compare a.reason_code b.reason_code) [
    | Ordering.lt ↦ true
    | Ordering.gt ↦ false
    | Ordering.eq ↦
        if list_beq a.relation_ids b.relation_ids
        then text_le a.source_object_id b.source_object_id
        else lex_le a.relation_ids b.relation_ids
  ]
]

abbrev pub Limited : Type 0
Limited = List CandidateProvenance × List Truncated

-- The records of one object.
unfoldable pub limit_object :
    (include_all : Bool) (limit : ℕ) (object_id : String) → List CandidateProvenance → Limited
limit_object include_all limit object_id values =
    let ordered = sort_by provenance_le values in
    if not include_all && ltb limit (length ordered)
    then (
      take limit ordered,
      record { object_id = object_id; original_count = length ordered; kept = limit } ∷ [],
    )
    else (ordered, [])

abbrev pub both : Limited → Limited → Limited
both (ps, issues) (qs, more) = (ps ++ qs, issues ++ more)

unfoldable pub limit_groups : (include_all : Bool) (limit : ℕ) → Provenance → Limited
limit_groups include_all limit [] = ([], [])
limit_groups include_all limit ((object_id, values) ∷ groups) =
    both (limit_object include_all limit object_id values) (limit_groups include_all limit groups)

abbrev pub group_le : String × List CandidateProvenance → String × List CandidateProvenance → Bool
group_le a b = text_le a.0 b.0

-- _limit_provenance: the records that stay, and the issues that it adds
unfoldable pub limit_provenance :
    (include_all : Bool) (limit : ℕ) → List CandidateProvenance → Limited
limit_provenance include_all limit provenance =
    limit_groups include_all limit (sort_by group_le (grouped provenance []))
