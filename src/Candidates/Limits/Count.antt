-- ===== src/Candidates/Limits/Count.antt =====
-- proberca/candidates/builder.py: that what _limit_provenance drops is accounted for.
use probe_rca.Prelude.{
  ℕ, zero, suc, ◌+◌, ◌-◌, ◌≤◌, ◌≡◌, refl, String, Bool, ◌&&◌, not, List, [], ◌∷◌, ◌++◌, length,
  take, ltb, length-append, string_eq, if-keeps, arith, Bool-cases, inl, inr,
}
use probe_rca.Prelude.Sorting.{sort_by, insert_sorted, length-sort_by}
use probe_rca.Candidates.Relation.{CandidateProvenance, Provenance, append_to}
use probe_rca.Candidates.Services.{grouped}
use probe_rca.Candidates.Limits.{
  Truncated, Limited, limit_object, limit_groups, limit_provenance, provenance_le, group_le,
}

-- How many records the issues say were dropped.
unfoldable pub dropped : List Truncated → ℕ
dropped [] = 0
dropped (i ∷ is) = (i.original_count - i.kept) + dropped is

abbrev count : Provenance → ℕ
count [] = 0
count ((k, ps) ∷ groups) = length ps + count groups

count-append_to :
    (k : String) (p : CandidateProvenance) (output : Provenance)
    → count (append_to k p output) ≡ count output + 1
unfolding append_to
count-append_to k p [] = omega arith
count-append_to k p ((j, ps) ∷ output) =
    ground (arith, count-append_to k p output, length-append ps (p ∷ []))

count-grouped :
    (ps : List CandidateProvenance) (output : Provenance)
    → count (grouped ps output) ≡ length ps + count output
unfolding grouped
count-grouped [] output = omega arith
count-grouped (p ∷ ps) output =
    omega (
      arith,
      count-grouped ps (append_to p.object_id p output),
      count-append_to p.object_id p output,
    )

count-insert_sorted :
    (g : String × List CandidateProvenance) (groups : Provenance)
    → count (insert_sorted group_le g groups) ≡ length g.1 + count groups
unfolding insert_sorted
count-insert_sorted g [] = omega arith
count-insert_sorted g (x ∷ groups) =
    if-keeps (λ (l : Provenance). count l ≡ length g.1 + count (x ∷ groups)) (group_le g x) refl
      (omega (arith, count-insert_sorted g groups))

count-sort_by : (groups : Provenance) → count (sort_by group_le groups) ≡ count groups
unfolding sort_by
count-sort_by [] = refl
count-sort_by (g ∷ groups) =
    omega (arith, count-insert_sorted g (sort_by group_le groups), count-sort_by groups)

length-take : (n : ℕ) (xs : List CandidateProvenance) → n ≤ length xs → length (take n xs) ≡ n
length-take zero xs h = refl
length-take (suc n) [] h = omega (arith, h)
length-take (suc n) (x ∷ xs) h = omega (arith, length-take n xs (omega (arith, h)))

dropped-append : (is js : List Truncated) → dropped (is ++ js) ≡ dropped is + dropped js
unfolding dropped
dropped-append [] js = omega arith
dropped-append (i ∷ is) js = omega (arith, dropped-append is js)

-- Records that stay and those that issues tell of.
abbrev accounted : Limited → ℕ
accounted (ps, issues) = length ps + dropped issues

limit_object-accounted :
    (include_all : Bool) (limit : ℕ) (k : String) (values : List CandidateProvenance)
    → accounted (limit_object include_all limit k values) ≡ length values
unfolding limit_object dropped
limit_object-accounted include_all limit k values =
    let ordered = sort_by provenance_le values in
    elim (Bool-cases (not include_all && ltb limit (length ordered))) [
      | inl cut ↦
          let more : limit ≤ length ordered = ground (arith, cut) in
          rw cut (
            omega
              (arith, length-take limit ordered more, length-sort_by provenance_le values, more))
      | inr whole ↦ rw whole (omega (arith, length-sort_by provenance_le values))
    ]

limit_groups-accounted :
    (include_all : Bool) (limit : ℕ) (groups : Provenance)
    → accounted (limit_groups include_all limit groups) ≡ count groups
unfolding limit_groups dropped
limit_groups-accounted include_all limit [] = refl
limit_groups-accounted include_all limit ((k, values) ∷ groups) =
    let here = limit_object include_all limit k values in
    let rest = limit_groups include_all limit groups in
    omega (
      arith,
      length-append here.0 rest.0,
      dropped-append here.1 rest.1,
      limit_object-accounted include_all limit k values,
      limit_groups-accounted include_all limit groups,
    )

-- Each record of the candidates stays, or is one of those that the issue of its object counts as
-- dropped: together they are as many as there were.
pub limit_provenance-accounted :
    (include_all : Bool) (limit : ℕ) (provenance : List CandidateProvenance)
    → length (limit_provenance include_all limit provenance).0
        + dropped (limit_provenance include_all limit provenance).1
      ≡ length provenance
unfolding limit_provenance
limit_provenance-accounted include_all limit provenance =
    let groups = grouped provenance [] in
    omega (
      arith,
      limit_groups-accounted include_all limit (sort_by group_le groups),
      count-sort_by groups,
      count-grouped provenance [],
    )
