-- ===== src/Replay/Reader/Sources.antt =====
-- proberca/replay/reader.py: how often a source is in a list of records.
use text.Mathlib.TextPositions.{eq_refl}
use probe_rca.Prelude.{
  ℕ, ◌+◌, ◌<◌, ◌≤◌, ◌≡◌, refl, ◌∙◌, String, true, false, List, [], ◌∷◌, ◌++◌, map, mem, arith, ◌==◌,
  nat_eq, string_eq, eq_iff, if◌then◌else◌,
}
use probe_rca.Prelude.Sorting.{sort_by, insert_sorted, text_le}
use probe_rca.Replay.Reader.{Record, source_of, is_distinct}

-- How often a text is in a list.
abbrev count : String → List String → ℕ
count x [] = 0
count x (y ∷ ys) = (if x == y then 1 else 0) + count x ys

-- How often it is the source of a record.
abbrev pub sourced : String → List Record → ℕ
sourced x [] = 0
sourced x (r ∷ rs) = (if x == r.source_id then 1 else 0) + sourced x rs

pub sourced-append :
    (x : String) (rs qs : List Record) → sourced x (rs ++ qs) ≡ sourced x rs + sourced x qs
sourced-append x [] qs = omega arith
sourced-append x (r ∷ rs) qs = omega (arith, sourced-append x rs qs)

pub count-map : (x : String) (rs : List Record) → count x (map source_of rs) ≡ sourced x rs
count-map x [] = refl
count-map x (r ∷ rs) = omega (arith, count-map x rs)

count-insert_sorted :
    (x y : String) (ys : List String)
    → count x (insert_sorted text_le y ys) ≡ (if x == y then 1 else 0) + count x ys
unfolding insert_sorted
count-insert_sorted x y [] = refl
count-insert_sorted x y (z ∷ zs) = ground (arith, count-insert_sorted x y zs)

pub count-sort_by : (x : String) (ys : List String) → count x (sort_by text_le ys) ≡ count x ys
unfolding sort_by
count-sort_by x [] = refl
count-sort_by x (y ∷ ys) =
    count-insert_sorted x y (sort_by text_le ys) ∙ omega (arith, count-sort_by x ys)

count-mem : (x : String) (ys : List String) → mem x ys ≡ true → 0 < count x ys
count-mem x [] h = absurd (ground (arith, h))
count-mem x (y ∷ ys) h = ground (arith, h, count-mem x ys)

mem-count : (x : String) (ys : List String) → mem x ys ≡ false → count x ys ≡ 0
mem-count x [] h = refl
mem-count x (y ∷ ys) h = ground (arith, h, mem-count x ys)

pub distinct_of_count : (ys : List String) → ((x : String) → count x ys ≤ 1) → is_distinct ys ≡ true
distinct_of_count [] h = refl
distinct_of_count (y ∷ ys) h =
    ground (arith, distinct_of_count ys (λ x. omega (arith, h x)), h y, eq_refl y, count-mem y ys)

pub count_of_distinct : (x : String) (ys : List String) → is_distinct ys ≡ true → count x ys ≤ 1
count_of_distinct x [] h = omega arith
count_of_distinct x (y ∷ ys) h =
    ground (arith, h, count_of_distinct x ys, mem-count y ys, eq_iff x y)
