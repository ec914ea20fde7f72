-- ===== src/Replay/Reader/Counts.antt =====
-- proberca/replay/reader.py: how many records the windows have, and how an exception ends them.
use mathlib.Core.Path.{subst}
use probe_rca.Prelude.{
  ℕ, ◌+◌, ◌*◌, ◌<◌, ◌≤◌, ◌≡◌, ◌⊎◌, inl, inr, refl, Bool, true, false, ◌&&◌, Option, none, some,
  List, [], ◌∷◌, ◌++◌, length, length-append, arith, ◌==◌, nat_eq, if◌then◌else◌, ok, err, if-keeps,
}
use probe_rca.Prelude.Sorting.{length-sort_by}
use probe_rca.Replay.Reader.{
  Record, RecordType, edge_metric, evidence_observation, node_metric, topology_snapshot,
  ReaderError, EngineWindowInput, Reader, new, id_le, is_blank, emit, window_end_of, close_before,
  read_as, read_records, close_last, deduplicate, iter_windows, Emitted, Stream, window_of, updated,
  continued, ended, finished, add_node, add_edge, open_at,
}
use probe_rca.Replay.Reader.Windows.{
  is_open, Leaves, IsBlankOf, IsOpenOf, checked-IsChecked, emit-open, records-open,
}

-- The metric records of a window, of windows and of a reader.
abbrev pub total : List EngineWindowInput → ℕ
total [] = 0
total (x ∷ xs) = length x.node_metric_records + length x.edge_metric_records + total xs

abbrev held : Reader → ℕ
held s = length s.node_records + length s.edge_records

abbrev pub is_metric : RecordType → Bool
is_metric node_metric = true
is_metric edge_metric = true
is_metric _ = false

abbrev pub count_metrics : List Record → ℕ
count_metrics [] = 0
count_metrics (r ∷ rs) = (if is_metric r.record_type then 1 else 0) + count_metrics rs

total-append : (xs ys : List EngineWindowInput) → total (xs ++ ys) ≡ total xs + total ys
total-append [] ys = omega arith
total-append (x ∷ xs) ys = omega (arith, total-append xs ys)

-- Every metric record is yielded or still held; after an exception those held are lost.
abbrev Accounts : ℕ → Emitted → Type 0
Accounts n (out, ok s) = total out + held s ≡ n
Accounts n (out, err e) = total out ≤ n

emit-Accounts : (s : Reader) (end : ℕ) → Accounts (held s) (emit s end)
unfolding emit
emit-Accounts s end =
    if-keeps (Accounts (held s)) (is_blank s.node_records && is_blank s.edge_records) (omega arith)
      (elim (checked-IsChecked (window_of s end)) [
        | inl passed ↦ rw passed (
            omega (arith, length-sort_by id_le s.node_records, length-sort_by id_le s.edge_records))
        | inr (e, raised) ↦ rw raised (omega arith)
      ])

close-Accounts :
    (current : Option ℕ) (end : ℕ) (s : Reader) → Accounts (held s) (close_before current end s)
unfolding close_before
close-Accounts none end s = omega arith
close-Accounts (some c) end s =
    if-keeps (Accounts (held s)) (end == c) (omega arith) (emit-Accounts s c)

updated-Accounts :
    (n m : ℕ) (f : Reader → Reader) (o : Emitted)
    → ((s : Reader) → held (f s) ≡ held s + m)
    → Accounts n o
    → Accounts (n + m) (updated f o)
updated-Accounts n m f (out, ok s) adds h = omega (arith, adds s, h)
updated-Accounts n m f (out, err e) adds h = omega (arith, h)

read-Accounts :
    (t : RecordType) (r : Record) (s : Reader)
    → Accounts (held s + (if is_metric t then 1 else 0)) (read_as t r s)
unfolding read_as
read-Accounts topology_snapshot r s = omega arith
read-Accounts evidence_observation r s = omega arith
read-Accounts node_metric r s =
    let end = window_end_of s r in
    updated-Accounts (held s) 1 (λ (s' : Reader). add_node r (open_at s' end)) _
      (λ s'. omega (arith, length-append s'.node_records (r ∷ [])))
      (close-Accounts s.current_window_end end s)
read-Accounts edge_metric r s =
    let end = window_end_of s r in
    updated-Accounts (held s) 1 (λ (s' : Reader). add_edge r (open_at s' end)) _
      (λ s'. omega (arith, length-append s'.edge_records (r ∷ [])))
      (close-Accounts s.current_window_end end s)

prepended-Accounts :
    (n m : ℕ) (out : List EngineWindowInput) (o : Emitted)
    → total out + m ≡ n
    → Accounts m o
    → Accounts n (out ++ o.0, o.1)
prepended-Accounts n m out (more, ok s) e h = omega (arith, total-append out more, e, h)
prepended-Accounts n m out (more, err raised) e h = omega (arith, total-append out more, e, h)

continued-Accounts :
    (n m : ℕ) (f : Reader → Emitted) (o : Emitted)
    → Accounts n o
    → ((s : Reader) → Accounts (held s + m) (f s))
    → Accounts (n + m) (continued f o)
continued-Accounts n m f (out, ok s) h rest =
    prepended-Accounts (n + m) (held s + m) out (f s) (omega (arith, h)) (rest s)
continued-Accounts n m f (out, err e) h rest = omega (arith, h)

records-Accounts :
    (rs : List Record) (s : Reader) → Accounts (held s + count_metrics rs) (read_records rs s)
unfolding read_records
records-Accounts [] s = omega arith
records-Accounts (r ∷ rs) s =
    let here = if is_metric r.record_type then 1 else 0 in
    let both : held s + here + count_metrics rs ≡ held s + count_metrics (r ∷ rs) = omega arith in
    subst (λ n. Accounts n (read_records (r ∷ rs) s)) both
      (continued-Accounts (held s + here) (count_metrics rs) (read_records rs) _
        (read-Accounts r.record_type r s) (records-Accounts rs))

blank_length : (xs : List Record) → is_blank xs ≡ true → length xs ≡ 0
blank_length [] h = refl
blank_length (x ∷ xs) h = absurd (ground arith)

blank-held : (s : Reader) → is_open none s ≡ true → held s ≡ 0
blank-held s h = ground (arith, blank_length s.node_records, blank_length s.edge_records)

-- A stream that ends without an exception yields `n` metric records, and one that an exception ends
-- yields no more.
abbrev pub IsComplete : ℕ → Stream EngineWindowInput → Type 0
IsComplete n o =
    ((o.1 ≡ none) × (total o.0 ≡ n)) ⊎ ((e : ReaderError) × (o.1 ≡ some e) × (total o.0 ≤ n))

ended-IsComplete :
    (n : ℕ) (out : List EngineWindowInput) (o : Emitted) (m : ℕ)
    → total out + m ≡ n
    → Accounts m o
    → ((s : Reader) → o.1 ≡ ok s → held s ≡ 0)
    → IsComplete n (out ++ (ended o).0, (ended o).1)
ended-IsComplete n out (more, ok s) m e h empties =
    inl (refl, omega (arith, total-append out more, e, h, empties s refl))
ended-IsComplete n out (more, err raised) m e h empties =
    inr (raised, refl, omega (arith, total-append out more, e, h))

emit-empties :
    (s : Reader) (end : ℕ) (s' : Reader)
    → is_open (some end) s ≡ true
    → (emit s end).1 ≡ ok s'
    → held s' ≡ 0
emit-empties s end s' h = emptied (emit s end) (emit-open s end h)
  where
    emptied :
        (o : Emitted) → Leaves s.window_ns (IsBlankOf s.window_ns) o → o.1 ≡ ok s' → held s' ≡ 0
    emptied (out, ok t) k same =
        let same' : t ≡ s' = ground (arith, same) in
        blank-held s' (subst (λ x. is_open none x ≡ true) same' k.1.0)
    emptied (out, err e) k same = absurd (ground (arith, same))

close_last-IsComplete :
    (n : ℕ) (out : List EngineWindowInput) (e : Option ReaderError) (current : Option ℕ)
    (s : Reader)
    → total out + held s ≡ n
    → is_open current s ≡ true
    → IsComplete n (out ++ (close_last e current s).0, (close_last e current s).1)
unfolding close_last
close_last-IsComplete n out (some e) current s h opened =
    inr (e, refl, omega (arith, total-append out [], h))
close_last-IsComplete n out none none s h opened =
    inl (refl, omega (arith, total-append out [], h, blank-held s opened))
close_last-IsComplete n out none (some end) s h opened =
    ended-IsComplete n out (emit s end) (held s) h (emit-Accounts s end)
      (λ s' same. emit-empties s end s' opened same)

finished-IsComplete :
    (n width : ℕ) (e : Option ReaderError) (o : Emitted)
    → Leaves width (IsOpenOf width) o
    → Accounts n o
    → IsComplete n (finished e o)
finished-IsComplete n width e (out, err raised) opened h = inr (raised, refl, h)
finished-IsComplete n width e (out, ok s) opened h =
    close_last-IsComplete n out e s.current_window_end s h opened.1.0

-- With a positive width, the windows together have as many metric records as the merged stream has
-- without its duplicates, unless an exception ends the iteration: then they have no more.
pub iter_windows-IsComplete :
    (window_sec : ℕ) (reordered : Bool) (merged : List Record)
    → 0 < window_sec
    → IsComplete
        (count_metrics (deduplicate none merged).0)
        (iter_windows window_sec reordered merged)
unfolding iter_windows new
iter_windows-IsComplete window_sec reordered merged wide =
    let width = window_sec * 1000000000 in
    let records = (deduplicate none merged).0 in
    let start = new window_sec reordered in
    let none_held : 0 + count_metrics records ≡ count_metrics records = omega arith in
    finished-IsComplete (count_metrics records) width (deduplicate none merged).1
      (read_records records start) (records-open width records start (omega arith) (refl, refl))
      (subst (λ n. Accounts n (read_records records start)) none_held
        (records-Accounts records start))
