-- ===== src/Replay/Reader/Windows.antt =====
-- proberca/replay/reader.py: which records the windows have.
use mathlib.Core.Path.{subst}
use native.Mathlib.Nat.{div-mul-le_self, lt-div-mul-add}
use probe_rca.Prelude.{
  not, ℕ, ◌-◌, ◌*◌, ◌<◌, ◌≡◌, ◌⊎◌, inl, inr, refl, ap, Bool, true, false, ◌&&◌, Option, none, some,
  List, [], ◌∷◌, ◌++◌, ltb, leb, all, arith, ◌==◌, nat_eq, Result, ok, err, guard, ◌>>◌, Bool-cases,
}
use probe_rca.Prelude.Sorting.{all-sort_by, all-append}
use probe_rca.Replay.Reader.{
  is_at_end, is_inside, has_width, in_one_cluster, is_structured, metrics_of, is_distinct,
  not_at_window_end, empty_window, outside_window, conflicting_width, crossed_clusters,
  duplicate_sources, unstructured_issue, Record, RecordType, edge_metric, evidence_observation,
  node_metric, topology_snapshot, ReaderError, EngineWindowInput, Reader, new, id_le, is_blank,
  emit, window_end_of, close_before, read_as, read_records, close_last, deduplicate, iter_windows,
  Emitted, checked, window_of, updated, continued, ended, finished, add_node, add_edge, open_at,
}

-- The constructor returns the window that it is given, or raises.
abbrev pub IsChecked : EngineWindowInput → Result ReaderError EngineWindowInput → Type 0
IsChecked x r = (r ≡ ok x) ⊎ ((e : ReaderError) × (r ≡ err e))

guarded-IsChecked :
    (x : EngineWindowInput) (b : Bool) (e : ReaderError) (r : Result ReaderError EngineWindowInput)
    → IsChecked x r
    → IsChecked x (guard b e >> r)
guarded-IsChecked x true e r h = h
guarded-IsChecked x false e r h = inr (e, refl)

pub checked-IsChecked : (x : EngineWindowInput) → IsChecked x (checked x)
unfolding checked
checked-IsChecked x = guarded-IsChecked x (is_at_end x) not_at_window_end _ (
    guarded-IsChecked x (not (is_blank (metrics_of x))) empty_window _ (
      guarded-IsChecked x (all (is_inside x) (metrics_of x)) outside_window _ (
        guarded-IsChecked x (all (has_width (x.window_end_ns - x.window_start_ns)) (metrics_of x))
          conflicting_width _
          (guarded-IsChecked x (in_one_cluster x) crossed_clusters _ (
            guarded-IsChecked x (is_distinct x.source_record_ids) duplicate_sources _ (
              guarded-IsChecked x (all is_structured x.reorder_issues) unstructured_issue (ok x)
                (inl refl)))))))

-- A record is in the window that ends at `end`.
abbrev pub is_within : (width end : ℕ) → Record → Bool
is_within width end r = leb (end - width) r.timestamp_ns && ltb r.timestamp_ns end

-- Every metric record is of the open window, and without one none is held.
abbrev pub is_open : Option ℕ → Reader → Bool
is_open none s = is_blank s.node_records && is_blank s.edge_records
is_open (some end) s =
    all (is_within s.window_ns end) s.node_records && all (is_within s.window_ns end) s.edge_records

-- The window has the reader's width and every metric record of it is within its bounds.
abbrev pub is_filled : ℕ → EngineWindowInput → Bool
is_filled width x =
    x.window_start_ns == x.window_end_ns - width
    && all (is_within width x.window_end_ns) x.node_metric_records
    && all (is_within width x.window_end_ns) x.edge_metric_records

pub own_window :
    (s : Reader) (r : Record) → 0 < s.window_ns → is_within s.window_ns (window_end_of s r) r ≡ true
own_window s r wide =
    ground
      (arith, div-mul-le_self r.timestamp_ns s.window_ns, lt-div-mul-add {a = r.timestamp_ns} wide)

-- What a part of the run yields is filled, and if no exception ended it, the reader is as it should.
abbrev pub Leaves : ℕ → (Reader → Type 0) → Emitted → Type 0
Leaves width p (out, ok s) = (all (is_filled width) out ≡ true) × p s
Leaves width p (out, err e) = all (is_filled width) out ≡ true

abbrev pub IsBlankOf : ℕ → Reader → Type 0
IsBlankOf width s = (is_open none s ≡ true) × (s.window_ns ≡ width)

abbrev IsOpenAt : ℕ → ℕ → Reader → Type 0
IsOpenAt width end s = (is_open (some end) s ≡ true) × (s.window_ns ≡ width)

abbrev pub IsOpenOf : ℕ → Reader → Type 0
IsOpenOf width s = (is_open s.current_window_end s ≡ true) × (s.window_ns ≡ width)

Leaves-map :
    (width : ℕ) (p q : Reader → Type 0) (f : Reader → Reader) (o : Emitted)
    → ((s : Reader) → p s → q (f s))
    → Leaves width p o
    → Leaves width q (updated f o)
Leaves-map width p q f (out, ok s) keep h = (h.0, keep s h.1)
Leaves-map width p q f (out, err e) keep h = h

pub emit-open :
    (s : Reader) (end : ℕ)
    → is_open (some end) s ≡ true
    → Leaves s.window_ns (IsBlankOf s.window_ns) (emit s end)
unfolding emit
emit-open s end h = elim (Bool-cases (is_blank s.node_records && is_blank s.edge_records)) [
  | inl blank ↦ rw blank (refl, (blank, refl))
  | inr full ↦ rw full (elim (checked-IsChecked (window_of s end)) [
    | inl passed ↦ rw passed (
      ground (
        arith,
        all-sort_by id_le (is_within s.window_ns end) s.node_records,
        all-sort_by id_le (is_within s.window_ns end) s.edge_records,
      ),
      (refl, refl),
    )
    | inr (e, raised) ↦ rw raised refl
  ])
]

blank_all : (p : Record → Bool) (xs : List Record) → is_blank xs ≡ true → all p xs ≡ true
blank_all p [] h = refl
blank_all p (x ∷ xs) h = absurd (ground arith)

pub blank-open : (end : ℕ) (s : Reader) → is_open none s ≡ true → is_open (some end) s ≡ true
blank-open end s h = ground (
  arith,
  blank_all (is_within s.window_ns end) s.node_records,
  blank_all (is_within s.window_ns end) s.edge_records,
)

close-open :
    (current : Option ℕ) (end : ℕ) (s : Reader)
    → is_open current s ≡ true
    → Leaves s.window_ns (IsOpenAt s.window_ns end) (close_before current end s)
unfolding close_before
close-open none end s h = (refl, (blank-open end s h, refl))
close-open (some c) end s h = elim (Bool-cases (end == c)) [
  | inl same ↦ rw same (refl, (ground (arith, same, h), refl))
  | inr other ↦ rw other (opened (emit s c) (emit-open s c h))
]
  where
    opened :
        (o : Emitted)
        → Leaves s.window_ns (IsBlankOf s.window_ns) o
        → Leaves s.window_ns (IsOpenAt s.window_ns end) o
    opened (out, ok s') k = (k.0, (blank-open end s' k.1.0, k.1.1))
    opened (out, err e) k = k

pub is_open-topology :
    (current : Option ℕ) (s : Reader) (rs : List Record)
    → is_open current s ≡ true
    → is_open current (record s { pending_topology = rs }) ≡ true
is_open-topology none s rs h = h
is_open-topology (some end) s rs h = h

pub is_open-evidence :
    (current : Option ℕ) (s : Reader) (rs : List Record)
    → is_open current s ≡ true
    → is_open current (record s { pending_evidence = rs }) ≡ true
is_open-evidence none s rs h = h
is_open-evidence (some end) s rs h = h

read-open :
    (t : RecordType) (r : Record) (s : Reader)
    → 0 < s.window_ns
    → is_open s.current_window_end s ≡ true
    → Leaves s.window_ns (IsOpenOf s.window_ns) (read_as t r s)
unfolding read_as
read-open topology_snapshot r s wide h =
    (refl, (is_open-topology s.current_window_end s (s.pending_topology ++ r ∷ []) h, refl))
read-open evidence_observation r s wide h =
    (refl, (is_open-evidence s.current_window_end s (s.pending_evidence ++ r ∷ []) h, refl))
read-open node_metric r s wide h =
    let end = window_end_of s r in
    let own = own_window s r wide in
    Leaves-map s.window_ns (IsOpenAt s.window_ns end) (IsOpenOf s.window_ns)
      (λ (s' : Reader). add_node r (open_at s' end)) _
      (λ s' k. (
        ground (
          arith,
          all-append (is_within s'.window_ns end) s'.node_records (r ∷ []),
          ap (λ w. is_within w end r) k.1,
          k.0,
          own,
        ),
        k.1,
      ))
      (close-open s.current_window_end end s h)
read-open edge_metric r s wide h =
    let end = window_end_of s r in
    let own = own_window s r wide in
    Leaves-map s.window_ns (IsOpenAt s.window_ns end) (IsOpenOf s.window_ns)
      (λ (s' : Reader). add_edge r (open_at s' end)) _
      (λ s' k. (
        ground (
          arith,
          all-append (is_within s'.window_ns end) s'.edge_records (r ∷ []),
          ap (λ w. is_within w end r) k.1,
          k.0,
          own,
        ),
        k.1,
      ))
      (close-open s.current_window_end end s h)

filled-append :
    (width : ℕ) (xs ys : List EngineWindowInput)
    → all (is_filled width) xs ≡ true
    → all (is_filled width) ys ≡ true
    → all (is_filled width) (xs ++ ys) ≡ true
filled-append width xs ys h k = ground (arith, all-append (is_filled width) xs ys, h, k)

prepended-open :
    (width : ℕ) (p : Reader → Type 0) (out : List EngineWindowInput) (o : Emitted)
    → all (is_filled width) out ≡ true
    → Leaves width p o
    → Leaves width p (out ++ o.0, o.1)
prepended-open width p out (more, ok s) h k = (filled-append width out more h k.0, k.1)
prepended-open width p out (more, err e) h k = filled-append width out more h k

continued-open :
    (width : ℕ) (p q : Reader → Type 0) (f : Reader → Emitted) (o : Emitted)
    → Leaves width p o
    → ((s : Reader) → p s → Leaves width q (f s))
    → Leaves width q (continued f o)
continued-open width p q f (out, ok s) h rest = prepended-open width q out (f s) h.0 (rest s h.1)
continued-open width p q f (out, err e) h rest = h

pub records-open :
    (width : ℕ) (rs : List Record) (s : Reader)
    → 0 < width
    → IsOpenOf width s
    → Leaves width (IsOpenOf width) (read_records rs s)
unfolding read_records
records-open width [] s wide h = (refl, h)
records-open width (r ∷ rs) s wide h =
    let first =
      subst (λ w. Leaves w (IsOpenOf w) (read_as r.record_type r s)) h.1
        (read-open r.record_type r s (rw h.1 wide) h.0) in
    continued-open width (IsOpenOf width) (IsOpenOf width) (read_records rs) _ first
      (λ s' k. records-open width rs s' wide k)

ended-filled :
    (width : ℕ) (p : Reader → Type 0) (o : Emitted)
    → Leaves width p o
    → all (is_filled width) (ended o).0 ≡ true
ended-filled width p (out, ok s) h = h.0
ended-filled width p (out, err e) h = h

last-filled :
    (e : Option ReaderError) (current : Option ℕ) (s : Reader)
    → is_open current s ≡ true
    → all (is_filled s.window_ns) (close_last e current s).0 ≡ true
unfolding close_last
last-filled (some e) current s h = refl
last-filled none none s h = refl
last-filled none (some end) s h = ended-filled s.window_ns _ (emit s end) (emit-open s end h)

finished-filled :
    (width : ℕ) (e : Option ReaderError) (o : Emitted)
    → Leaves width (IsOpenOf width) o
    → all (is_filled width) (finished e o).0 ≡ true
finished-filled width e (out, err raised) h = h
finished-filled width e (out, ok s) h =
    let (filled, (opened, same)) = h in
    let last = close_last e s.current_window_end s in
    filled-append width out last.0 filled (
      subst (λ w. all (is_filled w) last.0 ≡ true) same
        (last-filled e s.current_window_end s opened))

-- Every window that is yielded, before an exception too, has the configured width, and each of its
-- metric records lies within it.
pub iter_windows_filled :
    (window_sec : ℕ) (reordered : Bool) (merged : List Record)
    → 0 < window_sec
    → all (is_filled (window_sec * 1000000000)) (iter_windows window_sec reordered merged).0 ≡ true
unfolding iter_windows new
iter_windows_filled window_sec reordered merged wide =
    let width = window_sec * 1000000000 in
    finished-filled width (deduplicate none merged).1 _ (
      records-open width (deduplicate none merged).0 (new window_sec reordered) (omega arith)
        (refl, refl))
