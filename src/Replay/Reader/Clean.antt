-- ===== src/Replay/Reader/Clean.antt =====
-- proberca/replay/reader.py: streams whose windows all pass the constructor's checks.
use mathlib.Core.Path.{subst}
use probe_rca.Prelude.{
  ◌⊎◌, ℕ, ◌*◌, ◌<◌, ◌≤◌, ◌≡◌, refl, sym, ◌∙◌, String, Bool, true, false, ◌&&◌, ◌||◌, not, Option,
  none, some, List, [], ◌∷◌, ◌++◌, map, all, arith, ◌==◌, nat_eq, string_eq, ok, err, Bool-cases,
  inl, inr,
}
use probe_rca.Prelude.Sorting.{all-append}
use probe_rca.Replay.Reader.{
  ReaderError, ended, finished, close_last, new, iter_windows, deduplicate, Record, RecordType,
  edge_metric, evidence_observation, node_metric, topology_snapshot, Reader, emit, window_end_of,
  read_as, read_records, Emitted, continued, add_node, add_edge, open_at, source_of, is_distinct,
  has_width,
}
use probe_rca.Replay.Reader.Windows.{is_open-topology, is_open-evidence, own_window, is_within}
use probe_rca.Replay.Reader.Counts.{is_metric, total, count_metrics, iter_windows-IsComplete}
use probe_rca.Replay.Reader.Sources.{sourced-append, count-map, count_of_distinct}
use probe_rca.Replay.Reader.Checks.{
  is_of, is_late, IsSound, Passes, emit-Passes, close_before-Passes, Passes-updated,
}

-- A record of the cluster that, if it is a metric record, has the width.
abbrev is_usable : String → (width : ℕ) → Record → Bool
is_usable cluster width r =
    r.cluster_id == cluster && (not (is_metric r.record_type) || has_width width r)

add_node-IsSound :
    {cluster : String} {width : ℕ} {rest : List Record} (r : Record) (s : Reader) (end : ℕ)
    → is_of cluster r ≡ true
    → has_width width r ≡ true
    → is_within width end r ≡ true
    → IsSound cluster width (r ∷ rest) (some end) s
    → IsSound cluster width rest (some end) (add_node r (open_at s end))
add_node-IsSound {cluster} r s end of_it width within h = record {
  wide = h.wide;
  same = h.same;
  late = h.late;
  opened = ground (
    arith,
    all-append (is_within s.window_ns end) s.node_records (r ∷ []),
    h.opened,
    within,
    h.same,
  );
  nodes_of = ground (arith, all-append (is_of cluster) s.node_records (r ∷ []), h.nodes_of, of_it);
  edges_of = h.edges_of;
  topology_of = h.topology_of;
  evidence_of = h.evidence_of;
  node_widths = ground (
    arith,
    all-append (has_width s.window_ns) s.node_records (r ∷ []),
    h.node_widths,
    width,
    h.same,
  );
  edge_widths = h.edge_widths;
  distinct = λ x. omega (arith, h.distinct x, sourced-append x s.node_records (r ∷ []));
}

add_edge-IsSound :
    {cluster : String} {width : ℕ} {rest : List Record} (r : Record) (s : Reader) (end : ℕ)
    → is_of cluster r ≡ true
    → has_width width r ≡ true
    → is_within width end r ≡ true
    → IsSound cluster width (r ∷ rest) (some end) s
    → IsSound cluster width rest (some end) (add_edge r (open_at s end))
add_edge-IsSound {cluster} r s end of_it width within h = record {
  wide = h.wide;
  same = h.same;
  late = h.late;
  opened = ground (
    arith,
    all-append (is_within s.window_ns end) s.edge_records (r ∷ []),
    h.opened,
    within,
    h.same,
  );
  nodes_of = h.nodes_of;
  edges_of = ground (arith, all-append (is_of cluster) s.edge_records (r ∷ []), h.edges_of, of_it);
  topology_of = h.topology_of;
  evidence_of = h.evidence_of;
  node_widths = h.node_widths;
  edge_widths = ground (
    arith,
    all-append (has_width s.window_ns) s.edge_records (r ∷ []),
    h.edge_widths,
    width,
    h.same,
  );
  distinct = λ x. omega (arith, h.distinct x, sourced-append x s.edge_records (r ∷ []));
}

abbrev IsReady : String → ℕ → List Record → Reader → Type 0
IsReady cluster width rest s = IsSound cluster width rest s.current_window_end s

own_end-late : (s : Reader) (r : Record) → s.window_ns ≤ window_end_of s r
own_end-late s r = grind arith

read_as-Passes :
    {cluster : String} {width : ℕ} {rest : List Record} (t : RecordType) (r : Record) (s : Reader)
    → is_of cluster r ≡ true
    → (not (is_metric t) || has_width width r) ≡ true
    → IsReady cluster width (r ∷ rest) s
    → Passes (IsReady cluster width rest) (read_as t r s)
unfolding read_as
read_as-Passes {cluster} topology_snapshot r s of_it width h = record {
  wide = h.wide;
  same = h.same;
  late = kept s.current_window_end h.late;
  opened = is_open-topology s.current_window_end s (s.pending_topology ++ r ∷ []) h.opened;
  nodes_of = h.nodes_of;
  edges_of = h.edges_of;
  topology_of =
      ground (arith, all-append (is_of cluster) s.pending_topology (r ∷ []), h.topology_of, of_it);
  evidence_of = h.evidence_of;
  node_widths = h.node_widths;
  edge_widths = h.edge_widths;
  distinct = λ x. omega (arith, h.distinct x, sourced-append x s.pending_topology (r ∷ []));
}
  where
    kept :
        (c : Option ℕ)
        → is_late c s ≡ true
        → is_late c (record s { pending_topology = s.pending_topology ++ r ∷ [] }) ≡ true
    kept none k = k
    kept (some end) k = k
read_as-Passes {cluster} evidence_observation r s of_it width h = record {
  wide = h.wide;
  same = h.same;
  late = kept s.current_window_end h.late;
  opened = is_open-evidence s.current_window_end s (s.pending_evidence ++ r ∷ []) h.opened;
  nodes_of = h.nodes_of;
  edges_of = h.edges_of;
  topology_of = h.topology_of;
  evidence_of =
      ground (arith, all-append (is_of cluster) s.pending_evidence (r ∷ []), h.evidence_of, of_it);
  node_widths = h.node_widths;
  edge_widths = h.edge_widths;
  distinct = λ x. omega (arith, h.distinct x, sourced-append x s.pending_evidence (r ∷ []));
}
  where
    kept :
        (c : Option ℕ)
        → is_late c s ≡ true
        → is_late c (record s { pending_evidence = s.pending_evidence ++ r ∷ [] }) ≡ true
    kept none k = k
    kept (some end) k = k
read_as-Passes {cluster} {width} {rest} node_metric r s of_it fits h =
    let end = window_end_of s r in
    let within : is_within width end r ≡ true =
      subst (λ w. is_within w end r ≡ true) h.same (own_window s r h.wide) in
    Passes-updated (IsSound cluster width (r ∷ rest) (some end)) (IsReady cluster width rest)
      (λ (s' : Reader). add_node r (open_at s' end)) _
      (λ s' k. add_node-IsSound r s' end of_it fits within k)
      (close_before-Passes s s.current_window_end end (own_end-late s r) h)
read_as-Passes {cluster} {width} {rest} edge_metric r s of_it fits h =
    let end = window_end_of s r in
    let within : is_within width end r ≡ true =
      subst (λ w. is_within w end r ≡ true) h.same (own_window s r h.wide) in
    Passes-updated (IsSound cluster width (r ∷ rest) (some end)) (IsReady cluster width rest)
      (λ (s' : Reader). add_edge r (open_at s' end)) _
      (λ s' k. add_edge-IsSound r s' end of_it fits within k)
      (close_before-Passes s s.current_window_end end (own_end-late s r) h)

continued-Passes :
    (p q : Reader → Type 0) (f : Reader → Emitted) (o : Emitted)
    → Passes p o
    → ((s : Reader) → p s → Passes q (f s))
    → Passes q (continued f o)
continued-Passes p q f (out, ok s) h rest = prepended (f s) (rest s h)
  where
    prepended : (o : Emitted) → Passes q o → Passes q (out ++ o.0, o.1)
    prepended (more, ok s') k = k
    prepended (more, err e) k = k
continued-Passes p q f (out, err e) h rest = h

records-Passes :
    {cluster : String} {width : ℕ} (rs : List Record) (s : Reader)
    → all (is_usable cluster width) rs ≡ true
    → IsReady cluster width rs s
    → Passes (IsReady cluster width []) (read_records rs s)
unfolding read_records
records-Passes [] s usable h = h
records-Passes {cluster} {width} (r ∷ rs) s usable h =
    continued-Passes (IsReady cluster width rs) (IsReady cluster width []) (read_records rs) _
      (read_as-Passes r.record_type r s (ground (arith, usable)) (ground (arith, usable)) h)
      (λ s' k. records-Passes rs s' (ground (arith, usable)) k)

-- The records are of the cluster, the metric records have the width, and no two are of one source.
abbrev pub is_clean : String → (width : ℕ) → List Record → Bool
is_clean cluster width rs = all (is_usable cluster width) rs && is_distinct (map source_of rs)

ended-Passes : (p : Reader → Type 0) (o : Emitted) → Passes p o → (ended o).1 ≡ none
ended-Passes p (out, ok s) h = refl
ended-Passes p (out, err e) h = absurd (ground (arith, h))

close_last-Passes :
    {cluster : String} {width : ℕ} (e : Option ReaderError) (current : Option ℕ) (s : Reader)
    → IsSound cluster width [] current s
    → (close_last e current s).1 ≡ e
unfolding close_last
close_last-Passes (some e) current s h = refl
close_last-Passes none none s h = refl
close_last-Passes {cluster} {width} none (some end) s h =
    ended-Passes (IsSound cluster width [] (some end)) (emit s end)
      (emit-Passes end end (ground (arith, h.late)) h)

finished-Passes :
    (cluster : String) (width : ℕ) (e : Option ReaderError) (o : Emitted)
    → Passes (IsReady cluster width []) o
    → (finished e o).1 ≡ e
finished-Passes cluster width e (out, ok s) h = close_last-Passes e s.current_window_end s h
finished-Passes cluster width e (out, err raised) h = absurd (ground (arith, h))

-- Only the merged stream raises where its records are clean.
iter_windows_raises :
    (cluster : String) (window_sec : ℕ) (reordered : Bool) (merged : List Record)
    → 0 < window_sec
    → is_clean cluster (window_sec * 1000000000) (deduplicate none merged).0 ≡ true
    → (iter_windows window_sec reordered merged).1 ≡ (deduplicate none merged).1
unfolding iter_windows new
iter_windows_raises cluster window_sec reordered merged wide clean =
    let records = (deduplicate none merged).0 in
    finished-Passes cluster (window_sec * 1000000000) (deduplicate none merged).1 _ (
      records-Passes {cluster = cluster} {width = window_sec * 1000000000} records
        (new window_sec reordered) (ground (arith, clean))
        (record {
          wide = omega (arith, wide);
          same = refl;
          late = refl;
          opened = refl;
          nodes_of = refl;
          edges_of = refl;
          topology_of = refl;
          evidence_of = refl;
          node_widths = refl;
          edge_widths = refl;
          distinct = λ x. omega (
            arith,
            count-map x records,
            count_of_distinct x (map source_of records) (ground (arith, clean)),
          );
        }))

-- With a positive width: the iteration ends without an exception, and the windows together have as
-- many metric records as the merged stream has without its duplicates; or an exception ends it, and
-- they have no more. Then the merged stream raised it, or the records of that stream are not all of
-- the cluster, or a metric record has another width, or two are of one source.
pub iter_windows_counted :
    (cluster : String) (window_sec : ℕ) (reordered : Bool) (merged : List Record)
    → 0 < window_sec
    → ((iter_windows window_sec reordered merged).1 ≡ none)
        × (total (iter_windows window_sec reordered merged).0
            ≡ count_metrics (deduplicate none merged).0)
      ⊎ ((e : ReaderError) × ((iter_windows window_sec reordered merged).1 ≡ some e)
          × (total (iter_windows window_sec reordered merged).0
              ≤ count_metrics (deduplicate none merged).0)
          × (((deduplicate none merged).1 ≡ some e)
              ⊎ (is_clean cluster (window_sec * 1000000000) (deduplicate none merged).0 ≡ false)))
iter_windows_counted cluster window_sec reordered merged wide =
    elim (iter_windows-IsComplete window_sec reordered merged wide) [
      | inl whole ↦ inl whole
      | inr (e, raised, fewer) ↦ inr (
        e,
        raised,
        fewer,
        (elim (Bool-cases
            (is_clean cluster (window_sec * 1000000000) (deduplicate none merged).0)) [
              | inl clean ↦ inl (
                  sym (iter_windows_raises cluster window_sec reordered merged wide clean) ∙ raised)
              | inr unclean ↦ inr unclean
            ]),
      )
    ]
