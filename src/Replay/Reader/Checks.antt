-- ===== src/Replay/Reader/Checks.antt =====
-- proberca/orchestration/state.py, proberca/replay/reader.py: a window whose records are sound passes
-- the checks of its constructor.
use mathlib.Core.Path.{subst}
use probe_rca.Prelude.{
  ℕ, ◌+◌, ◌-◌, ◌<◌, ◌≤◌, ◌≡◌, refl, String, Bool, true, false, ◌&&◌, Option, none, some, List, [],
  ◌∷◌, ◌++◌, all, arith, ◌==◌, nat_eq, string_eq, eq_iff, leb, length, ok, err, Bool-cases, inl,
  inr,
}
use probe_rca.Prelude.Sorting.{length-sort_by, all-sort_by, all-append, sort_by, text_le}
use probe_rca.Replay.Reader.{
  Record, Reader, id_le, is_blank, emit, close_before, Emitted, checked, window_of, updated,
  all_sources, is_one_cluster, is_distinct, has_width, is_inside, is_structured, issues_of,
  is_at_end, metrics_of, in_one_cluster,
}
use probe_rca.Replay.Reader.Windows.{blank-open, is_open, is_within}
use probe_rca.Replay.Reader.Sources.{
  sourced, sourced-append, count-map, count-sort_by, distinct_of_count,
}

abbrev pub is_of : String → Record → Bool
is_of cluster r = r.cluster_id == cluster

all-is_of :
    (c d : String) (rs : List Record)
    → d ≡ c
    → all (is_of c) rs ≡ true
    → all (λ (r : Record). r.cluster_id == d) rs ≡ true
all-is_of c d rs same h = rw same h

one_cluster :
    (cluster : String) (rs : List Record)
    → is_blank rs ≡ false
    → all (is_of cluster) rs ≡ true
    → is_one_cluster rs ≡ true
one_cluster cluster [] full h = absurd (ground (arith, full))
one_cluster cluster (r ∷ rs) full h =
    all-is_of cluster r.cluster_id rs (ground (arith, h, eq_iff r.cluster_id cluster))
      (ground (arith, h))

abbrev pub is_late : Option ℕ → Reader → Bool
is_late none s = true
is_late (some end) s = leb s.window_ns end

-- What the checks ask of a reader whose window ends at `current`, with the records that follow: one
-- cluster, the manifest's width, and no source twice.
pub record IsSound (cluster : String) (width : ℕ) (rest : List Record) (current : Option ℕ)
    (s : Reader) : Type 0 where
  pub wide : 0 < s.window_ns
  pub same : s.window_ns ≡ width
  pub late : is_late current s ≡ true
  pub opened : is_open current s ≡ true
  pub nodes_of : all (is_of cluster) s.node_records ≡ true
  pub edges_of : all (is_of cluster) s.edge_records ≡ true
  pub topology_of : all (is_of cluster) s.pending_topology ≡ true
  pub evidence_of : all (is_of cluster) s.pending_evidence ≡ true
  pub node_widths : all (has_width s.window_ns) s.node_records ≡ true
  pub edge_widths : all (has_width s.window_ns) s.edge_records ≡ true
  pub distinct :
      (x : String)
      → sourced x s.node_records
          + sourced x s.edge_records
          + sourced x s.pending_topology
          + sourced x s.pending_evidence
          + sourced x rest
        ≤ 1

blank-append : (xs ys : List Record) → is_blank (xs ++ ys) ≡ (is_blank xs && is_blank ys)
blank-append [] ys = refl
blank-append (x ∷ xs) ys = refl

blank-sort_by : (xs : List Record) → is_blank (sort_by id_le xs) ≡ is_blank xs
blank-sort_by xs = of_length (sort_by id_le xs) xs (length-sort_by id_le xs)
  where
    of_length : (ys zs : List Record) → length ys ≡ length zs → is_blank ys ≡ is_blank zs
    of_length [] [] h = refl
    of_length [] (z ∷ zs) h = absurd (omega (arith, h))
    of_length (y ∷ ys) [] h = absurd (omega (arith, h))
    of_length (y ∷ ys) (z ∷ zs) h = refl

both :
    (p : Record → Bool) (xs ys : List Record)
    → all p xs ≡ true
    → all p ys ≡ true
    → all p (sort_by id_le xs ++ sort_by id_le ys) ≡ true
both p xs ys h k = ground (
  arith,
  all-append p (sort_by id_le xs) (sort_by id_le ys),
  all-sort_by id_le p xs,
  all-sort_by id_le p ys,
  h,
  k,
)

all_sources-distinct :
    {cluster : String} {width : ℕ} {rest : List Record} {current : Option ℕ} {s : Reader}
    → IsSound cluster width rest current s
    → is_distinct (sort_by text_le (all_sources s)) ≡ true
all_sources-distinct {s = s} h = distinct_of_count (sort_by text_le (all_sources s)) (λ x.
    (let n = s.node_records in
      let e = s.edge_records in
      let t = s.pending_topology in
      let v = s.pending_evidence in
      omega (
        arith,
        h.distinct x,
        count-sort_by x (all_sources s),
        count-map x (n ++ e ++ t ++ v),
        sourced-append x (n ++ e ++ t) v,
        sourced-append x (n ++ e) t,
        sourced-append x n e,
      )))

issues-structured : (b : Bool) → all is_structured (issues_of b) ≡ true
issues-structured true = refl
issues-structured false = refl

checked-passes :
    {cluster : String} {width : ℕ} {rest : List Record} {s : Reader} (end : ℕ)
    → IsSound cluster width rest (some end) s
    → (is_blank s.node_records && is_blank s.edge_records) ≡ false
    → checked (window_of s end) ≡ ok (window_of s end)
unfolding checked
checked-passes {cluster} {s = s} end h full =
    let x = window_of s end in
    let nodes = sort_by id_le s.node_records in
    let edges = sort_by id_le s.edge_records in
    let topology = sort_by id_le s.pending_topology in
    let evidence = sort_by id_le s.pending_evidence in
    let at_end : is_at_end x ≡ true = ground (arith, h.wide, h.late) in
    let full' : is_blank (metrics_of x) ≡ false = ground (
      arith,
      blank-append nodes edges,
      blank-sort_by s.node_records,
      blank-sort_by s.edge_records,
      full,
    ) in
    let inside : all (is_inside x) (metrics_of x) ≡ true =
      both (is_within s.window_ns end) s.node_records s.edge_records (ground (arith, h.opened))
        (ground (arith, h.opened)) in
    let width : s.window_ns ≡ end - (end - s.window_ns) = ground (arith, h.late) in
    let widths : all (has_width (end - (end - s.window_ns))) (metrics_of x) ≡ true =
      subst (λ w. all (has_width w) (metrics_of x) ≡ true) width
        (both (has_width s.window_ns) s.node_records s.edge_records h.node_widths h.edge_widths) in
    let of_cluster : all (is_of cluster) (metrics_of x ++ topology ++ evidence) ≡ true = ground (
      arith,
      all-append (is_of cluster) (metrics_of x ++ topology) evidence,
      all-append (is_of cluster) (metrics_of x) topology,
      all-append (is_of cluster) topology evidence,
      both (is_of cluster) s.node_records s.edge_records h.nodes_of h.edges_of,
      both (is_of cluster) s.pending_topology s.pending_evidence h.topology_of h.evidence_of,
    ) in
    let one : in_one_cluster x ≡ true =
      one_cluster cluster (metrics_of x ++ topology ++ evidence)
        (ground (
          arith,
          blank-append (metrics_of x ++ topology) evidence,
          blank-append (metrics_of x) topology,
          full',
        ))
        of_cluster in
    rw (at_end, full', inside, widths, one, all_sources-distinct h, issues-structured s.reordered)
      refl

-- A part of the run that no exception ends, with what holds of the reader after it.
abbrev pub Passes : (Reader → Type 0) → Emitted → Type 0
Passes p (out, ok s) = p s
Passes p (out, err e) = false ≡ true

pub emit-Passes :
    {cluster : String} {width : ℕ} {rest : List Record} {s : Reader} (end next : ℕ)
    → s.window_ns ≤ next
    → IsSound cluster width rest (some end) s
    → Passes (IsSound cluster width rest (some next)) (emit s end)
unfolding emit
emit-Passes {s = s} end next wide h =
    elim (Bool-cases (is_blank s.node_records && is_blank s.edge_records)) [
      | inl blank ↦ rw blank (record {
        wide = h.wide;
        same = h.same;
        late = ground (arith, wide);
        opened = blank-open next s blank;
        nodes_of = h.nodes_of;
        edges_of = h.edges_of;
        topology_of = h.topology_of;
        evidence_of = h.evidence_of;
        node_widths = h.node_widths;
        edge_widths = h.edge_widths;
        distinct = h.distinct;
      })
      | inr full ↦
          rw (full, checked-passes end h full)
            (record {
              wide = h.wide;
              same = h.same;
              late = ground (arith, wide);
              opened = refl;
              nodes_of = refl;
              edges_of = refl;
              topology_of = refl;
              evidence_of = refl;
              node_widths = refl;
              edge_widths = refl;
              distinct = λ x. omega (arith, h.distinct x);
            })
    ]

pub close_before-Passes :
    {cluster : String} {width : ℕ} {rest : List Record} (s : Reader) (current : Option ℕ) (next : ℕ)
    → s.window_ns ≤ next
    → IsSound cluster width rest current s
    → Passes (IsSound cluster width rest (some next)) (close_before current next s)
unfolding close_before
close_before-Passes s none next wide h = record {
  wide = h.wide;
  same = h.same;
  late = ground (arith, wide);
  opened = blank-open next s h.opened;
  nodes_of = h.nodes_of;
  edges_of = h.edges_of;
  topology_of = h.topology_of;
  evidence_of = h.evidence_of;
  node_widths = h.node_widths;
  edge_widths = h.edge_widths;
  distinct = h.distinct;
}
close_before-Passes {cluster} {width} {rest} s (some current) next wide h =
    elim (Bool-cases (next == current)) [
      | inl same ↦
          let same' : current ≡ next = ground (arith, same) in
          rw same (subst (λ c. IsSound cluster width rest (some c) s) same' h)
      | inr other ↦ rw other (emit-Passes current next wide h)
    ]

pub Passes-updated :
    (p q : Reader → Type 0) (f : Reader → Reader) (o : Emitted)
    → ((s : Reader) → p s → q (f s))
    → Passes p o
    → Passes q (updated f o)
Passes-updated p q f (out, ok s) keep h = keep s h
Passes-updated p q f (out, err e) keep h = h
