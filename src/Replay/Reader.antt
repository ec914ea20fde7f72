-- ===== src/Replay/Reader.antt =====
-- proberca/replay/reader.py: duplicates and windows. A stream is the list of what it yields with the
-- exception that ends it, if one does. The merge of the source streams, which the code takes from
-- heapq, is the argument. Of a record are kept its time, its type, its ids, its cluster, its width,
-- which only the metric records have, and its content as text. `reordered` is False under strict
-- order, and fixed here where the code sets it while it reads.
pub mod Windows
pub mod Counts
pub mod Sources
pub mod Checks
pub mod Clean
use probe_rca.Prelude.{
  Result, ok, err, guard, ◌>>=◌, ◌>>◌, all, mem, ℕ, ◌+◌, ◌-◌, ◌*◌, ◌/◌, String, Bool, true, false,
  ◌&&◌, ◌||◌, not, Option, none, some, List, [], ◌∷◌, ◌++◌, map, ltb, leb, ◌==◌, nat_eq, string_eq,
  if◌then◌else◌,
}
use probe_rca.Prelude.Sorting.{sort_by, text_le}

pub data RecordType : Type 0 where
  edge_metric evidence_observation node_metric topology_snapshot : RecordType

pub record Record : Type 0 where
  pub timestamp_ns : ℕ
  pub record_type : RecordType
  pub stable_id : String
  pub source_id : String
  pub cluster_id : String
  pub window_sec : ℕ
  pub payload : String

-- ReplayRecordConflictError and the reasons of EngineWindowAlignmentError
pub data ReaderError : Type 0 where
  conflicting_duplicate : Record → ReaderError
  not_at_window_end empty_window outside_window conflicting_width crossed_clusters : ReaderError
  duplicate_sources unstructured_issue : ReaderError

abbrev pub type_beq : RecordType → RecordType → Bool
type_beq edge_metric edge_metric = true
type_beq evidence_observation evidence_observation = true
type_beq node_metric node_metric = true
type_beq topology_snapshot topology_snapshot = true
type_beq _ _ = false

-- key == previous_key
unfoldable pub same_key : Record → Record → Bool
same_key a b =
    a.timestamp_ns == b.timestamp_ns
    && type_beq a.record_type b.record_type
    && a.stable_id == b.stable_id

abbrev pub Stream {ℓ} : Type ℓ → Type ℓ
Stream A = List A × Option ReaderError

abbrev pub yields {ℓ} : {A : Type ℓ} → A → Stream A → Stream A
yields a (rest, e) = (a ∷ rest, e)

abbrev is_repeated : Option Record → Record → Bool
is_repeated none r = false
is_repeated (some previous) r = same_key r previous

abbrev is_same_payload : Option Record → Record → Bool
is_same_payload none r = false
is_same_payload (some previous) r = r.payload == previous.payload

-- `_deduplicate`, from the record before on.
unfoldable pub deduplicate : (previous : Option Record) → List Record → Stream Record
deduplicate previous [] = ([], none)
deduplicate previous (r ∷ rs) =
    let skipped = deduplicate previous rs in
    let kept = deduplicate (some r) rs in
    if is_repeated previous r
    then (if is_same_payload previous r then skipped else ([], some (conflicting_duplicate r)))
    else yields r kept

pub record ReorderIssue : Type 0 where
  pub reason_code : String
  pub detail : String

pub record EngineWindowInput : Type 0 where
  pub timestamp_ns : ℕ
  pub window_start_ns : ℕ
  pub window_end_ns : ℕ
  pub node_metric_records : List Record
  pub edge_metric_records : List Record
  pub topology_snapshot_events : List Record
  pub evidence_observations_available_by_cutoff : List Record
  pub source_record_ids : List String
  pub replay_sequence_number : ℕ
  pub reorder_issues : List ReorderIssue

abbrev pub is_blank : List Record → Bool
is_blank [] = true
is_blank (x ∷ xs) = false

abbrev pub metrics_of : EngineWindowInput → List Record
metrics_of x = x.node_metric_records ++ x.edge_metric_records

-- len(clusters) == 1
abbrev pub is_one_cluster : List Record → Bool
is_one_cluster [] = false
is_one_cluster (r ∷ rs) = all (λ (other : Record). other.cluster_id == r.cluster_id) rs

abbrev pub is_distinct : List String → Bool
is_distinct [] = true
is_distinct (x ∷ xs) = not (mem x xs) && is_distinct xs

abbrev pub is_at_end : EngineWindowInput → Bool
is_at_end x = x.timestamp_ns == x.window_end_ns && ltb x.window_start_ns x.window_end_ns

abbrev pub is_inside : EngineWindowInput → Record → Bool
is_inside x r = leb x.window_start_ns r.timestamp_ns && ltb r.timestamp_ns x.window_end_ns

abbrev pub has_width : ℕ → Record → Bool
has_width width r = r.window_sec * 1000000000 == width

abbrev pub in_one_cluster : EngineWindowInput → Bool
in_one_cluster x =
    is_one_cluster
      (metrics_of x ++ x.topology_snapshot_events ++ x.evidence_observations_available_by_cutoff)

abbrev pub is_structured : ReorderIssue → Bool
is_structured i = not (i.reason_code == "")

-- __post_init__: the constructor, which may raise.
unfoldable pub checked : EngineWindowInput → Result ReaderError EngineWindowInput
checked x = do
  guard (is_at_end x) not_at_window_end
  guard (not (is_blank (metrics_of x))) empty_window
  guard (all (is_inside x) (metrics_of x)) outside_window
  guard (all (has_width (x.window_end_ns - x.window_start_ns)) (metrics_of x)) conflicting_width
  guard (in_one_cluster x) crossed_clusters
  guard (is_distinct x.source_record_ids) duplicate_sources
  guard (all is_structured x.reorder_issues) unstructured_issue
  ok x

-- The variables of iter_windows.
pub record Reader : Type 0 where
  pub window_ns : ℕ
  pub reordered : Bool
  pub sequence : ℕ
  pub current_window_end : Option ℕ
  pub node_records : List Record
  pub edge_records : List Record
  pub pending_topology : List Record
  pub pending_evidence : List Record

unfoldable pub new : (window_sec : ℕ) → (reordered : Bool) → Reader
new window_sec reordered = record {
  window_ns = window_sec * 1000000000;
  reordered = reordered;
  sequence = 0;
  current_window_end = none;
  node_records = [];
  edge_records = [];
  pending_topology = [];
  pending_evidence = [];
}

abbrev pub id_le : Record → Record → Bool
id_le a b = text_le a.stable_id b.stable_id

abbrev pub source_of : Record → String
source_of r = r.source_id

abbrev pub all_sources : Reader → List String
all_sources s =
    map source_of (s.node_records ++ s.edge_records ++ s.pending_topology ++ s.pending_evidence)

abbrev pub issues_of : Bool → List ReorderIssue
issues_of true = record { reason_code = "explicit_reorder"; detail = "input stream reordered" } ∷ []
issues_of false = []

abbrev pub window_of : Reader → ℕ → EngineWindowInput
window_of s end = record {
  timestamp_ns = end;
  window_start_ns = end - s.window_ns;
  window_end_ns = end;
  node_metric_records = sort_by id_le s.node_records;
  edge_metric_records = sort_by id_le s.edge_records;
  topology_snapshot_events = sort_by id_le s.pending_topology;
  evidence_observations_available_by_cutoff = sort_by id_le s.pending_evidence;
  source_record_ids = sort_by text_le (all_sources s);
  replay_sequence_number = s.sequence + 1;
  reorder_issues = issues_of s.reordered;
}

-- The windows that a part of the run yields, and the reader after it or the exception that ends it.
abbrev pub Emitted : Type 0
Emitted = List EngineWindowInput × Result ReaderError Reader

abbrev pub cleared : Reader → Reader
cleared s = record s {
  sequence = s.sequence + 1;
  node_records = [];
  edge_records = [];
  pending_topology = [];
  pending_evidence = [];
}

-- `emit` from the constructor's answer on.
abbrev pub constructed : Reader → Result ReaderError EngineWindowInput → Emitted
constructed s (ok x) = (x ∷ [], ok (cleared s))
constructed s (err e) = ([], err e)

unfoldable pub emit : Reader → ℕ → Emitted
emit s end =
    if is_blank s.node_records && is_blank s.edge_records
    then ([], ok s)
    else constructed s (checked (window_of s end))

abbrev pub window_end_of : Reader → Record → ℕ
window_end_of s r = (r.timestamp_ns / s.window_ns + 1) * s.window_ns

-- The window that is open is closed if the record is of another one.
unfoldable pub close_before : Option ℕ → (window_end : ℕ) → Reader → Emitted
close_before none end s = ([], ok s)
close_before (some current) end s = if end == current then ([], ok s) else emit s current

abbrev pub open_at : Reader → ℕ → Reader
open_at s end = record s { current_window_end = some end }

abbrev pub add_node : Record → Reader → Reader
add_node r s = record s { node_records = s.node_records ++ r ∷ [] }

abbrev pub add_edge : Record → Reader → Reader
add_edge r s = record s { edge_records = s.edge_records ++ r ∷ [] }

-- An exception skips what follows.
abbrev pub updated : (Reader → Reader) → Emitted → Emitted
updated f (out, ok s) = (out, ok (f s))
updated f (out, err e) = (out, err e)

-- The body of the loop over the merged records, by the type of the record.
unfoldable pub read_as : RecordType → Record → Reader → Emitted
read_as topology_snapshot r s =
    ([], ok (record s { pending_topology = s.pending_topology ++ r ∷ [] }))
read_as evidence_observation r s =
    ([], ok (record s { pending_evidence = s.pending_evidence ++ r ∷ [] }))
read_as node_metric r s =
    let end = window_end_of s r in
    updated (λ (s' : Reader). add_node r (open_at s' end)) (close_before s.current_window_end end s)
read_as edge_metric r s =
    let end = window_end_of s r in
    updated (λ (s' : Reader). add_edge r (open_at s' end)) (close_before s.current_window_end end s)

abbrev pub continued : (Reader → Emitted) → Emitted → Emitted
continued f (out, ok s) = (out ++ (f s).0, (f s).1)
continued f (out, err e) = (out, err e)

unfoldable pub read_records : List Record → Reader → Emitted
read_records [] s = ([], ok s)
read_records (r ∷ rs) s = continued (read_records rs) (read_as r.record_type r s)

abbrev pub ended : Emitted → Stream EngineWindowInput
ended (out, ok s) = (out, none)
ended (out, err e) = (out, some e)

-- After the loop; an exception of the merged stream leaves the open window behind.
unfoldable pub close_last : Option ReaderError → Option ℕ → Reader → Stream EngineWindowInput
close_last (some e) current s = ([], some e)
close_last none none s = ([], none)
close_last none (some end) s = ended (emit s end)

abbrev pub finished : Option ReaderError → Emitted → Stream EngineWindowInput
finished e (out, err raised) = (out, some raised)
finished e (out, ok s) =
    (out ++ (close_last e s.current_window_end s).0, (close_last e s.current_window_end s).1)

unfoldable pub iter_windows :
    (window_sec : ℕ) (reordered : Bool) (merged : List Record) → Stream EngineWindowInput
iter_windows window_sec reordered merged =
    let (records, e) = deduplicate none merged in
    finished e (read_records records (new window_sec reordered))
