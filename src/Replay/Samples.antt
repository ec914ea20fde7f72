-- ===== src/Replay/Samples.antt =====
-- proberca/replay/reader.py: four records in two windows, one of them a duplicate.
use probe_rca.Prelude.{
  refl, ◌⊎◌, ◌≤◌, some, none, String, ℕ, ◌*◌, ◌≡◌, true, false, none, List, [], ◌∷◌, all, arith,
}
use probe_rca.Replay.Reader.{
  ReaderError, same_key, read_records, read_as, close_before, emit, checked, close_last, new,
  Record, node_metric, edge_metric, topology_snapshot, deduplicate, iter_windows,
}
use probe_rca.Replay.Reader.Windows.{is_filled, iter_windows_filled}
use probe_rca.Replay.Reader.Counts.{total, count_metrics}
use probe_rca.Replay.Reader.Clean.{is_clean, iter_windows_counted}
use probe_rca.Prelude.Sorting.{sort_by, insert_sorted, lex_le}

abbrev node : (id : String) → ℕ → Record
node id time = record {
  timestamp_ns = time;
  record_type = node_metric;
  stable_id = "cpu";
  source_id = id;
  cluster_id = "c";
  window_sec = 1;
  payload = "1";
}

abbrev merged : List Record
merged =
    record (node "topology" 5) { record_type = topology_snapshot }
    ∷ node "cpu:1500000000" 1500000000
    ∷ node "cpu:1500000000" 1500000000
    ∷ record (node "cpu:2500000000" 2500000000) { record_type = edge_metric }
    ∷ []

iter_windows_filled_example :
    all (is_filled (1 * 1000000000)) (iter_windows 1 false merged).0 ≡ true
iter_windows_filled_example = iter_windows_filled 1 false merged (omega arith)

-- The stream is clean, so no exception ends it.
clean_lem : is_clean "c" (1 * 1000000000) (deduplicate none merged).0 ≡ true
unfolding deduplicate same_key
clean_lem = refl

ends_lem : (iter_windows 1 false merged).1 ≡ none
unfolding iter_windows deduplicate same_key read_records read_as close_before emit checked
    close_last new sort_by insert_sorted lex_le
ends_lem = refl

iter_windows_counted_example :
    ((iter_windows 1 false merged).1 ≡ none)
      × (total (iter_windows 1 false merged).0 ≡ count_metrics (deduplicate none merged).0)
    ⊎ ((e : ReaderError) × ((iter_windows 1 false merged).1 ≡ some e)
        × (total (iter_windows 1 false merged).0 ≤ count_metrics (deduplicate none merged).0)
        × (((deduplicate none merged).1 ≡ some e)
            ⊎ (is_clean "c" (1 * 1000000000) (deduplicate none merged).0 ≡ false)))
iter_windows_counted_example = iter_windows_counted "c" 1 false merged (omega arith)
