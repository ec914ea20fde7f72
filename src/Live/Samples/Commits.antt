-- ===== src/Live/Samples/Commits.antt =====
-- proberca/live/transaction.py and proberca/live/sequence.py: a transaction, a phase and a journal.
use probe_rca.Prelude.{
  Bool, ℕ, ◌+◌, ◌≡◌, ◌≢◌, ◌⊎◌, refl, String, true, false, none, some, List, [], ◌∷◌, ◌++◌, map,
  length, arith, ok, err, eq_iff, if◌then◌else◌,
}
use probe_rca.Live.Samples.Replicas.{token}
use probe_rca.Live.Transaction.{
  LiveWindowTransaction, prepared, committed, Call, calls_engine_completed, calls_output_prepared,
  calls_checkpoint_prepared, calls_commit, apply_all, apply, complete_engine, prepare_output,
  prepare_checkpoint, commit, PhaseState, pre_commit, run_committed, new_phase,
  mark_run_state_committed, should_replay_sequence, next_sequence, is_pre_commit,
}
use probe_rca.Live.Transaction.Lifecycle.{committed_calls}
use probe_rca.Live.Transaction.Phase.{here, next, commits, commit_point}
use probe_rca.Live.Sequence.{
  Stable, Full, Entry, full, Line, entry, read, read_lines, sequence_of, is_continuous,
  validate_sequence_continuity, gaps, sorted_set, insert_unique, max_holders, holders_at,
  count_holders, has_holder, commit_entry, commit_entry_over, check_before_lock, commit_locked,
  find_sequence, conflicting_duplicate,
}
use probe_rca.Live.Sequence.Continuity.{Counts, range, is_continuous-range}
use probe_rca.Live.Sequence.Commits.{
  commit_entry-next, commit_entry_over-append_only, commit_entry-restamped,
}

abbrev transaction : LiveWindowTransaction
transaction = record {
  transaction_id = "t";
  lease_fence_token = token;
  expected_sequence = 1;
  window_start_ns = 0;
  window_end_ns = 10;
  starting_current_generation = none;
  starting_ledger_fingerprint = "l";
  state = prepared;
  engine_result_fingerprint = none;
  planned_output_ledger_fingerprint = none;
  planned_checkpoint_fingerprint = none;
  abort_reason = none;
}

abbrev done : LiveWindowTransaction
done = record transaction {
  state = committed;
  engine_result_fingerprint = some "e";
  planned_output_ledger_fingerprint = some "o";
  planned_checkpoint_fingerprint = some "k";
}

abbrev calls : List Call
calls =
    calls_engine_completed "e"
    ∷ calls_output_prepared "o"
    ∷ calls_checkpoint_prepared "k"
    ∷ calls_commit
    ∷ []

abbrev fingerprint_e : String
fingerprint_e = "e"

abbrev fingerprint_o : String
fingerprint_o = "o"

abbrev fingerprint_k : String
fingerprint_k = "k"

nonempty_e : fingerprint_e ≢ ""
nonempty_e e = absurd (ground (arith, eq_iff "e" ""))

nonempty_o : fingerprint_o ≢ ""
nonempty_o e = absurd (ground (arith, eq_iff "o" ""))

nonempty_k : fingerprint_k ≢ ""
nonempty_k e = absurd (ground (arith, eq_iff "k" ""))

done_lem : apply_all calls transaction ≡ ok done
unfolding apply_all apply complete_engine prepare_output prepare_checkpoint commit
done_lem = refl

committed_calls_example :
    (e o k : String) × (calls
      ≡ calls_engine_completed e
        ∷ calls_output_prepared o
        ∷ calls_checkpoint_prepared k
        ∷ calls_commit
        ∷ [])
    × (e ≢ "")
    × (o ≢ "")
    × (k ≢ "")
    × (done ≡ record transaction {
      engine_result_fingerprint = some e;
      planned_output_ledger_fingerprint = some o;
      planned_checkpoint_fingerprint = some k;
      state = committed;
    })
committed_calls_example = committed_calls calls transaction done refl done_lem refl

abbrev phase : PhaseState
phase = record {
  expected_sequence = 5;
  committed_sequence = 4;
  phase = pre_commit;
  aborted = false;
  reason_code = none;
}

abbrev phase_after : PhaseState
phase_after = record phase { committed_sequence = 5; phase = run_committed }

new_phase_lem : new_phase 5 4 ≡ ok phase
unfolding new_phase
new_phase_lem = refl

marked_lem : mark_run_state_committed phase ≡ ok phase_after
unfolding mark_run_state_committed
marked_lem = refl

abbrev no_abort : Bool
no_abort = false

commit_point_example :
    ((should_replay_sequence 5 phase_after ≡ true)
      × (is_pre_commit phase_after.phase ≡ true)
      × (next_sequence phase_after ≡ 5))
    ⊎ ((should_replay_sequence 5 phase_after ≡ false)
        × (is_pre_commit phase_after.phase ≡ false)
        × (next_sequence phase_after ≡ 5 + 1)
        × (phase_after.aborted ≡ false)
        × (no_abort ≡ false))
commit_point_example = commit_point 5 4 new_phase_lem (next here (commits marked_lem))

abbrev signature : Stable → String
signature s = s.transaction_id

abbrev item : ℕ → String → Full
item sequence id = record {
  stable = record {
    sequence = sequence;
    window_start_ns = sequence;
    window_end_ns = sequence + 1;
    holder_fingerprint = "h";
    lease_fence_fingerprint = "f";
    transaction_id = id;
    engine_result_fingerprint = "e";
    output_ledger_fingerprint = "o";
    checkpoint_generation_id = "g";
  };
  committed_timestamp_ns = 7;
  commit_fingerprint = id;
}

abbrev first : Full
first = item 1 "one"

abbrev second : Full
second = item 2 "two"

abbrev journal : List Line
journal = entry (full first) ∷ []

abbrev entries : List Entry
entries = full first ∷ []

abbrev journal_after : List Line
journal_after = entry (full first) ∷ entry (full second) ∷ []

journal_lem : read signature journal ≡ ok entries
unfolding read read_lines is_continuous validate_sequence_continuity gaps sorted_set insert_unique
    max_holders holders_at count_holders has_holder
journal_lem = refl

journal_after_lem : read signature journal_after ≡ ok (entries ++ full second ∷ [])
unfolding read read_lines is_continuous validate_sequence_continuity gaps sorted_set insert_unique
    max_holders holders_at count_holders has_holder
journal_after_lem = refl

entries_continuous : is_continuous entries ≡ true
unfolding is_continuous validate_sequence_continuity gaps sorted_set insert_unique max_holders
    holders_at count_holders has_holder
entries_continuous = refl

is_continuous-range_example :
    (lo : ℕ) × (sorted_set (map sequence_of entries) ≡ range lo (length entries))
is_continuous-range_example = is_continuous-range entries entries_continuous

commit_entry-next_example :
    (commit_entry signature second journal ≡ ok (true, journal_after))
    × (read signature journal_after ≡ ok (entries ++ full second ∷ []))
    × Counts 1 (entries ++ full second ∷ [])
commit_entry-next_example =
    commit_entry-next signature journal entries second journal_lem (refl, tt) refl refl

commit_over_lem : commit_entry_over signature second journal journal ≡ ok (true, journal_after)
unfolding commit_entry_over commit_locked check_before_lock read read_lines is_continuous
    validate_sequence_continuity gaps sorted_set insert_unique max_holders holders_at count_holders
    has_holder find_sequence
commit_over_lem = refl

commit_entry_over-append_only_example :
    journal_after ≡ (if true then journal ++ entry (full second) ∷ [] else journal)
commit_entry_over-append_only_example =
    commit_entry_over-append_only signature second journal journal journal_after true
      commit_over_lem

found_lem : find_sequence 1 entries ≡ some (full first)
unfolding find_sequence
found_lem = refl

abbrev other_time : ℕ
other_time = 8

other_time_lem : other_time ≢ first.committed_timestamp_ns
other_time_lem e = omega arith

commit_entry-restamped_example :
    commit_entry signature (record first { committed_timestamp_ns = 8 }) journal
    ≡ err conflicting_duplicate
commit_entry-restamped_example =
    commit_entry-restamped signature journal entries first 8 journal_lem found_lem other_time_lem
