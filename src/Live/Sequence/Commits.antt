-- ===== src/Live/Sequence/Commits.antt =====
-- proberca/live/sequence.py: commits against the journal file.
use mathlib.Core.List.{map-append}
use text.Mathlib.TextPositions.{eq_refl}
use probe_rca.Prelude.{
  ℕ, ◌+◌, ◌≤◌, ◌≡◌, ◌≢◌, inl, inr, refl, ap, sym, ◌∙◌, String, Bool, true, false, none, some, List,
  [], ◌∷◌, ◌++◌, map, length, arith, nat_eq, string_eq, Result, ok, err, Bool-cases, bind-eq-ok,
  ◌>>=◌, if◌then◌else◌,
}
use probe_rca.Live.Sequence.{
  Stable, Full, Entry, full, legacy, Line, entry, other_fields, sequence_of, last_plus_one,
  find_sequence, entry_beq, stable_beq, is_signed, is_continuous, read_lines, read,
  check_before_lock, commit_locked, commit_entry, commit_entry_over, SequenceError,
  conflicting_duplicate,
}
use probe_rca.Live.Sequence.Continuity.{Counts, Counts-is_continuous}

prepend-eq-ok :
    (x : Entry) (r : Result SequenceError (List Entry)) (es : List Entry)
    → (r >>= λ ds. ok (x ∷ ds)) ≡ ok es
    → (ds : List Entry) × (r ≡ ok ds) × (es ≡ x ∷ ds)
prepend-eq-ok x (ok ds) es h = (ds, refl, cc)
prepend-eq-ok x (err e) es h = cc

module _ (sha : Stable → String) where
  read_lines-cons :
      (x : Entry) (lines : List Line) (es : List Entry)
      → read_lines sha (entry x ∷ lines) ≡ ok es
      → (ds : List Entry) × (read_lines sha lines ≡ ok ds) × (es ≡ x ∷ ds)
  unfolding read_lines
  read_lines-cons (legacy x) lines es h = prepend-eq-ok (legacy x) (read_lines sha lines) es h
  read_lines-cons (full x) lines es h = elim (Bool-cases (is_signed sha x)) [
    | inl signed ↦ prepend-eq-ok (full x) (read_lines sha lines) es (rw signed at h)
    | inr unsigned ↦ absurd (ground arith)
  ]

  -- A line that reads, reads in front of any other lines that read.
  read_lines-before :
      (x : Entry) (lines lines' : List Line) (es ds : List Entry)
      → read_lines sha (entry x ∷ lines) ≡ ok es
      → read_lines sha lines' ≡ ok ds
      → read_lines sha (entry x ∷ lines') ≡ ok (x ∷ ds)
  unfolding read_lines
  read_lines-before (legacy x) lines lines' es ds h k = rw k
  read_lines-before (full x) lines lines' es ds h k = ground arith

  read_lines-map :
      (lines : List Line) (es : List Entry) → read_lines sha lines ≡ ok es → lines ≡ map entry es
  read_lines-map [] es h = unfold read_lines in ground arith
  read_lines-map (other_fields ∷ lines) es h = unfold read_lines in cc
  read_lines-map (entry x ∷ lines) es h =
      let (ds, got, same) = read_lines-cons x lines es h in
      rw same (ap (λ (l : List Line). entry x ∷ l) (read_lines-map lines ds got))

  -- One more signed line reads as one more entry.
  read_lines-append :
      (lines : List Line) (es : List Entry) (e : Full)
      → is_signed sha e ≡ true
      → read_lines sha lines ≡ ok es
      → read_lines sha (lines ++ entry (full e) ∷ []) ≡ ok (es ++ full e ∷ [])
  read_lines-append [] es e signed h = unfold read_lines in ground arith
  read_lines-append (other_fields ∷ lines) es e signed h = unfold read_lines in cc
  read_lines-append (entry x ∷ lines) es e signed h =
      let (ds, got, same) = read_lines-cons x lines es h in
      rw same (
        read_lines-before x lines (lines ++ entry (full e) ∷ []) es (ds ++ full e ∷ []) h
          (read_lines-append lines ds e signed got))

module _ (sha : Stable → String) where
  written_lines :
      (lines : List Line) (es : List Entry) (e : Full)
      → read_lines sha lines ≡ ok es
      → map entry (es ++ full e ∷ []) ≡ lines ++ entry (full e) ∷ []
  written_lines lines es e h =
      map-append entry es (full e ∷ [])
      ∙ ap (λ (l : List Line). l ++ entry (full e) ∷ []) (sym (read_lines-map sha lines es h))

Counts-append :
    (n : ℕ) (es : List Entry) (e : Entry)
    → Counts n es
    → sequence_of e ≡ n + length es
    → Counts n (es ++ e ∷ [])
Counts-append n [] e c h = (omega arith, tt)
Counts-append n (x ∷ es) e c h = (c.0, Counts-append (n + 1) es e c.1 (omega arith))

last_plus_one-some :
    (n default : ℕ) (e : Entry) (es : List Entry)
    → Counts n (e ∷ es)
    → last_plus_one (e ∷ es) default ≡ n + length (e ∷ es)
last_plus_one-some n default e [] c = omega arith
last_plus_one-some n default e (x ∷ es) c =
    last_plus_one-some (n + 1) default x es c.1 ∙ omega arith

last_plus_one-Counts : (n : ℕ) (es : List Entry) → Counts n es → last_plus_one es n ≡ n + length es
last_plus_one-Counts n [] c = omega arith
last_plus_one-Counts n (e ∷ es) c = last_plus_one-some n n e es c

find_sequence-past :
    (n k : ℕ) (es : List Entry) → Counts n es → n + length es ≤ k → find_sequence k es ≡ none
unfolding find_sequence
find_sequence-past n k [] c h = refl
find_sequence-past n k (e ∷ es) c h = ground (arith, find_sequence-past (n + 1) k es)

find_sequence-last :
    (n : ℕ) (es : List Entry) (e : Entry)
    → Counts n es
    → sequence_of e ≡ n + length es
    → find_sequence (sequence_of e) (es ++ e ∷ []) ≡ some e
unfolding find_sequence
find_sequence-last n [] e c h = ground arith
find_sequence-last n (x ∷ es) e c h = ground (arith, find_sequence-last (n + 1) es e)

entry_beq_refl : (e : Full) → entry_beq (full e) (full e) ≡ true
unfolding entry_beq stable_beq
entry_beq_refl e = ground (
  arith,
  eq_refl e.commit_fingerprint,
  eq_refl e.stable.holder_fingerprint,
  eq_refl e.stable.lease_fence_fingerprint,
  eq_refl e.stable.transaction_id,
  eq_refl e.stable.engine_result_fingerprint,
  eq_refl e.stable.output_ledger_fingerprint,
  eq_refl e.stable.checkpoint_generation_id,
)

module _ (sha : Stable → String) where
  read-eq-ok :
      (lines : List Line) (es : List Entry)
      → read sha lines ≡ ok es
      → (read_lines sha lines ≡ ok es) × (is_continuous es ≡ true)
  unfolding read
  read-eq-ok lines es h =
      let (ds, got, passed) = bind-eq-ok (read_lines sha lines) _ h in ground arith

  read-of :
      (lines : List Line) (es : List Entry)
      → read_lines sha lines ≡ ok es
      → Counts 1 es
      → read sha lines ≡ ok es
  unfolding read
  read-of lines es h c = rw h (rw (Counts-is_continuous 1 es c) refl)

  commit_entry-read :
      (lines : List Line) (es : List Entry) (e : Full)
      → read sha lines ≡ ok es
      → check_before_lock sha e es ≡ ok tt
      → commit_entry sha e lines ≡ commit_locked sha e lines es
  unfolding commit_entry commit_entry_over
  commit_entry-read lines es e readable passed = rw readable (rw passed)

  -- The next entry in order is written behind the file's lines, and the file then reads back as
  -- the old entries and the new one, still numbered from 1 on.
  pub commit_entry-next :
      (lines : List Line) (es : List Entry) (e : Full)
      → read sha lines ≡ ok es
      → Counts 1 es
      → is_signed sha e ≡ true
      → e.stable.sequence ≡ length es + 1
      → (commit_entry sha e lines ≡ ok (true, lines ++ entry (full e) ∷ []))
        × (read sha (lines ++ entry (full e) ∷ []) ≡ ok (es ++ full e ∷ []))
        × Counts 1 (es ++ full e ∷ [])
  commit_entry-next lines es e readable c signed next =
      let at_end : e.stable.sequence ≡ last_plus_one es 1 =
        omega (arith, last_plus_one-Counts 1 es c) in
      let unknown = find_sequence-past 1 e.stable.sequence es c (omega arith) in
      let lines_read = (read-eq-ok lines es readable).0 in
      let passed : check_before_lock sha e es ≡ ok tt = unfold check_before_lock in ground arith in
      let numbered = Counts-append 1 es (full e) c (omega arith) in
      let whole = read_lines-append sha lines es e signed lines_read in
      (
        commit_entry-read lines es e readable passed
            ∙ (unfold commit_locked in ground (arith, written_lines sha lines es e lines_read)),
        read-of (lines ++ entry (full e) ∷ []) (es ++ full e ∷ []) whole numbered,
        numbered,
      )

  -- A second commit of the entry that was written last writes nothing and is not an error.
  pub commit_entry-again :
      (lines : List Line) (es : List Entry) (e : Full)
      → read sha lines ≡ ok (es ++ full e ∷ [])
      → Counts 1 es
      → is_signed sha e ≡ true
      → e.stable.sequence ≡ length es + 1
      → commit_entry sha e lines ≡ ok (false, lines)
  commit_entry-again lines es e readable c signed last =
      let known = find_sequence-last 1 es (full e) c (omega arith) in
      let same = entry_beq_refl e in
      let passed : check_before_lock sha e (es ++ full e ∷ []) ≡ ok tt =
        unfold check_before_lock in ground arith in
      commit_entry-read lines (es ++ full e ∷ []) e readable passed
      ∙ (unfold commit_locked in ground (arith, eq_refl e.commit_fingerprint))

  -- Whatever another process wrote before the lock was taken, a commit that succeeds leaves every
  -- line of the file in place: it writes the entry behind them, or nothing.
  pub commit_entry_over-append_only :
      (e : Full) (seen lines lines' : List Line) (written : Bool)
      → commit_entry_over sha e seen lines ≡ ok (written, lines')
      → lines' ≡ (if written then lines ++ entry (full e) ∷ [] else lines)
  unfolding commit_entry_over commit_locked
  commit_entry_over-append_only e seen lines lines' written h =
      let (existing, _, after_read) = bind-eq-ok (read sha seen) _ h in
      let (_, _, locked) = bind-eq-ok (check_before_lock sha e existing) _ after_read in
      let (entries, got, done) = bind-eq-ok (read sha lines) _ locked in
      let whole = written_lines sha lines entries e (read-eq-ok lines entries got).0 in ground arith

  -- A retry of a commit whose entry is on file, under another commit time, is refused as a conflict,
  -- although the commit fingerprint does not cover that time.
  pub commit_entry-restamped :
      (lines : List Line) (es : List Entry) (e : Full) (time : ℕ)
      → read sha lines ≡ ok es
      → find_sequence e.stable.sequence es ≡ some (full e)
      → time ≢ e.committed_timestamp_ns
      → commit_entry sha (record e { committed_timestamp_ns = time }) lines
        ≡ err conflicting_duplicate
  unfolding commit_entry commit_entry_over check_before_lock entry_beq
  commit_entry-restamped lines es e time readable known other =
      rw (readable, known) (ground (arith, entry_beq_refl e))
