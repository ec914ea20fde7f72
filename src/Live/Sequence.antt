-- ===== src/Live/Sequence.antt =====
-- proberca/live/sequence.py: the durable journal of committed sequences.
-- The file is its list of lines, and a missing file reads as the empty one. SHA-256 over canonical
-- JSON is the parameter `sha`. The lock is the point at which `commit_entry` reads again.
pub mod Continuity
pub mod Commits
use Prim.Native.Nat.{max}
use Prim.Native.String
use probe_rca.Prelude.{
  ℕ, zero, suc, ◌+◌, ◌-◌, String, Bool, true, false, ◌&&◌, ◌||◌, not, Option, none, some, List, [],
  ◌∷◌, ◌++◌, map, mem, leb, ltb, length, keep, get_last?, ◌==◌, nat_eq, string_eq, if◌then◌else◌,
  Result, ok, err, guard, ◌>>=◌, ◌>>◌,
}

pub data SequenceError : Type 0 where
  fields_mismatch continuity_mismatch invalid_window incomplete_identity : SequenceError
  invalid_commit conflicting_duplicate sequence_gap cannot_materialize invalid_entry : SequenceError

-- The fields that the commit fingerprint covers.
pub record Stable : Type 0 where
  pub sequence : ℕ
  pub window_start_ns : ℕ
  pub window_end_ns : ℕ
  pub holder_fingerprint : String
  pub lease_fence_fingerprint : String
  pub transaction_id : String
  pub engine_result_fingerprint : String
  pub output_ledger_fingerprint : String
  pub checkpoint_generation_id : String

pub record Full : Type 0 where
  pub stable : Stable
  pub committed_timestamp_ns : ℕ
  pub commit_fingerprint : String

pub record Legacy : Type 0 where
  pub sequence : ℕ
  pub holder_fingerprint : String
  pub checkpoint_fingerprint : String

pub data Entry : Type 0 where
  full : Full → Entry
  legacy : Legacy → Entry

-- A line of the file: an entry, or an object with other fields.
pub data Line : Type 0 where
  entry : Entry → Line
  other_fields : Line

abbrev pub sequence_of : Entry → ℕ
sequence_of (full e) = e.stable.sequence
sequence_of (legacy e) = e.sequence

-- item.get("holder_fingerprint") or item.get("lease_fence_fingerprint")
abbrev pub holder_of : Entry → Option String
holder_of (full e) =
    if e.stable.holder_fingerprint == ""
    then some e.stable.lease_fence_fingerprint
    else some e.stable.holder_fingerprint
holder_of (legacy e) = if e.holder_fingerprint == "" then none else some e.holder_fingerprint

pub record SequenceContinuity : Type 0 where
  pub sequence_range : Option (ℕ × ℕ)
  pub sequence_count : ℕ
  pub gap_count : ℕ
  pub duplicate_count : ℕ
  pub max_holders_per_sequence : ℕ

-- sorted(set(values)): a value goes in front of the first that is larger, unless it is there.
unfoldable pub insert_unique : ℕ → List ℕ → List ℕ
insert_unique a [] = a ∷ []
insert_unique a (x ∷ xs) =
    let rest = insert_unique a xs in
    if ltb a x then a ∷ x ∷ xs else if a == x then x ∷ xs else x ∷ rest

unfoldable pub sorted_set : List ℕ → List ℕ
sorted_set [] = []
sorted_set (x ∷ xs) = insert_unique x (sorted_set xs)

-- sum(max(0, right - left - 1) for left, right in zip(unique, unique[1:]))
unfoldable pub gaps : List ℕ → ℕ
gaps [] = 0
gaps (x ∷ []) = 0
gaps (x ∷ y ∷ xs) = (y - x - 1) + gaps (y ∷ xs)

abbrev pub holder_beq : Option String → Option String → Bool
holder_beq none none = true
holder_beq (some a) (some b) = a == b
holder_beq none (some b) = false
holder_beq (some a) none = false

unfoldable pub has_holder : Option String → List (Option String) → Bool
has_holder h [] = false
has_holder h (x ∷ xs) = holder_beq h x || has_holder h xs

-- The number of different holders in a list.
unfoldable pub count_holders : List (Option String) → ℕ
count_holders [] = 0
count_holders (h ∷ hs) = if has_holder h hs then count_holders hs else suc (count_holders hs)

unfoldable pub holders_at : ℕ → List Entry → ℕ
holders_at sequence entries =
    count_holders (map holder_of (keep (λ e. sequence_of e == sequence) entries))

unfoldable pub max_holders : List ℕ → List Entry → ℕ
max_holders [] entries = 0
max_holders (s ∷ ss) entries = max (holders_at s entries) (max_holders ss entries)

abbrev range_of : List ℕ → Option (ℕ × ℕ)
range_of [] = none
range_of (x ∷ xs) = elim (get_last? (x ∷ xs)) [ none ↦ none | some last ↦ some (x, last) ]

unfoldable pub validate_sequence_continuity : List Entry → SequenceContinuity
validate_sequence_continuity [] = record {
  sequence_range = none;
  sequence_count = 0;
  gap_count = 0;
  duplicate_count = 0;
  max_holders_per_sequence = 0;
}
validate_sequence_continuity (e ∷ es) =
    let values = map sequence_of (e ∷ es) in
    let unique = sorted_set values in
    record {
      sequence_range = range_of unique;
      sequence_count = length values;
      gap_count = gaps unique;
      duplicate_count = length values - length unique;
      max_holders_per_sequence = max_holders unique (e ∷ es);
    }

unfoldable pub is_continuous : List Entry → Bool
is_continuous entries =
    let c = validate_sequence_continuity entries in
    c.gap_count == 0 && c.duplicate_count == 0 && leb c.max_holders_per_sequence 1

abbrev pub last_plus_one : List Entry → ℕ → ℕ
last_plus_one entries default = elim (get_last? entries) [
  | none ↦ default
  | some e ↦ sequence_of e + 1
]

unfoldable pub stable_beq : Stable → Stable → Bool
stable_beq a b =
    a.sequence == b.sequence
    && a.window_start_ns == b.window_start_ns
    && a.window_end_ns == b.window_end_ns
    && a.holder_fingerprint == b.holder_fingerprint
    && a.lease_fence_fingerprint == b.lease_fence_fingerprint
    && a.transaction_id == b.transaction_id
    && a.engine_result_fingerprint == b.engine_result_fingerprint
    && a.output_ledger_fingerprint == b.output_ledger_fingerprint
    && a.checkpoint_generation_id == b.checkpoint_generation_id

-- The equality of two journal objects.
unfoldable pub entry_beq : Entry → Entry → Bool
entry_beq (full a) (full b) =
    stable_beq a.stable b.stable
    && a.committed_timestamp_ns == b.committed_timestamp_ns
    && a.commit_fingerprint == b.commit_fingerprint
entry_beq (legacy a) (legacy b) =
    a.sequence == b.sequence
    && a.holder_fingerprint == b.holder_fingerprint
    && a.checkpoint_fingerprint == b.checkpoint_fingerprint
entry_beq (full a) (legacy b) = false
entry_beq (legacy a) (full b) = false

-- item.get("commit_fingerprint") == fingerprint
abbrev has_commit_fingerprint : Entry → String → Bool
has_commit_fingerprint (full e) fingerprint = e.commit_fingerprint == fingerprint
has_commit_fingerprint (legacy e) fingerprint = false

-- The first entry of a sequence number, `same[0]`.
unfoldable pub find_sequence : ℕ → List Entry → Option Entry
find_sequence n [] = none
find_sequence n (e ∷ es) = if sequence_of e == n then some e else find_sequence n es

-- s[:n]
unfoldable pub prefix : ℕ → String → String
prefix zero s = ""
prefix (suc n) String.[] = ""
prefix (suc n) (String.◌∷◌ c s) = String.◌∷◌ c (prefix n s)

module _ (sha : Stable → String) where
  abbrev pub is_signed : Full → Bool
  is_signed e = sha e.stable == e.commit_fingerprint

  unfoldable pub read_lines : List Line → Result SequenceError (List Entry)
  read_lines [] = ok []
  read_lines (other_fields ∷ lines) = err fields_mismatch
  read_lines (entry (legacy e) ∷ lines) = do rest ← read_lines lines; ok (legacy e ∷ rest)
  read_lines (entry (full e) ∷ lines) =
      let rest = read_lines lines in
      if is_signed e then (do es ← rest; ok (full e ∷ es)) else err fields_mismatch

  unfoldable pub read : List Line → Result SequenceError (List Entry)
  read lines = do
    entries ← read_lines lines
    guard (is_continuous entries) continuity_mismatch
    ok entries

  unfoldable pub next_sequence : List Line → Result SequenceError ℕ
  next_sequence lines = do entries ← read lines; ok (last_plus_one entries 1)

  -- An empty holder stands for the one that the caller leaves out.
  unfoldable pub make_entry : Stable → ℕ → Result SequenceError Full
  make_entry given committed_timestamp_ns =
      let s : Stable = record given {
        holder_fingerprint =
            if given.holder_fingerprint == ""
            then prefix 24 given.lease_fence_fingerprint
            else given.holder_fingerprint;
      } in
      if s.sequence == 0 || leb s.window_end_ns s.window_start_ns
      then err invalid_window
      else if s.lease_fence_fingerprint == ""
          || s.transaction_id == ""
          || s.engine_result_fingerprint == ""
          || s.output_ledger_fingerprint == ""
          || s.checkpoint_generation_id == ""
      then err incomplete_identity
      else ok (record {
        stable = s;
        committed_timestamp_ns = committed_timestamp_ns;
        commit_fingerprint = sha s;
      })

  -- The checks of `commit_entry` before it takes the lock.
  unfoldable pub check_before_lock : Full → List Entry → Result SequenceError (Unit {0})
  check_before_lock e existing = do
    elim (find_sequence e.stable.sequence existing) [
      | some same ↦ guard (entry_beq same (full e)) conflicting_duplicate
      | none ↦ guard (e.stable.sequence == last_plus_one existing 1) sequence_gap
    ]
    guard (is_signed e) invalid_commit

  -- Under the lock: whether the entry was written, and the file.
  unfoldable pub commit_locked :
      Full → List Line → List Entry → Result SequenceError (Bool × List Line)
  commit_locked e lines entries = elim (find_sequence e.stable.sequence entries) [
    | some same ↦
        if has_commit_fingerprint same e.commit_fingerprint
        then ok (false, lines)
        else err conflicting_duplicate
    | none ↦
        if e.stable.sequence == last_plus_one entries 1
        then ok (true, map entry (entries ++ full e ∷ []))
        else err sequence_gap
  ]

  -- `seen` is the file at the first read, `lines` the file under the lock.
  unfoldable pub commit_entry_over :
      Full → (seen lines : List Line) → Result SequenceError (Bool × List Line)
  commit_entry_over e seen lines = do
    existing ← read seen
    check_before_lock e existing
    entries ← read lines
    commit_locked e lines entries

  unfoldable pub commit_entry : Full → List Line → Result SequenceError (Bool × List Line)
  commit_entry e lines = commit_entry_over e lines lines

  unfoldable pub materialize : List Entry → Result SequenceError (List Line)
  materialize entries = do guard (is_continuous entries) cannot_materialize; ok (map entry entries)

  -- The commit of the legacy format, whose first entry may have any positive number.
  unfoldable pub commit_legacy : Legacy → List Line → Result SequenceError (List Line)
  commit_legacy e lines = do
    guard (not (e.holder_fingerprint == "" || e.checkpoint_fingerprint == "" || e.sequence == 0))
        invalid_entry
    entries ← read lines
    elim (find_sequence e.sequence entries) [
      | some same ↦ if entry_beq same (legacy e) then ok lines else err conflicting_duplicate
      | none ↦
          if e.sequence == last_plus_one entries e.sequence
          then ok (map entry (entries ++ legacy e ∷ []))
          else err sequence_gap
    ]
