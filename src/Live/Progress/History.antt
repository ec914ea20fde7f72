-- ===== src/Live/Progress/History.antt =====
-- proberca/live/progress.py: the history of the tracker, and the marks of an attempt's resources.
use probe_rca.Prelude.{
  ℕ, suc, ◌+◌, ◌≤◌, ◌<◌, ◌≡◌, ◌⊎◌, inl, inr, refl, String, ◌||◌, not, List, [], ◌∷◌, ◌++◌, length,
  leb, length-append, ◌==◌, string_eq, if-keeps, Bool-cases, leb→le, arith, ok,
}
use probe_rca.Live.Progress.{
  StageEvent, Tracker, Call, Details, Sink, Outcome, push, drop_first, recorded, event_of, append,
  new, is_named,
}
use probe_rca.Live.Progress.Methods.{
  Method, perform, perform_all, enter, bind_attempt, materialize_working_engine,
  materialize_generation_staging, record_collection_counts, classify_attempt, commit_attempt,
  progress, exit, retry, timeout, record_error, abort, entering, binding, materializing_engine,
  materializing_staging, counting, classifying, committing, progressing, exiting, retrying,
  timing_out, failing, aborting, entered,
}

abbrev pub Numbered : ℕ → List StageEvent → Type 0
Numbered n [] = Unit
Numbered n (e ∷ es) = (e.event_index ≡ n) × Numbered (suc n) es

-- The events are numbered in turn up to the counter, and none was dropped before there were as many
-- as the history holds.
pub record IsHistory (maximum counter : ℕ) (events : List StageEvent) : Type 0 where
  pub first : ℕ
  pub numbered : Numbered first events
  pub up_to_counter : first + length events ≡ counter + 1
  pub positive : 0 < maximum
  pub bounded : length events ≤ maximum
  pub full : (first ≡ 1) ⊎ (length events ≡ maximum)

abbrev pub IsTracked : Tracker → Type 0
IsTracked t = IsHistory t.maximum_history t.operation_counter t.events

Numbered-append :
    (n k : ℕ) (es : List StageEvent) (e : StageEvent)
    → Numbered n es
    → k ≡ n + length es
    → e.event_index ≡ k
    → Numbered n (es ++ e ∷ [])
Numbered-append n k [] e h last index = (omega (arith, last, index), tt)
Numbered-append n k (x ∷ es) e h last index =
    (h.0, Numbered-append (suc n) k es e h.1 (omega (arith, last)) index)

appended :
    (maximum counter : ℕ) (e : StageEvent) (es : List StageEvent)
    → IsHistory maximum counter es
    → e.event_index ≡ counter + 1
    → length es + 1 ≤ maximum
    → IsHistory maximum (counter + 1) (es ++ e ∷ [])
appended maximum counter e es h index fits = record {
  first = h.first;
  numbered =
      Numbered-append h.first (counter + 1) es e h.numbered (omega (arith, h.up_to_counter)) index;
  up_to_counter = omega (arith, h.up_to_counter, length-append es (e ∷ []));
  positive = h.positive;
  bounded = omega (arith, fits, length-append es (e ∷ []));
  full = elim h.full [ inl all ↦ inl all | inr at_limit ↦ absurd (omega (arith, at_limit, fits)) ];
}

shifted :
    (maximum counter : ℕ) (e : StageEvent) (es : List StageEvent)
    → IsHistory maximum counter es
    → e.event_index ≡ counter + 1
    → maximum < length es + 1
    → IsHistory maximum (counter + 1) (drop_first (es ++ e ∷ []))
shifted maximum counter e [] h index over = absurd (omega (arith, h.positive, over))
shifted maximum counter e (x ∷ es) h index over = record {
  first = suc h.first;
  numbered =
      Numbered-append (suc h.first) (counter + 1) es e h.numbered.1 (omega (arith, h.up_to_counter))
        index;
  up_to_counter = omega (arith, h.up_to_counter, length-append es (e ∷ []));
  positive = h.positive;
  bounded = omega (arith, h.bounded, length-append es (e ∷ []));
  full = inr (omega (arith, h.bounded, over, length-append es (e ∷ [])));
}

push-IsHistory :
    (maximum counter : ℕ) (e : StageEvent) (es : List StageEvent)
    → IsHistory maximum counter es
    → e.event_index ≡ counter + 1
    → IsHistory maximum (counter + 1) (push maximum e es)
unfolding push
push-IsHistory maximum counter e es h index =
    elim (Bool-cases (leb (length (es ++ e ∷ [])) maximum)) [
      | inl fits ↦ rw fits (
          appended maximum counter e es h index
            (omega (arith, length-append es (e ∷ []), leb→le (length (es ++ e ∷ [])) maximum fits)))
      | inr over ↦
          rw over
            (shifted maximum counter e es h index (ground (arith, over, length-append es (e ∷ []))))
    ]

recorded-IsTracked :
    (digest : String → String) (call : Call) (d : Details) (t : Tracker)
    → IsTracked t
    → IsTracked (recorded digest call d t)
unfolding recorded event_of
recorded-IsTracked digest call d t h =
    push-IsHistory t.maximum_history t.operation_counter (event_of digest call d t) t.events h refl

abbrev Kept : Outcome → Type 0
Kept o = IsTracked o.1

perform-IsTracked :
    (digest : String → String) (sink : Sink) (call : Call) (m : Method) (t : Tracker)
    → IsTracked t
    → IsTracked (perform digest sink call m t).1
unfolding perform enter bind_attempt materialize_working_engine materialize_generation_staging
    record_collection_counts classify_attempt commit_attempt progress exit retry timeout
    record_error abort append entered
perform-IsTracked digest sink call (entering stage a) t h =
    recorded-IsTracked digest call _ (entered digest sink call stage a t) h
perform-IsTracked digest sink call (binding a) t h = if-keeps Kept (a.transaction_id == "") h (
    if-keeps Kept (a.working_engine_fingerprint == "" || a.generation_staging_fingerprint == "") h
      (recorded-IsTracked digest call _ _ h))
perform-IsTracked digest sink call materializing_engine t h =
    if-keeps Kept (not (is_named t.status.working_engine_fingerprint)) h
      (if-keeps Kept t.status.working_engine_materialized h (recorded-IsTracked digest call _ _ h))
perform-IsTracked digest sink call materializing_staging t h =
    if-keeps Kept (not (is_named t.status.generation_staging_fingerprint)) h (
      if-keeps Kept t.status.generation_staging_materialized h
        (recorded-IsTracked digest call _ _ h))
perform-IsTracked digest sink call (counting raw normalized adapted) t h =
    recorded-IsTracked digest call _ _ h
perform-IsTracked digest sink call (classifying classification reason) t h =
    if-keeps Kept (classification == "") h (recorded-IsTracked digest call _ _ h)
perform-IsTracked digest sink call (committing sequence) t h = recorded-IsTracked digest call _ _ h
perform-IsTracked digest sink call (progressing input output result) t h =
    recorded-IsTracked digest call _ t h
perform-IsTracked digest sink call (exiting output result) t h =
    recorded-IsTracked digest call _ t h
perform-IsTracked digest sink call (retrying attempt reason backoff) t h =
    recorded-IsTracked digest call _ _ h
perform-IsTracked digest sink call (timing_out reason) t h = recorded-IsTracked digest call _ _ h
perform-IsTracked digest sink call (failing kind reason) t h =
    if-keeps Kept (reason == "") h (recorded-IsTracked digest call _ _ h)
perform-IsTracked digest sink call (aborting reason classification) t h =
    recorded-IsTracked digest call _ _ h

run-IsTracked :
    (digest : String → String) (sink : Sink) (ms : List (Call × Method)) (t : Tracker)
    → IsTracked t
    → IsTracked (perform_all digest sink ms t)
unfolding perform_all
run-IsTracked digest sink [] t h = h
run-IsTracked digest sink ((call, m) ∷ ms) t h =
    run-IsTracked digest sink ms (perform digest sink call m t).1
      (perform-IsTracked digest sink call m t h)

new-IsTracked :
    (digest : String → String) (maximum : ℕ) (call : Call) (t : Tracker)
    → new digest maximum call ≡ ok t
    → IsTracked t
unfolding new
new-IsTracked digest maximum call t p = elim (Bool-cases (leb maximum 0)) [
  | inl none_kept ↦ ground (arith, p, none_kept)
  | inr some_kept ↦
      let no_events : t.events ≡ [] = ground (arith, p, some_kept) in
      let no_calls : t.operation_counter ≡ 0 = ground (arith, p, some_kept) in
      let same_maximum : t.maximum_history ≡ maximum = ground (arith, p, some_kept) in
      rw (no_events, no_calls, same_maximum)
        (record {
          first = 1;
          numbered = tt;
          up_to_counter = refl;
          positive = ground (arith, some_kept);
          bounded = omega arith;
          full = inl refl;
        })
]

-- Whatever calls a new tracker gets, and whatever they and the sink raise: its history has the last
-- events, numbered in turn up to the number of all events, and drops none before it is full.
pub perform_all-IsTracked :
    (digest : String → String) (sink : Sink) (maximum : ℕ) (call : Call) (t : Tracker)
    (ms : List (Call × Method))
    → new digest maximum call ≡ ok t
    → IsTracked (perform_all digest sink ms t)
perform_all-IsTracked digest sink maximum call t ms p =
    run-IsTracked digest sink ms t (new-IsTracked digest maximum call t p)
