-- ===== src/Live/Progress/Marks.antt =====
-- proberca/live/progress.py: the working engine of an attempt is materialized once.
use probe_rca.Prelude.{◌≡◌, String, Bool, true, false, Option, none, some, string_eq}
use probe_rca.Live.Progress.{same_text, Tracker, Outcome}
use probe_rca.Live.Progress.Methods.{Method, entering, binding}

abbrev names_same : Option (Option String) → (engine : String) → Bool
names_same none engine = true
names_same (some fingerprint) engine = same_text fingerprint (some engine)

-- The calls that neither bind an attempt nor enter a stage with another working engine.
abbrev pub stays_in_attempt : (engine : String) → Method → Bool
stays_in_attempt engine (entering stage a) = names_same a.working_engine_fingerprint engine
stays_in_attempt engine (binding a) = false
stays_in_attempt engine _ = true

abbrev IsMarked : String → Tracker → Type 0
IsMarked engine t =
    (t.status.working_engine_fingerprint ≡ some engine)
    × (t.status.working_engine_materialized ≡ true)

abbrev Stays : String → Outcome → Type 0
Stays engine o = IsMarked engine o.1
