-- ===== src/Live/Gate/Complete.antt =====
-- proberca/live/gate.py: what a gate that validates has seen.
use mathlib.Core.Path.{subst}
use probe_rca.Prelude.{
  ℕ, ◌≡◌, inl, inr, refl, ap, sym, ◌∙◌, String, Bool, true, false, not, Option, none, some, List,
  [], ◌∷◌, mem, arith, eq_iff, ◌==◌, string_eq, if◌then◌else◌, ok, err, bind-eq-ok, Bool-cases,
}
use probe_rca.Prelude.Keys.{
  Dict, get, put, keys, keys_where, set_of, insert, mem-insert, mem-difference, mem-set_of, get-put,
}
use probe_rca.Live.Gate.{
  GateError, Evidence, FinalDigestGate, new, record_evidence, is_foreign, mismatched, failed,
  missing, none_of, validate, identity_mismatch, scenarios_failed, scenarios_missing,
}

insert_nonempty : (a : String) (xs : List String) → insert a xs ≡ [] → ⊥
insert_nonempty a xs h = go (ap (mem a) h)
  where
    go : mem a (insert a xs) ≡ false → ⊥
    go e = absurd (ground (arith, mem-insert a a xs, eq_iff a a))

-- If no value of a dict has a property, the one that a key finds has it not.
keys_where_none :
    (p : Evidence → Bool) (k : String) (d : Dict Evidence) (e : Evidence)
    → keys_where p d ≡ []
    → get k d ≡ some e
    → p e ≡ false
unfolding keys_where get
keys_where_none p k [] e h found = cc
keys_where_none p k ((j, v) ∷ d) e h found =
    ground (arith, keys_where_none p k d e, insert_nonempty j (keys_where p d))

get-mem-keys :
    (k : String) (d : Dict Evidence) → mem k (keys d) ≡ true → (e : Evidence) × (get k d ≡ some e)
unfolding get keys
get-mem-keys k [] h = absurd (ground arith)
get-mem-keys k ((j, v) ∷ d) h = elim (Bool-cases (k == j)) [
  | inl here ↦ (v, ground arith)
  | inr later ↦
      let (e, found) = get-mem-keys k d (ground (arith, mem-insert k j (keys d))) in
      (e, ground arith)
]

none_of-eq-ok :
    (xs : List String) (e : List String → GateError) {u : Unit {0}} → none_of xs e ≡ ok u → xs ≡ []
none_of-eq-ok [] e h = refl
none_of-eq-ok (x ∷ xs) e h = absurd (ground arith)

-- Every required scenario has evidence of this source and this image that passed.
abbrev pub Shows : FinalDigestGate → String → Type 0
Shows g k =
    (e : Evidence) × (get k g.evidence ≡ some e)
    × (e.source_fingerprint ≡ g.source_fingerprint)
    × (e.image_digest ≡ g.image_digest)
    × (e.passed ≡ true)

validate-Shows :
    (g : FinalDigestGate) (n : ℕ) (k : String)
    → validate g ≡ ok n
    → mem k g.required_scenarios ≡ true
    → Shows g k
unfolding validate mismatched failed missing
validate-Shows g n k h required =
    let (_, ours, h1) = bind-eq-ok (none_of (mismatched g) identity_mismatch) _ h in
    let (_, well, h2) = bind-eq-ok (none_of (failed g) scenarios_failed) _ h1 in
    let (_, whole, h3) = bind-eq-ok (none_of (missing g) scenarios_missing) _ h2 in
    let complete = ap (mem k) (none_of-eq-ok (missing g) scenarios_missing whole) in
    let (e, found) = get-mem-keys k g.evidence (
      ground (
        arith,
        mem-difference k (set_of g.required_scenarios) (keys g.evidence),
        mem-set_of k g.required_scenarios,
      )) in
    let own =
      keys_where_none (is_foreign g) k g.evidence e
        (none_of-eq-ok (mismatched g) identity_mismatch ours) found in
    let good =
      keys_where_none (λ v. not v.passed) k g.evidence e
        (none_of-eq-ok (failed g) scenarios_failed well) found in
    (
      e,
      found,
      ground (arith, eq_iff e.source_fingerprint g.source_fingerprint),
      ground (arith, eq_iff e.image_digest g.image_digest),
      ground arith,
    )

-- The records of a run, in order; one that raises leaves the gate.
unfoldable pub record_all : List (String × Evidence) → FinalDigestGate → FinalDigestGate
record_all [] g = g
record_all ((k, e) ∷ rest) g = elim (record_evidence k e g) [
  | ok g' ↦ record_all rest g'
  | err _ ↦ record_all rest g
]

-- The evidence of a scenario that was recorded last, or what was there before.
abbrev pub latest : String → Option Evidence → List (String × Evidence) → Option Evidence
latest k before [] = before
latest k before ((j, e) ∷ rest) = latest k (if j == k then some e else before) rest

record_all-get :
    (rs : List (String × Evidence)) (g : FinalDigestGate) (k : String)
    → mem k g.required_scenarios ≡ true
    → (get k (record_all rs g).evidence ≡ latest k (get k g.evidence) rs)
      × ((record_all rs g).source_fingerprint ≡ g.source_fingerprint)
      × ((record_all rs g).image_digest ≡ g.image_digest)
      × ((record_all rs g).required_scenarios ≡ g.required_scenarios)
unfolding record_all record_evidence
record_all-get [] g k h = (refl, refl, refl, refl)
record_all-get ((j, e) ∷ rest) g k h =
    let kept = record_all-get rest g k h in
    let added = record_all-get rest (record g { evidence = put j e g.evidence }) k h in
    ground (arith, get-put j k e g.evidence, eq_iff j k)

-- A new gate that validates after any records, some of them refused: for every required scenario
-- the record that came last is of the gate's source and image and passed.
pub validate_complete :
    (source image : String) (required : List String) (rs : List (String × Evidence))
    (g : FinalDigestGate) (n : ℕ) (k : String)
    → new source image required ≡ ok g
    → validate (record_all rs g) ≡ ok n
    → mem k required ≡ true
    → (e : Evidence) × (latest k none rs ≡ some e)
      × (e.source_fingerprint ≡ source)
      × (e.image_digest ≡ image)
      × (e.passed ≡ true)
unfolding new get
validate_complete source image required rs g n k created valid wanted =
    let created_gate : FinalDigestGate = record {
      source_fingerprint = source;
      image_digest = image;
      required_scenarios = required;
      evidence = [];
    } in
    let same : g ≡ created_gate = ground arith in
    let (last, ours, theirs, still) = record_all-get rs created_gate k wanted in
    let valid' = subst (λ g'. validate (record_all rs g') ≡ ok n) same valid in
    let (e, found, from, built, good) =
      validate-Shows (record_all rs created_gate) n k valid' (ap (mem k) still ∙ wanted) in
    (e, sym last ∙ found, from ∙ ours, built ∙ theirs, good)
