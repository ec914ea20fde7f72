-- ===== src/Live/Gate.antt =====
-- proberca/live/gate.py: the gate over the evidence of the final scenarios. Of a payload the gate
-- reads whether `passed` is True.
pub mod Complete
use probe_rca.Prelude.{
  ℕ, String, Bool, true, false, ◌&&◌, ◌||◌, not, Option, none, some, List, [], ◌∷◌, mem, length,
  ◌==◌, nat_eq, string_eq, if◌then◌else◌, Result, ok, err, guard, ◌>>=◌, ◌>>◌,
}
use probe_rca.Prelude.Keys.{Dict, get, put, keys, keys_where, set_of, difference}
use probe_rca.Prelude.Texts.{text_length, starts_with}

pub data GateError : Type 0 where
  identity_required scenarios_invalid source_changed : GateError
  unexpected_scenario : String → GateError
  identity_mismatch scenarios_failed scenarios_missing : List String → GateError

pub record Evidence : Type 0 where
  pub source_fingerprint : String
  pub image_digest : String
  pub passed : Bool

pub record FinalDigestGate : Type 0 where
  pub source_fingerprint : String
  pub image_digest : String
  pub required_scenarios : List String
  pub evidence : Dict Evidence

-- __init__
unfoldable pub new : (source image : String) → List String → Result GateError FinalDigestGate
new source image required = do
  guard (text_length source == 64 && starts_with "sha256:" image) identity_required
  guard (not (length required == 0) && length required == length (set_of required))
      scenarios_invalid
  ok (record {
    source_fingerprint = source;
    image_digest = image;
    required_scenarios = required;
    evidence = [];
  })

-- `record`
unfoldable pub record_evidence :
    (scenario : String) → Evidence → FinalDigestGate → Result GateError FinalDigestGate
record_evidence scenario e g =
    if mem scenario g.required_scenarios
    then ok (record g { evidence = put scenario e g.evidence })
    else err (unexpected_scenario scenario)

unfoldable pub assert_current_source : String → FinalDigestGate → Result GateError (Unit {0})
assert_current_source source g = guard (source == g.source_fingerprint) source_changed

abbrev pub is_foreign : FinalDigestGate → Evidence → Bool
is_foreign g e =
    not (e.source_fingerprint == g.source_fingerprint) || not (e.image_digest == g.image_digest)

unfoldable pub mismatched : FinalDigestGate → List String
mismatched g = keys_where (is_foreign g) g.evidence

unfoldable pub failed : FinalDigestGate → List String
failed g = keys_where (λ e. not e.passed) g.evidence

unfoldable pub missing : FinalDigestGate → List String
missing g = difference (set_of g.required_scenarios) (keys g.evidence)

abbrev pub none_of : List String → (List String → GateError) → Result GateError (Unit {0})
none_of [] e = ok tt
none_of (x ∷ xs) e = err (e (x ∷ xs))

-- What it returns beside the gate's own identity is the number of scenarios.
unfoldable pub validate : FinalDigestGate → Result GateError ℕ
validate g = do
  none_of (mismatched g) identity_mismatch
  none_of (failed g) scenarios_failed
  none_of (missing g) scenarios_missing
  ok (length g.evidence)
