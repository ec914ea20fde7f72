-- ===== src/Live/Samples/Gates.antt =====
-- proberca/live/gate.py: a gate over one scenario, recorded twice.
use probe_rca.Prelude.{◌≡◌, refl, String, true, false, none, some, List, [], ◌∷◌, ok, string_eq}
use probe_rca.Prelude.Keys.{set_of, keys_where, difference, keys, put, insert}
use probe_rca.Prelude.Texts.{starts_with}
use probe_rca.Live.Gate.{
  Evidence, FinalDigestGate, new, validate, mismatched, failed, missing, record_evidence,
}
use probe_rca.Live.Gate.Complete.{record_all, latest, validate_complete}

abbrev source : String
source = "0123456789abcdef0123456789abcdef0123456789abcdef0123456789abcdef"

abbrev image : String
image = "sha256:1"

abbrev required : List String
required = "smoke" ∷ []

abbrev created : FinalDigestGate
created = record {
  source_fingerprint = source;
  image_digest = image;
  required_scenarios = required;
  evidence = [];
}

abbrev red : Evidence
red = record { source_fingerprint = source; image_digest = image; passed = false }

abbrev green : Evidence
green = record { source_fingerprint = source; image_digest = image; passed = true }

abbrev records : List (String × Evidence)
records = ("smoke", red) ∷ ("other", red) ∷ ("smoke", green) ∷ []

created_lem : new source image required ≡ ok created
unfolding new set_of insert starts_with
created_lem = refl

valid_lem : validate (record_all records created) ≡ ok 1
unfolding validate record_all record_evidence mismatched failed missing keys_where difference set_of
    keys put insert
valid_lem = refl

validate_complete_example :
    (e : Evidence) × (latest "smoke" none records ≡ some e)
    × (e.source_fingerprint ≡ source)
    × (e.image_digest ≡ image)
    × (e.passed ≡ true)
validate_complete_example =
    validate_complete source image required records created 1 "smoke" created_lem valid_lem refl
