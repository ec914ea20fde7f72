-- ===== src/Prelude/Texts.antt =====
-- Python's text methods that the program takes its ids apart with.
use Prim.Native.Nat.{ℕ, ◌+◌}
use Prim.Native.Char.{Char, code}
use Prim.Native.String.{String}
use mathlib.Core.Bool.{Bool, true, false, ◌&&◌}
use mathlib.Core.Option.{Option, none, some}
use mathlib.Core.List.{List, [], ◌∷◌}
use probe_rca.Prelude.Tests.{if◌then◌else◌, ◌==◌, nat_eq}

abbrev push : Char → List String → List String
push c [] = String.◌∷◌ c String.[] ∷ []
push c (part ∷ parts) = String.◌∷◌ c part ∷ parts

-- s.split(sep), for the separator of the two characters `p` and `q`.
unfoldable pub split : (p q : ℕ) → String → List String
split p q String.[] = "" ∷ []
split p q (String.◌∷◌ c String.[]) = String.◌∷◌ c String.[] ∷ []
split p q (String.◌∷◌ c (String.◌∷◌ d s)) =
    let cut = "" ∷ split p q s in
    let longer = push c (split p q (String.◌∷◌ d s)) in
    if code c == p && code d == q then cut else longer

-- s.split(sep, 1), if the separator occurs.
unfoldable pub split_once : (p q : ℕ) → String → Option (String × String)
split_once p q String.[] = none
split_once p q (String.◌∷◌ c String.[]) = none
split_once p q (String.◌∷◌ c (String.◌∷◌ d s)) =
    let later : Option (String × String) = elim (split_once p q (String.◌∷◌ d s)) [
      | none ↦ none
      | some (a, b) ↦ some (String.◌∷◌ c a, b)
    ] in
    if code c == p && code d == q then some ("", s) else later

-- len(s)
abbrev pub text_length : String → ℕ
text_length String.[] = 0
text_length (String.◌∷◌ c s) = text_length s + 1

-- s.startswith(prefix)
unfoldable pub starts_with : (prefix : String) → String → Bool
starts_with String.[] s = true
starts_with (String.◌∷◌ c p) String.[] = false
starts_with (String.◌∷◌ c p) (String.◌∷◌ d s) = code c == code d && starts_with p s
