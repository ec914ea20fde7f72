-- ===== src/Live/Sequence/Continuity.antt =====
-- proberca/live/sequence.py: what the continuity check accepts.
use probe_rca.Prelude.{
  ℕ, zero, suc, ◌+◌, ◌≤◌, ◌<◌, ◌≡◌, refl, ap, ◌∙◌, true, Option, String, List, [], ◌∷◌, map, keep,
  length, arith, ◌==◌, nat_eq, Bool-cases, inl, inr, ltb,
}
use probe_rca.Live.Sequence.{
  Entry, sequence_of, holder_of, insert_unique, sorted_set, gaps, count_holders, holders_at,
  max_holders, is_continuous, validate_sequence_continuity,
}

-- n, n + 1, …: k numbers.
abbrev pub range : ℕ → ℕ → List ℕ
range n zero = []
range n (suc k) = n ∷ range (n + 1) k

-- The entries are numbered in order from `n` on.
abbrev pub Counts : ℕ → List Entry → Type 0
Counts n [] = Unit
Counts n (e ∷ es) = (sequence_of e ≡ n) × Counts (n + 1) es

map-range : (n : ℕ) (es : List Entry) → Counts n es → map sequence_of es ≡ range n (length es)
map-range n [] h = refl
map-range n (e ∷ es) h = cc (h.0, map-range (n + 1) es h.1)

sorted_set-range : (n k : ℕ) → sorted_set (range n k) ≡ range n k
unfolding sorted_set insert_unique
sorted_set-range n zero = refl
sorted_set-range n (suc zero) = refl
sorted_set-range n (suc (suc k)) = rw (sorted_set-range (n + 1) (suc k)) (ground arith)

gaps-range : (n k : ℕ) → gaps (range n k) ≡ 0
unfolding gaps
gaps-range n zero = refl
gaps-range n (suc zero) = refl
gaps-range n (suc (suc k)) = omega (arith, gaps-range (n + 1) (suc k))

length-range : (n k : ℕ) → length (range n k) ≡ k
length-range n zero = refl
length-range n (suc k) = ap suc (length-range (n + 1) k)

abbrev at : ℕ → List Entry → List Entry
at s es = keep (λ e. sequence_of e == s) es

none_at : (s n : ℕ) (es : List Entry) → s < n → Counts n es → at s es ≡ []
none_at s n [] h c = refl
none_at s n (e ∷ es) h c = ground (arith, none_at s (n + 1) es)

length-at : (s n : ℕ) (es : List Entry) → Counts n es → length (at s es) ≤ 1
length-at s n [] c = omega arith
length-at s n (e ∷ es) c = elim (Bool-cases (sequence_of e == s)) [
  | inl here ↦ rw here (rw (none_at s (n + 1) es (ground arith) c.1) (omega arith))
  | inr later ↦ rw later (length-at s (n + 1) es c.1)
]

count_holders-le : (hs : List (Option String)) → count_holders hs ≤ length hs
unfolding count_holders
count_holders-le [] = omega arith
count_holders-le (h ∷ hs) = ground (arith, count_holders-le hs)

length-map_holder : (es : List Entry) → length (map holder_of es) ≡ length es
length-map_holder [] = refl
length-map_holder (e ∷ es) = ap suc (length-map_holder es)

length-map_sequence : (es : List Entry) → length (map sequence_of es) ≡ length es
length-map_sequence [] = refl
length-map_sequence (e ∷ es) = ap suc (length-map_sequence es)

max_holders-le : (ss : List ℕ) (n : ℕ) (es : List Entry) → Counts n es → max_holders ss es ≤ 1
unfolding max_holders holders_at
max_holders-le [] n es c = omega arith
max_holders-le (s ∷ ss) n es c = omega (
  arith,
  count_holders-le (map holder_of (at s es)),
  length-map_holder (at s es),
  length-at s n es c,
  max_holders-le ss n es c,
)

-- Entries that are numbered in order pass the check.
pub Counts-is_continuous : (n : ℕ) (es : List Entry) → Counts n es → is_continuous es ≡ true
unfolding is_continuous validate_sequence_continuity
Counts-is_continuous n [] c = refl
Counts-is_continuous n (e ∷ es) c =
    let k = length (e ∷ es) in
    let values = map-range n (e ∷ es) c in
    let unique = ap sorted_set values ∙ sorted_set-range n k in
    let no_gaps = ap gaps unique ∙ gaps-range n k in
    let as_many = ap length unique ∙ length-range n k in
    let all = ap length values ∙ length-range n k in
    ground (
      arith,
      no_gaps,
      as_many,
      all,
      max_holders-le (sorted_set (map sequence_of (e ∷ es))) n (e ∷ es) c,
    )

-- Strictly ascending from `lo` on.
abbrev Ascends : ℕ → List ℕ → Type 0
Ascends lo [] = Unit
Ascends lo (x ∷ xs) = (lo ≤ x) × Ascends (x + 1) xs

insert_unique-Ascends :
    (lo a : ℕ) (xs : List ℕ) → lo ≤ a → Ascends lo xs → Ascends lo (insert_unique a xs)
unfolding insert_unique
insert_unique-Ascends lo a [] h up = (h, tt)
insert_unique-Ascends lo a (x ∷ xs) h up = elim (Bool-cases (ltb a x)) [
  | inl less ↦ rw less (h, (ground arith, up.1))
  | inr more ↦ elim (Bool-cases (a == x)) [
    | inl same ↦ rw (more, same) up
    | inr other ↦ rw (more, other) (up.0, insert_unique-Ascends (x + 1) a xs (ground arith) up.1)
  ]
]

sorted_set-Ascends : (xs : List ℕ) → Ascends 0 (sorted_set xs)
unfolding sorted_set
sorted_set-Ascends [] = tt
sorted_set-Ascends (x ∷ xs) =
    insert_unique-Ascends 0 x (sorted_set xs) (omega arith) (sorted_set-Ascends xs)

length-insert_unique : (a : ℕ) (xs : List ℕ) → length (insert_unique a xs) ≤ suc (length xs)
unfolding insert_unique
length-insert_unique a [] = omega arith
length-insert_unique a (x ∷ xs) = ground (arith, length-insert_unique a xs)

length-sorted_set : (xs : List ℕ) → length (sorted_set xs) ≤ length xs
unfolding sorted_set
length-sorted_set [] = omega arith
length-sorted_set (x ∷ xs) =
    omega (arith, length-sorted_set xs, length-insert_unique x (sorted_set xs))

range_of_gaps :
    (lo x : ℕ) (xs : List ℕ)
    → Ascends lo (x ∷ xs)
    → gaps (x ∷ xs) ≡ 0
    → x ∷ xs ≡ range x (suc (length xs))
unfolding gaps
range_of_gaps lo x [] up no_gaps = refl
range_of_gaps lo x (y ∷ ys) (_, (above, up)) no_gaps =
    let next : y ≡ x + 1 = omega arith in
    let rest = range_of_gaps (x + 1) y ys (above, up) (omega arith) in
    ap (λ (l : List ℕ). x ∷ l) (rest ∙ ap (λ (n : ℕ). range n (suc (length ys))) next)

continuous_range :
    (us : List ℕ) → Ascends 0 us → gaps us ≡ 0 → (lo : ℕ) × (us ≡ range lo (length us))
continuous_range [] up no_gaps = (0, refl)
continuous_range (x ∷ xs) up no_gaps = (x, range_of_gaps 0 x xs up no_gaps)

-- What the check accepts has every number of an interval exactly once: as many entries as the
-- interval has numbers, and as a sorted set their numbers are that interval.
pub is_continuous-range :
    (es : List Entry)
    → is_continuous es ≡ true
    → (lo : ℕ) × (sorted_set (map sequence_of es) ≡ range lo (length es))
unfolding is_continuous validate_sequence_continuity
is_continuous-range [] h = unfold sorted_set in (0, refl)
is_continuous-range (e ∷ es) h =
    let values = map sequence_of (e ∷ es) in
    let (lo, interval) =
      continuous_range (sorted_set values) (sorted_set-Ascends values) (ground arith) in
    let same : length (sorted_set values) ≡ length (e ∷ es) =
      ground (arith, length-sorted_set values, length-map_sequence (e ∷ es)) in
    (lo, interval ∙ ap (range lo) same)
