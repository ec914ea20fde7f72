-- ===== src/Alerting/Counters.antt =====
-- proberca/alerting/state_machine.py: `_advance`, and the streaks that it counts.
use probe_rca.Prelude.{
  ℕ, zero, suc, ◌+◌, ◌≤◌, ◌≡◌, ◌↔◌, refl, String, Bool, true, Option, none, some, List, [], ◌∷◌,
  ltb, arith, if◌then◌else◌, string_eq, Bool-cases, inl, inr,
}
use probe_rca.Prelude.Keys.{Dict, get, keys, union, tabulate, get-tabulate, mem-union, get-no_key}

abbrev pub or_zero : Option ℕ → ℕ
or_zero none = 0
or_zero (some n) = n

-- counters.get(key, 0)
unfoldable pub count : String → Dict ℕ → ℕ
count k counters = or_zero (get k counters)

-- values.get(key, 0.0) > threshold
unfoldable pub exceeds : Dict ℕ → ℕ → String → Bool
exceeds values threshold k = ltb threshold (or_zero (get k values))

unfoldable pub advance : Dict ℕ → (values : Dict ℕ) → (threshold : ℕ) → Dict ℕ
advance counters values threshold =
    tabulate (λ k. if exceeds values threshold k then count k counters + 1 else 0)
      (union (keys counters) (keys values))

-- A counter goes up by one if its key exceeds the threshold and is reset if not, for every key,
-- known or not.
pub count-advance :
    (k : String) (counters values : Dict ℕ) (threshold : ℕ)
    → count k (advance counters values threshold)
      ≡ (if exceeds values threshold k then count k counters + 1 else 0)
unfolding count advance
count-advance k counters values threshold = rw get-tabulate (
    unfold exceeds in
    ground (
      arith,
      mem-union k (keys counters) (keys values),
      get-no_key k counters,
      get-no_key k values,
    ))

-- The counters after the windows of a list, the latest first.
abbrev pub counters_after : (threshold : ℕ) → List (Dict ℕ) → Dict ℕ
counters_after threshold [] = []
counters_after threshold (values ∷ earlier) =
    advance (counters_after threshold earlier) values threshold

-- The key exceeded the threshold in each of the last `n` windows, and there were that many.
abbrev pub Streak : (threshold : ℕ) (k : String) → ℕ → List (Dict ℕ) → Type 0
Streak threshold k zero windows = Unit
Streak threshold k (suc n) [] = ⊥
Streak threshold k (suc n) (values ∷ earlier) =
    (exceeds values threshold k ≡ true) × Streak threshold k n earlier

none_counted : (k : String) (n : ℕ) → suc n ≤ count k [] → ⊥
unfolding count get
none_counted k n h = omega arith

-- A counter reaches `n` exactly if its key exceeded the threshold in each of the last `n` windows.
pub count-Streak :
    (threshold : ℕ) (k : String) (n : ℕ) (windows : List (Dict ℕ))
    → (n ≤ count k (counters_after threshold windows)) ↔ Streak threshold k n windows
count-Streak threshold k zero windows = (λ _. tt, λ _. omega arith)
count-Streak threshold k (suc n) [] = (λ h. none_counted k n h, λ h. absurd h)
count-Streak threshold k (suc n) (values ∷ earlier) =
    let (reached, back) = count-Streak threshold k n earlier in
    rw count-advance (elim (Bool-cases (exceeds values threshold k)) [
      | inl over ↦ rw over ((λ h. (refl, reached (omega arith))), (λ h. omega (arith, back h.1)))
      | inr under ↦ rw under ((λ h. absurd (omega arith)), (λ h. cc))
    ])
