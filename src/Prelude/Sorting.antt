-- ===== src/Prelude/Sorting.antt =====
-- Python's sorted, and its order of tuples of texts.
use Prim.Native.Nat.{Ordering}
use Prim.Native.String.{String, compare}
use mathlib.Core.Bool.{Bool, true, false, ◌&&◌}
use mathlib.Core.Path.{◌≡◌, refl}
use mathlib.Core.List.{List, [], ◌∷◌, ◌++◌}
use native.Mathlib.Omega.{arith}
use probe_rca.Prelude.Tests.{if◌then◌else◌}
use probe_rca.Prelude.Lists.{all, length}

-- The order of tuples of texts.
unfoldable pub lex_le : List String → List String → Bool
lex_le [] ys = true
lex_le (x ∷ xs) [] = false
lex_le (x ∷ xs) (y ∷ ys) =
    let rest = lex_le xs ys in
    elim (compare x y) [ Ordering.lt ↦ true | Ordering.eq ↦ rest | Ordering.gt ↦ false ]

module _ {ℓ} {A : Type ℓ} (le : A → A → Bool) where
  -- An element goes in front of the first one that is not before it.
  unfoldable pub insert_sorted : A → List A → List A
  insert_sorted a [] = a ∷ []
  insert_sorted a (x ∷ xs) =
      let rest = insert_sorted a xs in if le a x then a ∷ x ∷ xs else x ∷ rest

  -- sorted(xs, key=...), for the order of the keys: stable, as Python's is.
  unfoldable pub sort_by : List A → List A
  sort_by [] = []
  sort_by (x ∷ xs) = insert_sorted x (sort_by xs)

abbrev pub text_le : String → String → Bool
text_le a b = lex_le (a ∷ []) (b ∷ [])

module _ {ℓ} {A : Type ℓ} (le : A → A → Bool) where
  length-insert_sorted : (x : A) (xs : List A) → length (insert_sorted le x xs) ≡ length (x ∷ xs)
  unfolding insert_sorted
  length-insert_sorted x [] = refl
  length-insert_sorted x (y ∷ ys) = ground (arith, length-insert_sorted x ys)

  pub length-sort_by : (xs : List A) → length (sort_by le xs) ≡ length xs
  unfolding sort_by
  length-sort_by [] = refl
  length-sort_by (x ∷ xs) =
      ground (arith, length-insert_sorted x (sort_by le xs), length-sort_by xs)

module _ {ℓ} {A : Type ℓ} (le : A → A → Bool) (p : A → Bool) where
  pub all-insert_sorted : (x : A) (xs : List A) → all p (insert_sorted le x xs) ≡ (p x && all p xs)
  unfolding insert_sorted
  all-insert_sorted x [] = refl
  all-insert_sorted x (y ∷ ys) = ground (arith, all-insert_sorted x ys)

  pub all-sort_by : (xs : List A) → all p (sort_by le xs) ≡ all p xs
  unfolding sort_by
  all-sort_by [] = refl
  all-sort_by (x ∷ xs) = ground (arith, all-insert_sorted x (sort_by le xs), all-sort_by xs)

module _ {ℓ} {A : Type ℓ} (p : A → Bool) where
  pub all-append : (xs ys : List A) → all p (xs ++ ys) ≡ (all p xs && all p ys)
  all-append [] ys = refl
  all-append (x ∷ xs) ys = ground (arith, all-append xs ys)
