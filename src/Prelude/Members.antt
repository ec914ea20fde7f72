-- ===== src/Prelude/Members.antt =====
-- What a list contains, as a type: `Among` is recursion on the list, as `All` is.
use mathlib.Core.Path.{◌≡◌, refl, sym}
use mathlib.Core.Logic.{◌⊎◌, inl, inr}
use mathlib.Core.Bool.{Bool, true}
use mathlib.Core.List.{List, [], ◌∷◌, ◌++◌}
use probe_rca.Prelude.Tests.{if-keeps, Bool-cases}
use probe_rca.Prelude.Lists.{All, keep}
use probe_rca.Prelude.Sorting.{sort_by, insert_sorted}

module _ {A : Type 0} where
  abbrev pub Among : A → List A → Type 0
  Among a [] = ⊥
  Among a (x ∷ xs) = (a ≡ x) ⊎ Among a xs

  pub Among-append : (a : A) (xs ys : List A) → Among a xs → Among a (xs ++ ys)
  Among-append a [] ys m = absurd m
  Among-append a (x ∷ xs) ys (inl e) = inl e
  Among-append a (x ∷ xs) ys (inr m) = inr (Among-append a xs ys m)

  pub Among-append_last : (a : A) (xs : List A) → Among a (xs ++ a ∷ [])
  Among-append_last a [] = inl refl
  Among-append_last a (x ∷ xs) = inr (Among-append_last a xs)

module _ {κ} {A : Type 0} (P : A → Type κ) where
  pub All-append : (xs ys : List A) → All P xs → All P ys → All P (xs ++ ys)
  All-append [] ys hx hy = hy
  All-append (x ∷ xs) ys hx hy = (hx.0, All-append xs ys hx.1 hy)

  pub All-path : (xs ys : List A) → xs ≡ ys → All P xs → All P ys
  All-path xs ys e h = rw (sym e) h

  -- What holds of all is true of each.
  pub All-Among : (a : A) (xs : List A) → All P xs → Among a xs → P a
  All-Among a [] h m = absurd m
  All-Among a (x ∷ xs) h (inl e) = rw e h.0
  All-Among a (x ∷ xs) h (inr m) = All-Among a xs h.1 m

module _ {ℓ κ μ} {A : Type ℓ} {P : A → Type κ} {Q : A → Type μ} where
  pub All-weaken : ((a : A) → P a → Q a) → (xs : List A) → All P xs → All Q xs
  All-weaken f [] h = tt
  All-weaken f (x ∷ xs) h = (f x h.0, All-weaken f xs h.1)

module _ {A : Type 0} where
  pub All-Among_self : (xs : List A) → All (λ a. Among a xs) xs
  All-Among_self [] = tt
  All-Among_self (x ∷ xs) = (inl refl, All-weaken (λ a m. inr m) xs (All-Among_self xs))

module _ {A : Type 0} (p : A → Bool) where
  pub Among-keep : (a : A) (xs : List A) → p a ≡ true → Among a xs → Among a (keep p xs)
  Among-keep a [] h m = absurd m
  Among-keep a (x ∷ xs) h (inl e) = rw (sym e, h) (inl refl)
  Among-keep a (x ∷ xs) h (inr m) = elim (Bool-cases (p x)) [
    | inl kept ↦ rw kept (inr (Among-keep a xs h m))
    | inr not_kept ↦ rw not_kept (Among-keep a xs h m)
  ]

module _ {A : Type 0} (le : A → A → Bool) where
  Among-insert_sorted : (a x : A) (xs : List A) → Among a (x ∷ xs) → Among a (insert_sorted le x xs)
  unfolding insert_sorted
  Among-insert_sorted a x [] m = m
  Among-insert_sorted a x (y ∷ ys) (inl e) =
      if-keeps (Among a) (le x y) (inl e) (inr (Among-insert_sorted a x ys (inl e)))
  Among-insert_sorted a x (y ∷ ys) (inr (inl e)) = if-keeps (Among a) (le x y) (inr (inl e)) (inl e)
  Among-insert_sorted a x (y ∷ ys) (inr (inr m)) =
      if-keeps (Among a) (le x y) (inr (inr m)) (inr (Among-insert_sorted a x ys (inr m)))

  pub Among-sort_by : (a : A) (xs : List A) → Among a xs → Among a (sort_by le xs)
  unfolding sort_by
  Among-sort_by a [] m = m
  Among-sort_by a (x ∷ xs) (inl e) = Among-insert_sorted a x (sort_by le xs) (inl e)
  Among-sort_by a (x ∷ xs) (inr m) =
      Among-insert_sorted a x (sort_by le xs) (inr (Among-sort_by a xs m))

module _ {ℓ κ} {A : Type ℓ} (P : A → Type κ) where
  pub All-keep : (p : A → Bool) (xs : List A) → All P xs → All (λ a. P a × (p a ≡ true)) (keep p xs)
  All-keep p [] h = tt
  All-keep p (x ∷ xs) h = elim (Bool-cases (p x)) [
    | inl kept ↦ rw kept ((h.0, kept), All-keep p xs h.1)
    | inr not_kept ↦ rw not_kept (All-keep p xs h.1)
  ]

  All-insert_sorted :
      (le : A → A → Bool) (x : A) (xs : List A) → P x → All P xs → All P (insert_sorted le x xs)
  unfolding insert_sorted
  All-insert_sorted le x [] h hs = (h, tt)
  All-insert_sorted le x (y ∷ ys) h hs =
      if-keeps (All P) (le x y) (h, hs) (hs.0, All-insert_sorted le x ys h hs.1)

  pub All-sort_by : (le : A → A → Bool) (xs : List A) → All P xs → All P (sort_by le xs)
  unfolding sort_by
  All-sort_by le [] h = tt
  All-sort_by le (x ∷ xs) h = All-insert_sorted le x (sort_by le xs) h.0 (All-sort_by le xs h.1)
