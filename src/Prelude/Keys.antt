-- ===== src/Prelude/Keys.antt =====
-- Python's sets and dicts of text keys. A set is its sorted list, so that `sorted(s)` is the list
-- itself and two equal sets are one list. A dict is an association list whose first pair counts.
use Prim.Native.Nat.{Ordering}
use Prim.Native.String.{String, compare}
use mathlib.Core.Path.{◌≡◌, refl}
use mathlib.Core.Bool.{Bool, false, ◌&&◌, ◌||◌, not}
use mathlib.Core.Option.{Option, none, some}
use mathlib.Core.List.{List, [], ◌∷◌}
use native.Mathlib.Omega.{arith}
use text.Mathlib.TextEquality.{eq_iff, path_by_compare}
use probe_rca.Prelude.Tests.{if◌then◌else◌, ◌==◌, string_eq}
use probe_rca.Prelude.Lists.{mem, keep}

unfoldable pub insert : String → List String → List String
insert a [] = a ∷ []
insert a (x ∷ xs) =
    let rest = x ∷ insert a xs in
    elim (compare a x) [ Ordering.lt ↦ a ∷ x ∷ xs | Ordering.eq ↦ x ∷ xs | Ordering.gt ↦ rest ]

-- set(xs)
unfoldable pub set_of : List String → List String
set_of [] = []
set_of (x ∷ xs) = insert x (set_of xs)

-- s | t
unfoldable pub union : List String → List String → List String
union [] t = t
union (x ∷ s) t = insert x (union s t)

-- s - t
unfoldable pub difference : List String → List String → List String
difference s t = keep (λ x. not (mem x t)) s

pub mem-insert : (k a : String) (xs : List String) → mem k (insert a xs) ≡ (k == a || mem k xs)
unfolding insert
mem-insert k a [] = refl
mem-insert k a (x ∷ xs) = go (compare a x) refl (mem-insert k a xs)
  where
    go :
        (o : Ordering)
        → compare a x ≡ o
        → mem k (insert a xs) ≡ (k == a || mem k xs)
        → mem k (elim o [
          | Ordering.lt ↦ a ∷ x ∷ xs
          | Ordering.eq ↦ x ∷ xs
          | Ordering.gt ↦ x ∷ insert a xs
        ])
          ≡ (k == a || mem k (x ∷ xs))
    go Ordering.lt e ih = refl
    go Ordering.eq e ih = rw (path_by_compare a x e) (ground arith)
    go Ordering.gt e ih = ground arith

pub mem-set_of : (k : String) (xs : List String) → mem k (set_of xs) ≡ mem k xs
unfolding set_of
mem-set_of k [] = refl
mem-set_of k (x ∷ xs) = rw (mem-insert, mem-set_of k xs) refl

pub mem-union : (k : String) (s t : List String) → mem k (union s t) ≡ (mem k s || mem k t)
unfolding union
mem-union k [] t = refl
mem-union k (x ∷ s) t = rw (mem-insert, mem-union k s t) (ground arith)

pub mem-difference :
    (k : String) (s t : List String) → mem k (difference s t) ≡ (mem k s && not (mem k t))
unfolding difference
mem-difference k [] t = refl
mem-difference k (x ∷ s) t = ground (arith, mem-difference k s t, eq_iff k x)

abbrev pub Dict {ℓ} : Type ℓ → Type ℓ
Dict V = List (String × V)

module _ {ℓ} {V : Type ℓ} where
  -- d.get(k)
  unfoldable pub get : String → Dict V → Option V
  get k [] = none
  get k ((j, v) ∷ d) = let rest = get k d in if k == j then some v else rest

  -- set(d)
  unfoldable pub keys : Dict V → List String
  keys [] = []
  keys ((j, v) ∷ d) = insert j (keys d)

  -- {k: f(k) for k in ks}
  unfoldable pub tabulate : (String → V) → List String → Dict V
  tabulate f [] = []
  tabulate f (k ∷ ks) = (k, f k) ∷ tabulate f ks

  pub get-tabulate :
      (k : String) (f : String → V) (ks : List String)
      → get k (tabulate f ks) ≡ (if mem k ks then some (f k) else none)
  unfolding get tabulate
  get-tabulate k f [] = refl
  get-tabulate k f (j ∷ ks) = ground (arith, get-tabulate k f ks, eq_iff k j)

  pub get-no_key : (k : String) (d : Dict V) → mem k (keys d) ≡ false → get k d ≡ none
  unfolding get keys
  get-no_key k [] h = refl
  get-no_key k ((j, v) ∷ d) h = ground (arith, get-no_key k d, mem-insert k j (keys d))

  -- {k for k, v in d.items() if p(v)}
  unfoldable pub keys_where : (V → Bool) → Dict V → List String
  keys_where p [] = []
  keys_where p ((j, v) ∷ d) = let rest = keys_where p d in if p v then insert j rest else rest

  -- d[k] = v
  unfoldable pub put : String → V → Dict V → Dict V
  put k v [] = (k, v) ∷ []
  put k v ((j, w) ∷ d) = let rest = (j, w) ∷ put k v d in if k == j then (k, v) ∷ d else rest

  pub get-put :
      (k j : String) (v : V) (d : Dict V) → get j (put k v d) ≡ (if k == j then some v else get j d)
  unfolding get put
  get-put k j v [] = ground (arith, eq_iff k j, eq_iff j k)
  get-put k j v ((i, w) ∷ d) =
      ground (arith, get-put k j v d, eq_iff k j, eq_iff j k, eq_iff k i, eq_iff j i)
