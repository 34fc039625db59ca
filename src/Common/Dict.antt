-- ===== src/Common/Dict.antt =====
-- Python dictionaries with text keys, as association lists in insertion order.
use Prim.Native.String.{String}
use mathlib.Core.Path.{◌≡◌, refl}
use mathlib.Core.Bool.{Bool, true, false}
use mathlib.Core.Option.{Option, none, some}
use mathlib.Core.List.{List, [], ◌∷◌}
use native.Mathlib.Omega.{arith}
use text.Mathlib.Text.{◌==◌}
use text.Mathlib.TextEquality.{eq_iff}
use qiskit_ibm_provider.Common.Tests.{if◌then◌else◌, is_some}

abbrev pub Dict {ℓ} : Type ℓ → Type ℓ
Dict V = List (String × V)

module _ {ℓ} {V : Type ℓ} where
  -- d.get(k)
  unfoldable pub lookup : String → Dict V → Option V
  lookup k [] = none
  lookup k ((j, v) ∷ d) = if j == k then some v else lookup k d

  -- k in d
  unfoldable pub contains : String → Dict V → Bool
  contains k [] = false
  contains k ((j, v) ∷ d) = if j == k then true else contains k d

  -- d[k] = v
  unfoldable pub insert : String → V → Dict V → Dict V
  insert k v [] = (k, v) ∷ []
  insert k v ((j, w) ∷ d) = if j == k then (k, v) ∷ d else (j, w) ∷ insert k v d

  -- d.pop(k, None); keys are unique in a dictionary, so every entry of the key is dropped.
  unfoldable pub remove : String → Dict V → Dict V
  remove k [] = []
  remove k ((j, v) ∷ d) = let rest = remove k d in if j == k then rest else (j, v) ∷ rest

  pub lookup-insert :
      (k j : String) (v : V) (d : Dict V)
      → lookup j (insert k v d) ≡ (if k == j then some v else lookup j d)
  unfolding lookup insert
  lookup-insert k j v [] = refl
  lookup-insert k j v ((i, w) ∷ d) =
      ground (arith, eq_iff k j, eq_iff i k, eq_iff i j, lookup-insert k j v d)

  pub lookup-remove :
      (k j : String) (d : Dict V) → lookup j (remove k d) ≡ (if k == j then none else lookup j d)
  unfolding lookup remove
  lookup-remove k j [] = ground arith
  lookup-remove k j ((i, v) ∷ d) =
      ground (arith, lookup-remove k j d, eq_iff i k, eq_iff i j, eq_iff k j)

  pub contains-eq-is_some : (k : String) (d : Dict V) → contains k d ≡ is_some (lookup k d)
  unfolding lookup contains
  contains-eq-is_some k [] = refl
  contains-eq-is_some k ((j, v) ∷ d) = ground (arith, contains-eq-is_some k d)

-- No two entries of the dictionary have one key.
abbrev pub UniqueKeys {ℓ} : {V : Type ℓ} → Dict V → Type 0
UniqueKeys [] = Unit
UniqueKeys ((k, v) ∷ d) = (contains k d ≡ false) × UniqueKeys d

module _ {ℓ} {V : Type ℓ} where
  pub contains-insert :
      (k j : String) (v : V) (d : Dict V)
      → contains j (insert k v d) ≡ (if k == j then true else contains j d)
  contains-insert k j v d =
      rw contains-eq-is_some (rw lookup-insert (rw contains-eq-is_some (by_test (k == j))))
    where
      by_test :
          (b : Bool)
          → is_some (if b then some v else lookup j d) ≡ (if b then true else is_some (lookup j d))
      by_test true = refl
      by_test false = refl

  pub contains-remove :
      (k j : String) (d : Dict V)
      → contains j (remove k d) ≡ (if k == j then false else contains j d)
  contains-remove k j d =
      rw contains-eq-is_some (rw lookup-remove (rw contains-eq-is_some (by_test (k == j))))
    where
      by_test :
          (b : Bool)
          → is_some (if b then none else lookup j d) ≡ (if b then false else is_some (lookup j d))
      by_test true = refl
      by_test false = refl

  pub insert-UniqueKeys :
      (k : String) (v : V) (d : Dict V) → UniqueKeys d → UniqueKeys (insert k v d)
  unfolding insert contains
  insert-UniqueKeys k v [] u = (refl, tt)
  insert-UniqueKeys k v ((j, w) ∷ d) u =
      ground (arith, eq_iff j k, eq_iff k j, contains-insert k j v d, insert-UniqueKeys k v d u.1)

  pub remove-UniqueKeys : (k : String) (d : Dict V) → UniqueKeys d → UniqueKeys (remove k d)
  unfolding remove contains
  remove-UniqueKeys k [] u = tt
  remove-UniqueKeys k ((j, w) ∷ d) u =
      ground (arith, eq_iff j k, eq_iff k j, contains-remove k j d, remove-UniqueKeys k d u.1)

pub ruleset dict_laws = (lookup-insert, lookup-remove)
