-- ===== src/Common/Sort.antt =====
-- Python's stable `sorted`, as an insertion sort by a test that says which value comes after which.
use mathlib.Core.Path.{◌≡◌, refl}
use mathlib.Core.Logic.{inl, inr}
use mathlib.Core.Bool.{Bool, true, false}
use mathlib.Core.List.{List, [], ◌∷◌, Memᴰ}
use mathlib.Core.Option.{Option, none, some}
use native.Mathlib.Omega.{arith}
use qiskit_ibm_provider.Common.Tests.{if◌then◌else◌, Bool-cases}
use qiskit_ibm_provider.Common.Lists.{All, last_of}

module _ {A : Type 0} (is_after : A → A → Bool) where
  -- Put a value before the first one of a sorted list that it does not come after: values of one
  -- key keep their order, since the sort goes through the values from the last to the first.
  unfoldable pub insert_sorted : A → List A → List A
  insert_sorted x [] = x ∷ []
  insert_sorted x (y ∷ ys) =
      let rest = insert_sorted x ys in if is_after x y then y ∷ rest else x ∷ y ∷ ys

  unfoldable pub sorted : List A → List A
  sorted [] = []
  sorted (x ∷ xs) = insert_sorted x (sorted xs)

abbrev pub last? : {A : Type 0} → List A → Option A
last? [] = none
last? (x ∷ xs) = some (last_of x xs)

All-Memᴰ_weaken :
    {A : Type 0} (x : A) (xs ys : List A) → All (λ y. Memᴰ y xs) ys → All (λ y. Memᴰ y (x ∷ xs)) ys
All-Memᴰ_weaken x xs [] h = tt
All-Memᴰ_weaken x xs (y ∷ ys) h = (Memᴰ.tail h.0, All-Memᴰ_weaken x xs ys h.1)

pub All-Memᴰ : {A : Type 0} (xs : List A) → All (λ y. Memᴰ y xs) xs
All-Memᴰ [] = tt
All-Memᴰ (x ∷ xs) = (Memᴰ.head refl, All-Memᴰ_weaken x xs xs (All-Memᴰ xs))

module _ {A : Type 0} (is_after : A → A → Bool) (P : A → Type 0) where
  All-insert_sorted : (x : A) (ys : List A) → P x → All P ys → All P (insert_sorted is_after x ys)
  unfolding insert_sorted
  All-insert_sorted x [] px ps = (px, tt)
  All-insert_sorted x (y ∷ ys) px ps = elim (Bool-cases (is_after x y)) [
    | inl e ↦ rw (e, insert_sorted) (ps.0, All-insert_sorted x ys px ps.1)
    | inr e ↦ rw (e, insert_sorted) (px, ps)
  ]

  All-of_insert_sorted :
      (x : A) (ys : List A) → All P (insert_sorted is_after x ys) → P x × All P ys
  unfolding insert_sorted
  All-of_insert_sorted x [] h = h
  All-of_insert_sorted x (y ∷ ys) h = ground (arith, All-of_insert_sorted x ys)

  pub All-sorted : (xs : List A) → All P xs → All P (sorted is_after xs)
  unfolding sorted
  All-sorted [] h = tt
  All-sorted (x ∷ xs) h = All-insert_sorted x (sorted is_after xs) h.0 (All-sorted xs h.1)

  pub All-of_sorted : (xs : List A) → All P (sorted is_after xs) → All P xs
  unfolding sorted
  All-of_sorted [] h = tt
  All-of_sorted (x ∷ xs) h =
      let (first, others) = All-of_insert_sorted x (sorted is_after xs) h in
      (first, All-of_sorted xs others)

pub All-last_of :
    {A : Type 0} (P : A → Type 0) (x : A) (xs : List A) → All P (x ∷ xs) → P (last_of x xs)
All-last_of P x [] h = h.0
All-last_of P x (y ∷ ys) h = All-last_of P y ys h.1

module _ {A : Type 0} (is_after : A → A → Bool) where
  -- `x` does not come after `y`.
  abbrev pub NotAfter : A → A → Type 0
  NotAfter x y = is_after x y ≡ false

  -- No value comes after one that follows it.
  abbrev pub IsSorted : List A → Type 0
  IsSorted [] = Unit
  IsSorted (x ∷ xs) = All (NotAfter x) xs × IsSorted xs

-- The laws of an order by a test.
pub record IsOrder {A : Type 0} (is_after : A → A → Bool) : Type 0 where
  pub irreflexive : (x : A) → NotAfter is_after x x
  pub total : (x y : A) → is_after x y ≡ true → NotAfter is_after y x
  pub transitive :
      (x y z : A) → NotAfter is_after x y → NotAfter is_after y z → NotAfter is_after x z

module _ {A : Type 0} (is_after : A → A → Bool) (order : IsOrder is_after) where
  All-NotAfter_weaken :
      (x y : A) (zs : List A)
      → NotAfter is_after x y
      → All (NotAfter is_after y) zs
      → All (NotAfter is_after x) zs
  All-NotAfter_weaken x y [] h hs = tt
  All-NotAfter_weaken x y (z ∷ zs) h hs =
      (order.transitive x y z h hs.0, All-NotAfter_weaken x y zs h hs.1)

  insert_sorted-IsSorted :
      (x : A) (ys : List A) → IsSorted is_after ys → IsSorted is_after (insert_sorted is_after x ys)
  unfolding insert_sorted
  insert_sorted-IsSorted x [] h = (tt, tt)
  insert_sorted-IsSorted x (y ∷ ys) h = elim (Bool-cases (is_after x y)) [
    | inl e ↦
        rw (e, insert_sorted)
          (
            All-insert_sorted is_after (NotAfter is_after y) x ys (order.total x y e) h.0,
            insert_sorted-IsSorted x ys h.1,
          )
    | inr e ↦ rw (e, insert_sorted) ((e, All-NotAfter_weaken x y ys e h.0), h)
  ]

  pub sorted-IsSorted : (xs : List A) → IsSorted is_after (sorted is_after xs)
  unfolding sorted
  sorted-IsSorted [] = tt
  sorted-IsSorted (x ∷ xs) = insert_sorted-IsSorted x (sorted is_after xs) (sorted-IsSorted xs)

  last_of-IsLatest :
      (x : A) (xs : List A)
      → IsSorted is_after (x ∷ xs)
      → All (λ y. NotAfter is_after y (last_of x xs)) (x ∷ xs)
  last_of-IsLatest x [] h = (order.irreflexive x, tt)
  last_of-IsLatest x (y ∷ ys) h =
      (All-last_of (NotAfter is_after x) y ys h.0, last_of-IsLatest y ys h.1)

  insert_sorted-cons :
      (x : A) (ys : List A) → (z : A) × (zs : List A) × (insert_sorted is_after x ys ≡ z ∷ zs)
  unfolding insert_sorted
  insert_sorted-cons x [] = (x, [], refl)
  insert_sorted-cons x (y ∷ ys) = elim (Bool-cases (is_after x y)) [
    | inl e ↦ (y, insert_sorted is_after x ys, rw e)
    | inr e ↦ (x, y ∷ ys, rw e)
  ]

  sorted-cons :
      (x : A) (xs : List A) → (z : A) × (zs : List A) × (sorted is_after (x ∷ xs) ≡ z ∷ zs)
  unfolding sorted
  sorted-cons x xs = insert_sorted-cons x (sorted is_after xs)

  -- `sorted(xs)[-1]` is one of the values, and none comes after it.
  pub last-sorted :
      (x : A) (xs : List A)
      → (r : A) × (last? (sorted is_after (x ∷ xs)) ≡ some r)
        × Memᴰ r (x ∷ xs)
        × All (λ y. NotAfter is_after y r) (x ∷ xs)
  last-sorted x xs =
      let (z, zs, e) = sorted-cons x xs in
      (
        last_of z zs,
        rw e,
        All-last_of (λ y. Memᴰ y (x ∷ xs)) z zs
            (rw e at (All-sorted is_after (λ y. Memᴰ y (x ∷ xs)) (x ∷ xs) (All-Memᴰ (x ∷ xs)))),
        All-of_sorted is_after (λ y. NotAfter is_after y (last_of z zs)) (x ∷ xs)
            (rw e (last_of-IsLatest z zs (rw e at (sorted-IsSorted (x ∷ xs))))),
      )
