-- ===== src/Common/Relations.antt =====
-- Predicates and relations on the elements of lists that are joined or filtered.
use mathlib.Core.Path.{◌≡◌}
use mathlib.Core.Logic.{inl, inr}
use mathlib.Core.Bool.{Bool, true}
use mathlib.Core.List.{List, [], ◌∷◌, ◌++◌}
use qiskit_ibm_provider.Common.Tests.{Bool-cases}
use qiskit_ibm_provider.Common.Lists.{filter, All, Pairs, All-weaken}

module _ {A : Type 0} where
  pub All-append : (P : A → Type 0) (xs ys : List A) → All P xs → All P ys → All P (xs ++ ys)
  All-append P [] ys ps qs = qs
  All-append P (x ∷ xs) ys (p, ps) qs = (p, All-append P xs ys ps qs)

  pub All-prefix : (P : A → Type 0) (xs ys : List A) → All P (xs ++ ys) → All P xs
  All-prefix P [] ys ps = tt
  All-prefix P (x ∷ xs) ys (p, ps) = (p, All-prefix P xs ys ps)

  pub Pairs-append :
      (R : A → A → Type 0) (xs ys : List A)
      → Pairs R xs
      → Pairs R ys
      → All (λ x. All (R x) ys) xs
      → Pairs R (xs ++ ys)
  Pairs-append R [] ys rs ss cross = ss
  Pairs-append R (x ∷ xs) ys (r, rs) ss (c, cs) =
      (All-append (R x) xs ys r c, Pairs-append R xs ys rs ss cs)

  pub All-filter : (P : A → Type 0) (p : A → Bool) (xs : List A) → All P xs → All P (filter p xs)
  All-filter P p [] ps = tt
  All-filter P p (x ∷ xs) (h, hs) = elim (Bool-cases (p x)) [
    | inl k ↦ rw k (h, All-filter P p xs hs)
    | inr k ↦ rw k (All-filter P p xs hs)
  ]

  -- What is true of a list's kept elements, with the test that they pass.
  pub All-filtered : (p : A → Bool) (xs : List A) → All (λ x. p x ≡ true) (filter p xs)
  All-filtered p [] = tt
  All-filtered p (x ∷ xs) = elim (Bool-cases (p x)) [
    | inl k ↦ rw k (k, All-filtered p xs)
    | inr k ↦ rw k (All-filtered p xs)
  ]

  pub Pairs-filter :
      (R : A → A → Type 0) (p : A → Bool) (xs : List A) → Pairs R xs → Pairs R (filter p xs)
  Pairs-filter R p [] rs = tt
  Pairs-filter R p (x ∷ xs) (r, rs) = elim (Bool-cases (p x)) [
    | inl k ↦ rw k (All-filter (R x) p xs r, Pairs-filter R p xs rs)
    | inr k ↦ rw k (Pairs-filter R p xs rs)
  ]

  pub All-swap :
      (R : A → A → Type 0) (xs ys : List A)
      → All (λ x. All (R x) ys) xs
      → All (λ y. All (λ x. R x y) xs) ys
  All-swap R xs [] h = tt
  All-swap R xs (y ∷ ys) h =
      (All-weaken _ _ (λ x k. k.0) xs h, All-swap R xs ys (All-weaken _ _ (λ x k. k.1) xs h))
