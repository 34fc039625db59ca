-- ===== src/Common/Results.antt =====
-- Results of code that may raise: the value, or the exception.
use mathlib.Core.Path.{◌≡◌}
use mathlib.Core.Path.{refl}
use mathlib.Core.Bool.{Bool, true, false}
use mathlib.Core.Logic.{◌⊎◌, inl, inr}

pub data Result {ℓ} (E A : Type ℓ) : Type ℓ where
  ok : A → Result E A
  raise : E → Result E A

-- What comes after a value, and is skipped by a raise.
infixl 5 ◌>>=◌ ◌>>◌
abbrev pub ◌>>=◌ {ℓ} : {E A B : Type ℓ} (r : Result E A) (later : A → Result E B) → Result E B
r >>= later = elim r [ raise e ↦ raise e | ok a ↦ later a ]

abbrev pub ◌>>◌ {ℓ} : {E A B : Type ℓ} (r : Result E A) (later : Result E B) → Result E B
r >> later = elim r [ raise e ↦ raise e | ok _ ↦ later ]

-- `if not test: raise e`
abbrev pub guard : {E : Type 0} (test : Bool) (e : E) → Result E (Unit {0})
guard test e = elim test [ false ↦ raise e | true ↦ ok tt ]

-- Inversion of a guard that let the code pass.
pub guard->>-ok :
    {E B : Type 0} (b : Bool) (e : E) (m : Result E B) {c : B}
    → (guard b e >> m) ≡ ok c
    → (b ≡ true) × (m ≡ ok c)
guard->>-ok true e m h = (refl, h)
guard->>-ok false e m h = cc

pub Result-cases :
    {E A : Type 0} (r : Result E A) → ((a : A) × (r ≡ ok a)) ⊎ ((e : E) × (r ≡ raise e))
Result-cases (ok a) = inl (a, refl)
Result-cases (raise e) = inr (e, refl)
