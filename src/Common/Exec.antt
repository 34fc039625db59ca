-- ===== src/Common/Exec.antt =====
-- Methods that change a state and may raise: what was written before a raise stays written.
use mathlib.Core.Path.{◌≡◌, refl}
use qiskit_ibm_provider.Common.Results.{Result, ok, raise}

abbrev pub Exec : Type 0 → Type 0 → Type 0 → Type 0
Exec S E A = S → Result E A × S

module _ {S E A : Type 0} where
  abbrev pub pure : A → Exec S E A
  pure a s = (ok a, s)

  abbrev pub throw : E → Exec S E A
  throw e s = (raise e, s)

  abbrev pub lift : Result E A → Exec S E A
  lift r s = (r, s)

  abbrev pub gets : (S → A) → Exec S E A
  gets f s = (ok (f s), s)

module _ {S E A B : Type 0} where
  abbrev pub continue : Result E A → (A → Exec S E B) → Exec S E B
  continue (ok a) f s = f a s
  continue (raise e) f s = (raise e, s)

  infixl 10 ◌>>=◌ ◌>>◌
  abbrev pub ◌>>=◌ : Exec S E A → (A → Exec S E B) → Exec S E B
  ◌>>=◌ m f s = continue (m s).0 f (m s).1

  abbrev pub ◌>>◌ : Exec S E A → Exec S E B → Exec S E B
  m >> n = m >>= λ _. n

module _ {S E : Type 0} where
  continue-pure : (r : Result E (Unit {0})) (s : S) → continue r (λ _. pure tt) s ≡ (r, s)
  continue-pure (ok tt) s = refl
  continue-pure (raise e) s = refl

  -- Doing nothing afterwards changes nothing.
  pub bind-pure : (m : Exec S E (Unit {0})) (s : S) → (m >> pure tt) s ≡ m s
  bind-pure m s = continue-pure (m s).0 (m s).1

module _ {S E A B : Type 0} where
  continue-eq-ok :
      (r : Result E A) (f : A → Exec S E B) (s : S) {b : B} {t : S}
      → continue r f s ≡ (ok b, t)
      → (a : A) × (r ≡ ok a) × (f a s ≡ (ok b, t))
  continue-eq-ok (ok a) f s h = (a, refl, h)
  continue-eq-ok (raise e) f s h = cc

  -- Inversion of a successful bind.
  pub bind-eq-ok :
      (m : Exec S E A) (f : A → Exec S E B) (s : S) {b : B} {t : S}
      → (m >>= f) s ≡ (ok b, t)
      → (a : A) × (r : S) × (m s ≡ (ok a, r)) × (f a r ≡ (ok b, t))
  bind-eq-ok m f s h =
      let (a, done, rest) = continue-eq-ok (m s).0 f (m s).1 h in
      (a, (m s).1, λ i. (done i, (m s).1), rest)
