-- ===== src/Transpiler/Durations/Keys.antt =====
-- Keys of durations, and what `_patch_key` does to the look-up of a key.
use qiskit_ibm_provider.Common.{
  ℕ, ◌≡◌, ◌∙◌, refl, ap, ◌&&◌, Bool, true, false, Option, none, some, List, [], ◌∷◌, String, str_eq,
  eq_iff, eq_refl, ◌==◌, arith,
}
use qiskit_ibm_provider.Transpiler.Durations.{
  InstrKey, Duration, Durations, same_numbers, same_optional, same_key, get_duration_dt, patch_key,
}

and_true : (a b : Bool) → (a && b) ≡ true → (a ≡ true) × (b ≡ true)
and_true true b h = (refl, h)
and_true false b h = absurd cc

pub same_numbers-eq : (xs ys : List ℕ) → same_numbers xs ys ≡ true → xs ≡ ys
same_numbers-eq [] [] h = refl
same_numbers-eq [] (y ∷ ys) h = absurd cc
same_numbers-eq (x ∷ xs) [] h = absurd cc
same_numbers-eq (x ∷ xs) (y ∷ ys) h =
    let (first, rest) = and_true (x == y) (same_numbers xs ys) h in
    let same : x ≡ y = ground arith in
    ap (λ z. z ∷ xs) same ∙ ap (λ zs. y ∷ zs) (same_numbers-eq xs ys rest)

pub same_numbers_refl : (xs : List ℕ) → same_numbers xs xs ≡ true
same_numbers_refl [] = refl
same_numbers_refl (x ∷ xs) = ground (arith, same_numbers_refl xs)

same_optional-eq : (o p : Option (List ℕ)) → same_optional o p ≡ true → o ≡ p
same_optional-eq none none h = refl
same_optional-eq none (some ys) h = absurd cc
same_optional-eq (some xs) none h = absurd cc
same_optional-eq (some xs) (some ys) h = ap some (same_numbers-eq xs ys h)

same_optional_refl : (o : Option (List ℕ)) → same_optional o o ≡ true
same_optional_refl none = refl
same_optional_refl (some xs) = same_numbers_refl xs

pub same_key-eq : (k l : InstrKey) → same_key k l ≡ true → k ≡ l
same_key-eq k l h =
    let (n, rest) = and_true (str_eq k.name l.name) _ h in
    let (q, p) =
      and_true (same_optional k.qubits l.qubits) (same_optional k.parameters l.parameters) rest in
    let names : k.name ≡ l.name = (eq_iff k.name l.name).0 n in
    ap (λ x. record k { name = x }) names
    ∙ ap (λ (x : Option (List ℕ)). record l { qubits = x; parameters = k.parameters })
        (same_optional-eq k.qubits l.qubits q)
    ∙ ap (λ (x : Option (List ℕ)). record l { parameters = x })
        (same_optional-eq k.parameters l.parameters p)

pub same_key_refl : (k : InstrKey) → same_key k k ≡ true
same_key_refl k =
    rw (eq_refl k.name, same_optional_refl k.qubits, same_optional_refl k.parameters) refl

abbrev pub key : String → Option (List ℕ) → Option (List ℕ) → InstrKey
key n q p = record { name = n; qubits = q; parameters = p }

patched_key :
    (n : String) (q p : Option (List ℕ)) (v : Duration) (d : Durations)
    → get_duration_dt (key n q p) (patch_key (key n q p) v d) ≡ some v
unfolding get_duration_dt patch_key
patched_key n none none v d = rw (eq_refl n) refl
patched_key n (some qs) none v d = rw (eq_refl n, same_numbers_refl qs) refl
patched_key n none (some ps) v d = rw (eq_refl n, same_numbers_refl ps) refl
patched_key n (some qs) (some ps) v d =
    rw (eq_refl n, same_numbers_refl qs, same_numbers_refl ps) refl

-- The duration that is patched is found again.
pub get_duration_dt-patch_key :
    (k : InstrKey) (v : Duration) (d : Durations) → get_duration_dt k (patch_key k v d) ≡ some v
get_duration_dt-patch_key k v d = patched_key k.name k.qubits k.parameters v d

other_key :
    (m n : String) (q p r s : Option (List ℕ)) (v : Duration) (d : Durations)
    → same_key (key m q p) (key n r s) ≡ false
    → get_duration_dt (key m q p) (patch_key (key n r s) v d) ≡ get_duration_dt (key m q p) d
unfolding get_duration_dt patch_key
other_key m n none none none none v d h = ground arith
other_key m n none none (some rs) none v d h = refl
other_key m n none none none (some ss) v d h = refl
other_key m n none none (some rs) (some ss) v d h = refl
other_key m n (some qs) none none none v d h = refl
other_key m n (some qs) none (some rs) none v d h = ground arith
other_key m n (some qs) none none (some ss) v d h = refl
other_key m n (some qs) none (some rs) (some ss) v d h = refl
other_key m n none (some ps) none none v d h = rw h refl
other_key m n none (some ps) (some rs) none v d h = rw h refl
other_key m n none (some ps) none (some ss) v d h = rw h refl
other_key m n none (some ps) (some rs) (some ss) v d h = rw h refl
other_key m n (some qs) (some ps) none none v d h = rw h refl
other_key m n (some qs) (some ps) (some rs) none v d h = rw h refl
other_key m n (some qs) (some ps) none (some ss) v d h = rw h refl
other_key m n (some qs) (some ps) (some rs) (some ss) v d h = rw h refl

-- Nothing else is changed.
pub get_duration_dt-patch_key_other :
    (l k : InstrKey) (v : Duration) (d : Durations)
    → same_key l k ≡ false
    → get_duration_dt l (patch_key k v d) ≡ get_duration_dt l d
get_duration_dt-patch_key_other l k v d h =
    other_key l.name k.name l.qubits l.parameters k.qubits k.parameters v d h
