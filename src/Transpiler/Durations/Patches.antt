-- ===== src/Transpiler/Durations/Patches.antt =====
-- After the patches, a reset lasts as long as the measurement of the same qubits.
use qiskit_ibm_provider.Common.{
  ◌||◌, ℕ, ◌+◌, ◌≡◌, ◌∙◌, refl, sym, ap, Bool, true, false, Option, some, List, [], ◌∷◌, String,
  str_eq, eq_iff, ok, All, All-weaken, Bool-cases, inl, inr, true≢false, subst,
}
use qiskit_ibm_provider.Transpiler.Durations.{
  InstrKey, Duration, Durations, same_key, get_duration_dt, patch_key, lengthen, reset_from,
  patch_reset, patch_measurement, patch_instruction, patch_rest, patch_all, odd_cycle_correction,
  measure_patch_cycles,
}
use qiskit_ibm_provider.Transpiler.Durations.Keys.{
  key, same_key-eq, get_duration_dt-patch_key, get_duration_dt-patch_key_other,
}

abbrev in_dt : ℕ → Duration
in_dt t = record { time = t; unit = "dt" }

-- The duration of the key is known, in "dt".
abbrev pub InDt : InstrKey → Durations → Type 0
InDt k d = (t : ℕ) × (get_duration_dt k d ≡ some (in_dt t))

-- The reset lasts as long as the measurement.
abbrev pub Synced : Option (List ℕ) → Option (List ℕ) → Durations → Type 0
Synced q p d = get_duration_dt (key "reset" q p) d ≡ get_duration_dt (key "measure" q p) d

InDt-patch_key :
    (l k : InstrKey) (t : ℕ) (d : Durations) → InDt l d → InDt l (patch_key k (in_dt t) d)
InDt-patch_key l k t d (u, h) = elim (Bool-cases (same_key l k)) [
  | inl e ↦ (
    t,
    subst (λ m. get_duration_dt m (patch_key k (in_dt t) d) ≡ some (in_dt t))
        (sym (same_key-eq l k e)) (get_duration_dt-patch_key k (in_dt t) d),
  )
  | inr e ↦ (u, get_duration_dt-patch_key_other l k (in_dt t) d e ∙ h)
]

-- What a patch keeps, of the durations that are known and those that agree.
pub record Kept (d e : Durations) : Type 0 where
  pub known : (l : InstrKey) → InDt l d → InDt l e
  pub synced : (q p : Option (List ℕ)) → InDt (key "measure" q p) d → Synced q p d → Synced q p e

-- The reset of a key is set to what its measurement is.
reset-Synced :
    (q p : Option (List ℕ)) (t : ℕ) (d : Durations)
    → get_duration_dt (key "measure" q p) d ≡ some (in_dt t)
    → Synced q p (patch_key (key "reset" q p) (in_dt t) d)
reset-Synced q p t d h =
    get_duration_dt-patch_key (key "reset" q p) (in_dt t) d
    ∙ sym
        (get_duration_dt-patch_key_other (key "measure" q p) (key "reset" q p) (in_dt t) d refl ∙ h)

reset-Kept :
    (q p : Option (List ℕ)) (t : ℕ) (d : Durations)
    → get_duration_dt (key "measure" q p) d ≡ some (in_dt t)
    → Kept d (patch_key (key "reset" q p) (in_dt t) d)
reset-Kept q p t d h = record {
  known = λ l. InDt-patch_key l (key "reset" q p) t d;
  synced = λ r s _ agree. elim (Bool-cases (same_key (key "reset" r s) (key "reset" q p))) [
    | inl e ↦
        let same : key "reset" q p ≡ key "reset" r s =
          sym (same_key-eq (key "reset" r s) (key "reset" q p) e) in
        subst
          (λ (k : InstrKey). Synced k.qubits k.parameters (patch_key (key "reset" q p) (in_dt t) d))
          same (reset-Synced q p t d h)
    | inr e ↦
        get_duration_dt-patch_key_other (key "reset" r s) (key "reset" q p) (in_dt t) d e
        ∙ agree
        ∙ sym
            (get_duration_dt-patch_key_other (key "measure" r s) (key "reset" q p) (in_dt t) d refl)
  ];
}

-- The two patches of a measurement, with the new duration.
abbrev twice : Option (List ℕ) → Option (List ℕ) → ℕ → Durations → Durations
twice q p t d = patch_key (key "reset" q p) (in_dt t) (patch_key (key "measure" q p) (in_dt t) d)

twice-Synced : (q p : Option (List ℕ)) (t : ℕ) (d : Durations) → Synced q p (twice q p t d)
twice-Synced q p t d =
    reset-Synced q p t (patch_key (key "measure" q p) (in_dt t) d)
      (get_duration_dt-patch_key (key "measure" q p) (in_dt t) d)

twice_other :
    (n : String) (q p r s : Option (List ℕ)) (t : ℕ) (d : Durations)
    → same_key (key n r s) (key "measure" q p) ≡ false
    → same_key (key n r s) (key "reset" q p) ≡ false
    → get_duration_dt (key n r s) (twice q p t d) ≡ get_duration_dt (key n r s) d
twice_other n q p r s t d h k =
    get_duration_dt-patch_key_other (key n r s) (key "reset" q p) (in_dt t)
      (patch_key (key "measure" q p) (in_dt t) d) k
    ∙ get_duration_dt-patch_key_other (key n r s) (key "measure" q p) (in_dt t) d h

twice-Kept : (q p : Option (List ℕ)) (t : ℕ) (d : Durations) → Kept d (twice q p t d)
twice-Kept q p t d = record {
  known = λ l h.
      InDt-patch_key l (key "reset" q p) t (patch_key (key "measure" q p) (in_dt t) d)
        (InDt-patch_key l (key "measure" q p) t d h);
  synced = λ r s _ agree. elim (Bool-cases (same_key (key "measure" r s) (key "measure" q p))) [
    | inl e ↦
        let same : key "measure" q p ≡ key "measure" r s =
          sym (same_key-eq (key "measure" r s) (key "measure" q p) e) in
        subst (λ (k : InstrKey). Synced k.qubits k.parameters (twice q p t d)) same
          (twice-Synced q p t d)
    | inr e ↦
        twice_other "reset" q p r s t d refl e
        ∙ agree
        ∙ sym (twice_other "measure" q p r s t d e refl)
  ];
}

module _ (sx_duration : Durations → Option ℕ) where
  abbrev longer : ℕ → Durations → ℕ
  longer t d = t + measure_patch_cycles + odd_cycle_correction (sx_duration d)

  -- A measurement is patched, and the reset with it.
  pub patch_measurement-ok :
      (q p : Option (List ℕ)) (t : ℕ) (d : Durations)
      → get_duration_dt (key "measure" q p) d ≡ some (in_dt t)
      → patch_measurement sx_duration (key "measure" q p) d ≡ ok (twice q p (longer t d) d)
  unfolding patch_measurement patch_reset lengthen reset_from
  patch_measurement-ok q p t d h =
      rw (h, get_duration_dt-patch_key (key "measure" q p) (in_dt (longer t d)) d) refl

  patch_reset-ok :
      (q p : Option (List ℕ)) (t : ℕ) (d : Durations)
      → get_duration_dt (key "measure" q p) d ≡ some (in_dt t)
      → patch_reset sx_duration (key "reset" q p) d ≡ ok (patch_key (key "reset" q p) (in_dt t) d)
  unfolding patch_reset reset_from
  patch_reset-ok q p t d h = rw h refl

  abbrev pub is_patched : InstrKey → Bool
  is_patched k = str_eq k.name "measure" || str_eq k.name "reset"

  -- A measurement or a reset of which the measurement is known.
  abbrev pub Patchable : Durations → InstrKey → Type 0
  Patchable d k = is_patched k ≡ true → InDt (key "measure" k.qubits k.parameters) d

  abbrev pub Agrees : Durations → InstrKey → Type 0
  Agrees d k = is_patched k ≡ true → Synced k.qubits k.parameters d

  patched-step :
      (n : String) (q p : Option (List ℕ)) (d : Durations)
      → Patchable d (key n q p)
      → (e : Durations) × (patch_instruction sx_duration (key n q p) d ≡ ok e)
        × Kept d e
        × Agrees e (key n q p)
  unfolding patch_instruction
  patched-step n q p d h = elim (Bool-cases (str_eq n "measure")) [
    | inl m ↦
        let is_measure : n ≡ "measure" = (eq_iff n "measure").0 m in
        let (t, known) = h (rw m refl) in
        rw is_measure (
          twice q p (longer t d) d,
          patch_measurement-ok q p t d known,
          twice-Kept q p (longer t d) d,
          λ _. twice-Synced q p (longer t d) d,
        )
    | inr m ↦ elim (Bool-cases (str_eq n "reset")) [
      | inl r ↦
          let is_reset : n ≡ "reset" = (eq_iff n "reset").0 r in
          let (t, known) = h (rw (m, r) refl) in
          rw is_reset (
            patch_key (key "reset" q p) (in_dt t) d,
            patch_reset-ok q p t d known,
            reset-Kept q p t d known,
            λ _. reset-Synced q p t d known,
          )
      | inr r ↦
          rw (m, r)
            (
              d,
              refl,
              record { known = λ l k. k; synced = λ x y _ k. k },
              λ k. absurd (true≢false (sym k)),
            )
    ]
  ]

  -- When the measurement of each key of a measurement or a reset is known in "dt", the patches of all
  -- the keys raise nothing; then the reset of each such key is known as long as its measurement, also
  -- when a later key is patched again.
  pub patch_all-Agrees :
      (ks : List InstrKey) (d : Durations)
      → All (Patchable d) ks
      → (e : Durations) × (patch_all sx_duration ks d ≡ ok e) × Kept d e × All (Agrees e) ks
  unfolding patch_all
  patch_all-Agrees [] d hs = (d, refl, record { known = λ l k. k; synced = λ q p _ k. k }, tt)
  patch_all-Agrees (k ∷ ks) d (h, hs) =
      let (d1, patched, kept, agrees) = patched-step k.name k.qubits k.parameters d h in
      let later =
        All-weaken (Patchable d) (Patchable d1)
          (λ l p m. kept.known (key "measure" l.qubits l.parameters) (p m)) ks hs in
      let (e, rest, kept_later, agree) = patch_all-Agrees ks d1 later in
      (
        e,
        ap (λ r. patch_rest sx_duration r (patch_all sx_duration ks)) patched ∙ rest,
        record {
          known = λ l p. kept_later.known l (kept.known l p);
          synced = λ q p m s.
              kept_later.synced q p (kept.known (key "measure" q p) m) (kept.synced q p m s);
        },
        (
          λ m.
              kept_later.synced k.qubits k.parameters
                (kept.known (key "measure" k.qubits k.parameters) (h m)) (agrees m),
          agree,
        ),
      )
