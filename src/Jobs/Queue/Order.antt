-- ===== src/Jobs/Queue/Order.antt =====
-- `last_job_stat_pos` finds a job of the list, and none of the list is later.
use mathlib.Core.List.{Memᴰ}
use qiskit_ibm_provider.Common.{
  ℕ, Option, none, ◌<◌, ◌⊎◌, inl, inr, refl, ap, Bool-cases, ltb, ◌==◌, ◌≡◌, true, false, some,
  List, [], ◌∷◌, All, arith,
}
use qiskit_ibm_provider.Common.Sort.{IsOrder, NotAfter, last-sorted}
use qiskit_ibm_provider.Jobs.Status.{job_status_to_int}
use qiskit_ibm_provider.Jobs.Queue.{
  JobStatusQueueInfo, Side, before, same, after, or_next, compare_numbers, compare_optional,
  Earlier, queue_pos, est_comp, SortKey, sort_3_keys, compare_keys, is_after, comes_after,
  last_job_stat_pos,
}

-- The key `a` does not come after `b`.
abbrev KeyNotAfter : SortKey → SortKey → Type 0
KeyNotAfter a b = is_after (compare_keys a b) ≡ false

KeyNotAfter-refl : (a : SortKey) → KeyNotAfter a a
unfolding compare_keys
KeyNotAfter-refl a = ground arith

KeyNotAfter-total : (a b : SortKey) → is_after (compare_keys a b) ≡ true → KeyNotAfter b a
unfolding compare_keys
KeyNotAfter-total a b h = ground arith

KeyNotAfter-trans : (a b c : SortKey) → KeyNotAfter a b → KeyNotAfter b c → KeyNotAfter a c
unfolding compare_keys
KeyNotAfter-trans a b c h k = ground arith

comes_after-IsOrder : IsOrder comes_after
comes_after-IsOrder = record {
  irreflexive = λ a. KeyNotAfter-refl (sort_3_keys a);
  total = λ a b. KeyNotAfter-total (sort_3_keys a) (sort_3_keys b);
  transitive = λ a b c. KeyNotAfter-trans (sort_3_keys a) (sort_3_keys b) (sort_3_keys c);
}

-- The job `k` is not later than `r`: it has a later status, which is nearer to the end; or the same
-- status and an earlier position in the queue; or the same of both, and no later completion time. An
-- unknown position or time is later than each that is known.
abbrev pub NoLater : JobStatusQueueInfo → JobStatusQueueInfo → Type 0
NoLater k r =
    (job_status_to_int r.status < job_status_to_int k.status)
    ⊎ ((job_status_to_int r.status ≡ job_status_to_int k.status)
        × (Earlier (queue_pos k.queue_info) (queue_pos r.queue_info)
            ⊎ ((queue_pos k.queue_info ≡ queue_pos r.queue_info)
                × (Earlier (est_comp k.queue_info) (est_comp r.queue_info)
                    ⊎ (est_comp k.queue_info ≡ est_comp r.queue_info)))))

-- One comparison, and the ones after it.
number_first :
    (a b : ℕ) (s : Side)
    → is_after (or_next (compare_numbers a b) s) ≡ false
    → (a < b) ⊎ ((a ≡ b) × (is_after s ≡ false))
number_first a b s h = elim (Bool-cases (ltb a b)) [
  | inl e ↦ inl (ground arith)
  | inr e ↦ elim (Bool-cases (a == b)) [
    | inl f ↦ inr (ground arith, rw (e, f) at h)
    | inr f ↦ (let g = rw (e, f) at h in absurd cc)
  ]
]

optional_first :
    (a b : Option ℕ) (s : Side)
    → is_after (or_next (compare_optional a b) s) ≡ false
    → Earlier a b ⊎ ((a ≡ b) × (is_after s ≡ false))
optional_first none none s h = inr (refl, h)
optional_first none (some b) s h = absurd cc
optional_first (some a) none s h = inl tt
optional_first (some a) (some b) s h = elim (number_first a b s h) [
  | inl less ↦ inl less
  | inr (eq, rest) ↦ inr (ap some eq, rest)
]

or_next-same : (s : Side) → or_next s same ≡ s
or_next-same before = refl
or_next-same same = refl
or_next-same after = refl

-- By the last of the keys.
estimate_last : (a b : Option ℕ) → is_after (compare_optional a b) ≡ false → Earlier a b ⊎ (a ≡ b)
estimate_last a b h = elim (optional_first a b same (rw (or_next-same (compare_optional a b)) h)) [
  | inl e ↦ inl e
  | inr (e, _) ↦ inr e
]

comes_after-NoLater : (k r : JobStatusQueueInfo) → NotAfter comes_after k r → NoLater k r
unfolding compare_keys sort_3_keys
comes_after-NoLater k r h = elim (number_first _ _ _ h) [
  | inl less ↦ inl less
  | inr (stage, rest) ↦ inr (
    stage,
    elim (optional_first _ _ _ rest) [
      | inl e ↦ inl e
      | inr (pos, last) ↦ inr (pos, estimate_last _ _ last)
    ],
  )
]

All-NoLater :
    (r : JobStatusQueueInfo) (js : List JobStatusQueueInfo)
    → All (λ k. NotAfter comes_after k r) js
    → All (λ k. NoLater k r) js
All-NoLater r [] h = tt
All-NoLater r (j ∷ js) h = (comes_after-NoLater j r h.0, All-NoLater r js h.1)

-- Of one job or more, the answer is one of the jobs, and no job is later: each has a later status, or
-- the same status and an earlier position in the queue, or the same of both and no later completion
-- time. An unknown position or time is later than each that is known.
pub last_job_stat_pos_latest :
    (j : JobStatusQueueInfo) (js : List JobStatusQueueInfo)
    → (r : JobStatusQueueInfo) × (last_job_stat_pos (j ∷ js) ≡ some r)
      × Memᴰ r (j ∷ js)
      × All (λ k. NoLater k r) (j ∷ js)
unfolding last_job_stat_pos
last_job_stat_pos_latest j js =
    let (r, found, member, latest) = last-sorted comes_after comes_after-IsOrder j js in
    (r, found, member, All-NoLater r (j ∷ js) latest)
