-- ===== src/Jobs/Composite/Refresh/LastQueued.antt =====
-- The sub-job whose queue information a queued composite job shows.
use mathlib.Core.List.{Memᴰ}
use qiskit_ibm_provider.Common.{
  Result, ok, raise, none, ap, ◌⊎◌, String, ltb, ℕ, ◌≡◌, refl, true, false, Option, some, List, [],
  ◌∷◌, All, arith, Bool-cases, inl, inr,
}
use qiskit_ibm_provider.Common.Sort.{IsOrder, NotAfter, last-sorted}
use qiskit_ibm_provider.Jobs.Status.{JobStatus, queued, same_status_eq}
use qiskit_ibm_provider.Jobs.Queue.{Earlier}
use qiskit_ibm_provider.Jobs.Composite.SubJobs.{SubJob}
use qiskit_ibm_provider.Jobs.Composite.Refresh.{
  status_of, has_status, with_the_status, is_status, job_queue_position, last_queued, queued_after,
  position_after,
}

position_after_irreflexive : (a : Option ℕ) → position_after a a ≡ false
unfolding position_after
position_after_irreflexive a = ground arith

position_after_total : (a b : Option ℕ) → position_after a b ≡ true → position_after b a ≡ false
unfolding position_after
position_after_total a b h = ground arith

position_after_trans :
    (a b c : Option ℕ)
    → position_after a b ≡ false
    → position_after b c ≡ false
    → position_after a c ≡ false
unfolding position_after
position_after_trans a b c h k = ground arith

abbrev position : SubJob → Option ℕ
position s = job_queue_position s

-- The sub-job `t` stands before `s` in the queue, or at the same position; one of which the position is
-- not known comes after those of which it is.
abbrev pub NoLater : SubJob → SubJob → Type 0
NoLater t s =
    Earlier (job_queue_position t) (job_queue_position s)
    ⊎ (job_queue_position t ≡ job_queue_position s)

position_NoLater : (a b : Option ℕ) → position_after a b ≡ false → Earlier a b ⊎ (a ≡ b)
unfolding position_after
position_NoLater none none h = inr refl
position_NoLater none (some b) h = absurd cc
position_NoLater (some a) none h = inl tt
position_NoLater (some a) (some b) h = elim (Bool-cases (ltb a b)) [
  | inl e ↦ inl (ground arith)
  | inr e ↦ inr (ap some (ground arith))
]

All-NoLater :
    (s : SubJob) (ts : List SubJob)
    → All (λ t. NotAfter queued_after t s) ts
    → All (λ t. NoLater t s) ts
All-NoLater s [] h = tt
All-NoLater s (t ∷ ts) h = (position_NoLater (position t) (position s) h.0, All-NoLater s ts h.1)

queued_after-IsOrder : IsOrder queued_after
queued_after-IsOrder = record {
  irreflexive = λ s. position_after_irreflexive (position s);
  total = λ s t. position_after_total (position s) (position t);
  transitive = λ s t u. position_after_trans (position s) (position t) (position u);
}

pub is_status_eq :
    (stat : JobStatus) (r : Result String JobStatus) → is_status stat r ≡ true → r ≡ ok stat
is_status_eq stat (ok t) h = ap ok (same_status_eq t stat h)
is_status_eq stat (raise e) h = absurd cc

pub with_the_status_cons :
    (stat : JobStatus) (subs : List SubJob)
    → has_status stat subs ≡ true
    → (s : SubJob) × (ss : List SubJob) × (with_the_status stat subs ≡ s ∷ ss)
unfolding with_the_status
with_the_status_cons stat [] h = absurd cc
with_the_status_cons stat (s ∷ ss) h = elim (Bool-cases (is_status stat (status_of s))) [
  | inl e ↦ (s, with_the_status stat ss, rw e)
  | inr e ↦ let (t, ts, found) = with_the_status_cons stat ss (rw e at h) in (t, ts, rw e found)
]

-- What holds of all elements holds of each.
All_at : {A : Type 0} (P : A → Type 0) (x : A) (xs : List A) → All P xs → Memᴰ x xs → P x
All_at P x [] h m = elim m [ ]
All_at P x (y ∷ ys) h (Memᴰ.head e) = rw e h.0
All_at P x (y ∷ ys) h (Memᴰ.tail m) = All_at P x ys h.1 m

-- The sub-job is one of `subs`, and has the status.
abbrev Found : JobStatus → List SubJob → SubJob → Type 0
Found stat subs s = Memᴰ s subs × (status_of s ≡ ok stat)

All-Found_weaken :
    (stat : JobStatus) (t : SubJob) (subs ss : List SubJob)
    → All (Found stat subs) ss
    → All (Found stat (t ∷ subs)) ss
All-Found_weaken stat t subs [] h = tt
All-Found_weaken stat t subs (s ∷ ss) h =
    ((Memᴰ.tail h.0.0, h.0.1), All-Found_weaken stat t subs ss h.1)

All-with_the_status :
    (stat : JobStatus) (subs : List SubJob) → All (Found stat subs) (with_the_status stat subs)
unfolding with_the_status
All-with_the_status stat [] = tt
All-with_the_status stat (t ∷ ts) = elim (Bool-cases (is_status stat (status_of t))) [
  | inl e ↦ rw e (
    (Memᴰ.head refl, is_status_eq stat (status_of t) e),
    All-Found_weaken stat t ts (with_the_status stat ts) (All-with_the_status stat ts),
  )
  | inr e ↦
      rw e (All-Found_weaken stat t ts (with_the_status stat ts) (All-with_the_status stat ts))
]

-- If a sub-job is queued, the one whose queue information is shown is a queued sub-job, and no queued
-- sub-job comes after it by the positions that are known; an unknown position counts as the last.
pub last_queued_latest :
    (subs : List SubJob)
    → has_status queued subs ≡ true
    → (s : SubJob) × (last_queued subs ≡ some s)
      × Memᴰ s subs
      × (status_of s ≡ ok queued)
      × All (λ t. NoLater t s) (with_the_status queued subs)
unfolding last_queued
last_queued_latest subs h =
    let (s, ss, e) = with_the_status_cons queued subs h in
    let (r, found, member, latest) = last-sorted queued_after queued_after-IsOrder s ss in
    let (member, is_queued) =
      All_at (Found queued subs) r (s ∷ ss) (rw e at (All-with_the_status queued subs)) member in
    (r, rw e found, member, is_queued, rw e (All-NoLater r (s ∷ ss) latest))
