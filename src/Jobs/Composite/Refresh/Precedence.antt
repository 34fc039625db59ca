-- ===== src/Jobs/Composite/Refresh/Precedence.antt =====
-- The order in which the statuses of the sub-jobs decide the status of the composite job.
use mathlib.Core.List.{Memᴰ}
use qiskit_ibm_provider.Common.{
  String, Option, none, raise, ◌⊎◌, Result-cases, ◌+◌, ℕ, if◌then◌else◌, ◌≤◌, ◌≡◌, refl, true,
  false, List, [], ◌∷◌, All, Result, ok, arith, Bool-cases, inl, inr,
}
use qiskit_ibm_provider.Jobs.Status.{
  JobStatus, initializing, validating, queued, running, error, cancelled, done, job_status_to_int,
}
use qiskit_ibm_provider.Jobs.Queue.{QueueInfo}
use qiskit_ibm_provider.Jobs.Composite.SubJobs.{SubJob, has_pending_submit}
use qiskit_ibm_provider.Jobs.Composite.Report.{error_text, error_texts, error_report}
use qiskit_ibm_provider.Jobs.Composite.Refresh.LastQueued.{
  is_status_eq, with_the_status_cons, last_queued_latest,
}
use qiskit_ibm_provider.Jobs.Composite.Refresh.{
  CompositeJob, Refreshed, is_status, first_exception, keep_queue_info, keep_error,
  refresh_sub_jobs_answered, with_status, status_of, has_status, with_the_status,
  refresh_by_statuses, is_settled, refresh, last_queued, set_queue_info, set_error, job_queue_info,
}

-- The status of a sub-job is not below the number.
abbrev pub NotBelow : ℕ → Result String JobStatus → Type 0
NotBelow n (ok stat) = n ≤ job_status_to_int stat
NotBelow n (raise e) = Unit

-- No sub-job has a status below the number.
abbrev pub AtLeast : ℕ → List SubJob → Type 0
AtLeast n subs = All (λ s. NotBelow n (status_of s)) subs

NotBelow-zero : (r : Result String JobStatus) → NotBelow 0 r
NotBelow-zero (ok stat) = omega arith
NotBelow-zero (raise e) = tt

AtLeast-zero : (subs : List SubJob) → AtLeast 0 subs
AtLeast-zero [] = tt
AtLeast-zero (s ∷ ss) = (NotBelow-zero (status_of s), AtLeast-zero ss)

NotBelow-next :
    (stat : JobStatus) (r : Result String JobStatus)
    → NotBelow (job_status_to_int stat) r
    → is_status stat r ≡ false
    → NotBelow (1 + job_status_to_int stat) r
NotBelow-next stat (ok t) h e = ground arith
NotBelow-next stat (raise x) h e = tt

AtLeast-next :
    (stat : JobStatus) (subs : List SubJob)
    → AtLeast (job_status_to_int stat) subs
    → has_status stat subs ≡ false
    → AtLeast (1 + job_status_to_int stat) subs
AtLeast-next stat [] h e = tt
AtLeast-next stat (s ∷ ss) h e =
    (NotBelow-next stat (status_of s) h.0 (ground arith), AtLeast-next stat ss h.1 (ground arith))

has_status→Memᴰ :
    (stat : JobStatus) (subs : List SubJob)
    → has_status stat subs ≡ true
    → (s : SubJob) × Memᴰ s subs × (status_of s ≡ ok stat)
has_status→Memᴰ stat [] h = absurd cc
has_status→Memᴰ stat (s ∷ ss) h = elim (Bool-cases (is_status stat (status_of s))) [
  | inl e ↦ (s, Memᴰ.head refl, is_status_eq stat (status_of s) e)
  | inr e ↦
      let (t, member, found) = has_status→Memᴰ stat ss (rw e at h) in (t, Memᴰ.tail member, found)
]

-- The job's status is that of a sub-job, and no sub-job has a status before it.
abbrev pub Decides : JobStatus → List SubJob → Type 0
Decides stat subs =
    ((s : SubJob) × Memᴰ s subs × (status_of s ≡ ok stat)) × AtLeast (job_status_to_int stat) subs

-- A sub-job for which the function raises.
abbrev Raising : {A : Type 0} → (SubJob → Result String A) → List SubJob → Type 0
Raising f subs = (s : SubJob) × (e : String) × Memᴰ s subs × (f s ≡ raise e)

-- The refresh raises nothing, or what a question to a sub-job raises: the one for the queue information
-- of a queued sub-job, or the one for the error message of a failed one.
abbrev pub RaisesOnly : List SubJob → Refreshed → Type 0
RaisesOnly subs (ok x, d) = Unit
RaisesOnly subs (raise e, d) =
    ((d.status ≡ queued) × Raising job_queue_info subs)
    ⊎ ((d.status ≡ error) × Raising error_text subs)

-- The sub-jobs decide the status of the job that is left, and stay as they are.
abbrev pub IsDecided : CompositeJob → Refreshed → Type 0
IsDecided c r =
    Decides r.1.status c.sub_jobs × (r.1.sub_jobs ≡ c.sub_jobs) × RaisesOnly c.sub_jobs r

no_exception_ok :
    (s : SubJob) (ss : List SubJob)
    → first_exception (s ∷ ss) ≡ none
    → (stat : JobStatus) × (status_of s ≡ ok stat)
unfolding first_exception
no_exception_ok s ss h = elim (Result-cases (status_of s)) [
  | inl found ↦ found
  | inr (e, raised) ↦ (let g = rw (raised, first_exception) at h in absurd cc)
]

below_seven : (stat : JobStatus) → ¬ (7 ≤ job_status_to_int stat)
below_seven stat h = ground arith

beyond_done :
    (s : SubJob) (ss : List SubJob) → first_exception (s ∷ ss) ≡ none → ¬ AtLeast 7 (s ∷ ss)
beyond_done s ss h least =
    let (stat, e) = no_exception_ok s ss h in below_seven stat (rw e at least.0)

-- The job that is left has the status.
abbrev Sets : JobStatus → CompositeJob → Refreshed → Type 0
Sets stat c r = (r.1.status ≡ stat) × (r.1.sub_jobs ≡ c.sub_jobs) × RaisesOnly c.sub_jobs r

-- One test of the chain.
by_test :
    (stat : JobStatus) (c : CompositeJob) (now later : Refreshed)
    → AtLeast (job_status_to_int stat) c.sub_jobs
    → (has_status stat c.sub_jobs ≡ true → Sets stat c now)
    → (AtLeast (1 + job_status_to_int stat) c.sub_jobs → IsDecided c later)
    → IsDecided c (if has_status stat c.sub_jobs then now else later)
by_test stat c now later least set next = elim (Bool-cases (has_status stat c.sub_jobs)) [
  | inl e ↦
      let (same, kept, raises) = set e in
      rw e (rw same (has_status→Memᴰ stat c.sub_jobs e, least), kept, raises)
  | inr e ↦ rw e (next (AtLeast-next stat c.sub_jobs least e))
]

keep_queue_info-Sets :
    (c : CompositeJob) (s : SubJob) (r : Result String (Option QueueInfo))
    → job_queue_info s ≡ r
    → Memᴰ s c.sub_jobs
    → Sets queued c (keep_queue_info (with_status queued c) r)
keep_queue_info-Sets c s (ok q) e member = (refl, refl, tt)
keep_queue_info-Sets c s (raise x) e member = (refl, refl, inl (refl, (s, x, member, e)))

Sets-queued :
    (c : CompositeJob)
    → has_status queued c.sub_jobs ≡ true
    → Sets queued c (set_queue_info (with_status queued c) (last_queued c.sub_jobs))
Sets-queued c h =
    let (s, found, member, _, _) = last_queued_latest c.sub_jobs h in
    rw found (keep_queue_info-Sets c s (job_queue_info s) refl member)

keep_error-Sets :
    (c : CompositeJob) (r : Result String String)
    → ((e : String) → r ≡ raise e → Raising error_text c.sub_jobs)
    → Sets error c (keep_error (with_status error c) r)
keep_error-Sets c (ok text) h = (refl, refl, tt)
keep_error-Sets c (raise e) h = (refl, refl, inr (refl, h e refl))

-- The texts raise what the text of one of the sub-jobs raises.
error_texts_raise :
    (ss : List SubJob) (e : String) → error_texts ss ≡ raise e → Raising error_text ss
unfolding error_texts
error_texts_raise [] e h = absurd cc
error_texts_raise (s ∷ ss) e h = elim (Result-cases (error_text s)) [
  | inr (x, raised) ↦ (s, x, Memᴰ.head refl, raised)
  | inl (text, told) ↦ elim (Result-cases (error_texts ss)) [
    | inl (texts, told_all) ↦ (let g = rw (told, told_all) at h in absurd cc)
    | inr (x, raised) ↦
        let (t, y, member, found) = error_texts_raise ss x raised in (t, y, Memᴰ.tail member, found)
  ]
]

error_report_raises :
    (s : SubJob) (ss : List SubJob) (e : String)
    → error_report s ss ≡ raise e
    → Raising error_text (s ∷ ss)
unfolding error_report
error_report_raises s ss e h = elim (Result-cases (error_text s)) [
  | inr (x, raised) ↦ (s, x, Memᴰ.head refl, raised)
  | inl (text, told) ↦ elim (Result-cases (error_texts ss)) [
    | inl (texts, told_all) ↦ (let g = rw (told, told_all) at h in absurd cc)
    | inr (x, raised) ↦
        let (t, y, member, found) = error_texts_raise ss x raised in (t, y, Memᴰ.tail member, found)
  ]
]

Memᴰ-cons_weaken :
    (t s : SubJob) (ss subs : List SubJob)
    → (Memᴰ t ss → Memᴰ t subs)
    → Memᴰ t (s ∷ ss)
    → Memᴰ t (s ∷ subs)
Memᴰ-cons_weaken t s ss subs f (Memᴰ.head e) = Memᴰ.head e
Memᴰ-cons_weaken t s ss subs f (Memᴰ.tail m) = Memᴰ.tail (f m)

-- The sub-jobs with a status are among all of them.
with_the_status-Memᴰ :
    (stat : JobStatus) (t : SubJob) (subs : List SubJob)
    → Memᴰ t (with_the_status stat subs)
    → Memᴰ t subs
unfolding with_the_status
with_the_status-Memᴰ stat t [] m = m
with_the_status-Memᴰ stat t (s ∷ ss) m = elim (Bool-cases (is_status stat (status_of s))) [
  | inl e ↦
      Memᴰ-cons_weaken t s (with_the_status stat ss) ss (with_the_status-Memᴰ stat t ss) (rw e at m)
  | inr e ↦ Memᴰ.tail (with_the_status-Memᴰ stat t ss (rw e at m))
]

Sets-error :
    (c : CompositeJob)
    → has_status error c.sub_jobs ≡ true
    → Sets error c (set_error (with_status error c) (with_the_status error c.sub_jobs))
Sets-error c h =
    let (s, ss, found) = with_the_status_cons error c.sub_jobs h in
    rw found (
      keep_error-Sets c (error_report s ss) (λ e raised.
        let (t, x, member, raises) = error_report_raises s ss e raised in
        (t, x, with_the_status-Memᴰ error t c.sub_jobs (rw found member), raises)))

by_statuses-IsDecided :
    (c : CompositeJob) (s : SubJob) (ss : List SubJob)
    → c.sub_jobs ≡ s ∷ ss
    → first_exception c.sub_jobs ≡ none
    → IsDecided c (refresh_by_statuses c)
unfolding refresh_by_statuses
by_statuses-IsDecided c s ss e f =
    by_test initializing c _ _ (AtLeast-zero c.sub_jobs) (λ h. (refl, refl, tt))
      (λ h1.
        by_test validating c _ _ h1 (λ h. (refl, refl, tt))
          (λ h2. by_test queued c _ _ h2 (Sets-queued c) (λ h3.
            by_test running c _ _ h3 (λ h. (refl, refl, tt))
              (λ h4. by_test error c _ _ h4 (Sets-error c) (λ h5.
                by_test cancelled c _ _ h5 (λ h. (refl, refl, tt))
                  (λ h6.
                    by_test done c _ _ h6 (λ h. (refl, refl, tt))
                      (λ h7. absurd (beyond_done s ss (rw e at f) (rw e at h7)))))))))

-- Once every submission has ended, unless the status is settled already, and when no call of `status`
-- raises an exception: the status that the refresh sets for a job with one sub-job or more is the
-- status of one of the sub-jobs, and no sub-job has a status before it in the order INITIALIZING,
-- VALIDATING, QUEUED, RUNNING, ERROR, CANCELLED, DONE. The sub-jobs stay as they are. The refresh
-- raises an exception only after it has set QUEUED, when the queue information of a sub-job raises one,
-- or ERROR, when the error message of a sub-job raises one.
pub refresh-IsDecided :
    (c : CompositeJob) (s : SubJob) (ss : List SubJob)
    → c.sub_jobs ≡ s ∷ ss
    → has_pending_submit c.sub_jobs ≡ false
    → is_settled c ≡ false
    → first_exception c.sub_jobs ≡ none
    → IsDecided c (refresh c)
unfolding refresh
refresh-IsDecided c s ss e p n f =
    rw (p, n, refresh_sub_jobs_answered c f) (by_statuses-IsDecided c s ss e f)
