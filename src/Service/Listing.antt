-- ===== src/Service/Listing.antt =====
-- `IBMBackendService.jobs` of qiskit_ibm_provider/ibm_backend_service.py: the filter by status and the
-- loop over the answers of `_get_jobs`, which is an argument with the filters other than "pending"
-- fixed, as is `_restore_circuit_job`.
use qiskit_ibm_provider.Common.{
  ℕ, zero, suc, ◌+◌, ◌≤◌, ◌<◌, ◌≡◌, ◌≢◌, refl, leb, leb→le, leb→lt, String, Bool, true, false, ◌&&◌,
  ◌||◌, Option, none, some, List, [], ◌∷◌, ◌++◌, if◌then◌else◌, ◌==◌, any, all, All, length, str_eq,
  length-append, arith, Bool-cases, Option-cases, inl, inr,
}
use qiskit_ibm_provider.Jobs.Status.{
  JobStatus, initializing, validating, queued, running, ApiJobStatus, api_to_job_status,
  same_status, is_final,
}

-- The argument `status`, in upper case, of known names.
pub data StatusArg : Type 0 where
  no_status pending_only completed_only : StatusArg
  one : JobStatus → StatusArg
  many : List JobStatus → StatusArg

-- A job as the server describes it.
pub record JobInfo : Type 0 where
  pub program_id : Option String
  pub status : ApiJobStatus

abbrev is_unsent : JobStatus → Bool
is_unsent initializing = true
is_unsent validating = true
is_unsent _ = false

abbrev is_underway : JobStatus → Bool
is_underway queued = true
is_underway running = true
is_underway _ = false

-- No job of the server has such a status: the answer is the empty list.
unfoldable pub is_hopeless : StatusArg → Bool
is_hopeless (one s) = is_unsent s
is_hopeless (many (s ∷ [])) = is_unsent s
is_hopeless _ = false

-- The filter "pending".
unfoldable pub pending_filter : StatusArg → Option Bool
pending_filter no_status = none
pending_filter pending_only = some true
pending_filter completed_only = some false
pending_filter (one s) =
    if is_final s then some false else if is_underway s then some true else none
pending_filter (many ss) =
    if all is_final ss then some false else if all is_underway ss then some true else none

-- The test by status; an empty list of statuses is false and filters nothing.
unfoldable pub has_wanted_status : StatusArg → JobStatus → Bool
has_wanted_status (one t) s = same_status s t
has_wanted_status (many (t ∷ ts)) s = any (same_status s) (t ∷ ts)
has_wanted_status _ s = true

abbrev is_runner : Option String → Bool
is_runner none = false
is_runner (some id) = str_eq id "circuit-runner" || str_eq id "qasm3-runner"

-- The job is of a circuit program or of the old provider, and its status is asked for.
unfoldable pub is_wanted : Bool → StatusArg → JobInfo → Bool
unfolding has_wanted_status
is_wanted legacy arg j =
    (is_runner j.program_id || legacy) && has_wanted_status arg (api_to_job_status j.status)

equal_le : (n k : ℕ) → (n == k) ≡ true → n ≤ k
equal_le n k h = ground arith

one_more : (a b limit : ℕ) → a < limit → b ≡ a + 1 → (b == limit) ≡ false → b < limit
one_more a b limit h e f = ground arith

module _ {Job : Type 0} (restore : JobInfo → Option Job) (legacy : Bool) (arg : StatusArg) where
  abbrev at_limit : Option ℕ → List (JobInfo × Job) → Bool
  at_limit none js = false
  at_limit (some n) js = length js == n

  -- The loop over one answer: the jobs so far, each with its description, and whether the limit was
  -- met.
  unfoldable pub add_jobs :
      Option ℕ → List (JobInfo × Job) → List JobInfo → List (JobInfo × Job) × Bool
  unfolding is_wanted
  add_jobs limit job_list [] = (job_list, false)
  add_jobs limit job_list (j ∷ js) =
      let skipped = add_jobs limit job_list js in
      elim (restore j) [
        | none ↦ skipped
        | some r ↦
            let longer = job_list ++ ((j, r) ∷ []) in
            let rest = add_jobs limit longer js in
            if is_wanted legacy arg j
            then (if at_limit limit longer then (longer, true) else rest)
            else skipped
      ]

  module _ (get_jobs : Option Bool → ℕ → ℕ → List JobInfo) where
    -- The outer loop, with a limit; without fuel it still runs.
    unfoldable pub jobs_from : ℕ → ℕ → ℕ → List (JobInfo × Job) → Option (List (JobInfo × Job))
    unfolding add_jobs
    jobs_from zero limit skip job_list = none
    jobs_from (suc fuel) limit skip job_list =
        let added = add_jobs (some limit) job_list (get_jobs (pending_filter arg) limit skip) in
        let later = jobs_from fuel limit (skip + limit) added.0 in
        elim (get_jobs (pending_filter arg) limit skip) [
          | [] ↦ some job_list
          | _ ∷ _ ↦ if added.1 then some added.0 else later
        ]

    unfoldable pub jobs : ℕ → ℕ → ℕ → Option (List (JobInfo × Job))
    unfolding jobs_from is_hopeless
    jobs fuel limit skip = if is_hopeless arg then some [] else jobs_from fuel limit skip []

  -- The job is one that was asked for.
  abbrev pub Wanted : JobInfo × Job → Type 0
  Wanted x = is_wanted legacy arg x.0 ≡ true

  -- Fewer jobs than the limit, all of them asked for.
  abbrev pub Below : ℕ → List (JobInfo × Job) → Type 0
  Below limit js = (length js < limit) × All Wanted js

  -- The loop over one answer stops at the limit, or is below it.
  abbrev pub Stops : ℕ → List (JobInfo × Job) × Bool → Type 0
  Stops limit x = All Wanted x.0 × (length x.0 ≤ limit) × (x.1 ≡ false → length x.0 < limit)

  All-append_one :
      (P : JobInfo × Job → Type 0) (xs : List (JobInfo × Job)) (x : JobInfo × Job)
      → All P xs
      → P x
      → All P (xs ++ (x ∷ []))
  All-append_one P [] x h p = (p, tt)
  All-append_one P (y ∷ ys) x h p = (h.0, All-append_one P ys x h.1 p)

  add_jobs-Stops :
      (limit : ℕ) (job_list : List (JobInfo × Job)) (js : List JobInfo)
      → Below limit job_list
      → Stops limit (add_jobs (some limit) job_list js)
  unfolding add_jobs
  add_jobs-Stops limit job_list [] h = (h.1, omega (arith, h.0), λ _. h.0)
  add_jobs-Stops limit job_list (j ∷ js) h = elim (Option-cases (restore j)) [
    | inl e ↦ rw (e, add_jobs) (add_jobs-Stops limit job_list js h)
    | inr (r, e) ↦ elim (Bool-cases (is_wanted legacy arg j)) [
      | inr w ↦ rw (e, add_jobs) (rw w (add_jobs-Stops limit job_list js h))
      | inl w ↦
          let longer = job_list ++ ((j, r) ∷ []) in
          let wanted = All-append_one Wanted job_list (j, r) h.1 w in
          elim (Bool-cases (length longer == limit)) [
            | inl f ↦ rw (e, add_jobs) (rw (w, f) (wanted, equal_le _ _ f, λ g. absurd cc))
            | inr f ↦
                rw (e, add_jobs)
                  (rw (w, f)
                    (add_jobs-Stops limit longer js (
                      one_more (length job_list) _ limit h.0 (length-append job_list ((j, r) ∷ []))
                          f,
                      wanted,
                    )))
          ]
    ]
  ]

-- The answers end: from some number on there is no job to skip to.
abbrev pub EndsAt : ℕ → (Option Bool → ℕ → ℕ → List JobInfo) → Type 0
EndsAt n get_jobs =
    (pending : Option Bool) (limit skip : ℕ) → n ≤ skip → get_jobs pending limit skip ≡ []

module _ {Job : Type 0} (restore : JobInfo → Option Job) (legacy : Bool) (arg : StatusArg)
    (get_jobs : Option Bool → ℕ → ℕ → List JobInfo) where
  -- The result is a list of wanted jobs, not more than the limit.
  abbrev pub IsListing : ℕ → Option (List (JobInfo × Job)) → Type 0
  IsListing limit o =
      (js : List (JobInfo × Job)) × (o ≡ some js)
      × (length js ≤ limit)
      × All (Wanted restore legacy arg) js

  round-IsListing :
      (limit : ℕ) (job_list : List (JobInfo × Job)) (batch : List JobInfo)
      (added : List (JobInfo × Job) × Bool) (later : Option (List (JobInfo × Job)))
      → Below restore legacy arg limit job_list
      → Stops restore legacy arg limit added
      → (batch ≢ [] → Below restore legacy arg limit added.0 → IsListing limit later)
      → IsListing limit
          (elim batch [ [] ↦ some job_list | _ ∷ _ ↦ if added.1 then some added.0 else later ])
  round-IsListing limit job_list [] added later b stops next =
      (job_list, refl, omega (arith, b.0), b.1)
  round-IsListing limit job_list (x ∷ xs) added later b stops next = elim (Bool-cases added.1) [
    | inl e ↦ rw e (added.0, refl, stops.1, stops.0)
    | inr e ↦ rw e (next (λ h. cc) (stops.2 e, stops.0))
  ]

  jobs_from-IsListing :
      (n fuel limit skip : ℕ) (job_list : List (JobInfo × Job))
      → EndsAt n get_jobs
      → 1 ≤ limit
      → n < fuel + skip
      → 1 ≤ fuel
      → Below restore legacy arg limit job_list
      → IsListing limit (jobs_from restore legacy arg get_jobs fuel limit skip job_list)
  unfolding jobs_from
  jobs_from-IsListing n zero limit skip job_list ends l h f b = absurd (omega arith)
  jobs_from-IsListing n (suc fuel) limit skip job_list ends l h f b =
      let batch = get_jobs (pending_filter arg) limit skip in
      round-IsListing limit job_list batch (add_jobs restore legacy arg (some limit) job_list batch)
        _ b (add_jobs-Stops restore legacy arg limit job_list batch b)
        (λ some_job below. elim (Bool-cases (leb n skip)) [
          | inl e ↦ absurd (some_job (ends (pending_filter arg) limit skip (leb→le n skip e)))
          | inr e ↦
              jobs_from-IsListing n fuel limit (skip + limit) _ ends l
                (omega (arith, leb→lt n skip e)) (omega (arith, leb→lt n skip e)) below
        ])

  -- With a limit of at least one, and answers of `_get_jobs` that are empty from some skip on,
  -- `jobs` ends: as many rounds as that skip, and two more, are enough. It returns not more jobs than
  -- the limit, each of them a circuit job or a legacy one, with a status that was asked for.
  pub jobs-IsListing :
      (n limit skip : ℕ)
      → EndsAt n get_jobs
      → 1 ≤ limit
      → IsListing limit (jobs restore legacy arg get_jobs (2 + n) limit skip)
  unfolding jobs
  jobs-IsListing n limit skip ends l = elim (Bool-cases (is_hopeless arg)) [
    | inl e ↦ rw e ([], refl, omega arith, tt)
    | inr e ↦ rw e (
        jobs_from-IsListing n (2 + n) limit skip [] ends l (omega arith) (omega arith)
          (omega arith, tt))
  ]
