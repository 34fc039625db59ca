-- ===== src/Jobs/Composite/Restore.antt =====
-- Restoring a composite job from its sub-jobs on the server: the branch of
-- `IBMCompositeJob.__init__` for `jobs`, of qiskit_ibm_provider/job/ibm_composite_job.py.
use qiskit_ibm_provider.Common.{
  ℕ, zero, suc, ◌<◌, ◌≡◌, refl, String, Bool, true, false, ◌&&◌, none, some, List, [], ◌∷◌,
  if◌then◌else◌, map, ltb, ◌==◌, any, All, Result, ok, raise, ==_iff, arith, Bool-cases, inl, inr,
}
use qiskit_ibm_provider.Common.Sort.{sorted}
use qiskit_ibm_provider.Jobs.Tags.{
  Indexes, find_circuit_indexes, submit_tags, user_tags, find_circuit_indexes-submit_tags,
}
use qiskit_ibm_provider.Jobs.Composite.SubJobs.{CircuitJob, SubJob, sub_job}

-- The reasons for IBMJobInvalidStateError.
pub data RestoreError : Type 0 where
  missing_tags missing_jobs : RestoreError

unfoldable pub part_of : Indexes → CircuitJob → SubJob
part_of i j = sub_job i.start_index i.end_index i.job_index i.total_jobs none (some j)

abbrev pub Parts : Type 0
Parts = Result RestoreError (ℕ × List SubJob)

abbrev cons_part : SubJob → Parts → Parts
cons_part s (raise e) = raise e
cons_part s (ok (total, ss)) = ok (total, s ∷ ss)

-- The loop over the jobs, each with its tags: the last total, and the sub-jobs.
unfoldable pub read_jobs : ℕ → List (List String × CircuitJob) → Parts
unfolding part_of
read_jobs total [] = ok (total, [])
read_jobs total ((tags, j) ∷ jobs) = elim (find_circuit_indexes tags) [
  | none ↦ raise missing_tags
  | some i ↦ cons_part (part_of i j) (read_jobs i.total_jobs jobs)
]

abbrev pub has_index : ℕ → List SubJob → Bool
has_index n subs = any (λ s. s.job_index == n) subs

-- `set(range(total))` has no index that is missing.
unfoldable pub none_missing : ℕ → List SubJob → Bool
none_missing zero subs = true
none_missing (suc n) subs = let before = none_missing n subs in has_index n subs && before

abbrev pub comes_later : SubJob → SubJob → Bool
comes_later s t = ltb t.job_index s.job_index

abbrev checked : Parts → Result RestoreError (List SubJob)
checked (raise e) = raise e
checked (ok (total, subs)) =
    if none_missing total subs then ok (sorted comes_later subs) else raise missing_jobs

unfoldable pub restore : List (List String × CircuitJob) → Result RestoreError (List SubJob)
unfolding read_jobs none_missing sorted
restore jobs = checked (read_jobs 0 jobs)

-- A sub-job on the server: the tags with which it was submitted, and its job.
abbrev pub tagged : List String → String → Indexes × CircuitJob → List String × CircuitJob
tagged tags composite_id p = (submit_tags (user_tags tags) p.0 composite_id, p.1)

abbrev pub part : Indexes × CircuitJob → SubJob
part p = part_of p.0 p.1

-- Every part knows the number of parts.
abbrev pub HasTotal : ℕ → Indexes × CircuitJob → Type 0
HasTotal total p = p.0.total_jobs ≡ total

read_tagged :
    (tags : List String) (composite_id : String) (total : ℕ) (ps : List (Indexes × CircuitJob))
    → All (HasTotal total) ps
    → read_jobs total (map (tagged tags composite_id) ps) ≡ ok (total, map part ps)
unfolding read_jobs
read_tagged tags composite_id total [] h = refl
read_tagged tags composite_id total (p ∷ ps) h =
    rw (find_circuit_indexes-submit_tags tags p.0 composite_id, read_jobs)
      (rw h.0 (rw (read_tagged tags composite_id total ps h.1) refl))

-- The total that is found first does not matter.
read_first :
    (tags : List String) (composite_id : String) (total : ℕ) (p : Indexes × CircuitJob)
    (ps : List (Indexes × CircuitJob))
    → All (HasTotal total) (p ∷ ps)
    → read_jobs 0 (map (tagged tags composite_id) (p ∷ ps)) ≡ ok (total, map part (p ∷ ps))
unfolding read_jobs
read_first tags composite_id total p ps h =
    rw (find_circuit_indexes-submit_tags tags p.0 composite_id, read_jobs)
      (rw h.0 (rw (read_tagged tags composite_id total ps h.1) refl))

and_false : (b : Bool) → (b && false) ≡ false
and_false b = ground arith

missing_if :
    (total n : ℕ) (subs : List SubJob)
    → n < total
    → has_index n subs ≡ false
    → none_missing total subs ≡ false
unfolding none_missing
missing_if zero n subs lt h = absurd (omega arith)
missing_if (suc m) n subs lt h = elim (Bool-cases (n == m)) [
  | inl e ↦ rw (rw ((==_iff n m).0 e) at h) refl
  | inr e ↦ rw (missing_if m n subs (ground (arith, ==_iff n m)) h) (and_false (has_index m subs))
]

-- If a sub-job of an index below the total is not found, the composite job is not restored.
restore-missing :
    (tags : List String) (composite_id : String) (total n : ℕ) (p : Indexes × CircuitJob)
    (ps : List (Indexes × CircuitJob))
    → All (HasTotal total) (p ∷ ps)
    → n < total
    → has_index n (map part (p ∷ ps)) ≡ false
    → restore (map (tagged tags composite_id) (p ∷ ps)) ≡ raise missing_jobs
unfolding restore
restore-missing tags composite_id total n p ps h lt k =
    rw (read_first tags composite_id total p ps h)
      (rw (missing_if total n (map part (p ∷ ps)) lt k) refl)
