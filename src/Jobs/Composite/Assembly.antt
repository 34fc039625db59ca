-- ===== src/Jobs/Composite/Assembly.antt =====
-- How a composite job splits its circuits and finds them again: the first loop of
-- `_submit_circuits` and `sub_job` of qiskit_ibm_provider/job/ibm_composite_job.py. qiskit's
-- `assemble` is an argument.
use qiskit_ibm_provider.Common.{
  ℕ, suc, ◌+◌, ◌-◌, ◌≤◌, ◌≡◌, ◌&&◌, Option, none, some, List, [], ◌∷◌, ◌++◌, if◌then◌else◌, ltb,
  leb, length, get_elem?, last_of, Result, ok, raise, arith, length-append, All,
}
use qiskit_ibm_provider.Jobs.Composite.SubJobs.{
  CircuitJob, Qobj, SubJob, job, sub_job, finished, with_job, with_future,
}

pub data LookupError : Type 0 where
  index_error : LookupError  -- IndexError
  invalid_state : ℕ → ℕ → LookupError  -- IBMJobInvalidStateError

-- The sub-job that covers a circuit, in `sub_job`.
unfoldable pub covering : List SubJob → ℕ → Option SubJob
covering [] i = none
covering (s ∷ ss) i =
    let rest = covering ss i in if leb i s.end_index && leb s.start_index i then some s else rest

abbrev job_of : Option SubJob → Option CircuitJob
job_of none = none
job_of (some s) = job s

-- IBMCompositeJob.sub_job
unfoldable pub circuit_sub_job : List SubJob → ℕ → Result LookupError (Option CircuitJob)
unfolding covering
circuit_sub_job [] circuit_index = raise index_error
circuit_sub_job (s ∷ ss) circuit_index =
    let last_index = (last_of s ss).end_index in
    if ltb last_index circuit_index
    then raise (invalid_state circuit_index last_index)
    else ok (job_of (covering (s ∷ ss) circuit_index))

-- `[circ for sublist in circuits_list for circ in sublist]`
abbrev pub flatten : {A : Type 0} → List (List A) → List A
flatten [] = []
flatten (xs ∷ xss) = xs ++ flatten xss

module _ {Circuit : Type 0} (assemble : List Circuit → Qobj) where
  -- The loop from `exp_index` and `idx` on. An empty first list would have the end index -1, here 0.
  unfoldable pub assemble_from : ℕ → ℕ → ℕ → List (List Circuit) → List SubJob
  assemble_from exp_index idx total [] = []
  assemble_from exp_index idx total (circs ∷ rest) =
      sub_job exp_index (exp_index + length circs - 1) idx total (some (assemble circs)) none
      ∷ assemble_from (exp_index + length circs) (suc idx) total rest

  unfoldable pub assemble_all : List (List Circuit) → List SubJob
  unfolding assemble_from
  assemble_all circuit_lists = assemble_from 0 0 (length circuit_lists) circuit_lists

-- A list of circuits to run has at least one.
abbrev pub NonEmpty : {A : Type 0} → List A → Type 0
NonEmpty xs = 1 ≤ length xs

-- The sub-jobs once they are submitted, the one with the index `k` as the job `jobs k`.
abbrev pub submitted : (ℕ → CircuitJob) → SubJob → SubJob
submitted jobs s = with_future finished (with_job (jobs s.job_index) s)

circuit_sub_job_past_end :
    (s : SubJob) (ss : List SubJob) (i n : ℕ)
    → (last_of s ss).end_index + 1 ≡ n
    → n ≤ i
    → circuit_sub_job (s ∷ ss) i ≡ raise (invalid_state i (n - 1))
unfolding circuit_sub_job
circuit_sub_job_past_end s ss i n e h = ground arith

module _ {Circuit : Type 0} (assemble : List Circuit → Qobj) where
  -- The sub-job `s`, made for `circs`, holds the circuit that is the `i`-th from `exp_index` on.
  abbrev pub Holds : ℕ → List Circuit → ℕ → SubJob → List Circuit → Type 0
  Holds exp_index circuits i s circs =
      (s.qobj ≡ some (assemble circs))
      × (s.start_index ≤ i)
      × (i ≤ s.end_index)
      × (get_elem? circs (i - s.start_index) ≡ get_elem? circuits (i - exp_index))

  -- The end index of the last sub-job.
  last_end :
      (exp_index idx total : ℕ) (circs : List Circuit) (rest : List (List Circuit))
      → All NonEmpty (circs ∷ rest)
      → (last_of
            (sub_job exp_index
              (exp_index + length circs - 1)
              idx
              total
              (some (assemble circs))
              none)
            (assemble_from assemble (exp_index + length circs) (suc idx) total rest)).end_index
          + 1
        ≡ exp_index + length (flatten (circs ∷ rest))
  unfolding assemble_from sub_job
  last_end exp_index idx total circs [] ne = omega (arith, length-append circs [], ne.0)
  last_end exp_index idx total circs (next ∷ rest) ne = omega (
    arith,
    last_end (exp_index + length circs) (suc idx) total next rest ne.1,
    length-append circs (flatten (next ∷ rest)),
  )

  -- The lists of circuits being non-empty, `sub_job` raises an error for an index past the last
  -- circuit, and the error names the index and the last circuit's index.
  pub circuit_sub_job-out_of_range :
      (circs : List Circuit) (rest : List (List Circuit)) (i : ℕ)
      → All NonEmpty (circs ∷ rest)
      → length (flatten (circs ∷ rest)) ≤ i
      → circuit_sub_job (assemble_all assemble (circs ∷ rest)) i
        ≡ raise (invalid_state i (length (flatten (circs ∷ rest)) - 1))
  unfolding assemble_all assemble_from
  circuit_sub_job-out_of_range circs rest i ne h =
      circuit_sub_job_past_end _ _ i (length (flatten (circs ∷ rest)))
        (omega (arith, last_end 0 0 (length (circs ∷ rest)) circs rest ne)) h
