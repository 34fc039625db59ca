-- ===== src/Jobs/Circuit/Lifetime/Calls.antt =====
-- Whatever methods of an `IBMCircuitJob` (qiskit_ibm_provider/job/ibm_circuit_job.py) were called,
-- `result` answers as it should.
use qiskit_ibm_provider.Common.{
  ℕ, suc, ◌*◌, ◌≤◌, ◌≡◌, refl, ap, subst, Bool, true, false, not, ◌||◌, Option, none, some, List,
  [], ◌∷◌, is_some, inl, inr, or_else, Bool-cases, Option-cases, some_injective, arith,
  if◌then◌else◌, Result, ok, raise,
}
use qiskit_ibm_provider.Common.Exec.{continue, gets, pure, ◌>>=◌}
use qiskit_ibm_provider.Jobs.Circuit.{
  Server, IbmCircuitJob, JobError, queue_position, get_queue_info,
}
use qiskit_ibm_provider.Jobs.Circuit.Answers.{
  refresh, backend_options, header, circuits, creation_date, time_per_step, client_version,
}
use qiskit_ibm_provider.Jobs.Circuit.Waiting.{Run, wait_for_final_state, then_run}
use qiskit_ibm_provider.Jobs.Circuit.Waiting.Rule.{wait_for_final_state-keeps}
use qiskit_ibm_provider.Jobs.Circuit.Outcome.{result, checked_result, error_message}
use qiskit_ibm_provider.Jobs.Circuit.Outcome.Executed.{KeepsStatuses, never_executed-is_error}
use qiskit_ibm_provider.Jobs.Circuit.Outcome.Final.{
  SameStatus, error_message-SameStatus, retrieve_result-SameStatus,
}
use qiskit_ibm_provider.Jobs.Circuit.Outcome.Answered.{Outcome, result-Outcome}
use qiskit_ibm_provider.Jobs.Circuit.Tags.{update_tags}
use qiskit_ibm_provider.Jobs.Circuit.Lifetime.{
  JobArguments, Operation, call_status, call_cancel, call_refresh, call_queue_info,
  call_creation_date, call_time_per_step, call_client_version, call_backend_options, call_header,
  call_circuits, call_error_message, call_queue_position, call_update_tags, call_wait, call_result,
  circuit_job, perform, perform_all, state_of,
}
use qiskit_ibm_provider.Jobs.Circuit.Lifetime.Ready.{
  Ready, same_Ready, status-Ready, cancel-Ready, queue_position-SameStatus, queue_info-SameStatus,
  update_tags-SameStatus, backend_options-SameStatus, header-SameStatus, circuits-SameStatus,
  refresh-Ready,
}

module _ {R : Type 0} (server : Server R) (k : KeepsStatuses server.upper) where
  -- Reading an attribute afterwards changes nothing.
  read_Ready :
      {A : Type 0} (f : IbmCircuitJob R → A) (o : Result JobError (Unit {0}) × IbmCircuitJob R)
      → Ready o.1
      → Ready (continue o.0 (λ _. gets {E = JobError} f) o.1).1
  read_Ready f (ok a, s) h = h
  read_Ready f (raise e, s) h = h

  creation_date-Ready : (s : IbmCircuitJob R) → Ready s → Ready (creation_date server s).1
  unfolding creation_date
  creation_date-Ready s h = elim (Bool-cases (is_some s.creation_date)) [
    | inl e ↦ rw e h
    | inr e ↦
        rw e (read_Ready (λ t. t.creation_date) (refresh server s) (refresh-Ready server s k h))
  ]

  checked_result-SameStatus :
      (b : Bool) (s : IbmCircuitJob R) → SameStatus server s (checked_result server b s).1
  unfolding checked_result
  checked_result-SameStatus b s =
      ground (arith, error_message-SameStatus server s, retrieve_result-SameStatus server b s)

  after_wait-Ready :
      (b : Bool) (w : Run R (Unit {0})) (r : Result JobError (Option R)) (t : IbmCircuitJob R)
      → ((q : Result JobError (Unit {0})) (u : IbmCircuitJob R) → w ≡ some (q, u) → Ready u)
      → then_run w (checked_result server b) ≡ some (r, t)
      → Ready t
  after_wait-Ready b none r t h e = cc
  after_wait-Ready b (some (ok a, u)) r t h e = subst Ready (ap (λ o. o.1) (some_injective _ _ e)) (
      same_Ready server u (checked_result server b u).1 (checked_result-SameStatus b u)
        (h (ok a) u refl))
  after_wait-Ready b (some (raise x, u)) r t h e =
      subst Ready (ap (λ o. o.1) (some_injective _ _ e)) (h (raise x) u refl)

  -- A method that refreshes if a test says so, and reads an attribute.
  refreshing_Ready :
      {A : Type 0} (b : Bool) (f : IbmCircuitJob R → A) (s : IbmCircuitJob R)
      → Ready s
      → Ready (((if b then refresh server else pure tt) >>= λ _. gets f) s).1
  refreshing_Ready true f s h = read_Ready f (refresh server s) (refresh-Ready server s k h)
  refreshing_Ready false f s h = h

  time_per_step-Ready : (s : IbmCircuitJob R) → Ready s → Ready (time_per_step server s).1
  unfolding time_per_step
  time_per_step-Ready s h = refreshing_Ready _ _ s h

  client_version-Ready : (s : IbmCircuitJob R) → Ready s → Ready (client_version server s).1
  unfolding client_version
  client_version-Ready s h = refreshing_Ready _ _ s h

  waited-Ready :
      (fuel : ℕ) (timeout : Option ℕ) (s : IbmCircuitJob R) (r : Result JobError (Unit {0}))
      (t : IbmCircuitJob R)
      → Ready s
      → wait_for_final_state server fuel timeout s ≡ some (r, t)
      → Ready t
  waited-Ready =
      wait_for_final_state-keeps server Ready (λ s m n h. h) (λ s. status-Ready server s k)

  result-Ready :
      (fuel : ℕ) (timeout : Option ℕ) (b : Bool) (s : IbmCircuitJob R)
      (r : Result JobError (Option R)) (t : IbmCircuitJob R)
      → Ready s
      → result server fuel timeout b s ≡ some (r, t)
      → Ready t
  unfolding result
  result-Ready fuel timeout b s r t h e = elim (Bool-cases (not (is_some s.result) || b)) [
    | inl asks ↦
        after_wait-Ready b (wait_for_final_state server fuel timeout s) r t
          (λ q u. waited-Ready fuel timeout s q u h) (rw asks at e)
    | inr kept ↦ subst Ready (ap (λ o. o.1) (some_injective _ _ (rw kept at e))) h
  ]

  state_of-Ready :
      {A : Type 0} (o : Run R A) (t : IbmCircuitJob R)
      → ((r : Result JobError A) (u : IbmCircuitJob R) → o ≡ some (r, u) → Ready u)
      → state_of server o ≡ some t
      → Ready t
  state_of-Ready none t h e = cc
  state_of-Ready (some (r, u)) t h e = subst Ready (some_injective _ _ e) (h r u refl)

  ended_Ready : (u t : IbmCircuitJob R) → some u ≡ some t → Ready u → Ready t
  ended_Ready u t e h = subst Ready (some_injective u t e) h

  same_ended :
      (s u t : IbmCircuitJob R) → some u ≡ some t → Ready s → SameStatus server s u → Ready t
  same_ended s u t e h same = ended_Ready u t e (same_Ready server s u same h)

  perform-Ready :
      (call : Operation) (s t : IbmCircuitJob R)
      → Ready s
      → perform server call s ≡ some t
      → Ready t
  unfolding perform
  perform-Ready call_status s t h e = ended_Ready _ t e (status-Ready server s k h)
  perform-Ready call_cancel s t h e = ended_Ready _ t e (cancel-Ready server s h)
  perform-Ready call_refresh s t h e = ended_Ready _ t e (refresh-Ready server s k h)
  perform-Ready call_queue_info s t h e =
      same_ended s (get_queue_info server s).1 t e h (queue_info-SameStatus server s)
  perform-Ready call_creation_date s t h e = ended_Ready _ t e (creation_date-Ready s h)
  perform-Ready call_time_per_step s t h e = ended_Ready _ t e (time_per_step-Ready s h)
  perform-Ready call_client_version s t h e = ended_Ready _ t e (client_version-Ready s h)
  perform-Ready call_backend_options s t h e =
      same_ended s (backend_options server s).1 t e h (backend_options-SameStatus server s)
  perform-Ready call_header s t h e =
      same_ended s (header server s).1 t e h (header-SameStatus server s)
  perform-Ready call_circuits s t h e =
      same_ended s (circuits server s).1 t e h (circuits-SameStatus server s)
  perform-Ready call_error_message s t h e =
      same_ended s (error_message server s).1 t e h (error_message-SameStatus server s)
  perform-Ready (call_queue_position b) s t h e =
      same_ended s (queue_position server b s).1 t e h (queue_position-SameStatus server b s)
  perform-Ready (call_update_tags new) s t h e =
      same_ended s (update_tags server new s).1 t e h (update_tags-SameStatus server new s)
  perform-Ready (call_wait fuel timeout) s t h e =
      state_of-Ready _ t (λ r u. waited-Ready fuel timeout s r u h) e
  perform-Ready (call_result fuel timeout b) s t h e =
      state_of-Ready _ t (λ r u. result-Ready fuel timeout b s r u h) e

  perform_all-Ready :
      (calls : List Operation) (s t : IbmCircuitJob R)
      → Ready s
      → perform_all server calls s ≡ some t
      → Ready t
  unfolding perform_all
  perform_all-Ready [] s t h e = ended_Ready s t e h
  perform_all-Ready (call ∷ calls) s t h e = elim (Option-cases (perform server call s)) [
    | inl runs ↦ absurd (none_ne t (rw (runs, perform_all) at e))
    | inr (u, ended) ↦
        perform_all-Ready calls u t (perform-Ready call s u h ended) (rw (ended, perform_all) at e)
  ]
    where
      none_ne : (v : IbmCircuitJob R) → none ≡ some v → ⊥
      none_ne v x = cc

  circuit_job-Ready :
      (a : JobArguments) (m n : ℕ) (s : IbmCircuitJob R) → circuit_job server a m n ≡ ok s → Ready s
  unfolding circuit_job
  circuit_job-Ready a m n s e =
      ground (arith, never_executed-is_error server.upper (or_else a.status "") k)

-- Whatever methods of a job were called since its construction, in any order, and whatever the server
-- answered: with a timeout `result` ends, and what it answers or raises agrees with the status of the
-- job (Outcome): a result that was kept or whose job is DONE, and never None; IBMJobFailureError if
-- the status is ERROR; IBMJobTimeoutError if the time is up; or an exception of another kind. The
-- calls have returned or raised, and upper case leaves the texts of the statuses alone.
pub result-after_calls :
    {R : Type 0} (server : Server R) (arguments : JobArguments) (moment now : ℕ)
    (calls : List Operation) (s t : IbmCircuitJob R) (fuel timeout : ℕ) (again : Bool)
    → KeepsStatuses server.upper
    → circuit_job server arguments moment now ≡ ok s
    → perform_all server calls s ≡ some t
    → timeout ≤ 3000 * fuel
    → (o : Result JobError (Option R) × IbmCircuitJob R) × (result server
          (suc fuel)
          (some timeout)
          again
          t
        ≡ some o)
      × Outcome server t again (some timeout) o
result-after_calls server arguments moment now calls s t fuel timeout again k made performed
      enough =
    let ready =
      perform_all-Ready server k calls s t (circuit_job-Ready server k arguments moment now s made)
        performed in
    result-Outcome server fuel timeout again t k ready.0 ready.1 enough
