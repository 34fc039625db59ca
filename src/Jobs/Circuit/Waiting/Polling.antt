-- ===== src/Jobs/Circuit/Waiting/Polling.antt =====
-- The wait without a timeout follows the answers of the server up to the first final status.
use qiskit_ibm_provider.Common.{
  ℕ, zero, suc, ◌+◌, ◌<◌, ◌≡◌, ap, true, false, none, some, Result, ok, arith, ◌∙◌, subst,
}
use qiskit_ibm_provider.Common.{◌>>=◌}
use qiskit_ibm_provider.Jobs.Status.{JobStatus, is_final, api_status_to_job_status}
use qiskit_ibm_provider.Jobs.Circuit.{
  Server, IbmCircuitJob, JobError, value_error, api_to_job_error, or_raise, state_status, status,
  query_status, set_status, is_settled,
}
use qiskit_ibm_provider.Jobs.Circuit.Waiting.{
  sleep, is_streaming, wait_until_final, wait_for_final_state,
}

module _ {R : Type 0} (server : Server R) where
  -- The status that the n-th answer of the server names.
  abbrev pub named_status : ℕ → Result JobError JobStatus
  named_status n = (api_to_job_error (server.job_get n) >>= state_status) >>= λ named.
      or_raise (api_status_to_job_status server.upper named) value_error

  -- The answer names a status that is not final.
  abbrev pub NotYet : ℕ → Type 0
  NotYet n = (st : JobStatus) × (named_status n ≡ ok st) × (is_final st ≡ false)

  status-named :
      (s : IbmCircuitJob R) (st : JobStatus)
      → is_settled s.status ≡ false
      → named_status s.moment ≡ ok st
      → ((status server s).0 ≡ ok st)
        × ((status server s).1.status ≡ some st)
        × ((status server s).1.moment ≡ s.moment + 1)
        × ((status server s).1.now ≡ s.now + server.latency s.moment)
  unfolding status query_status set_status
  status-named s st open_status h = ground arith

  -- A status call that has answered, as a pair.
  answered_pair :
      (s : IbmCircuitJob R) (st : JobStatus)
      → (status server s).0 ≡ ok st
      → status server s ≡ (ok st, (status server s).1)
  answered_pair s st e = λ i. (e i, (status server s).1)

  wait_until_final-first_final :
      (k start : ℕ) (s : IbmCircuitJob R) (st : JobStatus)
      → is_settled s.status ≡ false
      → ((i : ℕ) → i < k → NotYet (s.moment + i))
      → named_status (s.moment + k) ≡ ok st
      → is_final st ≡ true
      → (t : IbmCircuitJob R) × (wait_until_final server (suc k) none start (status server s)
          ≡ some (ok tt, t))
        × (t.status ≡ some st)
        × (t.moment ≡ s.moment + k + 1)
  unfolding wait_until_final
  wait_until_final-first_final zero start s st open_status before answer final =
      let (e, named, asked, _) =
        status-named s st open_status (ap named_status (omega arith) ∙ answer) in
      ((status server s).1, rw (answered_pair s st e) (rw final), named, omega (arith, asked))
  wait_until_final-first_final (suc k) start s st open_status before answer final =
      let (st0, named0, open0) = before 0 (omega arith) in
      let (e, named, asked, _) =
        status-named s st0 open_status (ap named_status (omega arith) ∙ named0) in
      let s1 = sleep (status server s).1 in
      let (t, ends, final_named, count) =
        wait_until_final-first_final k start s1 st (rw named open0)
          (λ i l. subst NotYet (omega (arith, asked)) (before (suc i) (omega arith)))
          (ap named_status (omega (arith, asked)) ∙ answer) final in
      (t, rw (answered_pair s st0 e) (rw open0 ends), final_named, omega (arith, asked, count))

  -- Without a timeout, and no stream that is read, the wait of a job that is not final goes on to the
  -- first answer with a final status: it returns with that status, has asked no question after it,
  -- and as many rounds as questions are enough. Each earlier answer names a status.
  pub wait_for_final_state-first_final :
      (k : ℕ) (s : IbmCircuitJob R) (st : JobStatus)
      → is_streaming s.ws_client_future ≡ false
      → is_settled s.status ≡ false
      → ((i : ℕ) → i < k → NotYet (s.moment + i))
      → named_status (s.moment + k) ≡ ok st
      → is_final st ≡ true
      → (t : IbmCircuitJob R) × (wait_for_final_state server (suc k) none s ≡ some (ok tt, t))
        × (t.status ≡ some st)
        × (t.moment ≡ s.moment + k + 1)
  unfolding wait_for_final_state
  wait_for_final_state-first_final k s st quiet open_status before answer final =
      rw quiet (wait_until_final-first_final k s.now s st open_status before answer final)
