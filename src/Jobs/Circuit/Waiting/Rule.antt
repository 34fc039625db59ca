-- ===== src/Jobs/Circuit/Waiting/Rule.antt =====
-- The invariant rule of the wait: what the calls of `status` keep is kept by the loop.
use qiskit_ibm_provider.Common.{
  ℕ, zero, suc, ◌+◌, ◌-◌, ◌≡◌, ap, subst, Option, some, Bool-cases, inl, inr, or_else, Result, ok,
  raise,
}
use qiskit_ibm_provider.Jobs.Status.{JobStatus, is_final}
use qiskit_ibm_provider.Jobs.Circuit.{Server, IbmCircuitJob, JobError, timed_out, status}
use qiskit_ibm_provider.Jobs.Circuit.Waiting.{
  sleep, poll, has_elapsed, is_streaming, wait_for_stream, wait_until_final, wait_for_final_state,
}

module _ {R : Type 0} (server : Server R) (P : IbmCircuitJob R → Type 0)
    (timeless : (s : IbmCircuitJob R) (m n : ℕ) → P s → P (record s { moment = m; now = n }))
    (status_keeps : (s : IbmCircuitJob R) → P s → P (status server s).1) where
  final_state :
      (o : Result JobError (Unit {0}) × IbmCircuitJob R) (r : Result JobError (Unit {0}))
      (t : IbmCircuitJob R)
      → some o ≡ some (r, t)
      → P o.1
      → P t
  final_state o r t e h = subst P (ap (λ x. (or_else x o).1) e) h

  wait_until_final-keeps :
      (fuel : ℕ) (timeout : Option ℕ) (start : ℕ)
      (outcome : Result JobError JobStatus × IbmCircuitJob R) (r : Result JobError (Unit {0}))
      (t : IbmCircuitJob R)
      → P outcome.1
      → wait_until_final server fuel timeout start outcome ≡ some (r, t)
      → P t
  unfolding wait_until_final
  wait_until_final-keeps zero timeout start outcome r t h e = cc
  wait_until_final-keeps (suc fuel) timeout start (raise x, s) r t h e =
      final_state (raise x, s) r t e h
  wait_until_final-keeps (suc fuel) timeout start (ok st, s) r t h e =
      elim (Bool-cases (is_final st)) [
        | inl final ↦ final_state (ok tt, s) r t (rw final at e) h
        | inr more ↦ elim (Bool-cases (has_elapsed timeout (s.now - start))) [
          | inl late ↦ final_state (raise timed_out, s) r t (rw late at (rw more at e)) h
          | inr early ↦
              wait_until_final-keeps fuel timeout start (status server (sleep s)) r t
                (status_keeps (sleep s) (timeless s s.moment (s.now + 3000) h))
                (rw early at (rw more at e))
        ]
      ]

  poll-keeps :
      (fuel : ℕ) (timeout : Option ℕ) (start : ℕ)
      (outcome : Result JobError (Unit {0}) × IbmCircuitJob R) (r : Result JobError (Unit {0}))
      (t : IbmCircuitJob R)
      → P outcome.1
      → poll server fuel timeout start outcome ≡ some (r, t)
      → P t
  poll-keeps fuel timeout start (raise x, s) r t h e = final_state (raise x, s) r t e h
  poll-keeps fuel timeout start (ok x, s) r t h e =
      wait_until_final-keeps fuel timeout start (status server s) r t (status_keeps s h) e

  wait_for_stream-keeps :
      (timeout : Option ℕ) (s : IbmCircuitJob R) → P s → P (wait_for_stream server timeout s).1
  wait_for_stream-keeps timeout s h = elim (Bool-cases (is_streaming s.ws_client_future)) [
    | inl e ↦ rw e (timeless s (s.moment + 1) (s.now + server.latency s.moment) h)
    | inr e ↦ rw e h
  ]

  -- What the calls of `status` keep is kept by the wait.
  pub wait_for_final_state-keeps :
      (fuel : ℕ) (timeout : Option ℕ) (s : IbmCircuitJob R) (r : Result JobError (Unit {0}))
      (t : IbmCircuitJob R)
      → P s
      → wait_for_final_state server fuel timeout s ≡ some (r, t)
      → P t
  unfolding wait_for_final_state
  wait_for_final_state-keeps fuel timeout s r t h e =
      poll-keeps fuel timeout s.now (wait_for_stream server timeout s) r t
        (wait_for_stream-keeps timeout s h) e
