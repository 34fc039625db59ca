-- ===== src/Jobs/Circuit/Lifetime/Ready.antt =====
-- Whatever methods were called, an `IBMCircuitJob` of qiskit_ibm_provider/job/ibm_circuit_job.py is
-- ready for `result`.
use qiskit_ibm_provider.Common.{
  ◌≡◌, String, Bool, false, none, some, List, or_else, arith, Result, ok, raise,
}
use qiskit_ibm_provider.Common.Exec.{continue, ◌>>=◌}
use qiskit_ibm_provider.Jobs.Circuit.{
  Server, IbmCircuitJob, JobError, JobResponse, Metadata, status, query_status, set_status, cancel,
  queue_position, get_queue_info, refresh_queue_info, ask, api_to_job_error,
}
use qiskit_ibm_provider.Jobs.Circuit.Answers.{
  refresh, store_status, store_response, backend_options, header, circuits, get_params, set_result,
  job_results, download_external_result,
}
use qiskit_ibm_provider.Jobs.Circuit.Waiting.{is_streaming}
use qiskit_ibm_provider.Jobs.Circuit.Outcome.Executed.{
  IsExecuted, KeepsStatuses, never_executed-is_error,
}
use qiskit_ibm_provider.Jobs.Circuit.Outcome.Final.{SameStatus, status-IsExecuted}
use qiskit_ibm_provider.Jobs.Circuit.Tags.{update_tags}

-- A job that is done was executed, and no stream is read.
abbrev pub Ready : {R : Type 0} → IbmCircuitJob R → Type 0
Ready s = IsExecuted s × (is_streaming s.ws_client_future ≡ false)

module _ {R : Type 0} (server : Server R) where
  pub same_Ready : (s t : IbmCircuitJob R) → SameStatus server s t → Ready s → Ready t
  same_Ready s t same ready = ground (arith, same, ready)

  status_stream : (s : IbmCircuitJob R) → (status server s).1.ws_client_future ≡ s.ws_client_future
  unfolding status query_status set_status
  status_stream s = ground arith

  pub status-Ready :
      (s : IbmCircuitJob R) → KeepsStatuses server.upper → Ready s → Ready (status server s).1
  status-Ready s k h = (status-IsExecuted server s k h.0, rw (status_stream s) h.1)

  pub cancel-Ready : (s : IbmCircuitJob R) → Ready s → Ready (cancel server s).1
  unfolding cancel
  cancel-Ready s h = ground arith

  pub queue_position-SameStatus :
      (b : Bool) (s : IbmCircuitJob R) → SameStatus server s (queue_position server b s).1
  unfolding queue_position refresh_queue_info
  queue_position-SameStatus b s = ground arith

  pub queue_info-SameStatus :
      (s : IbmCircuitJob R) → SameStatus server s (get_queue_info server s).1
  unfolding get_queue_info refresh_queue_info
  queue_info-SameStatus s = ground arith

  pub update_tags-SameStatus :
      (new : List String) (s : IbmCircuitJob R) → SameStatus server s (update_tags server new s).1
  unfolding update_tags
  update_tags-SameStatus new s = ground arith

  pub backend_options-SameStatus :
      (s : IbmCircuitJob R) → SameStatus server s (backend_options server s).1
  unfolding backend_options get_params
  backend_options-SameStatus s = ground arith

  pub header-SameStatus : (s : IbmCircuitJob R) → SameStatus server s (header server s).1
  unfolding header get_params
  header-SameStatus s = ground arith

  pub circuits-SameStatus : (s : IbmCircuitJob R) → SameStatus server s (circuits server s).1
  unfolding circuits get_params
  circuits-SameStatus s = ground arith

  store_status-Ready :
      (response : JobResponse) (metadata : Metadata) (named : String) (s : IbmCircuitJob R)
      → KeepsStatuses server.upper
      → Ready s
      → Ready (store_status server response metadata named s).1
  unfolding store_status job_results set_result download_external_result
  store_status-Ready response metadata named s k h =
      ground (arith, never_executed-is_error server.upper named k)

  -- The status that the answer names, if it names one.
  abbrev answered_status : JobResponse → String
  answered_status response =
      or_else (elim response.state [ none ↦ none | some state ↦ state.status ]) ""

  store_response-Ready :
      (response : JobResponse) (metadata : Metadata) (s : IbmCircuitJob R)
      → KeepsStatuses server.upper
      → Ready s
      → Ready (store_response server response metadata s).1
  unfolding store_response
  store_response-Ready response metadata s k h =
      let date = server.isoparse (or_else response.created "") in
      ground (
        arith,
        store_status-Ready response metadata (answered_status response)
            (record s { creation_date = date }) k h,
      )

  metadata-Ready :
      (response : JobResponse) (answer : Result JobError Metadata) (s : IbmCircuitJob R)
      → KeepsStatuses server.upper
      → Ready s
      → Ready (continue answer (store_response server response) s).1
  metadata-Ready response (ok metadata) s k h = store_response-Ready response metadata s k h
  metadata-Ready response (raise e) s k h = h

  response-Ready :
      (answer : Result JobError JobResponse) (s : IbmCircuitJob R)
      → KeepsStatuses server.upper
      → Ready s
      → Ready
          (continue answer
            (λ response.
              ask server (λ n. api_to_job_error (server.job_metadata n))
              >>= store_response server response)
            s).1
  response-Ready (ok response) s k h =
      metadata-Ready response (api_to_job_error (server.job_metadata s.moment)) _ k h
  response-Ready (raise e) s k h = h

  pub refresh-Ready :
      (s : IbmCircuitJob R) → KeepsStatuses server.upper → Ready s → Ready (refresh server s).1
  unfolding refresh
  refresh-Ready s k h = response-Ready (api_to_job_error (server.job_get s.moment)) _ k h
