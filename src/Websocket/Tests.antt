-- ===== src/Websocket/Tests.antt =====
-- The websocket clients on concrete connections.
use qiskit_ibm_provider.Common.{
  ◌≡◌, refl, true, false, Option, none, some, [], ◌∷◌, String, str_eq, if◌then◌else◌, Result, ok,
  raise, arith,
}
use qiskit_ibm_provider.Jobs.Status.{ApiJobStatus, running, completed, in_api_job_final_states}
use qiskit_ibm_provider.Websocket.{
  WsError, websocket_error, websocket_authentication_error, Client, opened, message, closed, failed,
  Round, stream, stream_from, reset_state, disconnect, disconnects, on_open, on_error, close_code,
  on_close, answered, on_message, handle_event, run_forever, after_connection,
}
use qiskit_ibm_provider.Websocket.Retries.{stream-ends}
use qiskit_ibm_provider.Websocket.Runtime.{runtime_client, handle_message}
use qiskit_ibm_provider.Websocket.Status.{JobInfo, Response, status_client}
use qiskit_ibm_provider.Websocket.Status.Final.{Report, info_of, stream-final_status}
use qiskit_ibm_provider.Websocket.Status.Authentication.{stream-unauthenticated}

abbrev new_client : (M : Type 0) → Client M
new_client M = record {
  has_ws = false;
  authenticated = false;
  cancelled = false;
  connected = false;
  last_message = none;
  has_queue = true;
  message_queue = [];
  current_retry = 0;
  server_close_code = none;
  client_close_code = none;
  error = none;
}

abbrev report : ApiJobStatus → String → Report
report status text = record { text = text; kind = "job-status"; status = status; other = "" }

abbrev reading : String → Option Response
reading text =
    if str_eq text "ack"
    then some (record { type_ = "authenticated"; info = none })
    else if str_eq text "running"
    then some (record { type_ = "job-status"; info = some (info_of (report running "running")) })
    else some (record { type_ = "job-status"; info = some (info_of (report completed "done")) })

stream-final_status_example :
    ((stream 1000 1006
        (status_client reading 1000)
        5
        (record {
          events =
              opened ∷ message "ack" ∷ message "running" ∷ message "done" ∷ closed (some 1000) ∷ [];
          asleep = [];
        }
          ∷ [])
        (new_client JobInfo)).0
      ≡ some (ok (some (info_of (report completed "done")))))
    × ((stream 1000 1006
          (status_client reading 1000)
          5
          (record {
            events =
                opened
                ∷ message "ack"
                ∷ message "running"
                ∷ message "done"
                ∷ closed (some 1000)
                ∷ [];
            asleep = [];
          }
            ∷ [])
          (new_client JobInfo)).1.message_queue
        ≡ info_of (report completed "done") ∷ info_of (report running "running") ∷ [])
unfolding in_api_job_final_states close_code
stream-final_status_example =
    stream-final_status reading 1000 1006 5 "ack" (report running "running" ∷ [])
      (report completed "done") (some 1000) [] [] (new_client JobInfo) refl (refl, tt) (refl, tt)
      refl refl (refl, refl) (omega arith) refl

abbrev refused : Round
refused = record { events = failed "refused" ∷ closed none ∷ []; asleep = [] }

stream-unauthenticated_example :
    (stream 1000 1006 (status_client reading 1000) 5 (refused ∷ []) (new_client JobInfo)).0
    ≡ some (raise websocket_authentication_error)
stream-unauthenticated_example =
    stream-unauthenticated reading 1000 1006 5 refused [] (new_client JobInfo) (tt, (tt, tt))
      (omega arith)

stream-ends_example :
    (answer : Result WsError (Option String)) × ((stream 1000 1006 runtime_client 1
        (refused ∷ refused ∷ [])
        (new_client String)).0
      ≡ some answer)
unfolding runtime_client
stream-ends_example =
    stream-ends 1000 1006 runtime_client
      (record { after_open_keeps = λ c. refl; iteration_keeps = λ c. refl }) 1
      (refused ∷ refused ∷ []) (new_client String) ((tt, (tt, tt)), ((tt, (tt, tt)), tt))
      (omega arith)

-- After the retries are spent, the next call of `stream` fails without a connection, although the
-- server would answer at once.
second_stream_fails :
    (let first = stream 1000 1006 runtime_client 1 (refused ∷ refused ∷ []) (new_client String) in
      let good : Round = record {
        events = opened ∷ message "ack" ∷ closed (some 1000) ∷ [];
        asleep = [];
      } in
      let second = stream 1000 1006 runtime_client 1 (good ∷ []) first.1 in
      (first.0 ≡ some (raise websocket_error)) × (second.0 ≡ some (raise websocket_error)))
unfolding stream stream_from reset_state disconnect disconnects on_open on_error close_code on_close
    answered on_message handle_event run_forever after_connection runtime_client handle_message
second_stream_fails = (refl, refl)
