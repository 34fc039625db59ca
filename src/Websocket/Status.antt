-- ===== src/Websocket/Status.antt =====
-- `WebsocketClient` of qiskit_ibm_provider/api/clients/websocket.py, the client for the status of a job.
-- `parse` reads a message as JSON, and answers nothing where that raises an exception. Of the data of a
-- message the model keeps the status and the text of the rest; `send` changes nothing here.
pub mod Names
pub mod Final
pub mod Authentication
use qiskit_ibm_provider.Common.{
  ℕ, ◌==◌, ◌≡◌, ◌∙◌, refl, sym, ap, Bool, true, false, Option, none, some, List, [], ◌∷◌, ◌++◌, map,
  String, str_eq, if◌then◌else◌, leb, Result, ok, raise,
}
use qiskit_ibm_provider.Jobs.Status.{ApiJobStatus, in_api_job_final_states, api_job_status}
use qiskit_ibm_provider.Websocket.{
  CloseCode, normal, protocol_error, WsError, websocket_error, websocket_authentication_error,
  Client, Protocol, disconnect,
}

pub record JobInfo : Type 0 where
  pub status : Option String
  pub other : String

-- WebsocketResponseMethod
pub record Response : Type 0 where
  pub type_ : String
  pub info : Option JobInfo

-- The client puts a message on its queue, when it has one.
abbrev pub put_message : JobInfo → Client JobInfo → Client JobInfo
put_message info c = record c {
  last_message = some info;
  message_queue = if c.has_queue then info ∷ c.message_queue else c.message_queue;
  current_retry = 0;
}

-- What the code does with a status: an unknown one raises a ValueError, and a final one ends the
-- connection.
unfoldable pub end_if_final : String → Client JobInfo → Result String (Unit {0}) × Client JobInfo
unfolding disconnect api_job_status in_api_job_final_states
end_if_final text c = elim (api_job_status text) [
  | none ↦ (raise text, c)
  | some s ↦ (ok tt, if in_api_job_final_states s then disconnect (some normal) c else c)
]

module _ (parse : String → Option Response) where
  -- `_handle_auth_response`
  unfoldable pub handle_auth_response :
      String → Client JobInfo → Result String (Unit {0}) × Client JobInfo
  unfolding disconnect
  handle_auth_response text c = elim (parse text) [
    | none ↦ (raise text, c)
    | some r ↦ (
      ok tt,
      if str_eq r.type_ "authenticated"
          then record c { authenticated = true }
          else disconnect (some protocol_error) (record c { error = some text }),
    )
  ]

  abbrev handle_info : JobInfo → Client JobInfo → Result String (Unit {0}) × Client JobInfo
  handle_info info c = elim info.status [
    | none ↦ (ok tt, c)
    | some text ↦ if str_eq text "" then (ok tt, c) else end_if_final text c
  ]

  -- `_handle_status_response`; a message without data raises an exception.
  unfoldable pub handle_status_response :
      String → Client JobInfo → Result String (Unit {0}) × Client JobInfo
  unfolding end_if_final
  handle_status_response text c = elim (parse text) [
    | none ↦ (raise text, c)
    | some r ↦ elim r.info [
      | none ↦ (raise text, c)
      | some info ↦ handle_info info (put_message info c)
    ]
  ]

  -- `_handle_message`
  unfoldable pub handle_message :
      String → Client JobInfo → Result String (Unit {0}) × Client JobInfo
  unfolding handle_auth_response handle_status_response
  handle_message text c =
      if c.authenticated then handle_status_response text c else handle_auth_response text c

  abbrev api_status_job_done : ℕ
  api_status_job_done = 4002

  abbrev api_status_job_not_found : ℕ
  api_status_job_not_found = 4003

  abbrev is_code : ℕ → Option ℕ → Bool
  is_code k none = false
  is_code k (some code) = code == k

  -- `_handle_stream_iteration`
  unfoldable pub handle_stream_iteration :
      ℕ → Client JobInfo → Result WsError (Unit {0}) × Client JobInfo
  handle_stream_iteration status_normal c =
      let c1 =
        if is_code api_status_job_done c.server_close_code
        then record c { server_close_code = some status_normal }
        else c in
      if c.authenticated
      then (if is_code api_status_job_not_found c1.server_close_code
          then (raise websocket_error, c1)
          else (ok tt, c1))
      else (raise websocket_authentication_error, c)

  -- The methods of WebsocketClient.
  unfoldable pub status_client : ℕ → Protocol JobInfo
  unfolding handle_message handle_stream_iteration
  status_client status_normal = record {
    after_open = λ c. c;
    handle_message = handle_message;
    handle_stream_iteration = handle_stream_iteration status_normal;
  }
