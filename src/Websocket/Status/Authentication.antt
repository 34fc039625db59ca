-- ===== src/Websocket/Status/Authentication.antt =====
-- The client for the status of a job gives up when a connection ends before the server has
-- acknowledged the authentication.
use qiskit_ibm_provider.Common.{
  ℕ, ◌≤◌, ◌≡◌, ◌∙◌, refl, ap, Bool, true, false, Option, some, List, [], ◌∷◌, String, if◌then◌else◌,
  All, Result, raise, arith,
}
use qiskit_ibm_provider.Websocket.{
  WsError, websocket_authentication_error, Client, Event, opened, message, closed, failed,
  disconnected, Round, disconnect, reset_state, on_open, on_error, on_close, handle_event,
  run_forever, after_iteration, after_connection, connection, stream,
}
use qiskit_ibm_provider.Websocket.Retries.{IsQuiet, stream_from-answered}
use qiskit_ibm_provider.Websocket.Status.{JobInfo, Response, handle_stream_iteration, status_client}

module _ (parse : String → Option Response) (sn sa : ℕ) where
  quiet_event-authenticated :
      (e : Event) (c : Client JobInfo)
      → IsQuiet e
      → (handle_event sn sa (status_client parse sn) e c).authenticated ≡ c.authenticated
  unfolding handle_event on_open disconnect on_close on_error status_client
  quiet_event-authenticated opened c q = ground arith
  quiet_event-authenticated (message text) c q = absurd q
  quiet_event-authenticated (closed code) c q = refl
  quiet_event-authenticated (failed text) c q = refl
  quiet_event-authenticated (disconnected code) c q = ground arith

  quiet-authenticated :
      (es : List Event) (c : Client JobInfo)
      → All IsQuiet es
      → (run_forever sn sa (status_client parse sn) es c).authenticated ≡ c.authenticated
  unfolding run_forever
  quiet-authenticated [] c qs = refl
  quiet-authenticated (e ∷ es) c (q, qs) =
      quiet-authenticated es (handle_event sn sa (status_client parse sn) e c) qs
      ∙ quiet_event-authenticated e c q

  if_false : {A : Type 0} (b : Bool) (x y : A) → b ≡ false → (if b then x else y) ≡ y
  if_false b x y h = rw h refl

  not_authenticated :
      (retries : ℕ) (c : Client JobInfo)
      → c.authenticated ≡ false
      → after_connection sn sa (status_client parse sn) retries c
        ≡ (some (raise websocket_authentication_error), record c { connected = false })
  unfolding after_connection status_client handle_stream_iteration
  not_authenticated retries c h =
      ap
        (λ (a : Result WsError (Unit {0}) × Client JobInfo).
          after_iteration sn sa (status_client parse sn) a.0 retries a.1)
        (if_false c.authenticated _
          (raise websocket_authentication_error, record c { connected = false }) h)

  -- A connection that ends before any message has come in is not tried again, however many retries
  -- there are and whatever else happens: `stream` raises WebsocketAuthenticationError.
  pub stream-unauthenticated :
      (retries : ℕ) (r : Round) (rounds : List Round) (c : Client JobInfo)
      → All IsQuiet r.events
      → c.current_retry ≤ retries
      → (stream sn sa (status_client parse sn) retries (r ∷ rounds) c).0
        ≡ some (raise websocket_authentication_error)
  unfolding stream reset_state
  stream-unauthenticated retries r rounds c quiet in_time =
      let c1 = record (reset_state c) { cancelled = false } in
      let c2 = connection sn sa (status_client parse sn) r c1 in
      ap (λ (a : Option (Result WsError (Option JobInfo)) × Client JobInfo). a.0)
        (stream_from-answered sn sa (status_client parse sn) retries r rounds c1
          (record c2 { connected = false }) (raise websocket_authentication_error) in_time
          (not_authenticated retries c2
            (quiet-authenticated r.events (reset_state (record c1 { has_ws = true })) quiet)))
