-- ===== src/Websocket.antt =====
-- The websocket clients of qiskit_ibm_provider/api/clients: `BaseWebsocketClient` of base.py. What a
-- connection does is a list of events, in the order in which `run_forever` calls the handlers; a call
-- of `disconnect` by another thread is an event too. The codes of the websocket library are parameters.
mod Tests
pub mod Status
pub mod Runtime
pub mod Retries
use qiskit_ibm_provider.Common.{
  ℕ, suc, ◌==◌, ◌&&◌, ◌||◌, not, Bool, true, false, Option, none, some, List, [], ◌∷◌, ◌++◌, String,
  if◌then◌else◌, leb, ltb, Result, ok, raise,
}

-- WebsocketClientCloseCode
pub data CloseCode : Type 0 where
  normal timeout protocol_error cancel : CloseCode

abbrev pub is_cancel : CloseCode → Bool
is_cancel cancel = true
is_cancel _ = false

-- The exceptions of api/exceptions.py that the clients raise.
pub data WsError : Type 0 where
  websocket_error websocket_timeout_error websocket_authentication_error : WsError

-- The fields of BaseWebsocketClient; `M` is what a client makes of a message. The queue has the last
-- message first; `has_queue` tells whether one was given, `has_ws` whether `_ws` is set.
pub record Client (M : Type 0) : Type 0 where
  pub has_ws : Bool
  pub authenticated : Bool
  pub cancelled : Bool
  pub connected : Bool
  pub last_message : Option M
  pub has_queue : Bool
  pub message_queue : List M
  pub current_retry : ℕ
  pub server_close_code : Option ℕ
  pub client_close_code : Option CloseCode
  pub error : Option String

pub data Event : Type 0 where
  opened : Event
  message : String → Event
  closed : Option ℕ → Event
  failed : String → Event
  disconnected : CloseCode → Event

-- What happens from one connection to the next: the events of the connection, and the calls of
-- `disconnect` while `stream` sleeps.
pub record Round : Type 0 where
  pub events : List Event
  pub asleep : List CloseCode

module _ {M : Type 0} where
  -- `disconnect`
  unfoldable pub disconnect : Option CloseCode → Client M → Client M
  disconnect code c =
      let c1 = if c.has_ws then record c { client_close_code = code } else c in
      elim code [ none ↦ c1 | some k ↦ if is_cancel k then record c1 { cancelled = true } else c1 ]

  unfoldable pub disconnects : List CloseCode → Client M → Client M
  unfolding disconnect
  disconnects [] c = c
  disconnects (k ∷ ks) c = disconnects ks (disconnect (some k) c)

  -- `_reset_state`
  unfoldable pub reset_state : Client M → Client M
  reset_state c = record c {
    authenticated = false;
    connected = false;
    error = none;
    server_close_code = none;
    client_close_code = none;
  }

  -- `on_open` of the base class.
  unfoldable pub on_open : Client M → Client M
  unfolding disconnect
  on_open c =
      let c1 = record c { connected = true } in
      if c.cancelled then disconnect (some cancel) c1 else c1

  -- `on_error`
  unfoldable pub on_error : String → Client M → Client M
  on_error text c = record c { error = some text }

  -- An exception of `_handle_message` ends the connection.
  unfoldable pub answered : Result String (Unit {0}) → Client M → Client M
  unfolding disconnect
  answered (ok _) c = c
  answered (raise err) c = disconnect (some protocol_error) (record c { error = some err })

-- What a subclass defines: `on_open` after that of the base class, `_handle_message`, which may raise,
-- and `_handle_stream_iteration`.
pub record Protocol (M : Type 0) : Type 0 where
  pub after_open : Client M → Client M
  pub handle_message : String → Client M → Result String (Unit {0}) × Client M
  pub handle_stream_iteration : Client M → Result WsError (Unit {0}) × Client M

module _ {M : Type 0} (status_normal status_abnormal_closed : ℕ) (protocol : Protocol M) where
  -- `status_code or STATUS_ABNORMAL_CLOSED`
  unfoldable pub close_code : Option ℕ → ℕ
  close_code none = status_abnormal_closed
  close_code (some code) = if code == 0 then status_abnormal_closed else code

  -- `on_close`
  unfoldable pub on_close : Option ℕ → Client M → Client M
  unfolding close_code
  on_close code c = record c { server_close_code = some (close_code code); connected = false }

  -- `on_message`
  unfoldable pub on_message : String → Client M → Client M
  unfolding answered
  on_message text c = let (answer, c1) = protocol.handle_message text c in answered answer c1

  unfoldable pub handle_event : Event → Client M → Client M
  unfolding on_open on_message on_close on_error disconnect
  handle_event opened c = protocol.after_open (on_open c)
  handle_event (message text) c = on_message text c
  handle_event (closed code) c = on_close code c
  handle_event (failed text) c = on_error text c
  handle_event (disconnected code) c = disconnect (some code) c

  -- `run_forever`
  unfoldable pub run_forever : List Event → Client M → Client M
  unfolding handle_event
  run_forever [] c = c
  run_forever (e ∷ es) c = run_forever es (handle_event e c)

  abbrev pub is_normal_end : Client M → Bool
  is_normal_end c = elim c.server_close_code [
    | none ↦ false
    | some code ↦ elim c.error [ none ↦ code == status_normal | some _ ↦ false ]
  ]

  abbrev pub count_retry : ℕ → Client M → Option (Result WsError (Option M)) × Client M
  count_retry retries c =
      let c1 = record c { current_retry = suc c.current_retry } in
      if ltb retries c1.current_retry then (some (raise websocket_error), c1) else (none, c1)

  abbrev pub end_or_retry : ℕ → Client M → Option (Result WsError (Option M)) × Client M
  end_or_retry retries c =
      if is_normal_end c then (some (ok c.last_message), c) else count_retry retries c

  -- What the code that the client has closed the connection with means.
  abbrev pub end_by :
      Option CloseCode → ℕ → Client M → Option (Result WsError (Option M)) × Client M
  end_by (some normal) retries c = (some (ok c.last_message), c)
  end_by (some cancel) retries c = (some (ok c.last_message), c)
  end_by (some timeout) retries c = (some (raise websocket_timeout_error), c)
  end_by _ retries c = end_or_retry retries c

  abbrev pub after_iteration :
      Result WsError (Unit {0}) → ℕ → Client M → Option (Result WsError (Option M)) × Client M
  after_iteration (raise err) retries c = (some (raise err), c)
  after_iteration (ok _) retries c = end_by c.client_close_code retries c

  -- The body of `stream` after `run_forever`: what it answers, or nothing when there is a retry.
  unfoldable pub after_connection : ℕ → Client M → Option (Result WsError (Option M)) × Client M
  after_connection retries c =
      let (handled, c1) = protocol.handle_stream_iteration (record c { connected = false }) in
      after_iteration handled retries c1

  abbrev pub connection : Round → Client M → Client M
  connection r c = run_forever r.events (reset_state (record c { has_ws = true }))

  -- The answer of a connection, or what comes after a retry.
  abbrev pub answer_or :
      Option (Result WsError (Option M))
      → Client M
      → Option (Result WsError (Option M)) × Client M
      → Option (Result WsError (Option M)) × Client M
  answer_or (some answer) c rest = (some answer, c)
  answer_or none c rest = rest

  -- The `while` loop of `stream`, for as many connections as there are rounds.
  unfoldable pub stream_from :
      ℕ → List Round → Client M → Option (Result WsError (Option M)) × Client M
  unfolding reset_state run_forever after_connection disconnect disconnects
  stream_from retries [] c = (none, c)
  stream_from retries (r ∷ rs) c =
      let ended = after_connection retries (connection r c) in
      let c1 = disconnect none ended.1 in
      let rest = stream_from retries rs (disconnects r.asleep c1) in
      if leb c.current_retry retries
      then answer_or ended.0 c1 rest
      else (some (raise websocket_error), c)

  -- `stream`
  unfoldable pub stream : ℕ → List Round → Client M → Option (Result WsError (Option M)) × Client M
  unfolding reset_state stream_from
  stream retries rounds c =
      stream_from retries rounds (record (reset_state c) { cancelled = false })
