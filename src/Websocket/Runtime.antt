-- ===== src/Websocket/Runtime.antt =====
-- `RuntimeWebsocketClient` of qiskit_ibm_provider/api/clients/runtime_ws.py, which has a queue.
use qiskit_ibm_provider.Common.{true, ◌∷◌, String, if◌then◌else◌, Result, ok}
use qiskit_ibm_provider.Websocket.{Client, Protocol}

-- `_handle_message`: the first message acknowledges the connection.
unfoldable pub handle_message : String → Client String → Result String (Unit {0}) × Client String
handle_message text c = (
  ok tt,
  if c.authenticated
      then record c { message_queue = text ∷ c.message_queue; current_retry = 0 }
      else record c { authenticated = true },
)

-- The methods of RuntimeWebsocketClient.
unfoldable pub runtime_client : Protocol String
unfolding handle_message
runtime_client = record {
  after_open = λ c. c;
  handle_message = handle_message;
  handle_stream_iteration = λ c. (ok tt, c);
}
