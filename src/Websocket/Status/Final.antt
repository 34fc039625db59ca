-- ===== src/Websocket/Status/Final.antt =====
-- What the client for the status of a job answers: the final status, and nothing without the
-- authentication.
use qiskit_ibm_provider.Common.{
  arith, ◌==◌, Bool-cases, inl, inr, ℕ, ◌≤◌, ◌≡◌, ◌∙◌, refl, ap, Bool, true, false, Option, none,
  some, List, [], ◌∷◌, ◌++◌, map, String, if◌then◌else◌, All, Result, ok,
}
use qiskit_ibm_provider.Jobs.Status.{ApiJobStatus, in_api_job_final_states, status_value}
use qiskit_ibm_provider.Websocket.{
  CloseCode, normal, WsError, Client, Event, opened, message, closed, close_code, on_close, Round,
  disconnect, reset_state, on_open, answered, on_message, handle_event, run_forever,
  after_connection, stream,
}
use qiskit_ibm_provider.Websocket.Status.Names.{api_job_status-status_value, status_value-not_empty}
use qiskit_ibm_provider.Websocket.Retries.{stream_from-answered}
use qiskit_ibm_provider.Websocket.Status.{
  JobInfo, Response, end_if_final, handle_auth_response, handle_status_response, handle_message,
  handle_stream_iteration, status_client,
}

-- A message of the server about the status of the job.
pub record Report : Type 0 where
  pub text : String
  pub kind : String
  pub status : ApiJobStatus
  pub other : String

abbrev pub info_of : Report → JobInfo
info_of r = record { status = some (status_value r.status); other = r.other }

abbrev pub report_event : Report → Event
report_event r = message r.text

-- The infos of reports put on a queue, the last one first.
abbrev pub queued_onto : List Report → List JobInfo → List JobInfo
queued_onto [] q = q
queued_onto (r ∷ rs) q = queued_onto rs (info_of r ∷ q)

-- A client that is connected and authenticated, and has nothing else to say.
abbrev live : Bool → Option JobInfo → List JobInfo → ℕ → Client JobInfo
live has_queue last queue retry = record {
  has_ws = true;
  authenticated = true;
  cancelled = false;
  connected = true;
  last_message = last;
  has_queue = has_queue;
  message_queue = queue;
  current_retry = retry;
  server_close_code = none;
  client_close_code = none;
  error = none;
}

disconnect-message_queue :
    (c : Client JobInfo) → (disconnect none c).message_queue ≡ c.message_queue
unfolding disconnect
disconnect-message_queue c = ground arith

module _ (parse : String → Option Response) (sn sa : ℕ) where
  -- The message is read as the report.
  abbrev pub Reads : Report → Type 0
  Reads r = parse r.text ≡ some (record { type_ = r.kind; info = some (info_of r) })

  -- The client after a message with the report.
  abbrev next_live : Report → Bool → List JobInfo → Client JobInfo
  next_live r has_queue queue =
      live has_queue (some (info_of r)) (if has_queue then info_of r ∷ queue else queue) 0

  report-answer :
      (r : Report) (has_queue : Bool) (last : Option JobInfo) (queue : List JobInfo) (retry : ℕ)
      → Reads r
      → handle_status_response parse r.text (live has_queue last queue retry) ≡ (
        ok tt,
        (let c = next_live r has_queue queue in
            if in_api_job_final_states r.status then disconnect (some normal) c else c),
      )
  unfolding handle_status_response end_if_final
  report-answer r has_queue last queue retry h =
      rw
        (
          handle_status_response,
          h,
          status_value-not_empty r.status,
          end_if_final,
          api_job_status-status_value r.status,
        )
        refl

  report-handled :
      (r : Report) (has_queue : Bool) (last : Option JobInfo) (queue : List JobInfo) (retry : ℕ)
      → Reads r
      → handle_event sn sa
          (status_client parse sn)
          (report_event r)
          (live has_queue last queue retry)
        ≡ (let c = next_live r has_queue queue in
            if in_api_job_final_states r.status then disconnect (some normal) c else c)
  unfolding handle_event on_message status_client handle_message answered
  report-handled r has_queue last queue retry h =
      ap (λ (a : Result String (Unit {0}) × Client JobInfo). answered a.0 a.1)
        (report-answer r has_queue last queue retry h)

  final-handled :
      (r : Report) (last : Option JobInfo) (queue : List JobInfo) (retry : ℕ)
      → Reads r
      → in_api_job_final_states r.status ≡ true
      → handle_event sn sa (status_client parse sn) (report_event r) (live true last queue retry)
        ≡ disconnect (some normal) (live true (some (info_of r)) (info_of r ∷ queue) 0)
  final-handled r last queue retry h f = report-handled r true last queue retry h ∙ rw f refl

  -- The client after the final message, on which it has closed the connection, and after `on_close`.
  abbrev ended : Option ℕ → JobInfo → List JobInfo → Client JobInfo
  ended code last queue =
      handle_event sn sa (status_client parse sn) (closed code)
        (disconnect (some normal) (live true (some last) queue 0))

  abbrev pub IsOpen : Report → Type 0
  IsOpen r = in_api_job_final_states r.status ≡ false

  reports-handled :
      (code : Option ℕ) (rs : List Report) (last : Option JobInfo) (queue : List JobInfo)
      (retry : ℕ)
      → All Reads rs
      → All IsOpen rs
      → (final : Report) → Reads final
      → in_api_job_final_states final.status ≡ true
      → run_forever sn sa
          (status_client parse sn)
          (map report_event rs ++ (report_event final ∷ closed code ∷ []))
          (live true last queue retry)
        ≡ ended code (info_of final) (info_of final ∷ queued_onto rs queue)
  unfolding run_forever
  reports-handled code [] last queue retry reads opens final h f =
      ap (handle_event sn sa (status_client parse sn) (closed code))
        (final-handled final last queue retry h f)
  reports-handled code (r ∷ rs) last queue retry (read, reads) (o, opens) final h f =
      let first = report-handled r true last queue retry read ∙ rw o refl in
      ap
        (run_forever sn sa (status_client parse sn)
          (map report_event rs ++ (report_event final ∷ closed code ∷ [])))
        first
      ∙ reports-handled code rs (some (info_of r)) (info_of r ∷ queue) 0 reads opens final h f

  -- The connection is open, and the server acknowledges the authentication.
  acknowledged :
      (ack : String) (r : Client JobInfo) (es : List Event)
      → parse ack ≡ some (record { type_ = "authenticated"; info = none })
      → run_forever sn sa
          (status_client parse sn)
          (opened ∷ message ack ∷ es)
          (reset_state (record r { has_ws = true; cancelled = false }))
        ≡ run_forever sn sa
            (status_client parse sn)
            es
            (live r.has_queue r.last_message r.message_queue r.current_retry)
  unfolding run_forever handle_event on_open on_message answered status_client handle_message
      handle_auth_response reset_state
  acknowledged ack r es h = rw (handle_auth_response, h) refl

  -- Neither the code with which the connection closes nor the one of a normal end is that of a job that
  -- is not found, 4003.
  abbrev pub IsFound : Option ℕ → Type 0
  IsFound code =
      ((close_code sn sa (status_client parse sn) code == 4003) ≡ false) × ((sn == 4003) ≡ false)

  -- The answer with the last message, and the queue.
  abbrev Answers :
      JobInfo → List JobInfo → Option (Result WsError (Option JobInfo)) × Client JobInfo → Type 0
  Answers last queue (answer, c) = (answer ≡ some (ok (some last))) × (c.message_queue ≡ queue)

  final_answer :
      (retries : ℕ) (code : Option ℕ) (last : JobInfo) (queue : List JobInfo)
      → IsFound code
      → Answers last queue
          (after_connection sn sa (status_client parse sn) retries (ended code last queue))
  unfolding after_connection status_client handle_stream_iteration disconnect handle_event on_close
  final_answer retries code last queue (k, n) =
      elim (Bool-cases (close_code sn sa (status_client parse sn) code == 4002)) [
        | inl e ↦ rw (e, n) (refl, refl)
        | inr e ↦ rw (e, k) (refl, refl)
      ]

  -- Once the connection is open and the server has acknowledged the authentication, the client reads
  -- messages until one has a final status; then it closes the connection, and `on_close` is called with
  -- any code but 4003, that of a job that is not found. `stream` answers the final message, and each
  -- message has been put on the queue. The messages are read as reports, and the counter of the retries
  -- is not spent.
  pub stream-final_status :
      (retries : ℕ) (ack : String) (rs : List Report) (final : Report) (code : Option ℕ)
      (asleep : List CloseCode) (rounds : List Round) (c : Client JobInfo)
      → parse ack ≡ some (record { type_ = "authenticated"; info = none })
      → All Reads rs
      → All IsOpen rs
      → Reads final
      → in_api_job_final_states final.status ≡ true
      → IsFound code
      → c.current_retry ≤ retries
      → c.has_queue ≡ true
      → (let r : Round = record {
        events =
            opened ∷ message ack ∷ (map report_event rs ++ (report_event final ∷ closed code ∷ []));
        asleep = asleep;
      } in
          let answer = stream sn sa (status_client parse sn) retries (r ∷ rounds) c in
          (answer.0 ≡ some (ok (some (info_of final))))
          × (answer.1.message_queue ≡ info_of final ∷ queued_onto rs c.message_queue))
  unfolding stream disconnect reset_state
  stream-final_status retries ack rs final code asleep rounds c h reads opens read f found in_time
        queue =
      let events = map report_event rs ++ (report_event final ∷ closed code ∷ []) in
      let r : Round = record { events = opened ∷ message ack ∷ events; asleep = asleep } in
      let messages = info_of final ∷ queued_onto rs c.message_queue in
      let all_read =
        acknowledged ack c events h
        ∙ ap
            (λ b.
              run_forever sn sa (status_client parse sn) events
                (live b c.last_message c.message_queue c.current_retry))
            queue
        ∙ reports-handled code rs c.last_message c.message_queue c.current_retry reads opens final
            read f in
      let result =
        after_connection sn sa (status_client parse sn) retries
          (ended code (info_of final) messages) in
      let (answer, kept) = final_answer retries code (info_of final) messages found in
      let answered_by =
        stream_from-answered sn sa (status_client parse sn) retries r rounds
          (record (reset_state c) { cancelled = false }) result.1 (ok (some (info_of final)))
          in_time
          (ap (after_connection sn sa (status_client parse sn) retries) all_read
            ∙ (λ i. (answer i, result.1))) in
      (
        ap (λ (a : Option (Result WsError (Option JobInfo)) × Client JobInfo). a.0) answered_by,
        ap (λ (a : Option (Result WsError (Option JobInfo)) × Client JobInfo). a.1.message_queue)
              answered_by
            ∙ disconnect-message_queue result.1
            ∙ kept,
      )
