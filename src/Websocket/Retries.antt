-- ===== src/Websocket/Retries.antt =====
-- `stream` ends when the connections bring no message.
use qiskit_ibm_provider.Common.{
  ℕ, suc, ◌+◌, ◌≤◌, ◌<◌, ◌≡◌, ◌∙◌, refl, ap, Bool, true, false, Option, none, some, List, [], ◌∷◌,
  if◌then◌else◌, leb, ltb, length, All, Result, ok, raise, arith, Bool-cases, Option-cases, inl,
  inr,
}
use qiskit_ibm_provider.Websocket.{
  CloseCode, normal, timeout, protocol_error, cancel, WsError, websocket_error, Client, Event,
  opened, message, closed, failed, disconnected, Round, Protocol, disconnect, reset_state, on_open,
  on_error, on_close, handle_event, run_forever, disconnects, is_normal_end, count_retry,
  end_or_retry, end_by, connection, after_iteration, after_connection, answer_or, stream_from,
  stream,
}

-- No message comes in.
abbrev pub IsQuiet : Event → Type 0
IsQuiet (message text) = ⊥
IsQuiet _ = Unit

-- What the methods of a subclass may not do: touch the counter of the retries, but in a message.
pub record KeepsRetries {M : Type 0} (p : Protocol M) : Type 0 where
  pub after_open_keeps : (c : Client M) → (p.after_open c).current_retry ≡ c.current_retry
  pub iteration_keeps :
      (c : Client M) → (p.handle_stream_iteration c).1.current_retry ≡ c.current_retry

module _ {M : Type 0} where
  disconnect-retry :
      (code : Option CloseCode) (c : Client M) → (disconnect code c).current_retry ≡ c.current_retry
  unfolding disconnect
  disconnect-retry none c = ground arith
  disconnect-retry (some k) c = ground arith

  on_open-retry : (c : Client M) → (on_open c).current_retry ≡ c.current_retry
  unfolding on_open disconnect
  on_open-retry c = ground arith

module _ {M : Type 0} (sn sa : ℕ) (p : Protocol M) where
  -- A connection that gives an answer ends `stream`.
  pub stream_from-answered :
      (retries : ℕ) (r : Round) (rs : List Round) (c d : Client M)
      (answer : Result WsError (Option M))
      → c.current_retry ≤ retries
      → after_connection sn sa p retries (connection sn sa p r c) ≡ (some answer, d)
      → stream_from sn sa p retries (r ∷ rs) c ≡ (some answer, disconnect none d)
  unfolding stream_from
  stream_from-answered retries r rs c d answer le h =
      let in_time : leb c.current_retry retries ≡ true = ground arith in
      let rest = λ (e : Client M).
        stream_from sn sa p retries rs (disconnects r.asleep (disconnect none e)) in
      rw in_time (
        ap
          (λ (ended : Option (Result WsError (Option M)) × Client M).
            answer_or sn sa p ended.0 (disconnect none ended.1) (rest ended.1))
          h)

module _ {M : Type 0} (sn sa : ℕ) (p : Protocol M) (keeps : KeepsRetries p) where
  quiet_event-retry :
      (e : Event) (c : Client M)
      → IsQuiet e
      → (handle_event sn sa p e c).current_retry ≡ c.current_retry
  unfolding handle_event on_close on_error
  quiet_event-retry opened c q = keeps.after_open_keeps (on_open c) ∙ on_open-retry c
  quiet_event-retry (message text) c q = absurd q
  quiet_event-retry (closed code) c q = refl
  quiet_event-retry (failed text) c q = refl
  quiet_event-retry (disconnected code) c q = disconnect-retry (some code) c

  quiet_connection-retry :
      (es : List Event) (c : Client M)
      → All IsQuiet es
      → (run_forever sn sa p es c).current_retry ≡ c.current_retry
  unfolding run_forever
  quiet_connection-retry [] c qs = refl
  quiet_connection-retry (e ∷ es) c (q, qs) =
      quiet_connection-retry es (handle_event sn sa p e c) qs ∙ quiet_event-retry e c q

  no_answer :
      (b : Bool) (a : Result WsError (Option M)) (c : Client M)
      (x : Option (Result WsError (Option M))) (d : Client M)
      → (if◌then◌else◌ {A = Option (Result WsError (Option M)) × Client M} b (some a, c) (x, d)).0
        ≡ none
      → (b ≡ false) × (x ≡ none)
  no_answer true a c x d h = absurd cc
  no_answer false a c x d h = (refl, h)

  disconnects-retry :
      (ks : List CloseCode) (c : Client M) → (disconnects ks c).current_retry ≡ c.current_retry
  unfolding disconnects
  disconnects-retry [] c = refl
  disconnects-retry (k ∷ ks) c =
      disconnects-retry ks (disconnect (some k) c) ∙ disconnect-retry (some k) c

  count_retry-none :
      (retries : ℕ) (c : Client M)
      → (count_retry sn sa p retries c).0 ≡ none
      → ((count_retry sn sa p retries c).1.current_retry ≡ suc c.current_retry)
        × (suc c.current_retry ≤ retries)
  count_retry-none retries c h =
      let (in_time, _) = no_answer (ltb retries (suc c.current_retry)) _ _ _ _ h in
      rw in_time (refl, ground arith)

  end_or_retry-none :
      (retries : ℕ) (c : Client M)
      → (end_or_retry sn sa p retries c).0 ≡ none
      → ((end_or_retry sn sa p retries c).1.current_retry ≡ suc c.current_retry)
        × (suc c.current_retry ≤ retries)
  end_or_retry-none retries c h =
      let (not_ended, k) = no_answer (is_normal_end sn sa p c) _ _ _ _ h in
      rw not_ended (count_retry-none retries c k)

  end_by-none :
      (code : Option CloseCode) (retries : ℕ) (c : Client M)
      → (end_by sn sa p code retries c).0 ≡ none
      → ((end_by sn sa p code retries c).1.current_retry ≡ suc c.current_retry)
        × (suc c.current_retry ≤ retries)
  end_by-none none retries c h = end_or_retry-none retries c h
  end_by-none (some normal) retries c h = absurd cc
  end_by-none (some cancel) retries c h = absurd cc
  end_by-none (some timeout) retries c h = absurd cc
  end_by-none (some protocol_error) retries c h = end_or_retry-none retries c h

  after_iteration-none :
      (handled : Result WsError (Unit {0})) (retries : ℕ) (c : Client M)
      → (after_iteration sn sa p handled retries c).0 ≡ none
      → ((after_iteration sn sa p handled retries c).1.current_retry ≡ suc c.current_retry)
        × (suc c.current_retry ≤ retries)
  after_iteration-none (raise err) retries c h = absurd cc
  after_iteration-none (ok _) retries c h = end_by-none c.client_close_code retries c h

  after_connection-none :
      (retries : ℕ) (c : Client M)
      → (after_connection sn sa p retries c).0 ≡ none
      → ((after_connection sn sa p retries c).1.current_retry ≡ suc c.current_retry)
        × (suc c.current_retry ≤ retries)
  unfolding after_connection
  after_connection-none retries c h =
      let c0 = record c { connected = false } in
      let handled = (p.handle_stream_iteration c0).0 in
      let c1 = (p.handle_stream_iteration c0).1 in
      let (counted, in_time) = after_iteration-none handled retries c1 h in
      (
        counted ∙ ap suc (keeps.iteration_keeps c0),
        omega (arith, in_time, keeps.iteration_keeps c0),
      )

  reset_state-retry : (c : Client M) → (reset_state c).current_retry ≡ c.current_retry
  unfolding reset_state
  reset_state-retry c = refl

  -- When the counter is above the retries, no connection is tried.
  stream_from-spent :
      (retries : ℕ) (rs : List Round) (c : Client M)
      → leb c.current_retry retries ≡ false
      → 1 ≤ length rs
      → (stream_from sn sa p retries rs c).0 ≡ some (raise websocket_error)
  unfolding stream_from
  stream_from-spent retries [] c h some_round = absurd (omega arith)
  stream_from-spent retries (r ∷ rs) c h some_round = rw h refl

  stream_from-ends :
      (retries : ℕ) (rs : List Round) (c : Client M)
      → All (λ r. All IsQuiet r.events) rs
      → c.current_retry ≤ retries
      → retries + 1 ≤ length rs + c.current_retry
      → (answer : Result WsError (Option M)) × ((stream_from sn sa p retries rs c).0 ≡ some answer)
  unfolding stream_from
  stream_from-ends retries [] c qs le enough = absurd (omega arith)
  stream_from-ends retries (r ∷ rs) c (q, qs) le enough =
      let in_time : leb c.current_retry retries ≡ true = ground arith in
      let c0 = reset_state (record c { has_ws = true }) in
      let c1 = connection sn sa p r c in
      let same : c1.current_retry ≡ c.current_retry =
        quiet_connection-retry r.events c0 q ∙ reset_state-retry (record c { has_ws = true }) in
      let ended = after_connection sn sa p retries c1 in
      let c2 = disconnects r.asleep (disconnect none ended.1) in
      elim (Option-cases ended.0) [
        | inr (answer, e) ↦ rw (in_time, e) (answer, refl)
        | inl e ↦
            let (counted, more) = after_connection-none retries c1 e in
            let now : c2.current_retry ≡ suc c.current_retry =
              disconnects-retry r.asleep (disconnect none ended.1)
              ∙ disconnect-retry none ended.1
              ∙ counted
              ∙ ap suc same in
            let (answer, found) =
              stream_from-ends retries rs c2 qs (omega (arith, now, more, same))
                (omega (arith, now, enough)) in
            (answer, rw (in_time, e) found)
      ]

  -- When no message comes in, `stream` gives an answer after at most one connection more than the
  -- retries, whatever the connections do, and whatever its counter is at first: the last message, or
  -- an exception. The methods of the subclass leave the counter alone when there is no message.
  pub stream-ends :
      (retries : ℕ) (rs : List Round) (c : Client M)
      → All (λ r. All IsQuiet r.events) rs
      → retries < length rs
      → (answer : Result WsError (Option M)) × ((stream sn sa p retries rs c).0 ≡ some answer)
  unfolding stream reset_state
  stream-ends retries rs c qs enough =
      let c1 = record (reset_state c) { cancelled = false } in
      elim (Bool-cases (leb c.current_retry retries)) [
        | inl h ↦ stream_from-ends retries rs c1 qs (ground arith) (omega arith)
        | inr h ↦ (raise websocket_error, stream_from-spent retries rs c1 h (omega arith))
      ]
