-- ===== src/Client/Dispatcher/Answers.antt =====
-- Which response a pending request gets from `handle_response`, and what the handler gets.
use rabbitmq_stream_rust_cli.Prelude.{
  ℕ, ◌≡◌, refl, Bool, true, false, not, ◌&&◌, Bool-cases, inl, inr, Option, none, some, List, [],
  ◌∷◌, ◌++◌, append-nil, ◌==◌, ==_iff, ==_refl, if◌then◌else◌,
}
use rabbitmq_stream_rust_cli.Crates.{DashMap}
use rabbitmq_stream_rust_cli.Response.{Response, correlation_id}
use rabbitmq_stream_rust_cli.Client.Dispatcher.{
  DispatcherState, Received, response, failure, Event, sent, handled, handled_error, handled_end,
  Run, is_consumer_update, remove, dispatch, notify, close_state, sent_by, route, handle_item,
  handle_response,
}

abbrev pub takes : ℕ → Bool → Option ℕ → Bool
takes id update none = false
takes id update (some c) = (c == id) && not update

and_false : (b : Bool) → (b && false) ≡ false
and_false true = refl
and_false false = refl

and_true : (b : Bool) → (b && true) ≡ b
and_true true = refl
and_true false = refl

-- The sender of a pending request.
abbrev pub pending :
    {Sender : Type 0} ⦃d : DashMap Sender⦄ → ℕ → DispatcherState Sender → Option Sender
pending ⦃d⦄ id s = d.get id s.requests.requests

module _ {Message : Type 0} where
  -- Whether a response answers the request with the correlation id.
  abbrev pub answers : ℕ → Response Message → Bool
  answers id r = takes id (is_consumer_update r.kind) (correlation_id r)

  -- The first response on the stream, before it fails or ends, that answers the request.
  abbrev pub answer : ℕ → List (Received Message) → Option (Response Message)
  answer id [] = none
  answer id (failure e ∷ stream) = none
  answer id (response r ∷ stream) = if answers id r then some r else answer id stream

  module _ {Sender : Type 0} where
    -- What was sent to the request with the correlation id, in order.
    abbrev pub sent_to : ℕ → List (Event Message Sender) → List (Sender × Response Message)
    sent_to id [] = []
    sent_to id (sent c tx r ∷ es) = if c == id then (tx, r) ∷ sent_to id es else sent_to id es
    sent_to id (handled r ∷ es) = sent_to id es
    sent_to id (handled_error e ∷ es) = sent_to id es
    sent_to id (handled_end ∷ es) = sent_to id es

    -- The one answer of a pending request.
    abbrev pub once : Option Sender → Option (Response Message) → List (Sender × Response Message)
    once (some tx) (some r) = (tx, r) ∷ []
    once (some tx) none = []
    once none r = []

    once-none : (o : Option Sender) → once o none ≡ []
    once-none none = refl
    once-none (some tx) = refl

    pub sent_to_append :
        (id : ℕ) (es fs : List (Event Message Sender))
        → sent_to id (es ++ fs) ≡ sent_to id es ++ sent_to id fs
    sent_to_append id [] fs = refl
    sent_to_append id (sent c tx r ∷ es) fs = elim (Bool-cases (c == id)) [
      | inl same ↦ rw (same, sent_to_append id es fs)
      | inr other ↦ rw (other, sent_to_append id es fs)
    ]
    sent_to_append id (handled r ∷ es) fs = sent_to_append id es fs
    sent_to_append id (handled_error e ∷ es) fs = sent_to_append id es fs
    sent_to_append id (handled_end ∷ es) fs = sent_to_append id es fs

    module _ ⦃d : DashMap Sender⦄ where
      -- What one turn of the loop means for one request.
      abbrev pub Turn :
          ℕ → Response Message → DispatcherState Sender → Run Message Sender → Bool → Type 0
      Turn id r s run true =
          (sent_to id run.1 ≡ once (pending id s) (some r)) × (pending id run.0 ≡ none)
      Turn id r s run false = (sent_to id run.1 ≡ []) × (pending id run.0 ≡ pending id s)

      sent_by_same :
          (id : ℕ) (r : Response Message) (o : Option Sender)
          → sent_to id (sent_by id r o) ≡ once o (some r)
      sent_by_same id r none = refl
      sent_by_same id r (some tx) = rw (==_refl id)

      sent_by_other :
          (id c : ℕ) (r : Response Message) (o : Option Sender)
          → (c == id) ≡ false
          → sent_to id (sent_by c r o) ≡ []
      sent_by_other id c r none h = refl
      sent_by_other id c r (some tx) h = rw h

      notify-Turn :
          (id : ℕ) (r : Response Message) (s : DispatcherState Sender)
          → (sent_to id (notify r s).1 ≡ []) × (pending id (notify r s).0 ≡ pending id s)
      unfolding notify
      notify-Turn id r s = elim (Bool-cases s.handler) [
        | inl there ↦ (rw there, refl)
        | inr missing ↦ (rw missing, refl)
      ]

      dispatch_same :
          (id : ℕ) (r : Response Message) (s : DispatcherState Sender)
          → (sent_to id (dispatch id r s).1 ≡ once (pending id s) (some r))
            × (pending id (dispatch id r s).0 ≡ none)
      unfolding dispatch remove
      dispatch_same id r s = (
        rw (d.remove-get id s.requests.requests) (sent_by_same id r (pending id s)),
        d.get-remove id s.requests.requests,
      )

      dispatch_other :
          (id c : ℕ) (r : Response Message) (s : DispatcherState Sender)
          → (c == id) ≡ false
          → (sent_to id (dispatch c r s).1 ≡ []) × (pending id (dispatch c r s).0 ≡ pending id s)
      unfolding dispatch remove
      dispatch_other id c r s h = (
        sent_by_other id c r (d.remove c s.requests.requests).0 h,
        d.get-remove_other c id s.requests.requests (λ same. absurd (cc (==_refl c))),
      )

      dispatch-Turn :
          (id c : ℕ) (r : Response Message) (s : DispatcherState Sender)
          → Turn id r s (dispatch c r s) (c == id)
      dispatch-Turn id c r s = elim (Bool-cases (c == id)) [
        | inl same ↦
            let equal = (==_iff c id).0 same in rw (equal, ==_refl id) (dispatch_same id r s)
        | inr other ↦ rw other (dispatch_other id c r s other)
      ]

      route-Turn :
          (id : ℕ) (r : Response Message) (s : DispatcherState Sender) (o : Option ℕ)
          → Turn id r s (route o r s) (takes id (is_consumer_update r.kind) o)
      route-Turn id r s none = notify-Turn id r s
      route-Turn id r s (some c) = elim (Bool-cases (is_consumer_update r.kind)) [
        | inl update ↦ rw (update, and_false (c == id)) (notify-Turn id r s)
        | inr reply ↦ rw (reply, and_true (c == id)) (dispatch-Turn id c r s)
      ]

      close_sends :
          (id : ℕ) (s : DispatcherState Sender)
          → sent_to id (close_state Message none s).1 ≡ once (pending id s) none
      unfolding close_state
      close_sends id s = elim (Bool-cases s.handler) [
        | inl there ↦ rw (there, once-none (pending id s))
        | inr missing ↦ rw (missing, once-none (pending id s))
      ]

      pub item-Turn :
          (id : ℕ) (r : Response Message) (s : DispatcherState Sender)
          → Turn id r s (handle_item r s) (answers id r)
      unfolding handle_item
      item-Turn id r s = route-Turn id r s (correlation_id r)

      -- Of a pending request, `handle_response` sends its sender the first response of the stream that
      -- carries the request's correlation id and is no consumer update, and sends it nothing more,
      -- whatever else the stream holds; without such a response before the stream fails or ends, and
      -- when no request is pending under the id, it sends nothing under the id.
      pub sent_to-handle_response :
          (id : ℕ) (stream : List (Received Message)) (s : DispatcherState Sender)
          → sent_to id (handle_response stream s).1 ≡ once (pending id s) (answer id stream)
      unfolding handle_response
      sent_to-handle_response id [] s = close_sends id s
      sent_to-handle_response id (failure e ∷ stream) s = close_sends id s
      sent_to-handle_response id (response r ∷ stream) s =
          let next : DispatcherState Sender = (handle_item r s).0 in
          let later = sent_to-handle_response id stream next in
          let split = sent_to_append id (handle_item r s).1 (handle_response stream next).1 in
          elim (Bool-cases (answers id r)) [
            | inl mine ↦
                let turn = rw mine at (item-Turn id r s) in
                rw (mine, split, later, turn.0, turn.1, append-nil)
            | inr other ↦
                let turn = rw other at (item-Turn id r s) in
                rw (other, split, later, turn.0, turn.1)
          ]
