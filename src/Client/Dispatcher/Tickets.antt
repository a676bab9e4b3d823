-- ===== src/Client/Dispatcher/Tickets.antt =====
-- Correlation ids: each request gets one of its own, and its answer finds it.
use rabbitmq_stream_rust_cli.Prelude.{
  ℕ, suc, ◌+◌, ◌%◌, ◌<◌, ◌≤◌, ◌≡◌, ◌≢◌, refl, ◌∙◌, false, Bool-cases, inl, inr, ◌==◌, ==_iff,
  Option, List, none, some, [], ◌∷◌, arith,
}
use rabbitmq_stream_rust_cli.Codec.Ints.{u32_mod}
use rabbitmq_stream_rust_cli.Crates.{DashMap}
use rabbitmq_stream_rust_cli.Errors.{ClientError}
use rabbitmq_stream_rust_cli.Response.{Response, correlation_id}
use rabbitmq_stream_rust_cli.Client.Dispatcher.{
  DispatcherState, sent, is_consumer_update, store, insert_during, insert, remove, close_map, new,
  response_channel, set_handler, dispatch, notify, close_state, route, handle_item,
}
use rabbitmq_stream_rust_cli.Client.Dispatcher.Answers.{pending, sent_to}
use rabbitmq_stream_rust_cli.Client.Dispatcher.Steps.{
  Step, run_steps, channels, Unanswered, asked_counter, channel_asked, item_answers,
  pending-run_steps,
}

module _ (Message : Type 0) {Sender : Type 0} ⦃d : DashMap Sender⦄ where
  -- The states that a dispatcher gets to, with the number of channels that were asked for.
  pub data Reached : ℕ → DispatcherState Sender → Type 0 where
    created : Reached 0 new
    asked :
        (n : ℕ) (s : DispatcherState Sender) (tx : Sender)
        → Reached n s
        → Reached (suc n) (response_channel tx s).0
    handler_set : (n : ℕ) (s : DispatcherState Sender) → Reached n s → Reached n (set_handler s)
    received :
        (n : ℕ) (s : DispatcherState Sender) (r : Response Message)
        → Reached n s
        → Reached n (handle_item r s).0
    ended :
        (n : ℕ) (s : DispatcherState Sender) (e : Option ClientError)
        → Reached n s
        → Reached n (close_state Message e s).0

module _ {Sender : Type 0} ⦃d : DashMap Sender⦄ where
  -- The next correlation id is the number of channels, and no later id is pending.
  record IsIssued (n : ℕ) (s : DispatcherState Sender) : Type 0 where
    counter : s.correlation_id ≡ n % u32_mod
    unused : (id : ℕ) → n ≤ id → pending id s ≡ none

  asked-IsIssued :
      (n : ℕ) (tx : Sender) (s : DispatcherState Sender)
      → n < u32_mod
      → IsIssued n s
      → IsIssued (suc n) (response_channel tx s).0
  unfolding response_channel insert insert_during store
  asked-IsIssued n tx s small h = record {
    counter = omega (arith, h.counter);
    unused = λ id later. elim (Bool-cases s.requests.closed) [
      | inl shut ↦ rw shut (h.unused id (omega arith))
      | inr live ↦ rw live (
          d.get-insert_other s.correlation_id id tx s.requests.requests
            (λ same. absurd (omega (arith, h.counter)))
          ∙ h.unused id (omega arith))
    ];
  }

  removed_unused :
      (c id : ℕ) (s : DispatcherState Sender)
      → pending id s ≡ none
      → d.get id (d.remove c s.requests.requests).1 ≡ none
  removed_unused c id s h = elim (Bool-cases (id == c)) [
    | inl same ↦ let equal = (==_iff id c).0 same in rw equal (d.get-remove c s.requests.requests)
    | inr other ↦ d.get-remove_other c id s.requests.requests (λ same. absurd (ground arith)) ∙ h
  ]

  module _ {Message : Type 0} where
    route-IsIssued :
        (n : ℕ) (r : Response Message) (s : DispatcherState Sender) (o : Option ℕ)
        → IsIssued n s
        → IsIssued n (route o r s).0
    unfolding notify dispatch remove
    route-IsIssued n r s none h = h
    route-IsIssued n r s (some c) h = elim (Bool-cases (is_consumer_update r.kind)) [
      | inl update ↦ rw update h
      | inr reply ↦ rw reply (record {
        counter = h.counter;
        unused = λ id later. removed_unused c id s (h.unused id later);
      })
    ]

    reached-IsIssued :
        (n : ℕ) (s : DispatcherState Sender) → Reached Message n s → n < u32_mod → IsIssued n s
    unfolding new set_handler handle_item close_state close_map
    reached-IsIssued _ _ created small = record {
      counter = refl;
      unused = λ id later. d.get-new id;
    }
    reached-IsIssued _ _ (asked n s tx r) small =
        asked-IsIssued n tx s (omega arith) (reached-IsIssued n s r (omega arith))
    reached-IsIssued _ _ (handler_set n s r) small =
        let h = reached-IsIssued n s r small in record { counter = h.counter; unused = h.unused }
    reached-IsIssued _ _ (received n s x r) small =
        route-IsIssued n x s (correlation_id x) (reached-IsIssued n s r small)
    reached-IsIssued _ _ (ended n s e r) small =
        let h = reached-IsIssued n s r small in
        record { counter = h.counter; unused = λ id later. d.get-clear id s.requests.requests }

    -- In every reached state that is not closed, a new channel gets as its id the number of the
    -- channels before it, under which no request was pending; its sender is then pending under it,
    -- and all other requests are as before; and whatever comes between, other channels, below 2^32
    -- in all, setting the handler, and responses that do not answer it, its sender is sent nothing
    -- by it, and the next response, with that id and no consumer update, is sent to it and causes
    -- nothing else.
    pub response_channel_answered :
        (n : ℕ) (s : DispatcherState Sender) (tx : Sender) (between : List (Step Message Sender))
        (r : Response Message)
        → Reached Message n s
        → s.requests.closed ≡ false
        → suc n + channels between ≤ u32_mod
        → Unanswered n between
        → correlation_id r ≡ some n
        → is_consumer_update r.kind ≡ false
        → ((response_channel tx s).1 ≡ some n)
          × (pending n s ≡ none)
          × (pending n (response_channel tx s).0 ≡ some tx)
          × ((id : ℕ) → id ≢ n → pending id (response_channel tx s).0 ≡ pending id s)
          × (sent_to n (run_steps between (response_channel tx s).0).1 ≡ [])
          × ((handle_item r (run_steps between (response_channel tx s).0).0).1 ≡ sent n tx r ∷ [])
    response_channel_answered n s tx between r reached live few silent answer reply =
        let h = reached-IsIssued n s reached (omega arith) in
        let (ticket, there, others) = channel_asked n s tx h.counter (omega arith) live in
        let (kept, nothing) =
          pending-run_steps n (suc n) between (response_channel tx s).0 (omega arith) few
            (asked_counter n tx s h.counter) silent in
        (
          ticket,
          h.unused n (omega arith),
          there,
          others,
          nothing,
          item_answers n tx r (run_steps between (response_channel tx s).0).0 answer reply
              (kept ∙ there),
        )
