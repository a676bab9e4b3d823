-- ===== src/Client/Dispatcher/Steps.antt =====
-- What a dispatcher does between a request and its answer.
use rabbitmq_stream_rust_cli.Prelude.{
  ℕ, suc, ◌+◌, ◌%◌, ◌<◌, ◌≤◌, ◌≡◌, ◌≢◌, refl, ◌∙◌, false, Bool-cases, inl, inr, Option, none, some,
  List, [], ◌∷◌, ◌++◌, arith,
}
use rabbitmq_stream_rust_cli.Codec.Ints.{u32_mod}
use rabbitmq_stream_rust_cli.Crates.{DashMap}
use rabbitmq_stream_rust_cli.Response.{Response, correlation_id}
use rabbitmq_stream_rust_cli.Client.Dispatcher.{
  DispatcherState, Run, sent, is_consumer_update, store, insert_during, insert, remove,
  response_channel, set_handler, dispatch, notify, route, handle_item,
}
use rabbitmq_stream_rust_cli.Client.Dispatcher.Answers.{
  pending, answers, sent_to, sent_to_append, item-Turn,
}

-- A step of the dispatcher and its clones, before the connection is closed.
pub data Step (Message Sender : Type 0) : Type 0 where
  asking : Sender → Step Message Sender
  setting : Step Message Sender
  receiving : Response Message → Step Message Sender

module _ {Sender : Type 0} ⦃d : DashMap Sender⦄ where
  pub asked_counter :
      (n : ℕ) (tx : Sender) (s : DispatcherState Sender)
      → s.correlation_id ≡ n % u32_mod
      → (response_channel tx s).0.correlation_id ≡ suc n % u32_mod
  unfolding response_channel
  asked_counter n tx s h = omega arith

  asked_other :
      (id n : ℕ) (tx : Sender) (s : DispatcherState Sender)
      → id < n
      → n < u32_mod
      → s.correlation_id ≡ n % u32_mod
      → pending id (response_channel tx s).0 ≡ pending id s
  unfolding response_channel insert insert_during store
  asked_other id n tx s lower small counter = elim (Bool-cases s.requests.closed) [
    | inl shut ↦ rw shut refl
    | inr live ↦ rw live (
        d.get-insert_other s.correlation_id id tx s.requests.requests
          (λ same. absurd (omega arith)))
  ]

  pub channel_asked :
      (n : ℕ) (s : DispatcherState Sender) (tx : Sender)
      → s.correlation_id ≡ n % u32_mod
      → n < u32_mod
      → s.requests.closed ≡ false
      → ((response_channel tx s).1 ≡ some n)
        × (pending n (response_channel tx s).0 ≡ some tx)
        × ((id : ℕ) → id ≢ n → pending id (response_channel tx s).0 ≡ pending id s)
  unfolding response_channel insert insert_during store
  channel_asked n s tx h small live =
      let ticket : s.correlation_id ≡ n = omega arith in
      rw (live, ticket)
        (
          refl,
          d.get-insert n tx s.requests.requests,
          λ id other. d.get-insert_other n id tx s.requests.requests other,
        )

  set_counter : (s : DispatcherState Sender) → (set_handler s).correlation_id ≡ s.correlation_id
  unfolding set_handler
  set_counter s = refl

  set_pending : (id : ℕ) (s : DispatcherState Sender) → pending id (set_handler s) ≡ pending id s
  unfolding set_handler
  set_pending id s = refl

  module _ {Message : Type 0} where
    route_counter :
        (o : Option ℕ) (r : Response Message) (s : DispatcherState Sender)
        → (route o r s).0.correlation_id ≡ s.correlation_id
    unfolding notify dispatch remove
    route_counter none r s = refl
    route_counter (some c) r s = elim (Bool-cases (is_consumer_update r.kind)) [
      | inl update ↦ rw update refl
      | inr reply ↦ rw reply refl
    ]

    item_counter :
        (r : Response Message) (s : DispatcherState Sender)
        → (handle_item r s).0.correlation_id ≡ s.correlation_id
    unfolding handle_item
    item_counter r s = route_counter (correlation_id r) r s

    pub item_answers :
        (n : ℕ) (tx : Sender) (r : Response Message) (s : DispatcherState Sender)
        → correlation_id r ≡ some n
        → is_consumer_update r.kind ≡ false
        → pending n s ≡ some tx
        → (handle_item r s).1 ≡ sent n tx r ∷ []
    unfolding handle_item dispatch remove
    item_answers n tx r s answer reply there =
        rw (answer, reply, d.remove-get n s.requests.requests, there) refl

    abbrev pub step : Step Message Sender → DispatcherState Sender → Run Message Sender
    step (asking tx) s = ((response_channel tx s).0, [])
    step setting s = (set_handler s, [])
    step (receiving r) s = handle_item r s

    abbrev pub run_steps : List (Step Message Sender) → DispatcherState Sender → Run Message Sender
    run_steps [] s = (s, [])
    run_steps (x ∷ xs) s =
        ((run_steps xs (step x s).0).0, (step x s).1 ++ (run_steps xs (step x s).0).1)

    -- How many channels the steps ask for.
    abbrev pub channels : List (Step Message Sender) → ℕ
    channels [] = 0
    channels (asking tx ∷ xs) = suc (channels xs)
    channels (setting ∷ xs) = channels xs
    channels (receiving r ∷ xs) = channels xs

    -- No response among the steps answers the request.
    abbrev pub Unanswered : ℕ → List (Step Message Sender) → Type 0
    Unanswered id [] = Unit
    Unanswered id (asking tx ∷ xs) = Unanswered id xs
    Unanswered id (setting ∷ xs) = Unanswered id xs
    Unanswered id (receiving r ∷ xs) = (answers id r ≡ false) × Unanswered id xs

    -- A request with a lower id stays pending, and is sent nothing, while it is not answered.
    pub pending-run_steps :
        (id n : ℕ) (xs : List (Step Message Sender)) (s : DispatcherState Sender)
        → id < n
        → n + channels xs ≤ u32_mod
        → s.correlation_id ≡ n % u32_mod
        → Unanswered id xs
        → (pending id (run_steps xs s).0 ≡ pending id s) × (sent_to id (run_steps xs s).1 ≡ [])
    pending-run_steps id n [] s lower few counter silent = (refl, refl)
    pending-run_steps id n (asking tx ∷ xs) s lower few counter silent =
        let next : DispatcherState Sender = (response_channel tx s).0 in
        let later =
          pending-run_steps id (suc n) xs next (omega arith) (omega arith)
            (asked_counter n tx s counter) silent in
        (later.0 ∙ asked_other id n tx s lower (omega arith) counter, later.1)
    pending-run_steps id n (setting ∷ xs) s lower few counter silent =
        let later =
          pending-run_steps id n xs (set_handler s) lower few (set_counter s ∙ counter) silent in
        (later.0 ∙ set_pending id s, later.1)
    pending-run_steps id n (receiving r ∷ xs) s lower few counter silent =
        let turn = rw silent.0 at (item-Turn id r s) in
        let later =
          pending-run_steps id n xs (handle_item r s).0 lower few (item_counter r s ∙ counter)
            silent.1 in
        (
          later.0 ∙ turn.1,
          sent_to_append id (handle_item r s).1 (run_steps xs (handle_item r s).0).1
              ∙ rw (turn.0, later.1),
        )
