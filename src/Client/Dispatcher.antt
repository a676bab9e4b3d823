-- ===== src/Client/Dispatcher.antt =====
-- src/client/dispatcher.rs: which responses answer which requests. The sender of a channel is opaque,
-- and what is sent or handed to the handler is listed as events, in order. A state is what the
-- `Arc`s of a dispatcher and its clones point to.
pub mod Tickets
pub mod Answers
pub mod Steps
pub mod Closing
use rabbitmq_stream_rust_cli.Prelude.{
  ℕ, ◌+◌, ◌%◌, Bool, true, false, Option, none, some, List, [], ◌∷◌, ◌++◌, if◌then◌else◌,
}
use rabbitmq_stream_rust_cli.Codec.Ints.{u32_mod}
use rabbitmq_stream_rust_cli.Errors.{ClientError}
use rabbitmq_stream_rust_cli.Crates.{DashMap}
use rabbitmq_stream_rust_cli.Response.{
  Response, ResponseKind, correlation_id, open_response, close, peer_properties, sasl_handshake,
  generic, tunes, deliver, heartbeat, metadata, metadata_update, publish_confirm, publish_error,
  query_offset, credit, query_publisher_sequence, exchange_command_versions,
  super_stream_partitions, super_stream_route, consumer_update, consumer_update_request,
}

module _ (Sender : Type 0) ⦃d : DashMap Sender⦄ where
  pub record RequestsMap : Type 0 where
    pub requests : d.Map
    pub closed : Bool

  -- `DispatcherState`; of the handler, whether one is set.
  pub record DispatcherState : Type 0 where
    pub requests : RequestsMap
    pub correlation_id : ℕ
    pub handler : Bool

-- What the loop reads from its connection: `Result<Response, ClientError>`.
pub data Received (Message : Type 0) : Type 0 where
  response : Response Message → Received Message
  failure : ClientError → Received Message

pub data Event (Message Sender : Type 0) : Type 0 where
  -- `rcv.send(response)`, of the sender that stood under a correlation id
  sent : ℕ → Sender → Response Message → Event Message Sender
  -- `handler.handle_message(Some(Ok(response)))`
  handled : Response Message → Event Message Sender
  -- `handler.handle_message(Some(Err(error)))`
  handled_error : ClientError → Event Message Sender
  -- `handler.handle_message(None)`
  handled_end : Event Message Sender

-- The pattern `ResponseKind::ConsumerUpdate(_)`.
abbrev pub is_consumer_update : {Message : Type 0} → ResponseKind Message → Bool
is_consumer_update (consumer_update c) = true
is_consumer_update (open_response c) = false
is_consumer_update (close c) = false
is_consumer_update (peer_properties c) = false
is_consumer_update (sasl_handshake c) = false
is_consumer_update (generic c) = false
is_consumer_update (tunes c) = false
is_consumer_update (deliver c) = false
is_consumer_update (heartbeat c) = false
is_consumer_update (metadata c) = false
is_consumer_update (metadata_update c) = false
is_consumer_update (publish_confirm c) = false
is_consumer_update (publish_error c) = false
is_consumer_update (query_offset c) = false
is_consumer_update (credit c) = false
is_consumer_update (query_publisher_sequence c) = false
is_consumer_update (exchange_command_versions c) = false
is_consumer_update (super_stream_partitions c) = false
is_consumer_update (super_stream_route c) = false
is_consumer_update (consumer_update_request c) = false

abbrev error_event : {Message Sender : Type 0} → Option ClientError → List (Event Message Sender)
error_event none = []
error_event (some e) = handled_error e ∷ []

-- A state, and the events on the way to it.
abbrev pub Run : (Message Sender : Type 0) → ⦃d : DashMap Sender⦄ → Type 0
Run Message Sender = DispatcherState Sender × List (Event Message Sender)

module _ {Sender : Type 0} ⦃d : DashMap Sender⦄ where
  -- The second half of `RequestsMap::insert`, after the test of `closed`.
  unfoldable pub store : ℕ → Sender → RequestsMap Sender → RequestsMap Sender
  store id sender m = record m { requests = d.insert id sender m.requests }

  -- `RequestsMap::insert`, and what other tasks do to the map between its test and its store.
  unfoldable pub insert_during :
      (RequestsMap Sender → RequestsMap Sender)
      → ℕ
      → Sender
      → RequestsMap Sender
      → RequestsMap Sender × Bool
  unfolding store
  insert_during others id sender m =
      if m.closed then (m, false) else (store id sender (others m), true)

  -- `RequestsMap::insert` that no other task comes between.
  unfoldable pub insert : ℕ → Sender → RequestsMap Sender → RequestsMap Sender × Bool
  unfolding insert_during
  insert id sender m = insert_during (λ same. same) id sender m

  -- `RequestsMap::remove`
  unfoldable pub remove : ℕ → RequestsMap Sender → Option Sender × RequestsMap Sender
  remove id m =
      let (sender, left) = d.remove id m.requests in (sender, record m { requests = left })

  -- `RequestsMap::close`
  unfoldable pub close_map : RequestsMap Sender → RequestsMap Sender
  close_map m = record { requests = d.clear m.requests; closed = true }

  -- `Dispatcher::new`
  unfoldable pub new : DispatcherState Sender
  new = record {
    requests = record { requests = d.new; closed = false };
    correlation_id = 0;
    handler = false;
  }

  -- `Dispatcher::response_channel`, whose new channel has the given sender.
  unfoldable pub response_channel :
      Sender → DispatcherState Sender → DispatcherState Sender × Option ℕ
  unfolding insert
  response_channel tx s =
      let id : ℕ = s.correlation_id in
      let (requests, inserted) = insert id tx s.requests in
      (
        record s { requests = requests; correlation_id = (id + 1) % u32_mod },
        if inserted then some id else none,
      )

  -- `Dispatcher::set_handler`
  unfoldable pub set_handler : DispatcherState Sender → DispatcherState Sender
  set_handler s = record s { handler = true }

  -- `DispatcherState::close`
  unfoldable pub close_state :
      (Message : Type 0) → Option ClientError → DispatcherState Sender → Run Message Sender
  unfolding close_map
  close_state Message error s = (
    record s { requests = close_map s.requests },
    if s.handler then error_event error ++ (handled_end ∷ []) else [],
  )

  module _ {Message : Type 0} where
    abbrev pub sent_by : ℕ → Response Message → Option Sender → List (Event Message Sender)
    sent_by id r none = []
    sent_by id r (some sender) = sent id sender r ∷ []

    -- `DispatcherState::dispatch`
    unfoldable pub dispatch : ℕ → Response Message → DispatcherState Sender → Run Message Sender
    unfolding remove
    dispatch id r s =
        let (receiver, requests) = remove id s.requests in
        (record s { requests = requests }, sent_by id r receiver)

    -- `DispatcherState::notify`
    unfoldable pub notify : Response Message → DispatcherState Sender → Run Message Sender
    notify r s = (s, if s.handler then handled r ∷ [] else [])

    abbrev pub route : Option ℕ → Response Message → DispatcherState Sender → Run Message Sender
    route none item s = notify item s
    route (some id) item s =
        if is_consumer_update item.kind then notify item s else dispatch id item s

    -- One turn of the loop of `handle_response`.
    unfoldable pub handle_item : Response Message → DispatcherState Sender → Run Message Sender
    unfolding dispatch notify
    handle_item item s = route (correlation_id item) item s

    -- `handle_response`, on the results that its stream gives until it ends.
    unfoldable pub handle_response :
        List (Received Message) → DispatcherState Sender → Run Message Sender
    unfolding handle_item close_state
    handle_response [] s = close_state Message none s
    handle_response (response item ∷ stream) s =
        let (next, first) = handle_item item s in
        let (last, others) = handle_response stream next in (last, first ++ others)
    handle_response (failure e ∷ stream) s = close_state Message none s
