-- ===== src/SuperStream.antt =====
-- src/superstream.rs and src/superstream_producer.rs: to which partitions of a super stream a message
-- goes. `Client::partitions` and `Client::route` (src/client/mod.rs), the hash of the crate `murmur3`,
-- the user's extractor, and building and using a producer are arguments. A panic is `none`.
pub mod Routing
pub mod Sending
use rabbitmq_stream_rust_cli.Prelude.{
  ℕ, zero, suc, ◌%◌, Bool, true, false, Option, none, some, List, [], ◌∷◌, ◌++◌, length, get_elem?,
  ◌==◌, if◌then◌else◌,
}
use rabbitmq_stream_rust_cli.Codec.Ints.{u32_mod}
use rabbitmq_stream_rust_cli.Codec.Strings.{Str}
use rabbitmq_stream_rust_cli.Codec.Maps.{HashMap, lookup, insert}

-- What the broker is asked: the partitions of a super stream, and the streams for a routing key.
pub data Query : Type 0 where
  partitions : Str → Query
  route : Str → Str → Query

-- `DefaultSuperStreamMetadata`, and how many queries its client has sent.
pub record Metadata : Type 0 where
  pub super_stream : Str
  pub partitions : List Str
  pub routes : HashMap (List Str)
  pub asked : ℕ

-- The broker's answer to the query of that number: the streams, or an error.
abbrev pub Broker : Type 0
Broker = ℕ → Query → Option (List Str)

abbrev pub Run : Type 0 → Type 0
Run A = Option (A × Metadata)

-- `response.unwrap().streams` of the answer.
abbrev pub answered : {A : Type 0} → Option (List Str) → (List Str → Run A) → Run A
answered none k = none
answered (some streams) k = k streams

abbrev pub asking : Metadata → Metadata
asking m = record m { asked = suc m.asked }

abbrev pub known_partitions : List Str → Run (List Str) → Metadata → Run (List Str)
known_partitions [] query m = query
known_partitions (p ∷ ps) query m = some (p ∷ ps, m)

-- What is stored with the broker's answer.
abbrev pub store_partitions : Metadata → List Str → Run (List Str)
store_partitions m streams = some (streams, record (asking m) { partitions = streams })

abbrev pub store_routes : Str → Metadata → List Str → Run (List Str)
store_routes key m streams =
    some (streams, record (asking m) { routes = insert key streams m.routes })

-- `DefaultSuperStreamMetadata::partitions`
unfoldable pub partitions_of : Broker → Metadata → Run (List Str)
partitions_of broker m =
    known_partitions m.partitions
      (answered (broker m.asked (Query.partitions m.super_stream)) (store_partitions m)) m

abbrev pub known_routes : Option (List Str) → Run (List Str) → Metadata → Run (List Str)
known_routes none query m = query
known_routes (some streams) query m = some (streams, m)

-- `DefaultSuperStreamMetadata::routes`
unfoldable pub routes_of : Broker → Str → Metadata → Run (List Str)
unfolding lookup insert
routes_of broker key m =
    known_routes (lookup key m.routes)
      (answered (broker m.asked (Query.route key m.super_stream)) (store_routes key m)) m

-- `partitions.into_iter().nth(route as usize).unwrap()` behind `hash % number_of_partitions as u32`,
-- which panics for no partitions.
unfoldable pub pick : ℕ → List Str → Option Str
pick hash streams =
    let n : ℕ = length streams % u32_mod in if n == 0 then none else get_elem? streams (hash % n)

-- `RoutingStrategy`, with the extractor of each strategy, and the hash `murmur3_32(key, 104729)`.
pub data RoutingStrategy (Message : Type 0) : Type 0 where
  hash_routing : (Message → Str) → RoutingStrategy Message
  routing_key : (Message → Str) → RoutingStrategy Message

abbrev pub Hash : Type 0
Hash = Str → ℕ

abbrev pub alone : Option Str → Metadata → Run (List Str)
alone none m = none
alone (some stream) m = some (stream ∷ [], m)

abbrev pub picked : ℕ → Run (List Str) → Run (List Str)
picked hash none = none
picked hash (some (streams, m)) = alone (pick hash streams) m

-- The `routes` of the two strategies.
unfoldable pub routes :
    {Message : Type 0}
    → Broker
    → Hash
    → RoutingStrategy Message
    → Message
    → Metadata
    → Run (List Str)
unfolding partitions_of routes_of pick
routes broker hash (hash_routing extractor) message m =
    picked (hash (extractor message)) (partitions_of broker m)
routes broker hash (routing_key extractor) message m = routes_of broker (extractor message) m

module _ (Message Producer Failure : Type 0) where
  -- `environment.producer()….build(route)` and `producer.send(message, cb)`.
  pub record Outside : Type 0 where
    pub build : Str → Option Producer
    pub create_failure : Str → Failure
    pub deliver : Producer → Message → Option Failure
    pub no_route : Failure

  -- `SuperStreamProducer`, and what it has handed to producers, newest last.
  pub record SuperStreamProducer : Type 0 where
    pub strategy : RoutingStrategy Message
    pub producers : HashMap Producer
    pub metadata : Metadata
    pub handed : List (Str × Message)

module _ {Message Producer Failure : Type 0} (outside : Outside Message Producer Failure) where
  abbrev State : Type 0
  State = SuperStreamProducer Message Producer Failure

  -- `producer.send(message.clone(), cb.clone()).await?`
  abbrev pub hand_over :
      Str → Message → Producer → State → (State → Option Failure × State) → Option Failure × State
  hand_over stream message producer s next = elim (outside.deliver producer message) [
    | none ↦ next (record s { handed = s.handed ++ ((stream, message) ∷ []) })
    | some failure ↦ (some failure, s)
  ]

  -- `for route in routes.into_iter() { … }`
  unfoldable pub send_each : Message → List Str → State → Option Failure × State
  unfolding lookup insert
  send_each message [] s = (none, s)
  send_each message (stream ∷ streams) s = elim (lookup stream s.producers) [
    | some producer ↦ hand_over stream message producer s (send_each message streams)
    | none ↦ elim (outside.build stream) [
      | none ↦ (some (outside.create_failure stream), s)
      | some producer ↦
          hand_over stream message producer
            (record s { producers = insert stream producer s.producers })
            (send_each message streams)
    ]
  ]

  abbrev routed : Message → State → Run (List Str) → Option (Option Failure × State)
  routed message s none = none
  routed message s (some ([], m)) = some (some outside.no_route, record s { metadata = m })
  routed message s (some (stream ∷ streams, m)) =
      some (send_each message (stream ∷ streams) (record s { metadata = m }))

  -- `SuperStreamProducer::send`: the failure, if there is one, and what the producer is then.
  unfoldable pub send : Broker → Hash → Message → State → Option (Option Failure × State)
  unfolding routes send_each
  send broker hash message s = routed message s (routes broker hash s.strategy message s.metadata)
