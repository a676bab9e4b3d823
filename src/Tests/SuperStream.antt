-- ===== src/Tests/SuperStream.antt =====
-- The theorems on super streams, for a stream of two partitions.
use rabbitmq_stream_rust_cli.Prelude.{
  ℕ, ◌%◌, ◌≡◌, refl, inl, none, some, [], ◌∷◌, ◌++◌, length, get_elem?, arith,
}
use rabbitmq_stream_rust_cli.Codec.Strings.{Str}
use rabbitmq_stream_rust_cli.Codec.Maps.{str_eq, lookup, insert}
use rabbitmq_stream_rust_cli.SuperStream.{
  Query, Metadata, Broker, hash_routing, Outside, SuperStreamProducer, routes, routes_of,
  partitions_of, send,
}
use rabbitmq_stream_rust_cli.SuperStream.Routing.{
  Lookup, After, unchanged, lookup_of, hash-routes, routes_of-again, hash-routes_panics,
}
use rabbitmq_stream_rust_cli.SuperStream.Sending.{send_one_key}

abbrev first_partition : Str
first_partition = 112 ∷ 48 ∷ []

abbrev second_partition : Str
second_partition = 112 ∷ 49 ∷ []

abbrev metadata : Metadata
metadata = record {
  super_stream = 115 ∷ [];
  partitions = first_partition ∷ second_partition ∷ [];
  routes = [];
  asked = 0;
}

abbrev unknown : Metadata
unknown = record metadata { partitions = [] }

-- A broker without partitions that routes every key to the second partition.
abbrev broker : Broker
broker n (Query.partitions s) = some []
broker n (Query.route k s) = some (second_partition ∷ [])

abbrev silent : Broker
silent n query = none

-- A message is a number, and its key is that number.
abbrev key_of : ℕ → Str
key_of n = n % 10 ∷ []

abbrev hash : Str → ℕ
hash s = length s

hash-routes_example :
    (stream : Str) × (get_elem? metadata.partitions (hash (key_of 7) % length metadata.partitions)
      ≡ some stream)
    × (routes silent hash (hash_routing key_of) 7 metadata ≡ some (stream ∷ [], metadata))
hash-routes_example = hash-routes silent hash key_of 7 metadata (omega arith) (omega arith)

abbrev routed_once : Metadata
routed_once = record unknown { routes = (5 ∷ [], second_partition ∷ []) ∷ []; asked = 1 }

asked_once : routes_of broker (5 ∷ []) unknown ≡ some (second_partition ∷ [], routed_once)
unfolding routes_of lookup insert
asked_once = refl

-- A lookup of another key, and one of the partitions, come between.
abbrev routed_twice : Metadata
routed_twice = record unknown {
  routes = (5 ∷ [], second_partition ∷ []) ∷ (6 ∷ [], second_partition ∷ []) ∷ [];
  asked = 2;
}

abbrev asked_thrice : Metadata
asked_thrice = record routed_twice { asked = 3 }

looked_up_twice : After routed_once asked_thrice
unfolding routes_of partitions_of lookup insert str_eq
looked_up_twice =
    lookup_of broker Lookup.partitions routed_twice asked_thrice []
      (lookup_of broker (Lookup.keyed (6 ∷ [])) routed_once routed_twice (second_partition ∷ [])
        unchanged refl)
      refl

routes_of-again_example :
    routes_of silent (5 ∷ []) asked_thrice ≡ some (second_partition ∷ [], asked_thrice)
routes_of-again_example =
    routes_of-again broker silent (5 ∷ []) unknown routed_once asked_thrice (second_partition ∷ [])
      asked_once looked_up_twice

hash-routes_panics_example : routes broker hash (hash_routing key_of) 7 unknown ≡ none
hash-routes_panics_example = hash-routes_panics broker hash key_of 7 unknown refl (inl refl)

abbrev outside : Outside ℕ ℕ ℕ
outside = record {
  build = λ stream. none;
  create_failure = λ stream. 1;
  deliver = λ producer message. none;
  no_route = 2;
}

abbrev producer : SuperStreamProducer ℕ ℕ ℕ
producer = record {
  strategy = hash_routing key_of;
  producers = (second_partition, 9) ∷ [];
  metadata = metadata;
  handed = [];
}

send_one_key_example :
    (stream : Str) × (get_elem? metadata.partitions (hash (key_of 7) % length metadata.partitions)
      ≡ some stream)
    × ((p : ℕ)
        → lookup stream producer.producers ≡ some p
        → outside.deliver p 7 ≡ none
        → outside.deliver p 17 ≡ none
        → (send outside silent hash 7 producer
            ≡ some (none, record producer { handed = producer.handed ++ ((stream, 7) ∷ []) }))
          × (send outside silent hash 17
                (record producer { handed = producer.handed ++ ((stream, 7) ∷ []) })
              ≡ some (
                none,
                record producer {
                  handed = (producer.handed ++ ((stream, 7) ∷ [])) ++ ((stream, 17) ∷ []);
                },
              )))
send_one_key_example =
    send_one_key outside silent hash key_of 7 17 producer refl refl (omega arith) (omega arith)
