-- ===== src/SuperStream/Sending.antt =====
-- Sending to a super stream.
use rabbitmq_stream_rust_cli.Prelude.{
  ◌%◌, ◌<◌, ◌≡◌, refl, ◌∙◌, ap, none, some, [], ◌∷◌, ◌++◌, length, get_elem?,
}
use rabbitmq_stream_rust_cli.Codec.Ints.{u32_mod}
use rabbitmq_stream_rust_cli.Codec.Strings.{Str}
use rabbitmq_stream_rust_cli.Codec.Maps.{lookup}
use rabbitmq_stream_rust_cli.SuperStream.{
  Broker, Hash, hash_routing, Outside, State, hand_over, routed, routes, send_each, send,
}
use rabbitmq_stream_rust_cli.SuperStream.Routing.{hash-routes}

module _ {Message Producer Failure : Type 0} (outside : Outside Message Producer Failure) where
  handed_to_one :
      (message : Message) (stream : Str) (producer : Producer) (s : State outside)
      → lookup stream s.producers ≡ some producer
      → outside.deliver producer message ≡ none
      → send_each outside message (stream ∷ []) s
        ≡ (none, record s { handed = s.handed ++ ((stream, message) ∷ []) })
  unfolding send_each
  handed_to_one message stream producer s there accepted =
      rw (there, send_each) (rw (accepted, hand_over) refl)

  -- Of a super stream whose 1 to 2^32 - 1 partitions are known, two messages with one key that are
  -- sent by a hash one after the other go to one and the same partition, in that order, provided that
  -- its producer is there and accepts them.
  pub send_one_key :
      (broker : Broker) (hash : Hash) (extractor : Message → Str) (first second : Message)
      (s : State outside)
      → s.strategy ≡ hash_routing extractor
      → extractor first ≡ extractor second
      → 0 < length s.metadata.partitions
      → length s.metadata.partitions < u32_mod
      → (stream : Str) × (get_elem? s.metadata.partitions
            (hash (extractor first) % length s.metadata.partitions)
          ≡ some stream)
        × ((producer : Producer)
            → lookup stream s.producers ≡ some producer
            → outside.deliver producer first ≡ none
            → outside.deliver producer second ≡ none
            → (send outside broker hash first s
                ≡ some (none, record s { handed = s.handed ++ ((stream, first) ∷ []) }))
              × (send outside broker hash second
                    (record s { handed = s.handed ++ ((stream, first) ∷ []) })
                  ≡ some (
                    none,
                    record s {
                      handed = (s.handed ++ ((stream, first) ∷ [])) ++ ((stream, second) ∷ []);
                    },
                  )))
  unfolding send
  send_one_key broker hash extractor first second s strategy same some_left few =
      let (stream, found, way) = hash-routes broker hash extractor first s.metadata some_left few in
      let (stream', found', way') =
        hash-routes broker hash extractor second s.metadata some_left few in
      let one : stream' ≡ stream = cc in
      (
        stream,
        found,
        λ producer there accepted accepted'. (
          ap (λ chosen. routed outside first s (routes broker hash chosen first s.metadata))
                strategy
              ∙ ap (routed outside first s) way
              ∙ ap some (handed_to_one first stream producer s there accepted),
          ap
                (λ chosen.
                  routed outside second (after stream)
                    (routes broker hash chosen second s.metadata))
                strategy
              ∙ ap (routed outside second (after stream)) (rw one at way')
              ∙ ap some (handed_to_one second stream producer (after stream) there accepted'),
        ),
      )
    where
      after : Str → State outside
      after stream = record s { handed = s.handed ++ ((stream, first) ∷ []) }
