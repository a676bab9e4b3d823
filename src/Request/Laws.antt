-- ===== src/Request/Laws.antt =====
-- Every kind of request reads back as itself, with its size.
use rabbitmq_stream_rust_cli.Prelude.{ℕ, ◌+◌, ◌%◌, ◌<◌, ◌≡◌, refl, arith}
use rabbitmq_stream_rust_cli.Codec.Outcome.{pure}
use rabbitmq_stream_rust_cli.Codec.ByteOrder.{ByteOrder}
use rabbitmq_stream_rust_cli.Codec.Laws.{Codes, Codes-bind, Codes-last, Codes-resize}
use rabbitmq_stream_rust_cli.Codec.Ints.{u16_mod, u32_mod}
use rabbitmq_stream_rust_cli.Codec.Ints.Laws.{u32-Codes}
use rabbitmq_stream_rust_cli.Message.{MessageCodec}
use rabbitmq_stream_rust_cli.Header.{extract_response_code, header-Codes}
use rabbitmq_stream_rust_cli.Request.{
  RequestKind, Request, peer_properties, sasl_handshake, sasl_authenticate, tunes, open_command,
  close, delete, create_stream, subscribe, credit, metadata, declare_publisher, delete_publisher,
  heartbeat, publish, query_offset, query_publisher_sequence, store_offset, unsubscribe,
  exchange_command_versions, create_super_stream, delete_super_stream, super_stream_partitions,
  super_stream_route, consumer_update_request, key, version, from_kind, kind_size, encoded_size,
  encode_kind, encode, decode_kind, decode,
}
use rabbitmq_stream_rust_cli.Commands.PeerProperties
use rabbitmq_stream_rust_cli.Commands.SaslHandshake
use rabbitmq_stream_rust_cli.Commands.SaslAuthenticate
use rabbitmq_stream_rust_cli.Commands.Tune
use rabbitmq_stream_rust_cli.Commands.Open
use rabbitmq_stream_rust_cli.Commands.Close
use rabbitmq_stream_rust_cli.Commands.Delete
use rabbitmq_stream_rust_cli.Commands.CreateStream
use rabbitmq_stream_rust_cli.Commands.Subscribe
use rabbitmq_stream_rust_cli.Commands.Credit
use rabbitmq_stream_rust_cli.Commands.Metadata
use rabbitmq_stream_rust_cli.Commands.DeclarePublisher
use rabbitmq_stream_rust_cli.Commands.DeletePublisher
use rabbitmq_stream_rust_cli.Commands.HeartBeat
use rabbitmq_stream_rust_cli.Commands.Publish
use rabbitmq_stream_rust_cli.Commands.QueryOffset
use rabbitmq_stream_rust_cli.Commands.QueryPublisherSequence
use rabbitmq_stream_rust_cli.Commands.StoreOffset
use rabbitmq_stream_rust_cli.Commands.Unsubscribe
use rabbitmq_stream_rust_cli.Commands.ExchangeCommandVersions
use rabbitmq_stream_rust_cli.Commands.CreateSuperStream
use rabbitmq_stream_rust_cli.Commands.DeleteSuperStream
use rabbitmq_stream_rust_cli.Commands.SuperStreamPartitions
use rabbitmq_stream_rust_cli.Commands.SuperStreamRoute
use rabbitmq_stream_rust_cli.Commands.ConsumerUpdateRequest

module _ {Message : Type 0} ⦃m : MessageCodec Message⦄ where
  -- The requests that read back: fields of their Rust types, texts as `IsText` has them, lists and
  -- references that their lengths can announce, and of `publish` version 1 without filter values;
  -- `consumer_update_request` is none of them.
  abbrev pub IsValid : RequestKind Message → Type 0
  IsValid (peer_properties c) = PeerProperties.IsValid c
  IsValid (sasl_handshake c) = SaslHandshake.IsValid c
  IsValid (sasl_authenticate c) = SaslAuthenticate.IsValid c
  IsValid (tunes c) = Tune.IsValid c
  IsValid (open_command c) = Open.IsValid c
  IsValid (close c) = Close.IsValid c
  IsValid (delete c) = Delete.IsValid c
  IsValid (create_stream c) = CreateStream.IsValid c
  IsValid (subscribe c) = Subscribe.IsValid c
  IsValid (credit c) = Credit.IsValid c
  IsValid (metadata c) = Metadata.IsValid c
  IsValid (declare_publisher c) = DeclarePublisher.IsValid c
  IsValid (delete_publisher c) = DeletePublisher.IsValid c
  IsValid (heartbeat c) = Unit
  IsValid (publish c) = Publish.IsValid c
  IsValid (query_offset c) = QueryOffset.IsValid c
  IsValid (query_publisher_sequence c) = QueryPublisherSequence.IsValid c
  IsValid (store_offset c) = StoreOffset.IsValid c
  IsValid (unsubscribe c) = Unsubscribe.IsValid c
  IsValid (exchange_command_versions c) = ExchangeCommandVersions.IsValid c
  IsValid (create_super_stream c) = CreateSuperStream.IsValid c
  IsValid (delete_super_stream c) = DeleteSuperStream.IsValid c
  IsValid (super_stream_partitions c) = SuperStreamPartitions.IsValid c
  IsValid (super_stream_route c) = SuperStreamRoute.IsValid c
  IsValid (consumer_update_request c) = ⊥

  -- The number of bytes that the command of a request is written in.
  abbrev pub kind_len : RequestKind Message → ℕ
  kind_len (peer_properties c) = PeerProperties.wire_len c
  kind_len (sasl_handshake c) = SaslHandshake.wire_len c
  kind_len (sasl_authenticate c) = SaslAuthenticate.wire_len c
  kind_len (tunes c) = Tune.wire_len c
  kind_len (open_command c) = Open.wire_len c
  kind_len (close c) = Close.wire_len c
  kind_len (delete c) = Delete.wire_len c
  kind_len (create_stream c) = CreateStream.wire_len c
  kind_len (subscribe c) = Subscribe.wire_len c
  kind_len (credit c) = Credit.wire_len c
  kind_len (metadata c) = Metadata.wire_len c
  kind_len (declare_publisher c) = DeclarePublisher.wire_len c
  kind_len (delete_publisher c) = DeletePublisher.wire_len c
  kind_len (heartbeat c) = 0
  kind_len (publish c) = Publish.wire_len c
  kind_len (query_offset c) = QueryOffset.wire_len c
  kind_len (query_publisher_sequence c) = QueryPublisherSequence.wire_len c
  kind_len (store_offset c) = StoreOffset.wire_len c
  kind_len (unsubscribe c) = Unsubscribe.wire_len c
  kind_len (exchange_command_versions c) = ExchangeCommandVersions.wire_len c
  kind_len (create_super_stream c) = CreateSuperStream.wire_len c
  kind_len (delete_super_stream c) = DeleteSuperStream.wire_len c
  kind_len (super_stream_partitions c) = SuperStreamPartitions.wire_len c
  kind_len (super_stream_route c) = SuperStreamRoute.wire_len c
  kind_len (consumer_update_request c) = ConsumerUpdateRequest.wire_len c

  pub kind_size-eq-kind_len : (k : RequestKind Message) → kind_size k ≡ kind_len k % u32_mod
  unfolding kind_size
  kind_size-eq-kind_len (peer_properties c) = PeerProperties.encoded_size-eq-wire_len c
  kind_size-eq-kind_len (sasl_handshake c) = SaslHandshake.encoded_size-eq-wire_len c
  kind_size-eq-kind_len (sasl_authenticate c) = SaslAuthenticate.encoded_size-eq-wire_len c
  kind_size-eq-kind_len (tunes c) = Tune.encoded_size-eq-wire_len c
  kind_size-eq-kind_len (open_command c) = Open.encoded_size-eq-wire_len c
  kind_size-eq-kind_len (close c) = Close.encoded_size-eq-wire_len c
  kind_size-eq-kind_len (delete c) = Delete.encoded_size-eq-wire_len c
  kind_size-eq-kind_len (create_stream c) = CreateStream.encoded_size-eq-wire_len c
  kind_size-eq-kind_len (subscribe c) = Subscribe.encoded_size-eq-wire_len c
  kind_size-eq-kind_len (credit c) = Credit.encoded_size-eq-wire_len c
  kind_size-eq-kind_len (metadata c) = Metadata.encoded_size-eq-wire_len c
  kind_size-eq-kind_len (declare_publisher c) = DeclarePublisher.encoded_size-eq-wire_len c
  kind_size-eq-kind_len (delete_publisher c) = DeletePublisher.encoded_size-eq-wire_len c
  kind_size-eq-kind_len (heartbeat c) = unfold HeartBeat.encoded_size in refl
  kind_size-eq-kind_len (publish c) = Publish.encoded_size-eq-wire_len c
  kind_size-eq-kind_len (query_offset c) = QueryOffset.encoded_size-eq-wire_len c
  kind_size-eq-kind_len (query_publisher_sequence c) =
      QueryPublisherSequence.encoded_size-eq-wire_len c
  kind_size-eq-kind_len (store_offset c) = StoreOffset.encoded_size-eq-wire_len c
  kind_size-eq-kind_len (unsubscribe c) = Unsubscribe.encoded_size-eq-wire_len c
  kind_size-eq-kind_len (exchange_command_versions c) =
      ExchangeCommandVersions.encoded_size-eq-wire_len c
  kind_size-eq-kind_len (create_super_stream c) = CreateSuperStream.encoded_size-eq-wire_len c
  kind_size-eq-kind_len (delete_super_stream c) = DeleteSuperStream.encoded_size-eq-wire_len c
  kind_size-eq-kind_len (super_stream_partitions c) =
      SuperStreamPartitions.encoded_size-eq-wire_len c
  kind_size-eq-kind_len (super_stream_route c) = SuperStreamRoute.encoded_size-eq-wire_len c
  kind_size-eq-kind_len (consumer_update_request c) =
      ConsumerUpdateRequest.encoded_size-eq-wire_len c

  -- The length that a frame announces is that of its header and its command, cut to 32 bits.
  pub encoded_size-eq-kind_len :
      (r : Request Message) → encoded_size r ≡ (4 + kind_len r.kind) % u32_mod
  unfolding encoded_size
  encoded_size-eq-kind_len r = omega (arith, kind_size-eq-kind_len r.kind)

  module _ ⦃b : ByteOrder⦄ where
    kind-Codes :
        (k : RequestKind Message)
        → IsValid k
        → Codes (decode_kind (extract_response_code (key k))) (encode_kind k) (kind_len k) k
    unfolding decode_kind encode_kind pure
    kind-Codes (peer_properties c) h = Codes-last _ (PeerProperties.decode-Codes c h) (λ rest. refl)
    kind-Codes (sasl_handshake c) h = Codes-last _ (SaslHandshake.decode-Codes c h) (λ rest. refl)
    kind-Codes (sasl_authenticate c) h =
        Codes-last _ (SaslAuthenticate.decode-Codes c h) (λ rest. refl)
    kind-Codes (tunes c) h = Codes-last _ (Tune.decode-Codes c h) (λ rest. refl)
    kind-Codes (open_command c) h = Codes-last _ (Open.decode-Codes c h) (λ rest. refl)
    kind-Codes (close c) h = Codes-last _ (Close.decode-Codes c h) (λ rest. refl)
    kind-Codes (delete c) h = Codes-last _ (Delete.decode-Codes c h) (λ rest. refl)
    kind-Codes (create_stream c) h = Codes-last _ (CreateStream.decode-Codes c h) (λ rest. refl)
    kind-Codes (subscribe c) h = Codes-last _ (Subscribe.decode-Codes c h) (λ rest. refl)
    kind-Codes (credit c) h = Codes-last _ (Credit.decode-Codes c h) (λ rest. refl)
    kind-Codes (metadata c) h = Codes-last _ (Metadata.decode-Codes c h) (λ rest. refl)
    kind-Codes (declare_publisher c) h =
        Codes-last _ (DeclarePublisher.decode-Codes c h) (λ rest. refl)
    kind-Codes (delete_publisher c) h =
        Codes-last _ (DeletePublisher.decode-Codes c h) (λ rest. refl)
    kind-Codes (heartbeat c) h = Codes-last _ (HeartBeat.decode-Codes c) (λ rest. refl)
    kind-Codes (publish c) h = Codes-last _ (Publish.decode-Codes c h) (λ rest. refl)
    kind-Codes (query_offset c) h = Codes-last _ (QueryOffset.decode-Codes c h) (λ rest. refl)
    kind-Codes (query_publisher_sequence c) h =
        Codes-last _ (QueryPublisherSequence.decode-Codes c h) (λ rest. refl)
    kind-Codes (store_offset c) h = Codes-last _ (StoreOffset.decode-Codes c h) (λ rest. refl)
    kind-Codes (unsubscribe c) h = Codes-last _ (Unsubscribe.decode-Codes c h) (λ rest. refl)
    kind-Codes (exchange_command_versions c) h =
        Codes-last _ (ExchangeCommandVersions.decode-Codes c h) (λ rest. refl)
    kind-Codes (create_super_stream c) h =
        Codes-last _ (CreateSuperStream.decode-Codes c h) (λ rest. refl)
    kind-Codes (delete_super_stream c) h =
        Codes-last _ (DeleteSuperStream.decode-Codes c h) (λ rest. refl)
    kind-Codes (super_stream_partitions c) h =
        Codes-last _ (SuperStreamPartitions.decode-Codes c h) (λ rest. refl)
    kind-Codes (super_stream_route c) h =
        Codes-last _ (SuperStreamRoute.decode-Codes c h) (λ rest. refl)
    kind-Codes (consumer_update_request c) h = elim h [ ]

    version-lt : (k : RequestKind Message) → IsValid k → version k < u16_mod
    version-lt (publish c) h = omega (arith, h.version)
    version-lt (peer_properties c) h = omega arith
    version-lt _ h = omega arith

    key-lt : (k : RequestKind Message) → key k < u16_mod
    key-lt (publish c) = omega arith
    key-lt _ = omega arith

    -- The top bit of a valid request's key is clear, so its header reads back as itself.
    key-plain : (k : RequestKind Message) → IsValid k → extract_response_code (key k) ≡ key k
    key-plain (consumer_update_request c) h = elim h [ ]
    key-plain _ h = refl

    pub size-lt : (r : Request Message) → encoded_size r < u32_mod
    size-lt r = omega (arith, encoded_size-eq-kind_len r)

    pub frame-Codes :
        (k : RequestKind Message)
        → IsValid k
        → Codes decode (encode (from_kind k)) (8 + kind_len k) (from_kind k)
    unfolding decode encode pure
    frame-Codes k h =
        Codes-resize
          (Codes-bind _ (u32-Codes (encoded_size (from_kind k)) (size-lt (from_kind k))) (
            Codes-bind _ (header-Codes (from_kind k).header (key-lt k) (version-lt k h))
              (Codes-last _ (kind-Codes k h) (λ rest. rw (key-plain k h)))))
          (omega arith)
