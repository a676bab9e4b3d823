-- ===== src/Response/RoundTrip.antt =====
-- What a broker writes is what `Response::decode` reads. The encoders are those that the tests of
-- protocol/src/response/mod.rs have.
use rabbitmq_stream_rust_cli.Prelude.{
  ℕ, ◌==◌, ==_iff, ap, Bool-cases, inl, inr, false, ◌<◌, ◌≡◌, refl, true, List, ◌++◌,
}
use rabbitmq_stream_rust_cli.Protocol.{
  command_open, command_close, command_peer_properties, command_sasl_handshake, command_tune,
  command_deliver, command_heartbeat, command_metadata, command_metadata_update,
  command_publish_confirm, command_publish_error, command_query_offset, command_credit,
  command_query_publisher_sequence, command_exchange_command_versions, command_partitions,
  command_route, command_consumer_update,
}
use rabbitmq_stream_rust_cli.Codec.Outcome.{ok, pure}
use rabbitmq_stream_rust_cli.Codec.Emit.{Emit, bytes, ◌⊕◌}
use rabbitmq_stream_rust_cli.Codec.ByteOrder.{ByteOrder}
use rabbitmq_stream_rust_cli.Codec.Laws.{Codes, Codes-bind, Codes-last}
use rabbitmq_stream_rust_cli.Codec.Ints.{u16_mod, u32_mod, encode_u32}
use rabbitmq_stream_rust_cli.Codec.Ints.Laws.{u32-Codes}
use rabbitmq_stream_rust_cli.Message.{MessageCodec}
use rabbitmq_stream_rust_cli.Header.{Header, extract_response_code, encode_header, header-Codes}
use rabbitmq_stream_rust_cli.Response.{
  ResponseKind, Response, is_generic, decode_kind, decode, open_response, close, peer_properties,
  sasl_handshake, generic, tunes, deliver, heartbeat, metadata, metadata_update, publish_confirm,
  publish_error, query_offset, credit, query_publisher_sequence, exchange_command_versions,
  super_stream_partitions, super_stream_route, consumer_update, consumer_update_request,
}
use rabbitmq_stream_rust_cli.Commands.OpenResponse
use rabbitmq_stream_rust_cli.Commands.CloseResponse
use rabbitmq_stream_rust_cli.Commands.PeerPropertiesResponse
use rabbitmq_stream_rust_cli.Commands.SaslHandshakeResponse
use rabbitmq_stream_rust_cli.Commands.Generic
use rabbitmq_stream_rust_cli.Commands.Tune
use rabbitmq_stream_rust_cli.Commands.Deliver
use rabbitmq_stream_rust_cli.Commands.HeartBeat
use rabbitmq_stream_rust_cli.Commands.MetadataResponse
use rabbitmq_stream_rust_cli.Commands.MetadataUpdate
use rabbitmq_stream_rust_cli.Commands.PublishConfirm
use rabbitmq_stream_rust_cli.Commands.PublishError
use rabbitmq_stream_rust_cli.Commands.QueryOffsetResponse
use rabbitmq_stream_rust_cli.Commands.CreditResponse
use rabbitmq_stream_rust_cli.Commands.QueryPublisherResponse
use rabbitmq_stream_rust_cli.Commands.ExchangeCommandVersionsResponse
use rabbitmq_stream_rust_cli.Commands.SuperStreamPartitionsResponse
use rabbitmq_stream_rust_cli.Commands.SuperStreamRouteResponse
use rabbitmq_stream_rust_cli.Commands.ConsumerUpdate
use rabbitmq_stream_rust_cli.Commands.ConsumerUpdateRequest

generic_apart : (n j : ℕ) → is_generic n ≡ true → is_generic j ≡ false → (n == j) ≡ false
generic_apart n j p q = elim (Bool-cases (n == j)) [
  | inl same ↦ let equal = (==_iff n j).0 same in absurd (cc (ap is_generic equal))
  | inr differ ↦ differ
]

module _ {Message : Type 0} ⦃m : MessageCodec Message⦄ where
  -- `n` is a key under which a broker sends a response of the kind.
  abbrev pub IsKeyOf : ℕ → ResponseKind Message → Type 0
  IsKeyOf n (generic c) = is_generic n ≡ true
  IsKeyOf n (open_response c) = n ≡ command_open
  IsKeyOf n (close c) = n ≡ command_close
  IsKeyOf n (peer_properties c) = n ≡ command_peer_properties
  IsKeyOf n (sasl_handshake c) = n ≡ command_sasl_handshake
  IsKeyOf n (tunes c) = n ≡ command_tune
  IsKeyOf n (deliver c) = n ≡ command_deliver
  IsKeyOf n (heartbeat c) = n ≡ command_heartbeat
  IsKeyOf n (metadata c) = n ≡ command_metadata
  IsKeyOf n (metadata_update c) = n ≡ command_metadata_update
  IsKeyOf n (publish_confirm c) = n ≡ command_publish_confirm
  IsKeyOf n (publish_error c) = n ≡ command_publish_error
  IsKeyOf n (query_offset c) = n ≡ command_query_offset
  IsKeyOf n (credit c) = n ≡ command_credit
  IsKeyOf n (query_publisher_sequence c) = n ≡ command_query_publisher_sequence
  IsKeyOf n (exchange_command_versions c) = n ≡ command_exchange_command_versions
  IsKeyOf n (super_stream_partitions c) = n ≡ command_partitions
  IsKeyOf n (super_stream_route c) = n ≡ command_route
  IsKeyOf n (consumer_update c) = n ≡ command_consumer_update
  IsKeyOf n (consumer_update_request c) = ⊥

  -- The responses that read back: fields of their Rust types, texts as `IsText` has them, lists that
  -- their lengths can announce, of `open_response` the code Ok, and messages that their own codec
  -- handles.
  abbrev pub IsValid : ResponseKind Message → Type 0
  IsValid (open_response c) = OpenResponse.IsValid c
  IsValid (close c) = CloseResponse.IsValid c
  IsValid (peer_properties c) = PeerPropertiesResponse.IsValid c
  IsValid (sasl_handshake c) = SaslHandshakeResponse.IsValid c
  IsValid (generic c) = Generic.IsValid c
  IsValid (tunes c) = Tune.IsValid c
  IsValid (deliver c) = Deliver.IsValid c
  IsValid (heartbeat c) = Unit
  IsValid (metadata c) = MetadataResponse.IsValid c
  IsValid (metadata_update c) = MetadataUpdate.IsValid c
  IsValid (publish_confirm c) = PublishConfirm.IsValid c
  IsValid (publish_error c) = PublishError.IsValid c
  IsValid (query_offset c) = QueryOffsetResponse.IsValid c
  IsValid (credit c) = CreditResponse.IsValid c
  IsValid (query_publisher_sequence c) = QueryPublisherResponse.IsValid c
  IsValid (exchange_command_versions c) = ExchangeCommandVersionsResponse.IsValid c
  IsValid (super_stream_partitions c) = SuperStreamPartitionsResponse.IsValid c
  IsValid (super_stream_route c) = SuperStreamRouteResponse.IsValid c
  IsValid (consumer_update c) = ConsumerUpdate.IsValid c
  IsValid (consumer_update_request c) = Unit

  -- The number of bytes that a response of the kind is written in behind its header.
  abbrev pub kind_len : ResponseKind Message → ℕ
  kind_len (open_response c) = OpenResponse.wire_len c
  kind_len (close c) = CloseResponse.wire_len c
  kind_len (peer_properties c) = PeerPropertiesResponse.wire_len c
  kind_len (sasl_handshake c) = SaslHandshakeResponse.wire_len c
  kind_len (generic c) = Generic.wire_len c
  kind_len (tunes c) = Tune.wire_len c
  kind_len (deliver c) = Deliver.wire_len c
  kind_len (heartbeat c) = 0
  kind_len (metadata c) = MetadataResponse.wire_len c
  kind_len (metadata_update c) = MetadataUpdate.wire_len c
  kind_len (publish_confirm c) = PublishConfirm.wire_len c
  kind_len (publish_error c) = PublishError.wire_len c
  kind_len (query_offset c) = QueryOffsetResponse.wire_len c
  kind_len (credit c) = CreditResponse.wire_len c
  kind_len (query_publisher_sequence c) = QueryPublisherResponse.wire_len c
  kind_len (exchange_command_versions c) = ExchangeCommandVersionsResponse.wire_len c
  kind_len (super_stream_partitions c) = SuperStreamPartitionsResponse.wire_len c
  kind_len (super_stream_route c) = SuperStreamRouteResponse.wire_len c
  kind_len (consumer_update c) = ConsumerUpdate.wire_len c
  kind_len (consumer_update_request c) = ConsumerUpdateRequest.wire_len c

  module _ ⦃b : ByteOrder⦄ where
    -- `ResponseKind::encode` of the tests.
    unfoldable pub encode_kind : ResponseKind Message → Emit
    encode_kind (open_response c) = OpenResponse.encode c
    encode_kind (close c) = CloseResponse.encode c
    encode_kind (peer_properties c) = PeerPropertiesResponse.encode c
    encode_kind (sasl_handshake c) = SaslHandshakeResponse.encode c
    encode_kind (generic c) = Generic.encode c
    encode_kind (tunes c) = Tune.encode c
    encode_kind (deliver c) = Deliver.encode c
    encode_kind (heartbeat c) = HeartBeat.encode c
    encode_kind (metadata c) = MetadataResponse.encode c
    encode_kind (metadata_update c) = MetadataUpdate.encode c
    encode_kind (publish_confirm c) = PublishConfirm.encode c
    encode_kind (publish_error c) = PublishError.encode c
    encode_kind (query_offset c) = QueryOffsetResponse.encode c
    encode_kind (credit c) = CreditResponse.encode c
    encode_kind (query_publisher_sequence c) = QueryPublisherResponse.encode c
    encode_kind (exchange_command_versions c) = ExchangeCommandVersionsResponse.encode c
    encode_kind (super_stream_partitions c) = SuperStreamPartitionsResponse.encode c
    encode_kind (super_stream_route c) = SuperStreamRouteResponse.encode c
    encode_kind (consumer_update c) = ConsumerUpdate.encode c
    encode_kind (consumer_update_request c) = ConsumerUpdateRequest.encode c

    -- A frame with the announced length `len`.
    unfoldable pub encode_frame_of : ℕ → Response Message → Emit
    unfolding encode_kind
    encode_frame_of len r = encode_u32 len ⊕ encode_header r.header ⊕ encode_kind r.kind

    kind-Codes :
        (n : ℕ) (k : ResponseKind Message)
        → IsKeyOf n k
        → IsValid k
        → Codes (decode_kind n) (encode_kind k) (kind_len k) k
    unfolding decode_kind encode_kind pure is_generic
    kind-Codes n (open_response c) e h =
        rw e (Codes-last _ (OpenResponse.decode-Codes c h) (λ rest. refl))
    kind-Codes n (close c) e h = rw e (Codes-last _ (CloseResponse.decode-Codes c h) (λ rest. refl))
    kind-Codes n (peer_properties c) e h =
        rw e (Codes-last _ (PeerPropertiesResponse.decode-Codes c h) (λ rest. refl))
    kind-Codes n (sasl_handshake c) e h =
        rw e (Codes-last _ (SaslHandshakeResponse.decode-Codes c h) (λ rest. refl))
    kind-Codes n (generic c) e h =
        rw
          (
            generic_apart n command_open e refl,
            generic_apart n command_close e refl,
            generic_apart n command_peer_properties e refl,
            generic_apart n command_sasl_handshake e refl,
            e,
          )
          (Codes-last _ (Generic.decode-Codes c h) (λ rest. refl))
    kind-Codes n (tunes c) e h = rw e (Codes-last _ (Tune.decode-Codes c h) (λ rest. refl))
    kind-Codes n (deliver c) e h = rw e (Codes-last _ (Deliver.decode-Codes c h) (λ rest. refl))
    kind-Codes n (heartbeat c) e h = rw e (Codes-last _ (HeartBeat.decode-Codes c) (λ rest. refl))
    kind-Codes n (metadata c) e h =
        rw e (Codes-last _ (MetadataResponse.decode-Codes c h) (λ rest. refl))
    kind-Codes n (metadata_update c) e h =
        rw e (Codes-last _ (MetadataUpdate.decode-Codes c h) (λ rest. refl))
    kind-Codes n (publish_confirm c) e h =
        rw e (Codes-last _ (PublishConfirm.decode-Codes c h) (λ rest. refl))
    kind-Codes n (publish_error c) e h =
        rw e (Codes-last _ (PublishError.decode-Codes c h) (λ rest. refl))
    kind-Codes n (query_offset c) e h =
        rw e (Codes-last _ (QueryOffsetResponse.decode-Codes c h) (λ rest. refl))
    kind-Codes n (credit c) e h =
        rw e (Codes-last _ (CreditResponse.decode-Codes c h) (λ rest. refl))
    kind-Codes n (query_publisher_sequence c) e h =
        rw e (Codes-last _ (QueryPublisherResponse.decode-Codes c h) (λ rest. refl))
    kind-Codes n (exchange_command_versions c) e h =
        rw e (Codes-last _ (ExchangeCommandVersionsResponse.decode-Codes c h) (λ rest. refl))
    kind-Codes n (super_stream_partitions c) e h =
        rw e (Codes-last _ (SuperStreamPartitionsResponse.decode-Codes c h) (λ rest. refl))
    kind-Codes n (super_stream_route c) e h =
        rw e (Codes-last _ (SuperStreamRouteResponse.decode-Codes c h) (λ rest. refl))
    kind-Codes n (consumer_update c) e h =
        rw e (Codes-last _ (ConsumerUpdate.decode-Codes c h) (λ rest. refl))
    kind-Codes n (consumer_update_request c) e h = absurd e

    -- The frame of a response, whatever length below 2^32 it announces, decodes back to the
    -- response under its key without the top bit, leaving what follows it, provided that this key
    -- is one of the response's kind, which a consumer update request has none of, its numbers fit
    -- their Rust types, its texts are UTF-8, not empty and shorter than 2^15 bytes, lists are
    -- shorter than 2^31, maps have distinct keys, an open response has the code Ok, and delivered
    -- messages are kept by their own codec in less than 2^31 bytes.
    pub decode-encode_frame_of :
        (len : ℕ) (h : Header) (k : ResponseKind Message) (rest : List ℕ)
        → len < u32_mod
        → h.key < u16_mod
        → h.version < u16_mod
        → IsKeyOf (extract_response_code h.key) k
        → IsValid k
        → decode (bytes (encode_frame_of len (record { header = h; kind = k })) ++ rest)
          ≡ ok (
            rest,
            record {
              header = record { key = extract_response_code h.key; version = h.version };
              kind = k;
            },
          )
    unfolding decode encode_frame_of pure
    decode-encode_frame_of len h k rest small key version e valid =
        (Codes-bind _ (u32-Codes len small) (
            Codes-bind _ (header-Codes h key version) (
              Codes-last _ (kind-Codes (extract_response_code h.key) k e valid)
                (λ rest. refl)))).reads
          rest
