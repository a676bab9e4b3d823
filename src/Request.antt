-- ===== src/Request.antt =====
-- protocol/src/request: `Request`, `RequestKind` and their codecs, and the keys and versions of the
-- `Command` trait (protocol/src/commands/mod.rs).
pub mod Laws
pub mod RoundTrip
use rabbitmq_stream_rust_cli.Prelude.{ℕ, ◌+◌, ◌%◌, ◌==◌, if◌then◌else◌}
use rabbitmq_stream_rust_cli.Protocol.{
  protocol_version, command_peer_properties, command_sasl_handshake, command_sasl_authenticate,
  command_tune, command_open, command_close, command_delete_stream, command_create_stream,
  command_subscribe, command_credit, command_metadata, command_declare_publisher,
  command_delete_publisher, command_heartbeat, command_publish, command_query_offset,
  command_query_publisher_sequence, command_store_offset, command_unsubscribe,
  command_exchange_command_versions, command_create_super_stream, command_delete_super_stream,
  command_partitions, command_route, command_consumer_update_request,
}
use rabbitmq_stream_rust_cli.Codec.Outcome.{Decode, unsupported_response_type, pure, fail, ◌>>=◌}
use rabbitmq_stream_rust_cli.Codec.Emit.{Emit, ◌⊕◌}
use rabbitmq_stream_rust_cli.Codec.ByteOrder.{ByteOrder}
use rabbitmq_stream_rust_cli.Codec.Ints.{◌⊞◌, read_u32, encode_u32}
use rabbitmq_stream_rust_cli.Message.{MessageCodec}
use rabbitmq_stream_rust_cli.Header.{Header, header_size, encode_header, decode_header}
use rabbitmq_stream_rust_cli.Commands.PeerProperties
use rabbitmq_stream_rust_cli.Commands.PeerProperties.{PeerPropertiesCommand}
use rabbitmq_stream_rust_cli.Commands.SaslHandshake
use rabbitmq_stream_rust_cli.Commands.SaslHandshake.{SaslHandshakeCommand}
use rabbitmq_stream_rust_cli.Commands.SaslAuthenticate
use rabbitmq_stream_rust_cli.Commands.SaslAuthenticate.{SaslAuthenticateCommand}
use rabbitmq_stream_rust_cli.Commands.Tune
use rabbitmq_stream_rust_cli.Commands.Tune.{TunesCommand}
use rabbitmq_stream_rust_cli.Commands.Open
use rabbitmq_stream_rust_cli.Commands.Open.{OpenCommand}
use rabbitmq_stream_rust_cli.Commands.Close
use rabbitmq_stream_rust_cli.Commands.Close.{CloseRequest}
use rabbitmq_stream_rust_cli.Commands.Delete
use rabbitmq_stream_rust_cli.Commands.Delete.{Delete}
use rabbitmq_stream_rust_cli.Commands.CreateStream
use rabbitmq_stream_rust_cli.Commands.CreateStream.{CreateStreamCommand}
use rabbitmq_stream_rust_cli.Commands.Subscribe
use rabbitmq_stream_rust_cli.Commands.Subscribe.{SubscribeCommand}
use rabbitmq_stream_rust_cli.Commands.Credit
use rabbitmq_stream_rust_cli.Commands.Credit.{CreditCommand}
use rabbitmq_stream_rust_cli.Commands.Metadata
use rabbitmq_stream_rust_cli.Commands.Metadata.{MetadataCommand}
use rabbitmq_stream_rust_cli.Commands.DeclarePublisher
use rabbitmq_stream_rust_cli.Commands.DeclarePublisher.{DeclarePublisherCommand}
use rabbitmq_stream_rust_cli.Commands.DeletePublisher
use rabbitmq_stream_rust_cli.Commands.DeletePublisher.{DeletePublisherCommand}
use rabbitmq_stream_rust_cli.Commands.HeartBeat
use rabbitmq_stream_rust_cli.Commands.HeartBeat.{HeartBeatCommand}
use rabbitmq_stream_rust_cli.Commands.Publish
use rabbitmq_stream_rust_cli.Commands.Publish.{PublishCommand}
use rabbitmq_stream_rust_cli.Commands.QueryOffset
use rabbitmq_stream_rust_cli.Commands.QueryOffset.{QueryOffsetRequest}
use rabbitmq_stream_rust_cli.Commands.QueryPublisherSequence
use rabbitmq_stream_rust_cli.Commands.QueryPublisherSequence.{QueryPublisherRequest}
use rabbitmq_stream_rust_cli.Commands.StoreOffset
use rabbitmq_stream_rust_cli.Commands.StoreOffset.{StoreOffset}
use rabbitmq_stream_rust_cli.Commands.Unsubscribe
use rabbitmq_stream_rust_cli.Commands.Unsubscribe.{UnSubscribeCommand}
use rabbitmq_stream_rust_cli.Commands.ExchangeCommandVersions
use rabbitmq_stream_rust_cli.Commands.ExchangeCommandVersions.{ExchangeCommandVersionsRequest}
use rabbitmq_stream_rust_cli.Commands.CreateSuperStream
use rabbitmq_stream_rust_cli.Commands.CreateSuperStream.{CreateSuperStreamCommand}
use rabbitmq_stream_rust_cli.Commands.DeleteSuperStream
use rabbitmq_stream_rust_cli.Commands.DeleteSuperStream.{DeleteSuperStreamCommand}
use rabbitmq_stream_rust_cli.Commands.SuperStreamPartitions
use rabbitmq_stream_rust_cli.Commands.SuperStreamPartitions.{SuperStreamPartitionsRequest}
use rabbitmq_stream_rust_cli.Commands.SuperStreamRoute
use rabbitmq_stream_rust_cli.Commands.SuperStreamRoute.{SuperStreamRouteRequest}
use rabbitmq_stream_rust_cli.Commands.ConsumerUpdateRequest
use rabbitmq_stream_rust_cli.Commands.ConsumerUpdateRequest.{ConsumerUpdateRequestCommand}

pub data RequestKind (Message : Type 0) : Type 0 where
  peer_properties : PeerPropertiesCommand → RequestKind Message
  sasl_handshake : SaslHandshakeCommand → RequestKind Message
  sasl_authenticate : SaslAuthenticateCommand → RequestKind Message
  tunes : TunesCommand → RequestKind Message
  open_command : OpenCommand → RequestKind Message
  close : CloseRequest → RequestKind Message
  delete : Delete → RequestKind Message
  create_stream : CreateStreamCommand → RequestKind Message
  subscribe : SubscribeCommand → RequestKind Message
  credit : CreditCommand → RequestKind Message
  metadata : MetadataCommand → RequestKind Message
  declare_publisher : DeclarePublisherCommand → RequestKind Message
  delete_publisher : DeletePublisherCommand → RequestKind Message
  heartbeat : HeartBeatCommand → RequestKind Message
  publish : PublishCommand Message → RequestKind Message
  query_offset : QueryOffsetRequest → RequestKind Message
  query_publisher_sequence : QueryPublisherRequest → RequestKind Message
  store_offset : StoreOffset → RequestKind Message
  unsubscribe : UnSubscribeCommand → RequestKind Message
  exchange_command_versions : ExchangeCommandVersionsRequest → RequestKind Message
  create_super_stream : CreateSuperStreamCommand → RequestKind Message
  delete_super_stream : DeleteSuperStreamCommand → RequestKind Message
  super_stream_partitions : SuperStreamPartitionsRequest → RequestKind Message
  super_stream_route : SuperStreamRouteRequest → RequestKind Message
  consumer_update_request : ConsumerUpdateRequestCommand → RequestKind Message

pub record Request (Message : Type 0) : Type 0 where
  pub header : Header
  pub kind : RequestKind Message

module _ {Message : Type 0} where
  -- `Command::key`
  abbrev pub key : RequestKind Message → ℕ
  key (peer_properties c) = command_peer_properties
  key (sasl_handshake c) = command_sasl_handshake
  key (sasl_authenticate c) = command_sasl_authenticate
  key (tunes c) = command_tune
  key (open_command c) = command_open
  key (close c) = command_close
  key (delete c) = command_delete_stream
  key (create_stream c) = command_create_stream
  key (subscribe c) = command_subscribe
  key (credit c) = command_credit
  key (metadata c) = command_metadata
  key (declare_publisher c) = command_declare_publisher
  key (delete_publisher c) = command_delete_publisher
  key (heartbeat c) = command_heartbeat
  key (publish c) = command_publish
  key (query_offset c) = command_query_offset
  key (query_publisher_sequence c) = command_query_publisher_sequence
  key (store_offset c) = command_store_offset
  key (unsubscribe c) = command_unsubscribe
  key (exchange_command_versions c) = command_exchange_command_versions
  key (create_super_stream c) = command_create_super_stream
  key (delete_super_stream c) = command_delete_super_stream
  key (super_stream_partitions c) = command_partitions
  key (super_stream_route c) = command_route
  key (consumer_update_request c) = command_consumer_update_request

  -- `Command::version`
  abbrev pub version : RequestKind Message → ℕ
  version (publish c) = c.version
  version _ = protocol_version

  -- `impl From<T> for Request`
  abbrev pub from_kind : RequestKind Message → Request Message
  from_kind k = record { header = record { key = key k; version = version k }; kind = k }

module _ {Message : Type 0} ⦃m : MessageCodec Message⦄ where
  -- `RequestKind::encoded_size`
  unfoldable pub kind_size : RequestKind Message → ℕ
  kind_size (peer_properties c) = PeerProperties.encoded_size c
  kind_size (sasl_handshake c) = SaslHandshake.encoded_size c
  kind_size (sasl_authenticate c) = SaslAuthenticate.encoded_size c
  kind_size (tunes c) = Tune.encoded_size c
  kind_size (open_command c) = Open.encoded_size c
  kind_size (close c) = Close.encoded_size c
  kind_size (delete c) = Delete.encoded_size c
  kind_size (create_stream c) = CreateStream.encoded_size c
  kind_size (subscribe c) = Subscribe.encoded_size c
  kind_size (credit c) = Credit.encoded_size c
  kind_size (metadata c) = Metadata.encoded_size c
  kind_size (declare_publisher c) = DeclarePublisher.encoded_size c
  kind_size (delete_publisher c) = DeletePublisher.encoded_size c
  kind_size (heartbeat c) = HeartBeat.encoded_size c
  kind_size (publish c) = Publish.encoded_size c
  kind_size (query_offset c) = QueryOffset.encoded_size c
  kind_size (query_publisher_sequence c) = QueryPublisherSequence.encoded_size c
  kind_size (store_offset c) = StoreOffset.encoded_size c
  kind_size (unsubscribe c) = Unsubscribe.encoded_size c
  kind_size (exchange_command_versions c) = ExchangeCommandVersions.encoded_size c
  kind_size (create_super_stream c) = CreateSuperStream.encoded_size c
  kind_size (delete_super_stream c) = DeleteSuperStream.encoded_size c
  kind_size (super_stream_partitions c) = SuperStreamPartitions.encoded_size c
  kind_size (super_stream_route c) = SuperStreamRoute.encoded_size c
  kind_size (consumer_update_request c) = ConsumerUpdateRequest.encoded_size c

  -- `Request::encoded_size`
  unfoldable pub encoded_size : Request Message → ℕ
  unfolding kind_size
  encoded_size r = header_size ⊞ kind_size r.kind

  module _ ⦃b : ByteOrder⦄ where
    -- `RequestKind::encode`
    unfoldable pub encode_kind : RequestKind Message → Emit
    encode_kind (peer_properties c) = PeerProperties.encode c
    encode_kind (sasl_handshake c) = SaslHandshake.encode c
    encode_kind (sasl_authenticate c) = SaslAuthenticate.encode c
    encode_kind (tunes c) = Tune.encode c
    encode_kind (open_command c) = Open.encode c
    encode_kind (close c) = Close.encode c
    encode_kind (delete c) = Delete.encode c
    encode_kind (create_stream c) = CreateStream.encode c
    encode_kind (subscribe c) = Subscribe.encode c
    encode_kind (credit c) = Credit.encode c
    encode_kind (metadata c) = Metadata.encode c
    encode_kind (declare_publisher c) = DeclarePublisher.encode c
    encode_kind (delete_publisher c) = DeletePublisher.encode c
    encode_kind (heartbeat c) = HeartBeat.encode c
    encode_kind (publish c) = Publish.encode c
    encode_kind (query_offset c) = QueryOffset.encode c
    encode_kind (query_publisher_sequence c) = QueryPublisherSequence.encode c
    encode_kind (store_offset c) = StoreOffset.encode c
    encode_kind (unsubscribe c) = Unsubscribe.encode c
    encode_kind (exchange_command_versions c) = ExchangeCommandVersions.encode c
    encode_kind (create_super_stream c) = CreateSuperStream.encode c
    encode_kind (delete_super_stream c) = DeleteSuperStream.encode c
    encode_kind (super_stream_partitions c) = SuperStreamPartitions.encode c
    encode_kind (super_stream_route c) = SuperStreamRoute.encode c
    encode_kind (consumer_update_request c) = ConsumerUpdateRequest.encode c

    -- `Request::encode`
    unfoldable pub encode : Request Message → Emit
    unfolding encode_kind encoded_size
    encode r = encode_u32 (encoded_size r) ⊕ encode_header r.header ⊕ encode_kind r.kind

    -- The `match header.key()` of `Request::decode`.
    unfoldable pub decode_kind : ℕ → Decode (RequestKind Message)
    decode_kind n =
        if n == command_open
        then (do c ← Open.decode; pure (open_command c))
        else if n == command_peer_properties
        then (do c ← PeerProperties.decode; pure (peer_properties c))
        else if n == command_sasl_handshake
        then (do c ← SaslHandshake.decode; pure (sasl_handshake c))
        else if n == command_sasl_authenticate
        then (do c ← SaslAuthenticate.decode; pure (sasl_authenticate c))
        else if n == command_tune
        then (do c ← Tune.decode; pure (tunes c))
        else if n == command_delete_stream
        then (do c ← Delete.decode; pure (delete c))
        else if n == command_create_stream
        then (do c ← CreateStream.decode; pure (create_stream c))
        else if n == command_metadata
        then (do c ← Metadata.decode; pure (metadata c))
        else if n == command_close
        then (do c ← Close.decode; pure (close c))
        else if n == command_credit
        then (do c ← Credit.decode; pure (credit c))
        else if n == command_declare_publisher
        then (do c ← DeclarePublisher.decode; pure (declare_publisher c))
        else if n == command_delete_publisher
        then (do c ← DeletePublisher.decode; pure (delete_publisher c))
        else if n == command_heartbeat
        then (do c ← HeartBeat.decode; pure (heartbeat c))
        else if n == command_publish
        then (do c ← Publish.decode; pure (publish c))
        else if n == command_query_offset
        then (do c ← QueryOffset.decode; pure (query_offset c))
        else if n == command_query_publisher_sequence
        then (do c ← QueryPublisherSequence.decode; pure (query_publisher_sequence c))
        else if n == command_store_offset
        then (do c ← StoreOffset.decode; pure (store_offset c))
        else if n == command_subscribe
        then (do c ← Subscribe.decode; pure (subscribe c))
        else if n == command_unsubscribe
        then (do c ← Unsubscribe.decode; pure (unsubscribe c))
        else if n == command_exchange_command_versions
        then (do c ← ExchangeCommandVersions.decode; pure (exchange_command_versions c))
        else if n == command_create_super_stream
        then (do c ← CreateSuperStream.decode; pure (create_super_stream c))
        else if n == command_delete_super_stream
        then (do c ← DeleteSuperStream.decode; pure (delete_super_stream c))
        else if n == command_partitions
        then (do c ← SuperStreamPartitions.decode; pure (super_stream_partitions c))
        else if n == command_route
        then (do c ← SuperStreamRoute.decode; pure (super_stream_route c))
        else if n == command_consumer_update_request
        then (do c ← ConsumerUpdateRequest.decode; pure (consumer_update_request c))
        else fail (unsupported_response_type n)

    -- `Request::decode`: the length of the frame is read and not looked at.
    unfoldable pub decode : Decode (Request Message)
    unfolding decode_kind
    decode = do
      len ← read_u32
      header ← decode_header
      kind ← decode_kind header.key
      pure (record { header = header; kind = kind })
