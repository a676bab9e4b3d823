-- ===== src/Response.antt =====
-- protocol/src/response: `Response`, `ResponseKind` and their decoder.
pub mod Local
pub mod Correlation
pub mod RoundTrip
use rabbitmq_stream_rust_cli.Prelude.{ℕ, Bool, Option, some, none, ◌==◌, ◌||◌, if◌then◌else◌}
use rabbitmq_stream_rust_cli.Protocol.{
  command_open, command_close, command_peer_properties, command_sasl_handshake,
  command_declare_publisher, command_delete_publisher, command_sasl_authenticate, command_subscribe,
  command_unsubscribe, command_create_stream, command_create_super_stream,
  command_delete_super_stream, command_consumer_update_request, command_delete_stream, command_tune,
  command_deliver, command_heartbeat, command_metadata, command_metadata_update,
  command_publish_confirm, command_publish_error, command_query_offset, command_credit,
  command_query_publisher_sequence, command_exchange_command_versions, command_partitions,
  command_route, command_consumer_update,
}
use rabbitmq_stream_rust_cli.Codec.Outcome.{Decode, unsupported_response_type, pure, fail, ◌>>=◌}
use rabbitmq_stream_rust_cli.Codec.ByteOrder.{ByteOrder}
use rabbitmq_stream_rust_cli.Codec.Ints.{read_u32}
use rabbitmq_stream_rust_cli.Message.{MessageCodec}
use rabbitmq_stream_rust_cli.Header.{Header, decode_header}
use rabbitmq_stream_rust_cli.Commands.OpenResponse
use rabbitmq_stream_rust_cli.Commands.OpenResponse.{OpenResponse}
use rabbitmq_stream_rust_cli.Commands.CloseResponse
use rabbitmq_stream_rust_cli.Commands.CloseResponse.{CloseResponse}
use rabbitmq_stream_rust_cli.Commands.PeerPropertiesResponse
use rabbitmq_stream_rust_cli.Commands.PeerPropertiesResponse.{PeerPropertiesResponse}
use rabbitmq_stream_rust_cli.Commands.SaslHandshakeResponse
use rabbitmq_stream_rust_cli.Commands.SaslHandshakeResponse.{SaslHandshakeResponse}
use rabbitmq_stream_rust_cli.Commands.Generic
use rabbitmq_stream_rust_cli.Commands.Generic.{GenericResponse}
use rabbitmq_stream_rust_cli.Commands.Tune
use rabbitmq_stream_rust_cli.Commands.Tune.{TunesCommand}
use rabbitmq_stream_rust_cli.Commands.Deliver
use rabbitmq_stream_rust_cli.Commands.Deliver.{DeliverCommand}
use rabbitmq_stream_rust_cli.Commands.HeartBeat
use rabbitmq_stream_rust_cli.Commands.HeartBeat.{HeartBeatCommand}
use rabbitmq_stream_rust_cli.Commands.MetadataResponse
use rabbitmq_stream_rust_cli.Commands.MetadataResponse.{MetadataResponse}
use rabbitmq_stream_rust_cli.Commands.MetadataUpdate
use rabbitmq_stream_rust_cli.Commands.MetadataUpdate.{MetadataUpdateCommand}
use rabbitmq_stream_rust_cli.Commands.PublishConfirm
use rabbitmq_stream_rust_cli.Commands.PublishConfirm.{PublishConfirm}
use rabbitmq_stream_rust_cli.Commands.PublishError
use rabbitmq_stream_rust_cli.Commands.PublishError.{PublishErrorResponse}
use rabbitmq_stream_rust_cli.Commands.QueryOffsetResponse
use rabbitmq_stream_rust_cli.Commands.QueryOffsetResponse.{QueryOffsetResponse}
use rabbitmq_stream_rust_cli.Commands.CreditResponse
use rabbitmq_stream_rust_cli.Commands.CreditResponse.{CreditResponse}
use rabbitmq_stream_rust_cli.Commands.QueryPublisherResponse
use rabbitmq_stream_rust_cli.Commands.QueryPublisherResponse.{QueryPublisherResponse}
use rabbitmq_stream_rust_cli.Commands.ExchangeCommandVersionsResponse
use rabbitmq_stream_rust_cli.Commands.ExchangeCommandVersionsResponse.{
  ExchangeCommandVersionsResponse,
}
use rabbitmq_stream_rust_cli.Commands.SuperStreamPartitionsResponse
use rabbitmq_stream_rust_cli.Commands.SuperStreamPartitionsResponse.{SuperStreamPartitionsResponse}
use rabbitmq_stream_rust_cli.Commands.SuperStreamRouteResponse
use rabbitmq_stream_rust_cli.Commands.SuperStreamRouteResponse.{SuperStreamRouteResponse}
use rabbitmq_stream_rust_cli.Commands.ConsumerUpdate
use rabbitmq_stream_rust_cli.Commands.ConsumerUpdate.{ConsumerUpdateCommand}
use rabbitmq_stream_rust_cli.Commands.ConsumerUpdateRequest
use rabbitmq_stream_rust_cli.Commands.ConsumerUpdateRequest.{ConsumerUpdateRequestCommand}

pub data ResponseKind (Message : Type 0) : Type 0 where
  open_response : OpenResponse → ResponseKind Message
  close : CloseResponse → ResponseKind Message
  peer_properties : PeerPropertiesResponse → ResponseKind Message
  sasl_handshake : SaslHandshakeResponse → ResponseKind Message
  generic : GenericResponse → ResponseKind Message
  tunes : TunesCommand → ResponseKind Message
  deliver : DeliverCommand Message → ResponseKind Message
  heartbeat : HeartBeatCommand → ResponseKind Message
  metadata : MetadataResponse → ResponseKind Message
  metadata_update : MetadataUpdateCommand → ResponseKind Message
  publish_confirm : PublishConfirm → ResponseKind Message
  publish_error : PublishErrorResponse → ResponseKind Message
  query_offset : QueryOffsetResponse → ResponseKind Message
  credit : CreditResponse → ResponseKind Message
  query_publisher_sequence : QueryPublisherResponse → ResponseKind Message
  exchange_command_versions : ExchangeCommandVersionsResponse → ResponseKind Message
  super_stream_partitions : SuperStreamPartitionsResponse → ResponseKind Message
  super_stream_route : SuperStreamRouteResponse → ResponseKind Message
  consumer_update : ConsumerUpdateCommand → ResponseKind Message
  consumer_update_request : ConsumerUpdateRequestCommand → ResponseKind Message

pub record Response (Message : Type 0) : Type 0 where
  pub header : Header
  pub kind : ResponseKind Message

module _ {Message : Type 0} where
  -- The `match` of `Response::correlation_id`.
  unfoldable pub kind_correlation_id : ResponseKind Message → Option ℕ
  kind_correlation_id (open_response c) = some c.correlation_id
  kind_correlation_id (close c) = some c.correlation_id
  kind_correlation_id (peer_properties c) = some c.correlation_id
  kind_correlation_id (sasl_handshake c) = some c.correlation_id
  kind_correlation_id (generic c) = some c.correlation_id
  kind_correlation_id (tunes c) = none
  kind_correlation_id (deliver c) = none
  kind_correlation_id (heartbeat c) = none
  kind_correlation_id (metadata c) = some c.correlation_id
  kind_correlation_id (metadata_update c) = none
  kind_correlation_id (publish_confirm c) = none
  kind_correlation_id (publish_error c) = none
  kind_correlation_id (query_offset c) = some c.correlation_id
  kind_correlation_id (credit c) = none
  kind_correlation_id (query_publisher_sequence c) = some c.correlation_id
  kind_correlation_id (exchange_command_versions c) = some c.correlation_id
  kind_correlation_id (super_stream_partitions c) = some c.correlation_id
  kind_correlation_id (super_stream_route c) = some c.correlation_id
  kind_correlation_id (consumer_update c) = some c.correlation_id
  kind_correlation_id (consumer_update_request c) = some c.correlation_id

  -- `Response::correlation_id`
  unfoldable pub correlation_id : Response Message → Option ℕ
  unfolding kind_correlation_id
  correlation_id r = kind_correlation_id r.kind

-- The keys that the generic answer serves.
unfoldable pub is_generic : ℕ → Bool
is_generic n =
    n == command_declare_publisher
    || n == command_delete_publisher
    || n == command_sasl_authenticate
    || n == command_subscribe
    || n == command_unsubscribe
    || n == command_create_stream
    || n == command_create_super_stream
    || n == command_delete_super_stream
    || n == command_consumer_update_request
    || n == command_delete_stream

module _ {Message : Type 0} ⦃m : MessageCodec Message⦄ ⦃b : ByteOrder⦄ where
  -- The `match header.key()` of `Response::decode`.
  unfoldable pub decode_kind : ℕ → Decode (ResponseKind Message)
  unfolding is_generic
  decode_kind n =
      if n == command_open
      then (do c ← OpenResponse.decode; pure (open_response c))
      else if n == command_close
      then (do c ← CloseResponse.decode; pure (close c))
      else if n == command_peer_properties
      then (do c ← PeerPropertiesResponse.decode; pure (peer_properties c))
      else if n == command_sasl_handshake
      then (do c ← SaslHandshakeResponse.decode; pure (sasl_handshake c))
      else if is_generic n
      then (do c ← Generic.decode; pure (generic c))
      else if n == command_tune
      then (do c ← Tune.decode; pure (tunes c))
      else if n == command_deliver
      then (do c ← Deliver.decode; pure (deliver c))
      else if n == command_heartbeat
      then (do c ← HeartBeat.decode; pure (heartbeat c))
      else if n == command_metadata
      then (do c ← MetadataResponse.decode; pure (metadata c))
      else if n == command_metadata_update
      then (do c ← MetadataUpdate.decode; pure (metadata_update c))
      else if n == command_publish_confirm
      then (do c ← PublishConfirm.decode; pure (publish_confirm c))
      else if n == command_publish_error
      then (do c ← PublishError.decode; pure (publish_error c))
      else if n == command_query_offset
      then (do c ← QueryOffsetResponse.decode; pure (query_offset c))
      else if n == command_credit
      then (do c ← CreditResponse.decode; pure (credit c))
      else if n == command_query_publisher_sequence
      then (do c ← QueryPublisherResponse.decode; pure (query_publisher_sequence c))
      else if n == command_exchange_command_versions
      then (do c ← ExchangeCommandVersionsResponse.decode; pure (exchange_command_versions c))
      else if n == command_partitions
      then (do c ← SuperStreamPartitionsResponse.decode; pure (super_stream_partitions c))
      else if n == command_route
      then (do c ← SuperStreamRouteResponse.decode; pure (super_stream_route c))
      else if n == command_consumer_update
      then (do c ← ConsumerUpdate.decode; pure (consumer_update c))
      else fail (unsupported_response_type n)

  -- `Response::decode`: the length of the frame is read and not looked at.
  unfoldable pub decode : Decode (Response Message)
  unfolding decode_kind
  decode = do
    len ← read_u32
    header ← decode_header
    kind ← decode_kind header.key
    pure (record { header = header; kind = kind })
