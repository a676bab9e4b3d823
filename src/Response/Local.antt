-- ===== src/Response/Local.antt =====
-- A response that was decoded depends on the bytes that it was decoded from and on no others.
use rabbitmq_stream_rust_cli.Prelude.{ℕ}
use rabbitmq_stream_rust_cli.Codec.ByteOrder.{ByteOrder}
use rabbitmq_stream_rust_cli.Codec.Local.{IsLocal, local_rules}
use rabbitmq_stream_rust_cli.Codec.Ints.Laws.{int_local_rules}
use rabbitmq_stream_rust_cli.Message.{MessageCodec}
use rabbitmq_stream_rust_cli.Header.{decode_header-IsLocal}
use rabbitmq_stream_rust_cli.Response.{decode_kind, decode}
use rabbitmq_stream_rust_cli.Commands.OpenResponse
use rabbitmq_stream_rust_cli.Commands.CloseResponse
use rabbitmq_stream_rust_cli.Commands.PeerPropertiesResponse
use rabbitmq_stream_rust_cli.Commands.SaslHandshakeResponse
use rabbitmq_stream_rust_cli.Commands.Generic
use rabbitmq_stream_rust_cli.Commands.Tune
use rabbitmq_stream_rust_cli.Commands.Deliver
use rabbitmq_stream_rust_cli.Commands.HeartBeat
use rabbitmq_stream_rust_cli.Commands.MetadataResponse
use rabbitmq_stream_rust_cli.Commands.MetadataUpdate
use rabbitmq_stream_rust_cli.Commands.PublishConfirm
use rabbitmq_stream_rust_cli.Commands.PublishError
use rabbitmq_stream_rust_cli.Commands.QueryOffsetResponse
use rabbitmq_stream_rust_cli.Commands.CreditResponse
use rabbitmq_stream_rust_cli.Commands.QueryPublisherResponse
use rabbitmq_stream_rust_cli.Commands.ExchangeCommandVersionsResponse
use rabbitmq_stream_rust_cli.Commands.SuperStreamPartitionsResponse
use rabbitmq_stream_rust_cli.Commands.SuperStreamRouteResponse
use rabbitmq_stream_rust_cli.Commands.ConsumerUpdate

ruleset command_rules = (
  OpenResponse.decode-IsLocal, CloseResponse.decode-IsLocal, PeerPropertiesResponse.decode-IsLocal,
  SaslHandshakeResponse.decode-IsLocal, Generic.decode-IsLocal, Tune.decode-IsLocal,
  Deliver.decode-IsLocal, HeartBeat.decode-IsLocal, MetadataResponse.decode-IsLocal,
  MetadataUpdate.decode-IsLocal, PublishConfirm.decode-IsLocal, PublishError.decode-IsLocal,
  QueryOffsetResponse.decode-IsLocal, CreditResponse.decode-IsLocal,
  QueryPublisherResponse.decode-IsLocal, ExchangeCommandVersionsResponse.decode-IsLocal,
  SuperStreamPartitionsResponse.decode-IsLocal, SuperStreamRouteResponse.decode-IsLocal,
  ConsumerUpdate.decode-IsLocal,
)

module _ {Message : Type 0} ⦃m : MessageCodec Message⦄ ⦃b : ByteOrder⦄ where
  kind-IsLocal : (n : ℕ) → IsLocal (decode_kind {Message = Message} n)
  unfolding decode_kind
  kind-IsLocal n = search (local_rules, command_rules) depth 60

  pub decode-IsLocal : IsLocal (decode {Message = Message})
  unfolding decode
  decode-IsLocal =
      search (local_rules, int_local_rules, decode_header-IsLocal, kind-IsLocal) depth 12
