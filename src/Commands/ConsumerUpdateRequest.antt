-- ===== src/Commands/ConsumerUpdateRequest.antt =====
-- `ConsumerUpdateRequestCommand` of protocol/src/commands/consumer_update_request.rs.
use rabbitmq_stream_rust_cli.Prelude.{ℕ, ◌+◌, ◌%◌, ◌<◌, ◌≡◌, refl, arith}
use rabbitmq_stream_rust_cli.Codec.Outcome.{Decode, pure, ◌>>=◌}
use rabbitmq_stream_rust_cli.Codec.Emit.{Emit, ◌⊕◌}
use rabbitmq_stream_rust_cli.Codec.ByteOrder.{ByteOrder}
use rabbitmq_stream_rust_cli.Codec.Laws.{Codes, Codes-bind, Codes-last}
use rabbitmq_stream_rust_cli.Codec.Local.{IsLocal, local_rules}
use rabbitmq_stream_rust_cli.Codec.Ints.{
  u16_mod, u32_mod, ◌⊞◌, u16_size, u32_size, read_u16, read_u32, encode_u16, encode_u32,
}
use rabbitmq_stream_rust_cli.Codec.Ints.Laws.{u16-Codes, u32-Codes, int_local_rules}
use rabbitmq_stream_rust_cli.Commands.OffsetSpecification
use rabbitmq_stream_rust_cli.Commands.OffsetSpecification.{
  OffsetSpecification, offset-Codes, encoded_size_lem,
}

pub record ConsumerUpdateRequestCommand : Type 0 where
  pub correlation_id : ℕ
  pub response_code : ℕ
  pub offset_specification : OffsetSpecification

-- The values of the fields' Rust types, with texts as `IsText` has them.
pub record IsValid (c : ConsumerUpdateRequestCommand) : Type 0 where
  pub correlation_id : c.correlation_id < u32_mod
  pub response_code : c.response_code < u16_mod
  pub offset_specification : OffsetSpecification.IsValid c.offset_specification

-- `ConsumerUpdateRequestCommand::encoded_size`
unfoldable pub encoded_size : ConsumerUpdateRequestCommand → ℕ
encoded_size c =
    u32_size c.correlation_id
    ⊞ u16_size c.response_code
    ⊞ OffsetSpecification.encoded_size c.offset_specification

-- The number of bytes that a `ConsumerUpdateRequestCommand` is written in.
abbrev pub wire_len : ConsumerUpdateRequestCommand → ℕ
wire_len c = 4 + (2 + OffsetSpecification.wire_len c.offset_specification)

-- The declared size is the true one, cut to 32 bits.
pub encoded_size-eq-wire_len :
    (c : ConsumerUpdateRequestCommand) → encoded_size c ≡ wire_len c % u32_mod
unfolding encoded_size
encoded_size-eq-wire_len c = omega (arith, encoded_size_lem c.offset_specification)

module _ ⦃b : ByteOrder⦄ where
  -- `ConsumerUpdateRequestCommand::encode`
  unfoldable pub encode : ConsumerUpdateRequestCommand → Emit
  encode c =
      encode_u32 c.correlation_id
      ⊕ encode_u16 c.response_code
      ⊕ OffsetSpecification.encode c.offset_specification

  -- `ConsumerUpdateRequestCommand::decode`
  unfoldable pub decode : Decode ConsumerUpdateRequestCommand
  decode = do
    correlation_id ← read_u32
    response_code ← read_u16
    offset_specification ← OffsetSpecification.decode
    pure (record {
      correlation_id = correlation_id;
      response_code = response_code;
      offset_specification = offset_specification;
    })

  -- A valid `ConsumerUpdateRequestCommand` reads back as itself, and the rest of the input is left.
  pub decode-Codes :
      (c : ConsumerUpdateRequestCommand) → IsValid c → Codes decode (encode c) (wire_len c) c
  unfolding decode encode pure
  decode-Codes c h = Codes-bind _ (u32-Codes c.correlation_id h.correlation_id) (
      Codes-bind _ (u16-Codes c.response_code h.response_code)
        (Codes-last _ (offset-Codes c.offset_specification h.offset_specification) (λ rest. refl)))

  pub decode-IsLocal : IsLocal decode
  unfolding decode
  decode-IsLocal =
      search (local_rules, int_local_rules, OffsetSpecification.decode-IsLocal) depth 24
