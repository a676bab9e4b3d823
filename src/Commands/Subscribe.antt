-- ===== src/Commands/Subscribe.antt =====
-- `SubscribeCommand` of protocol/src/commands/subscribe.rs.
use rabbitmq_stream_rust_cli.Prelude.{ℕ, ◌+◌, ◌%◌, ◌<◌, ◌≡◌, refl, arith}
use rabbitmq_stream_rust_cli.Codec.Outcome.{Decode, pure, unwrap, ◌>>=◌}
use rabbitmq_stream_rust_cli.Codec.Emit.{Emit, ◌⊕◌}
use rabbitmq_stream_rust_cli.Codec.ByteOrder.{ByteOrder}
use rabbitmq_stream_rust_cli.Codec.Laws.{Codes, Codes-bind, Codes-last}
use rabbitmq_stream_rust_cli.Codec.Local.{IsLocal, local_rules}
use rabbitmq_stream_rust_cli.Codec.Ints.{
  u8_mod, u16_mod, u32_mod, ◌⊞◌, u8_size, u16_size, u32_size, read_u8, read_u16, read_u32,
  encode_u8, encode_u16, encode_u32,
}
use rabbitmq_stream_rust_cli.Codec.Ints.Laws.{u8-Codes, u16-Codes, u32-Codes, int_local_rules}
use rabbitmq_stream_rust_cli.Codec.Strings.{Str, str_size, IsText, decode_string, encode_str}
use rabbitmq_stream_rust_cli.Codec.Strings.Laws.{str-Codes, decode_string-IsLocal}
use rabbitmq_stream_rust_cli.Codec.Vectors.Laws.{str_len}
use rabbitmq_stream_rust_cli.Codec.Maps.{StrMap, map_size, decode_map, encode_map}
use rabbitmq_stream_rust_cli.Codec.Maps.Laws.{
  IsMap, map_len, map_size_lem, map-Codes, decode_map-IsLocal,
}
use rabbitmq_stream_rust_cli.Commands.OffsetSpecification
use rabbitmq_stream_rust_cli.Commands.OffsetSpecification.{
  OffsetSpecification, offset-Codes, encoded_size_lem,
}

pub record SubscribeCommand : Type 0 where
  pub correlation_id : ℕ
  pub subscription_id : ℕ
  pub stream_name : Str
  pub offset_specification : OffsetSpecification
  pub credit : ℕ
  pub properties : StrMap

-- The values of the fields' Rust types, with texts as `IsText` has them.
pub record IsValid (c : SubscribeCommand) : Type 0 where
  pub correlation_id : c.correlation_id < u32_mod
  pub subscription_id : c.subscription_id < u8_mod
  pub stream_name : IsText c.stream_name
  pub offset_specification : OffsetSpecification.IsValid c.offset_specification
  pub credit : c.credit < u16_mod
  pub properties : IsMap c.properties

-- `SubscribeCommand::encoded_size`
unfoldable pub encoded_size : SubscribeCommand → ℕ
encoded_size c =
    u32_size c.correlation_id
    ⊞ u8_size c.subscription_id
    ⊞ str_size c.stream_name
    ⊞ OffsetSpecification.encoded_size c.offset_specification
    ⊞ u16_size c.credit
    ⊞ map_size c.properties

-- The number of bytes that a `SubscribeCommand` is written in.
abbrev pub wire_len : SubscribeCommand → ℕ
wire_len c =
    4
    + (1
        + (str_len c.stream_name
            + (OffsetSpecification.wire_len c.offset_specification + (2 + map_len c.properties))))

-- The declared size is the true one, cut to 32 bits.
pub encoded_size-eq-wire_len : (c : SubscribeCommand) → encoded_size c ≡ wire_len c % u32_mod
unfolding encoded_size
encoded_size-eq-wire_len c =
    omega (arith, encoded_size_lem c.offset_specification, map_size_lem c.properties)

module _ ⦃b : ByteOrder⦄ where
  -- `SubscribeCommand::encode`
  unfoldable pub encode : SubscribeCommand → Emit
  encode c =
      encode_u32 c.correlation_id
      ⊕ encode_u8 c.subscription_id
      ⊕ encode_str c.stream_name
      ⊕ OffsetSpecification.encode c.offset_specification
      ⊕ encode_u16 c.credit
      ⊕ encode_map c.properties

  -- `SubscribeCommand::decode`
  unfoldable pub decode : Decode SubscribeCommand
  decode = do
    correlation_id ← read_u32
    subscription_id ← read_u8
    opt_stream_name ← decode_string
    offset_specification ← OffsetSpecification.decode
    credit ← read_u16
    properties ← decode_map
    stream_name ← unwrap opt_stream_name
    pure (record {
      correlation_id = correlation_id;
      subscription_id = subscription_id;
      stream_name = stream_name;
      offset_specification = offset_specification;
      credit = credit;
      properties = properties;
    })

  -- A valid `SubscribeCommand` reads back as itself, and the rest of the input is left.
  pub decode-Codes : (c : SubscribeCommand) → IsValid c → Codes decode (encode c) (wire_len c) c
  unfolding decode encode ◌>>=◌
  decode-Codes c h = Codes-bind _ (u32-Codes c.correlation_id h.correlation_id) (
      Codes-bind _ (u8-Codes c.subscription_id h.subscription_id) (
        Codes-bind _ (str-Codes c.stream_name h.stream_name) (
          Codes-bind _ (offset-Codes c.offset_specification h.offset_specification) (
            Codes-bind _ (u16-Codes c.credit h.credit)
              (Codes-last _ (map-Codes c.properties h.properties) (λ rest. refl))))))

  pub decode-IsLocal : IsLocal decode
  unfolding decode
  decode-IsLocal =
      search
        (
          local_rules, int_local_rules, decode_string-IsLocal, OffsetSpecification.decode-IsLocal,
          decode_map-IsLocal,
        )
        depth 24
