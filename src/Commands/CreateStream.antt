-- ===== src/Commands/CreateStream.antt =====
-- `CreateStreamCommand` of protocol/src/commands/create_stream.rs.
use rabbitmq_stream_rust_cli.Prelude.{ℕ, ◌+◌, ◌%◌, ◌<◌, ◌≡◌, refl, arith}
use rabbitmq_stream_rust_cli.Codec.Outcome.{Decode, pure, unwrap, ◌>>=◌}
use rabbitmq_stream_rust_cli.Codec.Emit.{Emit, ◌⊕◌}
use rabbitmq_stream_rust_cli.Codec.ByteOrder.{ByteOrder}
use rabbitmq_stream_rust_cli.Codec.Laws.{Codes, Codes-bind, Codes-last}
use rabbitmq_stream_rust_cli.Codec.Local.{IsLocal, local_rules}
use rabbitmq_stream_rust_cli.Codec.Ints.{u32_mod, ◌⊞◌, u32_size, read_u32, encode_u32}
use rabbitmq_stream_rust_cli.Codec.Ints.Laws.{u32-Codes, int_local_rules}
use rabbitmq_stream_rust_cli.Codec.Strings.{Str, str_size, IsText, decode_string, encode_str}
use rabbitmq_stream_rust_cli.Codec.Strings.Laws.{str-Codes, decode_string-IsLocal}
use rabbitmq_stream_rust_cli.Codec.Vectors.Laws.{str_len}
use rabbitmq_stream_rust_cli.Codec.Maps.{StrMap, map_size, decode_map, encode_map}
use rabbitmq_stream_rust_cli.Codec.Maps.Laws.{
  IsMap, map_len, map_size_lem, map-Codes, decode_map-IsLocal,
}

pub record CreateStreamCommand : Type 0 where
  pub correlation_id : ℕ
  pub stream_name : Str
  pub args : StrMap

-- The values of the fields' Rust types, with texts as `IsText` has them.
pub record IsValid (c : CreateStreamCommand) : Type 0 where
  pub correlation_id : c.correlation_id < u32_mod
  pub stream_name : IsText c.stream_name
  pub args : IsMap c.args

-- `CreateStreamCommand::encoded_size`
unfoldable pub encoded_size : CreateStreamCommand → ℕ
encoded_size c = u32_size c.correlation_id ⊞ str_size c.stream_name ⊞ map_size c.args

-- The number of bytes that a `CreateStreamCommand` is written in.
abbrev pub wire_len : CreateStreamCommand → ℕ
wire_len c = 4 + (str_len c.stream_name + map_len c.args)

-- The declared size is the true one, cut to 32 bits.
pub encoded_size-eq-wire_len : (c : CreateStreamCommand) → encoded_size c ≡ wire_len c % u32_mod
unfolding encoded_size
encoded_size-eq-wire_len c = omega (arith, map_size_lem c.args)

module _ ⦃b : ByteOrder⦄ where
  -- `CreateStreamCommand::encode`
  unfoldable pub encode : CreateStreamCommand → Emit
  encode c = encode_u32 c.correlation_id ⊕ encode_str c.stream_name ⊕ encode_map c.args

  -- `CreateStreamCommand::decode`
  unfoldable pub decode : Decode CreateStreamCommand
  decode = do
    correlation_id ← read_u32
    opt_stream_name ← decode_string
    args ← decode_map
    stream_name ← unwrap opt_stream_name
    pure (record { correlation_id = correlation_id; stream_name = stream_name; args = args })

  -- A valid `CreateStreamCommand` reads back as itself, and the rest of the input is left.
  pub decode-Codes : (c : CreateStreamCommand) → IsValid c → Codes decode (encode c) (wire_len c) c
  unfolding decode encode ◌>>=◌
  decode-Codes c h = Codes-bind _ (u32-Codes c.correlation_id h.correlation_id) (
      Codes-bind _ (str-Codes c.stream_name h.stream_name)
        (Codes-last _ (map-Codes c.args h.args) (λ rest. refl)))

  pub decode-IsLocal : IsLocal decode
  unfolding decode
  decode-IsLocal =
      search (local_rules, int_local_rules, decode_string-IsLocal, decode_map-IsLocal) depth 24
