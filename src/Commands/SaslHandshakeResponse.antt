-- ===== src/Commands/SaslHandshakeResponse.antt =====
-- `SaslHandshakeResponse` of protocol/src/commands/sasl_handshake.rs.
use rabbitmq_stream_rust_cli.Codec.Laws.{Codes, Codes-bind, Codes-last}
use rabbitmq_stream_rust_cli.Codec.Emit.{Emit, ◌⊕◌}
use rabbitmq_stream_rust_cli.Prelude.{ℕ, List, ◌+◌, ◌<◌, refl, length, All}
use rabbitmq_stream_rust_cli.Codec.Outcome.{Decode, pure, ◌>>=◌}
use rabbitmq_stream_rust_cli.Codec.ByteOrder.{ByteOrder}
use rabbitmq_stream_rust_cli.Codec.Local.{IsLocal, local_rules}
use rabbitmq_stream_rust_cli.Codec.Ints.{read_u32, u32_mod, encode_u32}
use rabbitmq_stream_rust_cli.Codec.Ints.Laws.{int_local_rules, u32-Codes}
use rabbitmq_stream_rust_cli.Codec.Strings.{Str, IsText}
use rabbitmq_stream_rust_cli.Codec.Vectors.{decode_strings, encode_strings}
use rabbitmq_stream_rust_cli.Codec.Vectors.Laws.{
  decode_strings-IsLocal, total, str_len, strings-Codes,
}
use rabbitmq_stream_rust_cli.ResponseCode.{ResponseCode, decode_code, encode_code}
use rabbitmq_stream_rust_cli.ResponseCode.Laws.{decode_code-IsLocal, code-Codes}

pub record SaslHandshakeResponse : Type 0 where
  pub correlation_id : ℕ
  pub code : ResponseCode
  pub mechanisms : List Str

-- The values of the fields' Rust types, with texts as `IsText` has them.
pub record IsValid (c : SaslHandshakeResponse) : Type 0 where
  pub correlation_id : c.correlation_id < u32_mod
  pub few : length c.mechanisms < u32_mod
  pub mechanisms : All IsText c.mechanisms

-- The number of bytes that a `SaslHandshakeResponse` is written in.
abbrev pub wire_len : SaslHandshakeResponse → ℕ
wire_len c = 4 + (2 + (4 + total str_len c.mechanisms))

module _ ⦃b : ByteOrder⦄ where
  -- `SaslHandshakeResponse::encode`, which stands with the tests of the file.
  unfoldable pub encode : SaslHandshakeResponse → Emit
  encode c = encode_u32 c.correlation_id ⊕ encode_code c.code ⊕ encode_strings c.mechanisms

  -- `SaslHandshakeResponse::decode`
  unfoldable pub decode : Decode SaslHandshakeResponse
  decode = do
    correlation_id ← read_u32
    code ← decode_code
    mechanisms ← decode_strings
    pure (record { correlation_id = correlation_id; code = code; mechanisms = mechanisms })

  -- A valid `SaslHandshakeResponse` reads back as itself, and the rest of the input is left.
  pub decode-Codes :
      (c : SaslHandshakeResponse) → IsValid c → Codes decode (encode c) (wire_len c) c
  unfolding decode encode pure
  decode-Codes c h = Codes-bind _ (u32-Codes c.correlation_id h.correlation_id) (
      Codes-bind _ (code-Codes c.code)
        (Codes-last _ (strings-Codes c.mechanisms h.few h.mechanisms) (λ rest. refl)))

  pub decode-IsLocal : IsLocal decode
  unfolding decode
  decode-IsLocal =
      search (local_rules, int_local_rules, decode_code-IsLocal, decode_strings-IsLocal) depth 24
