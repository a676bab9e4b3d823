-- ===== src/Commands/ExchangeCommandVersionsResponse.antt =====
-- `ExchangeCommandVersionsResponse` of protocol/src/commands/exchange_command_versions.rs.
use rabbitmq_stream_rust_cli.Prelude.{ℕ, ◌+◌, ◌%◌, ◌^◌, ◌<◌, ◌≡◌, refl, List, length, All, arith}
use rabbitmq_stream_rust_cli.Codec.Outcome.{Decode, pure, ◌>>=◌}
use rabbitmq_stream_rust_cli.Codec.Emit.{Emit, ◌⊕◌}
use rabbitmq_stream_rust_cli.Codec.ByteOrder.{ByteOrder}
use rabbitmq_stream_rust_cli.Codec.Laws.{Codes, Codes-bind, Codes-last}
use rabbitmq_stream_rust_cli.Codec.Local.{IsLocal, local_rules}
use rabbitmq_stream_rust_cli.Codec.Ints.{u32_mod, ◌⊞◌, u32_size, read_u32, encode_u32}
use rabbitmq_stream_rust_cli.Codec.Ints.Laws.{u32-Codes, int_local_rules}
use rabbitmq_stream_rust_cli.Codec.Vectors.Laws.{total}
use rabbitmq_stream_rust_cli.ResponseCode.{ResponseCode, code_size, decode_code, encode_code}
use rabbitmq_stream_rust_cli.ResponseCode.Laws.{code-Codes, decode_code-IsLocal}
use rabbitmq_stream_rust_cli.Commands.ExchangeCommandVersion.{
  ExchangeCommandVersion, IsVersion, versions_size, decode_versions, encode_versions,
  versions_size_lem, versions-Codes, decode_versions-IsLocal,
}

pub record ExchangeCommandVersionsResponse : Type 0 where
  pub correlation_id : ℕ
  pub response_code : ResponseCode
  pub commands : List ExchangeCommandVersion

-- The values of the fields' Rust types, with texts as `IsText` has them.
pub record IsValid (c : ExchangeCommandVersionsResponse) : Type 0 where
  pub correlation_id : c.correlation_id < u32_mod
  pub commands : (length c.commands < 2 ^ 31) × All IsVersion c.commands

-- `ExchangeCommandVersionsResponse::encoded_size`
unfoldable pub encoded_size : ExchangeCommandVersionsResponse → ℕ
encoded_size c = u32_size c.correlation_id ⊞ code_size c.response_code ⊞ versions_size c.commands

-- The number of bytes that a `ExchangeCommandVersionsResponse` is written in.
abbrev pub wire_len : ExchangeCommandVersionsResponse → ℕ
wire_len c = 4 + (2 + (4 + total (λ x. 6) c.commands))

-- The declared size is the true one, cut to 32 bits.
pub encoded_size-eq-wire_len :
    (c : ExchangeCommandVersionsResponse) → encoded_size c ≡ wire_len c % u32_mod
unfolding encoded_size
encoded_size-eq-wire_len c = omega (arith, versions_size_lem c.commands)

module _ ⦃b : ByteOrder⦄ where
  -- `ExchangeCommandVersionsResponse::encode`
  unfoldable pub encode : ExchangeCommandVersionsResponse → Emit
  encode c = encode_u32 c.correlation_id ⊕ encode_code c.response_code ⊕ encode_versions c.commands

  -- `ExchangeCommandVersionsResponse::decode`
  unfoldable pub decode : Decode ExchangeCommandVersionsResponse
  decode = do
    correlation_id ← read_u32
    response_code ← decode_code
    commands ← decode_versions
    pure (record {
      correlation_id = correlation_id;
      response_code = response_code;
      commands = commands;
    })

  -- A valid `ExchangeCommandVersionsResponse` reads back as itself, and the rest of the input is left.
  pub decode-Codes :
      (c : ExchangeCommandVersionsResponse) → IsValid c → Codes decode (encode c) (wire_len c) c
  unfolding decode encode pure
  decode-Codes c h = Codes-bind _ (u32-Codes c.correlation_id h.correlation_id) (
      Codes-bind _ (code-Codes c.response_code)
        (Codes-last _ (versions-Codes c.commands h.commands.0 h.commands.1) (λ rest. refl)))

  pub decode-IsLocal : IsLocal decode
  unfolding decode
  decode-IsLocal =
      search (local_rules, int_local_rules, decode_code-IsLocal, decode_versions-IsLocal) depth 24
