-- ===== src/Commands/CloseResponse.antt =====
-- `CloseResponse` of protocol/src/commands/close.rs.
use rabbitmq_stream_rust_cli.Prelude.{ℕ, ◌+◌, ◌%◌, ◌<◌, ◌≡◌, refl, arith}
use rabbitmq_stream_rust_cli.Codec.Outcome.{Decode, pure, ◌>>=◌}
use rabbitmq_stream_rust_cli.Codec.Emit.{Emit, ◌⊕◌}
use rabbitmq_stream_rust_cli.Codec.ByteOrder.{ByteOrder}
use rabbitmq_stream_rust_cli.Codec.Laws.{Codes, Codes-bind, Codes-last}
use rabbitmq_stream_rust_cli.Codec.Local.{IsLocal, local_rules}
use rabbitmq_stream_rust_cli.Codec.Ints.{u32_mod, ◌⊞◌, u32_size, read_u32, encode_u32}
use rabbitmq_stream_rust_cli.Codec.Ints.Laws.{u32-Codes, int_local_rules}
use rabbitmq_stream_rust_cli.ResponseCode.{ResponseCode, code_size, decode_code, encode_code}
use rabbitmq_stream_rust_cli.ResponseCode.Laws.{code-Codes, decode_code-IsLocal}

pub record CloseResponse : Type 0 where
  pub correlation_id : ℕ
  pub response_code : ResponseCode

-- The values of the fields' Rust types, with texts as `IsText` has them.
pub record IsValid (c : CloseResponse) : Type 0 where
  pub correlation_id : c.correlation_id < u32_mod

-- `CloseResponse::encoded_size`
unfoldable pub encoded_size : CloseResponse → ℕ
encoded_size c = u32_size c.correlation_id ⊞ code_size c.response_code

-- The number of bytes that a `CloseResponse` is written in.
abbrev pub wire_len : CloseResponse → ℕ
wire_len c = 4 + 2

-- The declared size is the true one, cut to 32 bits.
pub encoded_size-eq-wire_len : (c : CloseResponse) → encoded_size c ≡ wire_len c % u32_mod
unfolding encoded_size
encoded_size-eq-wire_len c = omega arith

module _ ⦃b : ByteOrder⦄ where
  -- `CloseResponse::encode`
  unfoldable pub encode : CloseResponse → Emit
  encode c = encode_u32 c.correlation_id ⊕ encode_code c.response_code

  -- `CloseResponse::decode`
  unfoldable pub decode : Decode CloseResponse
  decode = do
    correlation_id ← read_u32
    response_code ← decode_code
    pure (record { correlation_id = correlation_id; response_code = response_code })

  -- A valid `CloseResponse` reads back as itself, and the rest of the input is left.
  pub decode-Codes : (c : CloseResponse) → IsValid c → Codes decode (encode c) (wire_len c) c
  unfolding decode encode pure
  decode-Codes c h =
      Codes-bind _ (u32-Codes c.correlation_id h.correlation_id)
        (Codes-last _ (code-Codes c.response_code) (λ rest. refl))

  pub decode-IsLocal : IsLocal decode
  unfolding decode
  decode-IsLocal = search (local_rules, int_local_rules, decode_code-IsLocal) depth 24
