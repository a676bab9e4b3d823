-- ===== src/Commands/CreditResponse.antt =====
-- `CreditResponse` of protocol/src/commands/credit.rs.
use rabbitmq_stream_rust_cli.Prelude.{ℕ, ◌+◌, ◌<◌, refl}
use rabbitmq_stream_rust_cli.Codec.Outcome.{Decode, pure, ◌>>=◌}
use rabbitmq_stream_rust_cli.Codec.Emit.{Emit, ◌⊕◌}
use rabbitmq_stream_rust_cli.Codec.ByteOrder.{ByteOrder}
use rabbitmq_stream_rust_cli.Codec.Laws.{Codes, Codes-bind, Codes-last}
use rabbitmq_stream_rust_cli.Codec.Local.{IsLocal, local_rules}
use rabbitmq_stream_rust_cli.Codec.Ints.{u8_mod, read_u8, encode_u8}
use rabbitmq_stream_rust_cli.Codec.Ints.Laws.{u8-Codes, int_local_rules}
use rabbitmq_stream_rust_cli.ResponseCode.{ResponseCode, decode_code, encode_code}
use rabbitmq_stream_rust_cli.ResponseCode.Laws.{code-Codes, decode_code-IsLocal}

pub record CreditResponse : Type 0 where
  pub code : ResponseCode
  pub subscription_id : ℕ

-- The values of the fields' Rust types, with texts as `IsText` has them.
pub record IsValid (c : CreditResponse) : Type 0 where
  pub subscription_id : c.subscription_id < u8_mod

-- `CreditResponse::encoded_size`
unfoldable pub encoded_size : CreditResponse → ℕ
encoded_size c = 0

-- The number of bytes that a `CreditResponse` is written in.
abbrev pub wire_len : CreditResponse → ℕ
wire_len c = 2 + 1

module _ ⦃b : ByteOrder⦄ where
  -- `CreditResponse::encode`
  unfoldable pub encode : CreditResponse → Emit
  encode c = encode_code c.code ⊕ encode_u8 c.subscription_id

  -- `CreditResponse::decode`
  unfoldable pub decode : Decode CreditResponse
  decode = do
    code ← decode_code
    subscription_id ← read_u8
    pure (record { code = code; subscription_id = subscription_id })

  -- A valid `CreditResponse` reads back as itself, and the rest of the input is left.
  pub decode-Codes : (c : CreditResponse) → IsValid c → Codes decode (encode c) (wire_len c) c
  unfolding decode encode pure
  decode-Codes c h =
      Codes-bind _ (code-Codes c.code)
        (Codes-last _ (u8-Codes c.subscription_id h.subscription_id) (λ rest. refl))

  pub decode-IsLocal : IsLocal decode
  unfolding decode
  decode-IsLocal = search (local_rules, decode_code-IsLocal, int_local_rules) depth 24
