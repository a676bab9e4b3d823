-- ===== src/Commands/SaslAuthenticate.antt =====
-- `SaslAuthenticateCommand` of protocol/src/commands/sasl_authenticate.rs.
use rabbitmq_stream_rust_cli.Prelude.{ℕ, ◌+◌, ◌%◌, ◌^◌, ◌<◌, ◌≡◌, refl, List, length, arith}
use rabbitmq_stream_rust_cli.Codec.Outcome.{Decode, pure, unwrap, ◌>>=◌}
use rabbitmq_stream_rust_cli.Codec.Emit.{Emit, ◌⊕◌}
use rabbitmq_stream_rust_cli.Codec.ByteOrder.{ByteOrder}
use rabbitmq_stream_rust_cli.Codec.Laws.{Codes, Codes-bind, Codes-last}
use rabbitmq_stream_rust_cli.Codec.Local.{IsLocal, local_rules}
use rabbitmq_stream_rust_cli.Codec.Ints.{u32_mod, ◌⊞◌, u32_size, read_u32, encode_u32}
use rabbitmq_stream_rust_cli.Codec.Ints.Laws.{u32-Codes, int_local_rules}
use rabbitmq_stream_rust_cli.Codec.Strings.{
  Str, str_size, bytes_size, IsText, decode_string, decode_bytes, encode_str, encode_bytes,
}
use rabbitmq_stream_rust_cli.Codec.Strings.Laws.{
  str-Codes, bytes-Codes, decode_string-IsLocal, decode_bytes-IsLocal,
}
use rabbitmq_stream_rust_cli.Codec.Vectors.Laws.{str_len}

pub record SaslAuthenticateCommand : Type 0 where
  pub correlation_id : ℕ
  pub mechanism : Str
  pub sasl_data : List ℕ

-- The values of the fields' Rust types, with texts as `IsText` has them.
pub record IsValid (c : SaslAuthenticateCommand) : Type 0 where
  pub correlation_id : c.correlation_id < u32_mod
  pub mechanism : IsText c.mechanism
  pub sasl_data : length c.sasl_data < 2 ^ 31

-- `SaslAuthenticateCommand::encoded_size`
unfoldable pub encoded_size : SaslAuthenticateCommand → ℕ
encoded_size c = u32_size c.correlation_id ⊞ str_size c.mechanism ⊞ bytes_size c.sasl_data

-- The number of bytes that a `SaslAuthenticateCommand` is written in.
abbrev pub wire_len : SaslAuthenticateCommand → ℕ
wire_len c = 4 + (str_len c.mechanism + (4 + length c.sasl_data))

-- The declared size is the true one, cut to 32 bits.
pub encoded_size-eq-wire_len : (c : SaslAuthenticateCommand) → encoded_size c ≡ wire_len c % u32_mod
unfolding encoded_size
encoded_size-eq-wire_len c = omega arith

module _ ⦃b : ByteOrder⦄ where
  -- `SaslAuthenticateCommand::encode`
  unfoldable pub encode : SaslAuthenticateCommand → Emit
  encode c = encode_u32 c.correlation_id ⊕ encode_str c.mechanism ⊕ encode_bytes c.sasl_data

  -- `SaslAuthenticateCommand::decode`
  unfoldable pub decode : Decode SaslAuthenticateCommand
  decode = do
    correlation_id ← read_u32
    opt_mechanism ← decode_string
    sasl_data ← decode_bytes
    mechanism ← unwrap opt_mechanism
    pure (record { correlation_id = correlation_id; mechanism = mechanism; sasl_data = sasl_data })

  -- A valid `SaslAuthenticateCommand` reads back as itself, and the rest of the input is left.
  pub decode-Codes :
      (c : SaslAuthenticateCommand) → IsValid c → Codes decode (encode c) (wire_len c) c
  unfolding decode encode ◌>>=◌
  decode-Codes c h = Codes-bind _ (u32-Codes c.correlation_id h.correlation_id) (
      Codes-bind _ (str-Codes c.mechanism h.mechanism)
        (Codes-last _ (bytes-Codes c.sasl_data h.sasl_data) (λ rest. refl)))

  pub decode-IsLocal : IsLocal decode
  unfolding decode
  decode-IsLocal =
      search (local_rules, int_local_rules, decode_string-IsLocal, decode_bytes-IsLocal) depth 24
