-- ===== src/Commands/SaslHandshake.antt =====
-- `SaslHandshakeCommand` of protocol/src/commands/sasl_handshake.rs.
use rabbitmq_stream_rust_cli.Prelude.{ℕ, ◌%◌, ◌<◌, ◌≡◌, refl, arith}
use rabbitmq_stream_rust_cli.Codec.Outcome.{Decode, pure, ◌>>=◌}
use rabbitmq_stream_rust_cli.Codec.Emit.{Emit}
use rabbitmq_stream_rust_cli.Codec.ByteOrder.{ByteOrder}
use rabbitmq_stream_rust_cli.Codec.Laws.{Codes, Codes-last}
use rabbitmq_stream_rust_cli.Codec.Local.{IsLocal, local_rules}
use rabbitmq_stream_rust_cli.Codec.Ints.{u32_mod, u32_size, read_u32, encode_u32}
use rabbitmq_stream_rust_cli.Codec.Ints.Laws.{u32-Codes, int_local_rules}

pub record SaslHandshakeCommand : Type 0 where
  pub correlation_id : ℕ

-- The values of the fields' Rust types, with texts as `IsText` has them.
pub record IsValid (c : SaslHandshakeCommand) : Type 0 where
  pub correlation_id : c.correlation_id < u32_mod

-- `SaslHandshakeCommand::encoded_size`
unfoldable pub encoded_size : SaslHandshakeCommand → ℕ
encoded_size c = u32_size c.correlation_id

-- The number of bytes that a `SaslHandshakeCommand` is written in.
abbrev pub wire_len : SaslHandshakeCommand → ℕ
wire_len c = 4

-- The declared size is the true one, cut to 32 bits.
pub encoded_size-eq-wire_len : (c : SaslHandshakeCommand) → encoded_size c ≡ wire_len c % u32_mod
unfolding encoded_size
encoded_size-eq-wire_len c = omega arith

module _ ⦃b : ByteOrder⦄ where
  -- `SaslHandshakeCommand::encode`
  unfoldable pub encode : SaslHandshakeCommand → Emit
  encode c = encode_u32 c.correlation_id

  -- `SaslHandshakeCommand::decode`
  unfoldable pub decode : Decode SaslHandshakeCommand
  decode = do correlation_id ← read_u32; pure (record { correlation_id = correlation_id })

  -- A valid `SaslHandshakeCommand` reads back as itself, and the rest of the input is left.
  pub decode-Codes : (c : SaslHandshakeCommand) → IsValid c → Codes decode (encode c) (wire_len c) c
  unfolding decode encode pure
  decode-Codes c h = Codes-last _ (u32-Codes c.correlation_id h.correlation_id) (λ rest. refl)

  pub decode-IsLocal : IsLocal decode
  unfolding decode
  decode-IsLocal = search (local_rules, int_local_rules) depth 24
