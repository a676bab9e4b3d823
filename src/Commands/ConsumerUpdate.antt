-- ===== src/Commands/ConsumerUpdate.antt =====
-- `ConsumerUpdateCommand` of protocol/src/commands/consumer_update.rs.
use rabbitmq_stream_rust_cli.Prelude.{ℕ, ◌+◌, ◌%◌, ◌<◌, ◌≡◌, refl, arith}
use rabbitmq_stream_rust_cli.Codec.Outcome.{Decode, pure, ◌>>=◌}
use rabbitmq_stream_rust_cli.Codec.Emit.{Emit, ◌⊕◌}
use rabbitmq_stream_rust_cli.Codec.ByteOrder.{ByteOrder}
use rabbitmq_stream_rust_cli.Codec.Laws.{Codes, Codes-bind, Codes-last}
use rabbitmq_stream_rust_cli.Codec.Local.{IsLocal, local_rules}
use rabbitmq_stream_rust_cli.Codec.Ints.{
  u8_mod, u32_mod, ◌⊞◌, u8_size, u32_size, read_u8, read_u32, encode_u8, encode_u32,
}
use rabbitmq_stream_rust_cli.Codec.Ints.Laws.{u8-Codes, u32-Codes, int_local_rules}

pub record ConsumerUpdateCommand : Type 0 where
  pub correlation_id : ℕ
  pub subscription_id : ℕ
  pub active : ℕ

-- The values of the fields' Rust types, with texts as `IsText` has them.
pub record IsValid (c : ConsumerUpdateCommand) : Type 0 where
  pub correlation_id : c.correlation_id < u32_mod
  pub subscription_id : c.subscription_id < u8_mod
  pub active : c.active < u8_mod

-- `ConsumerUpdateCommand::encoded_size`
unfoldable pub encoded_size : ConsumerUpdateCommand → ℕ
encoded_size c = u32_size c.correlation_id ⊞ u8_size c.subscription_id ⊞ u8_size c.active

-- The number of bytes that a `ConsumerUpdateCommand` is written in.
abbrev pub wire_len : ConsumerUpdateCommand → ℕ
wire_len c = 4 + (1 + 1)

-- The declared size is the true one, cut to 32 bits.
pub encoded_size-eq-wire_len : (c : ConsumerUpdateCommand) → encoded_size c ≡ wire_len c % u32_mod
unfolding encoded_size
encoded_size-eq-wire_len c = omega arith

module _ ⦃b : ByteOrder⦄ where
  -- `ConsumerUpdateCommand::encode`
  unfoldable pub encode : ConsumerUpdateCommand → Emit
  encode c = encode_u32 c.correlation_id ⊕ encode_u8 c.subscription_id ⊕ encode_u8 c.active

  -- `ConsumerUpdateCommand::decode`
  unfoldable pub decode : Decode ConsumerUpdateCommand
  decode = do
    correlation_id ← read_u32
    subscription_id ← read_u8
    active ← read_u8
    pure (record {
      correlation_id = correlation_id;
      subscription_id = subscription_id;
      active = active;
    })

  -- A valid `ConsumerUpdateCommand` reads back as itself, and the rest of the input is left.
  pub decode-Codes :
      (c : ConsumerUpdateCommand) → IsValid c → Codes decode (encode c) (wire_len c) c
  unfolding decode encode pure
  decode-Codes c h = Codes-bind _ (u32-Codes c.correlation_id h.correlation_id) (
      Codes-bind _ (u8-Codes c.subscription_id h.subscription_id)
        (Codes-last _ (u8-Codes c.active h.active) (λ rest. refl)))

  pub decode-IsLocal : IsLocal decode
  unfolding decode
  decode-IsLocal = search (local_rules, int_local_rules) depth 24
