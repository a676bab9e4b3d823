-- ===== src/Commands/DeletePublisher.antt =====
-- `DeletePublisherCommand` of protocol/src/commands/delete_publisher.rs.
use rabbitmq_stream_rust_cli.Prelude.{ℕ, ◌+◌, ◌%◌, ◌<◌, ◌≡◌, refl, arith}
use rabbitmq_stream_rust_cli.Codec.Outcome.{Decode, pure, ◌>>=◌}
use rabbitmq_stream_rust_cli.Codec.Emit.{Emit, ◌⊕◌}
use rabbitmq_stream_rust_cli.Codec.ByteOrder.{ByteOrder}
use rabbitmq_stream_rust_cli.Codec.Laws.{Codes, Codes-bind, Codes-last}
use rabbitmq_stream_rust_cli.Codec.Local.{IsLocal, local_rules}
use rabbitmq_stream_rust_cli.Codec.Ints.{
  u8_mod, u32_mod, ◌⊞◌, u8_size, u32_size, read_u8, read_u32, encode_u8, encode_u32,
}
use rabbitmq_stream_rust_cli.Codec.Ints.Laws.{u8-Codes, u32-Codes, int_local_rules}

pub record DeletePublisherCommand : Type 0 where
  pub correlation_id : ℕ
  pub publisher_id : ℕ

-- The values of the fields' Rust types, with texts as `IsText` has them.
pub record IsValid (c : DeletePublisherCommand) : Type 0 where
  pub correlation_id : c.correlation_id < u32_mod
  pub publisher_id : c.publisher_id < u8_mod

-- `DeletePublisherCommand::encoded_size`
unfoldable pub encoded_size : DeletePublisherCommand → ℕ
encoded_size c = u32_size c.correlation_id ⊞ u8_size c.publisher_id

-- The number of bytes that a `DeletePublisherCommand` is written in.
abbrev pub wire_len : DeletePublisherCommand → ℕ
wire_len c = 4 + 1

-- The declared size is the true one, cut to 32 bits.
pub encoded_size-eq-wire_len : (c : DeletePublisherCommand) → encoded_size c ≡ wire_len c % u32_mod
unfolding encoded_size
encoded_size-eq-wire_len c = omega arith

module _ ⦃b : ByteOrder⦄ where
  -- `DeletePublisherCommand::encode`
  unfoldable pub encode : DeletePublisherCommand → Emit
  encode c = encode_u32 c.correlation_id ⊕ encode_u8 c.publisher_id

  -- `DeletePublisherCommand::decode`
  unfoldable pub decode : Decode DeletePublisherCommand
  decode = do
    correlation_id ← read_u32
    publisher_id ← read_u8
    pure (record { correlation_id = correlation_id; publisher_id = publisher_id })

  -- A valid `DeletePublisherCommand` reads back as itself, and the rest of the input is left.
  pub decode-Codes :
      (c : DeletePublisherCommand) → IsValid c → Codes decode (encode c) (wire_len c) c
  unfolding decode encode pure
  decode-Codes c h =
      Codes-bind _ (u32-Codes c.correlation_id h.correlation_id)
        (Codes-last _ (u8-Codes c.publisher_id h.publisher_id) (λ rest. refl))

  pub decode-IsLocal : IsLocal decode
  unfolding decode
  decode-IsLocal = search (local_rules, int_local_rules) depth 24
