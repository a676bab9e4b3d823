-- ===== src/Commands/Credit.antt =====
-- `CreditCommand` of protocol/src/commands/credit.rs.
use rabbitmq_stream_rust_cli.Prelude.{ℕ, ◌+◌, ◌%◌, ◌<◌, ◌≡◌, refl, arith}
use rabbitmq_stream_rust_cli.Codec.Outcome.{Decode, pure, ◌>>=◌}
use rabbitmq_stream_rust_cli.Codec.Emit.{Emit, ◌⊕◌}
use rabbitmq_stream_rust_cli.Codec.ByteOrder.{ByteOrder}
use rabbitmq_stream_rust_cli.Codec.Laws.{Codes, Codes-bind, Codes-last}
use rabbitmq_stream_rust_cli.Codec.Local.{IsLocal, local_rules}
use rabbitmq_stream_rust_cli.Codec.Ints.{
  u8_mod, u16_mod, u32_mod, ◌⊞◌, u8_size, u16_size, read_u8, read_u16, encode_u8, encode_u16,
}
use rabbitmq_stream_rust_cli.Codec.Ints.Laws.{u8-Codes, u16-Codes, int_local_rules}

pub record CreditCommand : Type 0 where
  pub subscription_id : ℕ
  pub credit : ℕ

-- The values of the fields' Rust types, with texts as `IsText` has them.
pub record IsValid (c : CreditCommand) : Type 0 where
  pub subscription_id : c.subscription_id < u8_mod
  pub credit : c.credit < u16_mod

-- `CreditCommand::encoded_size`
unfoldable pub encoded_size : CreditCommand → ℕ
encoded_size c = u8_size c.subscription_id ⊞ u16_size c.credit

-- The number of bytes that a `CreditCommand` is written in.
abbrev pub wire_len : CreditCommand → ℕ
wire_len c = 1 + 2

-- The declared size is the true one, cut to 32 bits.
pub encoded_size-eq-wire_len : (c : CreditCommand) → encoded_size c ≡ wire_len c % u32_mod
unfolding encoded_size
encoded_size-eq-wire_len c = omega arith

module _ ⦃b : ByteOrder⦄ where
  -- `CreditCommand::encode`
  unfoldable pub encode : CreditCommand → Emit
  encode c = encode_u8 c.subscription_id ⊕ encode_u16 c.credit

  -- `CreditCommand::decode`
  unfoldable pub decode : Decode CreditCommand
  decode = do
    subscription_id ← read_u8
    credit ← read_u16
    pure (record { subscription_id = subscription_id; credit = credit })

  -- A valid `CreditCommand` reads back as itself, and the rest of the input is left.
  pub decode-Codes : (c : CreditCommand) → IsValid c → Codes decode (encode c) (wire_len c) c
  unfolding decode encode pure
  decode-Codes c h =
      Codes-bind _ (u8-Codes c.subscription_id h.subscription_id)
        (Codes-last _ (u16-Codes c.credit h.credit) (λ rest. refl))

  pub decode-IsLocal : IsLocal decode
  unfolding decode
  decode-IsLocal = search (local_rules, int_local_rules) depth 24
