-- ===== src/Commands/PublishConfirm.antt =====
-- `PublishConfirm` of protocol/src/commands/publish_confirm.rs.
use rabbitmq_stream_rust_cli.Prelude.{ℕ, ◌+◌, ◌%◌, ◌^◌, ◌<◌, ◌≡◌, refl, List, length, All, arith}
use rabbitmq_stream_rust_cli.Codec.Outcome.{Decode, pure, ◌>>=◌}
use rabbitmq_stream_rust_cli.Codec.Emit.{Emit, ◌⊕◌}
use rabbitmq_stream_rust_cli.Codec.ByteOrder.{ByteOrder}
use rabbitmq_stream_rust_cli.Codec.Laws.{Codes, Codes-bind, Codes-last}
use rabbitmq_stream_rust_cli.Codec.Local.{IsLocal, local_rules}
use rabbitmq_stream_rust_cli.Codec.Ints.{
  u8_mod, u32_mod, u64_mod, ◌⊞◌, u8_size, u64_size, read_u8, encode_u8,
}
use rabbitmq_stream_rust_cli.Codec.Ints.Laws.{u8-Codes, int_local_rules}
use rabbitmq_stream_rust_cli.Codec.Vectors.{vec_size, decode_vec_u64, encode_vec_u64}
use rabbitmq_stream_rust_cli.Codec.Vectors.Laws.{
  total, vec_size_lem, vec_u64-Codes, decode_vec_u64-IsLocal,
}

pub record PublishConfirm : Type 0 where
  pub publisher_id : ℕ
  pub publishing_ids : List ℕ

-- The values of the fields' Rust types, with texts as `IsText` has them.
pub record IsValid (c : PublishConfirm) : Type 0 where
  pub publisher_id : c.publisher_id < u8_mod
  pub publishing_ids : (length c.publishing_ids < 2 ^ 31) × All (λ x. x < u64_mod) c.publishing_ids

-- `PublishConfirm::encoded_size`
unfoldable pub encoded_size : PublishConfirm → ℕ
encoded_size c = u8_size c.publisher_id ⊞ vec_size u64_size c.publishing_ids

-- The number of bytes that a `PublishConfirm` is written in.
abbrev pub wire_len : PublishConfirm → ℕ
wire_len c = 1 + (4 + total (λ x. 8) c.publishing_ids)

-- The declared size is the true one, cut to 32 bits.
pub encoded_size-eq-wire_len : (c : PublishConfirm) → encoded_size c ≡ wire_len c % u32_mod
unfolding encoded_size
encoded_size-eq-wire_len c =
    omega (arith, vec_size_lem u64_size (λ x. 8) (λ x. omega arith) c.publishing_ids)

module _ ⦃b : ByteOrder⦄ where
  -- `PublishConfirm::encode`
  unfoldable pub encode : PublishConfirm → Emit
  encode c = encode_u8 c.publisher_id ⊕ encode_vec_u64 c.publishing_ids

  -- `PublishConfirm::decode`
  unfoldable pub decode : Decode PublishConfirm
  decode = do
    publisher_id ← read_u8
    publishing_ids ← decode_vec_u64
    pure (record { publisher_id = publisher_id; publishing_ids = publishing_ids })

  -- A valid `PublishConfirm` reads back as itself, and the rest of the input is left.
  pub decode-Codes : (c : PublishConfirm) → IsValid c → Codes decode (encode c) (wire_len c) c
  unfolding decode encode pure
  decode-Codes c h = Codes-bind _ (u8-Codes c.publisher_id h.publisher_id) (
      Codes-last _ (vec_u64-Codes c.publishing_ids h.publishing_ids.0 h.publishing_ids.1)
        (λ rest. refl))

  pub decode-IsLocal : IsLocal decode
  unfolding decode
  decode-IsLocal = search (local_rules, int_local_rules, decode_vec_u64-IsLocal) depth 24
