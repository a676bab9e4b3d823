-- ===== src/Codec/Ints.antt =====
-- Integers: the readers of protocol/src/codec/decoder.rs, and the integer encoders of
-- protocol/src/codec/encoder.rs. A signed integer is its bit pattern.
pub mod Laws
use rabbitmq_stream_rust_cli.Prelude.{
  ℕ, ◌+◌, ◌%◌, ◌^◌, List, [], ◌∷◌, length, drop, ltb, if◌then◌else◌,
}
use rabbitmq_stream_rust_cli.Codec.Outcome.{ok, err, incomplete, Decode}
use rabbitmq_stream_rust_cli.Codec.Emit.{Emit, done}
use rabbitmq_stream_rust_cli.Codec.ByteOrder.{ByteOrder}

abbrev pub u8_mod : ℕ
u8_mod = 2 ^ 8

abbrev pub u16_mod : ℕ
u16_mod = 2 ^ 16

abbrev pub u32_mod : ℕ
u32_mod = 2 ^ 32

abbrev pub u64_mod : ℕ
u64_mod = 2 ^ 64

-- `encoded_size` of the integers.
abbrev pub u8_size : ℕ → ℕ
u8_size n = 1

abbrev pub i8_size : ℕ → ℕ
i8_size n = 1

abbrev pub u16_size : ℕ → ℕ
u16_size n = 2

abbrev pub u32_size : ℕ → ℕ
u32_size n = 4

abbrev pub i32_size : ℕ → ℕ
i32_size n = 4

abbrev pub u64_size : ℕ → ℕ
u64_size n = 8

abbrev pub i64_size : ℕ → ℕ
i64_size n = 8

infixl 65 ◌⊞◌
-- `+` of `u32`.
abbrev pub ◌⊞◌ : ℕ → ℕ → ℕ
a ⊞ b = (a + b) % u32_mod

-- `check_len(input, size)?` and then what follows.
abbrev pub with_len : {A : Type 0} → ℕ → Decode A → Decode A
with_len size d input = if ltb (length input) size then err (incomplete size) else d input

unfoldable pub read_u8 : Decode ℕ
read_u8 [] = err (incomplete 1)
read_u8 (b ∷ input) = ok (input, b)

unfoldable pub read_i8 : Decode ℕ
read_i8 [] = err (incomplete 1)
read_i8 (b ∷ input) = ok (input, b)

module _ ⦃b : ByteOrder⦄ where
  -- The macro `reader!`.
  unfoldable pub reader : ℕ → Decode ℕ
  reader size = with_len size (λ input. ok (drop size input, b.read size input))

  unfoldable pub read_u16 : Decode ℕ
  unfolding reader
  read_u16 = reader 2

  unfoldable pub read_i16 : Decode ℕ
  unfolding reader
  read_i16 = reader 2

  unfoldable pub read_u32 : Decode ℕ
  unfolding reader
  read_u32 = reader 4

  unfoldable pub read_i32 : Decode ℕ
  unfolding reader
  read_i32 = reader 4

  unfoldable pub read_u64 : Decode ℕ
  unfolding reader
  read_u64 = reader 8

  unfoldable pub read_i64 : Decode ℕ
  unfolding reader
  read_i64 = reader 8

  unfoldable pub encode_u8 : ℕ → Emit
  encode_u8 n = done (b.write 1 n)

  unfoldable pub encode_i8 : ℕ → Emit
  encode_i8 n = done (b.write 1 n)

  unfoldable pub encode_u16 : ℕ → Emit
  encode_u16 n = done (b.write 2 n)

  unfoldable pub encode_i16 : ℕ → Emit
  encode_i16 n = done (b.write 2 n)

  unfoldable pub encode_u32 : ℕ → Emit
  encode_u32 n = done (b.write 4 n)

  unfoldable pub encode_i32 : ℕ → Emit
  encode_i32 n = done (b.write 4 n)

  unfoldable pub encode_u64 : ℕ → Emit
  encode_u64 n = done (b.write 8 n)

  unfoldable pub encode_i64 : ℕ → Emit
  encode_i64 n = done (b.write 8 n)
