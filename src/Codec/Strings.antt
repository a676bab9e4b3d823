-- ===== src/Codec/Strings.antt =====
-- Texts and byte vectors: `&str`, `Option<String>` and `Vec<u8>` of protocol/src/codec. A `String`
-- is the list of its bytes.
pub mod Laws
use rabbitmq_stream_rust_cli.Prelude.{
  ℕ, ◌+◌, ◌-◌, ◌%◌, ◌^◌, ◌<◌, ◌≡◌, Bool, true, false, ◌&&◌, Option, none, some, List, [], ◌∷◌,
  length, take, drop, ltb, ◌==◌, if◌then◌else◌,
}
use rabbitmq_stream_rust_cli.Codec.Outcome.{
  Outcome, ok, panic, utf8_error, Decode, pure, fail, ◌>>=◌,
}
use rabbitmq_stream_rust_cli.Codec.Emit.{Emit, done, ◌⊕◌}
use rabbitmq_stream_rust_cli.Codec.ByteOrder.{ByteOrder}
use rabbitmq_stream_rust_cli.Codec.Utf8.{is_utf8}
use rabbitmq_stream_rust_cli.Codec.Ints.{
  u16_mod, u32_mod, u64_mod, ◌⊞◌, read_i16, read_i32, encode_i16, encode_i32,
}

abbrev pub Str : Type 0
Str = List ℕ

-- `x as usize` for an `i16` and an `i32`: a negative number becomes a huge one.
abbrev pub usize_of_i16 : ℕ → ℕ
usize_of_i16 x = if ltb x (2 ^ 15) then x else u64_mod - u16_mod + x

abbrev pub usize_of_i32 : ℕ → ℕ
usize_of_i32 x = if ltb x (2 ^ 31) then x else u64_mod - u32_mod + x

-- `input.split_at(len)`, and `(&input[len..], &input[..len])`: both panic past the end.
unfoldable pub split_at : ℕ → Decode (List ℕ)
split_at len input = if ltb (length input) len then panic else ok (drop len input, take len input)

-- `String::from_utf8(bytes)?`
unfoldable pub from_utf8 : List ℕ → Decode Str
from_utf8 bs = if is_utf8 bs then pure bs else fail (utf8_error bs)

module _ ⦃b : ByteOrder⦄ where
  unfoldable pub decode_chars : ℕ → Decode (Option Str)
  decode_chars len =
      if len == 0
      then pure none
      else do chars ← split_at (usize_of_i16 len); string ← from_utf8 chars; pure (some string)

  -- `Option::<String>::decode`
  unfoldable pub decode_string : Decode (Option Str)
  unfolding decode_chars
  decode_string = do len ← read_i16; decode_chars len

  -- `<&str>::encode`
  unfoldable pub encode_str : Str → Emit
  encode_str s = encode_i16 (length s % u16_mod) ⊕ done s

  -- `Option::<String>::encode`
  unfoldable pub encode_string : Option Str → Emit
  unfolding encode_str
  encode_string none = encode_i16 0
  encode_string (some s) = encode_str s

  -- `Vec::<u8>::decode`
  unfoldable pub decode_bytes : Decode (List ℕ)
  decode_bytes = do len ← read_i32; split_at (usize_of_i32 len)

  -- `Vec::<u8>::encode`
  unfoldable pub encode_bytes : List ℕ → Emit
  encode_bytes v = encode_i32 (length v % u32_mod) ⊕ done v

abbrev pub str_size : Str → ℕ
str_size s = 2 ⊞ length s % u32_mod

abbrev pub string_size : Option Str → ℕ
string_size none = 2 ⊞ 0
string_size (some s) = 2 ⊞ length s % u32_mod

abbrev pub bytes_size : List ℕ → ℕ
bytes_size v = 4 ⊞ length v % u32_mod

-- A text that a length of 16 signed bits can announce, and that is not taken for a missing one.
abbrev pub IsText : Str → Type 0
IsText s = (is_utf8 s ≡ true) × (0 < length s) × (length s < 2 ^ 15)

abbrev pub IsOptText : Option Str → Type 0
IsOptText none = Unit
IsOptText (some s) = IsText s

-- The bytes that `Option::<String>::encode` writes.
abbrev pub string_len : Option Str → ℕ
string_len none = 2
string_len (some s) = 2 + length s
