-- ===== src/Codec/Vectors.antt =====
-- Vectors: `read_vec` and the `Vec<T>` codecs of protocol/src/codec.
pub mod Laws
use mathlib.Core.List.{foldl}
use rabbitmq_stream_rust_cli.Prelude.{
  ℕ, zero, suc, ◌+◌, ◌%◌, ◌^◌, Option, none, some, List, [], ◌∷◌, length, ltb, if◌then◌else◌,
}
use rabbitmq_stream_rust_cli.Codec.Outcome.{Decode, pure, crash, ◌>>=◌, ◌>>◌}
use rabbitmq_stream_rust_cli.Codec.Emit.{Emit, emit_each, ◌⊕◌}
use rabbitmq_stream_rust_cli.Codec.ByteOrder.{ByteOrder}
use rabbitmq_stream_rust_cli.Codec.Ints.{
  u32_mod, ◌⊞◌, read_u16, read_u32, read_i32, read_u64, encode_i32, encode_u16, encode_u32,
  encode_u64,
}
use rabbitmq_stream_rust_cli.Codec.Strings.{Str, decode_string, encode_str, str_size}

-- `for _ in 0..n { let (input1, value) = T::decode(input)?; result.push(value); input = input1 }`
unfoldable pub repeat : {A : Type 0} → ℕ → Decode A → Decode (List A)
repeat zero d = pure []
repeat (suc n) d = do x ← d; xs ← repeat n d; pure (x ∷ xs)

-- `Vec::with_capacity(len as usize)` of a negative `i32` panics with a capacity overflow.
unfoldable pub reserve : ℕ → Decode (Unit {0})
reserve len = if ltb len (2 ^ 31) then pure tt else crash

-- `iter().fold(0, |acc, v| acc + v.encoded_size())`
abbrev pub fold_size : {A : Type 0} → (A → ℕ) → List A → ℕ
fold_size size xs = foldl (λ acc v. acc ⊞ size v) 0 xs

abbrev pub vec_size : {A : Type 0} → (A → ℕ) → List A → ℕ
vec_size size xs = 4 ⊞ fold_size size xs

module _ ⦃b : ByteOrder⦄ where
  unfoldable pub read_vec : {A : Type 0} → Decode A → Decode (List A)
  unfolding repeat reserve
  read_vec d = do len ← read_i32; reserve len; repeat len d

  -- The encoders of `Vec<u16>`, `Vec<u64>`, `Vec<Broker>`, …: they differ in the elements only.
  unfoldable pub encode_vec : {A : Type 0} → (A → Emit) → List A → Emit
  unfolding emit_each
  encode_vec f xs = encode_i32 (length xs % u32_mod) ⊕ emit_each f xs

  unfoldable pub decode_vec_u16 : Decode (List ℕ)
  unfolding read_vec
  decode_vec_u16 = read_vec read_u16

  unfoldable pub encode_vec_u16 : List ℕ → Emit
  unfolding encode_vec
  encode_vec_u16 xs = encode_vec encode_u16 xs

  unfoldable pub decode_vec_u64 : Decode (List ℕ)
  unfolding read_vec
  decode_vec_u64 = read_vec read_u64

  unfoldable pub encode_vec_u64 : List ℕ → Emit
  unfolding encode_vec
  encode_vec_u64 xs = encode_vec encode_u64 xs

  -- `if let Some(v) = value { vec.push(v) }`
  abbrev pub push : Option Str → List Str → List Str
  push none vec = vec
  push (some v) vec = v ∷ vec

  unfoldable pub read_strings : ℕ → Decode (List Str)
  read_strings zero = pure []
  read_strings (suc n) = do value ← decode_string; vec ← read_strings n; pure (push value vec)

  -- `Vec::<String>::decode`
  unfoldable pub decode_strings : Decode (List Str)
  unfolding read_strings
  decode_strings = do n ← read_u32; read_strings n

  -- `Vec::<String>::encode`
  unfoldable pub encode_strings : List Str → Emit
  unfolding emit_each
  encode_strings xs = encode_u32 (length xs % u32_mod) ⊕ emit_each encode_str xs

abbrev pub strings_size : List Str → ℕ
strings_size xs = vec_size str_size xs
