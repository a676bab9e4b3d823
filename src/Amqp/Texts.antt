-- ===== src/Amqp/Texts.antt =====
-- The values of several bytes: `Binary`, `Str`, `Uuid` and `Timestamp` of
-- protocol/src/message/amqp/types/primitives/simple.rs, and types/symbol.rs.
pub mod Laws
use rabbitmq_stream_rust_cli.Prelude.{
  ℕ, ◌+◌, ◌%◌, Option, none, some, List, length, take, drop, ltb, if◌then◌else◌,
}
use rabbitmq_stream_rust_cli.Codec.Outcome.{ok, Decode, pure, ◌>>=◌}
use rabbitmq_stream_rust_cli.Codec.Emit.{Emit, done, ◌⊕◌}
use rabbitmq_stream_rust_cli.Codec.ByteOrder.{ByteOrder}
use rabbitmq_stream_rust_cli.Codec.Strings.{Str, from_utf8}
use rabbitmq_stream_rust_cli.Codec.Ints.{
  u8_mod, u32_mod, ◌⊞◌, with_len, read_u8, read_u32, read_i64, encode_u8, encode_u32, encode_i64,
}
use rabbitmq_stream_rust_cli.Amqp.TypeCode
use rabbitmq_stream_rust_cli.Amqp.TypeCode.{TypeCode, map_second}
use rabbitmq_stream_rust_cli.Amqp.Errors.{
  Target, Externals, AmqpDecodeError, ErrorText, fail_with, invalid_code,
}

-- `read_exact` of protocol/src/codec/decoder.rs
unfoldable pub read_exact : ℕ → Decode (List ℕ)
read_exact len = with_len len (λ input. ok (drop len input, take len input))

-- `encoded_size` of `Binary`, of `Str` and of `Symbol`.
abbrev pub long_size : List ℕ → ℕ
long_size v = (if ltb 255 (length v % u32_mod) then 5 else 2) ⊞ length v % u32_mod

abbrev pub uuid_size : ℕ
uuid_size = 1 ⊞ 16

abbrev pub timestamp_size : ℕ
timestamp_size = 1 ⊞ 8

module _ ⦃b : ByteOrder⦄ where
  -- `Binary::encode` tests the length as a `u32`.
  unfoldable pub encode_binary : List ℕ → Emit
  encode_binary v =
      let len : ℕ = length v % u32_mod in
      (if ltb 255 len
        then TypeCode.encode TypeCode.binary32 ⊕ encode_u32 len
        else TypeCode.encode TypeCode.binary8 ⊕ encode_u8 (len % u8_mod))
      ⊕ done v

  -- `Str::encode` and `Symbol::encode` test it as a `usize`.
  unfoldable pub encode_chars : TypeCode → TypeCode → Str → Emit
  encode_chars small wide s =
      (if ltb 255 (length s)
        then TypeCode.encode wide ⊕ encode_u32 (length s % u32_mod)
        else TypeCode.encode small ⊕ encode_u8 (length s % u8_mod))
      ⊕ done s

  unfoldable pub encode_str : Str → Emit
  unfolding encode_chars
  encode_str s = encode_chars TypeCode.string8 TypeCode.string32 s

  unfoldable pub encode_symbol : Str → Emit
  unfolding encode_chars
  encode_symbol s = encode_chars TypeCode.symbol8 TypeCode.symbol32 s

  -- `let (input, len) = read_u8(input)?; read_exact(input, len as usize)`, and with a `u32`.
  unfoldable pub read_short : Decode (List ℕ)
  unfolding read_exact
  read_short = do len ← read_u8; read_exact len

  unfoldable pub read_long : Decode (List ℕ)
  unfolding read_exact
  read_long = do len ← read_u32; read_exact len

module _ ⦃b : ByteOrder⦄ ⦃x : Externals⦄ where
  abbrev pub binary_of : TypeCode → Decode (List ℕ)
  binary_of TypeCode.binary8 = read_short
  binary_of TypeCode.binary32 = read_long
  binary_of c = invalid_code Target.binary c

  unfoldable pub decode_binary : Decode (List ℕ)
  unfolding read_short read_long
  decode_binary = do c ← TypeCode.decode; binary_of c

  abbrev pub str_of : TypeCode → Decode Str
  str_of TypeCode.string8 = do bytes ← read_short; from_utf8 bytes
  str_of TypeCode.string32 = do bytes ← read_long; from_utf8 bytes
  str_of c = invalid_code Target.str c

  unfoldable pub decode_str : Decode Str
  unfolding read_short read_long
  decode_str = do c ← TypeCode.decode; str_of c

  abbrev pub symbol_of : TypeCode → Decode Str
  symbol_of TypeCode.symbol8 = do bytes ← read_short; from_utf8 bytes
  symbol_of TypeCode.symbol32 = do bytes ← read_long; from_utf8 bytes
  symbol_of c = invalid_code Target.symbol c

  unfoldable pub decode_symbol : Decode Str
  unfolding read_short read_long
  decode_symbol = do c ← TypeCode.decode; symbol_of c

  -- `Uuid::from_slice(bytes)?`
  unfoldable pub uuid_from : List ℕ → Decode x.Uuid
  unfolding fail_with
  uuid_from bytes = elim (x.from_slice bytes) [
    | none ↦ fail_with (AmqpDecodeError.uuid_error bytes)
    | some u ↦ pure u
  ]

  abbrev pub uuid_of : TypeCode → Decode x.Uuid
  uuid_of TypeCode.uuid = do bytes ← read_exact 16; uuid_from bytes
  uuid_of c = invalid_code Target.uuid c

  unfoldable pub decode_uuid : Decode x.Uuid
  unfolding read_exact uuid_from
  decode_uuid = do c ← TypeCode.decode; uuid_of c

  unfoldable pub encode_uuid : x.Uuid → Emit
  encode_uuid u = TypeCode.encode TypeCode.uuid ⊕ done (x.as_bytes u)

  -- `Utc.timestamp_millis_opt(millis).single().map(Timestamp).ok_or_else(…)`
  unfoldable pub timestamp_from : ℕ → Decode x.DateTime
  unfolding fail_with
  timestamp_from millis = elim (x.timestamp_millis_opt millis) [
    | none ↦ fail_with (AmqpDecodeError.message_parse (ErrorText.invalid_timestamp millis))
    | some t ↦ pure t
  ]

  abbrev pub timestamp_of : TypeCode → Decode x.DateTime
  timestamp_of TypeCode.timestamp = do millis ← read_i64; timestamp_from millis
  timestamp_of c = invalid_code Target.timestamp c

  unfoldable pub decode_timestamp : Decode x.DateTime
  unfolding timestamp_from
  decode_timestamp = do c ← TypeCode.decode; timestamp_of c

  unfoldable pub encode_timestamp : x.DateTime → Emit
  encode_timestamp t = TypeCode.encode TypeCode.timestamp ⊕ encode_i64 (x.timestamp_millis t)
