-- ===== src/Amqp/Numbers.antt =====
-- The numbers of protocol/src/message/amqp/types/primitives/simple.rs. A signed integer and a float
-- are their bit patterns.
pub mod Laws
use rabbitmq_stream_rust_cli.Prelude.{
  ℕ, ◌+◌, ◌-◌, ◌%◌, ◌^◌, Bool, true, false, not, ◌&&◌, ◌||◌, ltb, leb, ◌==◌, if◌then◌else◌,
}
use rabbitmq_stream_rust_cli.Codec.Outcome.{Decode, pure, ◌>>=◌}
use rabbitmq_stream_rust_cli.Codec.Emit.{Emit, ◌⊕◌}
use rabbitmq_stream_rust_cli.Codec.ByteOrder.{ByteOrder}
use rabbitmq_stream_rust_cli.Codec.Ints.{
  u8_mod, u32_mod, u64_mod, reader, read_u8, read_i8, read_u16, read_i16, read_u32, read_i32,
  read_u64, read_i64, encode_u8, encode_i8, encode_u16, encode_i16, encode_u32, encode_i32,
  encode_u64, encode_i64,
}
use rabbitmq_stream_rust_cli.Amqp.TypeCode
use rabbitmq_stream_rust_cli.Amqp.TypeCode.{TypeCode, map_second}
use rabbitmq_stream_rust_cli.Amqp.Errors.{Target, Externals, invalid_code}

-- `*self > i32::from(i8::MAX) || *self < i32::from(i8::MIN)`, and the same of an `i64`.
abbrev pub is_wide_int : ℕ → Bool
is_wide_int n = leb 128 n && ltb n (u32_mod - 128)

abbrev pub is_wide_long : ℕ → Bool
is_wide_long n = leb 128 n && ltb n (u64_mod - 128)

-- `i64::from` of an `i8`.
abbrev pub i64_of_i8 : ℕ → ℕ
i64_of_i8 n = if ltb n 128 then n else u64_mod - u8_mod + n

-- `char::from_u32` of the Rust standard library: any code point but the surrogates.
abbrev pub is_char : ℕ → Bool
is_char n = ltb n 0xd800 || leb 0xe000 n && leb n 0x10ffff

-- `encoded_size`
abbrev pub uint_size : ℕ → ℕ
uint_size n = if n == 0 then 1 else if ltb 255 n then 5 else 2

abbrev pub ulong_size : ℕ → ℕ
ulong_size n = if n == 0 then 1 else if ltb 255 n then 9 else 2

abbrev pub int_size : ℕ → ℕ
int_size n = if is_wide_int n then 5 else 2

abbrev pub long_size : ℕ → ℕ
long_size n = if is_wide_long n then 9 else 3

-- The sizes that do not depend on the value.
abbrev pub ubyte_size : ℕ → ℕ
ubyte_size n = 2

abbrev pub ushort_size : ℕ → ℕ
ushort_size n = 3

abbrev pub byte_size : ℕ → ℕ
byte_size n = 2

abbrev pub short_size : ℕ → ℕ
short_size n = 3

abbrev pub float_size : ℕ → ℕ
float_size n = 5

abbrev pub double_size : ℕ → ℕ
double_size n = 9

abbrev pub char_size : ℕ → ℕ
char_size n = 5

abbrev pub boolean_size : Bool → ℕ
boolean_size x = 1

module _ ⦃b : ByteOrder⦄ where
  unfoldable pub encode_ubyte : ℕ → Emit
  encode_ubyte n = TypeCode.encode TypeCode.ubyte ⊕ encode_u8 n

  unfoldable pub encode_ushort : ℕ → Emit
  encode_ushort n = TypeCode.encode TypeCode.ushort ⊕ encode_u16 n

  unfoldable pub encode_byte : ℕ → Emit
  encode_byte n = TypeCode.encode TypeCode.byte ⊕ encode_i8 n

  unfoldable pub encode_short : ℕ → Emit
  encode_short n = TypeCode.encode TypeCode.short ⊕ encode_i16 n

  unfoldable pub encode_float : ℕ → Emit
  encode_float n = TypeCode.encode TypeCode.float ⊕ encode_u32 n

  unfoldable pub encode_double : ℕ → Emit
  encode_double n = TypeCode.encode TypeCode.double ⊕ encode_u64 n

  unfoldable pub encode_char : ℕ → Emit
  encode_char n = TypeCode.encode TypeCode.char ⊕ encode_u32 n

  unfoldable pub encode_uint : ℕ → Emit
  encode_uint n =
      if n == 0
      then TypeCode.encode TypeCode.uint0
      else if ltb 255 n
      then TypeCode.encode TypeCode.uint ⊕ encode_u32 n
      else TypeCode.encode TypeCode.uint_small ⊕ encode_u8 (n % u8_mod)

  unfoldable pub encode_ulong : ℕ → Emit
  encode_ulong n =
      if n == 0
      then TypeCode.encode TypeCode.ulong0
      else if ltb 255 n
      then TypeCode.encode TypeCode.ulong ⊕ encode_u64 n
      else TypeCode.encode TypeCode.ulong_small ⊕ encode_u8 (n % u8_mod)

  unfoldable pub encode_int : ℕ → Emit
  encode_int n =
      if is_wide_int n
      then TypeCode.encode TypeCode.int ⊕ encode_i32 n
      else TypeCode.encode TypeCode.int_small ⊕ encode_i8 (n % u8_mod)

  unfoldable pub encode_long : ℕ → Emit
  encode_long n =
      if is_wide_long n
      then TypeCode.encode TypeCode.long ⊕ encode_i64 n
      else TypeCode.encode TypeCode.long_small ⊕ encode_i8 (n % u8_mod)

  unfoldable pub encode_boolean : Bool → Emit
  encode_boolean x = TypeCode.encode (if x then TypeCode.boolean_true else TypeCode.boolean_false)

module _ ⦃b : ByteOrder⦄ ⦃x : Externals⦄ where
  abbrev pub ubyte_of : TypeCode → Decode ℕ
  ubyte_of TypeCode.ubyte = read_u8
  ubyte_of c = invalid_code Target.ubyte c

  unfoldable pub decode_ubyte : Decode ℕ
  decode_ubyte = do c ← TypeCode.decode; ubyte_of c

  abbrev pub ushort_of : TypeCode → Decode ℕ
  ushort_of TypeCode.ushort = read_u16
  ushort_of c = invalid_code Target.ushort c

  unfoldable pub decode_ushort : Decode ℕ
  decode_ushort = do c ← TypeCode.decode; ushort_of c

  abbrev pub byte_of : TypeCode → Decode ℕ
  byte_of TypeCode.byte = read_i8
  byte_of c = invalid_code Target.byte c

  unfoldable pub decode_byte : Decode ℕ
  decode_byte = do c ← TypeCode.decode; byte_of c

  abbrev pub short_of : TypeCode → Decode ℕ
  short_of TypeCode.short = read_i16
  short_of c = invalid_code Target.short c

  unfoldable pub decode_short : Decode ℕ
  decode_short = do c ← TypeCode.decode; short_of c

  abbrev pub float_of : TypeCode → Decode ℕ
  float_of TypeCode.float = reader 4
  float_of c = invalid_code Target.float c

  unfoldable pub decode_float : Decode ℕ
  decode_float = do c ← TypeCode.decode; float_of c

  abbrev pub double_of : TypeCode → Decode ℕ
  double_of TypeCode.double = reader 8
  double_of c = invalid_code Target.double c

  unfoldable pub decode_double : Decode ℕ
  decode_double = do c ← TypeCode.decode; double_of c

  abbrev pub uint_of : TypeCode → Decode ℕ
  uint_of TypeCode.uint0 = pure 0
  uint_of TypeCode.uint_small = read_u8
  uint_of TypeCode.uint = read_u32
  uint_of c = invalid_code Target.uint c

  unfoldable pub decode_uint : Decode ℕ
  decode_uint = do c ← TypeCode.decode; uint_of c

  abbrev pub ulong_of : TypeCode → Decode ℕ
  ulong_of TypeCode.ulong = read_u64
  ulong_of TypeCode.ulong_small = read_u8
  ulong_of TypeCode.ulong0 = pure 0
  ulong_of c = invalid_code Target.ulong c

  unfoldable pub decode_ulong : Decode ℕ
  decode_ulong = do c ← TypeCode.decode; ulong_of c

  abbrev pub int_of : TypeCode → Decode ℕ
  int_of TypeCode.int = read_i32
  int_of TypeCode.int_small = read_u8
  int_of c = invalid_code Target.int c

  unfoldable pub decode_int : Decode ℕ
  decode_int = do c ← TypeCode.decode; int_of c

  abbrev pub long_of : TypeCode → Decode ℕ
  long_of TypeCode.long = read_i64
  long_of TypeCode.long_small = map_second i64_of_i8 read_i8
  long_of c = invalid_code Target.long c

  unfoldable pub decode_long : Decode ℕ
  decode_long = do c ← TypeCode.decode; long_of c

  -- `c.ok_or_else(|| Self::invalid_type_code(code))?`
  unfoldable pub checked_char : ℕ → Decode ℕ
  unfolding invalid_code
  checked_char n = if is_char n then pure n else invalid_code Target.char TypeCode.char

  abbrev pub char_of : TypeCode → Decode ℕ
  char_of TypeCode.char = do n ← read_u32; checked_char n
  char_of c = invalid_code Target.char c

  unfoldable pub decode_char : Decode ℕ
  decode_char = do c ← TypeCode.decode; char_of c

  abbrev pub boolean_of : TypeCode → Decode Bool
  boolean_of TypeCode.boolean = map_second (λ n. not (n == 0)) read_u8
  boolean_of TypeCode.boolean_true = pure true
  boolean_of TypeCode.boolean_false = pure false
  boolean_of c = invalid_code Target.boolean c

  unfoldable pub decode_boolean : Decode Bool
  decode_boolean = do c ← TypeCode.decode; boolean_of c
