-- ===== src/Amqp/TypeCode.antt =====
-- The type codes of protocol/src/message/amqp/codec/constants.rs, and how an AMQP decoder looks at one.
pub mod Keeps
pub mod Laws
use rabbitmq_stream_rust_cli.Prelude.{ℕ, Bool, Option, none, some, List, ◌==◌, if◌then◌else◌}
use rabbitmq_stream_rust_cli.Codec.Outcome.{
  Outcome, ok, err, panic, invalid_format_code, Decode, pure, fail, ◌>>=◌,
}
use rabbitmq_stream_rust_cli.Codec.Emit.{Emit}
use rabbitmq_stream_rust_cli.Codec.ByteOrder.{ByteOrder}
use rabbitmq_stream_rust_cli.Codec.Ints.{read_u8, encode_u8}

pub data TypeCode : Type 0 where
  described : TypeCode
  null : TypeCode
  boolean : TypeCode
  boolean_true : TypeCode
  boolean_false : TypeCode
  uint0 : TypeCode
  ulong0 : TypeCode
  ubyte : TypeCode
  ushort : TypeCode
  uint : TypeCode
  ulong : TypeCode
  byte : TypeCode
  short : TypeCode
  int : TypeCode
  long : TypeCode
  uint_small : TypeCode
  ulong_small : TypeCode
  int_small : TypeCode
  long_small : TypeCode
  float : TypeCode
  double : TypeCode
  char : TypeCode
  timestamp : TypeCode
  uuid : TypeCode
  binary8 : TypeCode
  binary32 : TypeCode
  string8 : TypeCode
  string32 : TypeCode
  symbol8 : TypeCode
  symbol32 : TypeCode
  list0 : TypeCode
  list8 : TypeCode
  list32 : TypeCode
  map8 : TypeCode
  map32 : TypeCode
  array8 : TypeCode
  array32 : TypeCode

-- `#[repr(u8)]` and `IntoPrimitive`
unfoldable pub to_u8 : TypeCode → ℕ
to_u8 TypeCode.described = 0x00
to_u8 TypeCode.null = 0x40
to_u8 TypeCode.boolean = 0x56
to_u8 TypeCode.boolean_true = 0x41
to_u8 TypeCode.boolean_false = 0x42
to_u8 TypeCode.uint0 = 0x43
to_u8 TypeCode.ulong0 = 0x44
to_u8 TypeCode.ubyte = 0x50
to_u8 TypeCode.ushort = 0x60
to_u8 TypeCode.uint = 0x70
to_u8 TypeCode.ulong = 0x80
to_u8 TypeCode.byte = 0x51
to_u8 TypeCode.short = 0x61
to_u8 TypeCode.int = 0x71
to_u8 TypeCode.long = 0x81
to_u8 TypeCode.uint_small = 0x52
to_u8 TypeCode.ulong_small = 0x53
to_u8 TypeCode.int_small = 0x54
to_u8 TypeCode.long_small = 0x55
to_u8 TypeCode.float = 0x72
to_u8 TypeCode.double = 0x82
to_u8 TypeCode.char = 0x73
to_u8 TypeCode.timestamp = 0x83
to_u8 TypeCode.uuid = 0x98
to_u8 TypeCode.binary8 = 0xa0
to_u8 TypeCode.binary32 = 0xb0
to_u8 TypeCode.string8 = 0xa1
to_u8 TypeCode.string32 = 0xb1
to_u8 TypeCode.symbol8 = 0xa3
to_u8 TypeCode.symbol32 = 0xb3
to_u8 TypeCode.list0 = 0x45
to_u8 TypeCode.list8 = 0xc0
to_u8 TypeCode.list32 = 0xd0
to_u8 TypeCode.map8 = 0xc1
to_u8 TypeCode.map32 = 0xd1
to_u8 TypeCode.array8 = 0xe0
to_u8 TypeCode.array32 = 0xf0

-- `TryFromPrimitive`
unfoldable pub try_from : ℕ → Option TypeCode
try_from n =
    if n == 0x00
    then some TypeCode.described
    else if n == 0x40
    then some TypeCode.null
    else if n == 0x56
    then some TypeCode.boolean
    else if n == 0x41
    then some TypeCode.boolean_true
    else if n == 0x42
    then some TypeCode.boolean_false
    else if n == 0x43
    then some TypeCode.uint0
    else if n == 0x44
    then some TypeCode.ulong0
    else if n == 0x50
    then some TypeCode.ubyte
    else if n == 0x60
    then some TypeCode.ushort
    else if n == 0x70
    then some TypeCode.uint
    else if n == 0x80
    then some TypeCode.ulong
    else if n == 0x51
    then some TypeCode.byte
    else if n == 0x61
    then some TypeCode.short
    else if n == 0x71
    then some TypeCode.int
    else if n == 0x81
    then some TypeCode.long
    else if n == 0x52
    then some TypeCode.uint_small
    else if n == 0x53
    then some TypeCode.ulong_small
    else if n == 0x54
    then some TypeCode.int_small
    else if n == 0x55
    then some TypeCode.long_small
    else if n == 0x72
    then some TypeCode.float
    else if n == 0x82
    then some TypeCode.double
    else if n == 0x73
    then some TypeCode.char
    else if n == 0x83
    then some TypeCode.timestamp
    else if n == 0x98
    then some TypeCode.uuid
    else if n == 0xa0
    then some TypeCode.binary8
    else if n == 0xb0
    then some TypeCode.binary32
    else if n == 0xa1
    then some TypeCode.string8
    else if n == 0xb1
    then some TypeCode.string32
    else if n == 0xa3
    then some TypeCode.symbol8
    else if n == 0xb3
    then some TypeCode.symbol32
    else if n == 0x45
    then some TypeCode.list0
    else if n == 0xc0
    then some TypeCode.list8
    else if n == 0xd0
    then some TypeCode.list32
    else if n == 0xc1
    then some TypeCode.map8
    else if n == 0xd1
    then some TypeCode.map32
    else if n == 0xe0
    then some TypeCode.array8
    else if n == 0xf0
    then some TypeCode.array32
    else none

-- `impl AmqpDecoder for TypeCode`: `AmqpDecodeError::InvalidTypeCode` is
-- `DecodeError::InvalidFormatCode` for the caller of the codec.
unfoldable pub known : ℕ → Decode TypeCode
unfolding try_from
known n = elim (try_from n) [ none ↦ fail (invalid_format_code n) | some c ↦ pure c ]

unfoldable pub decode : Decode TypeCode
unfolding known
decode = do n ← read_u8; known n

-- `impl AmqpEncoder for TypeCode`
unfoldable pub encode : ⦃b : ByteOrder⦄ → TypeCode → Emit
unfolding to_u8
encode c = encode_u8 (to_u8 c)

module _ {A B : Type 0} where
  abbrev pub looked : List ℕ → Outcome (List ℕ × A) → (A → Decode B) → Outcome (List ℕ × B)
  looked input (ok (rest, a)) k = k a input
  looked input (err e) k = err e
  looked input panic k = panic

  -- `let (_, x) = m(input)?` and then a decoder that starts at the same `input`.
  unfoldable pub peek : Decode A → (A → Decode B) → Decode B
  peek m k input = looked input (m input) k

-- `.map_second(f)`
unfoldable pub map_second : {A B : Type 0} → (A → B) → Decode A → Decode B
map_second f d = do x ← d; pure (f x)
