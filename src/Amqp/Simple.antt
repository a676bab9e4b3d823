-- ===== src/Amqp/Simple.antt =====
-- `SimpleValue` of protocol/src/message/amqp/types/primitives/simple.rs.
pub mod Keeps
pub mod Laws
use rabbitmq_stream_rust_cli.Prelude.{
  ℕ, Bool, true, false, Option, none, some, List, ◌==◌, if◌then◌else◌,
}
use rabbitmq_stream_rust_cli.Codec.Outcome.{Decode, pure, ◌>>=◌}
use rabbitmq_stream_rust_cli.Codec.Emit.{Emit}
use rabbitmq_stream_rust_cli.Codec.ByteOrder.{ByteOrder}
use rabbitmq_stream_rust_cli.Codec.Strings.{Str}
use rabbitmq_stream_rust_cli.Codec.Maps.{str_eq}
use rabbitmq_stream_rust_cli.Amqp.TypeCode
use rabbitmq_stream_rust_cli.Amqp.TypeCode.{TypeCode, peek, map_second}
use rabbitmq_stream_rust_cli.Amqp.Errors.{Target, Externals, invalid_code}
use rabbitmq_stream_rust_cli.Amqp.Numbers.{
  uint_size, ulong_size, int_size, long_size, ubyte_size, ushort_size, byte_size, short_size,
  float_size, double_size, char_size, boolean_size, encode_ubyte, encode_ushort, encode_byte,
  encode_short, encode_float, encode_double, encode_char, encode_uint, encode_ulong, encode_int,
  encode_long, encode_boolean, decode_ubyte, decode_ushort, decode_byte, decode_short, decode_float,
  decode_double, decode_char, decode_uint, decode_ulong, decode_int, decode_long, decode_boolean,
}
use rabbitmq_stream_rust_cli.Amqp.Texts
use rabbitmq_stream_rust_cli.Amqp.Texts.{
  uuid_size, timestamp_size, encode_binary, encode_str, encode_symbol, encode_uuid,
  encode_timestamp, decode_binary, decode_str, decode_symbol, decode_uuid, decode_timestamp,
}

module _ ⦃x : Externals⦄ where
  pub data SimpleValue : Type 0 where
    null : SimpleValue
    boolean : Bool → SimpleValue
    ubyte : ℕ → SimpleValue
    ushort : ℕ → SimpleValue
    uint : ℕ → SimpleValue
    ulong : ℕ → SimpleValue
    byte : ℕ → SimpleValue
    short : ℕ → SimpleValue
    int : ℕ → SimpleValue
    long : ℕ → SimpleValue
    float : ℕ → SimpleValue
    double : ℕ → SimpleValue
    char : ℕ → SimpleValue
    timestamp : x.DateTime → SimpleValue
    uuid : x.Uuid → SimpleValue
    binary : List ℕ → SimpleValue
    string : Str → SimpleValue
    symbol : Str → SimpleValue

  -- `SimpleValue::encoded_size`
  abbrev pub simple_size : SimpleValue → ℕ
  simple_size SimpleValue.null = 1
  simple_size (SimpleValue.boolean v) = boolean_size v
  simple_size (SimpleValue.ubyte v) = ubyte_size v
  simple_size (SimpleValue.ushort v) = ushort_size v
  simple_size (SimpleValue.uint v) = uint_size v
  simple_size (SimpleValue.ulong v) = ulong_size v
  simple_size (SimpleValue.byte v) = byte_size v
  simple_size (SimpleValue.short v) = short_size v
  simple_size (SimpleValue.int v) = int_size v
  simple_size (SimpleValue.long v) = long_size v
  simple_size (SimpleValue.float v) = float_size v
  simple_size (SimpleValue.double v) = double_size v
  simple_size (SimpleValue.char v) = char_size v
  simple_size (SimpleValue.timestamp v) = timestamp_size
  simple_size (SimpleValue.uuid v) = uuid_size
  simple_size (SimpleValue.binary v) = Texts.long_size v
  simple_size (SimpleValue.string v) = Texts.long_size v
  simple_size (SimpleValue.symbol v) = Texts.long_size v

  -- `derive(PartialEq)`
  abbrev pub simple_eq : SimpleValue → SimpleValue → Bool
  simple_eq SimpleValue.null SimpleValue.null = true
  simple_eq (SimpleValue.boolean v) (SimpleValue.boolean w) =
      (if v then w else (if w then false else true))
  simple_eq (SimpleValue.ubyte v) (SimpleValue.ubyte w) = v == w
  simple_eq (SimpleValue.ushort v) (SimpleValue.ushort w) = v == w
  simple_eq (SimpleValue.uint v) (SimpleValue.uint w) = v == w
  simple_eq (SimpleValue.ulong v) (SimpleValue.ulong w) = v == w
  simple_eq (SimpleValue.byte v) (SimpleValue.byte w) = v == w
  simple_eq (SimpleValue.short v) (SimpleValue.short w) = v == w
  simple_eq (SimpleValue.int v) (SimpleValue.int w) = v == w
  simple_eq (SimpleValue.long v) (SimpleValue.long w) = v == w
  simple_eq (SimpleValue.float v) (SimpleValue.float w) = x.float_eq v w
  simple_eq (SimpleValue.double v) (SimpleValue.double w) = x.double_eq v w
  simple_eq (SimpleValue.char v) (SimpleValue.char w) = v == w
  simple_eq (SimpleValue.timestamp v) (SimpleValue.timestamp w) = x.datetime_eq v w
  simple_eq (SimpleValue.uuid v) (SimpleValue.uuid w) = x.uuid_eq v w
  simple_eq (SimpleValue.binary v) (SimpleValue.binary w) = str_eq v w
  simple_eq (SimpleValue.string v) (SimpleValue.string w) = str_eq v w
  simple_eq (SimpleValue.symbol v) (SimpleValue.symbol w) = str_eq v w
  simple_eq a b = false

module _ ⦃b : ByteOrder⦄ ⦃x : Externals⦄ where
  -- `SimpleValue::encode`
  unfoldable pub encode_simple : SimpleValue → Emit
  encode_simple SimpleValue.null = TypeCode.encode TypeCode.null
  encode_simple (SimpleValue.boolean v) = encode_boolean v
  encode_simple (SimpleValue.ubyte v) = encode_ubyte v
  encode_simple (SimpleValue.ushort v) = encode_ushort v
  encode_simple (SimpleValue.uint v) = encode_uint v
  encode_simple (SimpleValue.ulong v) = encode_ulong v
  encode_simple (SimpleValue.byte v) = encode_byte v
  encode_simple (SimpleValue.short v) = encode_short v
  encode_simple (SimpleValue.int v) = encode_int v
  encode_simple (SimpleValue.long v) = encode_long v
  encode_simple (SimpleValue.float v) = encode_float v
  encode_simple (SimpleValue.double v) = encode_double v
  encode_simple (SimpleValue.char v) = encode_char v
  encode_simple (SimpleValue.timestamp v) = encode_timestamp v
  encode_simple (SimpleValue.uuid v) = encode_uuid v
  encode_simple (SimpleValue.binary v) = encode_binary v
  encode_simple (SimpleValue.string v) = encode_str v
  encode_simple (SimpleValue.symbol v) = encode_symbol v

  -- `Ok((remaining, SimpleValue::Null))`: the code is all that there is.
  unfoldable pub after_code : {A : Type 0} → A → Decode A
  after_code a = do c ← TypeCode.decode; pure a

  abbrev pub simple_of : TypeCode → Decode SimpleValue
  simple_of TypeCode.null = after_code SimpleValue.null
  simple_of TypeCode.boolean = map_second SimpleValue.boolean decode_boolean
  simple_of TypeCode.boolean_false = map_second SimpleValue.boolean decode_boolean
  simple_of TypeCode.boolean_true = map_second SimpleValue.boolean decode_boolean
  simple_of TypeCode.uint0 = map_second SimpleValue.uint decode_uint
  simple_of TypeCode.uint_small = map_second SimpleValue.uint decode_uint
  simple_of TypeCode.uint = map_second SimpleValue.uint decode_uint
  simple_of TypeCode.ulong0 = map_second SimpleValue.ulong decode_ulong
  simple_of TypeCode.ulong_small = map_second SimpleValue.ulong decode_ulong
  simple_of TypeCode.ulong = map_second SimpleValue.ulong decode_ulong
  simple_of TypeCode.ubyte = map_second SimpleValue.ubyte decode_ubyte
  simple_of TypeCode.ushort = map_second SimpleValue.ushort decode_ushort
  simple_of TypeCode.byte = map_second SimpleValue.byte decode_byte
  simple_of TypeCode.short = map_second SimpleValue.short decode_short
  simple_of TypeCode.int_small = map_second SimpleValue.int decode_int
  simple_of TypeCode.int = map_second SimpleValue.int decode_int
  simple_of TypeCode.long_small = map_second SimpleValue.long decode_long
  simple_of TypeCode.long = map_second SimpleValue.long decode_long
  simple_of TypeCode.float = map_second SimpleValue.float decode_float
  simple_of TypeCode.double = map_second SimpleValue.double decode_double
  simple_of TypeCode.char = map_second SimpleValue.char decode_char
  simple_of TypeCode.timestamp = map_second SimpleValue.timestamp decode_timestamp
  simple_of TypeCode.uuid = map_second SimpleValue.uuid decode_uuid
  simple_of TypeCode.binary8 = map_second SimpleValue.binary decode_binary
  simple_of TypeCode.binary32 = map_second SimpleValue.binary decode_binary
  simple_of TypeCode.string8 = map_second SimpleValue.string decode_str
  simple_of TypeCode.string32 = map_second SimpleValue.string decode_str
  simple_of TypeCode.symbol8 = map_second SimpleValue.symbol decode_symbol
  simple_of TypeCode.symbol32 = map_second SimpleValue.symbol decode_symbol
  simple_of c = invalid_code Target.simple_value c

  -- `SimpleValue::decode`
  unfoldable pub decode_simple : Decode SimpleValue
  unfolding after_code
  decode_simple = peek TypeCode.decode simple_of

  -- `impl<T> AmqpEncoder for Option<T>` and `impl<T> AmqpDecoder for Option<T>`
  abbrev pub option_size : {A : Type 0} → (A → ℕ) → Option A → ℕ
  option_size size none = 1
  option_size size (some a) = size a

  unfoldable pub encode_option : {A : Type 0} → (A → Emit) → Option A → Emit
  encode_option f none = TypeCode.encode TypeCode.null
  encode_option f (some a) = f a

  abbrev pub option_of : {A : Type 0} → Decode A → TypeCode → Decode (Option A)
  option_of d TypeCode.null = after_code none
  option_of d c = map_second some d

  unfoldable pub decode_option : {A : Type 0} → Decode A → Decode (Option A)
  unfolding after_code
  decode_option d = peek TypeCode.decode (option_of d)
