-- ===== src/Amqp/Simple/Keeps.antt =====
-- The decoders of simple values leave no more than they were given.
use rabbitmq_stream_rust_cli.Prelude.{ℕ, none, some, List}
use rabbitmq_stream_rust_cli.Codec.Outcome.{Decode, pure, ◌>>=◌}
use rabbitmq_stream_rust_cli.Codec.ByteOrder.{ByteOrder}
use rabbitmq_stream_rust_cli.Codec.Ints.Laws.{int_local_rules, reader-IsLocal}
use rabbitmq_stream_rust_cli.Amqp.Texts.Laws.{read_exact-IsLocal}
use rabbitmq_stream_rust_cli.Codec.Strings.{from_utf8}
use rabbitmq_stream_rust_cli.Codec.Recursion.{
  Keeps, Keeps-pure, Shrinks, Shrinks-bind, Shrinks-Keeps, IsLocal-Keeps,
}
use rabbitmq_stream_rust_cli.Amqp.TypeCode
use rabbitmq_stream_rust_cli.Amqp.TypeCode.{TypeCode, peek}
use rabbitmq_stream_rust_cli.Amqp.TypeCode.Keeps.{
  code-Shrinks, code_keep_rules, peek-Keeps, peek-Shrinks, map_second-Shrinks, invalid_code-Shrinks,
  map_second-Keeps, fail_with-Keeps,
}
use rabbitmq_stream_rust_cli.Amqp.Errors.{Externals, AmqpDecodeError, ErrorText, fail_with}
use rabbitmq_stream_rust_cli.Amqp.Numbers.{
  decode_ubyte, decode_ushort, decode_uint, decode_ulong, decode_byte, decode_short, decode_int,
  decode_long, decode_float, decode_double, decode_char, decode_boolean, checked_char, ubyte_of,
  ushort_of, uint_of, ulong_of, byte_of, short_of, int_of, long_of, float_of, double_of, char_of,
  boolean_of,
}
use rabbitmq_stream_rust_cli.Amqp.Texts.{
  read_exact, read_short, read_long, decode_binary, decode_str, decode_symbol, uuid_from,
  decode_uuid, timestamp_from, decode_timestamp, binary_of, str_of, symbol_of, uuid_of,
  timestamp_of,
}
use rabbitmq_stream_rust_cli.Amqp.Simple.{
  SimpleValue, simple_of, after_code, decode_simple, option_of, decode_option,
}

ruleset number_keep_rules = (code_keep_rules, IsLocal-Keeps, int_local_rules, reader-IsLocal)

module _ ⦃b : ByteOrder⦄ ⦃x : Externals⦄ where
  -- A decoder that reads a code and goes on by it takes a byte.
  pub by_code :
      {A : Type 0} (k : TypeCode → Decode A)
      → ((c : TypeCode) → Keeps (k c))
      → Shrinks (TypeCode.decode >>= k)
  by_code k h = Shrinks-bind _ k code-Shrinks h

  checked_char-Keeps : (n : ℕ) → Keeps (checked_char n)
  unfolding checked_char
  checked_char-Keeps n = search code_keep_rules

  pub ubyte-Shrinks : Shrinks decode_ubyte
  unfolding decode_ubyte
  ubyte-Shrinks = by_code ubyte_of λ c. elim c as (λ c. Keeps (ubyte_of c)) [
    | TypeCode.ubyte ↦ search number_keep_rules
    | _ ↦ search code_keep_rules
  ]

  pub ushort-Shrinks : Shrinks decode_ushort
  unfolding decode_ushort
  ushort-Shrinks = by_code ushort_of λ c. elim c as (λ c. Keeps (ushort_of c)) [
    | TypeCode.ushort ↦ search number_keep_rules
    | _ ↦ search code_keep_rules
  ]

  pub uint-Shrinks : Shrinks decode_uint
  unfolding decode_uint
  uint-Shrinks = by_code uint_of λ c. elim c as (λ c. Keeps (uint_of c)) [
    | TypeCode.uint0 ↦ search number_keep_rules
    | TypeCode.uint_small ↦ search number_keep_rules
    | TypeCode.uint ↦ search number_keep_rules
    | _ ↦ search code_keep_rules
  ]

  pub ulong-Shrinks : Shrinks decode_ulong
  unfolding decode_ulong
  ulong-Shrinks = by_code ulong_of λ c. elim c as (λ c. Keeps (ulong_of c)) [
    | TypeCode.ulong ↦ search number_keep_rules
    | TypeCode.ulong_small ↦ search number_keep_rules
    | TypeCode.ulong0 ↦ search number_keep_rules
    | _ ↦ search code_keep_rules
  ]

  pub byte-Shrinks : Shrinks decode_byte
  unfolding decode_byte
  byte-Shrinks = by_code byte_of λ c. elim c as (λ c. Keeps (byte_of c)) [
    | TypeCode.byte ↦ search number_keep_rules
    | _ ↦ search code_keep_rules
  ]

  pub short-Shrinks : Shrinks decode_short
  unfolding decode_short
  short-Shrinks = by_code short_of λ c. elim c as (λ c. Keeps (short_of c)) [
    | TypeCode.short ↦ search number_keep_rules
    | _ ↦ search code_keep_rules
  ]

  pub int-Shrinks : Shrinks decode_int
  unfolding decode_int
  int-Shrinks = by_code int_of λ c. elim c as (λ c. Keeps (int_of c)) [
    | TypeCode.int ↦ search number_keep_rules
    | TypeCode.int_small ↦ search number_keep_rules
    | _ ↦ search code_keep_rules
  ]

  pub long-Shrinks : Shrinks decode_long
  unfolding decode_long
  long-Shrinks = by_code long_of λ c. elim c as (λ c. Keeps (long_of c)) [
    | TypeCode.long ↦ search number_keep_rules
    | TypeCode.long_small ↦ search number_keep_rules
    | _ ↦ search code_keep_rules
  ]

  pub float-Shrinks : Shrinks decode_float
  unfolding decode_float
  float-Shrinks = by_code float_of λ c. elim c as (λ c. Keeps (float_of c)) [
    | TypeCode.float ↦ search number_keep_rules
    | _ ↦ search code_keep_rules
  ]

  pub double-Shrinks : Shrinks decode_double
  unfolding decode_double
  double-Shrinks = by_code double_of λ c. elim c as (λ c. Keeps (double_of c)) [
    | TypeCode.double ↦ search number_keep_rules
    | _ ↦ search code_keep_rules
  ]

  pub char-Shrinks : Shrinks decode_char
  unfolding decode_char
  char-Shrinks = by_code char_of λ c. elim c as (λ c. Keeps (char_of c)) [
    | TypeCode.char ↦ search (number_keep_rules, checked_char-Keeps)
    | _ ↦ search code_keep_rules
  ]

  pub boolean-Shrinks : Shrinks decode_boolean
  unfolding decode_boolean
  boolean-Shrinks = by_code boolean_of λ c. elim c as (λ c. Keeps (boolean_of c)) [
    | TypeCode.boolean ↦ search number_keep_rules
    | TypeCode.boolean_true ↦ search number_keep_rules
    | TypeCode.boolean_false ↦ search number_keep_rules
    | _ ↦ search code_keep_rules
  ]

  read_exact-Keeps : (n : ℕ) → Keeps (read_exact n)
  read_exact-Keeps n = IsLocal-Keeps _ (read_exact-IsLocal n)

  read_short-Keeps : Keeps read_short
  unfolding read_short
  read_short-Keeps = search (number_keep_rules, read_exact-Keeps)

  read_long-Keeps : Keeps read_long
  unfolding read_long
  read_long-Keeps = search (number_keep_rules, read_exact-Keeps)

  from_utf8-Keeps : (bs : List ℕ) → Keeps (from_utf8 bs)
  unfolding from_utf8
  from_utf8-Keeps bs = search code_keep_rules

  uuid_from-Keeps : (bs : List ℕ) → Keeps (uuid_from bs)
  unfolding uuid_from
  uuid_from-Keeps bs =
      elim (x.from_slice bs)
        as (λ o.
          Keeps (elim o [ none ↦ fail_with (AmqpDecodeError.uuid_error bs) | some u ↦ pure u ])) [
            | none ↦ fail_with-Keeps (AmqpDecodeError.uuid_error bs)
            | some u ↦ Keeps-pure u
          ]

  timestamp_from-Keeps : (millis : ℕ) → Keeps (timestamp_from millis)
  unfolding timestamp_from
  timestamp_from-Keeps millis =
      elim (x.timestamp_millis_opt millis)
        as (λ o. Keeps (elim o [
          | none ↦ fail_with (AmqpDecodeError.message_parse (ErrorText.invalid_timestamp millis))
          | some t ↦ pure t
        ])) [
          | none ↦
              fail_with-Keeps (AmqpDecodeError.message_parse (ErrorText.invalid_timestamp millis))
          | some t ↦ Keeps-pure t
        ]

ruleset text_keep_rules = (
  number_keep_rules, read_short-Keeps, read_long-Keeps, read_exact-Keeps, from_utf8-Keeps,
  uuid_from-Keeps, timestamp_from-Keeps,
)

module _ ⦃b : ByteOrder⦄ ⦃x : Externals⦄ where
  pub binary-Shrinks : Shrinks decode_binary
  unfolding decode_binary
  binary-Shrinks = by_code binary_of λ c. elim c as (λ c. Keeps (binary_of c)) [
    | TypeCode.binary8 ↦ search text_keep_rules
    | TypeCode.binary32 ↦ search text_keep_rules
    | _ ↦ search code_keep_rules
  ]

  pub str-Shrinks : Shrinks decode_str
  unfolding decode_str
  str-Shrinks = by_code str_of λ c. elim c as (λ c. Keeps (str_of c)) [
    | TypeCode.string8 ↦ search text_keep_rules
    | TypeCode.string32 ↦ search text_keep_rules
    | _ ↦ search code_keep_rules
  ]

  pub symbol-Shrinks : Shrinks decode_symbol
  unfolding decode_symbol
  symbol-Shrinks = by_code symbol_of λ c. elim c as (λ c. Keeps (symbol_of c)) [
    | TypeCode.symbol8 ↦ search text_keep_rules
    | TypeCode.symbol32 ↦ search text_keep_rules
    | _ ↦ search code_keep_rules
  ]

  pub uuid-Shrinks : Shrinks decode_uuid
  unfolding decode_uuid
  uuid-Shrinks = by_code uuid_of λ c. elim c as (λ c. Keeps (uuid_of c)) [
    | TypeCode.uuid ↦ search text_keep_rules
    | _ ↦ search code_keep_rules
  ]

  pub timestamp-Shrinks : Shrinks decode_timestamp
  unfolding decode_timestamp
  timestamp-Shrinks = by_code timestamp_of λ c. elim c as (λ c. Keeps (timestamp_of c)) [
    | TypeCode.timestamp ↦ search text_keep_rules
    | _ ↦ search code_keep_rules
  ]

  pub after_code-Shrinks : {A : Type 0} (a : A) → Shrinks (after_code a)
  unfolding after_code
  after_code-Shrinks a = by_code _ (λ c. Keeps-pure a)

  pub after_code-Keeps : {A : Type 0} (a : A) → Keeps (after_code a)
  after_code-Keeps a = Shrinks-Keeps _ (after_code-Shrinks a)

  pub simple-Shrinks : Shrinks decode_simple
  unfolding decode_simple
  simple-Shrinks = peek-Shrinks _ simple_of λ c. elim c as (λ c. Shrinks (simple_of c)) [
    | TypeCode.null ↦ after_code-Shrinks SimpleValue.null
    | TypeCode.boolean ↦ map_second-Shrinks _ _ boolean-Shrinks
    | TypeCode.boolean_false ↦ map_second-Shrinks _ _ boolean-Shrinks
    | TypeCode.boolean_true ↦ map_second-Shrinks _ _ boolean-Shrinks
    | TypeCode.uint0 ↦ map_second-Shrinks _ _ uint-Shrinks
    | TypeCode.uint_small ↦ map_second-Shrinks _ _ uint-Shrinks
    | TypeCode.uint ↦ map_second-Shrinks _ _ uint-Shrinks
    | TypeCode.ulong0 ↦ map_second-Shrinks _ _ ulong-Shrinks
    | TypeCode.ulong_small ↦ map_second-Shrinks _ _ ulong-Shrinks
    | TypeCode.ulong ↦ map_second-Shrinks _ _ ulong-Shrinks
    | TypeCode.ubyte ↦ map_second-Shrinks _ _ ubyte-Shrinks
    | TypeCode.ushort ↦ map_second-Shrinks _ _ ushort-Shrinks
    | TypeCode.byte ↦ map_second-Shrinks _ _ byte-Shrinks
    | TypeCode.short ↦ map_second-Shrinks _ _ short-Shrinks
    | TypeCode.int_small ↦ map_second-Shrinks _ _ int-Shrinks
    | TypeCode.int ↦ map_second-Shrinks _ _ int-Shrinks
    | TypeCode.long_small ↦ map_second-Shrinks _ _ long-Shrinks
    | TypeCode.long ↦ map_second-Shrinks _ _ long-Shrinks
    | TypeCode.float ↦ map_second-Shrinks _ _ float-Shrinks
    | TypeCode.double ↦ map_second-Shrinks _ _ double-Shrinks
    | TypeCode.char ↦ map_second-Shrinks _ _ char-Shrinks
    | TypeCode.timestamp ↦ map_second-Shrinks _ _ timestamp-Shrinks
    | TypeCode.uuid ↦ map_second-Shrinks _ _ uuid-Shrinks
    | TypeCode.binary8 ↦ map_second-Shrinks _ _ binary-Shrinks
    | TypeCode.binary32 ↦ map_second-Shrinks _ _ binary-Shrinks
    | TypeCode.string8 ↦ map_second-Shrinks _ _ str-Shrinks
    | TypeCode.string32 ↦ map_second-Shrinks _ _ str-Shrinks
    | TypeCode.symbol8 ↦ map_second-Shrinks _ _ symbol-Shrinks
    | TypeCode.symbol32 ↦ map_second-Shrinks _ _ symbol-Shrinks
    | _ ↦ invalid_code-Shrinks _ _
  ]

  pub option-Keeps : {A : Type 0} (d : Decode A) → Keeps d → Keeps (decode_option d)
  unfolding decode_option
  option-Keeps d h = peek-Keeps _ (option_of d) λ c. elim c as (λ c. Keeps (option_of d c)) [
    | TypeCode.null ↦ after_code-Keeps none
    | _ ↦ map_second-Keeps some d h
  ]
