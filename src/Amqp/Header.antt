-- ===== src/Amqp/Header.antt =====
-- protocol/src/message/amqp/header.rs.
pub mod Laws
use rabbitmq_stream_rust_cli.Prelude.{
  ℕ, ◌%◌, Bool, true, false, Option, none, some, ltb, ◌==◌, if◌then◌else◌,
}
use rabbitmq_stream_rust_cli.Codec.Outcome.{Decode, pure, ◌>>=◌}
use rabbitmq_stream_rust_cli.Codec.Emit.{Emit, ◌⊕◌}
use rabbitmq_stream_rust_cli.Codec.ByteOrder.{ByteOrder}
use rabbitmq_stream_rust_cli.Codec.Ints.{u8_mod, ◌⊞◌, encode_u8, encode_u32}
use rabbitmq_stream_rust_cli.Amqp.TypeCode
use rabbitmq_stream_rust_cli.Amqp.TypeCode.{TypeCode, map_second}
use rabbitmq_stream_rust_cli.Amqp.Errors.{
  Descriptor, message_header, Externals, AmqpDecodeError, ErrorText, fail_with,
}
use rabbitmq_stream_rust_cli.Amqp.Numbers.{
  boolean_size, ubyte_size, uint_size, encode_boolean, encode_ubyte, encode_uint, decode_boolean,
  decode_ubyte, decode_uint,
}
use rabbitmq_stream_rust_cli.Amqp.Simple.{option_size, encode_option, decode_option}
use rabbitmq_stream_rust_cli.Amqp.Keys.{descriptor_size, encode_descriptor, decode_descriptor}
use rabbitmq_stream_rust_cli.Amqp.Collections.{decode_with_fields}

pub record Header : Type 0 where
  pub durable : Bool
  pub priority : ℕ
  pub ttl : Option ℕ
  pub first_acquirer : Bool
  pub delivery_count : ℕ

-- `impl Default for Header`
abbrev pub default : Header
default = record {
  durable = false;
  priority = 4;
  ttl = none;
  first_acquirer = false;
  delivery_count = 0;
}

abbrev pub unwrap_or : {A : Type 0} → A → Option A → A
unwrap_or a none = a
unwrap_or a (some v) = v

module _ ⦃b : ByteOrder⦄ ⦃x : Externals⦄ where
  unfoldable pub content_size : Header → ℕ
  content_size h =
      boolean_size h.durable
      ⊞ ubyte_size h.priority
      ⊞ option_size uint_size h.ttl
      ⊞ boolean_size h.first_acquirer
      ⊞ uint_size h.delivery_count

  unfoldable pub encoded_size : Header → ℕ
  unfolding content_size
  encoded_size h =
      let size : ℕ = content_size h ⊞ descriptor_size message_header in
      (if ltb 255 size then 9 else 3) ⊞ size

  -- The list's code, its size and its count: `List8` in both branches.
  unfoldable pub encode_list_start : ℕ → Emit
  encode_list_start content =
      if ltb 255 (content ⊞ descriptor_size message_header)
      then TypeCode.encode TypeCode.list8 ⊕ encode_u32 (content ⊞ 4) ⊕ encode_u32 5
      else TypeCode.encode TypeCode.list8 ⊕ encode_u8 ((content ⊞ 4) % u8_mod) ⊕ encode_u8 5

  unfoldable pub encode : Header → Emit
  unfolding encode_list_start content_size
  encode h =
      encode_descriptor message_header
      ⊕ encode_list_start (content_size h)
      ⊕ encode_boolean h.durable
      ⊕ encode_ubyte h.priority
      ⊕ encode_option encode_uint h.ttl
      ⊕ encode_boolean h.first_acquirer
      ⊕ encode_uint h.delivery_count

  -- `list_decoder!(Header, list_decoder_header, …)`
  unfoldable pub list_decoder_header : ℕ → Header → Decode Header
  list_decoder_header idx h =
      if idx == 0
      then map_second (λ v. record h { durable = unwrap_or false v }) (decode_option decode_boolean)
      else if idx == 1
      then map_second (λ v. record h { priority = unwrap_or 4 v }) (decode_option decode_ubyte)
      else if idx == 2
      then map_second (λ v. record h { ttl = v }) (decode_option decode_uint)
      else if idx == 3
      then map_second (λ v. record h { first_acquirer = unwrap_or false v })
          (decode_option decode_boolean)
      else if idx == 4
      then map_second (λ v. record h { delivery_count = unwrap_or 4 v }) (decode_option decode_uint)
      else pure h

  unfoldable pub from_descriptor : Descriptor → Decode Header
  unfolding list_decoder_header
  from_descriptor (Descriptor.ulong n) =
      if n == 112
      then decode_with_fields list_decoder_header default
      else fail_with
          (AmqpDecodeError.message_parse (ErrorText.invalid_header_descriptor (Descriptor.ulong n)))
  from_descriptor (Descriptor.symbol s) =
      fail_with
        (AmqpDecodeError.message_parse (ErrorText.invalid_header_descriptor (Descriptor.symbol s)))

  unfoldable pub decode : Decode Header
  unfolding from_descriptor
  decode = do descriptor ← decode_descriptor; from_descriptor descriptor
