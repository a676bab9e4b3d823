-- ===== src/Amqp/Properties.antt =====
-- protocol/src/message/amqp/properties.rs.
pub mod Laws
pub mod Wide
use rabbitmq_stream_rust_cli.Prelude.{ℕ, ◌%◌, Option, none, some, List, ltb, ◌==◌, if◌then◌else◌}
use rabbitmq_stream_rust_cli.Codec.Outcome.{Decode, pure, ◌>>=◌}
use rabbitmq_stream_rust_cli.Codec.Emit.{Emit, ◌⊕◌}
use rabbitmq_stream_rust_cli.Codec.ByteOrder.{ByteOrder}
use rabbitmq_stream_rust_cli.Codec.Ints.{u8_mod, ◌⊞◌, encode_u8, encode_u32}
use rabbitmq_stream_rust_cli.Codec.Strings.{Str}
use rabbitmq_stream_rust_cli.Amqp.TypeCode
use rabbitmq_stream_rust_cli.Amqp.TypeCode.{TypeCode, map_second}
use rabbitmq_stream_rust_cli.Amqp.Errors.{
  Descriptor, message_properties, Externals, AmqpDecodeError, ErrorText, fail_with,
}
use rabbitmq_stream_rust_cli.Amqp.Numbers.{uint_size, encode_uint, decode_uint}
use rabbitmq_stream_rust_cli.Amqp.Texts
use rabbitmq_stream_rust_cli.Amqp.Texts.{
  timestamp_size, encode_binary, encode_str, encode_symbol, encode_timestamp, decode_binary,
  decode_str, decode_symbol, decode_timestamp,
}
use rabbitmq_stream_rust_cli.Amqp.Simple.{option_size, encode_option, decode_option}
use rabbitmq_stream_rust_cli.Amqp.Keys.{
  MessageId, message_id_size, encode_message_id, decode_message_id, descriptor_size,
  encode_descriptor, decode_descriptor,
}
use rabbitmq_stream_rust_cli.Amqp.Collections.{decode_with_fields}

pub record Properties ⦃x : Externals⦄ : Type 0 where
  pub message_id : Option MessageId
  pub user_id : Option (List ℕ)
  pub to : Option Str
  pub subject : Option Str
  pub reply_to : Option Str
  pub correlation_id : Option MessageId
  pub content_type : Option Str
  pub content_encoding : Option Str
  pub absolute_expiry_time : Option x.DateTime
  pub creation_time : Option x.DateTime
  pub group_id : Option Str
  pub group_sequence : Option ℕ
  pub reply_to_group_id : Option Str

module _ ⦃x : Externals⦄ where
  -- `derive(Default)`
  abbrev pub default : Properties
  default = record {
    message_id = none;
    user_id = none;
    to = none;
    subject = none;
    reply_to = none;
    correlation_id = none;
    content_type = none;
    content_encoding = none;
    absolute_expiry_time = none;
    creation_time = none;
    group_id = none;
    group_sequence = none;
    reply_to_group_id = none;
  }

module _ ⦃b : ByteOrder⦄ ⦃x : Externals⦄ where
  unfoldable pub content_size : Properties → ℕ
  content_size p =
      option_size message_id_size p.message_id
      ⊞ option_size Texts.long_size p.user_id
      ⊞ option_size Texts.long_size p.to
      ⊞ option_size Texts.long_size p.subject
      ⊞ option_size Texts.long_size p.reply_to
      ⊞ option_size message_id_size p.correlation_id
      ⊞ option_size Texts.long_size p.content_type
      ⊞ option_size Texts.long_size p.content_encoding
      ⊞ option_size (λ t. timestamp_size) p.absolute_expiry_time
      ⊞ option_size (λ t. timestamp_size) p.creation_time
      ⊞ option_size Texts.long_size p.group_id
      ⊞ option_size uint_size p.group_sequence
      ⊞ option_size Texts.long_size p.reply_to_group_id

  unfoldable pub encoded_size : Properties → ℕ
  unfolding content_size
  encoded_size p =
      let size : ℕ = descriptor_size message_properties ⊞ content_size p in
      (if ltb 255 size then 9 else 3) ⊞ size

  -- The list's code, its size and its count: `List8` in both branches.
  unfoldable pub encode_list_start : ℕ → Emit
  encode_list_start content =
      if ltb 255 (content ⊞ 1)
      then TypeCode.encode TypeCode.list8 ⊕ encode_u32 (content ⊞ 4) ⊕ encode_u32 13
      else TypeCode.encode TypeCode.list8 ⊕ encode_u8 ((content ⊞ 1) % u8_mod) ⊕ encode_u8 13

  unfoldable pub encode : Properties → Emit
  unfolding encode_list_start content_size
  encode p =
      encode_descriptor message_properties
      ⊕ encode_list_start (content_size p)
      ⊕ encode_option encode_message_id p.message_id
      ⊕ encode_option encode_binary p.user_id
      ⊕ encode_option encode_str p.to
      ⊕ encode_option encode_str p.subject
      ⊕ encode_option encode_str p.reply_to
      ⊕ encode_option encode_message_id p.correlation_id
      ⊕ encode_option encode_symbol p.content_type
      ⊕ encode_option encode_symbol p.content_encoding
      ⊕ encode_option encode_timestamp p.absolute_expiry_time
      ⊕ encode_option encode_timestamp p.creation_time
      ⊕ encode_option encode_str p.group_id
      ⊕ encode_option encode_uint p.group_sequence
      ⊕ encode_option encode_str p.reply_to_group_id

  -- `list_decoder!(Properties, list_decoder_properties, …)`
  unfoldable pub list_decoder_properties : ℕ → Properties → Decode Properties
  list_decoder_properties idx p =
      if idx == 0
      then map_second (λ v. record p { message_id = v }) (decode_option decode_message_id)
      else if idx == 1
      then map_second (λ v. record p { user_id = v }) (decode_option decode_binary)
      else if idx == 2
      then map_second (λ v. record p { to = v }) (decode_option decode_str)
      else if idx == 3
      then map_second (λ v. record p { subject = v }) (decode_option decode_str)
      else if idx == 4
      then map_second (λ v. record p { reply_to = v }) (decode_option decode_str)
      else if idx == 5
      then map_second (λ v. record p { correlation_id = v }) (decode_option decode_message_id)
      else if idx == 6
      then map_second (λ v. record p { content_type = v }) (decode_option decode_symbol)
      else if idx == 7
      then map_second (λ v. record p { content_encoding = v }) (decode_option decode_symbol)
      else if idx == 8
      then map_second (λ v. record p { absolute_expiry_time = v }) (decode_option decode_timestamp)
      else if idx == 9
      then map_second (λ v. record p { creation_time = v }) (decode_option decode_timestamp)
      else if idx == 10
      then map_second (λ v. record p { group_id = v }) (decode_option decode_str)
      else if idx == 11
      then map_second (λ v. record p { group_sequence = v }) (decode_option decode_uint)
      else if idx == 12
      then map_second (λ v. record p { reply_to_group_id = v }) (decode_option decode_str)
      else pure p

  unfoldable pub from_descriptor : Descriptor → Decode Properties
  unfolding list_decoder_properties
  from_descriptor (Descriptor.ulong n) =
      if n == 115
      then decode_with_fields list_decoder_properties default
      else fail_with (
          AmqpDecodeError.message_parse
            (ErrorText.invalid_properties_descriptor (Descriptor.ulong n)))
  from_descriptor (Descriptor.symbol s) = fail_with (
      AmqpDecodeError.message_parse (ErrorText.invalid_properties_descriptor (Descriptor.symbol s)))

  unfoldable pub decode : Decode Properties
  unfolding from_descriptor
  decode = do descriptor ← decode_descriptor; from_descriptor descriptor
