-- ===== src/Amqp/Properties/Wide.antt =====
-- Properties of more than 254 bytes are not read back.
use rabbitmq_stream_rust_cli.Prelude.{
  ℕ, ◌+◌, ◌<◌, ◌≤◌, ◌≡◌, ◌∙◌, true, List, ◌∷◌, ◌++◌, append_assoc, ltb, arith,
}
use rabbitmq_stream_rust_cli.Codec.Outcome.{ok, >>=_step}
use rabbitmq_stream_rust_cli.Codec.Emit.{Emit, done, failed, bytes, ◌⊕◌, ⊕-bytes}
use rabbitmq_stream_rust_cli.Codec.ByteOrder.{ByteOrder}
use rabbitmq_stream_rust_cli.Codec.Ints.{◌⊞◌, encode_u32}
use rabbitmq_stream_rust_cli.Amqp.TypeCode.{TypeCode, to_u8}
use rabbitmq_stream_rust_cli.Amqp.Errors.{message_properties, Externals}
use rabbitmq_stream_rust_cli.Amqp.Numbers.{encode_uint}
use rabbitmq_stream_rust_cli.Amqp.Texts.{encode_binary, encode_str, encode_symbol, encode_timestamp}
use rabbitmq_stream_rust_cli.Amqp.Simple.{encode_option}
use rabbitmq_stream_rust_cli.Amqp.Keys.{encode_message_id, encode_descriptor, decode_descriptor}
use rabbitmq_stream_rust_cli.Amqp.Keys.Laws.{descriptor-Codes}
use rabbitmq_stream_rust_cli.Amqp.Collections.Wide.{wide_start, decode_with_fields-zero}
use rabbitmq_stream_rust_cli.Amqp.Properties.{
  Properties, default, content_size, encode_list_start, encode, list_decoder_properties,
  from_descriptor, decode,
}

module _ ⦃b : ByteOrder⦄ ⦃x : Externals⦄ where
  -- The thirteen fields, one behind the other.
  abbrev fields : Properties → Emit
  fields p =
      encode_option encode_message_id p.message_id
      ⊕ encode_option encode_binary p.user_id
      ⊕ encode_option encode_str p.to
      ⊕ encode_option encode_str p.subject
      ⊕ encode_option encode_str p.reply_to
      ⊕ encode_option encode_message_id p.correlation_id
      ⊕ encode_option encode_symbol p.content_type
      ⊕ encode_option encode_symbol p.content_encoding
      ⊕ encode_option encode_timestamp p.absolute_expiry_time
      ⊕ encode_option encode_timestamp p.creation_time
      ⊕ encode_option encode_str p.group_id
      ⊕ encode_option encode_uint p.group_sequence
      ⊕ encode_option encode_str p.reply_to_group_id

  -- What follows the first two bytes that the decoder takes for the size and the count.
  abbrev pub left_over : Properties → List ℕ
  left_over p = b.write 2 (content_size p + 4) ++ bytes (encode_u32 13 ⊕ fields p)

  listed :
      (p : Properties)
      → 255 ≤ content_size p
      → content_size p < 65532
      → bytes (encode_list_start (content_size p) ⊕ fields p)
        ≡ to_u8 TypeCode.list8 ∷ 0 ∷ 0 ∷ left_over p
  unfolding encode_list_start
  listed p low high =
      let wide : ltb 255 (content_size p ⊞ 1) ≡ true = ground arith in
      rw wide (wide_start (content_size p) _ _ high)

  front : (e f : Emit) → e ≡ done (bytes e) → bytes (e ⊕ f) ≡ bytes e ++ bytes f
  front (done xs) f h = ⊕-bytes xs f
  front (failed xs err) f h = absurd (cc)

  -- Properties whose fields declare 255 bytes or more, and at most 65531, are decoded to properties
  -- without any field, and the fields' bytes are left.
  pub decode-long_properties :
      (p : Properties) (rest : List ℕ)
      → 255 ≤ content_size p
      → content_size p < 65532
      → decode (bytes (encode p) ++ rest) ≡ ok (left_over p ++ rest, default)
  unfolding decode encode from_descriptor
  decode-long_properties p rest low high =
      let tag = descriptor-Codes message_properties (omega arith) in
      let split =
        front (encode_descriptor message_properties) (encode_list_start (content_size p) ⊕ fields p)
          tag.written in
      rw
        (
          split,
          listed p low high,
          append_assoc (bytes (encode_descriptor message_properties)) _ rest,
        )
        (>>=_step decode_descriptor from_descriptor _ (tag.reads _)
          ∙ decode_with_fields-zero list_decoder_properties default (left_over p ++ rest))
