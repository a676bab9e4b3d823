-- ===== src/Amqp/Section.antt =====
-- protocol/src/message/amqp/section.rs and the sections' types in types/definitions.rs.
pub mod Laws
use rabbitmq_stream_rust_cli.Prelude.{ℕ, Bool, true, List, ◌==◌, if◌then◌else◌}
use rabbitmq_stream_rust_cli.Codec.Outcome.{Decode, pure, ◌>>=◌}
use rabbitmq_stream_rust_cli.Codec.Emit.{Emit}
use rabbitmq_stream_rust_cli.Codec.ByteOrder.{ByteOrder}
use rabbitmq_stream_rust_cli.Codec.Strings.{Str}
use rabbitmq_stream_rust_cli.Codec.Maps.{str_eq}
use rabbitmq_stream_rust_cli.Amqp.TypeCode.{peek, map_second}
use rabbitmq_stream_rust_cli.Amqp.Errors.{
  Descriptor, Target, Externals, AmqpDecodeError, ErrorText, fail_with,
}
use rabbitmq_stream_rust_cli.Amqp.Texts
use rabbitmq_stream_rust_cli.Amqp.Texts.{encode_str, decode_binary, decode_str}
use rabbitmq_stream_rust_cli.Amqp.Simple.{SimpleValue, simple_size, encode_simple, decode_simple}
use rabbitmq_stream_rust_cli.Amqp.Keys.{
  AnnotationKey, annotation_key_eq, annotation_key_size, encode_annotation_key,
  decode_annotation_key, decode_descriptor,
}
use rabbitmq_stream_rust_cli.Amqp.Collections.{
  Key, Entries, map_size, encode_map, decode_map, decode_list,
}
use rabbitmq_stream_rust_cli.Amqp.Value.{
  Value, Values, value_size, encode_value, decode_value, values_of,
}
use rabbitmq_stream_rust_cli.Amqp.Header
use rabbitmq_stream_rust_cli.Amqp.Header.{Header}
use rabbitmq_stream_rust_cli.Amqp.Properties
use rabbitmq_stream_rust_cli.Amqp.Properties.{Properties}

abbrev pub annotation_key : Key AnnotationKey
annotation_key = record { eq = annotation_key_eq; hashable = λ k. true }

abbrev pub str_key : Key Str
str_key = record { eq = str_eq; hashable = λ k. true }

module _ ⦃x : Externals⦄ where
  -- `Map<AnnonationKey, Value>` and `Map<Str, SimpleValue>`
  abbrev pub Annotations : Type 0
  Annotations = Entries AnnotationKey Value

  abbrev pub ApplicationProperties : Type 0
  ApplicationProperties = Entries Str SimpleValue

  pub data MessageSection : Type 0 where
    header : Header → MessageSection
    delivery_annotations : Annotations → MessageSection
    message_annotations : Annotations → MessageSection
    application_properties : ApplicationProperties → MessageSection
    data_section : List ℕ → MessageSection
    amqp_sequence : Values → MessageSection
    amqp_value : Value → MessageSection
    footer : Annotations → MessageSection
    properties : Properties → MessageSection

  abbrev pub annotations_size : Annotations → ℕ
  annotations_size m = map_size annotation_key_size value_size m

  abbrev pub application_properties_size : ApplicationProperties → ℕ
  application_properties_size m = map_size Texts.long_size simple_size m

module _ ⦃b : ByteOrder⦄ ⦃x : Externals⦄ where
  unfoldable pub encode_annotations : Annotations → Emit
  unfolding encode_map
  encode_annotations m =
      encode_map annotation_key_size value_size encode_annotation_key encode_value m

  unfoldable pub decode_annotations : Decode Annotations
  unfolding decode_map
  decode_annotations =
      decode_map (Target.map Target.annotation_key Target.value) annotation_key
        decode_annotation_key decode_value

  unfoldable pub encode_application_properties : ApplicationProperties → Emit
  unfolding encode_map
  encode_application_properties m =
      encode_map Texts.long_size simple_size encode_str encode_simple m

  unfoldable pub decode_application_properties : Decode ApplicationProperties
  unfolding decode_map
  decode_application_properties =
      decode_map (Target.map Target.str Target.simple_value) str_key decode_str decode_simple

  -- The decoder of a section starts at `input`, or at `remaining` behind the descriptor.
  unfoldable pub behind_descriptor : {A : Type 0} → Decode A → Decode A
  behind_descriptor d = do descriptor ← decode_descriptor; d

  -- `match described { … }`
  unfoldable pub section_of : Descriptor → Decode MessageSection
  unfolding behind_descriptor decode_annotations decode_application_properties
  section_of (Descriptor.ulong n) =
      if n == 112
      then map_second header Header.decode
      else if n == 117
      then behind_descriptor (map_second data_section decode_binary)
      else if n == 115
      then map_second properties Properties.decode
      else if n == 119
      then behind_descriptor (map_second amqp_value decode_value)
      else if n == 116
      then behind_descriptor (map_second application_properties decode_application_properties)
      else if n == 114
      then behind_descriptor (map_second message_annotations decode_annotations)
      else if n == 118
      then behind_descriptor
          (map_second (λ vs. amqp_sequence (values_of vs)) (decode_list decode_value))
      else if n == 113
      then behind_descriptor (map_second delivery_annotations decode_annotations)
      else if n == 120
      then behind_descriptor (map_second footer decode_annotations)
      else fail_with
          (AmqpDecodeError.message_parse (ErrorText.invalid_section (Descriptor.ulong n)))
  section_of (Descriptor.symbol s) =
      fail_with (AmqpDecodeError.message_parse (ErrorText.invalid_section (Descriptor.symbol s)))

  -- `MessageSection::decode`
  unfoldable pub decode_section : Decode MessageSection
  unfolding section_of
  decode_section = peek decode_descriptor section_of
