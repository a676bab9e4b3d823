-- ===== src/Amqp/Message.antt =====
-- protocol/src/message/amqp/message.rs and body.rs, and `InternalMessage` with its codec in
-- protocol/src/message/mod.rs.
pub mod Termination
pub mod Moves
pub mod RoundTrip
pub mod Whole
pub mod Published
use rabbitmq_stream_rust_cli.Prelude.{ℕ, Option, none, some, List, [], ◌∷◌, ◌++◌}
use rabbitmq_stream_rust_cli.Codec.Outcome.{Decode, pure, ◌>>=◌}
use rabbitmq_stream_rust_cli.Codec.Emit.{Emit, done, emit_each, ◌⊕◌}
use rabbitmq_stream_rust_cli.Codec.ByteOrder.{ByteOrder}
use rabbitmq_stream_rust_cli.Codec.Ints.{◌⊞◌}
use rabbitmq_stream_rust_cli.Codec.Recursion.{recursive}
use rabbitmq_stream_rust_cli.Message.{MessageCodec}
use rabbitmq_stream_rust_cli.Producer.{HasPublishingId}
use rabbitmq_stream_rust_cli.Amqp.TypeCode.{map_second}
use rabbitmq_stream_rust_cli.Amqp.Errors.{
  Descriptor, Externals, message_delivery_annotations, message_annotations,
  message_application_properties, message_body_data, message_body_sequence, message_body_value,
  message_footer,
}
use rabbitmq_stream_rust_cli.Amqp.Texts
use rabbitmq_stream_rust_cli.Amqp.Texts.{encode_binary}
use rabbitmq_stream_rust_cli.Amqp.Keys.{descriptor_size, encode_descriptor}
use rabbitmq_stream_rust_cli.Amqp.Value.{
  Value, Values, CollectionValue, list, value_size, collection_value_size, encode_value,
  encode_collection,
}
use rabbitmq_stream_rust_cli.Amqp.Header
use rabbitmq_stream_rust_cli.Amqp.Header.{Header}
use rabbitmq_stream_rust_cli.Amqp.Properties
use rabbitmq_stream_rust_cli.Amqp.Properties.{Properties}
use rabbitmq_stream_rust_cli.Amqp.Section
use rabbitmq_stream_rust_cli.Amqp.Section.{
  Annotations, ApplicationProperties, MessageSection, annotations_size, application_properties_size,
  encode_annotations, encode_application_properties, decode_section,
}

pub record MessageBody ⦃x : Externals⦄ : Type 0 where
  pub data_sections : List (List ℕ)
  pub sequence : List Values
  pub value : Option Value

pub record AmqpMessage ⦃x : Externals⦄ : Type 0 where
  pub header : Option Header
  pub delivery_annotations : Option Annotations
  pub annotations : Option Annotations
  pub properties : Option Properties
  pub application_properties : Option ApplicationProperties
  pub footer : Option Annotations
  pub body : MessageBody

pub record InternalMessage ⦃x : Externals⦄ : Type 0 where
  pub publishing_id : Option ℕ
  pub message : AmqpMessage

-- `size += …` and `….encode(writer)?` under `if let Some(ref v)`.
abbrev pub plus_some : {A : Type 0} → (A → ℕ) → Option A → ℕ → ℕ
plus_some f none size = size
plus_some f (some v) size = size ⊞ f v

unfoldable pub emit_some : {A : Type 0} → (A → Emit) → Option A → Emit
emit_some f none = done []
emit_some f (some v) = f v

-- `iter().fold(size, |a, d| a + d.encoded_size() + descriptor.encoded_size())`
abbrev pub fold_sections : {A : Type 0} → (A → ℕ) → ℕ → List A → ℕ → ℕ
fold_sections f tag [] acc = acc
fold_sections f tag (v ∷ vs) acc = fold_sections f tag vs (acc ⊞ f v ⊞ tag)

module _ ⦃x : Externals⦄ where
  -- `derive(Default)`
  abbrev pub empty_body : MessageBody
  empty_body = record { data_sections = []; sequence = []; value = none }

  abbrev pub default : AmqpMessage
  default = record {
    header = none;
    delivery_annotations = none;
    annotations = none;
    properties = none;
    application_properties = none;
    footer = none;
    body = empty_body;
  }

  abbrev pub sequence_size : Values → ℕ
  sequence_size vs = collection_value_size (list vs)

  -- The `match sec` of the loop in `Message::decode`.
  unfoldable pub store : MessageSection → AmqpMessage → AmqpMessage
  store (MessageSection.header v) m = record m { header = some v }
  store (MessageSection.delivery_annotations v) m = record m { delivery_annotations = some v }
  store (MessageSection.message_annotations v) m = record m { annotations = some v }
  store (MessageSection.application_properties v) m = record m { application_properties = some v }
  store (MessageSection.footer v) m = record m { footer = some v }
  store (MessageSection.properties v) m = record m { properties = some v }
  store (MessageSection.amqp_sequence v) m = record m {
    body = record m.body { sequence = m.body.sequence ++ (v ∷ []) };
  }
  store (MessageSection.amqp_value v) m = record m { body = record m.body { value = some v } }
  store (MessageSection.data_section v) m = record m {
    body = record m.body { data_sections = m.body.data_sections ++ (v ∷ []) };
  }

module _ ⦃b : ByteOrder⦄ ⦃x : Externals⦄ where
  -- `MessageBody::encoded_size`
  unfoldable pub body_size : MessageBody → ℕ
  body_size body =
      plus_some (λ v. value_size v ⊞ descriptor_size message_body_value) body.value
        (fold_sections sequence_size (descriptor_size message_body_sequence) body.sequence
          (fold_sections Texts.long_size (descriptor_size message_body_data) body.data_sections 0))

  -- A section behind its descriptor.
  unfoldable pub tagged : {A : Type 0} → Descriptor → (A → Emit) → A → Emit
  tagged d f v = encode_descriptor d ⊕ f v

  unfoldable pub encode_sequence : Values → Emit
  encode_sequence vs = encode_collection (list vs)

  -- `MessageBody::encode`
  unfoldable pub encode_body : MessageBody → Emit
  unfolding tagged encode_sequence emit_some emit_each
  encode_body body =
      emit_each (tagged message_body_data encode_binary) body.data_sections
      ⊕ emit_each (tagged message_body_sequence encode_sequence) body.sequence
      ⊕ emit_some (tagged message_body_value encode_value) body.value

  -- `Message::encoded_size`
  unfoldable pub encoded_size : AmqpMessage → ℕ
  unfolding body_size
  encoded_size m =
      plus_some (λ v. annotations_size v ⊞ descriptor_size message_footer) m.footer
        (plus_some
          (λ v. application_properties_size v ⊞ descriptor_size message_application_properties)
          m.application_properties
          (plus_some Properties.encoded_size m.properties (
            plus_some (λ v. annotations_size v ⊞ descriptor_size message_annotations) m.annotations
              (plus_some (λ v. annotations_size v ⊞ descriptor_size message_delivery_annotations)
                m.delivery_annotations
                (plus_some Header.encoded_size m.header (body_size m.body))))))

  -- `Message::encode`
  unfoldable pub encode : AmqpMessage → Emit
  unfolding encode_body
  encode m =
      emit_some Header.encode m.header
      ⊕ emit_some (tagged message_delivery_annotations encode_annotations) m.delivery_annotations
      ⊕ emit_some (tagged message_annotations encode_annotations) m.annotations
      ⊕ emit_some Properties.encode m.properties
      ⊕ emit_some (tagged message_application_properties encode_application_properties)
          m.application_properties
      ⊕ encode_body m.body
      ⊕ emit_some (tagged message_footer encode_annotations) m.footer

  -- The loop of `Message::decode`: its next round is `again`.
  unfoldable pub message_step :
      (AmqpMessage → Decode AmqpMessage) → AmqpMessage → Decode AmqpMessage
  unfolding decode_section store
  message_step again m [] = pure m []
  message_step again m (byte ∷ input) =
      (do sec ← decode_section; again (store sec m)) (byte ∷ input)

  -- `Message::decode`
  unfoldable pub decode : Decode AmqpMessage
  unfolding message_step recursive
  decode = recursive message_step default

  -- `impl Encoder for Message` and `impl Decoder for Message` of protocol/src/message/mod.rs
  unfoldable pub decode_internal : Decode InternalMessage
  unfolding decode
  decode_internal = map_second (λ m. record { publishing_id = none; message = m }) decode

  instance abbrev pub amqp_codec : MessageCodec InternalMessage
  amqp_codec = record {
    encoded_size = λ m. encoded_size m.message;
    encode = λ m. encode m.message;
    decode = decode_internal;
  }

module _ ⦃x : Externals⦄ where
  instance abbrev pub internal_ids : HasPublishingId InternalMessage
  internal_ids = record { publishing_id = λ m. m.publishing_id }
