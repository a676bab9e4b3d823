-- ===== src/Amqp/Builder.antt =====
-- protocol/src/message/builder.rs, the accessors of a message in protocol/src/message/mod.rs, and what both
-- use of message.rs, body.rs and types/annotations.rs in protocol/src/message/amqp. A conversion by `Into`
-- is done before the call. A builder is the message that it holds.
pub mod Laws
use rabbitmq_stream_rust_cli.Prelude.{
  ℕ, Bool, Option, none, some, List, [], ◌∷◌, ◌⊎◌, inl, inr, if◌then◌else◌,
}
use rabbitmq_stream_rust_cli.Codec.Outcome.{DecodeError}
use rabbitmq_stream_rust_cli.Codec.Maps.{str_eq}
use rabbitmq_stream_rust_cli.Codec.Strings.{Str}
use rabbitmq_stream_rust_cli.Amqp.Errors.{Externals}
use rabbitmq_stream_rust_cli.Amqp.Simple.{SimpleValue}
use rabbitmq_stream_rust_cli.Amqp.Keys.{AnnotationKey, annotation_key_eq, MessageId}
use rabbitmq_stream_rust_cli.Amqp.Value.{Value}
use rabbitmq_stream_rust_cli.Amqp.Collections.{Entries, insert_with}
use rabbitmq_stream_rust_cli.Amqp.Header.{Header}
use rabbitmq_stream_rust_cli.Amqp.Properties
use rabbitmq_stream_rust_cli.Amqp.Properties.{Properties}
use rabbitmq_stream_rust_cli.Amqp.Section.{Annotations, ApplicationProperties}
use rabbitmq_stream_rust_cli.Amqp.Message
use rabbitmq_stream_rust_cli.Amqp.Message.{MessageBody, AmqpMessage, InternalMessage}

-- `if ….is_none() { … = Some(…::default()); }`
abbrev pub or_default : {A : Type 0} → A → Option A → A
or_default d none = d
or_default d (some v) = v

-- `HashMap::get`
unfoldable pub get_with : {K V : Type 0} → (K → K → Bool) → K → List (K × V) → Option V
get_with eq k [] = none
get_with eq k ((j, w) ∷ m) = if eq j k then some w else get_with eq k m

abbrev pub first : {A : Type 0} → List A → Option A
first [] = none
first (v ∷ vs) = some v

module _ ⦃x : Externals⦄ where
  -- `Annotations::put` and `Annotations::get`
  unfoldable pub put : AnnotationKey → Value → Annotations → Annotations
  unfolding insert_with
  put key value m = insert_with annotation_key_eq key value m

  unfoldable pub get : AnnotationKey → Annotations → Option Value
  unfolding get_with
  get key m = get_with annotation_key_eq key m

  -- `MessageBody::set_data`: clear, then push.
  abbrev pub set_data : List ℕ → MessageBody → MessageBody
  set_data content body = record body { data_sections = content ∷ [] }

  -- `Message::set_body`, `message_annotations_mut`, `application_properties_mut`, `with_properties`, each
  -- with what is then done to the part.
  abbrev pub set_body : (MessageBody → MessageBody) → AmqpMessage → AmqpMessage
  set_body f m = record m { body = f m.body }

  abbrev pub message_annotations_mut : (Annotations → Annotations) → AmqpMessage → AmqpMessage
  message_annotations_mut f m = record m { annotations = some (f (or_default [] m.annotations)) }

  abbrev pub application_properties_mut :
      (ApplicationProperties → ApplicationProperties) → AmqpMessage → AmqpMessage
  application_properties_mut f m = record m {
    application_properties = some (f (or_default [] m.application_properties));
  }

  abbrev pub with_properties : (Properties → Properties) → AmqpMessage → AmqpMessage
  with_properties f m = record m {
    properties = some (f (or_default Properties.default m.properties));
  }

  abbrev pub MessageBuilder : Type 0
  MessageBuilder = InternalMessage

  abbrev pub on_message : (AmqpMessage → AmqpMessage) → MessageBuilder → MessageBuilder
  on_message f b = record b { message = f b.message }

  -- `Message::builder`, and `MessageBuilder::body` and `publising_id`
  abbrev pub builder : MessageBuilder
  builder = record { publishing_id = none; message = Message.default }

  unfoldable pub set_message_body : List ℕ → MessageBuilder → MessageBuilder
  set_message_body content b = on_message (set_body (set_data content)) b

  abbrev pub set_publishing_id : ℕ → MessageBuilder → MessageBuilder
  set_publishing_id id b = record b { publishing_id = some id }

  -- `PropertiesBuilder`
  abbrev pub on_properties : (Properties → Properties) → MessageBuilder → MessageBuilder
  on_properties f b = on_message (with_properties f) b

  abbrev pub set_message_id : MessageId → MessageBuilder → MessageBuilder
  set_message_id v = on_properties (λ p. record p { message_id = some v })

  abbrev pub set_user_id : List ℕ → MessageBuilder → MessageBuilder
  set_user_id v = on_properties (λ p. record p { user_id = some v })

  abbrev pub set_to : Str → MessageBuilder → MessageBuilder
  set_to v = on_properties (λ p. record p { to = some v })

  abbrev pub set_subject : Str → MessageBuilder → MessageBuilder
  set_subject v = on_properties (λ p. record p { subject = some v })

  abbrev pub set_reply_to : Str → MessageBuilder → MessageBuilder
  set_reply_to v = on_properties (λ p. record p { reply_to = some v })

  abbrev pub set_correlation_id : MessageId → MessageBuilder → MessageBuilder
  set_correlation_id v = on_properties (λ p. record p { correlation_id = some v })

  abbrev pub set_content_type : Str → MessageBuilder → MessageBuilder
  set_content_type v = on_properties (λ p. record p { content_type = some v })

  abbrev pub set_content_encoding : Str → MessageBuilder → MessageBuilder
  set_content_encoding v = on_properties (λ p. record p { content_encoding = some v })

  abbrev pub set_absolute_expiry_time : x.DateTime → MessageBuilder → MessageBuilder
  set_absolute_expiry_time v = on_properties (λ p. record p { absolute_expiry_time = some v })

  abbrev pub set_creation_time : x.DateTime → MessageBuilder → MessageBuilder
  set_creation_time v = on_properties (λ p. record p { creation_time = some v })

  abbrev pub set_group_id : Str → MessageBuilder → MessageBuilder
  set_group_id v = on_properties (λ p. record p { group_id = some v })

  abbrev pub set_group_sequence : ℕ → MessageBuilder → MessageBuilder
  set_group_sequence v = on_properties (λ p. record p { group_sequence = some v })

  abbrev pub set_reply_to_group_id : Str → MessageBuilder → MessageBuilder
  set_reply_to_group_id v = on_properties (λ p. record p { reply_to_group_id = some v })

  -- `AnnotationBuider::insert` and `ApplicationPropertiesBuider::insert`
  unfoldable pub insert_annotation : AnnotationKey → Value → MessageBuilder → MessageBuilder
  unfolding put
  insert_annotation key value b = on_message (message_annotations_mut (put key value)) b

  unfoldable pub insert_property : Str → SimpleValue → MessageBuilder → MessageBuilder
  unfolding insert_with
  insert_property key value b =
      on_message (application_properties_mut (insert_with str_eq key value)) b

  -- `Message::data`, `Message::message_annotations`, and `Message::value_ref` with `T::try_from`
  unfoldable pub data_of : InternalMessage → Option (List ℕ)
  data_of m = first m.message.body.data_sections

  unfoldable pub annotation_of : AnnotationKey → InternalMessage → Option Value
  unfolding get
  annotation_of key m = get key (or_default [] m.message.annotations)

  abbrev pub transpose :
      {T : Type 0} → (Value → DecodeError ⊎ T) → Option Value → DecodeError ⊎ Option T
  transpose try_from none = inr none
  transpose try_from (some v) = elim (try_from v) [ inl error ↦ inl error | inr t ↦ inr (some t) ]

  abbrev pub value_ref :
      {T : Type 0} → (Value → DecodeError ⊎ T) → InternalMessage → DecodeError ⊎ Option T
  value_ref try_from m = transpose try_from m.message.body.value
