-- ===== src/Amqp/Message/RoundTrip.antt =====
-- A message reads back as itself.
use rabbitmq_stream_rust_cli.Amqp.Message.Moves.{some_len, Moves, Moves-⊕, some-Moves, each-Moves}
use rabbitmq_stream_rust_cli.Prelude.{ℕ, ◌+◌, ◌^◌, ◌<◌, ◌≡◌, refl, none, List, [], All, arith}
use rabbitmq_stream_rust_cli.Codec.ByteOrder.{ByteOrder}
use rabbitmq_stream_rust_cli.Codec.Laws.{Codes, Codes-resize}
use rabbitmq_stream_rust_cli.Codec.Vectors.Laws.{total}
use rabbitmq_stream_rust_cli.Amqp.TypeCode.{map_second}
use rabbitmq_stream_rust_cli.Amqp.TypeCode.Laws.{map_second-Codes}
use rabbitmq_stream_rust_cli.Amqp.Errors.{
  Descriptor, Externals, message_delivery_annotations, message_annotations,
  message_application_properties, message_body_data, message_body_sequence, message_body_value,
  message_footer,
}
use rabbitmq_stream_rust_cli.Amqp.Texts
use rabbitmq_stream_rust_cli.Amqp.Texts.{encode_binary}
use rabbitmq_stream_rust_cli.Amqp.Texts.Laws.{binary-Codes}
use rabbitmq_stream_rust_cli.Amqp.Simple.Laws.{Each, long_size_lem}
use rabbitmq_stream_rust_cli.Amqp.Keys.{descriptor_size}
use rabbitmq_stream_rust_cli.Amqp.Value.{Value, Values, list, collection, value_size, encode_value}
use rabbitmq_stream_rust_cli.Amqp.Value.RoundTrip.{IsValue, value-Codes, sequence-Codes}
use rabbitmq_stream_rust_cli.Amqp.Header
use rabbitmq_stream_rust_cli.Amqp.Header.Laws.{IsHeader, header-Codes}
use rabbitmq_stream_rust_cli.Amqp.Properties
use rabbitmq_stream_rust_cli.Amqp.Properties.Laws.{IsProperties, IsBytes, properties-Codes}
use rabbitmq_stream_rust_cli.Amqp.Section.{
  Annotations, ApplicationProperties, behind_descriptor, decode_annotations, MessageSection,
  annotations_size, application_properties_size, encode_annotations, encode_application_properties,
  section_of, decode_section,
}
use rabbitmq_stream_rust_cli.Amqp.Section.Laws.{
  AreAnnotations, AreApplicationProperties, annotations-Codes, application_properties-Codes,
  section-Codes, whole_section-Codes,
}
use rabbitmq_stream_rust_cli.Amqp.Message.{
  MessageBody, AmqpMessage, default, empty_body, sequence_size, store, tagged, encode_sequence,
  encode_body, encode, amqp_codec,
}

module _ ⦃b : ByteOrder⦄ ⦃x : Externals⦄ where
  abbrev data_len : List ℕ → ℕ
  data_len v = 3 + Texts.long_size v

  abbrev sequence_len : Values → ℕ
  sequence_len v = 3 + sequence_size v

  abbrev value_len : Value → ℕ
  value_len v = 3 + value_size v

  abbrev pub body_len : MessageBody → ℕ
  body_len body =
      total data_len body.data_sections
      + (total sequence_len body.sequence + some_len value_len body.value)

  abbrev pub message_len : AmqpMessage → ℕ
  message_len m =
      some_len Header.encoded_size m.header
      + (some_len (λ v. 3 + annotations_size v) m.delivery_annotations
          + (some_len (λ v. 3 + annotations_size v) m.annotations
              + (some_len Properties.encoded_size m.properties
                  + (some_len (λ v. 3 + application_properties_size v) m.application_properties
                      + (body_len m.body + some_len (λ v. 3 + annotations_size v) m.footer)))))

  -- Each section is one that the codec keeps, and the message takes less than 2^31 bytes.
  pub record IsAmqpMessage (m : AmqpMessage) : Type 0 where
    pub header : Each IsHeader m.header
    pub delivery_annotations : Each AreAnnotations m.delivery_annotations
    pub annotations : Each AreAnnotations m.annotations
    pub properties : Each IsProperties m.properties
    pub application_properties : Each AreApplicationProperties m.application_properties
    pub data_sections : All IsBytes m.body.data_sections
    pub sequence : All (λ vs. IsValue (collection (list vs))) m.body.sequence
    pub value : Each IsValue m.body.value
    pub footer : Each AreAnnotations m.footer
    pub short : message_len m < 2 ^ 31

  header_section :
      (v : Header.Header)
      → IsHeader v
      → Codes decode_section (Header.encode v) (Header.encoded_size v) (MessageSection.header v)
  unfolding Header.encode section_of
  header_section v h =
      whole_section-Codes 112 (map_second MessageSection.header Header.decode) _ (omega arith) refl
        (map_second-Codes MessageSection.header (header-Codes v h))

  properties_section :
      (v : Properties.Properties)
      → IsProperties v
      → Codes decode_section
          (Properties.encode v)
          (Properties.encoded_size v)
          (MessageSection.properties v)
  unfolding Properties.encode section_of
  properties_section v h =
      whole_section-Codes 115 (map_second MessageSection.properties Properties.decode) _
        (omega arith) refl (map_second-Codes MessageSection.properties (properties-Codes v h))

  data_section :
      (v : List ℕ)
      → IsBytes v
      → Codes decode_section
          (tagged message_body_data encode_binary v)
          (data_len v)
          (MessageSection.data_section v)
  unfolding tagged section_of
  data_section v h = section-Codes 117 _ (omega arith) refl (
      map_second-Codes MessageSection.data_section
        (Codes-resize (binary-Codes v (omega arith)) (long_size_lem v (omega arith))))

  sequence_section :
      (v : Values)
      → IsValue (collection (list v))
      → Codes decode_section
          (tagged message_body_sequence encode_sequence v)
          (sequence_len v)
          (MessageSection.amqp_sequence v)
  unfolding tagged section_of encode_sequence
  sequence_section v h =
      section-Codes 118 _ (omega arith) refl (sequence-Codes MessageSection.amqp_sequence v h)

  value_section :
      (v : Value)
      → IsValue v
      → Codes decode_section
          (tagged message_body_value encode_value v)
          (value_len v)
          (MessageSection.amqp_value v)
  unfolding tagged section_of
  value_section v h =
      section-Codes 119 _ (omega arith) refl
        (map_second-Codes MessageSection.amqp_value (value-Codes v h))

  annotations_section :
      (n : ℕ) (sec : Annotations → MessageSection)
      → n < 256
      → section_of (Descriptor.ulong n) ≡ behind_descriptor (map_second sec decode_annotations)
      → descriptor_size (Descriptor.ulong n) ≡ 3
      → (v : Annotations) → AreAnnotations v
      → Codes decode_section
          (tagged (Descriptor.ulong n) encode_annotations v)
          (3 + annotations_size v)
          (sec v)
  unfolding tagged
  annotations_section n sec few picked three v h =
      Codes-resize
        (section-Codes n _ (omega arith) picked (map_second-Codes sec (annotations-Codes v h)))
        (omega arith)

  application_section :
      (v : ApplicationProperties)
      → AreApplicationProperties v
      → Codes decode_section
          (tagged message_application_properties encode_application_properties v)
          (3 + application_properties_size v)
          (MessageSection.application_properties v)
  unfolding tagged section_of
  application_section v h =
      section-Codes 116 _ (omega arith) refl
        (map_second-Codes MessageSection.application_properties (application_properties-Codes v h))

  body-Moves :
      (m : AmqpMessage) (body : MessageBody)
      → All IsBytes body.data_sections
      → All (λ vs. IsValue (collection (list vs))) body.sequence
      → Each IsValue body.value
      → Moves
          (record m { body = empty_body })
          (encode_body body)
          (body_len body)
          (record m { body = body })
  unfolding encode_body store
  body-Moves m body data_good sequence_good value_good =
      Moves-⊕
        (each-Moves IsBytes MessageSection.data_section (tagged message_body_data encode_binary)
          data_len data_section
          (λ vs. record m { body = record { data_sections = vs; sequence = []; value = none } }) []
          body.data_sections data_good (λ v vs. refl))
        (Moves-⊕
          (each-Moves (λ vs. IsValue (collection (list vs))) MessageSection.amqp_sequence
            (tagged message_body_sequence encode_sequence) sequence_len sequence_section
            (λ vs. record m {
              body = record { data_sections = body.data_sections; sequence = vs; value = none };
            })
            [] body.sequence sequence_good (λ v vs. refl))
          (some-Moves IsValue MessageSection.amqp_value (tagged message_body_value encode_value)
            value_len value_section
            (λ o. record m {
              body = record {
                data_sections = body.data_sections;
                sequence = body.sequence;
                value = o;
              };
            })
            body.value value_good (λ v. refl)))

  pub message-Moves :
      (m : AmqpMessage) → IsAmqpMessage m → Moves default (encode m) (message_len m) m
  unfolding encode store section_of
  message-Moves m h =
      let m1 : AmqpMessage = record default { header = m.header } in
      let m2 : AmqpMessage = record m1 { delivery_annotations = m.delivery_annotations } in
      let m3 : AmqpMessage = record m2 { annotations = m.annotations } in
      let m4 : AmqpMessage = record m3 { properties = m.properties } in
      let m5 : AmqpMessage = record m4 { application_properties = m.application_properties } in
      Moves-⊕
        (some-Moves IsHeader MessageSection.header Header.encode Header.encoded_size header_section
          (λ o. record default { header = o }) m.header h.header (λ v. refl))
        (Moves-⊕
          (some-Moves AreAnnotations MessageSection.delivery_annotations
            (tagged message_delivery_annotations encode_annotations) (λ v. 3 + annotations_size v)
            (annotations_section 113 MessageSection.delivery_annotations (omega arith) refl refl)
            (λ o. record m1 { delivery_annotations = o }) m.delivery_annotations
            h.delivery_annotations (λ v. refl))
          (Moves-⊕
            (some-Moves AreAnnotations MessageSection.message_annotations
              (tagged message_annotations encode_annotations) (λ v. 3 + annotations_size v)
              (annotations_section 114 MessageSection.message_annotations (omega arith) refl refl)
              (λ o. record m2 { annotations = o }) m.annotations h.annotations (λ v. refl))
            (Moves-⊕
              (some-Moves IsProperties MessageSection.properties Properties.encode
                Properties.encoded_size properties_section (λ o. record m3 { properties = o })
                m.properties h.properties (λ v. refl))
              (Moves-⊕
                (some-Moves AreApplicationProperties MessageSection.application_properties
                  (tagged message_application_properties encode_application_properties)
                  (λ v. 3 + application_properties_size v) application_section
                  (λ o. record m4 { application_properties = o }) m.application_properties
                  h.application_properties (λ v. refl))
                (Moves-⊕ (body-Moves m5 m.body h.data_sections h.sequence h.value) (
                  some-Moves AreAnnotations MessageSection.footer
                    (tagged message_footer encode_annotations) (λ v. 3 + annotations_size v)
                    (annotations_section 120 MessageSection.footer (omega arith) refl refl)
                    (λ o. record m5 { body = m.body; footer = o }) m.footer h.footer
                    (λ v. refl)))))))
