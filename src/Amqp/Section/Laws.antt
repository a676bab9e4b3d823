-- ===== src/Amqp/Section/Laws.antt =====
-- Each section of a message reads back as itself, and takes at least a byte.
use rabbitmq_stream_rust_cli.Prelude.{ℕ, ◌+◌, ◌-◌, ◌<◌, ◌≡◌, refl, ◌++◌, append_assoc, All}
use rabbitmq_stream_rust_cli.Codec.Outcome.{ok, Decode}
use rabbitmq_stream_rust_cli.Codec.Emit.{Emit, done, failed, bytes, ◌⊕◌, ⊕-bytes}
use rabbitmq_stream_rust_cli.Codec.ByteOrder.{ByteOrder}
use rabbitmq_stream_rust_cli.Codec.Laws.{Codes, Codes-bind}
use rabbitmq_stream_rust_cli.Codec.Ints.{u32_mod, u64_mod}
use rabbitmq_stream_rust_cli.Codec.Vectors.Laws.{total, All-map}
use rabbitmq_stream_rust_cli.Codec.Recursion.{
  Keeps, Shrinks, Shrinks-bind, Shrinks-if, Shrinks-Keeps,
}
use rabbitmq_stream_rust_cli.Amqp.TypeCode.{peek}
use rabbitmq_stream_rust_cli.Amqp.TypeCode.Keeps.{
  peek-Shrinks, map_second-Keeps, map_second-Shrinks, fail_with-Shrinks, fail_with-Keeps,
  code_keep_rules,
}
use rabbitmq_stream_rust_cli.Amqp.Errors.{Descriptor, Externals}
use rabbitmq_stream_rust_cli.Amqp.Texts
use rabbitmq_stream_rust_cli.Amqp.Texts.{decode_binary, encode_binary}
use rabbitmq_stream_rust_cli.Amqp.Simple.{simple_size}
use rabbitmq_stream_rust_cli.Amqp.Simple.Keeps.{
  simple-Shrinks, str-Shrinks, binary-Shrinks, boolean-Shrinks, ubyte-Shrinks, uint-Shrinks,
  symbol-Shrinks, timestamp-Shrinks, option-Keeps,
}
use rabbitmq_stream_rust_cli.Amqp.Simple.Laws.{IsSimple, simple-Codes}
use rabbitmq_stream_rust_cli.Amqp.Keys.{
  annotation_key_size, encode_descriptor, decode_descriptor, descriptor_size,
}
use rabbitmq_stream_rust_cli.Amqp.Keys.Keeps.{
  descriptor-Shrinks, annotation_key-Shrinks, message_id-Keeps,
}
use rabbitmq_stream_rust_cli.Amqp.Keys.Laws.{
  IsChars, IsAnnotationKey, descriptor-Codes, annotation_key-Codes, sized_str,
}
use rabbitmq_stream_rust_cli.Amqp.Collections.{decode_list}
use rabbitmq_stream_rust_cli.Amqp.Collections.Keeps.{
  decode_list-Shrinks, decode_map-Shrinks, decode_with_fields-Keeps,
}
use rabbitmq_stream_rust_cli.Amqp.Collections.Filling.{DistinctKeys, pair_len}
use rabbitmq_stream_rust_cli.Amqp.Collections.Laws.{map-Codes}
use rabbitmq_stream_rust_cli.Amqp.Value.{value_size, decode_value}
use rabbitmq_stream_rust_cli.Amqp.Value.Termination.{value-Keeps, value-Shrinks}
use rabbitmq_stream_rust_cli.Amqp.Value.RoundTrip.{IsValue, value-Codes}
use rabbitmq_stream_rust_cli.Amqp.Header
use rabbitmq_stream_rust_cli.Amqp.Header.{Header, list_decoder_header}
use rabbitmq_stream_rust_cli.Amqp.Properties
use rabbitmq_stream_rust_cli.Amqp.Properties.{Properties, list_decoder_properties}
use rabbitmq_stream_rust_cli.Amqp.Section.{
  annotation_key, str_key, Annotations, ApplicationProperties, MessageSection, annotations_size,
  application_properties_size, encode_annotations, decode_annotations,
  encode_application_properties, decode_application_properties, behind_descriptor, section_of,
  decode_section,
}

module _ ⦃x : Externals⦄ where
  -- Distinct keys, keys and values that the codec keeps, and less than 2^32 bytes.
  pub record AreAnnotations (m : Annotations) : Type 0 where
    pub few : total (pair_len annotation_key_size value_size) m < u32_mod - 9
    pub distinct : DistinctKeys annotation_key.eq m
    pub entries : All (λ e. IsAnnotationKey e.0 × IsValue e.1) m

  pub record AreApplicationProperties (m : ApplicationProperties) : Type 0 where
    pub few : total (pair_len Texts.long_size simple_size) m < u32_mod - 9
    pub distinct : DistinctKeys str_key.eq m
    pub entries : All (λ e. IsChars e.0 × IsSimple e.1) m

module _ ⦃b : ByteOrder⦄ ⦃x : Externals⦄ where
  pub annotations-Codes :
      (m : Annotations)
      → AreAnnotations m
      → Codes decode_annotations (encode_annotations m) (annotations_size m) m
  unfolding decode_annotations encode_annotations
  annotations-Codes m h =
      map-Codes _ annotation_key _ _ _ _ annotation_key_size value_size annotation_key-Shrinks
        value-Shrinks m h.few
        (All-map (λ e good. (refl, annotation_key-Codes e.0 good.0, value-Codes e.1 good.1)) m
          h.entries)
        h.distinct

  pub application_properties-Codes :
      (m : ApplicationProperties)
      → AreApplicationProperties m
      → Codes decode_application_properties
          (encode_application_properties m)
          (application_properties_size m)
          m
  unfolding decode_application_properties encode_application_properties
  application_properties-Codes m h =
      map-Codes _ str_key _ _ _ _ Texts.long_size simple_size str-Shrinks simple-Shrinks m h.few
        (All-map (λ e good. (refl, sized_str e.0 good.0, simple-Codes e.1 good.1)) m h.entries)
        h.distinct

  -- What stands behind a descriptor that the section is picked by.
  peek_first :
      {A B : Type 0} (m : Decode A) (k : A → Decode B) (f : Emit) {e : Emit} {i n : ℕ} {a : A}
      {r : B}
      → Codes m e i a
      → Codes (k a) (e ⊕ f) n r
      → Codes (peek m k) (e ⊕ f) n r
  unfolding peek
  peek_first m k f {e} p q = record {
    written = q.written;
    sized = q.sized;
    reads = λ rest.
        let split : bytes (e ⊕ f) ≡ bytes e ++ bytes f = front e f p.written in
        let first : m (bytes (e ⊕ f) ++ rest) ≡ ok (bytes f ++ rest, _) =
          rw (split, append_assoc) (p.reads (bytes f ++ rest)) in
        rw first (q.reads rest);
  }
    where
      front : (e f : Emit) → e ≡ done (bytes e) → bytes (e ⊕ f) ≡ bytes e ++ bytes f
      front (done xs) f h = ⊕-bytes xs f
      front (failed xs err) f h = absurd (cc)

  behind-Codes :
      {A : Type 0} (n : ℕ) (d : Decode A) {f : Emit} {size : ℕ} {a : A}
      → n < u64_mod
      → Codes d f size a
      → Codes
          (behind_descriptor d)
          (encode_descriptor (Descriptor.ulong n) ⊕ f)
          (descriptor_size (Descriptor.ulong n) + size)
          a
  unfolding behind_descriptor
  behind-Codes n d few h = Codes-bind _ (descriptor-Codes (Descriptor.ulong n) few) h

  -- A section behind its descriptor, which picks the decoder for what follows.
  pub section-Codes :
      (n : ℕ) (d : Decode MessageSection) {f : Emit} {size : ℕ} {s : MessageSection}
      → n < u64_mod
      → section_of (Descriptor.ulong n) ≡ behind_descriptor d
      → Codes d f size s
      → Codes decode_section
          (encode_descriptor (Descriptor.ulong n) ⊕ f)
          (descriptor_size (Descriptor.ulong n) + size)
          s
  unfolding decode_section
  section-Codes n d few picked h =
      peek_first decode_descriptor section_of _ (descriptor-Codes (Descriptor.ulong n) few)
        (rw picked (behind-Codes n d few h))

  -- A section whose decoder starts at the descriptor.
  pub whole_section-Codes :
      (n : ℕ) (d : Decode MessageSection) (f : Emit) {size : ℕ} {s : MessageSection}
      → n < u64_mod
      → section_of (Descriptor.ulong n) ≡ d
      → Codes d (encode_descriptor (Descriptor.ulong n) ⊕ f) size s
      → Codes decode_section (encode_descriptor (Descriptor.ulong n) ⊕ f) size s
  unfolding decode_section
  whole_section-Codes n d f few picked h =
      peek_first decode_descriptor section_of _ (descriptor-Codes (Descriptor.ulong n) few)
        (rw picked h)

  header_field-Keeps : (idx : ℕ) (h : Header) → Keeps (list_decoder_header idx h)
  unfolding list_decoder_header
  header_field-Keeps idx h =
      search
        (code_keep_rules, option-Keeps, Shrinks-Keeps, boolean-Shrinks, ubyte-Shrinks, uint-Shrinks)
        depth 20

  properties_field-Keeps : (idx : ℕ) (p : Properties) → Keeps (list_decoder_properties idx p)
  unfolding list_decoder_properties
  properties_field-Keeps idx p =
      search
        (
          code_keep_rules, option-Keeps, Shrinks-Keeps, message_id-Keeps, binary-Shrinks,
          str-Shrinks, symbol-Shrinks, timestamp-Shrinks, uint-Shrinks,
        )
        depth 40

  header-Shrinks : Shrinks Header.decode
  unfolding Header.decode
  header-Shrinks = Shrinks-bind _ _ descriptor-Shrinks picked
    where
      picked : (d : Descriptor) → Keeps (Header.from_descriptor d)
      picked (Descriptor.ulong n) =
          unfold Header.from_descriptor in
          search (code_keep_rules, decode_with_fields-Keeps, header_field-Keeps)
      picked (Descriptor.symbol s) = unfold Header.from_descriptor in fail_with-Keeps _

  properties-Shrinks : Shrinks Properties.decode
  unfolding Properties.decode
  properties-Shrinks = Shrinks-bind _ _ descriptor-Shrinks picked
    where
      picked : (d : Descriptor) → Keeps (Properties.from_descriptor d)
      picked (Descriptor.ulong n) =
          unfold Properties.from_descriptor in
          search (code_keep_rules, decode_with_fields-Keeps, properties_field-Keeps)
      picked (Descriptor.symbol s) = unfold Properties.from_descriptor in fail_with-Keeps _

  behind-Shrinks : {A : Type 0} (d : Decode A) → Keeps d → Shrinks (behind_descriptor d)
  unfolding behind_descriptor
  behind-Shrinks d h = Shrinks-bind _ _ descriptor-Shrinks (λ descriptor. h)

  annotations-Keeps : Keeps decode_annotations
  unfolding decode_annotations
  annotations-Keeps =
      Shrinks-Keeps _ (
        decode_map-Shrinks _ annotation_key _ _ (Shrinks-Keeps _ annotation_key-Shrinks)
          value-Keeps)

  application_properties-Keeps : Keeps decode_application_properties
  unfolding decode_application_properties
  application_properties-Keeps = Shrinks-Keeps _ (
      decode_map-Shrinks _ str_key _ _ (Shrinks-Keeps _ str-Shrinks)
        (Shrinks-Keeps _ simple-Shrinks))

  sequence-Keeps : Keeps (decode_list decode_value)
  sequence-Keeps = Shrinks-Keeps _ (decode_list-Shrinks decode_value value-Keeps)

  section_of-Shrinks : (d : Descriptor) → Shrinks (section_of d)
  unfolding section_of
  section_of-Shrinks (Descriptor.ulong n) =
      search
        (
          Shrinks-if, map_second-Shrinks, header-Shrinks, properties-Shrinks, behind-Shrinks,
          map_second-Keeps, Shrinks-Keeps, binary-Shrinks, value-Keeps,
          application_properties-Keeps, annotations-Keeps, sequence-Keeps, fail_with-Shrinks,
        )
        depth 40
  section_of-Shrinks (Descriptor.symbol s) = fail_with-Shrinks _

  -- A section takes at least a byte.
  pub section-Shrinks : Shrinks decode_section
  unfolding decode_section
  section-Shrinks = peek-Shrinks _ section_of section_of-Shrinks
