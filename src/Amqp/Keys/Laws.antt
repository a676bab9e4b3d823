-- ===== src/Amqp/Keys/Laws.antt =====
-- Descriptors, annotation keys and message ids read back as themselves.
use rabbitmq_stream_rust_cli.Prelude.{
  ◌≤◌, ℕ, ◌+◌, ◌-◌, ◌%◌, ◌<◌, ◌≡◌, refl, true, false, ltb, ◌==◌, inl, inr, Bool-cases, arith,
  length, some,
}
use rabbitmq_stream_rust_cli.Codec.Outcome.{Decode}
use rabbitmq_stream_rust_cli.Codec.ByteOrder.{ByteOrder}
use rabbitmq_stream_rust_cli.Codec.Utf8.{is_utf8}
use rabbitmq_stream_rust_cli.Codec.Laws.{Codes, Codes-resize}
use rabbitmq_stream_rust_cli.Codec.Ints.{u32_mod, u64_mod, ◌⊞◌}
use rabbitmq_stream_rust_cli.Codec.Strings.{Str}
use rabbitmq_stream_rust_cli.Amqp.TypeCode
use rabbitmq_stream_rust_cli.Amqp.TypeCode.{TypeCode, peek, map_second}
use rabbitmq_stream_rust_cli.Amqp.TypeCode.Laws.{
  Tag, coded, coded_alone, tagged-Codes, peek-Codes, map_second-Codes,
}
use rabbitmq_stream_rust_cli.Amqp.Errors.{Descriptor, Externals}
use rabbitmq_stream_rust_cli.Amqp.Numbers.{
  is_wide_long, ulong_size, long_size, encode_ulong, encode_long, decode_ulong, decode_long,
}
use rabbitmq_stream_rust_cli.Amqp.Numbers.Laws.{ulong-Tag, long-Tag, ulong-Codes, long-Codes}
use rabbitmq_stream_rust_cli.Amqp.Texts
use rabbitmq_stream_rust_cli.Amqp.Texts.{
  encode_uuid, encode_symbol, encode_str, decode_symbol, decode_str,
}
use rabbitmq_stream_rust_cli.Amqp.Texts.Laws.{
  symbol-Tag, str-Tag, binary-Tag, symbol-Codes, str-Codes, binary-Codes, uuid-Codes,
}
use rabbitmq_stream_rust_cli.Amqp.Simple.{after_code, option_of}
use rabbitmq_stream_rust_cli.Amqp.Simple.Laws.{after_code-Codes, long_size_lem}
use rabbitmq_stream_rust_cli.Amqp.Keys.{
  AnnotationKey, MessageId, descriptor_size, annotation_key_size, message_id_size,
  encode_descriptor, encode_annotation_key, encode_message_id, described_of, decode_descriptor,
  annotation_key_of, decode_annotation_key, message_id_of, decode_message_id,
}

-- A text that four bytes can announce.
abbrev pub IsChars : Str → Type 0
IsChars s = (is_utf8 s ≡ true) × (length s < u32_mod - 6)

abbrev pub IsDescriptor : Descriptor → Type 0
IsDescriptor (Descriptor.ulong v) = v < u64_mod
IsDescriptor (Descriptor.symbol v) = IsChars v

abbrev pub IsAnnotationKey : AnnotationKey → Type 0
IsAnnotationKey (AnnotationKey.symbol v) = IsChars v
IsAnnotationKey (AnnotationKey.ulong v) = v < u64_mod
IsAnnotationKey (AnnotationKey.long v) = (128 ≤ v) × (v < u64_mod - 128)

module _ ⦃x : Externals⦄ where
  abbrev pub IsMessageId : MessageId → Type 0
  IsMessageId (MessageId.ulong v) = v < u64_mod
  IsMessageId (MessageId.long v) = (128 ≤ v) × (v < u64_mod - 128)
  IsMessageId (MessageId.uuid v) = Unit
  IsMessageId (MessageId.binary v) = length v < u32_mod - 6
  IsMessageId (MessageId.string v) = IsChars v

ulong_size_small : (v : ℕ) → 1 + ulong_size v ≡ 1 ⊞ ulong_size v
ulong_size_small v = elim (Bool-cases (v == 0)) [
  | inl z ↦ rw z (omega arith)
  | inr z ↦ elim (Bool-cases (ltb 255 v)) [
    | inl w ↦ rw (z, w) (omega arith)
    | inr w ↦ rw (z, w) (omega arith)
  ]
]

symbol_size_small :
    (v : Str) → length v < u32_mod - 6 → 1 + Texts.long_size v ≡ 1 ⊞ Texts.long_size v
symbol_size_small v h =
    let few : length v % u32_mod ≡ length v = omega arith in
    rw few (elim (Bool-cases (ltb 255 (length v))) [
      | inl w ↦ rw w (omega arith)
      | inr w ↦ rw w (omega arith)
    ])

module _ ⦃b : ByteOrder⦄ ⦃x : Externals⦄ where
  -- The code of the number zero is all that there is of it.
  ulong_descriptor :
      (v : ℕ)
      → v < u64_mod
      → Codes
          (peek TypeCode.decode described_of)
          (encode_ulong v)
          (ulong_size v)
          (Descriptor.ulong v)
  unfolding encode_ulong
  ulong_descriptor v h = elim (Bool-cases (v == 0)) [
    | inl z ↦
        let nothing : v ≡ 0 = ground arith in
        rw nothing (
          peek-Codes described_of (after_code (Descriptor.ulong 0)) (coded_alone _ _ refl)
            (after_code-Codes _ TypeCode.ulong0))
    | inr z ↦
        let number = map_second-Codes Descriptor.ulong (ulong-Codes v h) in
        peek-Codes described_of (map_second Descriptor.ulong decode_ulong) (positive_Tag v z) number
  ]
    where
      positive_Tag :
          (v : ℕ)
          → (v == 0) ≡ false
          → Tag (λ c. described_of c ≡ map_second Descriptor.ulong decode_ulong) (encode_ulong v)
      positive_Tag v z =
          unfold encode_ulong in
          elim (Bool-cases (ltb 255 v)) [
            | inl w ↦ rw (z, w) (coded _ _ _ refl)
            | inr w ↦ rw (z, w) (coded _ _ _ refl)
          ]

  pub sized_chars :
      (s : Str) → IsChars s → Codes decode_symbol (encode_symbol s) (Texts.long_size s) s
  sized_chars s h =
      Codes-resize (symbol-Codes s h.0 (omega (arith, h.1))) (long_size_lem s (omega (arith, h.1)))

  pub sized_str : (s : Str) → IsChars s → Codes decode_str (encode_str s) (Texts.long_size s) s
  sized_str s h =
      Codes-resize (str-Codes s h.0 (omega (arith, h.1))) (long_size_lem s (omega (arith, h.1)))

  pub sized_long :
      (v : ℕ) → 128 ≤ v → v < u64_mod - 128 → Codes decode_long (encode_long v) (long_size v) v
  sized_long v low high =
      let wide : is_wide_long v ≡ true = ground arith in
      Codes-resize (long-Codes v (omega arith)) (rw wide refl)

  -- A descriptor reads back, from as many bytes as it declares.
  pub descriptor-Codes :
      (v : Descriptor)
      → IsDescriptor v
      → Codes decode_descriptor (encode_descriptor v) (descriptor_size v) v
  unfolding decode_descriptor encode_descriptor
  descriptor-Codes (Descriptor.ulong v) h =
      Codes-resize (tagged-Codes _ TypeCode.described (ulong_descriptor v h)) (ulong_size_small v)
  descriptor-Codes (Descriptor.symbol v) h =
      Codes-resize
        (tagged-Codes _ TypeCode.described (
          peek-Codes described_of _ (symbol-Tag _ refl refl v)
            (map_second-Codes Descriptor.symbol (sized_chars v h))))
        (symbol_size_small v h.1)

  pub annotation_key-Codes :
      (v : AnnotationKey)
      → IsAnnotationKey v
      → Codes decode_annotation_key (encode_annotation_key v) (annotation_key_size v) v
  unfolding decode_annotation_key encode_annotation_key
  annotation_key-Codes (AnnotationKey.symbol v) h =
      peek-Codes annotation_key_of _ (symbol-Tag _ refl refl v)
        (map_second-Codes AnnotationKey.symbol (sized_chars v h))
  annotation_key-Codes (AnnotationKey.ulong v) h =
      peek-Codes annotation_key_of _ (ulong-Tag _ refl refl refl v)
        (map_second-Codes AnnotationKey.ulong (ulong-Codes v h))
  annotation_key-Codes (AnnotationKey.long v) h =
      peek-Codes annotation_key_of _ (long-Tag _ refl refl v)
        (map_second-Codes AnnotationKey.long (sized_long v h.0 h.1))

  -- The first byte of a message id is no null.
  pub message_id-Tag :
      {A : Type 0} (d : Decode A) (v : MessageId)
      → Tag (λ c. option_of d c ≡ map_second some d) (encode_message_id v)
  unfolding encode_message_id encode_uuid
  message_id-Tag d (MessageId.ulong v) = ulong-Tag _ refl refl refl v
  message_id-Tag d (MessageId.long v) = long-Tag _ refl refl v
  message_id-Tag d (MessageId.uuid v) = coded _ _ _ refl
  message_id-Tag d (MessageId.binary v) = binary-Tag _ refl refl v
  message_id-Tag d (MessageId.string v) = str-Tag _ refl refl v

  pub message_id-Codes :
      (v : MessageId)
      → IsMessageId v
      → Codes decode_message_id (encode_message_id v) (message_id_size v) v
  unfolding decode_message_id encode_message_id encode_uuid
  message_id-Codes (MessageId.ulong v) h =
      peek-Codes message_id_of _ (ulong-Tag _ refl refl refl v)
        (map_second-Codes MessageId.ulong (ulong-Codes v h))
  message_id-Codes (MessageId.long v) h =
      peek-Codes message_id_of _ (long-Tag _ refl refl v)
        (map_second-Codes MessageId.long (sized_long v h.0 h.1))
  message_id-Codes (MessageId.uuid v) h =
      peek-Codes message_id_of _ (coded _ _ _ refl) (map_second-Codes MessageId.uuid (uuid-Codes v))
  message_id-Codes (MessageId.binary v) h = peek-Codes message_id_of _ (binary-Tag _ refl refl v) (
      map_second-Codes MessageId.binary
        (Codes-resize (binary-Codes v (omega arith)) (long_size_lem v (omega arith))))
  message_id-Codes (MessageId.string v) h =
      peek-Codes message_id_of _ (str-Tag _ refl refl v)
        (map_second-Codes MessageId.string (sized_str v h))
