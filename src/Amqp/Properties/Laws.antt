-- ===== src/Amqp/Properties/Laws.antt =====
-- The properties of a message read back as themselves, as long as they take at most 252 bytes.
use rabbitmq_stream_rust_cli.Prelude.{
  ℕ, ◌+◌, ◌-◌, ◌%◌, ◌<◌, ◌≤◌, ◌≡◌, refl, ◌∙◌, false, Option, List, [], ◌∷◌, length, ltb, arith,
}
use mathlib.Core.List.{foldl}
use rabbitmq_stream_rust_cli.Codec.ByteOrder.{ByteOrder}
use rabbitmq_stream_rust_cli.Codec.Laws.{Codes, Codes-bind, Codes-resize}
use rabbitmq_stream_rust_cli.Codec.Ints.{u8_mod, u32_mod, ◌⊞◌}
use rabbitmq_stream_rust_cli.Codec.Strings.{Str}
use rabbitmq_stream_rust_cli.Codec.Vectors.Laws.{total}
use rabbitmq_stream_rust_cli.Amqp.TypeCode.Laws.{coded, map_second-Codes}
use rabbitmq_stream_rust_cli.Amqp.Errors.{message_properties, Externals}
use rabbitmq_stream_rust_cli.Amqp.Numbers.{uint_size, encode_uint, decode_uint}
use rabbitmq_stream_rust_cli.Amqp.Numbers.Laws.{uint-Tag, uint-Codes}
use rabbitmq_stream_rust_cli.Amqp.Texts
use rabbitmq_stream_rust_cli.Amqp.Texts.{
  timestamp_size, encode_binary, encode_str, encode_symbol, encode_timestamp, decode_binary,
  decode_str, decode_symbol, decode_timestamp,
}
use rabbitmq_stream_rust_cli.Amqp.Texts.Laws.{
  IsTimestamp, binary-Tag, str-Tag, symbol-Tag, binary-Codes, timestamp-Codes,
}
use rabbitmq_stream_rust_cli.Amqp.Simple.{option_size, encode_option, decode_option}
use rabbitmq_stream_rust_cli.Amqp.Simple.Laws.{Each, each-Codes, long_size_lem}
use rabbitmq_stream_rust_cli.Amqp.Keys.{
  MessageId, message_id_size, encode_message_id, decode_message_id,
}
use rabbitmq_stream_rust_cli.Amqp.Keys.Laws.{
  IsChars, IsMessageId, message_id-Tag, message_id-Codes, descriptor-Codes, sized_chars, sized_str,
}
use rabbitmq_stream_rust_cli.Amqp.Collections.Laws.{field-Codes, last_field-Codes, fields-Codes}
use rabbitmq_stream_rust_cli.Amqp.Properties.{
  Properties, default, content_size, encoded_size, encode_list_start, encode,
  list_decoder_properties, from_descriptor, decode,
}

abbrev pub IsBytes : List ℕ → Type 0
IsBytes v = length v < u32_mod - 6

abbrev pub IsU32 : ℕ → Type 0
IsU32 n = n < u32_mod

-- `+` of `u32`s that stays in bounds.
sum_small :
    (acc : ℕ) (xs : List ℕ)
    → acc + total (λ n. n) xs < u32_mod
    → foldl (λ a n. a ⊞ n) acc xs ≡ acc + total (λ n. n) xs
sum_small acc [] h = omega arith
sum_small acc (n ∷ xs) h =
    let step : acc ⊞ n ≡ acc + n = omega arith in
    rw step (sum_small (acc + n) xs (omega arith) ∙ omega arith)

narrow_content :
    (c : ℕ)
    → c ≤ 252
    → (ltb 255 (c ⊞ 1) ≡ false)
      × (ltb 255 (3 ⊞ c) ≡ false)
      × ((c ⊞ 1) % u8_mod ≡ c + 1)
      × (c + 1 < u8_mod)
narrow_content c h = (ground arith, ground arith, omega arith, omega arith)

module _ ⦃x : Externals⦄ where
  module _ ⦃b : ByteOrder⦄ where
    -- The sizes of the fields behind the first.
    abbrev field_sizes : Properties → List ℕ
    field_sizes p =
        option_size Texts.long_size p.user_id
        ∷ option_size Texts.long_size p.to
        ∷ option_size Texts.long_size p.subject
        ∷ option_size Texts.long_size p.reply_to
        ∷ option_size message_id_size p.correlation_id
        ∷ option_size Texts.long_size p.content_type
        ∷ option_size Texts.long_size p.content_encoding
        ∷ option_size (λ t. timestamp_size) p.absolute_expiry_time
        ∷ option_size (λ t. timestamp_size) p.creation_time
        ∷ option_size Texts.long_size p.group_id
        ∷ option_size uint_size p.group_sequence
        ∷ option_size Texts.long_size p.reply_to_group_id
        ∷ []

    abbrev pub content_len : Properties → ℕ
    content_len p = option_size message_id_size p.message_id + total (λ n. n) (field_sizes p)

    -- Fields of their Rust types, of at most 252 bytes.
    pub record IsProperties (p : Properties) : Type 0 where
      pub message_id : Each IsMessageId p.message_id
      pub user_id : Each IsBytes p.user_id
      pub to : Each IsChars p.to
      pub subject : Each IsChars p.subject
      pub reply_to : Each IsChars p.reply_to
      pub correlation_id : Each IsMessageId p.correlation_id
      pub content_type : Each IsChars p.content_type
      pub content_encoding : Each IsChars p.content_encoding
      pub absolute_expiry_time : Each IsTimestamp p.absolute_expiry_time
      pub creation_time : Each IsTimestamp p.creation_time
      pub group_id : Each IsChars p.group_id
      pub group_sequence : Each IsU32 p.group_sequence
      pub reply_to_group_id : Each IsChars p.reply_to_group_id
      pub short : content_len p ≤ 252

module _ ⦃b : ByteOrder⦄ ⦃x : Externals⦄ where
  content_size-eq-content_len :
      (p : Properties) → content_len p ≤ 252 → content_size p ≡ content_len p
  unfolding content_size
  content_size-eq-content_len p h =
      sum_small (option_size message_id_size p.message_id) (field_sizes p) (omega arith)

  text-Codes :
      (o : Option Str)
      → Each IsChars o
      → Codes
          (decode_option decode_str)
          (encode_option encode_str o)
          (option_size Texts.long_size o)
          o
  text-Codes =
      each-Codes IsChars decode_str encode_str Texts.long_size sized_str
        (λ s. str-Tag _ refl refl s)

  symbol-Codes :
      (o : Option Str)
      → Each IsChars o
      → Codes
          (decode_option decode_symbol)
          (encode_option encode_symbol o)
          (option_size Texts.long_size o)
          o
  symbol-Codes =
      each-Codes IsChars decode_symbol encode_symbol Texts.long_size sized_chars
        (λ s. symbol-Tag _ refl refl s)

  id-Codes :
      (o : Option MessageId)
      → Each IsMessageId o
      → Codes
          (decode_option decode_message_id)
          (encode_option encode_message_id o)
          (option_size message_id_size o)
          o
  id-Codes =
      each-Codes IsMessageId decode_message_id encode_message_id message_id_size message_id-Codes
        (message_id-Tag decode_message_id)

  user-Codes :
      (o : Option (List ℕ))
      → Each IsBytes o
      → Codes
          (decode_option decode_binary)
          (encode_option encode_binary o)
          (option_size Texts.long_size o)
          o
  user-Codes =
      each-Codes IsBytes decode_binary encode_binary Texts.long_size
        (λ v h. Codes-resize (binary-Codes v (omega arith)) (long_size_lem v (omega arith)))
        (λ v. binary-Tag _ refl refl v)

  time-Codes :
      (o : Option x.DateTime)
      → Each IsTimestamp o
      → Codes
          (decode_option decode_timestamp)
          (encode_option encode_timestamp o)
          (option_size (λ t. timestamp_size) o)
          o
  unfolding encode_timestamp
  time-Codes o h =
      each-Codes IsTimestamp decode_timestamp encode_timestamp (λ t. timestamp_size) timestamp-Codes
        (λ t. coded _ _ _ refl) o h

  uint_option-Codes :
      (o : Option ℕ)
      → Each IsU32 o
      → Codes (decode_option decode_uint) (encode_option encode_uint o) (option_size uint_size o) o
  uint_option-Codes =
      each-Codes IsU32 decode_uint encode_uint uint_size uint-Codes
        (λ n. uint-Tag _ refl refl refl n)

  -- Properties with fields of their Rust types that take at most 252 bytes are written in as many
  -- bytes as they declare, and read back as themselves, whatever follows them.
  pub properties-Codes :
      (p : Properties) → IsProperties p → Codes decode (encode p) (encoded_size p) p
  unfolding decode encode encoded_size encode_list_start from_descriptor list_decoder_properties
  properties-Codes p good =
      let len = content_size-eq-content_len p good.short in
      let (narrow, declared, size, few) = narrow_content (content_len p) good.short in
      rw (len, narrow, declared, size)
        (Codes-resize
          (Codes-bind from_descriptor (descriptor-Codes message_properties (omega arith)) (
            fields-Codes list_decoder_properties default (content_len p + 1) 13 few (omega arith) (
              field-Codes list_decoder_properties 0 12
                (map_second-Codes _ (id-Codes p.message_id good.message_id))
                (field-Codes list_decoder_properties 1 11
                  (map_second-Codes _ (user-Codes p.user_id good.user_id))
                  (field-Codes list_decoder_properties 2 10
                    (map_second-Codes _ (text-Codes p.to good.to))
                    (field-Codes list_decoder_properties 3 9
                      (map_second-Codes _ (text-Codes p.subject good.subject))
                      (field-Codes list_decoder_properties 4 8
                        (map_second-Codes _ (text-Codes p.reply_to good.reply_to))
                        (field-Codes list_decoder_properties 5 7
                          (map_second-Codes _ (id-Codes p.correlation_id good.correlation_id))
                          (field-Codes list_decoder_properties 6 6
                            (map_second-Codes _ (symbol-Codes p.content_type good.content_type))
                            (field-Codes list_decoder_properties 7 5
                              (map_second-Codes _
                                (symbol-Codes p.content_encoding good.content_encoding))
                              (field-Codes list_decoder_properties 8 4
                                (map_second-Codes _
                                  (time-Codes p.absolute_expiry_time good.absolute_expiry_time))
                                (field-Codes list_decoder_properties 9 3
                                  (map_second-Codes _
                                    (time-Codes p.creation_time good.creation_time))
                                  (field-Codes list_decoder_properties 10 2
                                    (map_second-Codes _ (text-Codes p.group_id good.group_id))
                                    (field-Codes list_decoder_properties 11 1
                                      (map_second-Codes _
                                        (uint_option-Codes p.group_sequence good.group_sequence))
                                      (last_field-Codes list_decoder_properties 12 (
                                        map_second-Codes _ (
                                          text-Codes p.reply_to_group_id
                                            good.reply_to_group_id)))))))))))))))))
          (omega arith))
