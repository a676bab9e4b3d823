-- ===== src/Amqp/Header/Laws.antt =====
-- The header of a message reads back as itself.
use rabbitmq_stream_rust_cli.Prelude.{
  ℕ, ◌+◌, ◌%◌, ◌<◌, ◌≤◌, ◌≡◌, refl, false, inl, inr, Bool-cases, Option, none, some, ltb, ◌==◌,
  arith,
}
use rabbitmq_stream_rust_cli.Codec.ByteOrder.{ByteOrder}
use rabbitmq_stream_rust_cli.Codec.Laws.{Codes, Codes-bind, Codes-resize}
use rabbitmq_stream_rust_cli.Codec.Ints.{u8_mod, u32_mod, ◌⊞◌}
use rabbitmq_stream_rust_cli.Amqp.TypeCode.Laws.{coded, map_second-Codes}
use rabbitmq_stream_rust_cli.Amqp.Errors.{message_header, Externals}
use rabbitmq_stream_rust_cli.Amqp.Numbers.{
  uint_size, encode_uint, encode_ubyte, decode_boolean, decode_ubyte, decode_uint,
}
use rabbitmq_stream_rust_cli.Amqp.Numbers.Laws.{
  boolean-Tag, uint-Tag, boolean-Codes, ubyte-Codes, uint-Codes,
}
use rabbitmq_stream_rust_cli.Amqp.Simple.{option_size, decode_option, encode_option}
use rabbitmq_stream_rust_cli.Amqp.Simple.Laws.{Each, each-Codes, present-Codes}
use rabbitmq_stream_rust_cli.Amqp.Keys.Laws.{descriptor-Codes}
use rabbitmq_stream_rust_cli.Amqp.Collections.Laws.{field-Codes, last_field-Codes, fields-Codes}
use rabbitmq_stream_rust_cli.Amqp.Header.{
  Header, default, content_size, encoded_size, encode_list_start, encode, list_decoder_header,
  from_descriptor, decode,
}

-- The fields have their Rust types.
pub record IsHeader (h : Header) : Type 0 where
  pub priority : h.priority < u8_mod
  pub ttl : Each (λ n. n < u32_mod) h.ttl
  pub delivery_count : h.delivery_count < u32_mod

uint_size-le : (n : ℕ) → uint_size n ≤ 5
uint_size-le n = elim (Bool-cases (n == 0)) [
  | inl z ↦ rw z (omega arith)
  | inr z ↦ elim (Bool-cases (ltb 255 n)) [
    | inl w ↦ rw (z, w) (omega arith)
    | inr w ↦ rw (z, w) (omega arith)
  ]
]

module _ ⦃b : ByteOrder⦄ ⦃x : Externals⦄ where
  option_uint-le : (o : Option ℕ) → option_size uint_size o ≤ 5
  option_uint-le none = omega arith
  option_uint-le (some n) = uint_size-le n

  pub option_uint-Codes :
      (o : Option ℕ)
      → Each (λ n. n < u32_mod) o
      → Codes (decode_option decode_uint) (encode_option encode_uint o) (option_size uint_size o) o
  option_uint-Codes o h =
      each-Codes (λ n. n < u32_mod) decode_uint encode_uint uint_size uint-Codes
        (λ n. uint-Tag _ refl refl refl n) o h

  abbrev content_len : Header → ℕ
  content_len h = 1 + (2 + (option_size uint_size h.ttl + (1 + uint_size h.delivery_count)))

  content_size-eq-content_len : (h : Header) → content_size h ≡ content_len h
  unfolding content_size
  content_size-eq-content_len h = omega (arith, option_uint-le h.ttl, uint_size-le h.delivery_count)

  content_len-le : (h : Header) → content_len h ≤ 14
  content_len-le h = omega (arith, option_uint-le h.ttl, uint_size-le h.delivery_count)

  -- A header with fields of their Rust types is written in as many bytes as it declares, and reads
  -- back as itself, whatever follows it.
  pub header-Codes : (h : Header) → IsHeader h → Codes decode (encode h) (encoded_size h) h
  unfolding decode encode encoded_size encode_list_start from_descriptor list_decoder_header
      encode_ubyte
  header-Codes h good =
      let len = content_size-eq-content_len h in
      let few = content_len-le h in
      let narrow : ltb 255 (content_len h ⊞ 3) ≡ false = ground arith in
      let size : (content_len h ⊞ 4) % u8_mod ≡ content_len h + 4 = omega arith in
      rw (len, narrow, size)
        (Codes-resize
          (Codes-bind from_descriptor (descriptor-Codes message_header (omega arith)) (
            fields-Codes list_decoder_header default (content_len h + 4) 5 (omega arith)
              (omega arith)
              (field-Codes list_decoder_header 0 4
                (map_second-Codes _ (
                  present-Codes decode_boolean (boolean-Tag _ refl refl h.durable)
                    (boolean-Codes h.durable)))
                (field-Codes list_decoder_header 1 3
                  (map_second-Codes _ (
                    present-Codes decode_ubyte (coded _ _ _ refl)
                      (ubyte-Codes h.priority good.priority)))
                  (field-Codes list_decoder_header 2 2
                    (map_second-Codes _ (option_uint-Codes h.ttl good.ttl))
                    (field-Codes list_decoder_header 3 1
                      (map_second-Codes _ (
                        present-Codes decode_boolean (boolean-Tag _ refl refl h.first_acquirer)
                          (boolean-Codes h.first_acquirer)))
                      (last_field-Codes list_decoder_header 4 (
                        map_second-Codes _ (
                          present-Codes decode_uint (uint-Tag _ refl refl refl h.delivery_count)
                            (uint-Codes h.delivery_count good.delivery_count))))))))))
          (omega arith))
