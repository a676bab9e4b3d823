-- ===== src/Amqp/Collections/Wide.antt =====
-- A list whose elements take more than 254 bytes: its code says that one byte holds the count, and
-- four do.
use rabbitmq_stream_rust_cli.Prelude.{
  ℕ, ◌+◌, ◌^◌, ◌<◌, ◌≡◌, refl, sym, ◌∙◌, ap, List, [], ◌∷◌, ◌++◌, arith,
}
use rabbitmq_stream_rust_cli.Codec.Outcome.{ok, Decode, pure, ◌>>=◌, >>=_step}
use rabbitmq_stream_rust_cli.Codec.Emit.{Emit, done, bytes, ◌⊕◌, ⊕_assoc, ⊕-bytes}
use rabbitmq_stream_rust_cli.Codec.ByteOrder.{ByteOrder}
use rabbitmq_stream_rust_cli.Codec.Ints.{◌⊞◌, read_u8, encode_u32}
use rabbitmq_stream_rust_cli.Codec.Vectors.{repeat}
use rabbitmq_stream_rust_cli.Amqp.TypeCode
use rabbitmq_stream_rust_cli.Amqp.TypeCode.{TypeCode, to_u8}
use rabbitmq_stream_rust_cli.Amqp.TypeCode.Laws.{decode-cons, encode_byte}
use rabbitmq_stream_rust_cli.Amqp.Errors.{Externals}
use rabbitmq_stream_rust_cli.Amqp.Collections.{
  read_count8, counted8, list_of, decode_list, fields_from, fields_of, decode_with_fields,
}

module _ ⦃b : ByteOrder⦄ where
  -- A small number in four bytes starts with two zeros.
  wide_bytes : (n : ℕ) → n < 2 ^ 16 → b.write 4 n ≡ 0 ∷ 0 ∷ b.write 2 n
  wide_bytes n h =
      b.write_high 3 n (omega arith) ∙ ap (λ bs. 0 ∷ bs) (b.write_high 2 n (omega arith))

  wide_u32 :
      (content : ℕ)
      → content < 65532
      → encode_u32 (content ⊞ 4) ≡ done (0 ∷ 0 ∷ b.write 2 (content + 4))
  unfolding encode_u32
  wide_u32 content h =
      let small : content ⊞ 4 ≡ content + 4 = omega arith in
      ap (λ n. done (b.write 4 n)) small ∙ ap done (wide_bytes (content + 4) (omega arith))

  regroup : (c d e f : Emit) → ((c ⊕ d ⊕ e) ⊕ f) ≡ ((c ⊕ d) ⊕ e ⊕ f)
  regroup c d e f =
      ⊕_assoc c (d ⊕ e) f ∙ ap (λ g. c ⊕ g) (⊕_assoc d e f) ∙ sym (⊕_assoc c d (e ⊕ f))

  -- The bytes of such a list, with its count and its elements in `e` and `f`.
  pub wide_start :
      (content : ℕ) (e f : Emit)
      → content < 65532
      → bytes ((TypeCode.encode TypeCode.list8 ⊕ encode_u32 (content ⊞ 4) ⊕ e) ⊕ f)
        ≡ to_u8 TypeCode.list8 ∷ 0 ∷ 0 ∷ (b.write 2 (content + 4) ++ bytes (e ⊕ f))
  wide_start content e f h =
      ap bytes (regroup (TypeCode.encode TypeCode.list8) (encode_u32 (content ⊞ 4)) e f)
      ∙ ap (λ c. bytes ((c ⊕ encode_u32 (content ⊞ 4)) ⊕ e ⊕ f)) (encode_byte TypeCode.list8)
      ∙ ap (λ d. bytes ((done (to_u8 TypeCode.list8 ∷ []) ⊕ d) ⊕ e ⊕ f)) (wide_u32 content h)
      ∙ ⊕-bytes (to_u8 TypeCode.list8 ∷ 0 ∷ 0 ∷ b.write 2 (content + 4)) (e ⊕ f)

  counted8_zero :
      {A : Type 0} (k : ℕ → Decode A) (rest : List ℕ) → counted8 k (0 ∷ 0 ∷ rest) ≡ k 0 rest
  unfolding counted8 read_count8 read_u8 ◌>>=◌
  counted8_zero k rest = refl

  module _ ⦃x : Externals⦄ where
    pub decode_list-zero :
        {A : Type 0} (d : Decode A) (rest : List ℕ)
        → decode_list d (to_u8 TypeCode.list8 ∷ 0 ∷ 0 ∷ rest) ≡ ok (rest, [])
    unfolding decode_list repeat pure
    decode_list-zero d rest =
        >>=_step TypeCode.decode (list_of d) _ (decode-cons TypeCode.list8 (0 ∷ 0 ∷ rest))
        ∙ counted8_zero _ rest

    pub decode_with_fields-zero :
        {T : Type 0} (f : ℕ → T → Decode T) (dest : T) (rest : List ℕ)
        → decode_with_fields f dest (to_u8 TypeCode.list8 ∷ 0 ∷ 0 ∷ rest) ≡ ok (rest, dest)
    unfolding decode_with_fields fields_from pure
    decode_with_fields-zero f dest rest =
        >>=_step TypeCode.decode (fields_of f dest) _ (decode-cons TypeCode.list8 (0 ∷ 0 ∷ rest))
        ∙ counted8_zero _ rest
