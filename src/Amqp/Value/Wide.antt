-- ===== src/Amqp/Value/Wide.antt =====
-- A list value of more than 254 bytes is not read back.
use rabbitmq_stream_rust_cli.Prelude.{
  ℕ, ◌+◌, ◌%◌, ◌<◌, ◌≤◌, ◌≡◌, refl, ◌∙◌, true, List, ◌∷◌, ◌++◌, ltb, arith,
}
use rabbitmq_stream_rust_cli.Codec.Outcome.{ok, Decode, pure, >>=_step}
use rabbitmq_stream_rust_cli.Codec.Emit.{bytes, ◌⊕◌}
use rabbitmq_stream_rust_cli.Codec.ByteOrder.{ByteOrder}
use rabbitmq_stream_rust_cli.Codec.Ints.{u32_mod, ◌⊞◌, encode_u32}
use rabbitmq_stream_rust_cli.Amqp.TypeCode
use rabbitmq_stream_rust_cli.Amqp.TypeCode.{TypeCode, to_u8, peek, map_second}
use rabbitmq_stream_rust_cli.Amqp.TypeCode.Laws.{decode-cons}
use rabbitmq_stream_rust_cli.Amqp.Errors.{Externals}
use rabbitmq_stream_rust_cli.Amqp.Collections.{encode_list_header, decode_list}
use rabbitmq_stream_rust_cli.Amqp.Collections.Wide.{wide_start, decode_list-zero}
use rabbitmq_stream_rust_cli.Amqp.Value.{
  Values, list, collection, nil, values_of, count_values, values_size, encode_value, encode_values,
  collection_of, decode_collection, value_of, decode_value,
}
use rabbitmq_stream_rust_cli.Amqp.Value.Termination.{decode_value-step}

module _ ⦃b : ByteOrder⦄ ⦃x : Externals⦄ where
  -- What follows the first two bytes that the decoder takes for the size and the count.
  abbrev pub left_over : Values → List ℕ
  left_over vs =
      b.write 2 (values_size 0 vs + 4)
      ++ bytes (encode_u32 (count_values vs % u32_mod) ⊕ encode_values vs)

  encoded :
      (vs : Values)
      → 255 ≤ values_size 0 vs
      → values_size 0 vs < 65532
      → bytes (encode_value (collection (list vs))) ≡ to_u8 TypeCode.list8 ∷ 0 ∷ 0 ∷ left_over vs
  unfolding encode_value encode_list_header
  encoded vs low high =
      let wide : ltb 255 (values_size 0 vs ⊞ 1) ≡ true = ground arith in
      rw wide (wide_start (values_size 0 vs) _ _ high)

  peek_step :
      {A B : Type 0} (m : Decode A) (k : A → Decode B) (input : List ℕ) {rest : List ℕ} {a : A}
      → m input ≡ ok (rest, a)
      → peek m k input ≡ k a input
  unfolding peek
  peek_step m k input h = rw h refl

  -- A list whose elements declare 255 bytes or more, and at most 65531, is decoded to the empty
  -- list, and all but the first three of its bytes are left.
  pub decode_value-long_list :
      (vs : Values) (rest : List ℕ)
      → 255 ≤ values_size 0 vs
      → values_size 0 vs < 65532
      → decode_value (bytes (encode_value (collection (list vs))) ++ rest)
        ≡ ok (left_over vs ++ rest, collection (list nil))
  unfolding decode_collection map_second values_of pure
  decode_value-long_list vs rest low high =
      let input : List ℕ = to_u8 TypeCode.list8 ∷ 0 ∷ 0 ∷ (left_over vs ++ rest) in
      let code = decode-cons TypeCode.list8 (0 ∷ 0 ∷ (left_over vs ++ rest)) in
      let items =
        >>=_step (decode_list decode_value) (λ ws. pure (list (values_of ws))) input
          (decode_list-zero decode_value (left_over vs ++ rest)) in
      let whole = peek_step TypeCode.decode (collection_of decode_value) input code ∙ items in
      rw (encoded vs low high) (
        decode_value-step input
        ∙ peek_step TypeCode.decode (value_of decode_value) input code
        ∙ >>=_step (decode_collection decode_value) (λ c. pure (collection c)) input whole)
