-- ===== src/Amqp/Message/Whole.antt =====
-- A message as a whole: its declared size is its length, and it is one that a frame can hold.
use rabbitmq_stream_rust_cli.Prelude.{
  ℕ, ◌+◌, ◌%◌, ◌≡◌, refl, ap, ◌∙◌, Option, none, [], append-nil, length, arith,
}
use rabbitmq_stream_rust_cli.Codec.Outcome.{ok}
use rabbitmq_stream_rust_cli.Codec.Emit.{done, bytes}
use rabbitmq_stream_rust_cli.Codec.ByteOrder.{ByteOrder}
use rabbitmq_stream_rust_cli.Codec.Outcome.{>>=_step, pure}
use rabbitmq_stream_rust_cli.Codec.Ints.{u32_mod, ◌⊞◌}
use rabbitmq_stream_rust_cli.Message.{IsMessage}
use rabbitmq_stream_rust_cli.Amqp.TypeCode.{map_second}
use rabbitmq_stream_rust_cli.Amqp.Errors.{
  Externals, message_delivery_annotations, message_annotations, message_application_properties,
  message_body_value, message_footer,
}
use rabbitmq_stream_rust_cli.Amqp.Texts
use rabbitmq_stream_rust_cli.Amqp.Keys.{descriptor_size}
use rabbitmq_stream_rust_cli.Amqp.Value.{value_size}
use rabbitmq_stream_rust_cli.Amqp.Header
use rabbitmq_stream_rust_cli.Amqp.Properties
use rabbitmq_stream_rust_cli.Amqp.Section.{annotations_size, application_properties_size}
use rabbitmq_stream_rust_cli.Amqp.Message
use rabbitmq_stream_rust_cli.Amqp.Message.{
  AmqpMessage, MessageBody, InternalMessage, plus_some, sequence_size, body_size, encoded_size,
  encode, decode, decode_internal, amqp_codec, default,
}
use rabbitmq_stream_rust_cli.Amqp.Message.Termination.{rounds, rounds-step, decode-rounds}
use rabbitmq_stream_rust_cli.Amqp.Message.Moves.{some_len, plus_some_lem, fold_sections_lem}
use rabbitmq_stream_rust_cli.Amqp.Message.RoundTrip.{
  IsAmqpMessage, body_len, message_len, message-Moves,
}

grow :
    {A : Type 0} (f g : A → ℕ) (o : Option A) {size : ℕ} (n : ℕ)
    → size ≡ n % u32_mod
    → ((v : A) → f v ≡ g v % u32_mod)
    → plus_some f o size ≡ (n + some_len g o) % u32_mod
grow f g o {size} n h fits = ap (λ s. plus_some f o s) h ∙ plus_some_lem f g o n fits

module _ ⦃b : ByteOrder⦄ ⦃x : Externals⦄ where
  header_size-lt : (h : Header.Header) → Header.encoded_size h ≡ Header.encoded_size h % u32_mod
  unfolding Header.encoded_size
  header_size-lt h = omega arith

  properties_size-lt :
      (p : Properties.Properties) → Properties.encoded_size p ≡ Properties.encoded_size p % u32_mod
  unfolding Properties.encoded_size
  properties_size-lt p = omega arith

  body_size_lem : (body : MessageBody) → body_size body ≡ body_len body % u32_mod
  unfolding body_size
  body_size_lem body =
      let chunks = fold_sections_lem Texts.long_size 3 body.data_sections 0 in
      let sequence =
        ap (λ s. Message.fold_sections sequence_size 3 body.sequence s) chunks
        ∙ fold_sections_lem sequence_size 3 body.sequence _ in
      grow (λ v. value_size v ⊞ descriptor_size message_body_value) (λ v. 3 + value_size v)
        body.value _ sequence (λ v. omega arith)
      ∙ omega arith

  encoded_size_lem : (m : AmqpMessage) → encoded_size m ≡ message_len m % u32_mod
  unfolding encoded_size
  encoded_size_lem m =
      let with_header =
        grow Header.encoded_size Header.encoded_size m.header _ (body_size_lem m.body)
          header_size-lt in
      let with_delivery =
        grow (λ v. annotations_size v ⊞ descriptor_size message_delivery_annotations)
          (λ v. 3 + annotations_size v) m.delivery_annotations _ with_header (λ v. omega arith) in
      let with_annotations =
        grow (λ v. annotations_size v ⊞ descriptor_size message_annotations)
          (λ v. 3 + annotations_size v) m.annotations _ with_delivery (λ v. omega arith) in
      let with_properties =
        grow Properties.encoded_size Properties.encoded_size m.properties _ with_annotations
          properties_size-lt in
      let with_application =
        grow (λ v. application_properties_size v ⊞ descriptor_size message_application_properties)
          (λ v. 3 + application_properties_size v) m.application_properties _ with_properties
          (λ v. omega arith) in
      grow (λ v. annotations_size v ⊞ descriptor_size message_footer) (λ v. 3 + annotations_size v)
        m.footer _ with_application (λ v. omega arith)
      ∙ omega arith

  -- A message of less than 2^31 bytes is written without an error in as many bytes as it declares,
  -- and those bytes, with nothing behind them, are decoded to the same message, provided that its
  -- numbers fit their Rust types, its properties take at most 252 bytes and its lists at most 254,
  -- its maps have different keys that hold no map, it holds no i32 from -128 to -1 and no i64 from
  -- -128 to 127, its texts are UTF-8, its characters are characters of Unicode, and its times are
  -- made of whole milliseconds.
  pub decode-encode_message :
      (m : AmqpMessage)
      → IsAmqpMessage m
      → (encode m ≡ done (bytes (encode m)))
        × (length (bytes (encode m)) ≡ encoded_size m)
        × (decode (bytes (encode m)) ≡ ok ([], m))
  decode-encode_message m h =
      let moved = message-Moves m h in
      let read : rounds default (bytes (encode m)) ≡ rounds m [] =
        rw append-nil at (moved.moves []) in
      (
        moved.written,
        moved.sized ∙ omega (arith, h.short, encoded_size_lem m),
        decode-rounds (bytes (encode m)) ∙ read ∙ (rounds-step m).0,
      )

  -- A message of less than 2^31 bytes without a publishing id, whose sections the AMQP codec keeps,
  -- is one that the frames of the protocol carry.
  pub internal-IsMessage :
      (m : AmqpMessage)
      → IsAmqpMessage m
      → IsMessage {Message = InternalMessage} (record { publishing_id = none; message = m })
  unfolding decode_internal map_second
  internal-IsMessage m h =
      let (written, sized, read) = decode-encode_message m h in
      record {
        written = written;
        sized = sized;
        alone = >>=_step decode _ (bytes (encode m)) read ∙ (unfold pure in refl);
        short = omega (arith, h.short, encoded_size_lem m);
      }
