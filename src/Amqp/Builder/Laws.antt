-- ===== src/Amqp/Builder/Laws.antt =====
-- What a builder is given is what the receiver of the message reads.
use rabbitmq_stream_rust_cli.Prelude.{
  ℕ, ◌≡◌, refl, ◌∙◌, Bool, true, Bool-cases, ==_refl, inl, inr, none, some, List, [], ◌∷◌,
}
use rabbitmq_stream_rust_cli.Codec.Outcome.{ok, pure, >>=_step}
use rabbitmq_stream_rust_cli.Codec.Emit.{bytes}
use rabbitmq_stream_rust_cli.Codec.ByteOrder.{ByteOrder}
use rabbitmq_stream_rust_cli.Codec.Maps.Laws.{str_eq_refl}
use rabbitmq_stream_rust_cli.Amqp.TypeCode.{map_second}
use rabbitmq_stream_rust_cli.Amqp.Errors.{Externals}
use rabbitmq_stream_rust_cli.Amqp.Keys.{AnnotationKey, annotation_key_eq}
use rabbitmq_stream_rust_cli.Amqp.Value.{Value}
use rabbitmq_stream_rust_cli.Amqp.Collections.{insert_with}
use rabbitmq_stream_rust_cli.Amqp.Message.{InternalMessage, encode, decode, decode_internal}
use rabbitmq_stream_rust_cli.Amqp.Message.RoundTrip.{IsAmqpMessage}
use rabbitmq_stream_rust_cli.Amqp.Message.Whole.{decode-encode_message}
use rabbitmq_stream_rust_cli.Amqp.Builder.{
  get_with, put, get, MessageBuilder, set_message_body, insert_annotation, data_of, annotation_of,
}

-- The message without its publishing id, which is not written.
abbrev pub received : ⦃x : Externals⦄ → InternalMessage → InternalMessage
received m = record m { publishing_id = none }

get_with-insert_with :
    {K V : Type 0} (eq : K → K → Bool) (k : K) (v : V) (m : List (K × V))
    → eq k k ≡ true
    → get_with eq k (insert_with eq k v m) ≡ some v
unfolding get_with insert_with
get_with-insert_with eq k v [] same = rw same refl
get_with-insert_with eq k v ((j, w) ∷ m) same = elim (Bool-cases (eq j k)) [
  | inl there ↦ rw (there, there) refl
  | inr other ↦ rw (other, other) (get_with-insert_with eq k v m same)
]

annotation_key_eq_refl : (k : AnnotationKey) → annotation_key_eq k k ≡ true
annotation_key_eq_refl (AnnotationKey.symbol v) = str_eq_refl v
annotation_key_eq_refl (AnnotationKey.ulong n) = ==_refl n
annotation_key_eq_refl (AnnotationKey.long n) = ==_refl n

module _ ⦃x : Externals⦄ where
  abbrev pub built : AnnotationKey → Value → List ℕ → MessageBuilder → MessageBuilder
  built key value content m = set_message_body content (insert_annotation key value m)

  annotation-inserted :
      (key : AnnotationKey) (value : Value) (content : List ℕ) (m : MessageBuilder)
      → annotation_of key (received (built key value content m)) ≡ some value
  unfolding annotation_of set_message_body insert_annotation put get
  annotation-inserted key value content m =
      get_with-insert_with annotation_key_eq key value _ (annotation_key_eq_refl key)

  content-set :
      (content : List ℕ) (m : MessageBuilder)
      → data_of (received (set_message_body content m)) ≡ some content
  unfolding data_of set_message_body
  content-set content m = refl

module _ ⦃b : ByteOrder⦄ ⦃x : Externals⦄ where
  decode_internal-encode :
      (m : InternalMessage)
      → IsAmqpMessage m.message
      → decode_internal (bytes (encode m.message)) ≡ ok ([], received m)
  unfolding decode_internal map_second
  decode_internal-encode m h =
      >>=_step decode _ (bytes (encode m.message)) (decode-encode_message m.message h).2
      ∙ (unfold pure in refl)

  -- Of a message that the builder gave an annotation and then a body, within the bounds of
  -- decode-encode_message, the receiver reads that annotation under its key and that body as the
  -- data, and nothing is left.
  pub built-read :
      (key : AnnotationKey) (value : Value) (content : List ℕ) (m : MessageBuilder)
      → IsAmqpMessage (built key value content m).message
      → (decode_internal (bytes (encode (built key value content m).message))
          ≡ ok ([], received (built key value content m)))
        × (annotation_of key (received (built key value content m)) ≡ some value)
        × (data_of (received (built key value content m)) ≡ some content)
  built-read key value content m h = (
    decode_internal-encode (built key value content m) h,
    annotation-inserted key value content m,
    content-set content (insert_annotation key value m),
  )
