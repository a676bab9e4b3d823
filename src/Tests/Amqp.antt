-- ===== src/Tests/Amqp.antt =====
-- The theorems on AMQP messages, at concrete values.
use rabbitmq_stream_rust_cli.Prelude.{
  ℕ, zero, suc, ◌+◌, ◌≤◌, ◌-◌, ◌<◌, ◌≡◌, refl, true, ◌==◌, Option, none, some, List, [], ◌∷◌, ◌++◌,
  length, arith, inl,
}
use rabbitmq_stream_rust_cli.Codec.Outcome.{ok, Decode, pure, ◌>>=◌}
use rabbitmq_stream_rust_cli.Codec.Emit.{done, bytes}
use rabbitmq_stream_rust_cli.Codec.Laws.{Codes}
use rabbitmq_stream_rust_cli.Codec.Utf8.{is_utf8}
use rabbitmq_stream_rust_cli.Codec.Ints.{u32_mod}
use rabbitmq_stream_rust_cli.Amqp.TypeCode
use rabbitmq_stream_rust_cli.Amqp.TypeCode.{TypeCode, peek}
use rabbitmq_stream_rust_cli.Amqp.Errors.{Externals}
use rabbitmq_stream_rust_cli.Amqp.Numbers.{
  int_size, encode_int, decode_int, long_size, encode_long, decode_long,
}
use rabbitmq_stream_rust_cli.Amqp.Numbers.Laws.{int-Codes_negative, small_long-Codes}
use rabbitmq_stream_rust_cli.Amqp.Simple.{SimpleValue, simple_size, encode_simple, decode_simple}
use rabbitmq_stream_rust_cli.Amqp.Simple.Laws.{IsSimple, simple-Codes}
use rabbitmq_stream_rust_cli.Amqp.Keys.{AnnotationKey}
use rabbitmq_stream_rust_cli.Amqp.Value.{
  Value, Values, simple, collection, list, map, nil, cons, end, field, value_size, values_size,
  is_hashable, value_eq, encode_value, decode_value, value_of, value_step, value_key,
}
use rabbitmq_stream_rust_cli.Amqp.Value.Termination.{cut_off-decode_value}
use rabbitmq_stream_rust_cli.Amqp.Value.RoundTrip.{IsValue, list_from, entries_from, value-Codes}
use rabbitmq_stream_rust_cli.Amqp.Value.Wide as LongList
use rabbitmq_stream_rust_cli.Amqp.Value.Wide.{decode_value-long_list}
use rabbitmq_stream_rust_cli.Amqp.Header
use rabbitmq_stream_rust_cli.Amqp.Header.{Header}
use rabbitmq_stream_rust_cli.Amqp.Header.Laws.{IsHeader, header-Codes}
use rabbitmq_stream_rust_cli.Amqp.Properties
use rabbitmq_stream_rust_cli.Amqp.Properties.{Properties, content_size}
use rabbitmq_stream_rust_cli.Amqp.Properties.Wide as LongProperties
use rabbitmq_stream_rust_cli.Amqp.Properties.Wide.{decode-long_properties}
use rabbitmq_stream_rust_cli.Amqp.Section.{decode_section}
use rabbitmq_stream_rust_cli.Amqp.Message
use rabbitmq_stream_rust_cli.Amqp.Message.{
  AmqpMessage, InternalMessage, MessageBody, store, message_step, encoded_size, encode, decode,
  decode_internal, amqp_codec,
}
use rabbitmq_stream_rust_cli.Amqp.Message.Termination.{rounds, cut_off-rounds}
use rabbitmq_stream_rust_cli.Amqp.Message.RoundTrip.{IsAmqpMessage}
use rabbitmq_stream_rust_cli.Amqp.Message.Whole.{decode-encode_message}
use rabbitmq_stream_rust_cli.Request
use rabbitmq_stream_rust_cli.Amqp.Collections.{Filling, Entries, fill, fill_step}
use rabbitmq_stream_rust_cli.Codec.Recursion.{cut_off}
use rabbitmq_stream_rust_cli.Amqp.Builder.{
  MessageBuilder, set_message_body, insert_annotation, put, data_of, annotation_of,
}
use rabbitmq_stream_rust_cli.Amqp.Builder.Laws.{built, received, built-read}
use rabbitmq_stream_rust_cli.Tests.Instances.{big_endian}

same_millis : (n t : ℕ) → some n ≡ some t → t ≡ n
same_millis n t h = cc

-- A time is its milliseconds, a UUID is its first byte, and an error has no text.
instance abbrev externals : Externals
externals = record {
  DateTime = ℕ;
  timestamp_millis = λ t. t;
  timestamp_millis_opt = λ n. some n;
  timestamp_millis-opt = same_millis;
  datetime_eq = λ s t. s == t;
  Uuid = ℕ;
  as_bytes = λ n. n ∷ 0 ∷ 0 ∷ 0 ∷ 0 ∷ 0 ∷ 0 ∷ 0 ∷ 0 ∷ 0 ∷ 0 ∷ 0 ∷ 0 ∷ 0 ∷ 0 ∷ 0 ∷ [];
  from_slice = first;
  uuid_eq = λ u v. u == v;
  length-as_bytes = λ n. refl;
  from_slice-as_bytes = λ n. refl;
  float_eq = λ s t. s == t;
  double_eq = λ s t. s == t;
  format = λ text. [];
}
  where
    first : List ℕ → Option ℕ
    first [] = none
    first (b ∷ bs) = some b

-- The list of a number and a text, and a map with it under the key `true`.
abbrev two_values : Values
two_values =
    cons (simple (SimpleValue.uint 300)) (cons (simple (SimpleValue.string (104 ∷ 105 ∷ []))) nil)

abbrev nested_value : Value
nested_value =
    collection (map (field (simple (SimpleValue.boolean true)) (collection (list two_values)) end))

nested_value-IsValue : IsValue nested_value
unfolding IsValue IsSimple list_from entries_from value_size is_hashable value_eq is_utf8
nested_value-IsValue =
    (omega arith, (tt, tt), (refl, tt, (omega arith, (omega arith, ((refl, omega arith), tt))), tt))

value-Codes_example :
    Codes decode_value (encode_value nested_value) (value_size nested_value) nested_value
value-Codes_example = value-Codes nested_value nested_value-IsValue

-- What is done where the recursion is cut off, which makes no difference.
abbrev no_value : Unit {0} → Decode Value
no_value u = pure (collection (list nil))

abbrev no_map : Filling Value Value → Decode (Entries Value Value)
no_map s = pure []

abbrev value_bytes : List ℕ
value_bytes = 0xc0 ∷ 2 ∷ 1 ∷ 0x40 ∷ []

cut_off-decode_value_example :
    (cut_off value_step no_value 5 tt value_bytes ≡ decode_value value_bytes)
    × (cut_off (fill_step value_key decode_value decode_value) no_map 5 (2, []) value_bytes
        ≡ fill value_key decode_value decode_value (2, []) value_bytes)
    × (decode_value value_bytes ≡ peek TypeCode.decode (value_of decode_value) value_bytes)
cut_off-decode_value_example =
    cut_off-decode_value no_value no_map 5 (2, []) value_bytes (omega arith)

-- A list of 52 numbers of five bytes each.
copies : ℕ → Values
copies zero = nil
copies (suc n) = cons (simple (SimpleValue.uint 70000)) (copies n)

abbrev long_list : Values
long_list = copies 52

long_list_low : 255 ≤ values_size 0 long_list
unfolding value_size copies
long_list_low = omega arith

long_list_high : values_size 0 long_list < 65532
unfolding value_size copies
long_list_high = omega arith

decode_value-long_list_example :
    decode_value (bytes (encode_value (collection (list long_list))) ++ [])
    ≡ ok (LongList.left_over long_list ++ [], collection (list nil))
decode_value-long_list_example = decode_value-long_list long_list [] long_list_low long_list_high

abbrev letters : ℕ → List ℕ
letters zero = []
letters (suc n) = 97 ∷ letters n

abbrev long_subject : Properties
long_subject = record Properties.default { subject = some (letters 300) }

decode-long_properties_example :
    Properties.decode (bytes (Properties.encode long_subject) ++ [])
    ≡ ok (LongProperties.left_over long_subject ++ [], Properties.default)
decode-long_properties_example = decode-long_properties long_subject [] low high
  where
    low : 255 ≤ content_size long_subject
    low = unfold content_size in omega arith

    high : content_size long_subject < 65532
    high = unfold content_size in omega arith

-- Minus one.
int-Codes_negative_example :
    Codes decode_int
      (encode_int (u32_mod - 1))
      (int_size (u32_mod - 1))
      (u32_mod - 1 - (u32_mod - 256))
int-Codes_negative_example = int-Codes_negative (u32_mod - 1) (omega arith) (omega arith)

small_long-Codes_example : Codes decode_long (encode_long 5) 2 5 × (long_size 5 ≡ 2 + 1)
small_long-Codes_example = small_long-Codes 5 (inl (omega arith))

simple-Codes_example :
    Codes decode_simple
      (encode_simple (SimpleValue.ulong 77))
      (simple_size (SimpleValue.ulong 77))
      (SimpleValue.ulong 77)
simple-Codes_example = simple-Codes (SimpleValue.ulong 77) good
  where
    good : IsSimple (SimpleValue.ulong 77)
    good = unfold IsSimple in omega arith

-- A message with a header, a message annotation, properties and a body.
abbrev some_header : Header
some_header = record Header.default { durable = true; ttl = some 3000 }

some_header-IsHeader : IsHeader some_header
some_header-IsHeader = record {
  priority = omega arith;
  ttl = omega arith;
  delivery_count = omega arith;
}

header-Codes_example :
    Codes Header.decode (Header.encode some_header) (Header.encoded_size some_header) some_header
header-Codes_example = header-Codes some_header some_header-IsHeader

abbrev some_message : AmqpMessage
some_message = record Message.default {
  header = some some_header;
  annotations = some ((AnnotationKey.ulong 9, nested_value) ∷ []);
  properties = some (record Properties.default { subject = some (letters 4) });
  body = record Message.empty_body { data_sections = (1 ∷ 2 ∷ 3 ∷ []) ∷ [] };
}

some_message-IsAmqpMessage : IsAmqpMessage some_message
unfolding value_size is_utf8 Header.encoded_size Header.content_size Properties.encoded_size
    Properties.content_size
some_message-IsAmqpMessage = record {
  header = some_header-IsHeader;
  delivery_annotations = tt;
  annotations = record {
    few = omega arith;
    distinct = (tt, tt);
    entries = ((omega arith, nested_value-IsValue), tt);
  };
  properties = record {
    message_id = tt;
    user_id = tt;
    to = tt;
    subject = (refl, omega arith);
    reply_to = tt;
    correlation_id = tt;
    content_type = tt;
    content_encoding = tt;
    absolute_expiry_time = tt;
    creation_time = tt;
    group_id = tt;
    group_sequence = tt;
    reply_to_group_id = tt;
    short = omega arith;
  };
  application_properties = tt;
  data_sections = (omega arith, tt);
  sequence = tt;
  value = tt;
  footer = tt;
  short = omega arith;
}

decode-encode_message_example :
    (encode some_message ≡ done (bytes (encode some_message)))
    × (length (bytes (encode some_message)) ≡ encoded_size some_message)
    × (decode (bytes (encode some_message)) ≡ ok ([], some_message))
decode-encode_message_example = decode-encode_message some_message some_message-IsAmqpMessage

abbrev batch : List (ℕ × AmqpMessage)
batch = (7, some_message) ∷ (8, Message.default) ∷ []

abbrev no_message : AmqpMessage → Decode AmqpMessage
no_message m = pure Message.default

cut_off-rounds_example :
    (cut_off message_step no_message 2 some_message (0 ∷ []) ≡ rounds some_message (0 ∷ []))
    × (rounds some_message [] ≡ ok ([], some_message))
    × ((byte : ℕ) (more : List ℕ)
        → rounds some_message (byte ∷ more)
          ≡ (decode_section >>= λ sec. rounds (store sec some_message)) (byte ∷ more))
cut_off-rounds_example = cut_off-rounds no_message 2 some_message (0 ∷ []) (omega arith)

-- The same message, before it is given its annotation and its body.
abbrev unfinished : MessageBuilder
unfinished = record {
  publishing_id = some 7;
  message = record some_message { annotations = none; body = Message.empty_body };
}

abbrev finished : MessageBuilder
finished = built (AnnotationKey.ulong 9) nested_value (1 ∷ 2 ∷ 3 ∷ []) unfinished

finished-IsAmqpMessage : IsAmqpMessage finished.message
unfolding set_message_body insert_annotation put
finished-IsAmqpMessage = some_message-IsAmqpMessage

built-read_example :
    (decode_internal (bytes (encode finished.message)) ≡ ok ([], received finished))
    × (annotation_of (AnnotationKey.ulong 9) (received finished) ≡ some nested_value)
    × (data_of (received finished) ≡ some (1 ∷ 2 ∷ 3 ∷ []))
built-read_example =
    built-read (AnnotationKey.ulong 9) nested_value (1 ∷ 2 ∷ 3 ∷ []) unfinished
      finished-IsAmqpMessage
