-- ===== src/Amqp/Keys.antt =====
-- `Descriptor` (protocol/src/message/amqp/types/descriptor.rs), `MessageId` (types/mod.rs) and
-- `AnnonationKey` (types/annotations.rs).
pub mod Keeps
pub mod Laws
use rabbitmq_stream_rust_cli.Prelude.{ℕ, Bool, true, false, List, ◌==◌}
use rabbitmq_stream_rust_cli.Codec.Outcome.{Decode, pure, ◌>>=◌}
use rabbitmq_stream_rust_cli.Codec.Emit.{Emit, ◌⊕◌}
use rabbitmq_stream_rust_cli.Codec.ByteOrder.{ByteOrder}
use rabbitmq_stream_rust_cli.Codec.Ints.{◌⊞◌}
use rabbitmq_stream_rust_cli.Codec.Strings.{Str}
use rabbitmq_stream_rust_cli.Codec.Maps.{str_eq}
use rabbitmq_stream_rust_cli.Amqp.TypeCode
use rabbitmq_stream_rust_cli.Amqp.TypeCode.{TypeCode, peek, map_second}
use rabbitmq_stream_rust_cli.Amqp.Errors.{Descriptor, Target, Externals, invalid_code}
use rabbitmq_stream_rust_cli.Amqp.Numbers.{
  ulong_size, long_size, encode_ulong, encode_long, decode_ulong, decode_long,
}
use rabbitmq_stream_rust_cli.Amqp.Texts
use rabbitmq_stream_rust_cli.Amqp.Texts.{
  uuid_size, encode_binary, encode_str, encode_symbol, encode_uuid, decode_binary, decode_str,
  decode_symbol, decode_uuid,
}
use rabbitmq_stream_rust_cli.Amqp.Simple.{after_code}

-- `Descriptor::encoded_size`
abbrev pub descriptor_size : Descriptor → ℕ
descriptor_size (Descriptor.ulong v) = 1 ⊞ ulong_size v
descriptor_size (Descriptor.symbol v) = 1 ⊞ Texts.long_size v

pub data AnnotationKey : Type 0 where
  symbol : Str → AnnotationKey
  ulong : ℕ → AnnotationKey
  long : ℕ → AnnotationKey

-- `derive(PartialEq)`
abbrev pub annotation_key_eq : AnnotationKey → AnnotationKey → Bool
annotation_key_eq (AnnotationKey.symbol v) (AnnotationKey.symbol w) = str_eq v w
annotation_key_eq (AnnotationKey.ulong v) (AnnotationKey.ulong w) = v == w
annotation_key_eq (AnnotationKey.long v) (AnnotationKey.long w) = v == w
annotation_key_eq a b = false

abbrev pub annotation_key_size : AnnotationKey → ℕ
annotation_key_size (AnnotationKey.symbol v) = Texts.long_size v
annotation_key_size (AnnotationKey.ulong v) = ulong_size v
annotation_key_size (AnnotationKey.long v) = long_size v

module _ ⦃x : Externals⦄ where
  pub data MessageId : Type 0 where
    ulong : ℕ → MessageId
    long : ℕ → MessageId
    uuid : x.Uuid → MessageId
    binary : List ℕ → MessageId
    string : Str → MessageId

  abbrev pub message_id_size : MessageId → ℕ
  message_id_size (MessageId.ulong v) = ulong_size v
  message_id_size (MessageId.uuid v) = uuid_size
  message_id_size (MessageId.binary v) = Texts.long_size v
  message_id_size (MessageId.string v) = Texts.long_size v
  message_id_size (MessageId.long v) = long_size v

module _ ⦃b : ByteOrder⦄ where
  unfoldable pub encode_descriptor : Descriptor → Emit
  encode_descriptor (Descriptor.ulong v) = TypeCode.encode TypeCode.described ⊕ encode_ulong v
  encode_descriptor (Descriptor.symbol v) = TypeCode.encode TypeCode.described ⊕ encode_symbol v

  unfoldable pub encode_annotation_key : AnnotationKey → Emit
  encode_annotation_key (AnnotationKey.symbol v) = encode_symbol v
  encode_annotation_key (AnnotationKey.ulong v) = encode_ulong v
  encode_annotation_key (AnnotationKey.long v) = encode_long v

module _ ⦃b : ByteOrder⦄ ⦃x : Externals⦄ where
  -- `match code { … }` behind the code `Described`.
  abbrev pub described_of : TypeCode → Decode Descriptor
  described_of TypeCode.ulong = map_second Descriptor.ulong decode_ulong
  described_of TypeCode.ulong_small = map_second Descriptor.ulong decode_ulong
  described_of TypeCode.ulong0 = after_code (Descriptor.ulong 0)
  described_of TypeCode.symbol8 = map_second Descriptor.symbol decode_symbol
  described_of TypeCode.symbol32 = map_second Descriptor.symbol decode_symbol
  described_of c = invalid_code Target.descriptor c

  abbrev pub descriptor_of : TypeCode → Decode Descriptor
  descriptor_of TypeCode.described = peek TypeCode.decode described_of
  descriptor_of c = invalid_code Target.descriptor c

  unfoldable pub decode_descriptor : Decode Descriptor
  decode_descriptor = do c ← TypeCode.decode; descriptor_of c

  abbrev pub annotation_key_of : TypeCode → Decode AnnotationKey
  annotation_key_of TypeCode.symbol8 = map_second AnnotationKey.symbol decode_symbol
  annotation_key_of TypeCode.symbol32 = map_second AnnotationKey.symbol decode_symbol
  annotation_key_of TypeCode.ulong = map_second AnnotationKey.ulong decode_ulong
  annotation_key_of TypeCode.ulong0 = map_second AnnotationKey.ulong decode_ulong
  annotation_key_of TypeCode.ulong_small = map_second AnnotationKey.ulong decode_ulong
  annotation_key_of TypeCode.long = map_second AnnotationKey.long decode_long
  annotation_key_of TypeCode.long_small = map_second AnnotationKey.long decode_long
  annotation_key_of c = invalid_code Target.annotation_key c

  unfoldable pub decode_annotation_key : Decode AnnotationKey
  decode_annotation_key = peek TypeCode.decode annotation_key_of

  unfoldable pub encode_message_id : MessageId → Emit
  encode_message_id (MessageId.ulong v) = encode_ulong v
  encode_message_id (MessageId.uuid v) = encode_uuid v
  encode_message_id (MessageId.binary v) = encode_binary v
  encode_message_id (MessageId.string v) = encode_str v
  encode_message_id (MessageId.long v) = encode_long v

  abbrev pub message_id_of : TypeCode → Decode MessageId
  message_id_of TypeCode.ulong0 = map_second MessageId.ulong decode_ulong
  message_id_of TypeCode.ulong = map_second MessageId.ulong decode_ulong
  message_id_of TypeCode.ulong_small = map_second MessageId.ulong decode_ulong
  message_id_of TypeCode.long = map_second MessageId.long decode_long
  message_id_of TypeCode.long_small = map_second MessageId.long decode_long
  message_id_of TypeCode.uuid = map_second MessageId.uuid decode_uuid
  message_id_of TypeCode.binary8 = map_second MessageId.binary decode_binary
  message_id_of TypeCode.binary32 = map_second MessageId.binary decode_binary
  message_id_of TypeCode.string8 = map_second MessageId.string decode_str
  message_id_of TypeCode.string32 = map_second MessageId.string decode_str
  message_id_of c = invalid_code Target.message_id c

  unfoldable pub decode_message_id : Decode MessageId
  decode_message_id = peek TypeCode.decode message_id_of
