-- ===== src/Amqp/Keys/Keeps.antt =====
-- The decoders of descriptors and keys leave no more than they were given.
use rabbitmq_stream_rust_cli.Codec.ByteOrder.{ByteOrder}
use rabbitmq_stream_rust_cli.Codec.Recursion.{Keeps, Shrinks, Shrinks-Keeps}
use rabbitmq_stream_rust_cli.Amqp.TypeCode.{TypeCode}
use rabbitmq_stream_rust_cli.Amqp.TypeCode.Keeps.{
  code_keep_rules, peek-Keeps, peek-Shrinks, map_second-Keeps, map_second-Shrinks,
  invalid_code-Shrinks,
}
use rabbitmq_stream_rust_cli.Amqp.Errors.{Externals}
use rabbitmq_stream_rust_cli.Amqp.Simple.Keeps.{
  by_code, after_code-Keeps, ulong-Shrinks, long-Shrinks, symbol-Shrinks, uuid-Shrinks,
  binary-Shrinks, str-Shrinks,
}
use rabbitmq_stream_rust_cli.Amqp.Keys.{
  descriptor_of, described_of, decode_descriptor, annotation_key_of, decode_annotation_key,
  message_id_of, decode_message_id,
}

module _ ⦃b : ByteOrder⦄ ⦃x : Externals⦄ where
  described_of-Keeps : (c : TypeCode) → Keeps (described_of c)
  described_of-Keeps c = elim c as (λ c. Keeps (described_of c)) [
    | TypeCode.ulong ↦ map_second-Keeps _ _ (Shrinks-Keeps _ ulong-Shrinks)
    | TypeCode.ulong_small ↦ map_second-Keeps _ _ (Shrinks-Keeps _ ulong-Shrinks)
    | TypeCode.ulong0 ↦ after_code-Keeps _
    | TypeCode.symbol8 ↦ map_second-Keeps _ _ (Shrinks-Keeps _ symbol-Shrinks)
    | TypeCode.symbol32 ↦ map_second-Keeps _ _ (Shrinks-Keeps _ symbol-Shrinks)
    | _ ↦ search code_keep_rules
  ]

  -- A descriptor takes at least a byte.
  pub descriptor-Shrinks : Shrinks decode_descriptor
  unfolding decode_descriptor
  descriptor-Shrinks = by_code descriptor_of λ c. elim c as (λ c. Keeps (descriptor_of c)) [
    | TypeCode.described ↦ peek-Keeps _ described_of described_of-Keeps
    | _ ↦ search code_keep_rules
  ]

  pub annotation_key-Shrinks : Shrinks decode_annotation_key
  unfolding decode_annotation_key
  annotation_key-Shrinks = peek-Shrinks _ annotation_key_of λ c.
      elim c as (λ c. Shrinks (annotation_key_of c)) [
        | TypeCode.symbol8 ↦ map_second-Shrinks _ _ symbol-Shrinks
        | TypeCode.symbol32 ↦ map_second-Shrinks _ _ symbol-Shrinks
        | TypeCode.ulong ↦ map_second-Shrinks _ _ ulong-Shrinks
        | TypeCode.ulong0 ↦ map_second-Shrinks _ _ ulong-Shrinks
        | TypeCode.ulong_small ↦ map_second-Shrinks _ _ ulong-Shrinks
        | TypeCode.long ↦ map_second-Shrinks _ _ long-Shrinks
        | TypeCode.long_small ↦ map_second-Shrinks _ _ long-Shrinks
        | _ ↦ invalid_code-Shrinks _ _
      ]

  pub message_id-Keeps : Keeps decode_message_id
  unfolding decode_message_id
  message_id-Keeps = peek-Keeps _ message_id_of λ c. elim c as (λ c. Keeps (message_id_of c)) [
    | TypeCode.ulong0 ↦ map_second-Keeps _ _ (Shrinks-Keeps _ ulong-Shrinks)
    | TypeCode.ulong ↦ map_second-Keeps _ _ (Shrinks-Keeps _ ulong-Shrinks)
    | TypeCode.ulong_small ↦ map_second-Keeps _ _ (Shrinks-Keeps _ ulong-Shrinks)
    | TypeCode.long ↦ map_second-Keeps _ _ (Shrinks-Keeps _ long-Shrinks)
    | TypeCode.long_small ↦ map_second-Keeps _ _ (Shrinks-Keeps _ long-Shrinks)
    | TypeCode.uuid ↦ map_second-Keeps _ _ (Shrinks-Keeps _ uuid-Shrinks)
    | TypeCode.binary8 ↦ map_second-Keeps _ _ (Shrinks-Keeps _ binary-Shrinks)
    | TypeCode.binary32 ↦ map_second-Keeps _ _ (Shrinks-Keeps _ binary-Shrinks)
    | TypeCode.string8 ↦ map_second-Keeps _ _ (Shrinks-Keeps _ str-Shrinks)
    | TypeCode.string32 ↦ map_second-Keeps _ _ (Shrinks-Keeps _ str-Shrinks)
    | _ ↦ search code_keep_rules
  ]
