-- ===== src/Amqp/Value.antt =====
-- `Value` with the collections and the described values that it holds, of
-- protocol/src/message/amqp/types/primitives/{value,list,map}.rs.
pub mod Termination
pub mod RoundTrip
pub mod Wide
use rabbitmq_stream_rust_cli.Prelude.{
  ℕ, suc, ◌+◌, ◌%◌, Bool, true, false, ◌&&◌, List, [], ◌∷◌, ltb, if◌then◌else◌,
}
use rabbitmq_stream_rust_cli.Codec.Outcome.{Decode, pure, ◌>>=◌}
use rabbitmq_stream_rust_cli.Codec.Emit.{Emit, done, ◌⊕◌}
use rabbitmq_stream_rust_cli.Codec.ByteOrder.{ByteOrder}
use rabbitmq_stream_rust_cli.Codec.Ints.{◌⊞◌}
use rabbitmq_stream_rust_cli.Codec.Maps.{str_eq}
use rabbitmq_stream_rust_cli.Codec.Recursion.{recursive}
use rabbitmq_stream_rust_cli.Amqp.TypeCode
use rabbitmq_stream_rust_cli.Amqp.TypeCode.{TypeCode, peek, map_second}
use rabbitmq_stream_rust_cli.Amqp.Errors.{Descriptor, Target, Externals, invalid_code}
use rabbitmq_stream_rust_cli.Amqp.Simple.{
  SimpleValue, simple_size, simple_eq, encode_simple, decode_simple,
}
use rabbitmq_stream_rust_cli.Amqp.Keys.{descriptor_size, encode_descriptor, decode_descriptor}
use rabbitmq_stream_rust_cli.Amqp.Collections.{
  Key, Entries, collection_size, encode_list_header, encode_map_header, decode_list, decode_map,
}

-- The vector of a `List` and the entries of a `Map<Value, Value>` are lists of their own here.
module _ ⦃x : Externals⦄ where
  mutual
    pub data Value : Type 0 where
      simple : SimpleValue → Value
      collection : CollectionValue → Value
      described : DescribedValue → Value

    pub data DescribedValue : Type 0 where
      describe : Descriptor → Value → DescribedValue

    pub data CollectionValue : Type 0 where
      list : Values → CollectionValue
      map : Fields → CollectionValue

    pub data Values : Type 0 where
      nil : Values
      cons : Value → Values → Values

    pub data Fields : Type 0 where
      end : Fields
      field : Value → Value → Fields → Fields

  unfoldable pub values_of : List Value → Values
  values_of [] = nil
  values_of (v ∷ vs) = cons v (values_of vs)

  unfoldable pub fields_of : Entries Value Value → Fields
  fields_of [] = end
  fields_of ((k, v) ∷ m) = field k v (fields_of m)

  abbrev pub count_values : Values → ℕ
  count_values nil = 0
  count_values (cons v vs) = suc (count_values vs)

  abbrev pub count_fields : Fields → ℕ
  count_fields end = 0
  count_fields (field k v m) = suc (count_fields m)

  -- `encoded_size`, and the folds of `content_size` from a sum so far.
  unfoldable mutual
    pub value_size : Value → ℕ
    value_size (simple v) = simple_size v
    value_size (collection c) = collection_value_size c
    value_size (described d) = described_size d

    pub described_size : DescribedValue → ℕ
    described_size (describe d v) = 1 ⊞ descriptor_size d ⊞ value_size v

    pub collection_value_size : CollectionValue → ℕ
    collection_value_size (list vs) = collection_size (values_size 0 vs)
    collection_value_size (map m) = collection_size (fields_size 0 m)

    pub values_size : ℕ → Values → ℕ
    values_size acc nil = acc
    values_size acc (cons v vs) = values_size (acc ⊞ value_size v) vs

    pub fields_size : ℕ → Fields → ℕ
    fields_size acc end = acc
    fields_size acc (field k v m) = fields_size (acc ⊞ value_size k ⊞ value_size v) m

  -- `Hash::hash` of a value that holds a map is `unimplemented!()`.
  unfoldable mutual
    pub is_hashable : Value → Bool
    is_hashable (simple v) = true
    is_hashable (collection (list vs)) = are_hashable vs
    is_hashable (collection (map m)) = false
    is_hashable (described (describe d v)) = is_hashable v

    pub are_hashable : Values → Bool
    are_hashable nil = true
    are_hashable (cons v vs) = is_hashable v && are_hashable vs

  abbrev pub descriptor_eq : Descriptor → Descriptor → Bool
  descriptor_eq (Descriptor.ulong v) (Descriptor.ulong w) =
      simple_eq (SimpleValue.ulong v) (SimpleValue.ulong w)
  descriptor_eq (Descriptor.symbol v) (Descriptor.symbol w) = str_eq v w
  descriptor_eq a b = false

  -- `derive(PartialEq)` of two keys. Keys with a map in them are never compared: their hash, which
  -- comes first, does not return.
  unfoldable mutual
    pub value_eq : Value → Value → Bool
    value_eq (simple v) (simple w) = simple_eq v w
    value_eq (collection (list vs)) (collection (list ws)) = values_eq vs ws
    value_eq (described (describe d v)) (described (describe e w)) =
        descriptor_eq d e && value_eq v w
    value_eq v w = false

    pub values_eq : Values → Values → Bool
    values_eq nil nil = true
    values_eq (cons v vs) (cons w ws) = value_eq v w && values_eq vs ws
    values_eq vs ws = false

  unfoldable pub value_key : Key Value
  unfolding is_hashable value_eq
  value_key = record { eq = value_eq; hashable = is_hashable }

module _ ⦃b : ByteOrder⦄ ⦃x : Externals⦄ where
  -- `encode`
  unfoldable mutual
    pub encode_value : Value → Emit
    encode_value (simple v) = encode_simple v
    encode_value (collection c) = encode_collection c
    encode_value (described d) = encode_described d

    pub encode_described : DescribedValue → Emit
    encode_described (describe d v) =
        TypeCode.encode TypeCode.described ⊕ encode_descriptor d ⊕ encode_value v

    pub encode_collection : CollectionValue → Emit
    encode_collection (list vs) =
        encode_list_header (values_size 0 vs) (count_values vs) ⊕ encode_values vs
    encode_collection (map m) =
        encode_map_header (fields_size 0 m) (count_fields m) ⊕ encode_fields m

    pub encode_values : Values → Emit
    encode_values nil = done []
    encode_values (cons v vs) = encode_value v ⊕ encode_values vs

    pub encode_fields : Fields → Emit
    encode_fields end = done []
    encode_fields (field k v m) = encode_value k ⊕ encode_value v ⊕ encode_fields m

  -- The decoders, by the decoder for the values inside.
  module _ (d : Decode Value) where
    abbrev pub described_value_of : TypeCode → Decode DescribedValue
    described_value_of TypeCode.described = do
      descriptor ← decode_descriptor
      value ← d
      pure (describe descriptor value)
    described_value_of c = invalid_code Target.described_value c

    -- `DescribedValue::decode`
    unfoldable pub decode_described : Decode DescribedValue
    decode_described = do c ← TypeCode.decode; described_value_of c

    abbrev pub collection_of : TypeCode → Decode CollectionValue
    collection_of TypeCode.list0 = map_second (λ vs. list (values_of vs)) (decode_list d)
    collection_of TypeCode.list8 = map_second (λ vs. list (values_of vs)) (decode_list d)
    collection_of TypeCode.list32 = map_second (λ vs. list (values_of vs)) (decode_list d)
    collection_of TypeCode.map8 =
        map_second (λ m. map (fields_of m))
          (decode_map (Target.map Target.value Target.value) value_key d d)
    collection_of TypeCode.map32 =
        map_second (λ m. map (fields_of m))
          (decode_map (Target.map Target.value Target.value) value_key d d)
    collection_of c = invalid_code Target.collection_value c

    -- `CollectionValue::decode`
    unfoldable pub decode_collection : Decode CollectionValue
    unfolding values_of fields_of
    decode_collection = peek TypeCode.decode collection_of

    abbrev pub value_of : TypeCode → Decode Value
    value_of TypeCode.described = map_second described decode_described
    value_of TypeCode.list0 = map_second collection decode_collection
    value_of TypeCode.list8 = map_second collection decode_collection
    value_of TypeCode.list32 = map_second collection decode_collection
    value_of TypeCode.map8 = map_second collection decode_collection
    value_of TypeCode.map32 = map_second collection decode_collection
    value_of TypeCode.array8 = map_second collection decode_collection
    value_of TypeCode.array32 = map_second collection decode_collection
    value_of c = map_second simple decode_simple

  -- `Value::decode`, whose calls of itself are calls of `again`.
  unfoldable pub value_step : (Unit {0} → Decode Value) → Unit {0} → Decode Value
  unfolding decode_described decode_collection
  value_step again u = peek TypeCode.decode (value_of (again tt))

  unfoldable pub decode_value : Decode Value
  unfolding value_step recursive
  decode_value = recursive value_step tt
