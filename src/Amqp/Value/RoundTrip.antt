-- ===== src/Amqp/Value/RoundTrip.antt =====
-- A value reads back as itself.
use rabbitmq_stream_rust_cli.Prelude.{
  ℕ, suc, ◌+◌, ◌-◌, ◌<◌, ◌≤◌, ◌≡◌, refl, ap, ◌∙◌, true, inl, inr, Bool-cases, List, [], ◌∷◌, length,
  ltb, ◌==◌, All, arith,
}
use mathlib.Core.List.{foldl}
use rabbitmq_stream_rust_cli.Codec.Outcome.{Decode, pure}
use rabbitmq_stream_rust_cli.Codec.Emit.{emit_each, ◌⊕◌, ⊕_assoc}
use rabbitmq_stream_rust_cli.Codec.ByteOrder.{ByteOrder}
use rabbitmq_stream_rust_cli.Codec.Laws.{Codes, Codes-bind, Codes-last, Codes-resize}
use rabbitmq_stream_rust_cli.Codec.Ints.{u32_mod, ◌⊞◌}
use rabbitmq_stream_rust_cli.Codec.Vectors.Laws.{total}
use rabbitmq_stream_rust_cli.Amqp.TypeCode.{TypeCode, map_second}
use rabbitmq_stream_rust_cli.Amqp.TypeCode.Laws.{
  Tag, coded, tagged-Codes, peek-Codes, map_second-Codes,
}
use rabbitmq_stream_rust_cli.Amqp.Errors.{Descriptor, Target, Externals}
use rabbitmq_stream_rust_cli.Amqp.Numbers.{is_wide_int, is_wide_long}
use rabbitmq_stream_rust_cli.Amqp.Simple.{SimpleValue, simple_size, decode_simple}
use rabbitmq_stream_rust_cli.Amqp.Simple.Laws.{IsSimple, IsSimpleCode, simple-Codes, simple-Tag}
use rabbitmq_stream_rust_cli.Amqp.Keys.{descriptor_size}
use rabbitmq_stream_rust_cli.Amqp.Keys.Laws.{IsDescriptor, descriptor-Codes}
use rabbitmq_stream_rust_cli.Amqp.Collections.{
  Entries, pair_size, pair_emit, decode_list, encode_map,
}
use rabbitmq_stream_rust_cli.Amqp.Collections.Filling.{
  Codes-same, Elements, Entry, DistinctKeys, pair_len,
}
use rabbitmq_stream_rust_cli.Amqp.Collections.Laws.{
  list_header-Tag, map_header-Tag, list-Codes, map-Codes,
}
use rabbitmq_stream_rust_cli.Amqp.Value.{
  Value, Values, Fields, simple, collection, described, describe, list, map, nil, cons, end, field,
  values_of, fields_of, count_values, count_fields, value_size, values_size, fields_size,
  is_hashable, value_eq, value_key, encode_value, encode_values, encode_fields, encode_collection,
  described_value_of, decode_described, collection_of, decode_collection, value_of, decode_value,
  collection_value_size,
}
use rabbitmq_stream_rust_cli.Amqp.Value.Termination.{decode_value-step, value-Shrinks}

simple_size-lt : ⦃x : Externals⦄ (v : SimpleValue) → simple_size v < u32_mod
simple_size-lt SimpleValue.null = omega arith
simple_size-lt (SimpleValue.uint v) = elim (Bool-cases (v == 0)) [
  | inl z ↦ rw z (omega arith)
  | inr z ↦ elim (Bool-cases (ltb 255 v)) [
    | inl w ↦ rw (z, w) (omega arith)
    | inr w ↦ rw (z, w) (omega arith)
  ]
]
simple_size-lt (SimpleValue.ulong v) = elim (Bool-cases (v == 0)) [
  | inl z ↦ rw z (omega arith)
  | inr z ↦ elim (Bool-cases (ltb 255 v)) [
    | inl w ↦ rw (z, w) (omega arith)
    | inr w ↦ rw (z, w) (omega arith)
  ]
]
simple_size-lt (SimpleValue.int v) = elim (Bool-cases (is_wide_int v)) [
  | inl w ↦ rw w (omega arith)
  | inr w ↦ rw w (omega arith)
]
simple_size-lt (SimpleValue.long v) = elim (Bool-cases (is_wide_long v)) [
  | inl w ↦ rw w (omega arith)
  | inr w ↦ rw w (omega arith)
]
simple_size-lt v = omega arith

module _ ⦃x : Externals⦄ where
  pub value_size-lt : (v : Value) → value_size v < u32_mod
  unfolding value_size
  value_size-lt (simple v) = simple_size-lt v
  value_size-lt (collection (list vs)) = omega arith
  value_size-lt (collection (map m)) = omega arith
  value_size-lt (described (describe d v)) = omega arith

  unfoldable pub list_from : Values → List Value
  list_from nil = []
  list_from (cons v vs) = v ∷ list_from vs

  unfoldable pub entries_from : Fields → Entries Value Value
  entries_from end = []
  entries_from (field k v m) = (k, v) ∷ entries_from m

  values_of-list_from : (vs : Values) → values_of (list_from vs) ≡ vs
  unfolding values_of list_from
  values_of-list_from nil = refl
  values_of-list_from (cons v vs) = rw (values_of-list_from vs)

  fields_of-entries_from : (m : Fields) → fields_of (entries_from m) ≡ m
  unfolding fields_of entries_from
  fields_of-entries_from end = refl
  fields_of-entries_from (field k v m) = rw (fields_of-entries_from m)

  count_values-eq-length : (vs : Values) → count_values vs ≡ length (list_from vs)
  unfolding list_from
  count_values-eq-length nil = refl
  count_values-eq-length (cons v vs) = ap suc (count_values-eq-length vs)

  count_fields-eq-length : (m : Fields) → count_fields m ≡ length (entries_from m)
  unfolding entries_from
  count_fields-eq-length end = refl
  count_fields-eq-length (field k v m) = ap suc (count_fields-eq-length m)

  values_size-eq-fold :
      (acc : ℕ) (vs : Values)
      → values_size acc vs ≡ foldl (λ n v. n ⊞ value_size v) acc (list_from vs)
  unfolding values_size list_from
  values_size-eq-fold acc nil = refl
  values_size-eq-fold acc (cons v vs) = values_size-eq-fold (acc ⊞ value_size v) vs

  fields_size-eq-fold :
      (acc : ℕ) (m : Fields)
      → fields_size acc m
        ≡ foldl (λ n e. n ⊞ pair_size value_size value_size e) acc (entries_from m)
  unfolding fields_size entries_from
  fields_size-eq-fold acc end = refl
  fields_size-eq-fold acc (field k v m) =
      let same : acc ⊞ value_size k ⊞ value_size v ≡ acc ⊞ (value_size k ⊞ value_size v) =
        omega arith in
      ap (λ n. fields_size n m) same ∙ fields_size-eq-fold (acc ⊞ (value_size k ⊞ value_size v)) m

  -- The values that the codec keeps: simple values that it keeps, lists of at most 254 bytes of them,
  -- maps with different keys that hold no map, and described values.
  unfoldable mutual
    pub IsValue : Value → Type 0
    IsValue (simple v) = IsSimple v
    IsValue (collection (list vs)) = (total value_size (list_from vs) ≤ 254) × AreValues vs
    IsValue (collection (map m)) =
        (total (pair_len value_size value_size) (entries_from m) < u32_mod - 9)
        × DistinctKeys value_eq (entries_from m)
        × AreFields m
    IsValue (described (describe d v)) =
        (1 + descriptor_size d + value_size v < u32_mod) × IsDescriptor d × IsValue v

    pub AreValues : Values → Type 0
    AreValues nil = Unit
    AreValues (cons v vs) = IsValue v × AreValues vs

    pub AreFields : Fields → Type 0
    AreFields end = Unit
    AreFields (field k v m) = (is_hashable k ≡ true) × IsValue k × IsValue v × AreFields m

module _ ⦃b : ByteOrder⦄ ⦃x : Externals⦄ where
  encode_values-eq-emit : (vs : Values) → encode_values vs ≡ emit_each encode_value (list_from vs)
  unfolding encode_values list_from emit_each
  encode_values-eq-emit nil = refl
  encode_values-eq-emit (cons v vs) = ap (λ e. encode_value v ⊕ e) (encode_values-eq-emit vs)

  encode_fields-eq-emit :
      (m : Fields)
      → encode_fields m ≡ emit_each (pair_emit encode_value encode_value) (entries_from m)
  unfolding encode_fields entries_from emit_each
  encode_fields-eq-emit end = refl
  encode_fields-eq-emit (field k v m) =
      rw (⊕_assoc, ap (λ e. encode_value k ⊕ encode_value v ⊕ e) (encode_fields-eq-emit m)) refl

  as_value :
      (d : Decode Value) (v : Value)
      → Tag (λ c. value_of decode_value c ≡ d) (encode_value v)
      → Codes d (encode_value v) (value_size v) v
      → Codes decode_value (encode_value v) (value_size v) v
  as_value d v t h =
      Codes-same decode_value decode_value-step (peek-Codes (value_of decode_value) d t h)

  simple_picked :
      (c : TypeCode) → IsSimpleCode c → value_of decode_value c ≡ map_second simple decode_simple
  simple_picked c =
      elim c as (λ c. IsSimpleCode c → value_of decode_value c ≡ map_second simple decode_simple) [
        | TypeCode.described ↦ λ h. absurd h
        | TypeCode.list0 ↦ λ h. absurd h
        | TypeCode.list8 ↦ λ h. absurd h
        | TypeCode.list32 ↦ λ h. absurd h
        | TypeCode.map8 ↦ λ h. absurd h
        | TypeCode.map32 ↦ λ h. absurd h
        | TypeCode.array8 ↦ λ h. absurd h
        | TypeCode.array32 ↦ λ h. absurd h
        | _ ↦ λ h. refl
      ]

  abbrev ValueCodes : Value → Type 0
  ValueCodes v = Codes decode_value (encode_value v) (value_size v) v

  -- A list from its elements, whatever is made of it.
  values-Codes :
      {C : Type 0} (wrap : Values → C) (vs : Values)
      → total value_size (list_from vs) ≤ 254
      → Elements decode_value encode_value value_size (list_from vs)
      → Codes
          (map_second (λ ws. wrap (values_of ws)) (decode_list decode_value))
          (encode_collection (list vs))
          (collection_value_size (list vs))
          (wrap vs)
  unfolding encode_value value_size
  values-Codes wrap vs few h =
      let inner =
        list-Codes decode_value encode_value value_size value_size-lt value-Shrinks (list_from vs)
          few h in
      let back = map_second-Codes (λ ws. wrap (values_of ws)) inner in
      rw
        (
          values_of-list_from vs,
          ← encode_values-eq-emit vs,
          ← count_values-eq-length vs,
          ← values_size-eq-fold 0 vs,
        )
        at back

  list_value-Codes :
      (vs : Values)
      → total value_size (list_from vs) ≤ 254
      → Elements decode_value encode_value value_size (list_from vs)
      → ValueCodes (collection (list vs))
  unfolding encode_value value_size decode_collection
  list_value-Codes vs few h =
      as_value (map_second collection (decode_collection decode_value)) (collection (list vs))
        (list_header-Tag _ _ _ _ refl)
        (map_second-Codes collection (
          peek-Codes (collection_of decode_value) _ (list_header-Tag _ _ _ _ refl)
            (values-Codes list vs few h)))

  map_value-Codes :
      (m : Fields)
      → total (pair_len value_size value_size) (entries_from m) < u32_mod - 9
      → DistinctKeys value_eq (entries_from m)
      → All
          (Entry value_key decode_value decode_value encode_value encode_value value_size
            value_size)
          (entries_from m)
      → ValueCodes (collection (map m))
  unfolding encode_value value_size decode_collection value_key encode_map
  map_value-Codes m few distinct h =
      let inner =
        map-Codes (Target.map Target.value Target.value) value_key decode_value decode_value
          encode_value encode_value value_size value_size value-Shrinks value-Shrinks
          (entries_from m) few h distinct in
      let back = map_second-Codes (λ es. map (fields_of es)) inner in
      let items =
        rw
          (
            fields_of-entries_from m,
            ← encode_fields-eq-emit m,
            ← count_fields-eq-length m,
            ← fields_size-eq-fold 0 m,
          )
          at back in
      as_value (map_second collection (decode_collection decode_value)) (collection (map m))
        (map_header-Tag _ _ _ _ refl refl)
        (map_second-Codes collection
          (peek-Codes (collection_of decode_value) _ (map_header-Tag _ _ _ _ refl refl) items))

  described_value-Codes :
      (d : Descriptor) (v : Value)
      → 1 + descriptor_size d + value_size v < u32_mod
      → IsDescriptor d
      → ValueCodes v
      → ValueCodes (described (describe d v))
  unfolding encode_value value_size decode_described pure
  described_value-Codes d v few hd hv =
      as_value (map_second described (decode_described decode_value)) (described (describe d v))
        (coded _ _ _ refl)
        (Codes-resize
          (map_second-Codes described (
            tagged-Codes (described_value_of decode_value) TypeCode.described
              (Codes-bind _ (descriptor-Codes d hd) (Codes-last _ hv (λ rest. refl)))))
          (omega arith))

  mutual
    unfolding IsValue value_size encode_value list_from entries_from value_key

    decode_value_lem :
        (v : Value) → IsValue v → Codes decode_value (encode_value v) (value_size v) v
    decode_value_lem (simple v) h =
        as_value (map_second simple decode_simple) (simple v) (simple-Tag _ simple_picked v)
          (map_second-Codes simple (simple-Codes v h))
    decode_value_lem (collection (list vs)) h = list_value-Codes vs h.0 (values-Elements vs h.1)
    decode_value_lem (collection (map m)) h = map_value-Codes m h.0 h.1 (fields-Entries m h.2)
    decode_value_lem (described (describe d v)) h =
        described_value-Codes d v h.0 h.1 (decode_value_lem v h.2)

    values-Elements :
        (vs : Values) → AreValues vs → Elements decode_value encode_value value_size (list_from vs)
    values-Elements nil h = tt
    values-Elements (cons v vs) h = (decode_value_lem v h.0, values-Elements vs h.1)

    fields-Entries :
        (m : Fields)
        → AreFields m
        → All
            (Entry value_key decode_value decode_value encode_value encode_value value_size
              value_size)
            (entries_from m)
    fields-Entries end h = tt
    fields-Entries (field k v m) h =
        ((h.0, decode_value_lem k h.1, decode_value_lem v h.2), fields-Entries m h.3)

  -- A value is written without an error in as many bytes as it declares, and reads back as itself,
  -- whatever follows it, provided that its numbers fit their Rust types, it holds no i32 from -128
  -- to -1 and no i64 from -128 to 127, its lists take at most 254 bytes, its maps take less than
  -- 2^32 - 9 bytes and have different keys that hold no map, its described values take less than
  -- 2^32 bytes, its texts are UTF-8 and like its binaries shorter than 2^32 - 6 bytes, its
  -- characters are characters of Unicode, and its times are made of whole milliseconds.
  pub value-Codes : (v : Value) → IsValue v → Codes decode_value (encode_value v) (value_size v) v
  value-Codes = decode_value_lem

  -- The same for a list by itself.
  pub sequence-Codes :
      {C : Type 0} (wrap : Values → C) (vs : Values)
      → IsValue (collection (list vs))
      → Codes
          (map_second (λ ws. wrap (values_of ws)) (decode_list decode_value))
          (encode_collection (list vs))
          (collection_value_size (list vs))
          (wrap vs)
  unfolding IsValue
  sequence-Codes wrap vs h = values-Codes wrap vs h.0 (values-Elements vs h.1)
