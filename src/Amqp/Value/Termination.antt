-- ===== src/Amqp/Value/Termination.antt =====
-- Decoding a value ends on every input: a value inside of a value is decoded from fewer bytes.
use rabbitmq_stream_rust_cli.Prelude.{length, ◌<◌, ℕ, suc, ◌≡◌, List}
use rabbitmq_stream_rust_cli.Codec.Outcome.{Decode}
use rabbitmq_stream_rust_cli.Codec.ByteOrder.{ByteOrder}
use rabbitmq_stream_rust_cli.Codec.Recursion.{
  Keeps, Shrinks, Agree, Recurses, Keeps-bind, Keeps-pure, Shrinks-Keeps, Agree-refl, Agree-bind,
  Agree-shrunk, recursive-Keeps, recursive_step, cut_off, recursive-cut_off,
}
use rabbitmq_stream_rust_cli.Amqp.TypeCode
use rabbitmq_stream_rust_cli.Amqp.TypeCode.{TypeCode, peek, map_second}
use rabbitmq_stream_rust_cli.Amqp.TypeCode.Keeps.{
  code-Shrinks, code_keep_rules, peek-Shrinks, peek-Agree, map_second-Shrinks, invalid_code-Shrinks,
}
use rabbitmq_stream_rust_cli.Amqp.Errors.{Target, Externals}
use rabbitmq_stream_rust_cli.Amqp.Simple.Keeps.{by_code, simple-Shrinks}
use rabbitmq_stream_rust_cli.Amqp.Keys.Keeps.{descriptor-Shrinks}
use rabbitmq_stream_rust_cli.Amqp.Collections.{
  decode_list, decode_map, Filling, Entries, fill, fill_step,
}
use rabbitmq_stream_rust_cli.Amqp.Collections.Keeps.{
  fill_step-Recurses, decode_list-Shrinks, decode_list-Agree, decode_map-Shrinks, decode_map-Agree,
}
use rabbitmq_stream_rust_cli.Amqp.Value.{
  Value, described_value_of, decode_described, collection_of, decode_collection, value_of,
  value_step, decode_value, value_key, simple, described, collection, describe, list, map,
  values_of, fields_of,
}

map_second-Agree :
    {A B : Type 0} (n : ℕ) (f : A → B) (d e : Decode A)
    → Keeps d
    → Agree n d e
    → Agree n (map_second f d) (map_second f e)
unfolding map_second
map_second-Agree n f d e h p = Agree-bind n d e _ _ p h (λ a. Agree-refl n _)

module _ ⦃b : ByteOrder⦄ ⦃x : Externals⦄ where
  module _ (d : Decode Value) (h : Keeps d) where
    described-Shrinks : Shrinks (decode_described d)
    unfolding decode_described
    described-Shrinks = by_code (described_value_of d) λ c.
        elim c as (λ c. Keeps (described_value_of d c)) [
          | TypeCode.described ↦
              Keeps-bind _ _ (Shrinks-Keeps _ descriptor-Shrinks)
                λ descriptor. Keeps-bind _ _ h λ value. Keeps-pure (describe descriptor value)
          | _ ↦ search code_keep_rules
        ]

    collection-Shrinks : Shrinks (decode_collection d)
    unfolding decode_collection
    collection-Shrinks = peek-Shrinks _ (collection_of d) λ c.
        elim c as (λ c. Shrinks (collection_of d c)) [
          | TypeCode.list0 ↦ map_second-Shrinks _ _ (decode_list-Shrinks d h)
          | TypeCode.list8 ↦ map_second-Shrinks _ _ (decode_list-Shrinks d h)
          | TypeCode.list32 ↦ map_second-Shrinks _ _ (decode_list-Shrinks d h)
          | TypeCode.map8 ↦ map_second-Shrinks _ _ (decode_map-Shrinks _ value_key d d h h)
          | TypeCode.map32 ↦ map_second-Shrinks _ _ (decode_map-Shrinks _ value_key d d h h)
          | _ ↦ invalid_code-Shrinks _ _
        ]

    value_of-Shrinks : (c : TypeCode) → Shrinks (value_of d c)
    value_of-Shrinks c = elim c as (λ c. Shrinks (value_of d c)) [
      | TypeCode.described ↦ map_second-Shrinks described _ described-Shrinks
      | TypeCode.list0 ↦ map_second-Shrinks collection _ collection-Shrinks
      | TypeCode.list8 ↦ map_second-Shrinks collection _ collection-Shrinks
      | TypeCode.list32 ↦ map_second-Shrinks collection _ collection-Shrinks
      | TypeCode.map8 ↦ map_second-Shrinks collection _ collection-Shrinks
      | TypeCode.map32 ↦ map_second-Shrinks collection _ collection-Shrinks
      | TypeCode.array8 ↦ map_second-Shrinks collection _ collection-Shrinks
      | TypeCode.array32 ↦ map_second-Shrinks collection _ collection-Shrinks
      | _ ↦ map_second-Shrinks simple _ simple-Shrinks
    ]

  module _ (n : ℕ) (d e : Decode Value) (h : Keeps d) (p : Agree n d e) where
    described-Agree : Agree (suc n) (decode_described d) (decode_described e)
    unfolding decode_described
    described-Agree =
        Agree-shrunk n _ (described_value_of d) (described_value_of e) code-Shrinks λ c.
          elim c as (λ c. Agree n (described_value_of d c) (described_value_of e c)) [
            | TypeCode.described ↦
                Agree-bind n _ _ _ _ (Agree-refl n _) (Shrinks-Keeps _ descriptor-Shrinks)
                  λ descriptor. Agree-bind n d e _ _ p h λ value. Agree-refl n _
            | _ ↦ Agree-refl n _
          ]

    listed :
        Agree
          (suc n)
          (map_second (λ vs. list (values_of vs)) (decode_list d))
          (map_second (λ vs. list (values_of vs)) (decode_list e))
    listed =
        map_second-Agree (suc n) _ _ _ (Shrinks-Keeps _ (decode_list-Shrinks d h))
          (decode_list-Agree n d e h p)

    mapped :
        Agree
          (suc n)
          (map_second
            (λ m. map (fields_of m))
            (decode_map (Target.map Target.value Target.value) value_key d d))
          (map_second
            (λ m. map (fields_of m))
            (decode_map (Target.map Target.value Target.value) value_key e e))
    mapped =
        map_second-Agree (suc n) _ _ _ (Shrinks-Keeps _ (decode_map-Shrinks _ value_key d d h h))
          (decode_map-Agree _ value_key n d e d e h h p p)

    collection-Agree : Agree (suc n) (decode_collection d) (decode_collection e)
    unfolding decode_collection
    collection-Agree = peek-Agree (suc n) _ (collection_of d) (collection_of e) λ c.
        elim c as (λ c. Agree (suc n) (collection_of d c) (collection_of e c)) [
          | TypeCode.list0 ↦ listed
          | TypeCode.list8 ↦ listed
          | TypeCode.list32 ↦ listed
          | TypeCode.map8 ↦ mapped
          | TypeCode.map32 ↦ mapped
          | _ ↦ Agree-refl (suc n) _
        ]

    collected :
        Agree
          (suc n)
          (map_second collection (decode_collection d))
          (map_second collection (decode_collection e))
    collected =
        map_second-Agree (suc n) collection _ _ (Shrinks-Keeps _ (collection-Shrinks d h))
          collection-Agree

    value_of-Agree : (c : TypeCode) → Agree (suc n) (value_of d c) (value_of e c)
    value_of-Agree c = elim c as (λ c. Agree (suc n) (value_of d c) (value_of e c)) [
      | TypeCode.described ↦
          map_second-Agree (suc n) described _ _ (Shrinks-Keeps _ (described-Shrinks d h))
            described-Agree
      | TypeCode.list0 ↦ collected
      | TypeCode.list8 ↦ collected
      | TypeCode.list32 ↦ collected
      | TypeCode.map8 ↦ collected
      | TypeCode.map32 ↦ collected
      | TypeCode.array8 ↦ collected
      | TypeCode.array32 ↦ collected
      | _ ↦ Agree-refl (suc n) _
    ]

  pub value_step-Recurses : Recurses value_step
  unfolding value_step
  value_step-Recurses = record {
    keeps = λ f h u.
        Shrinks-Keeps _ (peek-Shrinks _ (value_of (f tt)) (value_of-Shrinks (f tt) (h tt)));
    needs_less = λ n f g h p u.
        peek-Agree (suc n) _ (value_of (f tt)) (value_of (g tt))
          (value_of-Agree n (f tt) (g tt) (h tt) (p tt));
  }

  -- A type code picks the decoder, and the values inside of a list, a map or a described value are
  -- decoded by the same decoder.
  pub decode_value-step :
      (input : List ℕ) → decode_value input ≡ peek TypeCode.decode (value_of decode_value) input
  unfolding decode_value
  decode_value-step input =
      unfold value_step in recursive_step value_step value_step-Recurses tt input

  pub value-Keeps : Keeps decode_value
  unfolding decode_value
  value-Keeps = recursive-Keeps value_step value_step-Recurses tt

  pub value-Shrinks : Shrinks decode_value
  value-Shrinks = record {
    shrink = λ input rest v h.
        (peek-Shrinks _ (value_of decode_value) (value_of-Shrinks decode_value value-Keeps)).shrink
          input rest v (rw (decode_value-step input) at h);
  }

  -- Decoding a value, and filling a map of values, cut off after more rounds than there are bytes,
  -- gives the same whatever is done at the cut, so that the cut is not reached; and decoding gives
  -- what the code says: a type code picks the decoder, and the values inside of a list, a map or a
  -- described value are decoded by the same decoder.
  pub cut_off-decode_value :
      (out : Unit {0} → Decode Value) (left : Filling Value Value → Decode (Entries Value Value))
      (n : ℕ) (s : Filling Value Value) (input : List ℕ)
      → length input < n
      → (cut_off value_step out n tt input ≡ decode_value input)
        × (cut_off (fill_step value_key decode_value decode_value) left n s input
            ≡ fill value_key decode_value decode_value s input)
        × (decode_value input ≡ peek TypeCode.decode (value_of decode_value) input)
  cut_off-decode_value out left n s input h = (
    unfold decode_value in recursive-cut_off value_step value_step-Recurses out n tt input h,
    unfold fill in
        recursive-cut_off (fill_step value_key decode_value decode_value)
          (fill_step-Recurses value_key decode_value decode_value value-Shrinks value-Keeps) left n
          s input h,
    decode_value-step input,
  )
