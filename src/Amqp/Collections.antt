-- ===== src/Amqp/Collections.antt =====
-- `List` and `Map` of protocol/src/message/amqp/types/primitives/{list,map}.rs, whatever they hold.
-- A map is the list of its entries in the order in which it is walked.
pub mod Keeps
pub mod Filling
pub mod Laws
pub mod Wide
use rabbitmq_stream_rust_cli.Prelude.{
  ℕ, zero, suc, ◌+◌, ◌-◌, ◌*◌, ◌%◌, Bool, true, false, List, [], ◌∷◌, length, ltb, ◌==◌,
  if◌then◌else◌,
}
use rabbitmq_stream_rust_cli.Codec.Outcome.{Decode, pure, crash, ◌>>=◌}
use rabbitmq_stream_rust_cli.Codec.Emit.{Emit, emit_each, ◌⊕◌}
use rabbitmq_stream_rust_cli.Codec.ByteOrder.{ByteOrder}
use rabbitmq_stream_rust_cli.Codec.Ints.{
  u8_mod, u32_mod, ◌⊞◌, read_u8, read_u32, encode_u8, encode_u32,
}
use rabbitmq_stream_rust_cli.Codec.Vectors.{repeat, fold_size}
use rabbitmq_stream_rust_cli.Codec.Recursion.{recursive}
use rabbitmq_stream_rust_cli.Amqp.TypeCode
use rabbitmq_stream_rust_cli.Amqp.TypeCode.{TypeCode}
use rabbitmq_stream_rust_cli.Amqp.Errors.{
  Target, Externals, AmqpDecodeError, ErrorText, fail_with, invalid_code,
}

-- `let header = if content_size + 1 > u8::MAX as u32 { 9 } else { 3 }; header + content_size`
abbrev pub collection_size : ℕ → ℕ
collection_size content = (if ltb 255 (content ⊞ 1) then 9 else 3) ⊞ content

-- What `List::encode` writes in front of the elements: `List8` in both branches.
module _ ⦃b : ByteOrder⦄ where
  unfoldable pub encode_list_header : ℕ → ℕ → Emit
  encode_list_header content len =
      if ltb 255 (content ⊞ 1)
      then TypeCode.encode TypeCode.list8 ⊕ encode_u32 (content ⊞ 4) ⊕ encode_u32 (len % u32_mod)
      else TypeCode.encode TypeCode.list8
        ⊕ encode_u8 ((content ⊞ 1) % u8_mod)
        ⊕ encode_u8 (len % u8_mod)

  -- What `Map::encode` writes in front of the entries, of which there are `len`.
  unfoldable pub encode_map_header : ℕ → ℕ → Emit
  encode_map_header content len =
      let count : ℕ = len * 2 in
      if ltb 255 (content ⊞ 1)
      then TypeCode.encode TypeCode.map32 ⊕ encode_u32 (content ⊞ 4) ⊕ encode_u32 (count % u32_mod)
      else TypeCode.encode TypeCode.map8
        ⊕ encode_u8 ((content ⊞ 1) % u8_mod)
        ⊕ encode_u8 (count % u8_mod)

  -- `let (input, _) = read_u8(input)?; read_u8(input).map_second(u32::from)`, and with `u32`s.
  unfoldable pub read_count8 : Decode ℕ
  read_count8 = do size ← read_u8; read_u8

  unfoldable pub read_count32 : Decode ℕ
  read_count32 = do size ← read_u32; read_u32

  module _ {A : Type 0} where
    -- A collection with the code `c`: none, or one with a short or a long count.
    unfoldable pub counted8 : (ℕ → Decode A) → Decode A
    unfolding read_count8
    counted8 k = do count ← read_count8; k count

    unfoldable pub counted32 : (ℕ → Decode A) → Decode A
    unfolding read_count32
    counted32 k = do count ← read_count32; k count

-- `HashMap::insert`: a key that is there keeps its place.
unfoldable pub insert_with : {K V : Type 0} → (K → K → Bool) → K → V → List (K × V) → List (K × V)
insert_with eq k v [] = (k, v) ∷ []
insert_with eq k v ((j, w) ∷ m) = if eq j k then (j, v) ∷ m else (j, w) ∷ insert_with eq k v m

-- What a map needs of its keys: `derive(PartialEq)`, and whether `Hash::hash` returns.
pub record Key (K : Type 0) : Type 0 where
  pub eq : K → K → Bool
  pub hashable : K → Bool

abbrev pub Entries : Type 0 → Type 0 → Type 0
Entries K V = List (K × V)

-- The state of the loop of `Map::decode`: `count`, and the map so far.
abbrev pub Filling : Type 0 → Type 0 → Type 0
Filling K V = ℕ × Entries K V

module _ {K V : Type 0} where
  -- `map.0.insert(key, value)`, which hashes the key first.
  unfoldable pub insert_entry : Key K → K → V → Entries K V → Decode (Entries K V)
  unfolding insert_with
  insert_entry key k v m = if key.hashable k then pure (insert_with key.eq k v m) else crash

  -- `while count > 0 { count -= 2; … }`. Below two, `count -= 2` wraps.
  unfoldable pub fill_step :
      Key K
      → Decode K
      → Decode V
      → (Filling K V → Decode (Entries K V))
      → Filling K V
      → Decode (Entries K V)
  unfolding insert_entry
  fill_step key dk dv loop (count, m) = if count == 0 then pure m else do
    k ← dk
    v ← dv
    m' ← insert_entry key k v m
    loop ((count + (u32_mod - 2)) % u32_mod, m')

  unfoldable pub fill : Key K → Decode K → Decode V → Filling K V → Decode (Entries K V)
  unfolding fill_step recursive
  fill key dk dv = recursive (fill_step key dk dv)

  abbrev pub pair_size : (K → ℕ) → (V → ℕ) → K × V → ℕ
  pair_size ks vs (k, v) = ks k ⊞ vs v

  abbrev pub pair_emit : (K → Emit) → (V → Emit) → K × V → Emit
  pair_emit ke ve (k, v) = ke k ⊕ ve v

  -- `Map::encoded_size`
  abbrev pub map_size : (K → ℕ) → (V → ℕ) → Entries K V → ℕ
  map_size ks vs m = collection_size (fold_size (pair_size ks vs) m)

module _ ⦃b : ByteOrder⦄ {K V : Type 0} where
  -- `Map::encode`
  unfoldable pub encode_map : (K → ℕ) → (V → ℕ) → (K → Emit) → (V → Emit) → Entries K V → Emit
  unfolding encode_map_header emit_each
  encode_map ks vs ke ve m =
      encode_map_header (fold_size (pair_size ks vs) m) (length m) ⊕ emit_each (pair_emit ke ve) m

module _ ⦃b : ByteOrder⦄ ⦃x : Externals⦄ where
  module _ {A : Type 0} where
    abbrev pub list_of : Decode A → TypeCode → Decode (List A)
    list_of d TypeCode.list0 = pure []
    list_of d TypeCode.list8 = counted8 (λ count. repeat count d)
    list_of d TypeCode.list32 = counted32 (λ count. repeat count d)
    list_of d c = invalid_code Target.list c

    -- `List::decode`
    unfoldable pub decode_list : Decode A → Decode (List A)
    unfolding counted8 counted32 repeat
    decode_list d = do c ← TypeCode.decode; list_of d c

  module _ {T : Type 0} where
    -- `for idx in 0..count { let input1 = f(input, idx, &mut dest)?; input = input1; }`
    unfoldable pub fields_from : (ℕ → T → Decode T) → ℕ → ℕ → T → Decode T
    fields_from f idx zero dest = pure dest
    fields_from f idx (suc n) dest = do dest' ← f idx dest; fields_from f (suc idx) n dest'

    abbrev pub fields_of : (ℕ → T → Decode T) → T → TypeCode → Decode T
    fields_of f dest TypeCode.list0 = pure dest
    fields_of f dest TypeCode.list8 = counted8 (λ count. fields_from f 0 count dest)
    fields_of f dest TypeCode.list32 = counted32 (λ count. fields_from f 0 count dest)
    fields_of f dest c = fail_with (AmqpDecodeError.message_parse (ErrorText.invalid_list_code c))

    -- `List::decode_with_fields`
    unfoldable pub decode_with_fields : (ℕ → T → Decode T) → T → Decode T
    unfolding counted8 counted32 fields_from
    decode_with_fields f dest = do c ← TypeCode.decode; fields_of f dest c

  module _ {K V : Type 0} where
    abbrev pub map_of : Target → Key K → Decode K → Decode V → TypeCode → Decode (Entries K V)
    map_of target key dk dv TypeCode.map8 = counted8 (λ count. fill key dk dv (count, []))
    map_of target key dk dv TypeCode.map32 = counted32 (λ count. fill key dk dv (count, []))
    map_of target key dk dv c = invalid_code target c

    -- `Map::decode`
    unfoldable pub decode_map : Target → Key K → Decode K → Decode V → Decode (Entries K V)
    unfolding counted8 counted32 fill
    decode_map target key dk dv = do c ← TypeCode.decode; map_of target key dk dv c
