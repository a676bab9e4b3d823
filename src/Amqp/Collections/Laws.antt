-- ===== src/Amqp/Collections/Laws.antt =====
-- Lists of at most 254 bytes and maps read back as themselves.
use rabbitmq_stream_rust_cli.Prelude.{
  ℕ, suc, ◌+◌, ◌-◌, ◌*◌, ◌%◌, ◌<◌, ◌≤◌, ◌≡◌, refl, ◌∙◌, false, inl, inr, Bool-cases, List, [],
  length, ltb, All, arith,
}
use rabbitmq_stream_rust_cli.Codec.Outcome.{Decode, pure}
use rabbitmq_stream_rust_cli.Codec.Emit.{Emit, emit_each, ◌⊕◌, ⊕_assoc}
use rabbitmq_stream_rust_cli.Codec.ByteOrder.{ByteOrder}
use rabbitmq_stream_rust_cli.Codec.Laws.{Codes, Codes-bind, Codes-resize, Codes-last}
use rabbitmq_stream_rust_cli.Codec.Ints.{u8_mod, u32_mod, ◌⊞◌, encode_u8, encode_u32}
use rabbitmq_stream_rust_cli.Codec.Ints.Laws.{u8-Codes, u32-Codes}
use rabbitmq_stream_rust_cli.Codec.Vectors.{fold_size}
use rabbitmq_stream_rust_cli.Codec.Vectors.Laws.{total, fold_size_lem, repeat-Codes}
use rabbitmq_stream_rust_cli.Codec.Recursion.{Shrinks, Shrinks-Keeps}
use rabbitmq_stream_rust_cli.Amqp.TypeCode
use rabbitmq_stream_rust_cli.Amqp.TypeCode.{TypeCode}
use rabbitmq_stream_rust_cli.Amqp.TypeCode.Laws.{Tag, coded, tagged-Codes}
use rabbitmq_stream_rust_cli.Amqp.Errors.{Target, Externals}
use rabbitmq_stream_rust_cli.Amqp.Collections.{
  Key, Entries, collection_size, encode_list_header, encode_map_header, read_count8, read_count32,
  counted8, counted32, pair_size, map_size, encode_map, list_of, decode_list, map_of, decode_map,
  fields_from, fields_of, decode_with_fields,
}
use rabbitmq_stream_rust_cli.Amqp.Collections.Filling.{
  Elements, length-le-total, pair_len, DistinctKeys, ApartKeys-nil, Entry, entries-le-total,
  fill-Codes,
}

module _ ⦃b : ByteOrder⦄ where
  counted8-Codes :
      {A : Type 0} (k : ℕ → Decode A) (size count : ℕ) {e : Emit} {n : ℕ} {a : A}
      → size < u8_mod
      → count < u8_mod
      → Codes (k count) e n a
      → Codes (counted8 k) ((encode_u8 size ⊕ encode_u8 count) ⊕ e) (2 + n) a
  unfolding counted8 read_count8
  counted8-Codes k size count p q h =
      Codes-bind k (Codes-bind _ (u8-Codes size p) (u8-Codes count q)) h

  counted32-Codes :
      {A : Type 0} (k : ℕ → Decode A) (size count : ℕ) {e : Emit} {n : ℕ} {a : A}
      → size < u32_mod
      → count < u32_mod
      → Codes (k count) e n a
      → Codes (counted32 k) ((encode_u32 size ⊕ encode_u32 count) ⊕ e) (8 + n) a
  unfolding counted32 read_count32
  counted32-Codes k size count p q h =
      Codes-bind k (Codes-bind _ (u32-Codes size p) (u32-Codes count q)) h

  -- A value read field by field: each field, and the last.
  module _ ⦃x : Externals⦄ {T : Type 0} (f : ℕ → T → Decode T) where
    pub field-Codes :
        (idx count : ℕ) {dest next r : T} {e e' : Emit} {n n' : ℕ}
        → Codes (f idx dest) e n next
        → Codes (fields_from f (suc idx) count next) e' n' r
        → Codes (fields_from f idx (suc count) dest) (e ⊕ e') (n + n') r
    unfolding fields_from
    field-Codes idx count p q = Codes-bind _ p q

    pub last_field-Codes :
        (idx : ℕ) {dest r : T} {e : Emit} {n : ℕ}
        → Codes (f idx dest) e n r
        → Codes (fields_from f idx 1 dest) e n r
    unfolding fields_from pure
    last_field-Codes idx p = Codes-last _ p (λ rest. refl)

    pub fields-Codes :
        (dest : T) (size count : ℕ) {r : T} {e : Emit} {n : ℕ}
        → size < u8_mod
        → count < u8_mod
        → Codes (fields_from f 0 count dest) e n r
        → Codes
            (decode_with_fields f dest)
            ((TypeCode.encode TypeCode.list8 ⊕ encode_u8 size ⊕ encode_u8 count) ⊕ e)
            (3 + n)
            r
    unfolding decode_with_fields
    fields-Codes dest size count p q h = rw (⊕_assoc) (
        Codes-resize
          (tagged-Codes (fields_of f dest) TypeCode.list8 (counted8-Codes _ size count p q h))
          (omega arith))

  pub list_header-Tag :
      (P : TypeCode → Type 0) (content len : ℕ) (f : Emit)
      → P TypeCode.list8
      → Tag P (encode_list_header content len ⊕ f)
  unfolding encode_list_header
  list_header-Tag P content len f p = elim (Bool-cases (ltb 255 (content ⊞ 1))) [
    | inl w ↦ rw (w, ⊕_assoc) (coded P _ _ p)
    | inr w ↦ rw (w, ⊕_assoc) (coded P _ _ p)
  ]

  pub map_header-Tag :
      (P : TypeCode → Type 0) (content len : ℕ) (f : Emit)
      → P TypeCode.map8
      → P TypeCode.map32
      → Tag P (encode_map_header content len ⊕ f)
  unfolding encode_map_header
  map_header-Tag P content len f p q = elim (Bool-cases (ltb 255 (content ⊞ 1))) [
    | inl w ↦ rw (w, ⊕_assoc) (coded P _ _ q)
    | inr w ↦ rw (w, ⊕_assoc) (coded P _ _ p)
  ]

  module _ ⦃x : Externals⦄ where
    -- A list whose elements take at most 254 bytes together reads back.
    pub list-Codes :
        {A : Type 0} (d : Decode A) (f : A → Emit) (size : A → ℕ)
        → ((a : A) → size a < u32_mod)
        → Shrinks d
        → (xs : List A) → total size xs ≤ 254
        → Elements d f size xs
        → Codes
            (decode_list d)
            (encode_list_header (fold_size size xs) (length xs) ⊕ emit_each f xs)
            (collection_size (fold_size size xs))
            xs
    unfolding decode_list encode_list_header
    list-Codes d f size small s xs few h =
        let sum : fold_size size xs ≡ total size xs =
          fold_size_lem size size (λ a. omega (arith, small a)) xs ∙ omega arith in
        let count = length-le-total d f size xs s h in
        let narrow : ltb 255 (total size xs ⊞ 1) ≡ false = ground arith in
        let header : (total size xs ⊞ 1) % u8_mod ≡ total size xs + 1 = omega arith in
        let len : length xs % u8_mod ≡ length xs = omega arith in
        rw (sum, narrow, header, len, ⊕_assoc)
          (Codes-resize
            (tagged-Codes (list_of d) TypeCode.list8 (
              (counted8-Codes _ (total size xs + 1) (length xs) (omega arith) (omega arith)
                (repeat-Codes d f size xs h))))
            (omega arith))

    -- A map with distinct keys that can be hashed reads back.
    pub map-Codes :
        {K V : Type 0} (target : Target) (key : Key K) (dk : Decode K) (dv : Decode V)
        (ke : K → Emit) (ve : V → Emit) (ks : K → ℕ) (vs : V → ℕ)
        → Shrinks dk
        → Shrinks dv
        → (m : Entries K V) → total (pair_len ks vs) m < u32_mod - 9
        → All (Entry key dk dv ke ve ks vs) m
        → DistinctKeys key.eq m
        → Codes (decode_map target key dk dv) (encode_map ks vs ke ve m) (map_size ks vs m) m
    unfolding decode_map encode_map encode_map_header
    map-Codes target key dk dv ke ve ks vs sk sv m few h distinct =
        let sum : fold_size (pair_size ks vs) m ≡ total (pair_len ks vs) m =
          fold_size_lem (pair_size ks vs) (pair_len ks vs) (λ e. refl) m ∙ omega arith in
        let count = entries-le-total key dk dv ke ve ks vs m sk sv h in
        let inner =
          fill-Codes key dk dv ke ve ks vs sk (Shrinks-Keeps dv sv) m [] (omega arith) h distinct
            (ApartKeys-nil key.eq m) in
        elim (Bool-cases (ltb 255 (total (pair_len ks vs) m ⊞ 1))) [
          | inl wide ↦
              let header : total (pair_len ks vs) m ⊞ 4 ≡ total (pair_len ks vs) m + 4 =
                omega arith in
              let len : length m * 2 % u32_mod ≡ length m * 2 = omega arith in
              rw (sum, wide, header, len, ⊕_assoc)
                (Codes-resize
                  (tagged-Codes (map_of target key dk dv) TypeCode.map32 (
                    (counted32-Codes _ (total (pair_len ks vs) m + 4) (length m * 2) (omega arith)
                      (omega arith) inner)))
                  (omega arith))
          | inr narrow ↦
              let header : (total (pair_len ks vs) m ⊞ 1) % u8_mod ≡ total (pair_len ks vs) m + 1 =
                ground arith in
              let len : length m * 2 % u8_mod ≡ length m * 2 = ground arith in
              rw (sum, narrow, header, len, ⊕_assoc)
                (Codes-resize
                  (tagged-Codes (map_of target key dk dv) TypeCode.map8 (
                    (counted8-Codes _ (total (pair_len ks vs) m + 1) (length m * 2) (ground arith)
                      (ground arith) inner)))
                  (omega arith))
        ]
