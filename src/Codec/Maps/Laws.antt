-- ===== src/Codec/Maps/Laws.antt =====
-- A map of texts reads back as itself.
use rabbitmq_stream_rust_cli.Prelude.{
  ℕ, zero, suc, ◌+◌, ◌%◌, ◌<◌, ◌≡◌, refl, ap, ◌∙◌, Bool-cases, inl, inr, ==_iff, ◌==◌, true, false,
  some, [], ◌∷◌, ◌++◌, append_assoc, append-nil, length, arith, All, ==_refl,
}
use rabbitmq_stream_rust_cli.Codec.Emit.{emit_each, ⊕_assoc}
use rabbitmq_stream_rust_cli.Codec.ByteOrder.{ByteOrder}
use rabbitmq_stream_rust_cli.Codec.Laws.{Codes, Codes-bind, Codes-nothing, Codes-resize}
use rabbitmq_stream_rust_cli.Codec.Local.{IsLocal, IsLocal-bind, IsLocal-pure}
use rabbitmq_stream_rust_cli.Codec.Ints.{u32_mod}
use rabbitmq_stream_rust_cli.Codec.Ints.Laws.{u32-Codes, read_u32-IsLocal}
use rabbitmq_stream_rust_cli.Codec.Strings.{Str, IsText, decode_string}
use rabbitmq_stream_rust_cli.Codec.Strings.Laws.{str-Codes, decode_string-IsLocal}
use rabbitmq_stream_rust_cli.Codec.Vectors.Laws.{total, str_len, vec_size_lem}
use rabbitmq_stream_rust_cli.Codec.Maps.{
  str_eq, lookup, HashMap, StrMap, insert, insert_both, entry_size, map_size, read_entries,
  decode_map, encode_entry, encode_map,
}

-- No key occurs in the map.
abbrev pub Fresh : {V : Type 0} → Str → HashMap V → Type 0
Fresh k m = All (λ e. str_eq e.0 k ≡ false) m

-- No two entries have one key: what every `HashMap` satisfies.
abbrev pub Distinct : {V : Type 0} → HashMap V → Type 0
Distinct [] = Unit
Distinct ((k, v) ∷ m) = All (λ e. str_eq k e.0 ≡ false) m × Distinct m

abbrev pub IsTextEntry : Str × Str → Type 0
IsTextEntry (k, v) = IsText k × IsText v

-- A map that an encoder can be given: distinct keys, and texts as `IsText` has them.
pub record IsMap (m : StrMap) : Type 0 where
  pub few : length m < u32_mod
  pub distinct : Distinct m
  pub texts : All IsTextEntry m

abbrev pub entry_len : Str × Str → ℕ
entry_len (k, v) = str_len k + str_len v

abbrev pub map_len : StrMap → ℕ
map_len m = 4 + total entry_len m

entry_size_lem : (e : Str × Str) → entry_size e ≡ entry_len e % u32_mod
entry_size_lem (k, v) = omega arith

pub map_size_lem : (m : StrMap) → map_size m ≡ map_len m % u32_mod
map_size_lem m = vec_size_lem entry_size entry_len entry_size_lem m

pub str_eq_refl : (k : Str) → str_eq k k ≡ true
unfolding str_eq
str_eq_refl [] = refl
str_eq_refl (x ∷ xs) = rw (==_refl x) (str_eq_refl xs)

pub str_eq_sound : (j k : Str) → str_eq j k ≡ true → j ≡ k
unfolding str_eq
str_eq_sound [] [] h = refl
str_eq_sound [] (y ∷ ys) h = absurd (cc)
str_eq_sound (x ∷ xs) [] h = absurd (cc)
str_eq_sound (x ∷ xs) (y ∷ ys) h = elim (Bool-cases (x == y)) [
  | inl same ↦ let head = (==_iff x y).0 same in let tail = str_eq_sound xs ys (rw same at h) in cc
  | inr other ↦ absurd (cc (rw other at h))
]

module _ {V : Type 0} where
  pub lookup-insert : (k : Str) (v : V) (m : HashMap V) → lookup k (insert k v m) ≡ some v
  unfolding lookup insert
  lookup-insert k v [] = rw (str_eq_refl k)
  lookup-insert k v ((j, w) ∷ m) = elim (Bool-cases (str_eq j k)) [
    | inl same ↦ rw (same, same)
    | inr other ↦ rw (other, other, lookup-insert k v m)
  ]

  pub lookup-insert_other :
      (k j : Str) (v : V) (m : HashMap V)
      → str_eq k j ≡ false
      → lookup j (insert k v m) ≡ lookup j m
  unfolding lookup insert
  lookup-insert_other k j v [] h = rw h
  lookup-insert_other k j v ((i, w) ∷ m) h = elim (Bool-cases (str_eq i k)) [
    | inl same ↦
        let equal : i ≡ k = str_eq_sound i k same in
        let apart : str_eq i j ≡ false = ap (λ x. str_eq x j) equal ∙ h in rw (same, apart)
    | inr other ↦ rw (other, lookup-insert_other k j v m h)
  ]

insert-Fresh :
    {V : Type 0} (k : Str) (v : V) (m : HashMap V) → Fresh k m → insert k v m ≡ m ++ ((k, v) ∷ [])
unfolding insert
insert-Fresh k v [] h = refl
insert-Fresh k v ((j, w) ∷ m) h = rw h.0 (rw (insert-Fresh k v m h.1))

-- Every entry of `es` has a key that `m` does not hold.
abbrev Apart : StrMap → StrMap → Type 0
Apart m es = All (λ e. Fresh e.0 m) es

Fresh-append :
    (j k : Str) (v : Str) (m : StrMap)
    → Fresh j m
    → str_eq k j ≡ false
    → Fresh j (m ++ ((k, v) ∷ []))
Fresh-append j k v [] h e = (e, tt)
Fresh-append j k v (x ∷ m) h e = (h.0, Fresh-append j k v m h.1 e)

Apart-append :
    (k v : Str) (m es : StrMap)
    → Apart m es
    → All (λ e. str_eq k e.0 ≡ false) es
    → Apart (m ++ ((k, v) ∷ [])) es
Apart-append k v m [] h d = tt
Apart-append k v m ((j, w) ∷ es) h d = (Fresh-append j k v m h.0 d.0, Apart-append k v m es h.1 d.1)

Apart-nil : (es : StrMap) → Apart [] es
Apart-nil [] = tt
Apart-nil (e ∷ es) = (tt, Apart-nil es)

module _ ⦃b : ByteOrder⦄ where
  read_entries-IsLocal : (n : ℕ) (m : StrMap) → IsLocal (read_entries n m)
  unfolding read_entries
  read_entries-IsLocal zero m = IsLocal-pure m
  read_entries-IsLocal (suc n) m = IsLocal-bind decode_string _ decode_string-IsLocal λ k.
      IsLocal-bind decode_string _ decode_string-IsLocal
        λ v. read_entries-IsLocal n (insert_both k v m)

  pub decode_map-IsLocal : IsLocal decode_map
  unfolding decode_map
  decode_map-IsLocal = IsLocal-bind _ _ read_u32-IsLocal (λ n. read_entries-IsLocal n [])

  read_entries-Codes :
      (es m : StrMap)
      → All IsTextEntry es
      → Distinct es
      → Apart m es
      → Codes
          (read_entries (length es) m)
          (emit_each encode_entry es)
          (total entry_len es)
          (m ++ es)
  unfolding read_entries insert_both emit_each
  read_entries-Codes [] m texts distinct apart = rw append-nil (Codes-nothing m)
  read_entries-Codes ((k, v) ∷ es) m texts distinct apart =
      let m' : StrMap = m ++ ((k, v) ∷ []) in
      let added : insert_both (some k) (some v) m ≡ m' = insert-Fresh k v m apart.0 in
      let rest : Codes (read_entries (length es) m') (emit_each encode_entry es)
          (total entry_len es) (m' ++ es) =
        read_entries-Codes es m' texts.1 distinct.1 (Apart-append k v m es apart.1 distinct.0) in
      let step : Codes (read_entries (length es) (insert_both (some k) (some v) m))
          (emit_each encode_entry es) (total entry_len es) (m' ++ es) =
        rw added rest in
      rw (⊕_assoc, ← append_assoc m ((k, v) ∷ []) es)
        (Codes-resize
          (Codes-bind _ (str-Codes k texts.0.0) (Codes-bind _ (str-Codes v texts.0.1) step))
          (omega arith))

  -- A map with fewer than 2^32 entries, distinct keys, and texts that are UTF-8, not empty and
  -- shorter than 2^15 bytes is written without an error in four bytes and the bytes of its entries,
  -- and reads back as the same map, whatever follows it.
  pub map-Codes : (m : StrMap) → IsMap m → Codes decode_map (encode_map m) (map_len m) m
  unfolding decode_map encode_map
  map-Codes m h =
      let small : length m % u32_mod ≡ length m = omega (arith, h.few) in
      Codes-bind _ (u32-Codes (length m % u32_mod) (omega arith))
        (rw small (read_entries-Codes m [] h.texts h.distinct (Apart-nil m)))
