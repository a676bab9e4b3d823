-- ===== src/Codec/Maps.antt =====
-- `HashMap<String, String>` of protocol/src/codec. A map is the list of its entries in the order in
-- which it is walked; that order is the only thing that the list tells and the map does not.
pub mod Laws
use rabbitmq_stream_rust_cli.Prelude.{
  ℕ, zero, suc, ◌%◌, Bool, true, false, ◌&&◌, Option, none, some, List, [], ◌∷◌, length, ◌==◌,
  if◌then◌else◌,
}
use rabbitmq_stream_rust_cli.Codec.Outcome.{Decode, pure, ◌>>=◌}
use rabbitmq_stream_rust_cli.Codec.Emit.{Emit, emit_each, ◌⊕◌}
use rabbitmq_stream_rust_cli.Codec.ByteOrder.{ByteOrder}
use rabbitmq_stream_rust_cli.Codec.Ints.{u32_mod, ◌⊞◌, read_u32, encode_u32}
use rabbitmq_stream_rust_cli.Codec.Strings.{Str, decode_string, encode_str, str_size}
use rabbitmq_stream_rust_cli.Codec.Vectors.{vec_size}

unfoldable pub str_eq : Str → Str → Bool
str_eq [] [] = true
str_eq [] (y ∷ ys) = false
str_eq (x ∷ xs) [] = false
str_eq (x ∷ xs) (y ∷ ys) = x == y && str_eq xs ys

abbrev pub HashMap : Type 0 → Type 0
HashMap V = List (Str × V)

module _ {V : Type 0} where
  -- `HashMap::get`
  unfoldable pub lookup : Str → HashMap V → Option V
  lookup k [] = none
  lookup k ((j, v) ∷ m) = if str_eq j k then some v else lookup k m

  -- `HashMap::insert`: a key that is there keeps its place.
  unfoldable pub insert : Str → V → HashMap V → HashMap V
  insert k v [] = (k, v) ∷ []
  insert k v ((j, w) ∷ m) = if str_eq j k then (j, v) ∷ m else (j, w) ∷ insert k v m

abbrev pub StrMap : Type 0
StrMap = HashMap Str

-- `if let (Some(k), Some(v)) = (key, value) { map.insert(k, v); }`
unfoldable pub insert_both : Option Str → Option Str → StrMap → StrMap
unfolding insert
insert_both (some k) (some v) m = insert k v m
insert_both none (some v) m = m
insert_both (some k) none m = m
insert_both none none m = m

abbrev pub entry_size : Str × Str → ℕ
entry_size (k, v) = str_size k ⊞ str_size v

abbrev pub map_size : StrMap → ℕ
map_size m = vec_size entry_size m

module _ ⦃b : ByteOrder⦄ where
  unfoldable pub read_entries : ℕ → StrMap → Decode StrMap
  unfolding insert_both
  read_entries zero m = pure m
  read_entries (suc n) m = do
    key ← decode_string
    value ← decode_string
    read_entries n (insert_both key value m)

  -- `HashMap::<String, String>::decode`
  unfoldable pub decode_map : Decode StrMap
  unfolding read_entries
  decode_map = do n ← read_u32; read_entries n []

  abbrev pub encode_entry : Str × Str → Emit
  encode_entry (k, v) = encode_str k ⊕ encode_str v

  -- `HashMap::<String, String>::encode`
  unfoldable pub encode_map : StrMap → Emit
  unfolding emit_each
  encode_map m = encode_u32 (length m % u32_mod) ⊕ emit_each encode_entry m
