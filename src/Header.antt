-- ===== src/Header.antt =====
-- `Header` of protocol/src/types.rs, with its codec in protocol/src/codec.
use Prim.Native.Nat.{bit_and}
use rabbitmq_stream_rust_cli.Prelude.{ℕ, ◌<◌, refl}
use rabbitmq_stream_rust_cli.Codec.Outcome.{Decode, pure, ◌>>=◌}
use rabbitmq_stream_rust_cli.Codec.Emit.{Emit, ◌⊕◌}
use rabbitmq_stream_rust_cli.Codec.ByteOrder.{ByteOrder}
use rabbitmq_stream_rust_cli.Codec.Laws.{Codes, Codes-bind, Codes-last}
use rabbitmq_stream_rust_cli.Codec.Local.{IsLocal, local_rules}
use rabbitmq_stream_rust_cli.Codec.Ints.{u16_mod, ◌⊞◌, read_u16, encode_u16}
use rabbitmq_stream_rust_cli.Codec.Ints.Laws.{u16-Codes, int_local_rules}

pub record Header : Type 0 where
  pub key : ℕ
  pub version : ℕ

-- `extract_response_code`: the top bit of a key marks a response.
abbrev pub extract_response_code : ℕ → ℕ
extract_response_code code = bit_and code 0x7fff

-- `Header::encoded_size`
abbrev pub header_size : ℕ
header_size = 2 ⊞ 2

module _ ⦃b : ByteOrder⦄ where
  -- `Header::encode`
  unfoldable pub encode_header : Header → Emit
  encode_header h = encode_u16 h.key ⊕ encode_u16 h.version

  -- `Header::decode`
  unfoldable pub decode_header : Decode Header
  decode_header = do
    key ← read_u16
    version ← read_u16
    pure (record { key = extract_response_code key; version = version })

  -- A header reads back with the top bit of its key cleared.
  pub header-Codes :
      (h : Header)
      → h.key < u16_mod
      → h.version < u16_mod
      → Codes decode_header (encode_header h) 4 (record h { key = extract_response_code h.key })
  unfolding decode_header encode_header pure
  header-Codes h k v =
      Codes-bind _ (u16-Codes h.key k) (Codes-last _ (u16-Codes h.version v) (λ rest. refl))

  pub decode_header-IsLocal : IsLocal decode_header
  unfolding decode_header
  decode_header-IsLocal = search (local_rules, int_local_rules) depth 10
