-- ===== src/Commands/ExchangeCommandVersion.antt =====
-- `ExchangeCommandVersion` of protocol/src/commands/exchange_command_versions.rs, and its vectors.
use rabbitmq_stream_rust_cli.Prelude.{ℕ, ◌+◌, ◌%◌, ◌^◌, ◌<◌, ◌≡◌, refl, List, length, All, arith}
use rabbitmq_stream_rust_cli.Codec.Outcome.{Decode, pure, ◌>>=◌}
use rabbitmq_stream_rust_cli.Codec.Emit.{Emit, emit_each, ◌⊕◌}
use rabbitmq_stream_rust_cli.Codec.ByteOrder.{ByteOrder}
use rabbitmq_stream_rust_cli.Codec.Laws.{Codes, Codes-bind, Codes-last}
use rabbitmq_stream_rust_cli.Codec.Local.{IsLocal, local_rules}
use rabbitmq_stream_rust_cli.Codec.Ints.{
  u16_mod, u32_mod, ◌⊞◌, u16_size, read_u16, encode_u16, encode_u32,
}
use rabbitmq_stream_rust_cli.Codec.Ints.Laws.{u16-Codes, int_local_rules}
use rabbitmq_stream_rust_cli.Codec.Vectors.{vec_size, read_vec}
use rabbitmq_stream_rust_cli.Codec.Vectors.Laws.{
  total, vec_size_lem, read_vec_u32-Codes, read_vec-IsLocal, All-map,
}

pub record ExchangeCommandVersion : Type 0 where
  pub key : ℕ
  pub min_version : ℕ
  pub max_version : ℕ

pub record IsVersion (v : ExchangeCommandVersion) : Type 0 where
  pub key : v.key < u16_mod
  pub min_version : v.min_version < u16_mod
  pub max_version : v.max_version < u16_mod

-- `ExchangeCommandVersion::encoded_size`
abbrev pub version_size : ExchangeCommandVersion → ℕ
version_size v = u16_size v.key ⊞ u16_size v.min_version ⊞ u16_size v.max_version

-- `Vec::<ExchangeCommandVersion>::encoded_size`
abbrev pub versions_size : List ExchangeCommandVersion → ℕ
versions_size vs = vec_size version_size vs

pub versions_size_lem :
    (vs : List ExchangeCommandVersion) → versions_size vs ≡ (4 + total (λ v. 6) vs) % u32_mod
versions_size_lem = vec_size_lem version_size (λ v. 6) (λ v. omega arith)

module _ ⦃b : ByteOrder⦄ where
  unfoldable pub encode_version : ExchangeCommandVersion → Emit
  encode_version v = encode_u16 v.key ⊕ encode_u16 v.min_version ⊕ encode_u16 v.max_version

  unfoldable pub decode_version : Decode ExchangeCommandVersion
  decode_version = do
    key ← read_u16
    min_version ← read_u16
    max_version ← read_u16
    pure (record { key = key; min_version = min_version; max_version = max_version })

  -- `Vec::<ExchangeCommandVersion>::encode`
  unfoldable pub encode_versions : List ExchangeCommandVersion → Emit
  unfolding emit_each
  encode_versions vs = encode_u32 (length vs % u32_mod) ⊕ emit_each encode_version vs

  -- `Vec::<ExchangeCommandVersion>::decode`
  unfoldable pub decode_versions : Decode (List ExchangeCommandVersion)
  unfolding read_vec
  decode_versions = read_vec decode_version

  version-Codes :
      (v : ExchangeCommandVersion) → IsVersion v → Codes decode_version (encode_version v) 6 v
  unfolding decode_version encode_version pure
  version-Codes v h = Codes-bind _ (u16-Codes v.key h.key) (
      Codes-bind _ (u16-Codes v.min_version h.min_version)
        (Codes-last _ (u16-Codes v.max_version h.max_version) (λ rest. refl)))

  pub versions-Codes :
      (vs : List ExchangeCommandVersion)
      → length vs < 2 ^ 31
      → All IsVersion vs
      → Codes decode_versions (encode_versions vs) (4 + total (λ v. 6) vs) vs
  unfolding decode_versions encode_versions
  versions-Codes vs few h =
      read_vec_u32-Codes decode_version encode_version (λ v. 6) vs few (All-map version-Codes vs h)

  version-IsLocal : IsLocal decode_version
  unfolding decode_version
  version-IsLocal = search (local_rules, int_local_rules) depth 10

  pub decode_versions-IsLocal : IsLocal decode_versions
  unfolding decode_versions
  decode_versions-IsLocal = read_vec-IsLocal decode_version version-IsLocal
