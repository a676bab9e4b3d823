-- ===== src/Commands/CreateSuperStream.antt =====
-- `CreateSuperStreamCommand` of protocol/src/commands/create_super_stream.rs.
use rabbitmq_stream_rust_cli.Prelude.{ℕ, ◌+◌, ◌%◌, ◌<◌, ◌≡◌, refl, List, length, All, arith}
use rabbitmq_stream_rust_cli.Codec.Outcome.{Decode, pure, unwrap, ◌>>=◌}
use rabbitmq_stream_rust_cli.Codec.Emit.{Emit, ◌⊕◌}
use rabbitmq_stream_rust_cli.Codec.ByteOrder.{ByteOrder}
use rabbitmq_stream_rust_cli.Codec.Laws.{Codes, Codes-bind, Codes-last}
use rabbitmq_stream_rust_cli.Codec.Local.{IsLocal, local_rules}
use rabbitmq_stream_rust_cli.Codec.Ints.{u32_mod, ◌⊞◌, u32_size, read_u32, encode_u32}
use rabbitmq_stream_rust_cli.Codec.Ints.Laws.{u32-Codes, int_local_rules}
use rabbitmq_stream_rust_cli.Codec.Strings.{Str, str_size, IsText, decode_string, encode_str}
use rabbitmq_stream_rust_cli.Codec.Strings.Laws.{str-Codes, decode_string-IsLocal}
use rabbitmq_stream_rust_cli.Codec.Vectors.{strings_size, decode_strings, encode_strings}
use rabbitmq_stream_rust_cli.Codec.Vectors.Laws.{
  total, str_len, strings_size_lem, strings-Codes, decode_strings-IsLocal,
}
use rabbitmq_stream_rust_cli.Codec.Maps.{StrMap, map_size, decode_map, encode_map}
use rabbitmq_stream_rust_cli.Codec.Maps.Laws.{
  IsMap, map_len, map_size_lem, map-Codes, decode_map-IsLocal,
}

pub record CreateSuperStreamCommand : Type 0 where
  pub correlation_id : ℕ
  pub super_stream_name : Str
  pub partitions : List Str
  pub binding_keys : List Str
  pub args : StrMap

-- The values of the fields' Rust types, with texts as `IsText` has them.
pub record IsValid (c : CreateSuperStreamCommand) : Type 0 where
  pub correlation_id : c.correlation_id < u32_mod
  pub super_stream_name : IsText c.super_stream_name
  pub partitions : (length c.partitions < u32_mod) × All IsText c.partitions
  pub binding_keys : (length c.binding_keys < u32_mod) × All IsText c.binding_keys
  pub args : IsMap c.args

-- `CreateSuperStreamCommand::encoded_size`
unfoldable pub encoded_size : CreateSuperStreamCommand → ℕ
encoded_size c =
    u32_size c.correlation_id
    ⊞ str_size c.super_stream_name
    ⊞ strings_size c.partitions
    ⊞ strings_size c.binding_keys
    ⊞ map_size c.args

-- The number of bytes that a `CreateSuperStreamCommand` is written in.
abbrev pub wire_len : CreateSuperStreamCommand → ℕ
wire_len c =
    4
    + (str_len c.super_stream_name
        + ((4 + total str_len c.partitions)
            + ((4 + total str_len c.binding_keys) + map_len c.args)))

-- The declared size is the true one, cut to 32 bits.
pub encoded_size-eq-wire_len :
    (c : CreateSuperStreamCommand) → encoded_size c ≡ wire_len c % u32_mod
unfolding encoded_size
encoded_size-eq-wire_len c =
    omega
      (arith, strings_size_lem c.partitions, strings_size_lem c.binding_keys, map_size_lem c.args)

module _ ⦃b : ByteOrder⦄ where
  -- `CreateSuperStreamCommand::encode`
  unfoldable pub encode : CreateSuperStreamCommand → Emit
  encode c =
      encode_u32 c.correlation_id
      ⊕ encode_str c.super_stream_name
      ⊕ encode_strings c.partitions
      ⊕ encode_strings c.binding_keys
      ⊕ encode_map c.args

  -- `CreateSuperStreamCommand::decode`
  unfoldable pub decode : Decode CreateSuperStreamCommand
  decode = do
    correlation_id ← read_u32
    opt_super_stream_name ← decode_string
    partitions ← decode_strings
    binding_keys ← decode_strings
    args ← decode_map
    super_stream_name ← unwrap opt_super_stream_name
    pure (record {
      correlation_id = correlation_id;
      super_stream_name = super_stream_name;
      partitions = partitions;
      binding_keys = binding_keys;
      args = args;
    })

  -- A valid `CreateSuperStreamCommand` reads back as itself, and the rest of the input is left.
  pub decode-Codes :
      (c : CreateSuperStreamCommand) → IsValid c → Codes decode (encode c) (wire_len c) c
  unfolding decode encode ◌>>=◌
  decode-Codes c h = Codes-bind _ (u32-Codes c.correlation_id h.correlation_id) (
      Codes-bind _ (str-Codes c.super_stream_name h.super_stream_name) (
        Codes-bind _ (strings-Codes c.partitions h.partitions.0 h.partitions.1) (
          Codes-bind _ (strings-Codes c.binding_keys h.binding_keys.0 h.binding_keys.1)
            (Codes-last _ (map-Codes c.args h.args) (λ rest. refl)))))

  pub decode-IsLocal : IsLocal decode
  unfolding decode
  decode-IsLocal =
      search
        (
          local_rules, int_local_rules, decode_string-IsLocal, decode_strings-IsLocal,
          decode_map-IsLocal,
        )
        depth 24
