-- ===== src/Commands/PeerProperties.antt =====
-- `PeerPropertiesCommand` of protocol/src/commands/peer_properties.rs.
use rabbitmq_stream_rust_cli.Prelude.{ℕ, ◌+◌, ◌%◌, ◌<◌, ◌≡◌, refl, arith}
use rabbitmq_stream_rust_cli.Codec.Outcome.{Decode, pure, ◌>>=◌}
use rabbitmq_stream_rust_cli.Codec.Emit.{Emit, ◌⊕◌}
use rabbitmq_stream_rust_cli.Codec.ByteOrder.{ByteOrder}
use rabbitmq_stream_rust_cli.Codec.Laws.{Codes, Codes-bind, Codes-last}
use rabbitmq_stream_rust_cli.Codec.Local.{IsLocal, local_rules}
use rabbitmq_stream_rust_cli.Codec.Ints.{u32_mod, ◌⊞◌, u32_size, read_u32, encode_u32}
use rabbitmq_stream_rust_cli.Codec.Ints.Laws.{u32-Codes, int_local_rules}
use rabbitmq_stream_rust_cli.Codec.Maps.{StrMap, map_size, decode_map, encode_map}
use rabbitmq_stream_rust_cli.Codec.Maps.Laws.{
  IsMap, map_len, map_size_lem, map-Codes, decode_map-IsLocal,
}

pub record PeerPropertiesCommand : Type 0 where
  pub correlation_id : ℕ
  pub client_properties : StrMap

-- The values of the fields' Rust types, with texts as `IsText` has them.
pub record IsValid (c : PeerPropertiesCommand) : Type 0 where
  pub correlation_id : c.correlation_id < u32_mod
  pub client_properties : IsMap c.client_properties

-- `PeerPropertiesCommand::encoded_size`
unfoldable pub encoded_size : PeerPropertiesCommand → ℕ
encoded_size c = u32_size c.correlation_id ⊞ map_size c.client_properties

-- The number of bytes that a `PeerPropertiesCommand` is written in.
abbrev pub wire_len : PeerPropertiesCommand → ℕ
wire_len c = 4 + map_len c.client_properties

-- The declared size is the true one, cut to 32 bits.
pub encoded_size-eq-wire_len : (c : PeerPropertiesCommand) → encoded_size c ≡ wire_len c % u32_mod
unfolding encoded_size
encoded_size-eq-wire_len c = omega (arith, map_size_lem c.client_properties)

module _ ⦃b : ByteOrder⦄ where
  -- `PeerPropertiesCommand::encode`
  unfoldable pub encode : PeerPropertiesCommand → Emit
  encode c = encode_u32 c.correlation_id ⊕ encode_map c.client_properties

  -- `PeerPropertiesCommand::decode`
  unfoldable pub decode : Decode PeerPropertiesCommand
  decode = do
    correlation_id ← read_u32
    client_properties ← decode_map
    pure (record { correlation_id = correlation_id; client_properties = client_properties })

  -- A valid `PeerPropertiesCommand` reads back as itself, and the rest of the input is left.
  pub decode-Codes :
      (c : PeerPropertiesCommand) → IsValid c → Codes decode (encode c) (wire_len c) c
  unfolding decode encode pure
  decode-Codes c h =
      Codes-bind _ (u32-Codes c.correlation_id h.correlation_id)
        (Codes-last _ (map-Codes c.client_properties h.client_properties) (λ rest. refl))

  pub decode-IsLocal : IsLocal decode
  unfolding decode
  decode-IsLocal = search (local_rules, int_local_rules, decode_map-IsLocal) depth 24
