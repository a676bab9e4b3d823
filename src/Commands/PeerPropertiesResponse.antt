-- ===== src/Commands/PeerPropertiesResponse.antt =====
-- `PeerPropertiesResponse` of protocol/src/commands/peer_properties.rs.
use rabbitmq_stream_rust_cli.Codec.Laws.{Codes, Codes-bind, Codes-last}
use rabbitmq_stream_rust_cli.Codec.Emit.{Emit, ◌⊕◌}
use rabbitmq_stream_rust_cli.Prelude.{ℕ, ◌+◌, ◌<◌, refl}
use rabbitmq_stream_rust_cli.Codec.Outcome.{Decode, pure, ◌>>=◌}
use rabbitmq_stream_rust_cli.Codec.ByteOrder.{ByteOrder}
use rabbitmq_stream_rust_cli.Codec.Local.{IsLocal, local_rules}
use rabbitmq_stream_rust_cli.Codec.Ints.{read_u32, u32_mod, encode_u32}
use rabbitmq_stream_rust_cli.Codec.Ints.Laws.{int_local_rules, u32-Codes}
use rabbitmq_stream_rust_cli.Codec.Maps.{StrMap, decode_map, encode_map}
use rabbitmq_stream_rust_cli.Codec.Maps.Laws.{decode_map-IsLocal, IsMap, map_len, map-Codes}
use rabbitmq_stream_rust_cli.ResponseCode.{ResponseCode, decode_code, encode_code}
use rabbitmq_stream_rust_cli.ResponseCode.Laws.{decode_code-IsLocal, code-Codes}

pub record PeerPropertiesResponse : Type 0 where
  pub correlation_id : ℕ
  pub code : ResponseCode
  pub server_properties : StrMap

-- The values of the fields' Rust types, with texts as `IsText` has them.
pub record IsValid (c : PeerPropertiesResponse) : Type 0 where
  pub correlation_id : c.correlation_id < u32_mod
  pub server_properties : IsMap c.server_properties

-- The number of bytes that a `PeerPropertiesResponse` is written in.
abbrev pub wire_len : PeerPropertiesResponse → ℕ
wire_len c = 4 + (2 + map_len c.server_properties)

module _ ⦃b : ByteOrder⦄ where
  -- `PeerPropertiesResponse::encode`, which stands with the tests of the file.
  unfoldable pub encode : PeerPropertiesResponse → Emit
  encode c = encode_u32 c.correlation_id ⊕ encode_code c.code ⊕ encode_map c.server_properties

  -- `PeerPropertiesResponse::decode`
  unfoldable pub decode : Decode PeerPropertiesResponse
  decode = do
    correlation_id ← read_u32
    code ← decode_code
    server_properties ← decode_map
    pure (record {
      correlation_id = correlation_id;
      code = code;
      server_properties = server_properties;
    })

  -- A valid `PeerPropertiesResponse` reads back as itself, and the rest of the input is left.
  pub decode-Codes :
      (c : PeerPropertiesResponse) → IsValid c → Codes decode (encode c) (wire_len c) c
  unfolding decode encode pure
  decode-Codes c h = Codes-bind _ (u32-Codes c.correlation_id h.correlation_id) (
      Codes-bind _ (code-Codes c.code)
        (Codes-last _ (map-Codes c.server_properties h.server_properties) (λ rest. refl)))

  pub decode-IsLocal : IsLocal decode
  unfolding decode
  decode-IsLocal =
      search (local_rules, int_local_rules, decode_code-IsLocal, decode_map-IsLocal) depth 24
