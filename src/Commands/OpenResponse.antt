-- ===== src/Commands/OpenResponse.antt =====
-- `OpenResponse` of protocol/src/commands/open.rs.
use rabbitmq_stream_rust_cli.Prelude.{
  ℕ, ◌+◌, ◌<◌, ◌≡◌, refl, [], true, inl, inr, Bool-cases, if◌then◌else◌,
}
use rabbitmq_stream_rust_cli.Codec.Outcome.{Decode, pure, ◌>>=◌}
use rabbitmq_stream_rust_cli.Codec.Emit.{Emit, ◌⊕◌}
use rabbitmq_stream_rust_cli.Codec.ByteOrder.{ByteOrder}
use rabbitmq_stream_rust_cli.Codec.Laws.{Codes, Codes-bind, Codes-last}
use rabbitmq_stream_rust_cli.Codec.Local.{IsLocal, IsLocal-pure, local_rules}
use rabbitmq_stream_rust_cli.Codec.Ints.{u32_mod, read_u32, encode_u32}
use rabbitmq_stream_rust_cli.Codec.Ints.Laws.{u32-Codes, int_local_rules}
use rabbitmq_stream_rust_cli.Codec.Maps.{StrMap, decode_map, encode_map}
use rabbitmq_stream_rust_cli.Codec.Maps.Laws.{IsMap, map_len, map-Codes, decode_map-IsLocal}
use rabbitmq_stream_rust_cli.ResponseCode.{ResponseCode, is_ok, decode_code, encode_code}
use rabbitmq_stream_rust_cli.ResponseCode.Laws.{code-Codes, decode_code-IsLocal}

pub record OpenResponse : Type 0 where
  pub correlation_id : ℕ
  pub code : ResponseCode
  pub connection_properties : StrMap

-- The values of the fields' Rust types, with texts that are not empty and a positive answer.
pub record IsValid (c : OpenResponse) : Type 0 where
  pub correlation_id : c.correlation_id < u32_mod
  pub code : is_ok c.code ≡ true
  pub connection_properties : IsMap c.connection_properties

-- The number of bytes that a `OpenResponse` is written in.
abbrev pub wire_len : OpenResponse → ℕ
wire_len c = 4 + (2 + map_len c.connection_properties)

module _ ⦃b : ByteOrder⦄ where
  -- `OpenResponse::encode`, which stands with the tests of the file.
  unfoldable pub encode : OpenResponse → Emit
  encode c = encode_u32 c.correlation_id ⊕ encode_code c.code ⊕ encode_map c.connection_properties

  -- Properties follow only a positive answer.
  unfoldable pub decode_properties : ResponseCode → Decode StrMap
  decode_properties code = if is_ok code then decode_map else pure []

  -- `OpenResponse::decode`
  unfoldable pub decode : Decode OpenResponse
  unfolding decode_properties
  decode = do
    correlation_id ← read_u32
    response_code ← decode_code
    connection_properties ← decode_properties response_code
    pure (record {
      correlation_id = correlation_id;
      code = response_code;
      connection_properties = connection_properties;
    })

  -- A valid `OpenResponse` reads back as itself, and the rest of the input is left.
  pub decode-Codes : (c : OpenResponse) → IsValid c → Codes decode (encode c) (wire_len c) c
  unfolding decode encode pure decode_properties
  decode-Codes c h = Codes-bind _ (u32-Codes c.correlation_id h.correlation_id) (
      Codes-bind _ (code-Codes c.code) (
        rw h.code (
          Codes-last _ (map-Codes c.connection_properties h.connection_properties) (λ rest. refl))))

  properties-IsLocal : (c : ResponseCode) → IsLocal (decode_properties c)
  unfolding decode_properties
  properties-IsLocal c = elim (Bool-cases (is_ok c)) [
    | inl good ↦ rw good decode_map-IsLocal
    | inr bad ↦ rw bad (IsLocal-pure [])
  ]

  pub decode-IsLocal : IsLocal decode
  unfolding decode
  decode-IsLocal =
      search (local_rules, int_local_rules, decode_code-IsLocal, properties-IsLocal) depth 10
