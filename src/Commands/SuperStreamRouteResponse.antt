-- ===== src/Commands/SuperStreamRouteResponse.antt =====
-- `SuperStreamRouteResponse` of protocol/src/commands/superstream_route.rs.
use rabbitmq_stream_rust_cli.Prelude.{ℕ, ◌+◌, ◌%◌, ◌<◌, ◌≡◌, refl, List, length, All, arith}
use rabbitmq_stream_rust_cli.Codec.Outcome.{Decode, pure, ◌>>=◌}
use rabbitmq_stream_rust_cli.Codec.Emit.{Emit, ◌⊕◌}
use rabbitmq_stream_rust_cli.Codec.ByteOrder.{ByteOrder}
use rabbitmq_stream_rust_cli.Codec.Laws.{Codes, Codes-bind, Codes-last}
use rabbitmq_stream_rust_cli.Codec.Local.{IsLocal, local_rules}
use rabbitmq_stream_rust_cli.Codec.Ints.{u32_mod, ◌⊞◌, u32_size, read_u32, encode_u32}
use rabbitmq_stream_rust_cli.Codec.Ints.Laws.{u32-Codes, int_local_rules}
use rabbitmq_stream_rust_cli.Codec.Strings.{Str, IsText}
use rabbitmq_stream_rust_cli.Codec.Vectors.{strings_size, decode_strings, encode_strings}
use rabbitmq_stream_rust_cli.Codec.Vectors.Laws.{
  total, str_len, strings_size_lem, strings-Codes, decode_strings-IsLocal,
}
use rabbitmq_stream_rust_cli.ResponseCode.{ResponseCode, code_size, decode_code, encode_code}
use rabbitmq_stream_rust_cli.ResponseCode.Laws.{code-Codes, decode_code-IsLocal}

pub record SuperStreamRouteResponse : Type 0 where
  pub correlation_id : ℕ
  pub response_code : ResponseCode
  pub streams : List Str

-- The values of the fields' Rust types, with texts as `IsText` has them.
pub record IsValid (c : SuperStreamRouteResponse) : Type 0 where
  pub correlation_id : c.correlation_id < u32_mod
  pub streams : (length c.streams < u32_mod) × All IsText c.streams

-- `SuperStreamRouteResponse::encoded_size`
unfoldable pub encoded_size : SuperStreamRouteResponse → ℕ
encoded_size c = u32_size c.correlation_id ⊞ strings_size c.streams ⊞ code_size c.response_code

-- The number of bytes that a `SuperStreamRouteResponse` is written in.
abbrev pub wire_len : SuperStreamRouteResponse → ℕ
wire_len c = 4 + (2 + (4 + total str_len c.streams))

-- The declared size is the true one, cut to 32 bits.
pub encoded_size-eq-wire_len :
    (c : SuperStreamRouteResponse) → encoded_size c ≡ wire_len c % u32_mod
unfolding encoded_size
encoded_size-eq-wire_len c = omega (arith, strings_size_lem c.streams)

module _ ⦃b : ByteOrder⦄ where
  -- `SuperStreamRouteResponse::encode`
  unfoldable pub encode : SuperStreamRouteResponse → Emit
  encode c = encode_u32 c.correlation_id ⊕ encode_code c.response_code ⊕ encode_strings c.streams

  -- `SuperStreamRouteResponse::decode`
  unfoldable pub decode : Decode SuperStreamRouteResponse
  decode = do
    correlation_id ← read_u32
    response_code ← decode_code
    streams ← decode_strings
    pure (record {
      correlation_id = correlation_id;
      response_code = response_code;
      streams = streams;
    })

  -- A valid `SuperStreamRouteResponse` reads back as itself, and the rest of the input is left.
  pub decode-Codes :
      (c : SuperStreamRouteResponse) → IsValid c → Codes decode (encode c) (wire_len c) c
  unfolding decode encode pure
  decode-Codes c h = Codes-bind _ (u32-Codes c.correlation_id h.correlation_id) (
      Codes-bind _ (code-Codes c.response_code)
        (Codes-last _ (strings-Codes c.streams h.streams.0 h.streams.1) (λ rest. refl)))

  pub decode-IsLocal : IsLocal decode
  unfolding decode
  decode-IsLocal =
      search (local_rules, int_local_rules, decode_code-IsLocal, decode_strings-IsLocal) depth 24
