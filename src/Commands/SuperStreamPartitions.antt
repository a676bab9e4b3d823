-- ===== src/Commands/SuperStreamPartitions.antt =====
-- `SuperStreamPartitionsRequest` of protocol/src/commands/superstream_partitions.rs.
use rabbitmq_stream_rust_cli.Prelude.{ℕ, ◌+◌, ◌%◌, ◌<◌, ◌≡◌, refl, arith}
use rabbitmq_stream_rust_cli.Codec.Outcome.{Decode, pure, unwrap, ◌>>=◌}
use rabbitmq_stream_rust_cli.Codec.Emit.{Emit, ◌⊕◌}
use rabbitmq_stream_rust_cli.Codec.ByteOrder.{ByteOrder}
use rabbitmq_stream_rust_cli.Codec.Laws.{Codes, Codes-bind, Codes-last}
use rabbitmq_stream_rust_cli.Codec.Local.{IsLocal, local_rules}
use rabbitmq_stream_rust_cli.Codec.Ints.{u32_mod, ◌⊞◌, u32_size, read_u32, encode_u32}
use rabbitmq_stream_rust_cli.Codec.Ints.Laws.{u32-Codes, int_local_rules}
use rabbitmq_stream_rust_cli.Codec.Strings.{Str, str_size, IsText, decode_string, encode_str}
use rabbitmq_stream_rust_cli.Codec.Strings.Laws.{str-Codes, decode_string-IsLocal}
use rabbitmq_stream_rust_cli.Codec.Vectors.Laws.{str_len}

pub record SuperStreamPartitionsRequest : Type 0 where
  pub correlation_id : ℕ
  pub super_stream : Str

-- The values of the fields' Rust types, with texts as `IsText` has them.
pub record IsValid (c : SuperStreamPartitionsRequest) : Type 0 where
  pub correlation_id : c.correlation_id < u32_mod
  pub super_stream : IsText c.super_stream

-- `SuperStreamPartitionsRequest::encoded_size`
unfoldable pub encoded_size : SuperStreamPartitionsRequest → ℕ
encoded_size c = u32_size c.correlation_id ⊞ str_size c.super_stream

-- The number of bytes that a `SuperStreamPartitionsRequest` is written in.
abbrev pub wire_len : SuperStreamPartitionsRequest → ℕ
wire_len c = 4 + str_len c.super_stream

-- The declared size is the true one, cut to 32 bits.
pub encoded_size-eq-wire_len :
    (c : SuperStreamPartitionsRequest) → encoded_size c ≡ wire_len c % u32_mod
unfolding encoded_size
encoded_size-eq-wire_len c = omega arith

module _ ⦃b : ByteOrder⦄ where
  -- `SuperStreamPartitionsRequest::encode`
  unfoldable pub encode : SuperStreamPartitionsRequest → Emit
  encode c = encode_u32 c.correlation_id ⊕ encode_str c.super_stream

  -- `SuperStreamPartitionsRequest::decode`
  unfoldable pub decode : Decode SuperStreamPartitionsRequest
  decode = do
    correlation_id ← read_u32
    opt_super_stream ← decode_string
    super_stream ← unwrap opt_super_stream
    pure (record { correlation_id = correlation_id; super_stream = super_stream })

  -- A valid `SuperStreamPartitionsRequest` reads back as itself, and the rest of the input is left.
  pub decode-Codes :
      (c : SuperStreamPartitionsRequest) → IsValid c → Codes decode (encode c) (wire_len c) c
  unfolding decode encode ◌>>=◌
  decode-Codes c h =
      Codes-bind _ (u32-Codes c.correlation_id h.correlation_id)
        (Codes-last _ (str-Codes c.super_stream h.super_stream) (λ rest. refl))

  pub decode-IsLocal : IsLocal decode
  unfolding decode
  decode-IsLocal = search (local_rules, int_local_rules, decode_string-IsLocal) depth 24
