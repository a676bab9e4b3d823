-- ===== src/Commands/Delete.antt =====
-- `Delete` of protocol/src/commands/delete.rs.
use rabbitmq_stream_rust_cli.Prelude.{ℕ, ◌+◌, ◌%◌, ◌<◌, ◌≡◌, refl, arith}
use rabbitmq_stream_rust_cli.Codec.Outcome.{Decode, pure, unwrap, ◌>>=◌}
use rabbitmq_stream_rust_cli.Codec.Emit.{Emit, ◌⊕◌}
use rabbitmq_stream_rust_cli.Codec.ByteOrder.{ByteOrder}
use rabbitmq_stream_rust_cli.Codec.Laws.{Codes, Codes-bind, Codes-last}
use rabbitmq_stream_rust_cli.Codec.Local.{IsLocal, local_rules}
use rabbitmq_stream_rust_cli.Codec.Ints.{u32_mod, ◌⊞◌, u32_size, read_u32, encode_u32}
use rabbitmq_stream_rust_cli.Codec.Ints.Laws.{u32-Codes, int_local_rules}
use rabbitmq_stream_rust_cli.Codec.Strings.{Str, str_size, IsText, decode_string, encode_str}
use rabbitmq_stream_rust_cli.Codec.Strings.Laws.{str-Codes, decode_string-IsLocal}
use rabbitmq_stream_rust_cli.Codec.Vectors.Laws.{str_len}

pub record Delete : Type 0 where
  pub correlation_id : ℕ
  pub stream : Str

-- The values of the fields' Rust types, with texts as `IsText` has them.
pub record IsValid (c : Delete) : Type 0 where
  pub correlation_id : c.correlation_id < u32_mod
  pub stream : IsText c.stream

-- `Delete::encoded_size`
unfoldable pub encoded_size : Delete → ℕ
encoded_size c = u32_size c.correlation_id ⊞ str_size c.stream

-- The number of bytes that a `Delete` is written in.
abbrev pub wire_len : Delete → ℕ
wire_len c = 4 + str_len c.stream

-- The declared size is the true one, cut to 32 bits.
pub encoded_size-eq-wire_len : (c : Delete) → encoded_size c ≡ wire_len c % u32_mod
unfolding encoded_size
encoded_size-eq-wire_len c = omega arith

module _ ⦃b : ByteOrder⦄ where
  -- `Delete::encode`
  unfoldable pub encode : Delete → Emit
  encode c = encode_u32 c.correlation_id ⊕ encode_str c.stream

  -- `Delete::decode`
  unfoldable pub decode : Decode Delete
  decode = do
    correlation_id ← read_u32
    opt_stream ← decode_string
    stream ← unwrap opt_stream
    pure (record { correlation_id = correlation_id; stream = stream })

  -- A valid `Delete` reads back as itself, and the rest of the input is left.
  pub decode-Codes : (c : Delete) → IsValid c → Codes decode (encode c) (wire_len c) c
  unfolding decode encode ◌>>=◌
  decode-Codes c h =
      Codes-bind _ (u32-Codes c.correlation_id h.correlation_id)
        (Codes-last _ (str-Codes c.stream h.stream) (λ rest. refl))

  pub decode-IsLocal : IsLocal decode
  unfolding decode
  decode-IsLocal = search (local_rules, int_local_rules, decode_string-IsLocal) depth 24
