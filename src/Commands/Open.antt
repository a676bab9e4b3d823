-- ===== src/Commands/Open.antt =====
-- `OpenCommand` of protocol/src/commands/open.rs.
use rabbitmq_stream_rust_cli.Prelude.{ℕ, ◌+◌, ◌%◌, ◌<◌, ◌≡◌, refl, arith}
use rabbitmq_stream_rust_cli.Codec.Outcome.{Decode, pure, unwrap, ◌>>=◌}
use rabbitmq_stream_rust_cli.Codec.Emit.{Emit, ◌⊕◌}
use rabbitmq_stream_rust_cli.Codec.ByteOrder.{ByteOrder}
use rabbitmq_stream_rust_cli.Codec.Laws.{Codes, Codes-bind, Codes-last}
use rabbitmq_stream_rust_cli.Codec.Local.{IsLocal, local_rules}
use rabbitmq_stream_rust_cli.Codec.Ints.{u32_mod, ◌⊞◌, u32_size, read_u32, encode_u32}
use rabbitmq_stream_rust_cli.Codec.Ints.Laws.{u32-Codes, int_local_rules}
use rabbitmq_stream_rust_cli.Codec.Strings.{Str, str_size, IsText, decode_string, encode_str}
use rabbitmq_stream_rust_cli.Codec.Strings.Laws.{str-Codes, decode_string-IsLocal}
use rabbitmq_stream_rust_cli.Codec.Vectors.Laws.{str_len}

pub record OpenCommand : Type 0 where
  pub correlation_id : ℕ
  pub virtual_host : Str

-- The values of the fields' Rust types, with texts as `IsText` has them.
pub record IsValid (c : OpenCommand) : Type 0 where
  pub correlation_id : c.correlation_id < u32_mod
  pub virtual_host : IsText c.virtual_host

-- `OpenCommand::encoded_size`
unfoldable pub encoded_size : OpenCommand → ℕ
encoded_size c = u32_size c.correlation_id ⊞ str_size c.virtual_host

-- The number of bytes that a `OpenCommand` is written in.
abbrev pub wire_len : OpenCommand → ℕ
wire_len c = 4 + str_len c.virtual_host

-- The declared size is the true one, cut to 32 bits.
pub encoded_size-eq-wire_len : (c : OpenCommand) → encoded_size c ≡ wire_len c % u32_mod
unfolding encoded_size
encoded_size-eq-wire_len c = omega arith

module _ ⦃b : ByteOrder⦄ where
  -- `OpenCommand::encode`
  unfoldable pub encode : OpenCommand → Emit
  encode c = encode_u32 c.correlation_id ⊕ encode_str c.virtual_host

  -- `OpenCommand::decode`
  unfoldable pub decode : Decode OpenCommand
  decode = do
    correlation_id ← read_u32
    opt_virtual_host ← decode_string
    virtual_host ← unwrap opt_virtual_host
    pure (record { correlation_id = correlation_id; virtual_host = virtual_host })

  -- A valid `OpenCommand` reads back as itself, and the rest of the input is left.
  pub decode-Codes : (c : OpenCommand) → IsValid c → Codes decode (encode c) (wire_len c) c
  unfolding decode encode ◌>>=◌
  decode-Codes c h =
      Codes-bind _ (u32-Codes c.correlation_id h.correlation_id)
        (Codes-last _ (str-Codes c.virtual_host h.virtual_host) (λ rest. refl))

  pub decode-IsLocal : IsLocal decode
  unfolding decode
  decode-IsLocal = search (local_rules, int_local_rules, decode_string-IsLocal) depth 24
