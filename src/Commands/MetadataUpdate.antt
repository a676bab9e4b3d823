-- ===== src/Commands/MetadataUpdate.antt =====
-- `MetadataUpdateCommand` of protocol/src/commands/metadata_update.rs.
use rabbitmq_stream_rust_cli.Prelude.{ℕ, ◌+◌, refl}
use rabbitmq_stream_rust_cli.Codec.Outcome.{Decode, pure, unwrap, ◌>>=◌}
use rabbitmq_stream_rust_cli.Codec.Emit.{Emit, ◌⊕◌}
use rabbitmq_stream_rust_cli.Codec.ByteOrder.{ByteOrder}
use rabbitmq_stream_rust_cli.Codec.Laws.{Codes, Codes-bind, Codes-last}
use rabbitmq_stream_rust_cli.Codec.Local.{IsLocal, local_rules}
use rabbitmq_stream_rust_cli.Codec.Strings.{Str, IsText, decode_string, encode_str}
use rabbitmq_stream_rust_cli.Codec.Strings.Laws.{str-Codes, decode_string-IsLocal}
use rabbitmq_stream_rust_cli.Codec.Vectors.Laws.{str_len}
use rabbitmq_stream_rust_cli.ResponseCode.{ResponseCode, decode_code, encode_code}
use rabbitmq_stream_rust_cli.ResponseCode.Laws.{code-Codes, decode_code-IsLocal}

pub record MetadataUpdateCommand : Type 0 where
  pub code : ResponseCode
  pub stream : Str

-- The values of the fields' Rust types, with texts as `IsText` has them.
pub record IsValid (c : MetadataUpdateCommand) : Type 0 where
  pub stream : IsText c.stream

-- `MetadataUpdateCommand::encoded_size`
unfoldable pub encoded_size : MetadataUpdateCommand → ℕ
encoded_size c = 0

-- The number of bytes that a `MetadataUpdateCommand` is written in.
abbrev pub wire_len : MetadataUpdateCommand → ℕ
wire_len c = 2 + str_len c.stream

module _ ⦃b : ByteOrder⦄ where
  -- `MetadataUpdateCommand::encode`
  unfoldable pub encode : MetadataUpdateCommand → Emit
  encode c = encode_code c.code ⊕ encode_str c.stream

  -- `MetadataUpdateCommand::decode`
  unfoldable pub decode : Decode MetadataUpdateCommand
  decode = do
    code ← decode_code
    opt_stream ← decode_string
    stream ← unwrap opt_stream
    pure (record { code = code; stream = stream })

  -- A valid `MetadataUpdateCommand` reads back as itself, and the rest of the input is left.
  pub decode-Codes :
      (c : MetadataUpdateCommand) → IsValid c → Codes decode (encode c) (wire_len c) c
  unfolding decode encode ◌>>=◌
  decode-Codes c h =
      Codes-bind _ (code-Codes c.code) (Codes-last _ (str-Codes c.stream h.stream) (λ rest. refl))

  pub decode-IsLocal : IsLocal decode
  unfolding decode
  decode-IsLocal = search (local_rules, decode_code-IsLocal, decode_string-IsLocal) depth 24
