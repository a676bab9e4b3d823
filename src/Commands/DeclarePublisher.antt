-- ===== src/Commands/DeclarePublisher.antt =====
-- `DeclarePublisherCommand` of protocol/src/commands/declare_publisher.rs.
use rabbitmq_stream_rust_cli.Prelude.{ℕ, ◌+◌, ◌%◌, ◌<◌, ◌≡◌, refl, Option, arith}
use rabbitmq_stream_rust_cli.Codec.Outcome.{Decode, pure, unwrap, ◌>>=◌}
use rabbitmq_stream_rust_cli.Codec.Emit.{Emit, ◌⊕◌}
use rabbitmq_stream_rust_cli.Codec.ByteOrder.{ByteOrder}
use rabbitmq_stream_rust_cli.Codec.Laws.{Codes, Codes-bind, Codes-last}
use rabbitmq_stream_rust_cli.Codec.Local.{IsLocal, local_rules}
use rabbitmq_stream_rust_cli.Codec.Ints.{
  u8_mod, u32_mod, ◌⊞◌, u8_size, u32_size, read_u8, read_u32, encode_u8, encode_u32,
}
use rabbitmq_stream_rust_cli.Codec.Ints.Laws.{u8-Codes, u32-Codes, int_local_rules}
use rabbitmq_stream_rust_cli.Codec.Strings.{
  Str, str_size, string_size, string_len, IsText, IsOptText, decode_string, encode_str,
  encode_string,
}
use rabbitmq_stream_rust_cli.Codec.Strings.Laws.{
  string_size-eq-string_len, str-Codes, string-Codes, decode_string-IsLocal,
}
use rabbitmq_stream_rust_cli.Codec.Vectors.Laws.{str_len}

pub record DeclarePublisherCommand : Type 0 where
  pub correlation_id : ℕ
  pub publisher_id : ℕ
  pub publisher_reference : Option Str
  pub stream_name : Str

-- The values of the fields' Rust types, with texts as `IsText` has them.
pub record IsValid (c : DeclarePublisherCommand) : Type 0 where
  pub correlation_id : c.correlation_id < u32_mod
  pub publisher_id : c.publisher_id < u8_mod
  pub publisher_reference : IsOptText c.publisher_reference
  pub stream_name : IsText c.stream_name

-- `DeclarePublisherCommand::encoded_size`
unfoldable pub encoded_size : DeclarePublisherCommand → ℕ
encoded_size c =
    u32_size c.correlation_id
    ⊞ u8_size c.publisher_id
    ⊞ string_size c.publisher_reference
    ⊞ str_size c.stream_name

-- The number of bytes that a `DeclarePublisherCommand` is written in.
abbrev pub wire_len : DeclarePublisherCommand → ℕ
wire_len c = 4 + (1 + (string_len c.publisher_reference + str_len c.stream_name))

-- The declared size is the true one, cut to 32 bits.
pub encoded_size-eq-wire_len : (c : DeclarePublisherCommand) → encoded_size c ≡ wire_len c % u32_mod
unfolding encoded_size
encoded_size-eq-wire_len c = omega (arith, string_size-eq-string_len c.publisher_reference)

module _ ⦃b : ByteOrder⦄ where
  -- `DeclarePublisherCommand::encode`
  unfoldable pub encode : DeclarePublisherCommand → Emit
  encode c =
      encode_u32 c.correlation_id
      ⊕ encode_u8 c.publisher_id
      ⊕ encode_string c.publisher_reference
      ⊕ encode_str c.stream_name

  -- `DeclarePublisherCommand::decode`
  unfoldable pub decode : Decode DeclarePublisherCommand
  decode = do
    correlation_id ← read_u32
    publisher_id ← read_u8
    publisher_reference ← decode_string
    opt_stream_name ← decode_string
    stream_name ← unwrap opt_stream_name
    pure (record {
      correlation_id = correlation_id;
      publisher_id = publisher_id;
      publisher_reference = publisher_reference;
      stream_name = stream_name;
    })

  -- A valid `DeclarePublisherCommand` reads back as itself, and the rest of the input is left.
  pub decode-Codes :
      (c : DeclarePublisherCommand) → IsValid c → Codes decode (encode c) (wire_len c) c
  unfolding decode encode ◌>>=◌
  decode-Codes c h = Codes-bind _ (u32-Codes c.correlation_id h.correlation_id) (
      Codes-bind _ (u8-Codes c.publisher_id h.publisher_id) (
        Codes-bind _ (string-Codes c.publisher_reference h.publisher_reference)
          (Codes-last _ (str-Codes c.stream_name h.stream_name) (λ rest. refl))))

  pub decode-IsLocal : IsLocal decode
  unfolding decode
  decode-IsLocal = search (local_rules, int_local_rules, decode_string-IsLocal) depth 24
