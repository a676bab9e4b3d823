-- ===== src/Commands/Close.antt =====
-- `CloseRequest` of protocol/src/commands/close.rs.
use rabbitmq_stream_rust_cli.Prelude.{ℕ, ◌+◌, ◌%◌, ◌<◌, ◌≡◌, refl, arith}
use rabbitmq_stream_rust_cli.Codec.Outcome.{Decode, pure, unwrap, ◌>>=◌}
use rabbitmq_stream_rust_cli.Codec.Emit.{Emit, ◌⊕◌}
use rabbitmq_stream_rust_cli.Codec.ByteOrder.{ByteOrder}
use rabbitmq_stream_rust_cli.Codec.Laws.{Codes, Codes-bind, Codes-last}
use rabbitmq_stream_rust_cli.Codec.Local.{IsLocal, local_rules}
use rabbitmq_stream_rust_cli.Codec.Ints.{u32_mod, ◌⊞◌, u32_size, read_u32, encode_u32}
use rabbitmq_stream_rust_cli.Codec.Ints.Laws.{u32-Codes, int_local_rules}
use rabbitmq_stream_rust_cli.Codec.Strings.{Str, str_size, IsText, decode_string, encode_str}
use rabbitmq_stream_rust_cli.Codec.Strings.Laws.{str-Codes, decode_string-IsLocal}
use rabbitmq_stream_rust_cli.Codec.Vectors.Laws.{str_len}
use rabbitmq_stream_rust_cli.ResponseCode.{ResponseCode, code_size, decode_code, encode_code}
use rabbitmq_stream_rust_cli.ResponseCode.Laws.{code-Codes, decode_code-IsLocal}

pub record CloseRequest : Type 0 where
  pub correlation_id : ℕ
  pub closing_code : ResponseCode
  pub closing_reason : Str

-- The values of the fields' Rust types, with texts as `IsText` has them.
pub record IsValid (c : CloseRequest) : Type 0 where
  pub correlation_id : c.correlation_id < u32_mod
  pub closing_reason : IsText c.closing_reason

-- `CloseRequest::encoded_size`
unfoldable pub encoded_size : CloseRequest → ℕ
encoded_size c = u32_size c.correlation_id ⊞ code_size c.closing_code ⊞ str_size c.closing_reason

-- The number of bytes that a `CloseRequest` is written in.
abbrev pub wire_len : CloseRequest → ℕ
wire_len c = 4 + (2 + str_len c.closing_reason)

-- The declared size is the true one, cut to 32 bits.
pub encoded_size-eq-wire_len : (c : CloseRequest) → encoded_size c ≡ wire_len c % u32_mod
unfolding encoded_size
encoded_size-eq-wire_len c = omega arith

module _ ⦃b : ByteOrder⦄ where
  -- `CloseRequest::encode`
  unfoldable pub encode : CloseRequest → Emit
  encode c = encode_u32 c.correlation_id ⊕ encode_code c.closing_code ⊕ encode_str c.closing_reason

  -- `CloseRequest::decode`
  unfoldable pub decode : Decode CloseRequest
  decode = do
    correlation_id ← read_u32
    closing_code ← decode_code
    opt_closing_reason ← decode_string
    closing_reason ← unwrap opt_closing_reason
    pure (record {
      correlation_id = correlation_id;
      closing_code = closing_code;
      closing_reason = closing_reason;
    })

  -- A valid `CloseRequest` reads back as itself, and the rest of the input is left.
  pub decode-Codes : (c : CloseRequest) → IsValid c → Codes decode (encode c) (wire_len c) c
  unfolding decode encode ◌>>=◌
  decode-Codes c h = Codes-bind _ (u32-Codes c.correlation_id h.correlation_id) (
      Codes-bind _ (code-Codes c.closing_code)
        (Codes-last _ (str-Codes c.closing_reason h.closing_reason) (λ rest. refl)))

  pub decode-IsLocal : IsLocal decode
  unfolding decode
  decode-IsLocal =
      search (local_rules, int_local_rules, decode_code-IsLocal, decode_string-IsLocal) depth 24
