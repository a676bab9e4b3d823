-- ===== src/Commands/QueryOffset.antt =====
-- `QueryOffsetRequest` of protocol/src/commands/query_offset.rs.
use rabbitmq_stream_rust_cli.Prelude.{
  ℕ, ◌+◌, ◌%◌, ◌≤◌, ◌<◌, true, false, ◌≡◌, refl, Option, some, none, [], ltb, if◌then◌else◌,
  Bool-cases, inl, inr, length, arith,
}
use rabbitmq_stream_rust_cli.Codec.Outcome.{
  Decode, pure, fail, unwrap, mismatch_size, empty, max_size_error, ◌>>=◌,
}
use rabbitmq_stream_rust_cli.Codec.Emit.{Emit, failed, ◌⊕◌}
use rabbitmq_stream_rust_cli.Codec.ByteOrder.{ByteOrder}
use rabbitmq_stream_rust_cli.Codec.Laws.{Codes, Codes-bind, Codes-last}
use rabbitmq_stream_rust_cli.Codec.Local.{IsLocal, local_rules}
use rabbitmq_stream_rust_cli.Codec.Ints.{u32_mod, ◌⊞◌, u32_size, read_u32, encode_u32}
use rabbitmq_stream_rust_cli.Codec.Ints.Laws.{u32-Codes, int_local_rules}
use rabbitmq_stream_rust_cli.Codec.Strings.{Str, str_size, IsText, decode_string, encode_str}
use rabbitmq_stream_rust_cli.Codec.Strings.Laws.{str-Codes, decode_string-IsLocal}
use rabbitmq_stream_rust_cli.Codec.Vectors.Laws.{str_len}

pub record QueryOffsetRequest : Type 0 where
  pub correlation_id : ℕ
  pub reference : Str
  pub stream : Str

-- The values of the fields' Rust types, with texts as `IsText` has them.
pub record IsValid (c : QueryOffsetRequest) : Type 0 where
  pub correlation_id : c.correlation_id < u32_mod
  pub reference : IsText c.reference
  pub short : length c.reference < 256
  pub stream : IsText c.stream

-- `QueryOffsetRequest::encoded_size`
unfoldable pub encoded_size : QueryOffsetRequest → ℕ
encoded_size c = u32_size c.correlation_id ⊞ str_size c.stream ⊞ str_size c.reference

-- The number of bytes that a `QueryOffsetRequest` is written in.
abbrev pub wire_len : QueryOffsetRequest → ℕ
wire_len c = 4 + (str_len c.reference + str_len c.stream)

-- The declared size is the true one, cut to 32 bits.
pub encoded_size-eq-wire_len : (c : QueryOffsetRequest) → encoded_size c ≡ wire_len c % u32_mod
unfolding encoded_size
encoded_size-eq-wire_len c = omega arith

module _ ⦃b : ByteOrder⦄ where
  -- `QueryOffsetRequest::encode`: a long reference is refused before anything is written.
  unfoldable pub encode : QueryOffsetRequest → Emit
  encode c =
      if ltb (length c.reference) 256
      then encode_u32 c.correlation_id ⊕ encode_str c.reference ⊕ encode_str c.stream
      else failed [] (max_size_error (length c.reference))

  unfoldable pub decode_stream : ℕ → Str → Decode QueryOffsetRequest
  decode_stream correlation_id reference =
      if ltb (length reference) 256
      then (do
        opt_stream ← decode_string
        stream ← unwrap opt_stream
        pure (record { correlation_id = correlation_id; reference = reference; stream = stream }))
      else fail (mismatch_size (length reference))

  unfoldable pub decode_rest : ℕ → Option Str → Decode QueryOffsetRequest
  unfolding decode_stream
  decode_rest correlation_id none = fail empty
  decode_rest correlation_id (some reference) = decode_stream correlation_id reference

  -- `QueryOffsetRequest::decode`
  unfoldable pub decode : Decode QueryOffsetRequest
  unfolding decode_rest
  decode = do
    correlation_id ← read_u32
    opt_reference ← decode_string
    decode_rest correlation_id opt_reference

  -- A valid `QueryOffsetRequest` reads back as itself, and the rest of the input is left.
  pub decode-Codes : (c : QueryOffsetRequest) → IsValid c → Codes decode (encode c) (wire_len c) c
  unfolding decode encode ◌>>=◌
  decode-Codes c h =
      let fits : ltb (length c.reference) 256 ≡ true = ground (arith, h.short) in
      rw fits (
        Codes-bind _ (u32-Codes c.correlation_id h.correlation_id) (
          Codes-bind _ (str-Codes c.reference h.reference)
            (rw fits (Codes-last _ (str-Codes c.stream h.stream) (λ rest. refl)))))

  -- A reference of 256 bytes or more is never sent: the encoder fails and writes nothing.
  pub encode_long :
      (c : QueryOffsetRequest)
      → 256 ≤ length c.reference
      → encode c ≡ failed [] (max_size_error (length c.reference))
  unfolding encode
  encode_long c h = let long : ltb (length c.reference) 256 ≡ false = ground arith in rw long

  stream-IsLocal : (n : ℕ) (s : Str) → IsLocal (decode_stream n s)
  unfolding decode_stream
  stream-IsLocal n s = elim (Bool-cases (ltb (length s) 256)) [
    | inl short ↦ rw short (search (local_rules, decode_string-IsLocal) depth 10)
    | inr long ↦ rw long (search local_rules)
  ]

  rest-IsLocal : (n : ℕ) (o : Option Str) → IsLocal (decode_rest n o)
  unfolding decode_rest
  rest-IsLocal n none = search local_rules
  rest-IsLocal n (some s) = stream-IsLocal n s

  pub decode-IsLocal : IsLocal decode
  unfolding decode
  decode-IsLocal =
      search (local_rules, int_local_rules, decode_string-IsLocal, rest-IsLocal) depth 10
