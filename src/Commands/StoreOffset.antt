-- ===== src/Commands/StoreOffset.antt =====
-- `StoreOffset` of protocol/src/commands/store_offset.rs.
use rabbitmq_stream_rust_cli.Prelude.{
  ℕ, ◌+◌, ◌%◌, ◌≤◌, ◌<◌, true, false, ◌≡◌, refl, Option, some, none, [], ltb, if◌then◌else◌,
  Bool-cases, inl, inr, length, arith,
}
use rabbitmq_stream_rust_cli.Codec.Outcome.{
  Decode, pure, fail, mismatch_size, empty, max_size_error, ◌>>=◌,
}
use rabbitmq_stream_rust_cli.Codec.Emit.{Emit, failed, ◌⊕◌}
use rabbitmq_stream_rust_cli.Codec.ByteOrder.{ByteOrder}
use rabbitmq_stream_rust_cli.Codec.Laws.{Codes, Codes-bind, Codes-last}
use rabbitmq_stream_rust_cli.Codec.Local.{IsLocal, local_rules}
use rabbitmq_stream_rust_cli.Codec.Ints.{u32_mod, u64_mod, ◌⊞◌, u64_size, read_u64, encode_u64}
use rabbitmq_stream_rust_cli.Codec.Ints.Laws.{u64-Codes, int_local_rules}
use rabbitmq_stream_rust_cli.Codec.Strings.{Str, str_size, IsText, decode_string, encode_str}
use rabbitmq_stream_rust_cli.Codec.Strings.Laws.{str-Codes, decode_string-IsLocal}
use rabbitmq_stream_rust_cli.Codec.Vectors.Laws.{str_len}

pub record StoreOffset : Type 0 where
  pub reference : Str
  pub stream : Str
  pub offset : ℕ

-- The values of the fields' Rust types, with texts as `IsText` has them.
pub record IsValid (c : StoreOffset) : Type 0 where
  pub reference : IsText c.reference
  pub short : length c.reference < 256
  pub stream : IsText c.stream
  pub offset : c.offset < u64_mod

-- `StoreOffset::encoded_size`
unfoldable pub encoded_size : StoreOffset → ℕ
encoded_size c = str_size c.reference ⊞ str_size c.stream ⊞ u64_size c.offset

-- The number of bytes that a `StoreOffset` is written in.
abbrev pub wire_len : StoreOffset → ℕ
wire_len c = str_len c.reference + (str_len c.stream + 8)

-- The declared size is the true one, cut to 32 bits.
pub encoded_size-eq-wire_len : (c : StoreOffset) → encoded_size c ≡ wire_len c % u32_mod
unfolding encoded_size
encoded_size-eq-wire_len c = omega arith

module _ ⦃b : ByteOrder⦄ where
  -- `StoreOffset::encode`: a long reference is refused before anything is written.
  unfoldable pub encode : StoreOffset → Emit
  encode c =
      if ltb (length c.reference) 256
      then encode_str c.reference ⊕ encode_str c.stream ⊕ encode_u64 c.offset
      else failed [] (max_size_error (length c.reference))

  unfoldable pub decode_offset : Str → Str → Decode StoreOffset
  decode_offset reference stream =
      if ltb (length reference) 256
      then (do
        offset ← read_u64
        pure (record { reference = reference; stream = stream; offset = offset }))
      else fail (mismatch_size (length reference))

  unfoldable pub decode_rest : Option Str → Option Str → Decode StoreOffset
  unfolding decode_offset
  decode_rest (some reference) (some stream) = decode_offset reference stream
  decode_rest (some reference) none = fail empty
  decode_rest none opt_stream = fail empty

  -- `StoreOffset::decode`
  unfoldable pub decode : Decode StoreOffset
  unfolding decode_rest
  decode = do
    opt_reference ← decode_string
    opt_stream ← decode_string
    decode_rest opt_reference opt_stream

  -- A valid `StoreOffset` reads back as itself, and the rest of the input is left.
  pub decode-Codes : (c : StoreOffset) → IsValid c → Codes decode (encode c) (wire_len c) c
  unfolding decode encode pure
  decode-Codes c h =
      let fits : ltb (length c.reference) 256 ≡ true = ground (arith, h.short) in
      rw fits (
        Codes-bind _ (str-Codes c.reference h.reference) (
          Codes-bind _ (str-Codes c.stream h.stream)
            (rw fits (Codes-last _ (u64-Codes c.offset h.offset) (λ rest. refl)))))

  -- A reference of 256 bytes or more is never sent: the encoder fails and writes nothing.
  pub encode_long :
      (c : StoreOffset)
      → 256 ≤ length c.reference
      → encode c ≡ failed [] (max_size_error (length c.reference))
  unfolding encode
  encode_long c h = let long : ltb (length c.reference) 256 ≡ false = ground arith in rw long

  offset-IsLocal : (r s : Str) → IsLocal (decode_offset r s)
  unfolding decode_offset
  offset-IsLocal r s = elim (Bool-cases (ltb (length r) 256)) [
    | inl short ↦ rw short (search (local_rules, int_local_rules) depth 10)
    | inr long ↦ rw long (search local_rules)
  ]

  rest-IsLocal : (o p : Option Str) → IsLocal (decode_rest o p)
  unfolding decode_rest
  rest-IsLocal (some r) (some s) = offset-IsLocal r s
  rest-IsLocal (some r) none = search local_rules
  rest-IsLocal none p = search local_rules

  pub decode-IsLocal : IsLocal decode
  unfolding decode
  decode-IsLocal = search (local_rules, decode_string-IsLocal, rest-IsLocal) depth 10
