-- ===== src/Commands/PublishError.antt =====
-- `PublishingError` of protocol/src/types.rs with its codecs, and `PublishErrorResponse` of
-- protocol/src/commands/publish_error.rs.
use rabbitmq_stream_rust_cli.Prelude.{ℕ, ◌+◌, ◌%◌, ◌<◌, ◌≡◌, refl, List, length, All, arith}
use rabbitmq_stream_rust_cli.Codec.Outcome.{Decode, pure, ◌>>=◌}
use rabbitmq_stream_rust_cli.Codec.Emit.{Emit, done, bytes, ◌⊕◌}
use rabbitmq_stream_rust_cli.Codec.ByteOrder.{ByteOrder}
use rabbitmq_stream_rust_cli.Codec.Laws.{Codes, Codes-bind, Codes-last}
use rabbitmq_stream_rust_cli.Codec.Local.{IsLocal, IsLocal-bind, local_rules}
use rabbitmq_stream_rust_cli.Codec.Ints.{
  u8_mod, u32_mod, u64_mod, ◌⊞◌, u8_size, read_u8, read_u32, read_u64, encode_u8, encode_u64,
}
use rabbitmq_stream_rust_cli.Codec.Ints.Laws.{
  u8-Codes, u32-Codes, u64-Codes, int_local_rules, i32-eq-u32, read_u32-IsLocal,
}
use rabbitmq_stream_rust_cli.Codec.Vectors.{vec_size, encode_vec, repeat}
use rabbitmq_stream_rust_cli.Codec.Vectors.Laws.{
  All-map, repeat-Codes, repeat-IsLocal, total, vec_size_lem,
}
use rabbitmq_stream_rust_cli.ResponseCode.{ResponseCode, decode_code, encode_code}
use rabbitmq_stream_rust_cli.ResponseCode.Laws.{code-Codes, decode_code-IsLocal}

pub record PublishingError : Type 0 where
  pub publishing_id : ℕ
  pub error_code : ResponseCode

pub record PublishErrorResponse : Type 0 where
  pub publisher_id : ℕ
  pub publishing_errors : List PublishingError

-- The values of the fields' Rust types.
pub record IsValid (c : PublishErrorResponse) : Type 0 where
  pub publisher_id : c.publisher_id < u8_mod
  pub few : length c.publishing_errors < u32_mod
  pub publishing_errors : All (λ e. e.publishing_id < u64_mod) c.publishing_errors

-- `PublishErrorResponse::encoded_size`, which adds the publisher's id twice.
unfoldable pub encoded_size : PublishErrorResponse → ℕ
encoded_size c =
    u8_size c.publisher_id ⊞ vec_size (λ e. 8 ⊞ 2) c.publishing_errors ⊞ u8_size c.publisher_id

-- The number of bytes that a `PublishErrorResponse` is written in.
abbrev pub wire_len : PublishErrorResponse → ℕ
wire_len c = 1 + (4 + total (λ e. 10) c.publishing_errors)

encoded_size-eq-wire_len_one_more :
    (c : PublishErrorResponse) → encoded_size c ≡ (wire_len c + 1) % u32_mod
unfolding encoded_size
encoded_size-eq-wire_len_one_more c = omega (
  arith,
  vec_size_lem (λ (e : PublishingError). 8 ⊞ 2) (λ e. 10) (λ e. omega arith) c.publishing_errors,
)

module _ ⦃b : ByteOrder⦄ where
  unfoldable pub encode_error : PublishingError → Emit
  encode_error e = encode_u64 e.publishing_id ⊕ encode_code e.error_code

  unfoldable pub decode_error : Decode PublishingError
  decode_error = do
    publishing_id ← read_u64
    code ← decode_code
    pure (record { publishing_id = publishing_id; error_code = code })

  -- `PublishErrorResponse::encode`
  unfoldable pub encode : PublishErrorResponse → Emit
  encode c = encode_u8 c.publisher_id ⊕ encode_vec encode_error c.publishing_errors

  -- `Vec::<PublishingError>::decode`
  unfoldable pub decode_errors : Decode (List PublishingError)
  unfolding repeat
  decode_errors = do n ← read_u32; repeat n decode_error

  -- `PublishErrorResponse::decode`
  unfoldable pub decode : Decode PublishErrorResponse
  decode = do
    publisher_id ← read_u8
    publishing_errors ← decode_errors
    pure (record { publisher_id = publisher_id; publishing_errors = publishing_errors })

  error-Codes :
      (e : PublishingError) → e.publishing_id < u64_mod → Codes decode_error (encode_error e) 10 e
  unfolding decode_error encode_error pure
  error-Codes e h =
      Codes-bind _ (u64-Codes e.publishing_id h)
        (Codes-last _ (code-Codes e.error_code) (λ rest. refl))

  errors-Codes :
      (es : List PublishingError)
      → length es < u32_mod
      → All (λ e. e.publishing_id < u64_mod) es
      → Codes decode_errors (encode_vec encode_error es) (4 + total (λ e. 10) es) es
  unfolding decode_errors encode_vec
  errors-Codes es few h =
      let small : length es % u32_mod ≡ length es = omega arith in
      rw (i32-eq-u32 (length es % u32_mod)) (
        Codes-bind _ (u32-Codes (length es % u32_mod) (omega arith)) (
          rw small
            (repeat-Codes decode_error encode_error (λ e. 10) es (All-map error-Codes es h))))

  -- A valid `PublishErrorResponse` reads back as itself, and the rest of the input is left.
  pub decode-Codes : (c : PublishErrorResponse) → IsValid c → Codes decode (encode c) (wire_len c) c
  unfolding decode encode pure
  decode-Codes c h =
      Codes-bind _ (u8-Codes c.publisher_id h.publisher_id)
        (Codes-last _ (errors-Codes c.publishing_errors h.few h.publishing_errors) (λ rest. refl))

  -- A publish error with fields of their Rust types is written without an error, in one byte less
  -- than its declared size, which is cut to 32 bits.
  pub encoded_size-encode_one_more :
      (c : PublishErrorResponse)
      → IsValid c
      → (encode c ≡ done (bytes (encode c)))
        × (encoded_size c ≡ (length (bytes (encode c)) + 1) % u32_mod)
  encoded_size-encode_one_more c h =
      let codes = decode-Codes c h in
      (codes.written, rw codes.sized (encoded_size-eq-wire_len_one_more c))

  error-IsLocal : IsLocal decode_error
  unfolding decode_error
  error-IsLocal = search (local_rules, int_local_rules, decode_code-IsLocal) depth 10

  errors-IsLocal : IsLocal decode_errors
  unfolding decode_errors
  errors-IsLocal =
      IsLocal-bind _ _ read_u32-IsLocal (λ n. repeat-IsLocal n decode_error error-IsLocal)

  pub decode-IsLocal : IsLocal decode
  unfolding decode
  decode-IsLocal = search (local_rules, int_local_rules, errors-IsLocal) depth 10
