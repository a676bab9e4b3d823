-- ===== src/Message.antt =====
-- What the frames need of a `Message` (protocol/src/message/mod.rs): its codec, and how a frame holds
-- a message as a vector of bytes behind its length.
use rabbitmq_stream_rust_cli.Prelude.{
  ℕ, ◌+◌, ◌%◌, ◌^◌, ◌<◌, ◌≡◌, refl, [], ◌∷◌, List, length, All, arith,
}
use rabbitmq_stream_rust_cli.Codec.Outcome.{Decode, ok, err, panic, pure, fail, crash, ◌>>=◌}
use rabbitmq_stream_rust_cli.Codec.Emit.{Emit, done, bytes, emit_each, ◌⊕◌}
use rabbitmq_stream_rust_cli.Codec.ByteOrder.{ByteOrder}
use rabbitmq_stream_rust_cli.Codec.Laws.{Codes, Codes-last}
use rabbitmq_stream_rust_cli.Codec.Local.{
  IsLocal, IsLocal-bind, IsLocal-pure, IsLocal-fail, IsLocal-crash,
}
use rabbitmq_stream_rust_cli.Codec.Ints.{u32_mod, read_u8, encode_u32}
use rabbitmq_stream_rust_cli.Codec.Ints.Laws.{read_u8-IsLocal}
use rabbitmq_stream_rust_cli.Codec.Vectors.{read_vec}
use rabbitmq_stream_rust_cli.Codec.Vectors.Laws.{total, read_vec-IsLocal, read_vec_u32-Codes}

-- `impl Encoder for Message` and `impl Decoder for Message`.
pub record MessageCodec (Message : Type 0) : Type 0 where
  pub encoded_size : Message → ℕ
  pub encode : Message → Emit
  pub decode : Decode Message

-- `let (_, message) = Message::decode(&body)?;`: what the message leaves of its body is dropped.
unfoldable pub nested : {A : Type 0} → Decode A → List ℕ → Decode A
nested d body = elim (d body) [ ok (left, a) ↦ pure a | err e ↦ fail e | panic ↦ crash ]

pub nested-IsLocal : {A : Type 0} (d : Decode A) (body : List ℕ) → IsLocal (nested d body)
unfolding nested
nested-IsLocal d body =
    elim (d body)
      as (λ o. IsLocal (elim o [ ok (left, a) ↦ pure a | err e ↦ fail e | panic ↦ crash ])) [
        | ok (left, a) ↦ IsLocal-pure a
        | err e ↦ IsLocal-fail e
        | panic ↦ IsLocal-crash
      ]

nested_whole :
    {A : Type 0} (d : Decode A) (body left : List ℕ) (a : A)
    → d body ≡ ok (left, a)
    → nested d body ≡ pure a
unfolding nested
nested_whole d body left a h = rw (h, nested)

-- One byte of a body, and a body as its bytes.
byte-Codes : (x : ℕ) → Codes read_u8 (done (x ∷ [])) 1 x
unfolding read_u8
byte-Codes x = record { written = refl; sized = refl; reads = λ rest. refl }

each_byte : (bs : List ℕ) → emit_each (λ x. done (x ∷ [])) bs ≡ done bs
unfolding emit_each
each_byte [] = refl
each_byte (x ∷ bs) = rw (each_byte bs)

total_bytes : (bs : List ℕ) → total (λ x. 1) bs ≡ length bs
total_bytes [] = refl
total_bytes (x ∷ bs) = omega (arith, total_bytes bs)

All-bytes : (bs : List ℕ) → All (λ x. Codes read_u8 (done (x ∷ [])) 1 x) bs
All-bytes [] = tt
All-bytes (x ∷ bs) = (byte-Codes x, All-bytes bs)

module _ ⦃b : ByteOrder⦄ where
  -- `let (input, body) = read_vec::<u8>(input)?`
  unfoldable pub read_body : Decode (List ℕ)
  unfolding read_vec
  read_body = read_vec read_u8

  pub read_body-IsLocal : IsLocal read_body
  unfolding read_body
  read_body-IsLocal = read_vec-IsLocal read_u8 read_u8-IsLocal

  pub body-Codes :
      (bs : List ℕ)
      → length bs < 2 ^ 31
      → Codes read_body (encode_u32 (length bs) ⊕ done bs) (4 + length bs) bs
  unfolding read_body
  body-Codes bs h =
      let small : length bs % u32_mod ≡ length bs = omega arith in
      let each = read_vec_u32-Codes read_u8 (λ x. done (x ∷ [])) (λ x. 1) bs h (All-bytes bs) in
      rw (each_byte bs, total_bytes bs, small) at each

module _ {Message : Type 0} ⦃m : MessageCodec Message⦄ where
  -- A message that its own codec handles: it is written whole, in as many bytes as it declares, and
  -- those bytes, with nothing behind them, read back as the message.
  pub record IsMessage (x : Message) : Type 0 where
    pub written : m.encode x ≡ done (bytes (m.encode x))
    pub sized : length (bytes (m.encode x)) ≡ m.encoded_size x
    pub alone : m.decode (bytes (m.encode x)) ≡ ok ([], x)
    pub short : m.encoded_size x < 2 ^ 31

  module _ ⦃b : ByteOrder⦄ where
    -- `message.encoded_size().encode(writer)?; message.encode(writer)?`
    unfoldable pub encode_message : Message → Emit
    encode_message x = encode_u32 (m.encoded_size x) ⊕ m.encode x

    unfoldable pub decode_message : Decode Message
    unfolding read_body nested
    decode_message = do body ← read_body; nested m.decode body

    pub decode_message-IsLocal : IsLocal decode_message
    unfolding decode_message
    decode_message-IsLocal = IsLocal-bind _ _ read_body-IsLocal (nested-IsLocal m.decode)

    -- A message behind its length reads back as itself.
    pub message-Codes :
        (x : Message)
        → IsMessage x
        → Codes decode_message (encode_message x) (4 + m.encoded_size x) x
    unfolding decode_message encode_message
    message-Codes x h =
        let body : List ℕ = bytes (m.encode x) in
        let len : length body ≡ m.encoded_size x = h.sized in
        let inner : nested m.decode body ≡ pure x = nested_whole m.decode body [] x h.alone in
        let framed = body-Codes body (rw len h.short) in
        rw (h.written) (rw (← len) (Codes-last _ framed (λ rest. rw inner (unfold pure in refl))))
