-- ===== src/Request/RoundTrip.antt =====
-- What a request looks like on the wire, and what comes back.
use rabbitmq_stream_rust_cli.Prelude.{
  ℕ, ◌+◌, ◌<◌, ◌≡◌, refl, ap, ◌∙◌, List, ◌++◌, append_assoc, length, length-append, arith,
}
use rabbitmq_stream_rust_cli.Codec.Outcome.{
  ok, err, fail, unsupported_response_type, ◌>>=◌, >>=_step,
}
use rabbitmq_stream_rust_cli.Codec.Emit.{Emit, done, bytes, ◌⊕◌, ⊕-bytes, ⊕-written}
use rabbitmq_stream_rust_cli.Codec.ByteOrder.{ByteOrder}
use rabbitmq_stream_rust_cli.Codec.Ints.{u32_mod, encode_u16, encode_u32, read_u32}
use rabbitmq_stream_rust_cli.Codec.Ints.Laws.{u32-Codes}
use rabbitmq_stream_rust_cli.Message.{MessageCodec}
use rabbitmq_stream_rust_cli.Header.{encode_header, decode_header, header-Codes}
use rabbitmq_stream_rust_cli.Commands.ConsumerUpdateRequest.{ConsumerUpdateRequestCommand}
use rabbitmq_stream_rust_cli.Request.{
  RequestKind, Request, consumer_update_request, from_kind, encoded_size, encode_kind, encode,
  decode_kind, decode,
}
use rabbitmq_stream_rust_cli.Request.Laws.{
  IsValid, kind_len, encoded_size-eq-kind_len, frame-Codes, size-lt,
}

module _ {Message : Type 0} ⦃m : MessageCodec Message⦄ ⦃b : ByteOrder⦄ where
  -- A request of any kind but a consumer update request is written without an error and decodes
  -- back to itself, leaving what follows it, provided that its numbers fit their Rust types, its
  -- texts are UTF-8, not empty and shorter than 2^15 bytes, references with which an offset is
  -- stored or an offset or a publisher's sequence is queried are shorter than 256 bytes, SASL data
  -- and lists are shorter than 2^31, maps have distinct keys, and published messages are of version
  -- 1, have no filter value, and are kept by their own codec in less than 2^31 bytes.
  pub decode-encode :
      (k : RequestKind Message) (rest : List ℕ)
      → IsValid k
      → (encode (from_kind k) ≡ done (bytes (encode (from_kind k))))
        × (decode (bytes (encode (from_kind k)) ++ rest) ≡ ok (rest, from_kind k))
  decode-encode k rest h = let codes = frame-Codes k h in (codes.written, codes.reads rest)

  -- The frame of a valid request whose header and command take less than 2^32 bytes starts with
  -- four bytes that hold the number of the bytes behind them.
  pub encode_frame :
      (k : RequestKind Message)
      → IsValid k
      → 4 + kind_len k < u32_mod
      → (body : List ℕ) × (encode (from_kind k) ≡ done (b.write 4 (length body) ++ body))
        × (length body ≡ 4 + kind_len k)
  unfolding encode encode_u32 encode_header encode_u16
  encode_frame k h small =
      let codes = frame-Codes k h in
      let size : ℕ = encoded_size (from_kind k) in
      let rest : Emit = encode_header (from_kind k).header ⊕ encode_kind k in
      let whole : rest ≡ done (bytes rest) = ⊕-written (b.write 4 size) rest codes.written in
      let split : bytes (encode (from_kind k)) ≡ b.write 4 size ++ bytes rest =
        ⊕-bytes (b.write 4 size) rest in
      let len : length (bytes rest) ≡ 4 + kind_len k = omega (
        arith,
        codes.sized,
        ap length split,
        length-append (b.write 4 size) (bytes rest),
        b.length-write 4 size,
      ) in
      let same : size ≡ length (bytes rest) =
        omega (arith, encoded_size-eq-kind_len (from_kind k)) in
      (bytes rest, codes.written ∙ ap done (split ∙ ap (λ n. b.write 4 n ++ bytes rest) same), len)

  -- An update request is never read back: the key 32794 that it is sent with loses its top bit in
  -- the header and becomes 26, which `Request::decode` does not know.
  pub decode_consumer_update_request :
      (c : ConsumerUpdateRequestCommand) (rest : List ℕ)
      → decode {Message = Message}
          (bytes (encode {Message = Message} (from_kind (consumer_update_request c))) ++ rest)
        ≡ err (unsupported_response_type 26)
  unfolding encode decode decode_kind encode_u32 encode_header encode_u16
  decode_consumer_update_request c rest =
      let k : RequestKind Message = consumer_update_request c in
      let r : Request Message = from_kind k in
      let size : ℕ = encoded_size r in
      let body : List ℕ = bytes (encode_kind k) ++ rest in
      let head : List ℕ = bytes (encode_header r.header) in
      let split : bytes (encode r) ++ rest ≡ b.write 4 size ++ (head ++ body) =
        ap (λ xs. xs ++ rest)
          (⊕-bytes (b.write 4 size) (encode_header r.header ⊕ encode_kind k)
            ∙ ap (λ xs. b.write 4 size ++ xs) (⊕-bytes head (encode_kind k)))
        ∙ append_assoc (b.write 4 size) (head ++ bytes (encode_kind k)) rest
        ∙ ap (λ xs. b.write 4 size ++ xs) (append_assoc head (bytes (encode_kind k)) rest) in
      rw split (
        >>=_step read_u32 _ _ ((u32-Codes size (size-lt r)).reads (head ++ body))
        ∙ (>>=_step decode_header _ _
              ((header-Codes r.header (omega arith) (omega arith)).reads body)
            ∙ unfold fail ◌>>=◌ in refl))
