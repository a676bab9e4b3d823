-- ===== src/Client/Framing/Sending.antt =====
-- What sending a request leaves in the buffer of a connection.
use rabbitmq_stream_rust_cli.Prelude.{
  ℕ, ◌≤◌, ◌≡◌, some, List, ◌++◌, append-nil, length, length-append, arith,
}
use rabbitmq_stream_rust_cli.Codec.Outcome.{max_size_error}
use rabbitmq_stream_rust_cli.Codec.ByteOrder.{ByteOrder}
use rabbitmq_stream_rust_cli.Codec.Ints.{encode_u16, encode_u32}
use rabbitmq_stream_rust_cli.Message.{MessageCodec}
use rabbitmq_stream_rust_cli.Header.{encode_header}
use rabbitmq_stream_rust_cli.Commands.StoreOffset
use rabbitmq_stream_rust_cli.Commands.StoreOffset.{StoreOffset}
use rabbitmq_stream_rust_cli.Request
use rabbitmq_stream_rust_cli.Request.{RequestKind, Request, store_offset, from_kind}
use rabbitmq_stream_rust_cli.Client.Framing.{send}

module _ (Message : Type 0) ⦃m : MessageCodec Message⦄ ⦃b : ByteOrder⦄ where
  -- Sending a stored offset with a reference of 256 bytes or more fails, and yet leaves behind the
  -- buffer's bytes eight further ones: a length and a header without a command.
  pub send_long_reference :
      (c : StoreOffset) (buf : List ℕ)
      → 256 ≤ length c.reference
      → (half : List ℕ) × (length half ≡ 8)
        × (send {Message = Message} (from_kind (store_offset c)) buf
            ≡ (buf ++ half, some (max_size_error (length c.reference))))
  unfolding send Request.encode Request.encode_kind encode_u32 encode_header encode_u16
  send_long_reference c buf long =
      let r : Request Message = from_kind (store_offset c) in
      let size : ℕ = Request.encoded_size r in
      let half : List ℕ =
        b.write 4 size ++ (b.write 2 r.header.key ++ b.write 2 r.header.version) in
      (
        half,
        omega (
          arith,
          length-append (b.write 4 size) (b.write 2 r.header.key ++ b.write 2 r.header.version),
          length-append (b.write 2 r.header.key) (b.write 2 r.header.version),
          b.length-write 4 size,
          b.length-write 2 r.header.key,
          b.length-write 2 r.header.version,
        ),
        rw (StoreOffset.encode_long c long, append-nil),
      )
