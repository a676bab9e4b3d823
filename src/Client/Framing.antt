-- ===== src/Client/Framing.antt =====
-- `RabbitMqStreamCodec` of src/client/codec.rs: how the bytes of a connection become responses, and
-- requests become bytes. A buffer is the list of its bytes.
pub mod Polling
pub mod Streaming
pub mod Cut
pub mod Sending
use rabbitmq_stream_rust_cli.Prelude.{ℕ, ◌-◌, Option, none, some, List, ◌++◌, length, drop}
use rabbitmq_stream_rust_cli.Codec.Outcome.{
  Outcome, ok, err, panic, DecodeError, EncodeError, incomplete, utf8_error, unknown_response_code,
  unsupported_response_type, mismatch_size, message_parse, invalid_format_code, empty,
}
use rabbitmq_stream_rust_cli.Codec.Emit.{Emit, done, failed}
use rabbitmq_stream_rust_cli.Codec.ByteOrder.{ByteOrder}
use rabbitmq_stream_rust_cli.Message.{MessageCodec}
use rabbitmq_stream_rust_cli.Response
use rabbitmq_stream_rust_cli.Response.{Response}
use rabbitmq_stream_rust_cli.Request
use rabbitmq_stream_rust_cli.Request.{Request}

-- `Result<Option<Response>, ClientError>`, or a panic.
pub data Polled (A : Type 0) : Type 0 where
  item : A → Polled A
  waiting : Polled A
  error : DecodeError → Polled A
  panicked : Polled A

-- The `match` on the error of `Response::decode`.
abbrev pub on_error : {A : Type 0} → DecodeError → Polled A
on_error (incomplete n) = waiting
on_error (utf8_error bs) = error (utf8_error bs)
on_error (unknown_response_code n) = error (unknown_response_code n)
on_error (unsupported_response_type n) = error (unsupported_response_type n)
on_error (mismatch_size n) = error (mismatch_size n)
on_error (message_parse bs) = error (message_parse bs)
on_error (invalid_format_code n) = error (invalid_format_code n)
on_error empty = error empty

-- What an encoder does to the buffer that it appends to.
abbrev pub appended : List ℕ → Emit → List ℕ × Option EncodeError
appended buf (done bs) = (buf ++ bs, none)
appended buf (failed bs e) = (buf ++ bs, some e)

module _ {Message : Type 0} ⦃m : MessageCodec Message⦄ ⦃b : ByteOrder⦄ where
  abbrev pub polled :
      List ℕ → Outcome (List ℕ × Response Message) → List ℕ × Polled (Response Message)
  polled buf (ok (remaining, response)) = (drop (length buf - length remaining) buf, item response)
  polled buf (err e) = (buf, on_error e)
  polled buf panic = (buf, panicked)

  -- `RabbitMqStreamCodec::decode`: the buffer that it leaves, and what it returns.
  unfoldable pub poll : List ℕ → List ℕ × Polled (Response Message)
  poll buf = polled buf (Response.decode buf)

  -- `RabbitMqStreamCodec::encode`: the buffer that it leaves, and the error if there is one.
  unfoldable pub send : Request Message → List ℕ → List ℕ × Option EncodeError
  send req buf = appended buf (Request.encode req)
