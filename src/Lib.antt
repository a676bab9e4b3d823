-- ===== src/Lib.antt =====
-- The protocol and the core of the client of the RabbitMQ stream client for Rust.
--
-- The program. protocol/src turns requests into frames and frames into responses; a frame is a length,
-- a header (key and version) and a command. src/client reads and writes frames on a connection
-- (codec.rs) and hands each response to the request with its correlation id, or to a handler
-- (dispatcher.rs). src/producer.rs numbers messages, gathers them in batches, hands them to the client,
-- and calls a callback when the broker confirms them. A message is written in AMQP 1.0 by
-- protocol/src/message. src/superstream.rs and src/superstream_producer.rs choose the stream, among the
-- partitions of a super stream, that a message goes to.
--
-- The files.
--   Prelude: shared names of the library, Boolean tests on numbers, lists over the native numbers.
--   Codec: protocol/src/codec. A decoder (Outcome) takes the bytes that are left and returns a value with
--     what it leaves, an error, or a panic; an encoder (Emit) is what it appended, with an error if it met
--     one. ByteOrder is the interface to the crate byteorder. Ints, Utf8, Strings, Vectors and Maps are the
--     codecs of integers, texts, vectors and maps of texts. Laws, Local and Yields have the rules by which
--     theorems on composed codecs are put together. Recursion has the decoders that call themselves.
--   Protocol, ResponseCode, Header: protocol/src/protocol.rs, the response codes, and the header.
--   Message: the codec of messages as an interface, and a message inside a frame.
--   Commands: protocol/src/commands, one module for each command or response: its fields, the declared
--     size, the encoder and the decoder.
--   Request, Response: protocol/src/request and protocol/src/response, by the kinds of commands.
--   Crates: the interfaces to dashmap and to the channel of tokio. Errors: a part of src/error.rs.
--   Client.Framing: src/client/codec.rs on a buffer of bytes. Client.Dispatcher: src/client/dispatcher.rs.
--     Client.Metadata: src/client/metadata.rs.
--   Producer, Producer.Accumulator: src/producer.rs and src/client/message.rs.
--   Amqp: protocol/src/message and its folder amqp. TypeCode: codec/constants.rs. Errors: error.rs and the
--     interface Externals to the crates chrono, uuid and ordered_float and to the texts of errors. Numbers,
--     Texts and Simple: types/primitives/simple.rs and types/symbol.rs. Keys: types/descriptor.rs and the
--     keys of types/annotations.rs. Collections: types/primitives/list.rs and map.rs. Value:
--     types/primitives/value.rs. Header, Properties, Section: header.rs, properties.rs, section.rs and
--     types/mod.rs. Message: message.rs, body.rs and the codec in protocol/src/message/mod.rs, which is an
--     instance of the interface Message. Builder: protocol/src/message/builder.rs and the accessors of a
--     message in mod.rs.
--   SuperStream: src/superstream.rs and src/superstream_producer.rs, on what the broker answers. Routing and
--     Sending: where a message goes, and that it is handed over there.
--   Tests: instances of the interfaces, and the theorems at concrete inputs.
--
-- How the code is modelled. A byte is a number, a text is the list of its bytes, and a signed
-- integer is its bit pattern. Additions of u32, u64 and correlation ids wrap around. The state of
-- shared objects is passed from operation to operation; what is sent to channels, handlers and
-- callbacks is listed in order. What a call outside the model answers is an argument. An AMQP
-- value, a map inside of one, and a message are decoded by recursion on fuel, as many rounds as
-- there are bytes and one more: each round takes a byte before the next begins, so that is enough.
-- How deep the stack gets is left out. Every other loop of the code is bounded by a number in its
-- frame or by a list, and is a recursion on it.
--
-- What is not modelled: the conversions of Rust values into AMQP values and back; the connection,
-- its handshake and its heartbeats (src/client/mod.rs, channel.rs, task.rs, options.rs); the
-- builder and the timer of a producer; building and closing a super-stream producer; consumers,
-- environment and stream creator; and several tasks at once, but for the gap in the insertion of a
-- request.

pub mod Prelude
pub mod Codec
pub mod Protocol
pub mod ResponseCode
pub mod Message
pub mod Header
pub mod Commands
pub mod Request
pub mod Response
pub mod Crates
pub mod Errors
pub mod Client
pub mod Producer
pub mod Amqp
pub mod SuperStream
pub mod Tests
