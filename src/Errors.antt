-- ===== src/Errors.antt =====
-- The errors of src/error.rs that the modelled parts return. An error of another crate
-- (`std::io::Error`, a boxed error, `rustls::Error`) is kept as the case that it stands in.
use rabbitmq_stream_rust_cli.Codec.Outcome.{DecodeError, EncodeError}
use rabbitmq_stream_rust_cli.Codec.Strings.{Str}
use rabbitmq_stream_rust_cli.ResponseCode.{ResponseCode}

pub data ProtocolError : Type 0 where
  encode_error : EncodeError → ProtocolError
  decode_error : DecodeError → ProtocolError

pub data ClientError : Type 0 where
  io : ClientError
  protocol : ProtocolError → ClientError
  cast_error : Str → ClientError
  generic_error : ClientError
  already_closed : ClientError
  connection_closed : ClientError
  tls : ClientError
  request_error : ResponseCode → ClientError
