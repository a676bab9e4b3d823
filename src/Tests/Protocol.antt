-- ===== src/Tests/Protocol.antt =====
-- The theorems on requests and responses, at concrete frames.
use rabbitmq_stream_rust_cli.Prelude.{
  ℕ, ◌+◌, ◌%◌, ◌≡◌, refl, some, List, [], ◌∷◌, ◌++◌, length, take, drop, arith,
}
use rabbitmq_stream_rust_cli.Codec.Outcome.{ok, err, unsupported_response_type}
use rabbitmq_stream_rust_cli.Codec.Emit.{done, bytes}
use rabbitmq_stream_rust_cli.Codec.Ints.{u32_mod}
use rabbitmq_stream_rust_cli.Codec.Utf8.{is_utf8}
use rabbitmq_stream_rust_cli.Codec.Maps.{StrMap, str_eq, decode_map, encode_map}
use rabbitmq_stream_rust_cli.Codec.Maps.Laws.{IsMap, map_len, map-Codes}
use rabbitmq_stream_rust_cli.Codec.Laws.{Codes}
use rabbitmq_stream_rust_cli.Header.{Header, extract_response_code}
use rabbitmq_stream_rust_cli.ResponseCode
use rabbitmq_stream_rust_cli.Commands.StoreOffset
use rabbitmq_stream_rust_cli.Commands.StoreOffset.{StoreOffset}
use rabbitmq_stream_rust_cli.Commands.ConsumerUpdateRequest.{ConsumerUpdateRequestCommand}
use rabbitmq_stream_rust_cli.Commands.OffsetSpecification
use rabbitmq_stream_rust_cli.Commands.QueryOffsetResponse
use rabbitmq_stream_rust_cli.Commands.QueryOffsetResponse.{QueryOffsetResponse}
use rabbitmq_stream_rust_cli.Commands.PublishError
use rabbitmq_stream_rust_cli.Commands.PublishError.{
  PublishErrorResponse, PublishingError, encoded_size-encode_one_more,
}
use rabbitmq_stream_rust_cli.Request
use rabbitmq_stream_rust_cli.Request.{RequestKind, store_offset, consumer_update_request, from_kind}
use rabbitmq_stream_rust_cli.Request.Laws.{kind_len}
use rabbitmq_stream_rust_cli.Request.RoundTrip.{
  decode-encode, encode_frame, decode_consumer_update_request,
}
use rabbitmq_stream_rust_cli.Response
use rabbitmq_stream_rust_cli.Response.{
  Response, ResponseKind, query_offset, correlation_id, kind_correlation_id,
}
use rabbitmq_stream_rust_cli.Response.RoundTrip.{encode_frame_of, decode-encode_frame_of}
use rabbitmq_stream_rust_cli.Response.Correlation.{correlation_id-decode}
use rabbitmq_stream_rust_cli.Tests.Instances.{Byte, big_endian, byte_codec}

abbrev offset : StoreOffset
offset = record { reference = 99 ∷ []; stream = 115 ∷ 49 ∷ []; offset = 4242 }

offset-IsValid : StoreOffset.IsValid offset
unfolding is_utf8
offset-IsValid = record {
  reference = (refl, omega arith, omega arith);
  short = omega arith;
  stream = (refl, omega arith, omega arith);
  offset = omega arith;
}

abbrev request : RequestKind Byte
request = store_offset offset

decode-encode_example :
    (Request.encode (from_kind request) ≡ done (bytes (Request.encode (from_kind request))))
    × (Request.decode (bytes (Request.encode (from_kind request)) ++ (7 ∷ []))
        ≡ ok (7 ∷ [], from_kind request))
decode-encode_example = decode-encode request (7 ∷ []) offset-IsValid

encode_frame_example :
    (body : List ℕ) × (Request.encode (from_kind request)
      ≡ done (big_endian.write 4 (length body) ++ body))
    × (length body ≡ 4 + kind_len request)
encode_frame_example = encode_frame request offset-IsValid (omega arith)

abbrev update : ConsumerUpdateRequestCommand
update = record {
  correlation_id = 5;
  response_code = 1;
  offset_specification = OffsetSpecification.first;
}

decode_consumer_update_request_example :
    Request.decode {Message = Byte}
      (bytes (Request.encode {Message = Byte} (from_kind (consumer_update_request update))) ++ [])
    ≡ err (unsupported_response_type 26)
decode_consumer_update_request_example = decode_consumer_update_request update []

abbrev pub reply : ResponseKind Byte
reply = query_offset (record { correlation_id = 9; response_code = ResponseCode.ok; offset = 77 })

-- The key of a query for an offset, 11, with the bit of a response.
abbrev pub reply_header : Header
reply_header = record { key = 32779; version = 1 }

pub reply-IsValid :
    QueryOffsetResponse.IsValid
      (record { correlation_id = 9; response_code = ResponseCode.ok; offset = 77 })
reply-IsValid = record { correlation_id = omega arith; offset = omega arith }

abbrev pub reply_bytes : List ℕ
reply_bytes = bytes (encode_frame_of 18 (record { header = reply_header; kind = reply }))

abbrev pub reply_read : Response Byte
reply_read = record {
  header = record { key = extract_response_code 32779; version = 1 };
  kind = reply;
}

decode-encode_frame_of_example :
    Response.decode (reply_bytes ++ (1 ∷ 2 ∷ [])) ≡ ok (1 ∷ 2 ∷ [], reply_read)
decode-encode_frame_of_example =
    decode-encode_frame_of 18 reply_header reply (1 ∷ 2 ∷ []) (omega arith) (omega arith)
      (omega arith) refl reply-IsValid

pub reply_behind : Response.decode (reply_bytes ++ (1 ∷ 2 ∷ [])) ≡ ok (1 ∷ 2 ∷ [], reply_read)
reply_behind =
    decode-encode_frame_of 18 reply_header reply (1 ∷ 2 ∷ []) (omega arith) (omega arith)
      (omega arith) refl reply-IsValid

reply_decoded : Response.decode (reply_bytes ++ []) ≡ ok ([], reply_read)
reply_decoded =
    decode-encode_frame_of 18 reply_header reply [] (omega arith) (omega arith) (omega arith) refl
      reply-IsValid

pub reply_id : correlation_id reply_read ≡ some 9
unfolding correlation_id
reply_id = refl

correlation_id-decode_example : big_endian.read 4 (take 4 (drop 8 (reply_bytes ++ []))) ≡ 9
correlation_id-decode_example =
    correlation_id-decode (reply_bytes ++ []) [] reply_read 9 reply_decoded reply_id

abbrev properties : StrMap
properties = (112 ∷ [], 49 ∷ []) ∷ (113 ∷ [], 50 ∷ 51 ∷ []) ∷ []

properties-IsMap : IsMap properties
unfolding is_utf8 str_eq
properties-IsMap = record {
  few = omega arith;
  distinct = ((refl, tt), (tt, tt));
  texts = (
    ((refl, omega arith, omega arith), (refl, omega arith, omega arith)),
    (((refl, omega arith, omega arith), (refl, omega arith, omega arith)), tt),
  );
}

map-Codes_example : Codes decode_map (encode_map properties) (map_len properties) properties
map-Codes_example = map-Codes properties properties-IsMap

abbrev refused : PublishErrorResponse
refused = record {
  publisher_id = 1;
  publishing_errors = record { publishing_id = 3; error_code = ResponseCode.internal_error } ∷ [];
}

refused-IsValid : PublishError.IsValid refused
refused-IsValid = record {
  publisher_id = omega arith;
  few = omega arith;
  publishing_errors = (omega arith, tt);
}

encoded_size-encode_one_more_example :
    (PublishError.encode refused ≡ done (bytes (PublishError.encode refused)))
    × (PublishError.encoded_size refused
        ≡ (length (bytes (PublishError.encode refused)) + 1) % u32_mod)
encoded_size-encode_one_more_example = encoded_size-encode_one_more refused refused-IsValid
