-- ===== src/Tests/Client.antt =====
-- The theorems on the buffer and the dispatcher of a client, at concrete inputs. A sender is a number.
use rabbitmq_stream_rust_cli.Prelude.{
  ℕ, zero, suc, ◌+◌, ◌≡◌, ◌≢◌, refl, true, false, some, none, List, [], ◌∷◌, ◌++◌, length, arith,
}
use rabbitmq_stream_rust_cli.Codec.Outcome.{max_size_error}
use rabbitmq_stream_rust_cli.ResponseCode
use rabbitmq_stream_rust_cli.Errors.{connection_closed}
use rabbitmq_stream_rust_cli.Commands.StoreOffset.{StoreOffset}
use rabbitmq_stream_rust_cli.Commands.HeartBeat.{heart_beat}
use rabbitmq_stream_rust_cli.Request.{store_offset, from_kind}
use rabbitmq_stream_rust_cli.Response.{heartbeat, correlation_id}
use rabbitmq_stream_rust_cli.Client.Framing.{item, panicked, poll, send}
use rabbitmq_stream_rust_cli.Client.Framing.Polling.{poll-decode, poll_takes_front}
use rabbitmq_stream_rust_cli.Client.Framing.Streaming.{
  Frame, IsFrame, received, wire, poll_times, poll_times-wire,
}
use rabbitmq_stream_rust_cli.Client.Framing.Cut.{update_prefix, poll-update_prefix}
use rabbitmq_stream_rust_cli.Client.Framing.Sending.{send_long_reference}
use rabbitmq_stream_rust_cli.Client.Dispatcher.{
  DispatcherState, Received, response, failure, sent, insert_during, insert, close_map, new,
  response_channel, handle_item, handle_response,
}
use rabbitmq_stream_rust_cli.Client.Dispatcher.Answers.{
  pending, sent_to, once, answer, sent_to-handle_response,
}
use rabbitmq_stream_rust_cli.Client.Dispatcher.Steps.{
  Step, asking, setting, receiving, run_steps, Unanswered,
}
use rabbitmq_stream_rust_cli.Client.Dispatcher.Tickets.{
  Reached, created, asked, response_channel_answered,
}
use rabbitmq_stream_rust_cli.Client.Dispatcher.Closing.{
  handle_response_closes, insert_closed_between,
}
use rabbitmq_stream_rust_cli.Codec.Maps.{lookup}
use rabbitmq_stream_rust_cli.Commands.MetadataResponse
use rabbitmq_stream_rust_cli.Client.Metadata.{from_response}
use rabbitmq_stream_rust_cli.Client.Metadata.Streams.{described, from_response-lookup}
use rabbitmq_stream_rust_cli.Tests.Instances.{Byte, big_endian, byte_codec, function_map}
use rabbitmq_stream_rust_cli.Tests.Protocol.{
  reply, reply_header, reply_bytes, reply_read, reply-IsValid, reply_behind, reply_id,
}

abbrev reply_frame : Frame Byte
reply_frame = record { announced = 18; response = record { header = reply_header; kind = reply } }

abbrev beat_frame : Frame Byte
beat_frame = record {
  announced = 4;
  response = record { header = record { key = 23; version = 1 }; kind = heartbeat heart_beat };
}

reply-IsFrame : IsFrame reply_frame
reply-IsFrame = record {
  announced = omega arith;
  key = omega arith;
  version = omega arith;
  sent_as = refl;
  kind = reply-IsValid;
}

beat-IsFrame : IsFrame beat_frame
beat-IsFrame = record {
  announced = omega arith;
  key = omega arith;
  version = omega arith;
  sent_as = refl;
  kind = tt;
}

poll_times-wire_example :
    poll_times 2 (wire (reply_frame ∷ beat_frame ∷ []) ++ (0 ∷ 0 ∷ []))
    ≡ (0 ∷ 0 ∷ [], item (received reply_frame) ∷ item (received beat_frame) ∷ [])
poll_times-wire_example =
    poll_times-wire (reply_frame ∷ beat_frame ∷ []) (0 ∷ 0 ∷ []) (reply-IsFrame, (beat-IsFrame, tt))

poll_takes_front_example :
    (front : List ℕ) × (reply_bytes ++ (1 ∷ 2 ∷ []) ≡ front ++ (1 ∷ 2 ∷ []))
    × ((more : List ℕ) → poll (front ++ more) ≡ (more, item reply_read))
poll_takes_front_example =
    poll_takes_front (reply_bytes ++ (1 ∷ 2 ∷ [])) (1 ∷ 2 ∷ []) reply_read
      (poll-decode reply_bytes (1 ∷ 2 ∷ []) reply_read reply_behind)

-- A metadata update whose stream's name has three bytes, of which one has arrived.
poll-update_prefix_example :
    poll {Message = Byte} (
      update_prefix 11
        (record { key = 16; version = 1 })
        ResponseCode.stream_not_available
        3
        (115 ∷ []))
    ≡ (
      update_prefix 11
          (record { key = 16; version = 1 })
          ResponseCode.stream_not_available
          3
          (115 ∷ []),
      panicked,
    )
poll-update_prefix_example =
    poll-update_prefix Byte 11 (record { key = 16; version = 1 }) ResponseCode.stream_not_available
      3 (115 ∷ []) (omega arith) (omega arith) (omega arith) refl (omega arith) (omega arith)

abbrev copies : ℕ → List ℕ
copies zero = []
copies (suc n) = 97 ∷ copies n

abbrev long_offset : StoreOffset
long_offset = record { reference = copies 256; stream = 115 ∷ []; offset = 1 }

send_long_reference_example :
    (half : List ℕ) × (length half ≡ 8)
    × (send {Message = Byte} (from_kind (store_offset long_offset)) (5 ∷ [])
        ≡ ((5 ∷ []) ++ half, some (max_size_error (length (copies 256)))))
send_long_reference_example = send_long_reference Byte long_offset (5 ∷ []) (omega arith)

-- Two requests wait, 9 and 4, with the senders 90 and 40.
abbrev waiting : DispatcherState ℕ
waiting = record {
  requests = record {
    requests = function_map.insert 9 90 (function_map.insert 4 40 function_map.new);
    closed = false;
  };
  correlation_id = 10;
  handler = true;
}

abbrev stream : List (Received Byte)
stream =
    response (received beat_frame)
    ∷ response reply_read
    ∷ response reply_read
    ∷ failure connection_closed
    ∷ []

sent_to-handle_response_example :
    sent_to 9 (handle_response stream waiting).1 ≡ once (pending 9 waiting) (answer 9 stream)
sent_to-handle_response_example = sent_to-handle_response 9 stream waiting

-- What the two sides are.
once_sent : once (pending 9 waiting) (answer 9 stream) ≡ (90, reply_read) ∷ []
unfolding correlation_id
once_sent = refl

handle_response_closes_example :
    ((id : ℕ) → pending id (handle_response stream waiting).0 ≡ none)
    × ((response_channel 50 (handle_response stream waiting).0).1 ≡ none)
handle_response_closes_example = handle_response_closes stream waiting 50

insert_closed_between_example :
    ((insert_during close_map 11 110 waiting.requests).1 ≡ true)
    × ((insert_during close_map 11 110 waiting.requests).0.closed ≡ true)
    × (function_map.get 11 (insert_during close_map 11 110 waiting.requests).0.requests ≡ some 110)
    × ((other late : ℕ)
        → insert other late (insert_during close_map 11 110 waiting.requests).0
          ≡ ((insert_during close_map 11 110 waiting.requests).0, false))
insert_closed_between_example = insert_closed_between 11 110 waiting.requests refl

abbrev nine : ℕ → DispatcherState ℕ
nine zero = new
nine (suc n) = (response_channel (n + 100) (nine n)).0

nine-Reached : (n : ℕ) → Reached Byte n (nine n)
nine-Reached zero = created
nine-Reached (suc n) = asked n (nine n) (n + 100) (nine-Reached n)

nine_live : (nine 9).requests.closed ≡ false
unfolding new response_channel
nine_live = refl

-- After the request, another channel is asked for and a heartbeat comes.
abbrev between : List (Step Byte ℕ)
between = asking 91 ∷ receiving (received beat_frame) ∷ setting ∷ []

between-Unanswered : Unanswered 9 between
unfolding correlation_id
between-Unanswered = (refl, tt)

response_channel_answered_example :
    ((response_channel 90 (nine 9)).1 ≡ some 9)
    × (pending 9 (nine 9) ≡ none)
    × (pending 9 (response_channel 90 (nine 9)).0 ≡ some 90)
    × ((id : ℕ) → id ≢ 9 → pending id (response_channel 90 (nine 9)).0 ≡ pending id (nine 9))
    × (sent_to 9 (run_steps between (response_channel 90 (nine 9)).0).1 ≡ [])
    × ((handle_item reply_read (run_steps between (response_channel 90 (nine 9)).0).0).1
        ≡ sent 9 90 reply_read ∷ [])
response_channel_answered_example =
    response_channel_answered 9 (nine 9) 90 between reply_read (nine-Reached 9) nine_live
      (omega arith) between-Unanswered reply_id refl

abbrev listed : MetadataResponse.Broker
listed = record { reference = 1; host = 104 ∷ []; port = 5552 }

abbrev listed_stream : MetadataResponse.StreamMetadata
listed_stream = record {
  stream_name = 115 ∷ [];
  code = ResponseCode.ok;
  leader_reference = 1;
  replicas_references = 2 ∷ 1 ∷ [];
}

abbrev metadata : MetadataResponse.MetadataResponse
metadata = record {
  correlation_id = 3;
  brokers = listed ∷ [];
  stream_metadata = listed_stream ∷ [];
}

from_response-lookup_example :
    lookup (115 ∷ []) (from_response metadata) ≡ described (listed ∷ []) listed_stream
from_response-lookup_example = from_response-lookup metadata [] [] listed_stream refl tt tt

-- What that is.
described-listed :
    described (listed ∷ []) listed_stream
    ≡ some (record {
      stream = 115 ∷ [];
      response_code = ResponseCode.ok;
      leader = record { host = 104 ∷ []; port = 5552 };
      replicas = record { host = 104 ∷ []; port = 5552 } ∷ [];
    })
described-listed = refl
