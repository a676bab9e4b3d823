-- ===== src/Client/Framing/Streaming.antt =====
-- A connection carries frames one behind the other; `Framed` polls its buffer for them.
use rabbitmq_stream_rust_cli.Prelude.{
  ℕ, zero, suc, ◌<◌, ◌≡◌, refl, List, [], ◌∷◌, ◌++◌, append_assoc, length, map, All,
}
use rabbitmq_stream_rust_cli.Codec.Emit.{bytes}
use rabbitmq_stream_rust_cli.Codec.ByteOrder.{ByteOrder}
use rabbitmq_stream_rust_cli.Codec.Ints.{u16_mod, u32_mod}
use rabbitmq_stream_rust_cli.Message.{MessageCodec}
use rabbitmq_stream_rust_cli.Header.{extract_response_code}
use rabbitmq_stream_rust_cli.Response.{Response}
use rabbitmq_stream_rust_cli.Response.RoundTrip.{
  IsValid, IsKeyOf, encode_frame_of, decode-encode_frame_of,
}
use rabbitmq_stream_rust_cli.Client.Framing.{Polled, item, poll}
use rabbitmq_stream_rust_cli.Client.Framing.Polling.{poll-decode}

-- A frame as the broker sends it: the length that it announces, and the response.
pub record Frame (Message : Type 0) : Type 0 where
  pub announced : ℕ
  pub response : Response Message

module _ {Message : Type 0} ⦃m : MessageCodec Message⦄ where
  pub record IsFrame (f : Frame Message) : Type 0 where
    pub announced : f.announced < u32_mod
    pub key : f.response.header.key < u16_mod
    pub version : f.response.header.version < u16_mod
    pub sent_as : IsKeyOf (extract_response_code f.response.header.key) f.response.kind
    pub kind : IsValid f.response.kind

  -- The response as the client sees it: its key without the bit that marks a response.
  abbrev pub received : Frame Message → Response Message
  received f = record {
    header = record {
      key = extract_response_code f.response.header.key;
      version = f.response.header.version;
    };
    kind = f.response.kind;
  }

  module _ ⦃b : ByteOrder⦄ where
    abbrev pub wire : List (Frame Message) → List ℕ
    wire [] = []
    wire (f ∷ fs) = bytes (encode_frame_of f.announced f.response) ++ wire fs

    -- `n` polls in a row.
    unfoldable pub poll_times : ℕ → List ℕ → List ℕ × List (Polled (Response Message))
    unfolding poll
    poll_times zero buf = (buf, [])
    poll_times (suc n) buf =
        let (left, p) = poll buf in let (last, ps) = poll_times n left in (last, p ∷ ps)

    frame-decode :
        (f : Frame Message) (rest : List ℕ)
        → IsFrame f
        → poll (bytes (encode_frame_of f.announced f.response) ++ rest) ≡ (rest, item (received f))
    frame-decode f rest h =
        poll-decode (bytes (encode_frame_of f.announced f.response)) rest (received f) (
          decode-encode_frame_of f.announced f.response.header f.response.kind rest h.announced
            h.key h.version h.sent_as h.kind)

    -- When a buffer holds the frames of valid responses one behind the other, as many polls as there
    -- are frames return the responses in the order in which they were sent, and leave what is behind
    -- the last frame, also when that is a part of a further frame.
    pub poll_times-wire :
        (fs : List (Frame Message)) (more : List ℕ)
        → All IsFrame fs
        → poll_times (length fs) (wire fs ++ more) ≡ (more, map (λ f. item (received f)) fs)
    unfolding poll_times
    poll_times-wire [] more h = refl
    poll_times-wire (f ∷ fs) more h =
        rw (append_assoc, frame-decode f (wire fs ++ more) h.0, poll_times-wire fs more h.1)
