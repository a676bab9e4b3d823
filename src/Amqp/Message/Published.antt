-- ===== src/Amqp/Message/Published.antt =====
-- Publish requests whose messages are AMQP messages: the codec of messages inside of the codec of frames.
use rabbitmq_stream_rust_cli.Prelude.{ℕ, ◌<◌, none, List, [], ◌∷◌}
use rabbitmq_stream_rust_cli.Codec.ByteOrder.{ByteOrder}
use rabbitmq_stream_rust_cli.Codec.Ints.{u64_mod}
use rabbitmq_stream_rust_cli.Protocol.{protocol_version}
use rabbitmq_stream_rust_cli.Commands.Publish.{PublishedMessage}
use rabbitmq_stream_rust_cli.Request
use rabbitmq_stream_rust_cli.Request.{RequestKind}
use rabbitmq_stream_rust_cli.Amqp.Errors.{Externals}
use rabbitmq_stream_rust_cli.Amqp.Message.{AmqpMessage, InternalMessage, amqp_codec}
use rabbitmq_stream_rust_cli.Amqp.Message.RoundTrip.{IsAmqpMessage}

module _ ⦃x : Externals⦄ where
  -- Messages with their ids, as version 1 of the command has them.
  abbrev pub published : List (ℕ × AmqpMessage) → List (PublishedMessage InternalMessage)
  published [] = []
  published ((id, m) ∷ ms) =
      record {
        publishing_id = id;
        message = record { publishing_id = none; message = m };
        filter_value = none;
      }
      ∷ published ms

  abbrev pub publish_request : ℕ → List (ℕ × AmqpMessage) → RequestKind InternalMessage
  publish_request publisher ms = Request.publish (record {
    publisher_id = publisher;
    published_messages = published ms;
    version = protocol_version;
  })

module _ ⦃b : ByteOrder⦄ ⦃x : Externals⦄ where
  abbrev pub IsNumbered : ℕ × AmqpMessage → Type 0
  IsNumbered (id, m) = (id < u64_mod) × IsAmqpMessage m
