-- ===== src/Producer.antt =====
-- src/producer.rs, with src/client/message.rs: publishing and confirmation. A callback and a message are
-- opaque. What the client answers (`Client::publish`, `delete_publisher` and `close` of
-- src/client/mod.rs) is an argument of the operation that asks it.
pub mod Accumulator
pub mod Sending
pub mod Confirming
pub mod Closing
use rabbitmq_stream_rust_cli.Prelude.{
  ℕ, ◌+◌, ◌%◌, Bool, true, false, Option, none, some, List, [], ◌∷◌, length, if◌then◌else◌,
}
use rabbitmq_stream_rust_cli.Codec.Ints.{u64_mod}
use rabbitmq_stream_rust_cli.Codec.Strings.{Str}
use rabbitmq_stream_rust_cli.Crates.{DashMap, Channel}
use rabbitmq_stream_rust_cli.Errors.{ClientError}
use rabbitmq_stream_rust_cli.ResponseCode.{ResponseCode, ok, is_ok}
use rabbitmq_stream_rust_cli.Commands.PublishError.{PublishingError}
use rabbitmq_stream_rust_cli.Producer.Accumulator.{MessageAccumulator, add, get}

-- `Message::publishing_id` of protocol/src/message/mod.rs.
pub record HasPublishingId (Message : Type 0) : Type 0 where
  pub publishing_id : Message → Option ℕ

pub record ClientMessage (Message : Type 0) : Type 0 where
  pub publishing_id : ℕ
  pub message : Message
  pub filter_value : Option Str

pub record ConfirmationStatus (Message : Type 0) : Type 0 where
  pub publishing_id : ℕ
  pub confirmed : Bool
  pub status : ResponseCode
  pub message : Message

pub record ProducerMessageWaiter (Callback Message : Type 0) : Type 0 where
  pub cb : Callback
  pub msg : Message

pub data ProducerPublishError : Type 0 where
  create : Str → ℕ → ResponseCode → ProducerPublishError
  batch : Str → ProducerPublishError
  confirmation : Str → ProducerPublishError
  closed : ProducerPublishError
  client : ClientError → ProducerPublishError

pub data ProducerCloseError : Type 0 where
  close_refused : ResponseCode → Str → ProducerCloseError
  already_closed : ProducerCloseError
  close_failed : ClientError → ProducerCloseError

-- What `Client::delete_publisher` answers.
pub data Deleted : Type 0 where
  deleted : ResponseCode → Deleted
  delete_failed : ClientError → Deleted

-- The batch that was handed to `Client::publish`, if one was, and the result.
pub record Sent (Message : Type 0) : Type 0 where
  pub published : Option (List (ClientMessage Message))
  pub result : Option ProducerPublishError

-- Of `ProducerInternal`, what an operation reads or changes.
pub record ProducerInternal (Callback Message : Type 0)
    ⦃d : DashMap (ProducerMessageWaiter Callback Message)⦄ ⦃c : Channel (ClientMessage Message)⦄
    : Type 0 where
  pub stream : Str
  pub batch_size : ℕ
  pub publish_sequence : ℕ
  pub waiting_confirmations : d.Map
  pub closed : Bool
  pub accumulator : MessageAccumulator (ClientMessage Message)
  pub filter_value_extractor : Option (Message → Str)

abbrev pub publish_result : Option ClientError → Option ProducerPublishError
publish_result none = none
publish_result (some e) = some (client e)

-- `ClientMessage::new(publishing_id, message, None)` and then `filter_value_extract`
unfoldable pub client_message :
    {Message : Type 0} → Option (Message → Str) → ℕ → Message → ClientMessage Message
client_message none id m = record { publishing_id = id; message = m; filter_value = none }
client_message (some f) id m = record { publishing_id = id; message = m; filter_value = some (f m) }

abbrev pub batch_sent :
    {Message : Type 0} → Option ClientError → List (ClientMessage Message) → Sent Message
batch_sent reply [] = record { published = none; result = none }
batch_sent reply (m ∷ ms) = record { published = some (m ∷ ms); result = publish_result reply }

-- The publishing id of a message: its own, or the next of the sequence; and the sequence behind it.
abbrev pub next_id : Option ℕ → ℕ → ℕ × ℕ
next_id (some id) sequence = (id, sequence)
next_id none sequence = (sequence, (sequence + 1) % u64_mod)

module _ {Callback Message : Type 0} ⦃h : HasPublishingId Message⦄
    ⦃d : DashMap (ProducerMessageWaiter Callback Message)⦄
    ⦃c : Channel (ClientMessage Message)⦄ where
  -- `ProducerInternal::batch_send`
  unfoldable pub batch_send :
      Option ClientError
      → ProducerInternal Callback Message
      → ProducerInternal Callback Message × Sent Message
  batch_send reply s =
      let (accumulator, messages) = get s.batch_size s.accumulator in
      (record s { accumulator = accumulator }, batch_sent reply messages)

  -- What both ways to send do with each message: it gets its id, and its waiter is stored under it.
  unfoldable pub prepare :
      Callback
      → Message
      → ProducerInternal Callback Message
      → ProducerInternal Callback Message × ClientMessage Message
  unfolding client_message
  prepare cb message s =
      let (id, sequence) = next_id (h.publishing_id message) s.publish_sequence in
      (
        record s {
          publish_sequence = sequence;
          waiting_confirmations =
              d.insert id (record { cb = cb; msg = message }) s.waiting_confirmations;
        },
        client_message s.filter_value_extractor id message,
      )

  -- `Producer::internal_send`
  unfoldable pub internal_send :
      Callback
      → Message
      → Option ClientError
      → ProducerInternal Callback Message
      → ProducerInternal Callback Message × Sent Message
  unfolding prepare batch_send
  internal_send cb message reply s =
      if s.closed
      then (s, record { published = none; result = some closed })
      else let (waiting, msg) = prepare cb message s in
        let (accumulator, full) = add msg waiting.accumulator in
        let queued : ProducerInternal Callback Message = record waiting {
          accumulator = accumulator;
        } in
        if full
        then batch_send reply queued
        else (queued, record { published = none; result = none })

  -- The loop of `Producer::internal_batch_send`.
  unfoldable pub prepare_all :
      Callback
      → List Message
      → ProducerInternal Callback Message
      → ProducerInternal Callback Message × List (ClientMessage Message)
  unfolding prepare
  prepare_all cb [] s = (s, [])
  prepare_all cb (message ∷ messages) s =
      let (next, msg) = prepare cb message s in
      let (last, msgs) = prepare_all cb messages next in (last, msg ∷ msgs)

  -- `Producer::internal_batch_send`
  unfoldable pub internal_batch_send :
      Callback
      → List Message
      → Option ClientError
      → ProducerInternal Callback Message
      → ProducerInternal Callback Message × Sent Message
  unfolding prepare_all
  internal_batch_send cb messages reply s =
      if s.closed
      then (s, record { published = none; result = some closed })
      else let (next, wrapped_msgs) = prepare_all cb messages s in
        (next, record { published = some wrapped_msgs; result = publish_result reply })

abbrev close_result : Option ClientError → Option ProducerCloseError
close_result none = none
close_result (some e) = some (close_failed e)

abbrev pub close_reply : Str → Deleted → Option ClientError → Option ProducerCloseError
close_reply stream (delete_failed e) reply = some (close_failed e)
close_reply stream (deleted code) reply =
    if is_ok code then close_result reply else some (close_refused code stream)

-- `Producer::close`: the publisher is deleted and the client closed by the first call only.
unfoldable pub close :
    {Callback Message : Type 0}
    → ⦃d : DashMap (ProducerMessageWaiter Callback Message)⦄ → ⦃c : Channel (ClientMessage Message)⦄
    → Deleted
    → Option ClientError
    → ProducerInternal Callback Message
    → ProducerInternal Callback Message × Option ProducerCloseError
close answer reply s =
    if s.closed
    then (s, some already_closed)
    else (record s { closed = true }, close_reply s.stream answer reply)

-- The calls of callbacks, the waiters that are left, and whether `todo!()` was met.
pub record Confirmed (Callback Message : Type 0)
    ⦃d : DashMap (ProducerMessageWaiter Callback Message)⦄ : Type 0 where
  pub waiting : d.Map
  pub called : List (Callback × ConfirmationStatus Message)
  pub panicked : Bool

module _ {Callback Message : Type 0} ⦃d : DashMap (ProducerMessageWaiter Callback Message)⦄ where
  -- `handle_confirm` and `handle_error` of a waiter.
  abbrev pub status_of :
      ℕ
      → Bool
      → ResponseCode
      → ProducerMessageWaiter Callback Message
      → Callback × ConfirmationStatus Message
  status_of id confirmed status w =
      (w.cb, record { publishing_id = id; confirmed = confirmed; status = status; message = w.msg })

  abbrev pub with_waiter :
      Option (ProducerMessageWaiter Callback Message) × d.Map
      → (ProducerMessageWaiter Callback Message → Callback × ConfirmationStatus Message)
      → (d.Map → Confirmed Callback Message)
      → Confirmed Callback Message
  with_waiter (none, left) call others = record { waiting = left; called = []; panicked = true }
  with_waiter (some w, left) call others =
      let rest : Confirmed Callback Message = others left in
      record rest { called = call w ∷ rest.called }

  -- `ProducerConfirmHandler::handle_message` on `ResponseKind::PublishConfirm`.
  unfoldable pub handle_confirms : List ℕ → d.Map → Confirmed Callback Message
  handle_confirms [] waiting = record { waiting = waiting; called = []; panicked = false }
  handle_confirms (id ∷ ids) waiting =
      with_waiter (d.remove id waiting) (status_of id true ok) (handle_confirms ids)

  -- `ProducerConfirmHandler::handle_message` on `ResponseKind::PublishError`.
  unfoldable pub handle_errors : List PublishingError → d.Map → Confirmed Callback Message
  handle_errors [] waiting = record { waiting = waiting; called = []; panicked = false }
  handle_errors (e ∷ errors) waiting =
      with_waiter (d.remove e.publishing_id waiting) (status_of e.publishing_id false e.error_code)
        (handle_errors errors)
