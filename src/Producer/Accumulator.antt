-- ===== src/Producer/Accumulator.antt =====
-- `MessageAccumulator` of src/producer.rs, one call after the other. `add` is modelled from the moment
-- when its channel has room; its send never fails, since the accumulator owns the receiver.
pub mod Order
use rabbitmq_stream_rust_cli.Prelude.{
  ℕ, zero, suc, ◌+◌, ◌-◌, ◌%◌, Bool, Option, none, some, List, [], ◌∷◌, length, ◌==◌,
}
use rabbitmq_stream_rust_cli.Codec.Ints.{u64_mod}
use rabbitmq_stream_rust_cli.Crates.{Channel}

pub record MessageAccumulator (A : Type 0) ⦃c : Channel A⦄ : Type 0 where
  pub channel : c.Queue
  pub capacity : ℕ
  pub message_count : ℕ

module _ {A : Type 0} ⦃c : Channel A⦄ where
  -- `MessageAccumulator::new`, which panics for a batch of 0 messages: tokio has no channel for none.
  unfoldable pub new : ℕ → Option (MessageAccumulator A)
  new zero = none
  new (suc n) = some (record { channel = c.new (suc n); capacity = suc n; message_count = 0 })

  -- `MessageAccumulator::add`: whether the message is the one that makes the batch full.
  unfoldable pub add : A → MessageAccumulator A → MessageAccumulator A × Bool
  add message s = (
    record s {
      channel = c.send message s.channel;
      message_count = (s.message_count + 1) % u64_mod;
    },
    s.message_count + 1 == s.capacity,
  )

  abbrev pub received : Option A × c.Queue → (c.Queue → List A × c.Queue) → List A × c.Queue
  received (none, q) again = ([], q)
  received (some message, q) again = let (messages, left) = again q in (message ∷ messages, left)

  -- The loop of `MessageAccumulator::get`, with the number of messages that it may still take.
  unfoldable pub receive : ℕ → c.Queue → List A × c.Queue
  receive zero q = ([], q)
  receive (suc n) q = received (c.try_recv q) (receive n)

  -- `MessageAccumulator::get`
  unfoldable pub get : ℕ → MessageAccumulator A → MessageAccumulator A × List A
  unfolding receive
  get batch_size s =
      let (messages, left) = receive batch_size s.channel in
      (
        record s {
          channel = left;
          message_count = (s.message_count + (u64_mod - length messages)) % u64_mod;
        },
        messages,
      )
