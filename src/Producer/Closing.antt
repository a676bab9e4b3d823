-- ===== src/Producer/Closing.antt =====
-- What a producer does once it is closed.
use rabbitmq_stream_rust_cli.Prelude.{◌≡◌, refl, Bool-cases, inl, inr, Option, none, some, List}
use rabbitmq_stream_rust_cli.Crates.{DashMap, Channel}
use rabbitmq_stream_rust_cli.Errors.{ClientError}
use rabbitmq_stream_rust_cli.Producer.{
  HasPublishingId, ClientMessage, ProducerMessageWaiter, ProducerInternal, closed, already_closed,
  Deleted, internal_send, internal_batch_send, close,
}

module _ {Callback Message : Type 0} ⦃h : HasPublishingId Message⦄
    ⦃d : DashMap (ProducerMessageWaiter Callback Message)⦄
    ⦃c : Channel (ClientMessage Message)⦄ where
  -- After `close`, whatever the broker answered to it, both ways to send return that the producer is
  -- closed and change nothing, and a second `close` returns that it is closed already and asks
  -- nothing: also when the first one failed, so that the publisher may still exist.
  pub close_ends_sending :
      (answer again : Deleted) (reply last sent : Option ClientError) (cb : Callback) (m : Message)
      (ms : List Message) (s : ProducerInternal Callback Message)
      → (internal_send cb m sent (close answer reply s).0
          ≡ ((close answer reply s).0, record { published = none; result = some closed }))
        × (internal_batch_send cb ms sent (close answer reply s).0
            ≡ ((close answer reply s).0, record { published = none; result = some closed }))
        × (close again last (close answer reply s).0
            ≡ ((close answer reply s).0, some already_closed))
  unfolding internal_send internal_batch_send close
  close_ends_sending answer again reply last sent cb m ms s = elim (Bool-cases s.closed) [
    | inl before ↦ simp before (refl, refl, refl)
    | inr now ↦ simp now (refl, refl, refl)
  ]
