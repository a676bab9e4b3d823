-- ===== src/Producer/Confirming.antt =====
-- Which callbacks a confirmation calls.
use rabbitmq_stream_rust_cli.Prelude.{
  ℕ, ◌+◌, ◌<◌, ◌≡◌, refl, ap, ◌∙◌, true, false, Option, none, some, List, [], ◌∷◌, length, All,
  arith,
}
use rabbitmq_stream_rust_cli.Codec.Ints.{u64_mod}
use rabbitmq_stream_rust_cli.Crates.{DashMap, Channel}
use rabbitmq_stream_rust_cli.Errors.{ClientError}
use rabbitmq_stream_rust_cli.ResponseCode.{ok}
use rabbitmq_stream_rust_cli.Producer.{
  HasPublishingId, ClientMessage, ConfirmationStatus, ProducerMessageWaiter, ProducerInternal,
  Confirmed, with_waiter, status_of, handle_confirms, internal_batch_send,
}
use rabbitmq_stream_rust_cli.Producer.Sending.{Waiting, internal_batch_send-numbered}

-- The ids of messages that are numbered from `id` on.
abbrev pub ids_from : {A : Type 0} → ℕ → List A → List ℕ
ids_from id [] = []
ids_from id (m ∷ ms) = id ∷ ids_from (id + 1) ms

-- What each of the messages that are numbered from `id` on has its callback called with.
abbrev pub confirmed_from :
    {Callback Message : Type 0}
    → Callback
    → ℕ
    → List Message
    → List (Callback × ConfirmationStatus Message)
confirmed_from cb id [] = []
confirmed_from cb id (m ∷ ms) =
    (cb, record { publishing_id = id; confirmed = true; status = ok; message = m })
    ∷ confirmed_from cb (id + 1) ms

module _ {Callback Message : Type 0} ⦃d : DashMap (ProducerMessageWaiter Callback Message)⦄ where
  Waiting-remove :
      (cb : Callback) (gone id : ℕ) (ms : List Message) (w : d.Map)
      → gone < id
      → Waiting cb id ms w
      → Waiting cb id ms (d.remove gone w).1
  Waiting-remove cb gone id [] w h q = tt
  Waiting-remove cb gone id (m ∷ ms) w h (first, rest) = (
    d.get-remove_other gone id w (λ same. absurd (omega (arith, h, same))) ∙ first,
    Waiting-remove cb gone (id + 1) ms w (omega (arith, h)) rest,
  )

  with_waiter_there :
      (id : ℕ) (w : d.Map) (v : ProducerMessageWaiter Callback Message)
      (call : ProducerMessageWaiter Callback Message → Callback × ConfirmationStatus Message)
      (others : d.Map → Confirmed Callback Message)
      → d.get id w ≡ some v
      → (with_waiter (d.remove id w) call others).called
          ≡ call v ∷ (others (d.remove id w).1).called
        × ((with_waiter (d.remove id w) call others).panicked ≡ (others (d.remove id w).1).panicked)
        × ((with_waiter (d.remove id w) call others).waiting ≡ (others (d.remove id w).1).waiting)
  with_waiter_there id w v call others h =
      let there : (d.remove id w).0 ≡ some v = d.remove-get id w ∙ h in rw there (refl, refl, refl)

  with_waiter_missing :
      (id : ℕ) (w : d.Map)
      (call : ProducerMessageWaiter Callback Message → Callback × ConfirmationStatus Message)
      (others : d.Map → Confirmed Callback Message)
      → d.get id w ≡ none
      → ((with_waiter (d.remove id w) call others).called ≡ [])
        × ((with_waiter (d.remove id w) call others).panicked ≡ true)
  with_waiter_missing id w call others h =
      let missing : (d.remove id w).0 ≡ none = d.remove-get id w ∙ h in rw missing (refl, refl)

  Waiting-confirmed :
      (cb : Callback) (id : ℕ) (ms : List Message) (w : d.Map)
      → Waiting cb id ms w
      → ((handle_confirms {Callback = Callback} {Message = Message} (ids_from id ms) w).called
          ≡ confirmed_from cb id ms)
        × ((handle_confirms {Callback = Callback} {Message = Message} (ids_from id ms) w).panicked
            ≡ false)
  unfolding handle_confirms
  Waiting-confirmed cb id [] w h = (refl, refl)
  Waiting-confirmed cb id (m ∷ ms) w (first, rest) =
      let (called, panicked, left) =
        with_waiter_there id w _ (status_of id true ok)
          (handle_confirms {Callback = Callback} {Message = Message} (ids_from (id + 1) ms))
          first in
      let later = Waiting-remove cb id (id + 1) ms w (omega arith) rest in
      let (calls, calm) = Waiting-confirmed cb (id + 1) ms (d.remove id w).1 later in
      (
        called
            ∙ ap
                (λ xs.
                  (cb, record { publishing_id = id; confirmed = true; status = ok; message = m })
                  ∷ xs)
                calls,
        panicked ∙ calm,
      )

  -- A confirmation that names one id twice, as the broker sends it for two messages that the program
  -- gave the same publishing id, calls the one waiter under that id and then panics, whatever ids
  -- follow.
  pub handle_confirms_twice :
      (id : ℕ) (ids : List ℕ) (w : d.Map) (v : ProducerMessageWaiter Callback Message)
      → d.get id w ≡ some v
      → ((handle_confirms {Callback = Callback} {Message = Message} (id ∷ id ∷ ids) w).called
          ≡ (v.cb, record { publishing_id = id; confirmed = true; status = ok; message = v.msg })
            ∷ [])
        × ((handle_confirms {Callback = Callback} {Message = Message} (id ∷ id ∷ ids) w).panicked
            ≡ true)
  unfolding handle_confirms
  handle_confirms_twice id ids w v h =
      let (called, panicked, left) =
        with_waiter_there id w v (status_of id true ok)
          (handle_confirms {Callback = Callback} {Message = Message} (id ∷ ids)) h in
      let (none_called, stopped) =
        with_waiter_missing id (d.remove id w).1 (status_of id true ok) (handle_confirms ids)
          (d.get-remove id w) in
      (
        called
            ∙ ap
                (λ xs.
                  (
                    v.cb,
                    record { publishing_id = id; confirmed = true; status = ok; message = v.msg },
                  )
                  ∷ xs)
                none_called,
        panicked ∙ stopped,
      )

module _ {Callback Message : Type 0} ⦃h : HasPublishingId Message⦄
    ⦃d : DashMap (ProducerMessageWaiter Callback Message)⦄
    ⦃c : Channel (ClientMessage Message)⦄ where
  -- When a producer that is not closed has sent a batch of messages without ids of their own, and its
  -- sequence did not come to 2^64, the confirmation of the batch's ids in their order calls the
  -- callback once for each message, as confirmed under its id and with the message itself, and does
  -- not panic.
  pub batch_confirmed :
      (cb : Callback) (ms : List Message) (reply : Option ClientError)
      (s : ProducerInternal Callback Message)
      → s.closed ≡ false
      → All (λ m. h.publishing_id m ≡ none) ms
      → s.publish_sequence + length ms < u64_mod
      → ((handle_confirms {Callback = Callback} {Message = Message}
            (ids_from s.publish_sequence ms)
            (internal_batch_send cb ms reply s).0.waiting_confirmations).called
          ≡ confirmed_from cb s.publish_sequence ms)
        × ((handle_confirms {Callback = Callback} {Message = Message}
              (ids_from s.publish_sequence ms)
              (internal_batch_send cb ms reply s).0.waiting_confirmations).panicked
            ≡ false)
  batch_confirmed cb ms reply s live own small =
      let (sent, sequence, waits, lower) =
        internal_batch_send-numbered cb ms reply s live own small in
      Waiting-confirmed cb s.publish_sequence ms _ waits
