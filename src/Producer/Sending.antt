-- ===== src/Producer/Sending.antt =====
-- What a send hands on, and what it waits for.
use rabbitmq_stream_rust_cli.Prelude.{
  ℕ, ◌+◌, ◌%◌, ◌<◌, ◌≡◌, refl, ap, ◌∙◌, false, Option, none, some, List, [], ◌∷◌, length, All,
  arith,
}
use rabbitmq_stream_rust_cli.Codec.Ints.{u64_mod}
use rabbitmq_stream_rust_cli.Codec.Strings.{Str}
use rabbitmq_stream_rust_cli.Crates.{DashMap, Channel}
use rabbitmq_stream_rust_cli.Errors.{ClientError}
use rabbitmq_stream_rust_cli.Producer.{
  HasPublishingId, ClientMessage, ProducerMessageWaiter, ProducerInternal, publish_result,
  client_message, prepare_all, internal_batch_send,
}

-- What a filter's extractor, when there is one, takes from a message.
abbrev pub extracted : {Message : Type 0} → Option (Message → Str) → Message → Option Str
extracted none m = none
extracted (some f) m = some (f m)

-- The messages with the ids from `id` on, and their filter values.
abbrev pub numbered :
    {Message : Type 0} → Option (Message → Str) → ℕ → List Message → List (ClientMessage Message)
numbered f id [] = []
numbered f id (m ∷ ms) =
    record { publishing_id = id; message = m; filter_value = extracted f m }
    ∷ numbered f (id + 1) ms

client_message_lem :
    {Message : Type 0} (f : Option (Message → Str)) (id : ℕ) (m : Message)
    → client_message f id m
      ≡ record { publishing_id = id; message = m; filter_value = extracted f m }
unfolding client_message
client_message_lem none id m = refl
client_message_lem (some f) id m = refl

module _ {Callback Message : Type 0} ⦃d : DashMap (ProducerMessageWaiter Callback Message)⦄ where
  -- The messages wait for their confirmation under the ids from `id` on.
  abbrev pub Waiting : Callback → ℕ → List Message → d.Map → Type 0
  Waiting cb id [] waiting = Unit
  Waiting cb id (m ∷ ms) waiting =
      (d.get id waiting ≡ some (record { cb = cb; msg = m })) × Waiting cb (id + 1) ms waiting

module _ {Callback Message : Type 0} ⦃h : HasPublishingId Message⦄
    ⦃d : DashMap (ProducerMessageWaiter Callback Message)⦄
    ⦃c : Channel (ClientMessage Message)⦄ where
  prepare_all_fresh :
      (cb : Callback) (ms : List Message) (s : ProducerInternal Callback Message)
      → All (λ m. h.publishing_id m ≡ none) ms
      → s.publish_sequence + length ms < u64_mod
      → ((prepare_all cb ms s).1 ≡ numbered s.filter_value_extractor s.publish_sequence ms)
        × ((prepare_all cb ms s).0.publish_sequence ≡ s.publish_sequence + length ms)
        × Waiting cb s.publish_sequence ms (prepare_all cb ms s).0.waiting_confirmations
        × ((id : ℕ)
            → id < s.publish_sequence
            → d.get id (prepare_all cb ms s).0.waiting_confirmations
              ≡ d.get id s.waiting_confirmations)
  unfolding prepare_all
  prepare_all_fresh cb [] s own small = (refl, omega arith, tt, λ id lower. refl)
  prepare_all_fresh cb (m ∷ ms) s own small =
      let id : ℕ = s.publish_sequence in
      let wrap : (id + 1) % u64_mod ≡ id + 1 = omega (arith, small) in
      let next : ProducerInternal Callback Message = record s {
        publish_sequence = id + 1;
        waiting_confirmations = d.insert id (record { cb = cb; msg = m }) s.waiting_confirmations;
      } in
      let (msgs, sequence, waits, lower) =
        prepare_all_fresh cb ms next own.1 (omega (arith, small)) in
      rw (own.0, wrap)
        (
          ap (λ xs. client_message s.filter_value_extractor id m ∷ xs) msgs
              ∙ ap (λ x. x ∷ numbered s.filter_value_extractor (id + 1) ms)
                  (client_message_lem s.filter_value_extractor id m),
          omega (arith, sequence),
          (
            lower id (omega arith)
                ∙ d.get-insert id (record { cb = cb; msg = m }) s.waiting_confirmations,
            waits,
          ),
          λ j under.
              lower j (omega (arith, under))
              ∙ d.get-insert_other id j (record { cb = cb; msg = m }) s.waiting_confirmations
                  (λ same. absurd (omega (arith, under, same))),
        )

  -- A batch of messages without ids of their own, sent by a producer that is not closed and whose
  -- sequence does not come to 2^64, is handed to the client in order with consecutive ids from the
  -- sequence on and with the filter value of each message, the sequence goes on behind the last of
  -- them, each message waits for its confirmation under its id, what waited under a lower id waits
  -- on, and the result is that of the client.
  pub internal_batch_send-numbered :
      (cb : Callback) (ms : List Message) (reply : Option ClientError)
      (s : ProducerInternal Callback Message)
      → s.closed ≡ false
      → All (λ m. h.publishing_id m ≡ none) ms
      → s.publish_sequence + length ms < u64_mod
      → ((internal_batch_send cb ms reply s).1 ≡ record {
        published = some (numbered s.filter_value_extractor s.publish_sequence ms);
        result = publish_result reply;
      })
        × ((internal_batch_send cb ms reply s).0.publish_sequence ≡ s.publish_sequence + length ms)
        × Waiting cb s.publish_sequence ms
            (internal_batch_send cb ms reply s).0.waiting_confirmations
        × ((id : ℕ)
            → id < s.publish_sequence
            → d.get id (internal_batch_send cb ms reply s).0.waiting_confirmations
              ≡ d.get id s.waiting_confirmations)
  unfolding internal_batch_send
  internal_batch_send-numbered cb ms reply s live own small =
      let (msgs, sequence, waits, lower) = prepare_all_fresh cb ms s own small in
      simp (live, msgs) (refl, sequence, waits, lower)
