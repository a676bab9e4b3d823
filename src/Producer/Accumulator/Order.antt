-- ===== src/Producer/Accumulator/Order.antt =====
-- Messages leave the accumulator in the order in which they were added, and are counted.
use rabbitmq_stream_rust_cli.Prelude.{
  ℕ, zero, suc, ◌+◌, ◌%◌, ◌<◌, ◌≡◌, refl, sym, ap, ◌∙◌, List, [], ◌∷◌, ◌++◌, append_assoc,
  append-nil, length, length-append, take, drop, take-append-drop, ◌==◌, arith,
}
use rabbitmq_stream_rust_cli.Codec.Ints.{u64_mod}
use rabbitmq_stream_rust_cli.Crates.{Channel}
use rabbitmq_stream_rust_cli.Producer.Accumulator.{MessageAccumulator, add, receive, get}

module _ {A : Type 0} ⦃c : Channel A⦄ where
  abbrev pub queued : MessageAccumulator A → List A
  queued s = c.queued s.channel

  -- The counter holds the number of the queued messages.
  pub record IsCounted (s : MessageAccumulator A) : Type 0 where
    pub count : s.message_count ≡ length (queued s) % u64_mod

  receive-queued :
      (n : ℕ) (q : c.Queue)
      → ((receive {A = A} n q).0 ≡ take n (c.queued q))
        × (c.queued (receive {A = A} n q).1 ≡ drop n (c.queued q))
  unfolding receive
  receive-queued zero q = (refl, refl)
  receive-queued (suc n) q = go (c.queued q) refl (receive-queued n (c.try_recv q).1)
    where
      go :
          (xs : List A)
          → c.queued q ≡ xs
          → ((receive {A = A} n (c.try_recv q).1).0 ≡ take n (c.queued (c.try_recv q).1))
            × (c.queued (receive {A = A} n (c.try_recv q).1).1 ≡ drop n (c.queued (c.try_recv q).1))
          → ((receive {A = A} (suc n) q).0 ≡ take (suc n) xs)
            × (c.queued (receive {A = A} (suc n) q).1 ≡ drop (suc n) xs)
      go [] e ih = let (nothing, left) = c.try_recv_empty q e in (rw nothing refl, rw nothing left)
      go (x ∷ xs) e ih =
          let (oldest, left) = c.try_recv_oldest q x xs e in
          let (first, rest) = ih in
          (rw (oldest, first, left) refl, rw oldest (rest ∙ ap (drop n) left))

  -- A batch is the oldest messages, as many as are asked for or as there are; the others stay queued
  -- in their order, and the counter goes on to hold their number.
  pub get-queued :
      (n : ℕ) (s : MessageAccumulator A)
      → IsCounted s
      → length (queued s) < u64_mod
      → ((get n s).1 ≡ take n (queued s))
        × (queued (get n s).0 ≡ drop n (queued s))
        × IsCounted (get n s).0
  unfolding get
  get-queued n s h small =
      let (first, rest) = receive-queued n s.channel in
      let whole = ap length (take-append-drop n (queued s)) in
      let parts = length-append (take n (queued s)) (drop n (queued s)) in
      (
        first,
        rest,
        record {
          count = omega (arith, h.count, ap length first, ap length rest, whole, parts, small);
        },
      )

  -- An added message is queued last, is counted, and is reported to fill the batch exactly when as many
  -- messages are queued as the batch size.
  pub add-queued :
      (a : A) (s : MessageAccumulator A)
      → IsCounted s
      → length (queued s) + 1 < u64_mod
      → (queued (add a s).0 ≡ queued s ++ (a ∷ []))
        × IsCounted (add a s).0
        × ((add a s).1 ≡ (length (queued (add a s).0) == s.capacity))
  unfolding add
  add-queued a s h small =
      let last = c.queued-send a s.channel in
      let len : length (c.queued (c.send a s.channel)) ≡ length (queued s) + 1 =
        ap length last ∙ length-append (queued s) (a ∷ []) in
      let count : s.message_count ≡ length (queued s) = omega (arith, h.count, small) in
      (last, record { count = omega (arith, len, count) }, rw (len, count) refl)

-- The calls of an accumulator, in the order in which they come.
pub data Call (A : Type 0) : Type 0 where
  adding : A → Call A
  getting : ℕ → Call A

abbrev pub added : {A : Type 0} → List (Call A) → List A
added [] = []
added (adding a ∷ calls) = a ∷ added calls
added (getting n ∷ calls) = added calls

module _ {A : Type 0} ⦃c : Channel A⦄ where
  -- The state after the calls, and all that the `get`s among them returned.
  unfoldable pub run : List (Call A) → MessageAccumulator A → MessageAccumulator A × List A
  unfolding add get
  run [] s = (s, [])
  run (adding a ∷ calls) s = run calls (add a s).0
  run (getting n ∷ calls) s =
      let (next, batch) = get n s in
      let (last, batches) = run calls next in (last, batch ++ batches)

  -- Whatever the order of the calls: the batches one behind the other, and then what is queued, are
  -- what was queued before and then the added messages. No message is lost, doubled or overtaken.
  pub run_in_order :
      (calls : List (Call A)) (s : MessageAccumulator A)
      → (run calls s).1 ++ queued (run calls s).0 ≡ queued s ++ added calls
  unfolding run add get
  run_in_order [] s = sym (append-nil (queued s))
  run_in_order (adding a ∷ calls) s =
      run_in_order calls (add a s).0
      ∙ ap (λ xs. xs ++ added calls) (c.queued-send a s.channel)
      ∙ append_assoc (queued s) (a ∷ []) (added calls)
  run_in_order (getting n ∷ calls) s =
      let (first, rest) = receive-queued n s.channel in
      append_assoc (get n s).1 (run calls (get n s).0).1 (queued (run calls (get n s).0).0)
      ∙ ap (λ xs. (get n s).1 ++ xs) (run_in_order calls (get n s).0)
      ∙ sym (append_assoc (get n s).1 (queued (get n s).0) (added calls))
      ∙ ap (λ xs. xs ++ added calls)
          (ap (λ xs. xs ++ queued (get n s).0) first
            ∙ ap (λ xs. take n (queued s) ++ xs) rest
            ∙ take-append-drop n (queued s))
