-- ===== src/Client/Framing/Polling.antt =====
-- What polling a buffer takes from it.
use rabbitmq_stream_rust_cli.Prelude.{
  ℕ, ◌-◌, ◌≡◌, refl, sym, ap, ◌∙◌, List, ◌++◌, length, length-append, drop, drop-append, arith,
}
use rabbitmq_stream_rust_cli.Codec.Outcome.{
  ok, err, panic, DecodeError, incomplete, utf8_error, unknown_response_code,
  unsupported_response_type, mismatch_size, message_parse, invalid_format_code, empty, Outcome,
}
use rabbitmq_stream_rust_cli.Codec.ByteOrder.{ByteOrder}
use rabbitmq_stream_rust_cli.Message.{MessageCodec}
use rabbitmq_stream_rust_cli.Response
use rabbitmq_stream_rust_cli.Response.{Response, ResponseKind}
use rabbitmq_stream_rust_cli.Response.Local.{decode-IsLocal}
use rabbitmq_stream_rust_cli.Client.Framing.{item, on_error, polled, poll}

on_error_item : {A : Type 0} (e : DecodeError) {a : A} → on_error e ≡ item a → ⊥
on_error_item (incomplete n) h = absurd (cc)
on_error_item (utf8_error bs) h = absurd (cc)
on_error_item (unknown_response_code n) h = absurd (cc)
on_error_item (unsupported_response_type n) h = absurd (cc)
on_error_item (mismatch_size n) h = absurd (cc)
on_error_item (message_parse bs) h = absurd (cc)
on_error_item (invalid_format_code n) h = absurd (cc)
on_error_item empty h = absurd (cc)

drop_front :
    (front rest : List ℕ) → drop (length (front ++ rest) - length rest) (front ++ rest) ≡ rest
drop_front front rest = drop-append front rest (omega (arith, length-append front rest))

module _ {Message : Type 0} ⦃m : MessageCodec Message⦄ ⦃b : ByteOrder⦄ where
  -- Polling returns what decoding returns, and advances the buffer to what decoding leaves.
  pub poll-decode :
      (front rest : List ℕ) (r : Response Message)
      → Response.decode (front ++ rest) ≡ ok (rest, r)
      → poll (front ++ rest) ≡ (rest, item r)
  unfolding poll
  poll-decode front rest r h = rw h (ap (λ xs. (xs, item r)) (drop_front front rest))

  item_decoded :
      (buf left : List ℕ) (r : Response Message)
      → poll buf ≡ (left, item r)
      → (rest : List ℕ) × (Response.decode buf ≡ ok (rest, r))
        × (left ≡ drop (length buf - length rest) buf)
  unfolding poll
  item_decoded buf left r h = go (Response.decode buf) refl h
    where
      go :
          (o : Outcome (List ℕ × Response Message))
          → Response.decode buf ≡ o
          → polled buf o ≡ (left, item r)
          → (rest : List ℕ) × (Response.decode buf ≡ ok (rest, r))
            × (left ≡ drop (length buf - length rest) buf)
      go (ok (rest, a)) e h = (rest, cc, cc)
      go (err x) e h = absurd (on_error_item x (ap (λ p. p.1) h))
      go panic e h = absurd (cc)

  -- A poll that returns a response has taken the front of the buffer that the response stands in
  -- and nothing else, and no bytes that arrive behind that front change what is returned.
  pub poll_takes_front :
      (buf left : List ℕ) (r : Response Message)
      → poll buf ≡ (left, item r)
      → (front : List ℕ) × (buf ≡ front ++ left)
        × ((more : List ℕ) → poll (front ++ more) ≡ (more, item r))
  poll_takes_front buf left r h =
      let (rest, decoded, dropped) = item_decoded buf left r h in
      let (front, split, again) = decode-IsLocal.took buf rest r decoded in
      let same : left ≡ rest =
        dropped ∙ ap (λ xs. drop (length xs - length rest) xs) split ∙ drop_front front rest in
      (
        front,
        split ∙ ap (λ xs. front ++ xs) (sym same),
        λ more. poll-decode front more r (again more),
      )
