-- ===== src/Amqp/Message/Termination.antt =====
-- Decoding a message ends on every input: each section takes a byte.
use rabbitmq_stream_rust_cli.Prelude.{
  ℕ, suc, ◌<◌, ◌≤◌, ◌≡◌, refl, ◌∙◌, List, [], ◌∷◌, length, arith,
}
use rabbitmq_stream_rust_cli.Codec.Outcome.{ok, Decode, pure, ◌>>=◌, >>=_step}
use rabbitmq_stream_rust_cli.Codec.ByteOrder.{ByteOrder}
use rabbitmq_stream_rust_cli.Codec.Recursion.{
  recursive, Keeps, Agree, Recurses, Keeps-pure, Keeps-bind, Agree-shrunk, Shrinks-Keeps,
  recursive_step, cut_off, recursive-cut_off,
}
use rabbitmq_stream_rust_cli.Amqp.Errors.{Externals}
use rabbitmq_stream_rust_cli.Amqp.Section.{MessageSection, decode_section}
use rabbitmq_stream_rust_cli.Amqp.Section.Laws.{section-Shrinks}
use rabbitmq_stream_rust_cli.Amqp.Message.{AmqpMessage, default, store, message_step, decode}

module _ ⦃b : ByteOrder⦄ ⦃x : Externals⦄ where
  abbrev Again : Type 0
  Again = AmqpMessage → Decode AmqpMessage

  pub message_step-Recurses : Recurses message_step
  message_step-Recurses = record { keeps = keeps; needs_less = needs_less }
    where
      keeps :
          (f : Again)
          → ((m : AmqpMessage) → Keeps (f m))
          → (m : AmqpMessage) → Keeps (message_step f m)
      keeps f h m = record { keep = go }
        where
          go :
              (input rest : List ℕ) (a : AmqpMessage)
              → message_step f m input ≡ ok (rest, a)
              → length rest ≤ length input
          go [] rest a e = unfold message_step in (Keeps-pure m).keep [] rest a e
          go (byte ∷ input) rest a e =
              unfold message_step in
              (Keeps-bind decode_section _ (Shrinks-Keeps _ section-Shrinks)
                  (λ sec. h (store sec m))).keep
                (byte ∷ input) rest a e

      needs_less :
          (n : ℕ) (f g : Again)
          → ((m : AmqpMessage) → Keeps (f m))
          → ((m : AmqpMessage) → Agree n (f m) (g m))
          → (m : AmqpMessage) → Agree (suc n) (message_step f m) (message_step g m)
      needs_less n f g h p m = record { agree = go }
        where
          go :
              (input : List ℕ)
              → length input < suc n
              → message_step f m input ≡ message_step g m input
          go [] less = unfold message_step in refl
          go (byte ∷ input) less =
              unfold message_step in
              (Agree-shrunk n decode_section _ _ section-Shrinks (λ sec. p (store sec m))).agree
                (byte ∷ input) less

  -- The rounds of the loop that are left, with the message so far.
  unfoldable pub rounds : Again
  unfolding recursive
  rounds = recursive message_step

  -- The loop ends at the end of the input, and otherwise takes a section, stores it, and goes on.
  pub rounds-step :
      (m : AmqpMessage)
      → (rounds m [] ≡ ok ([], m))
        × ((byte : ℕ) (input : List ℕ)
            → rounds m (byte ∷ input)
              ≡ (decode_section >>= λ sec. rounds (store sec m)) (byte ∷ input))
  unfolding rounds
  rounds-step m = (
    recursive_step message_step message_step-Recurses m [] ∙ (unfold message_step pure in refl),
    λ byte input.
        recursive_step message_step message_step-Recurses m (byte ∷ input)
        ∙ (unfold message_step in refl),
  )

  -- The loop that decodes a message, cut off after more rounds than there are bytes, gives the same
  -- whatever is done at the cut, so that the cut is not reached; and the loop ends at the end of
  -- the input, and otherwise takes a section, stores it, and goes on with what is left.
  pub cut_off-rounds :
      (out : AmqpMessage → Decode AmqpMessage) (n : ℕ) (m : AmqpMessage) (input : List ℕ)
      → length input < n
      → (cut_off message_step out n m input ≡ rounds m input)
        × (rounds m [] ≡ ok ([], m))
        × ((byte : ℕ) (more : List ℕ)
            → rounds m (byte ∷ more)
              ≡ (decode_section >>= λ sec. rounds (store sec m)) (byte ∷ more))
  cut_off-rounds out n m input h = (
    unfold rounds in recursive-cut_off message_step message_step-Recurses out n m input h,
    (rounds-step m).0,
    (rounds-step m).1,
  )

  -- A section that the input starts with is stored, and the loop goes on behind it.
  pub rounds_section :
      (m : AmqpMessage) (input : List ℕ) {rest : List ℕ} {sec : MessageSection}
      → decode_section input ≡ ok (rest, sec)
      → rounds m input ≡ rounds (store sec m) rest
  rounds_section m [] {rest} {sec} h = absurd (omega (arith, section-Shrinks.shrink [] rest sec h))
  rounds_section m (byte ∷ input) h =
      (rounds-step m).1 byte input ∙ >>=_step decode_section _ (byte ∷ input) h

  pub decode-rounds : (input : List ℕ) → decode input ≡ rounds default input
  unfolding decode rounds
  decode-rounds input = refl
