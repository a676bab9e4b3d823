-- ===== src/Codec/Outcome.antt =====
-- protocol/src/error.rs, and the `Decoder` trait of protocol/src/codec/mod.rs.
-- A decoder takes the bytes that are left and returns what it leaves, `let (input, x) = f(input)?`
-- is the bind, and a Rust panic is an outcome of its own.
use rabbitmq_stream_rust_cli.Prelude.{ℕ, ◌≡◌, refl, Option, none, some, List}

pub data DecodeError : Type 0 where
  incomplete : ℕ → DecodeError
  utf8_error : List ℕ → DecodeError
  unknown_response_code : ℕ → DecodeError
  unsupported_response_type : ℕ → DecodeError
  mismatch_size : ℕ → DecodeError
  message_parse : List ℕ → DecodeError
  invalid_format_code : ℕ → DecodeError
  empty : DecodeError

pub data EncodeError : Type 0 where
  max_size_error : ℕ → EncodeError

pub data Outcome {ℓ} (A : Type ℓ) : Type ℓ where
  ok : A → Outcome A
  err : DecodeError → Outcome A
  panic : Outcome A

-- `fn decode(input: &[u8]) -> Result<(&[u8], Self), DecodeError>`
abbrev pub Decode : Type 0 → Type 0
Decode A = List ℕ → Outcome (List ℕ × A)

module _ {A : Type 0} where
  unfoldable pub pure : A → Decode A
  pure a input = ok (input, a)

  unfoldable pub fail : DecodeError → Decode A
  fail e input = err e

  unfoldable pub crash : Decode A
  crash input = panic

  -- `Option::unwrap`
  abbrev pub unwrap : Option A → Decode A
  unwrap none = crash
  unwrap (some a) = pure a

module _ {A B : Type 0} where
  abbrev pub continue : Outcome (List ℕ × A) → (A → Decode B) → Outcome (List ℕ × B)
  continue (ok (input, a)) k = k a input
  continue (err e) k = err e
  continue panic k = panic

  infixl 5 ◌>>=◌
  unfoldable pub ◌>>=◌ : Decode A → (A → Decode B) → Decode B
  unfolding pure fail crash
  ◌>>=◌ m k input = continue (m input) k

  infixl 5 ◌>>◌
  abbrev pub ◌>>◌ : Decode A → Decode B → Decode B
  m >> d = m >>= λ _. d

  pub >>=_step :
      (m : Decode A) (k : A → Decode B) (input : List ℕ) {rest : List ℕ} {a : A}
      → m input ≡ ok (rest, a)
      → (m >>= k) input ≡ k a rest
  unfolding ◌>>=◌
  >>=_step m k input h = rw h

  -- The inversion of a successful bind.
  pub >>=_ok :
      (m : Decode A) (k : A → Decode B) (input : List ℕ) {rest : List ℕ} {b : B}
      → (m >>= k) input ≡ ok (rest, b)
      → (mid : List ℕ) × (a : A) × (m input ≡ ok (mid, a)) × (k a mid ≡ ok (rest, b))
  unfolding ◌>>=◌
  >>=_ok m k input {rest} {b} h = go (m input) refl h
    where
      go :
          (o : Outcome (List ℕ × A))
          → m input ≡ o
          → continue o k ≡ ok (rest, b)
          → (mid : List ℕ) × (a : A) × (m input ≡ ok (mid, a)) × (k a mid ≡ ok (rest, b))
      go (ok (mid, a)) e h = (mid, a, e, h)
      go (err e) p h = absurd (cc)
      go panic p h = absurd (cc)
