-- ===== src/Amqp/TypeCode/Keeps.antt =====
-- Decoding a type code takes a byte, and looking at one takes none.
use rabbitmq_stream_rust_cli.Prelude.{ℕ, ◌≡◌, refl, none, some, List, [], ◌∷◌, length, ◌<◌, arith}
use rabbitmq_stream_rust_cli.Codec.Outcome.{
  Outcome, ok, err, panic, invalid_format_code, Decode, pure, fail,
}
use rabbitmq_stream_rust_cli.Codec.Ints.{read_u8}
use rabbitmq_stream_rust_cli.Codec.Recursion.{
  Keeps, Shrinks, Agree, Keeps-bind, Keeps-pure, Keeps-fail, Shrinks-bind, Agree-refl, keep_rules,
}
use rabbitmq_stream_rust_cli.Amqp.Errors.{
  Target, Externals, AmqpDecodeError, fail_with, invalid_code,
}
use rabbitmq_stream_rust_cli.Amqp.TypeCode
use rabbitmq_stream_rust_cli.Amqp.TypeCode.{TypeCode, try_from, known, peek, looked, map_second}

known-Keeps : (n : ℕ) → Keeps (known n)
unfolding known
known-Keeps n =
    elim (try_from n)
      as (λ o. Keeps (elim o [ none ↦ fail (invalid_format_code n) | some c ↦ pure c ])) [
        | none ↦ Keeps-fail _
        | some c ↦ Keeps-pure c
      ]

read_u8-Shrinks : Shrinks read_u8
unfolding read_u8
read_u8-Shrinks = record { shrink = go }
  where
    go : (input rest : List ℕ) (n : ℕ) → read_u8 input ≡ ok (rest, n) → length rest < length input
    go [] rest n h = absurd (cc)
    go (b ∷ input) rest n h = let same : input ≡ rest = cc in rw same (omega arith)

pub code-Shrinks : Shrinks TypeCode.decode
unfolding TypeCode.decode
code-Shrinks = Shrinks-bind read_u8 known read_u8-Shrinks known-Keeps

module _ {A B : Type 0} where
  pub map_second-Keeps : (f : A → B) (d : Decode A) → Keeps d → Keeps (map_second f d)
  unfolding map_second
  map_second-Keeps f d h = Keeps-bind d _ h (λ a. Keeps-pure (f a))

  pub map_second-Shrinks : (f : A → B) (d : Decode A) → Shrinks d → Shrinks (map_second f d)
  unfolding map_second
  map_second-Shrinks f d h = Shrinks-bind d _ h (λ a. Keeps-pure (f a))

  looked_ok :
      (input : List ℕ) (o : Outcome (List ℕ × A)) (k : A → Decode B) {rest : List ℕ} {c : B}
      → looked input o k ≡ ok (rest, c)
      → (a : A) × (k a input ≡ ok (rest, c))
  looked_ok input (ok (mid, a)) k h = (a, h)
  looked_ok input (err e) k h = absurd (cc)
  looked_ok input panic k h = absurd (cc)

  pub peek-Keeps : (d : Decode A) (k : A → Decode B) → ((a : A) → Keeps (k a)) → Keeps (peek d k)
  unfolding peek
  peek-Keeps d k h = record {
    keep = λ input rest c e.
        let (a, found) = looked_ok input (d input) k e in (h a).keep input rest c found;
  }

  pub peek-Shrinks :
      (d : Decode A) (k : A → Decode B) → ((a : A) → Shrinks (k a)) → Shrinks (peek d k)
  unfolding peek
  peek-Shrinks d k h = record {
    shrink = λ input rest c e.
        let (a, found) = looked_ok input (d input) k e in (h a).shrink input rest c found;
  }

  pub peek-Agree :
      (n : ℕ) (d : Decode A) (k l : A → Decode B)
      → ((a : A) → Agree n (k a) (l a))
      → Agree n (peek d k) (peek d l)
  unfolding peek
  peek-Agree n d k l h = record { agree = λ input less. go input less (d input) }
    where
      go :
          (input : List ℕ)
          → length input < n
          → (o : Outcome (List ℕ × A)) → looked input o k ≡ looked input o l
      go input less (ok (mid, a)) = (h a).agree input less
      go input less (err e) = refl
      go input less panic = refl

module _ ⦃x : Externals⦄ {A : Type 0} where
  pub fail_with-Keeps : (e : AmqpDecodeError) → Keeps (fail_with {A = A} e)
  unfolding fail_with
  fail_with-Keeps e = Keeps-fail _

  pub invalid_code-Keeps : (t : Target) (c : TypeCode) → Keeps (invalid_code {A = A} t c)
  unfolding invalid_code
  invalid_code-Keeps t c = fail_with-Keeps (AmqpDecodeError.invalid_type_code_for t c)

module _ ⦃x : Externals⦄ {A : Type 0} where
  pub fail_with-Shrinks : (e : AmqpDecodeError) → Shrinks (fail_with {A = A} e)
  unfolding fail_with fail
  fail_with-Shrinks e = record { shrink = λ input rest a h. absurd (cc) }

  pub invalid_code-Shrinks : (t : Target) (c : TypeCode) → Shrinks (invalid_code {A = A} t c)
  unfolding invalid_code fail_with fail
  invalid_code-Shrinks t c = record { shrink = λ input rest a h. absurd (cc) }

pub ruleset code_keep_rules =
    (keep_rules, map_second-Keeps, peek-Keeps, fail_with-Keeps, invalid_code-Keeps)
