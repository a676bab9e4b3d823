-- ===== src/Codec/Yields.antt =====
-- What every value that a decoder returns satisfies, with a rule for each way to build a decoder.
use mathlib.Core.Path.{subst}
use rabbitmq_stream_rust_cli.Prelude.{ℕ, ◌≡◌, Bool, true, false, List, if◌then◌else◌}
use rabbitmq_stream_rust_cli.Codec.Outcome.{
  DecodeError, ok, Decode, pure, fail, crash, ◌>>=◌, >>=_ok,
}

pub record Yields {A : Type 0} (P : A → Type 0) (d : Decode A) : Type 0 where
  pub yield : (input rest : List ℕ) (a : A) → d input ≡ ok (rest, a) → P a

module _ {A : Type 0} {P : A → Type 0} where
  pub Yields-pure : (a : A) → P a → Yields P (pure a)
  unfolding pure
  Yields-pure a p = record { yield = λ input rest x h. subst P (cc) p }

  pub Yields-fail : (e : DecodeError) → Yields P (fail e)
  unfolding fail
  Yields-fail e = record { yield = λ input rest x h. absurd (cc) }

  pub Yields-crash : Yields P crash
  unfolding crash
  Yields-crash = record { yield = λ input rest x h. absurd (cc) }

  pub Yields-bind :
      {B : Type 0} (d : Decode B) (k : B → Decode A)
      → ((x : B) → Yields P (k x))
      → Yields P (d >>= k)
  Yields-bind d k q = record {
    yield = λ input rest a h.
        let (mid, x, first, second) = >>=_ok d k input h in (q x).yield mid rest a second;
  }

  pub Yields-if :
      (c : Bool) (d e : Decode A) → Yields P d → Yields P e → Yields P (if c then d else e)
  Yields-if true d e p q = p
  Yields-if false d e p q = q

pub ruleset yield_rules = (Yields-pure, Yields-fail, Yields-crash, Yields-bind, Yields-if)
