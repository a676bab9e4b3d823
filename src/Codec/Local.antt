-- ===== src/Codec/Local.antt =====
-- A decoder that succeeds has looked at the bytes that it took and at no others.
use rabbitmq_stream_rust_cli.Prelude.{
  Bool, true, false, if◌then◌else◌, ℕ, ◌≡◌, sym, ap, ◌∙◌, Option, none, some, List, [], ◌++◌,
  append_assoc,
}
use rabbitmq_stream_rust_cli.Codec.Outcome.{
  DecodeError, ok, Decode, pure, fail, crash, unwrap, ◌>>=◌, >>=_step, >>=_ok,
}

-- What a successful run of `d` tells of its input.
abbrev pub TookFront : {A : Type 0} → Decode A → List ℕ → List ℕ → A → Type 0
TookFront d input rest a =
    (front : List ℕ) × (input ≡ front ++ rest)
    × ((more : List ℕ) → d (front ++ more) ≡ ok (more, a))

pub record IsLocal {A : Type 0} (d : Decode A) : Type 0 where
  pub took : (input rest : List ℕ) (a : A) → d input ≡ ok (rest, a) → TookFront d input rest a

module _ {A : Type 0} where
  pub IsLocal-pure : (a : A) → IsLocal (pure a)
  unfolding pure
  IsLocal-pure a = record { took = λ input rest x h. ([], cc, λ more. cc) }

  pub IsLocal-fail : (e : DecodeError) → IsLocal (fail {A = A} e)
  unfolding fail
  IsLocal-fail e = record { took = λ input rest x h. absurd (cc) }

  pub IsLocal-crash : IsLocal (crash {A = A})
  unfolding crash
  IsLocal-crash = record { took = λ input rest x h. absurd (cc) }

  pub IsLocal-unwrap : (o : Option A) → IsLocal (unwrap o)
  IsLocal-unwrap none = IsLocal-crash
  IsLocal-unwrap (some a) = IsLocal-pure a

module _ {A B : Type 0} where
  pub IsLocal-bind :
      (d : Decode A) (k : A → Decode B) → IsLocal d → ((a : A) → IsLocal (k a)) → IsLocal (d >>= k)
  IsLocal-bind d k p q = record {
    took = λ input rest b h.
        let (mid, a, first, second) = >>=_ok d k input h in
        let (front, split, again) = p.took input mid a first in
        let (front', split', again') = (q a).took mid rest b second in
        (
          front ++ front',
          split ∙ ap (λ xs. front ++ xs) split' ∙ sym (append_assoc front front' rest),
          λ more. rw append_assoc (>>=_step d k _ (again (front' ++ more)) ∙ again' more),
        );
  }

module _ {A : Type 0} where
  pub IsLocal-if :
      (c : Bool) (d e : Decode A) → IsLocal d → IsLocal e → IsLocal (if c then d else e)
  IsLocal-if true d e p q = p
  IsLocal-if false d e p q = q

pub ruleset local_rules =
    (IsLocal-pure, IsLocal-fail, IsLocal-crash, IsLocal-unwrap, IsLocal-bind, IsLocal-if)
