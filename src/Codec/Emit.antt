-- ===== src/Codec/Emit.antt =====
-- The `Encoder` trait of protocol/src/codec/mod.rs: an encoder appends to its writer, and an error
-- leaves in the writer what was appended before it. The writers in use never fail themselves.
use rabbitmq_stream_rust_cli.Prelude.{ℕ, ◌≡◌, refl, ap, List, [], ◌∷◌, ◌++◌, append_assoc}
use rabbitmq_stream_rust_cli.Codec.Outcome.{EncodeError}

pub data Emit : Type 0 where
  done : List ℕ → Emit
  failed : List ℕ → EncodeError → Emit

-- What an encoder has appended, whether it succeeds or not.
abbrev pub bytes : Emit → List ℕ
bytes (done bs) = bs
bytes (failed bs e) = bs

infixr 20 ◌⊕◌
-- `a?; b`
abbrev pub ◌⊕◌ : Emit → Emit → Emit
done xs ⊕ done ys = done (xs ++ ys)
done xs ⊕ failed ys e = failed (xs ++ ys) e
failed xs e ⊕ b = failed xs e

-- `for x in self { x.encode(writer)?; }`
unfoldable pub emit_each : {A : Type 0} → (A → Emit) → List A → Emit
emit_each f [] = done []
emit_each f (x ∷ xs) = f x ⊕ emit_each f xs

pub ⊕_assoc : (a b c : Emit) → ((a ⊕ b) ⊕ c) ≡ (a ⊕ (b ⊕ c))
⊕_assoc (done xs) (done ys) (done zs) = ap done (append_assoc xs ys zs)
⊕_assoc (done xs) (done ys) (failed zs e) = ap (λ bs. failed bs e) (append_assoc xs ys zs)
⊕_assoc (done xs) (failed ys e) c = refl
⊕_assoc (failed xs e) b c = refl

-- What is written before a step that succeeds stands in front of what the rest writes.
pub ⊕-bytes : (xs : List ℕ) (e : Emit) → bytes (done xs ⊕ e) ≡ xs ++ bytes e
⊕-bytes xs (done ys) = refl
⊕-bytes xs (failed ys e) = refl

pub ⊕-written :
    (xs : List ℕ) (e : Emit) → (done xs ⊕ e) ≡ done (bytes (done xs ⊕ e)) → e ≡ done (bytes e)
⊕-written xs (done ys) h = refl
⊕-written xs (failed ys e) h = absurd (cc)
