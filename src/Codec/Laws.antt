-- ===== src/Codec/Laws.antt =====
-- A decoder reads back what an encoder wrote: the statement, and its rules for composed codecs.
use rabbitmq_stream_rust_cli.Prelude.{
  ℕ, ◌+◌, ◌≡◌, refl, ap, ◌∙◌, List, [], ◌++◌, append_assoc, length, length-append, arith,
}
use rabbitmq_stream_rust_cli.Codec.Outcome.{ok, Decode, pure, ◌>>=◌, >>=_step}
use rabbitmq_stream_rust_cli.Codec.Emit.{Emit, done, failed, bytes, ◌⊕◌}

-- The encoder succeeds with `size` bytes, and whatever follows them, `d` reads them as `a` and
-- leaves the rest.
pub record Codes {A : Type 0} (d : Decode A) (e : Emit) (size : ℕ) (a : A) : Type 0 where
  pub written : e ≡ done (bytes e)
  pub sized : length (bytes e) ≡ size
  pub reads : (rest : List ℕ) → d (bytes e ++ rest) ≡ ok (rest, a)

pub ⊕-done :
    (e f : Emit) → e ≡ done (bytes e) → f ≡ done (bytes f) → (e ⊕ f) ≡ done (bytes e ++ bytes f)
⊕-done (done xs) (done ys) p q = refl
⊕-done (done xs) (failed ys x) p q = absurd (cc)
⊕-done (failed xs x) f p q = absurd (cc)

module _ {A B : Type 0} {d : Decode A} where
  pub Codes-bind :
      (k : A → Decode B) {e f : Emit} {m n : ℕ} {a : A} {b : B}
      → Codes d e m a
      → Codes (k a) f n b
      → Codes (d >>= k) (e ⊕ f) (m + n) b
  Codes-bind k {e} {f} p q = record {
    written = both ∙ ap done (ap bytes both');
    sized = rw (ap bytes both, length-append) (omega (arith, p.sized, q.sized));
    reads = λ rest.
        rw (ap bytes both, append_assoc)
          (>>=_step d k _ (p.reads (bytes f ++ rest)) ∙ q.reads rest);
  }
    where
      both : (e ⊕ f) ≡ done (bytes e ++ bytes f)
      both = ⊕-done e f p.written q.written

      both' : done (bytes e ++ bytes f) ≡ (e ⊕ f)
      both' = rw both

  -- The last field: what follows it writes nothing.
  pub Codes-last :
      (k : A → Decode B) {e : Emit} {m : ℕ} {a : A} {b : B}
      → Codes d e m a
      → ((rest : List ℕ) → k a rest ≡ ok (rest, b))
      → Codes (d >>= k) e m b
  Codes-last k p q = record {
    written = p.written;
    sized = p.sized;
    reads = λ rest. >>=_step d k _ (p.reads rest) ∙ q rest;
  }

module _ {A : Type 0} {d : Decode A} {e : Emit} {a : A} where
  pub Codes-resize : {m n : ℕ} → Codes d e m a → m ≡ n → Codes d e n a
  Codes-resize p h = record { written = p.written; sized = p.sized ∙ h; reads = p.reads }

pub Codes-nothing : {A : Type 0} (a : A) → Codes (pure a) (done []) 0 a
unfolding pure
Codes-nothing a = record { written = refl; sized = refl; reads = λ rest. refl }

-- A step that only computes, such as `unwrap` of a value that is there, reads nothing.
pub Codes-pure_bind :
    {A B : Type 0} (a : A) (k : A → Decode B) {e : Emit} {n : ℕ} {b : B}
    → Codes (k a) e n b
    → Codes (pure a >>= k) e n b
unfolding ◌>>=◌
Codes-pure_bind a k p = record { written = p.written; sized = p.sized; reads = p.reads }
