-- ===== src/Amqp/Message/Moves.antt =====
-- Written sections move the decoding loop from one message to another.
use rabbitmq_stream_rust_cli.Prelude.{
  ℕ, ◌+◌, ◌%◌, ◌≡◌, refl, ap, ◌∙◌, Option, none, some, List, [], ◌∷◌, ◌++◌, append_assoc,
  append-nil, length, length-append, All, arith,
}
use rabbitmq_stream_rust_cli.Codec.Emit.{Emit, done, bytes, emit_each, ◌⊕◌}
use rabbitmq_stream_rust_cli.Codec.ByteOrder.{ByteOrder}
use rabbitmq_stream_rust_cli.Codec.Laws.{Codes, ⊕-done}
use rabbitmq_stream_rust_cli.Codec.Ints.{u32_mod, ◌⊞◌}
use rabbitmq_stream_rust_cli.Codec.Vectors.Laws.{total}
use rabbitmq_stream_rust_cli.Amqp.Errors.{Externals}
use rabbitmq_stream_rust_cli.Amqp.Simple.Laws.{Each}
use rabbitmq_stream_rust_cli.Amqp.Section.{MessageSection, decode_section}
use rabbitmq_stream_rust_cli.Amqp.Message.{
  AmqpMessage, plus_some, emit_some, fold_sections, store, amqp_codec,
}
use rabbitmq_stream_rust_cli.Amqp.Message.Termination.{rounds, rounds_section}

-- True lengths, before they are cut to 32 bits.
abbrev pub some_len : {A : Type 0} → (A → ℕ) → Option A → ℕ
some_len g none = 0
some_len g (some v) = g v

pub plus_some_lem :
    {A : Type 0} (f g : A → ℕ) (o : Option A) (acc : ℕ)
    → ((v : A) → f v ≡ g v % u32_mod)
    → plus_some f o (acc % u32_mod) ≡ (acc + some_len g o) % u32_mod
plus_some_lem f g none acc h = omega arith
plus_some_lem f g (some v) acc h = omega (arith, h v)

pub fold_sections_lem :
    {A : Type 0} (f : A → ℕ) (tag : ℕ) (vs : List A) (acc : ℕ)
    → fold_sections f tag vs (acc % u32_mod) ≡ (acc + total (λ v. tag + f v) vs) % u32_mod
fold_sections_lem f tag [] acc = omega arith
fold_sections_lem f tag (v ∷ vs) acc =
    let start : acc % u32_mod ⊞ f v ⊞ tag ≡ (acc + (tag + f v)) % u32_mod = omega arith in
    ap (λ s. fold_sections f tag vs s) start
    ∙ fold_sections_lem f tag vs (acc + (tag + f v))
    ∙ omega arith

module _ ⦃b : ByteOrder⦄ ⦃x : Externals⦄ where
  -- What is written moves the loop from one message to another, whatever follows it.
  pub record Moves (m : AmqpMessage) (e : Emit) (n : ℕ) (m' : AmqpMessage) : Type 0 where
    pub written : e ≡ done (bytes e)
    pub sized : length (bytes e) ≡ n
    pub moves : (rest : List ℕ) → rounds m (bytes e ++ rest) ≡ rounds m' rest

  pub Moves-nothing : (m : AmqpMessage) → Moves m (done []) 0 m
  Moves-nothing m = record { written = refl; sized = refl; moves = λ rest. refl }

  pub Moves-⊕ :
      {m m' m'' : AmqpMessage} {e f : Emit} {n k : ℕ}
      → Moves m e n m'
      → Moves m' f k m''
      → Moves m (e ⊕ f) (n + k) m''
  Moves-⊕ {e = e} {f = f} p q =
      let both = ⊕-done e f p.written q.written in
      record {
        written = rw both refl;
        sized = rw both (omega (arith, length-append (bytes e) (bytes f), p.sized, q.sized));
        moves = λ rest. rw (both, append_assoc) (p.moves (bytes f ++ rest) ∙ q.moves rest);
      }

  pub section-Moves :
      (m : AmqpMessage) (sec : MessageSection) {e : Emit} {n : ℕ}
      → Codes decode_section e n sec
      → Moves m e n (store sec m)
  section-Moves m sec {e} h = record {
    written = h.written;
    sized = h.sized;
    moves = λ rest. rounds_section m (bytes e ++ rest) (h.reads rest);
  }

  module _ {A : Type 0} (P : A → Type 0) (sec : A → MessageSection) (f : A → Emit) (g : A → ℕ)
      (codes : (v : A) → P v → Codes decode_section (f v) (g v) (sec v)) where
    -- An optional section.
    pub some-Moves :
        (up : Option A → AmqpMessage) (o : Option A)
        → Each P o
        → ((v : A) → store (sec v) (up none) ≡ up (some v))
        → Moves (up none) (emit_some f o) (some_len g o) (up o)
    unfolding emit_some
    some-Moves up none h set = Moves-nothing (up none)
    some-Moves up (some v) h set = rw (← set v) (section-Moves (up none) (sec v) (codes v h))

    -- Sections of one kind, one behind the other.
    pub each-Moves :
        (up : List A → AmqpMessage) (done_so_far vs : List A)
        → All P vs
        → ((v : A) (vs : List A) → store (sec v) (up vs) ≡ up (vs ++ (v ∷ [])))
        → Moves (up done_so_far) (emit_each f vs) (total g vs) (up (done_so_far ++ vs))
    unfolding emit_each
    each-Moves up so_far [] h set = rw append-nil (Moves-nothing (up so_far))
    each-Moves up so_far (v ∷ vs) h set =
        let first = rw (set v so_far) at (section-Moves (up so_far) (sec v) (codes v h.0)) in
        let rest = each-Moves up (so_far ++ (v ∷ [])) vs h.1 set in
        rw (← append_assoc so_far (v ∷ []) vs) (Moves-⊕ first rest)
