-- ===== src/Amqp/TypeCode/Laws.antt =====
-- A type code reads back as itself, and looking at one does not lose it.
use rabbitmq_stream_rust_cli.Prelude.{
  ℕ, ◌+◌, ◌≡◌, refl, ap, ◌∙◌, some, List, [], ◌∷◌, ◌++◌, ◌<◌, arith,
}
use rabbitmq_stream_rust_cli.Codec.Outcome.{ok, Decode, pure, ◌>>=◌, >>=_step}
use rabbitmq_stream_rust_cli.Codec.Emit.{Emit, done, bytes, ◌⊕◌, ⊕-bytes}
use rabbitmq_stream_rust_cli.Codec.ByteOrder.{ByteOrder}
use rabbitmq_stream_rust_cli.Codec.Laws.{Codes, Codes-bind, Codes-last}
use rabbitmq_stream_rust_cli.Codec.Ints.{read_u8, encode_u8, u8_mod}
use rabbitmq_stream_rust_cli.Amqp.TypeCode.{
  TypeCode, to_u8, try_from, known, decode, encode, peek, map_second,
}

to_u8-lt : (c : TypeCode) → to_u8 c < u8_mod
unfolding to_u8
to_u8-lt TypeCode.described = omega arith
to_u8-lt TypeCode.null = omega arith
to_u8-lt TypeCode.boolean = omega arith
to_u8-lt TypeCode.boolean_true = omega arith
to_u8-lt TypeCode.boolean_false = omega arith
to_u8-lt TypeCode.uint0 = omega arith
to_u8-lt TypeCode.ulong0 = omega arith
to_u8-lt TypeCode.ubyte = omega arith
to_u8-lt TypeCode.ushort = omega arith
to_u8-lt TypeCode.uint = omega arith
to_u8-lt TypeCode.ulong = omega arith
to_u8-lt TypeCode.byte = omega arith
to_u8-lt TypeCode.short = omega arith
to_u8-lt TypeCode.int = omega arith
to_u8-lt TypeCode.long = omega arith
to_u8-lt TypeCode.uint_small = omega arith
to_u8-lt TypeCode.ulong_small = omega arith
to_u8-lt TypeCode.int_small = omega arith
to_u8-lt TypeCode.long_small = omega arith
to_u8-lt TypeCode.float = omega arith
to_u8-lt TypeCode.double = omega arith
to_u8-lt TypeCode.char = omega arith
to_u8-lt TypeCode.timestamp = omega arith
to_u8-lt TypeCode.uuid = omega arith
to_u8-lt TypeCode.binary8 = omega arith
to_u8-lt TypeCode.binary32 = omega arith
to_u8-lt TypeCode.string8 = omega arith
to_u8-lt TypeCode.string32 = omega arith
to_u8-lt TypeCode.symbol8 = omega arith
to_u8-lt TypeCode.symbol32 = omega arith
to_u8-lt TypeCode.list0 = omega arith
to_u8-lt TypeCode.list8 = omega arith
to_u8-lt TypeCode.list32 = omega arith
to_u8-lt TypeCode.map8 = omega arith
to_u8-lt TypeCode.map32 = omega arith
to_u8-lt TypeCode.array8 = omega arith
to_u8-lt TypeCode.array32 = omega arith

pub try_from-to_u8 : (c : TypeCode) → try_from (to_u8 c) ≡ some c
unfolding try_from to_u8
try_from-to_u8 TypeCode.described = refl
try_from-to_u8 TypeCode.null = refl
try_from-to_u8 TypeCode.boolean = refl
try_from-to_u8 TypeCode.boolean_true = refl
try_from-to_u8 TypeCode.boolean_false = refl
try_from-to_u8 TypeCode.uint0 = refl
try_from-to_u8 TypeCode.ulong0 = refl
try_from-to_u8 TypeCode.ubyte = refl
try_from-to_u8 TypeCode.ushort = refl
try_from-to_u8 TypeCode.uint = refl
try_from-to_u8 TypeCode.ulong = refl
try_from-to_u8 TypeCode.byte = refl
try_from-to_u8 TypeCode.short = refl
try_from-to_u8 TypeCode.int = refl
try_from-to_u8 TypeCode.long = refl
try_from-to_u8 TypeCode.uint_small = refl
try_from-to_u8 TypeCode.ulong_small = refl
try_from-to_u8 TypeCode.int_small = refl
try_from-to_u8 TypeCode.long_small = refl
try_from-to_u8 TypeCode.float = refl
try_from-to_u8 TypeCode.double = refl
try_from-to_u8 TypeCode.char = refl
try_from-to_u8 TypeCode.timestamp = refl
try_from-to_u8 TypeCode.uuid = refl
try_from-to_u8 TypeCode.binary8 = refl
try_from-to_u8 TypeCode.binary32 = refl
try_from-to_u8 TypeCode.string8 = refl
try_from-to_u8 TypeCode.string32 = refl
try_from-to_u8 TypeCode.symbol8 = refl
try_from-to_u8 TypeCode.symbol32 = refl
try_from-to_u8 TypeCode.list0 = refl
try_from-to_u8 TypeCode.list8 = refl
try_from-to_u8 TypeCode.list32 = refl
try_from-to_u8 TypeCode.map8 = refl
try_from-to_u8 TypeCode.map32 = refl
try_from-to_u8 TypeCode.array8 = refl
try_from-to_u8 TypeCode.array32 = refl

known-to_u8 : (c : TypeCode) → known (to_u8 c) ≡ pure c
unfolding known
known-to_u8 c = rw (try_from-to_u8 c, known)

-- The byte of a code, and what follows it.
pub decode-cons : (c : TypeCode) (rest : List ℕ) → decode (to_u8 c ∷ rest) ≡ ok (rest, c)
unfolding decode read_u8
decode-cons c rest = >>=_step read_u8 known _ refl ∙ rw (known-to_u8 c) (unfold pure in refl)

-- The first byte of what is written is the code of a type with `P`.
pub record Tag (P : TypeCode → Type 0) (e : Emit) : Type 0 where
  pub code : TypeCode
  pub holds : P code
  pub tail : List ℕ
  pub starts : bytes e ≡ to_u8 code ∷ tail

module _ {A B : Type 0} where
  pub map_second-Codes :
      (f : A → B) {d : Decode A} {e : Emit} {n : ℕ} {a : A}
      → Codes d e n a
      → Codes (map_second f d) e n (f a)
  unfolding map_second pure
  map_second-Codes f h = Codes-last _ h (λ rest. refl)

module _ {B : Type 0} where
  -- A decoder that looks at the code first decodes as the one that it picks for the code.
  pub peek-Codes :
      (k : TypeCode → Decode B) (d : Decode B) {e : Emit} {n : ℕ} {a : B}
      → Tag (λ c. k c ≡ d) e
      → Codes d e n a
      → Codes (peek decode k) e n a
  unfolding peek
  peek-Codes k d {e} t h = record {
    written = h.written;
    sized = h.sized;
    reads = λ rest.
        let first : decode (bytes e ++ rest) ≡ ok (t.tail ++ rest, t.code) =
          rw (t.starts) (decode-cons t.code (t.tail ++ rest)) in
        rw first (rw (t.holds) (h.reads rest));
  }

module _ ⦃b : ByteOrder⦄ where
  pub encode_byte : (c : TypeCode) → encode c ≡ done (to_u8 c ∷ [])
  unfolding encode encode_u8
  encode_byte c = ap done (b.write_one (to_u8 c) (to_u8-lt c))

  pub code-Codes : (c : TypeCode) → Codes decode (encode c) 1 c
  code-Codes c =
      rw (encode_byte c)
        (record { written = refl; sized = refl; reads = λ rest. decode-cons c rest })

  pub coded : (P : TypeCode → Type 0) (c : TypeCode) (f : Emit) → P c → Tag P (encode c ⊕ f)
  coded P c f p = record {
    code = c;
    holds = p;
    tail = bytes f;
    starts = rw (encode_byte c) (⊕-bytes (to_u8 c ∷ []) f);
  }

  pub coded_alone : (P : TypeCode → Type 0) (c : TypeCode) → P c → Tag P (encode c)
  coded_alone P c p = record { code = c; holds = p; tail = []; starts = rw (encode_byte c) refl }

  -- A code, and then what the decoder picks for it.
  pub tagged-Codes :
      {A : Type 0} (k : TypeCode → Decode A) (c : TypeCode) {f : Emit} {n : ℕ} {a : A}
      → Codes (k c) f n a
      → Codes (decode >>= k) (encode c ⊕ f) (1 + n) a
  tagged-Codes k c h = Codes-bind k (code-Codes c) h
