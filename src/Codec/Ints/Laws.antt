-- ===== src/Codec/Ints/Laws.antt =====
-- Each integer reader takes exactly the bytes of its width, and reads back what was written.
use mathlib.Core.Path.{subst}
use rabbitmq_stream_rust_cli.Prelude.{
  ℕ, ◌^◌, ◌<◌, ◌≡◌, refl, sym, ap, ◌∙◌, true, false, inl, inr, List, [], ◌∷◌, ◌++◌, length,
  length-append, take, drop, drop-append, take-append-drop, length-take, arith, ltb, Bool-cases,
}
use rabbitmq_stream_rust_cli.Codec.Outcome.{ok, err, incomplete}
use rabbitmq_stream_rust_cli.Codec.Emit.{done}
use rabbitmq_stream_rust_cli.Codec.ByteOrder.{ByteOrder}
use rabbitmq_stream_rust_cli.Codec.Laws.{Codes}
use rabbitmq_stream_rust_cli.Codec.Local.{IsLocal}
use rabbitmq_stream_rust_cli.Codec.Ints.{
  u8_mod, u16_mod, u32_mod, u64_mod, reader, read_u8, read_i8, read_u16, read_i16, read_u32,
  read_i32, read_u64, read_i64, encode_u8, encode_i8, encode_u16, encode_i16, encode_u32,
  encode_i32, encode_u64, encode_i64,
}

pub read_u8-IsLocal : IsLocal read_u8
unfolding read_u8
read_u8-IsLocal = record { took = go }
  where
    go :
        (input rest : List ℕ) (n : ℕ)
        → read_u8 input ≡ ok (rest, n)
        → (front : List ℕ) × (input ≡ front ++ rest)
          × ((more : List ℕ) → read_u8 (front ++ more) ≡ ok (more, n))
    go [] rest n h = absurd (cc)
    go (x ∷ input) rest n h = (x ∷ [], cc, λ more. cc)

pub read_i8-IsLocal : IsLocal read_i8
unfolding read_i8 read_u8
read_i8-IsLocal = record { took = go }
  where
    go :
        (input rest : List ℕ) (n : ℕ)
        → read_i8 input ≡ ok (rest, n)
        → (front : List ℕ) × (input ≡ front ++ rest)
          × ((more : List ℕ) → read_i8 (front ++ more) ≡ ok (more, n))
    go [] rest n h = absurd (cc)
    go (x ∷ input) rest n h = (x ∷ [], cc, λ more. cc)

module _ ⦃b : ByteOrder⦄ where
  -- Whatever stands behind `size` bytes, the reader takes those bytes.
  reader-append :
      (size : ℕ) (front more : List ℕ)
      → length front ≡ size
      → reader size (front ++ more) ≡ ok (more, b.read size front)
  unfolding reader
  reader-append size front more h =
      let long : ltb (length (front ++ more)) size ≡ false =
        ground (arith, length-append front more) in
      rw (long, drop-append front more h, b.read-append size front more h)

  reader-whole :
      (size : ℕ) (input : List ℕ)
      → ltb (length input) size ≡ false
      → reader size input ≡ ok (drop size input, b.read size (take size input))
  reader-whole size input long =
      ap (reader size) (sym (take-append-drop size input))
      ∙ reader-append size (take size input) (drop size input)
          (length-take size input (ground arith))

  reader_short :
      (size : ℕ) (input : List ℕ)
      → ltb (length input) size ≡ true
      → reader size input ≡ err (incomplete size)
  unfolding reader
  reader_short size input short = rw short

  pub reader-Codes :
      (size n : ℕ) → n < 256 ^ size → Codes (reader size) (done (b.write size n)) size n
  reader-Codes size n h = record {
    written = refl;
    sized = b.length-write size n;
    reads = λ rest.
        reader-append size (b.write size n) rest (b.length-write size n)
        ∙ ap (λ m. ok (rest, m)) (b.read-write size n h);
  }

  pub reader-IsLocal : (size : ℕ) → IsLocal (reader size)
  reader-IsLocal size = record {
    took = λ input rest n h. elim (Bool-cases (ltb (length input) size)) [
      | inl short ↦ absurd (cc (reader_short size input short))
      | inr long ↦
          let whole = reader-whole size input long in
          let tail : drop size input ≡ rest = cc in
          let value : b.read size (take size input) ≡ n = cc in
          (
            take size input,
            sym (take-append-drop size input) ∙ ap (λ xs. take size input ++ xs) tail,
            λ more.
                reader-append size (take size input) more (length-take size input (ground arith))
                ∙ ap (λ m. ok (more, m)) value,
          )
    ];
  }

  -- A number that a reader returns fits its width.
  pub reader-lt :
      (size : ℕ) (input : List ℕ) {rest : List ℕ} {n : ℕ}
      → reader size input ≡ ok (rest, n)
      → n < 256 ^ size
  reader-lt size input {rest} {n} h = elim (Bool-cases (ltb (length input) size)) [
    | inl short ↦ absurd (cc (reader_short size input short))
    | inr long ↦
        let whole = reader-whole size input long in
        let value : b.read size (take size input) ≡ n = cc in
        subst (λ m. m < 256 ^ size) value (b.read-lt size (take size input))
  ]

  -- What a reader that succeeds returns and leaves.
  pub reader_ok :
      (size : ℕ) (input : List ℕ) {rest : List ℕ} {n : ℕ}
      → reader size input ≡ ok (rest, n)
      → (b.read size (take size input) ≡ n) × (drop size input ≡ rest)
  reader_ok size input {rest} {n} h = elim (Bool-cases (ltb (length input) size)) [
    | inl short ↦ absurd (cc (reader_short size input short))
    | inr long ↦ let whole = reader-whole size input long in (cc, cc)
  ]

  pub u8-Codes : (n : ℕ) → n < u8_mod → Codes read_u8 (encode_u8 n) 1 n
  unfolding read_u8 encode_u8
  u8-Codes n h = record {
    written = refl;
    sized = b.length-write 1 n;
    reads = λ rest. rw (b.write_one n h);
  }

  pub u16-Codes : (n : ℕ) → n < u16_mod → Codes read_u16 (encode_u16 n) 2 n
  unfolding read_u16 encode_u16
  u16-Codes n h = reader-Codes 2 n h

  pub i16-Codes : (n : ℕ) → n < u16_mod → Codes read_i16 (encode_i16 n) 2 n
  unfolding read_i16 encode_i16
  i16-Codes n h = reader-Codes 2 n h

  pub u32-Codes : (n : ℕ) → n < u32_mod → Codes read_u32 (encode_u32 n) 4 n
  unfolding read_u32 encode_u32
  u32-Codes n h = reader-Codes 4 n h

  pub i32-Codes : (n : ℕ) → n < u32_mod → Codes read_i32 (encode_i32 n) 4 n
  unfolding read_i32 encode_i32
  i32-Codes n h = reader-Codes 4 n h

  pub u64-Codes : (n : ℕ) → n < u64_mod → Codes read_u64 (encode_u64 n) 8 n
  unfolding read_u64 encode_u64
  u64-Codes n h = reader-Codes 8 n h

  pub i64-Codes : (n : ℕ) → n < u64_mod → Codes read_i64 (encode_i64 n) 8 n
  unfolding read_i64 encode_i64
  i64-Codes n h = reader-Codes 8 n h

  pub read_u16-IsLocal : IsLocal read_u16
  unfolding read_u16
  read_u16-IsLocal = reader-IsLocal 2

  pub read_i16-IsLocal : IsLocal read_i16
  unfolding read_i16
  read_i16-IsLocal = reader-IsLocal 2

  pub read_u32-IsLocal : IsLocal read_u32
  unfolding read_u32
  read_u32-IsLocal = reader-IsLocal 4

  pub read_i32-IsLocal : IsLocal read_i32
  unfolding read_i32
  read_i32-IsLocal = reader-IsLocal 4

  pub read_u64-IsLocal : IsLocal read_u64
  unfolding read_u64
  read_u64-IsLocal = reader-IsLocal 8

  pub read_i64-IsLocal : IsLocal read_i64
  unfolding read_i64
  read_i64-IsLocal = reader-IsLocal 8

  pub i8-Codes : (n : ℕ) → n < u8_mod → Codes read_i8 (encode_i8 n) 1 n
  unfolding read_i8 encode_i8
  i8-Codes n h = record {
    written = refl;
    sized = b.length-write 1 n;
    reads = λ rest. rw (b.write_one n h);
  }

  -- A signed and an unsigned writer of one width write the same bytes.
  pub i32-eq-u32 : (n : ℕ) → encode_i32 n ≡ encode_u32 n
  unfolding encode_i32 encode_u32
  i32-eq-u32 n = refl

pub ruleset int_local_rules = (
  read_u8-IsLocal, read_i8-IsLocal, read_u16-IsLocal, read_i16-IsLocal, read_u32-IsLocal,
  read_i32-IsLocal, read_u64-IsLocal, read_i64-IsLocal,
)
