-- ===== src/Codec/Strings/Laws.antt =====
-- Texts and byte vectors read back, and their decoders take only what they need.
use rabbitmq_stream_rust_cli.Prelude.{
  ℕ, ◌+◌, ◌%◌, ◌^◌, ◌<◌, ◌≡◌, refl, sym, ap, ◌∙◌, true, false, inl, inr, Option, none, some, List,
  [], ◌++◌, length, length-append, take, drop, take-append, drop-append, take-append-drop,
  length-take, arith, ltb, ◌==◌, Bool-cases,
}
use rabbitmq_stream_rust_cli.Codec.Outcome.{ok, panic, pure, ◌>>=◌}
use rabbitmq_stream_rust_cli.Codec.Emit.{done}
use rabbitmq_stream_rust_cli.Codec.ByteOrder.{ByteOrder}
use rabbitmq_stream_rust_cli.Codec.Laws.{Codes, Codes-bind, Codes-last, Codes-nothing}
use rabbitmq_stream_rust_cli.Codec.Local.{IsLocal, local_rules}
use rabbitmq_stream_rust_cli.Codec.Utf8.{is_utf8}
use rabbitmq_stream_rust_cli.Codec.Ints.{u16_mod, u32_mod}
use rabbitmq_stream_rust_cli.Codec.Ints.Laws.{i16-Codes, i32-Codes, int_local_rules}
use rabbitmq_stream_rust_cli.Codec.Strings.{
  Str, split_at, from_utf8, decode_chars, decode_string, encode_str, encode_string, decode_bytes,
  encode_bytes, IsText, IsOptText, string_len, string_size,
}

split_at-append :
    (front more : List ℕ) (n : ℕ) → length front ≡ n → split_at n (front ++ more) ≡ ok (more, front)
unfolding split_at
split_at-append front more n h =
    let long : ltb (length (front ++ more)) n ≡ false = ground (arith, length-append front more) in
    rw (long, drop-append front more h, take-append front more h)

split_at-IsLocal : (n : ℕ) → IsLocal (split_at n)
split_at-IsLocal n = record {
  took = λ input rest a h. elim (Bool-cases (ltb (length input) n)) [
    | inl short ↦ absurd (cc (split_at_short input short))
    | inr long ↦
        let len = length-take n input (ground arith) in
        let whole : split_at n input ≡ ok (drop n input, take n input) =
          ap (split_at n) (sym (take-append-drop n input))
          ∙ split_at-append (take n input) (drop n input) n len in
        let tail : drop n input ≡ rest = cc in
        let value : take n input ≡ a = cc in
        (
          take n input,
          sym (take-append-drop n input) ∙ ap (λ xs. take n input ++ xs) tail,
          λ more. split_at-append (take n input) more n len ∙ ap (λ m. ok (more, m)) value,
        )
  ];
}
  where
    split_at_short : (input : List ℕ) → ltb (length input) n ≡ true → split_at n input ≡ panic
    split_at_short input short = unfold split_at in rw short

from_utf8-IsLocal : (bs : List ℕ) → IsLocal (from_utf8 bs)
unfolding from_utf8
from_utf8-IsLocal bs = elim (Bool-cases (is_utf8 bs)) [
  | inl good ↦ rw good (search local_rules)
  | inr bad ↦ rw bad (search local_rules)
]

module _ ⦃b : ByteOrder⦄ where
  decode_chars-IsLocal : (len : ℕ) → IsLocal (decode_chars len)
  unfolding decode_chars
  decode_chars-IsLocal len = elim (Bool-cases (len == 0)) [
    | inl missing ↦ rw missing (search local_rules)
    | inr more ↦ rw more (search (local_rules, split_at-IsLocal, from_utf8-IsLocal))
  ]

  pub decode_string-IsLocal : IsLocal decode_string
  unfolding decode_string
  decode_string-IsLocal = search (local_rules, int_local_rules, decode_chars-IsLocal)

  pub decode_bytes-IsLocal : IsLocal decode_bytes
  unfolding decode_bytes
  decode_bytes-IsLocal = search (local_rules, int_local_rules, split_at-IsLocal)

  decode_chars-Codes :
      (s : Str) → IsText s → Codes (decode_chars (length s % u16_mod)) (done s) (length s) (some s)
  decode_chars-Codes s h = record { written = refl; sized = refl; reads = reads }
    where
      reads : (rest : List ℕ) → decode_chars (length s % u16_mod) (s ++ rest) ≡ ok (rest, some s)
      reads rest =
          let small : length s % u16_mod ≡ length s = omega arith in
          let some_chars : (length s == 0) ≡ false = ground arith in
          let fits : ltb (length s) (2 ^ 15) ≡ true = ground arith in
          rw (small) (
            unfold decode_chars ◌>>=◌ from_utf8 in
            rw (some_chars, fits, split_at-append s rest (length s) refl, h.0))

  -- A text reads back as itself, and is written in two bytes more than its own.
  pub str-Codes : (s : Str) → IsText s → Codes decode_string (encode_str s) (2 + length s) (some s)
  unfolding decode_string encode_str
  str-Codes s h =
      Codes-bind _ (i16-Codes (length s % u16_mod) (omega arith)) (decode_chars-Codes s h)

  -- The empty text reads back as a missing one.
  pub str_empty-Codes : Codes decode_string (encode_str []) 2 none
  unfolding decode_string decode_chars encode_str
  str_empty-Codes = Codes-bind _ (i16-Codes 0 (omega arith)) (Codes-nothing none)

  pub string-Codes :
      (o : Option Str) → IsOptText o → Codes decode_string (encode_string o) (string_len o) o
  unfolding encode_string decode_string decode_chars pure
  string-Codes none h = Codes-last _ (i16-Codes 0 (omega arith)) (λ rest. refl)
  string-Codes (some s) h = str-Codes s h

  pub bytes-Codes :
      (v : List ℕ) → length v < 2 ^ 31 → Codes decode_bytes (encode_bytes v) (4 + length v) v
  unfolding decode_bytes encode_bytes
  bytes-Codes v h = Codes-bind _ (i32-Codes (length v % u32_mod) (omega arith)) (record {
    written = refl;
    sized = refl;
    reads = λ rest.
        let small : length v % u32_mod ≡ length v = omega arith in
        let fits : ltb (length v) (2 ^ 31) ≡ true = ground arith in
        rw small (rw fits (split_at-append v rest (length v) refl));
  })

-- The declared size of an optional text is the true one, cut to 32 bits.
pub string_size-eq-string_len : (o : Option Str) → string_size o ≡ string_len o % u32_mod
string_size-eq-string_len none = refl
string_size-eq-string_len (some s) = omega arith
