-- ===== src/Amqp/Texts/Laws.antt =====
-- Each value of several bytes reads back.
use rabbitmq_stream_rust_cli.Prelude.{
  ℕ, ◌+◌, ◌%◌, ◌<◌, ◌≡◌, refl, true, false, ltb, inl, inr, Bool-cases, arith, some, if◌then◌else◌,
  List, length, length-append, take-append, take, drop, take-append-drop, length-take, sym, ap, ◌∙◌,
  drop-append, ◌++◌,
}
use rabbitmq_stream_rust_cli.Codec.Outcome.{ok, err, incomplete, Decode, pure, ◌>>=◌}
use rabbitmq_stream_rust_cli.Codec.Emit.{Emit, done, ◌⊕◌, ⊕_assoc}
use rabbitmq_stream_rust_cli.Codec.ByteOrder.{ByteOrder}
use rabbitmq_stream_rust_cli.Codec.Strings.{Str, from_utf8}
use rabbitmq_stream_rust_cli.Codec.Local.{IsLocal}
use rabbitmq_stream_rust_cli.Codec.Utf8.{is_utf8}
use rabbitmq_stream_rust_cli.Codec.Laws.{Codes, Codes-bind, Codes-last, Codes-resize}
use rabbitmq_stream_rust_cli.Codec.Ints.{u8_mod, u32_mod, u64_mod, encode_u8, encode_u32}
use rabbitmq_stream_rust_cli.Codec.Ints.Laws.{u8-Codes, u32-Codes, i64-Codes}
use rabbitmq_stream_rust_cli.Amqp.TypeCode
use rabbitmq_stream_rust_cli.Amqp.TypeCode.{TypeCode, map_second}
use rabbitmq_stream_rust_cli.Amqp.TypeCode.Laws.{Tag, coded, tagged-Codes}
use rabbitmq_stream_rust_cli.Amqp.Errors.{Externals}
use rabbitmq_stream_rust_cli.Amqp.Texts.{
  read_exact, read_short, read_long, encode_binary, encode_chars, encode_str, encode_symbol,
  decode_binary, decode_str, decode_symbol, uuid_from, decode_uuid, encode_uuid, timestamp_from,
  decode_timestamp, encode_timestamp,
}

read_exact-Codes : (v : List ℕ) → Codes (read_exact (length v)) (done v) (length v) v
unfolding read_exact
read_exact-Codes v = record {
  written = refl;
  sized = refl;
  reads = λ rest.
      let long : ltb (length (v ++ rest)) (length v) ≡ false =
        ground (arith, length-append v rest) in
      rw (long, drop-append v rest refl, take-append v rest refl);
}

pub read_exact-IsLocal : (n : ℕ) → IsLocal (read_exact n)
read_exact-IsLocal n = record {
  took = λ input rest a h. elim (Bool-cases (ltb (length input) n)) [
    | inl short ↦ absurd (cc (read_exact_short input short))
    | inr long ↦
        let len = length-take n input (ground arith) in
        let whole : read_exact n input ≡ ok (drop n input, take n input) =
          ap (read_exact n) (sym (take-append-drop n input))
          ∙ rw len at ((read_exact-Codes (take n input)).reads (drop n input)) in
        let tail : drop n input ≡ rest = cc in
        let value : take n input ≡ a = cc in
        (
          take n input,
          sym (take-append-drop n input) ∙ ap (λ xs. take n input ++ xs) tail,
          λ more.
              (rw len at ((read_exact-Codes (take n input)).reads more))
              ∙ ap (λ m. ok (more, m)) value,
        )
  ];
}
  where
    read_exact_short :
        (input : List ℕ) → ltb (length input) n ≡ true → read_exact n input ≡ err (incomplete n)
    read_exact_short input short = unfold read_exact in rw short

-- The bytes of a value behind its code and its length.
abbrev pub long_len : List ℕ → ℕ
long_len v = (if ltb 255 (length v) then 5 else 2) + length v

module _ ⦃x : Externals⦄ where
  -- A time that `chrono` makes of a number of milliseconds, as 64 bits have it.
  pub record IsTimestamp (t : x.DateTime) : Type 0 where
    pub millis : ℕ
    pub fits : millis < u64_mod
    pub whole : x.timestamp_millis_opt millis ≡ some t

module _ ⦃b : ByteOrder⦄ where
  short-Codes :
      (v : List ℕ)
      → length v < 256
      → Codes read_short (encode_u8 (length v) ⊕ done v) (1 + length v) v
  unfolding read_short
  short-Codes v h = Codes-bind _ (u8-Codes (length v) h) (read_exact-Codes v)

  wide-Codes :
      (v : List ℕ)
      → length v < u32_mod
      → Codes read_long (encode_u32 (length v) ⊕ done v) (4 + length v) v
  unfolding read_long
  wide-Codes v h = Codes-bind _ (u32-Codes (length v) h) (read_exact-Codes v)

  -- A decoder that picks one of two readers by the code, for what is written behind the code and
  -- its length.
  chars-Codes :
      (k : TypeCode → Decode (List ℕ)) (small wide : TypeCode) (s : List ℕ)
      → length s < u32_mod
      → ((f : Emit) (n : ℕ) → Codes read_short f n s → Codes (k small) f n s)
      → ((f : Emit) (n : ℕ) → Codes read_long f n s → Codes (k wide) f n s)
      → Codes (TypeCode.decode >>= k) (encode_chars small wide s) (long_len s) s
  unfolding encode_chars
  chars-Codes k small wide s h p q = elim (Bool-cases (ltb 255 (length s))) [
    | inl w ↦
        let few : length s % u32_mod ≡ length s = omega arith in
        rw (w, few, ⊕_assoc)
          (Codes-resize (tagged-Codes k wide (q _ _ (wide-Codes s h))) (omega arith))
    | inr w ↦
        let few : length s % u8_mod ≡ length s = ground arith in
        rw (w, few, ⊕_assoc)
          (Codes-resize (tagged-Codes k small (p _ _ (short-Codes s (ground arith)))) (omega arith))
  ]

  chars-Tag :
      (P : TypeCode → Type 0) (small wide : TypeCode)
      → P small
      → P wide
      → (s : Str) → Tag P (encode_chars small wide s)
  unfolding encode_chars
  chars-Tag P small wide p q s = elim (Bool-cases (ltb 255 (length s))) [
    | inl w ↦ rw (w, ⊕_assoc) (coded P _ _ q)
    | inr w ↦ rw (w, ⊕_assoc) (coded P _ _ p)
  ]

  module _ (P : TypeCode → Type 0) where
    pub str-Tag : P TypeCode.string8 → P TypeCode.string32 → (s : Str) → Tag P (encode_str s)
    unfolding encode_str
    str-Tag p q s = chars-Tag P _ _ p q s

    pub symbol-Tag : P TypeCode.symbol8 → P TypeCode.symbol32 → (s : Str) → Tag P (encode_symbol s)
    unfolding encode_symbol
    symbol-Tag p q s = chars-Tag P _ _ p q s

    pub binary-Tag :
        P TypeCode.binary8 → P TypeCode.binary32 → (v : List ℕ) → Tag P (encode_binary v)
    unfolding encode_binary
    binary-Tag p q v = elim (Bool-cases (ltb 255 (length v % u32_mod))) [
      | inl w ↦ rw (w, ⊕_assoc) (coded P _ _ q)
      | inr w ↦ rw (w, ⊕_assoc) (coded P _ _ p)
    ]

  utf8-Codes :
      (d : Decode (List ℕ)) (s : Str)
      → is_utf8 s ≡ true
      → (f : Emit) (n : ℕ) → Codes d f n s
      → Codes (d >>= from_utf8) f n s
  unfolding from_utf8 pure
  utf8-Codes d s h f n p = Codes-last _ p (λ rest. rw h refl)

  binary_chars :
      (v : List ℕ)
      → length v < u32_mod
      → encode_binary v ≡ encode_chars TypeCode.binary8 TypeCode.binary32 v
  unfolding encode_binary encode_chars
  binary_chars v h = let few : length v % u32_mod ≡ length v = omega arith in rw few refl

  module _ ⦃x : Externals⦄ where
    pub binary-Codes :
        (v : List ℕ) → length v < u32_mod → Codes decode_binary (encode_binary v) (long_len v) v
    unfolding decode_binary
    binary-Codes v h =
        rw (binary_chars v h)
          (chars-Codes _ TypeCode.binary8 TypeCode.binary32 v h (λ f n p. p) (λ f n p. p))

    pub str-Codes :
        (s : Str)
        → is_utf8 s ≡ true
        → length s < u32_mod
        → Codes decode_str (encode_str s) (long_len s) s
    unfolding decode_str encode_str
    str-Codes s good h =
        chars-Codes _ TypeCode.string8 TypeCode.string32 s h (utf8-Codes read_short s good)
          (utf8-Codes read_long s good)

    pub symbol-Codes :
        (s : Str)
        → is_utf8 s ≡ true
        → length s < u32_mod
        → Codes decode_symbol (encode_symbol s) (long_len s) s
    unfolding decode_symbol encode_symbol
    symbol-Codes s good h =
        chars-Codes _ TypeCode.symbol8 TypeCode.symbol32 s h (utf8-Codes read_short s good)
          (utf8-Codes read_long s good)

    pub uuid-Codes : (u : x.Uuid) → Codes decode_uuid (encode_uuid u) 17 u
    unfolding decode_uuid encode_uuid uuid_from pure
    uuid-Codes u =
        let slice = Codes-resize (read_exact-Codes (x.as_bytes u)) (x.length-as_bytes u) in
        let slice16 = rw (x.length-as_bytes u) at slice in
        tagged-Codes _ TypeCode.uuid
          (Codes-last _ slice16 (λ rest. rw (x.from_slice-as_bytes u, uuid_from) refl))

    pub timestamp-Codes :
        (t : x.DateTime) → IsTimestamp t → Codes decode_timestamp (encode_timestamp t) 9 t
    unfolding decode_timestamp encode_timestamp timestamp_from pure
    timestamp-Codes t h =
        let millis : x.timestamp_millis t ≡ h.millis = x.timestamp_millis-opt h.millis t h.whole in
        rw millis (
          tagged-Codes _ TypeCode.timestamp
            (Codes-last _ (i64-Codes h.millis h.fits) (λ rest. rw (h.whole, timestamp_from) refl)))
