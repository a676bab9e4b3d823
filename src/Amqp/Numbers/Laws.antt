-- ===== src/Amqp/Numbers/Laws.antt =====
-- Each number reads back, from as many bytes as its `encoded_size` says, within the bounds given.
use rabbitmq_stream_rust_cli.Prelude.{
  ◌⊎◌, ℕ, ◌+◌, ◌-◌, ◌%◌, ◌<◌, ◌≤◌, ◌≡◌, refl, Bool, true, false, ltb, ◌==◌, inl, inr, Bool-cases,
  arith, if◌then◌else◌,
}
use rabbitmq_stream_rust_cli.Codec.Outcome.{pure}
use rabbitmq_stream_rust_cli.Codec.ByteOrder.{ByteOrder}
use rabbitmq_stream_rust_cli.Codec.Laws.{Codes, Codes-last, Codes-resize}
use rabbitmq_stream_rust_cli.Codec.Ints.{
  u8_mod, u16_mod, u32_mod, u64_mod, read_u8, encode_u8, encode_i8, encode_u32, encode_u64,
}
use rabbitmq_stream_rust_cli.Codec.Ints.Laws.{
  u8-Codes, i8-Codes, u16-Codes, i16-Codes, u32-Codes, i32-Codes, u64-Codes, i64-Codes,
  reader-Codes,
}
use rabbitmq_stream_rust_cli.Amqp.TypeCode.{TypeCode}
use rabbitmq_stream_rust_cli.Amqp.TypeCode.Laws.{
  Tag, coded, coded_alone, tagged-Codes, code-Codes, map_second-Codes,
}
use rabbitmq_stream_rust_cli.Amqp.Errors.{Externals}
use rabbitmq_stream_rust_cli.Amqp.Numbers.{
  is_wide_int, is_wide_long, i64_of_i8, is_char, uint_size, ulong_size, int_size, long_size,
  encode_ubyte, encode_ushort, encode_byte, encode_short, encode_float, encode_double, encode_char,
  encode_uint, encode_ulong, encode_int, encode_long, encode_boolean, decode_ubyte, decode_ushort,
  decode_byte, decode_short, decode_float, decode_double, decode_char, decode_uint, decode_ulong,
  decode_int, decode_long, decode_boolean, checked_char,
}

-- The bytes that an `i64` is written in.
abbrev pub long_wire : ℕ → ℕ
long_wire n = if is_wide_long n then 9 else 2

module _ ⦃b : ByteOrder⦄ where
  module _ (P : TypeCode → Type 0) where
    pub uint-Tag :
        P TypeCode.uint0 → P TypeCode.uint_small → P TypeCode.uint → (n : ℕ) → Tag P (encode_uint n)
    unfolding encode_uint
    uint-Tag zeroth small wide n = elim (Bool-cases (n == 0)) [
      | inl z ↦ rw z (coded_alone P _ zeroth)
      | inr z ↦ elim (Bool-cases (ltb 255 n)) [
        | inl w ↦ rw (z, w) (coded P _ _ wide)
        | inr w ↦ rw (z, w) (coded P _ _ small)
      ]
    ]

    pub ulong-Tag :
        P TypeCode.ulong0
        → P TypeCode.ulong_small
        → P TypeCode.ulong
        → (n : ℕ) → Tag P (encode_ulong n)
    unfolding encode_ulong
    ulong-Tag zeroth small wide n = elim (Bool-cases (n == 0)) [
      | inl z ↦ rw z (coded_alone P _ zeroth)
      | inr z ↦ elim (Bool-cases (ltb 255 n)) [
        | inl w ↦ rw (z, w) (coded P _ _ wide)
        | inr w ↦ rw (z, w) (coded P _ _ small)
      ]
    ]

    pub int-Tag : P TypeCode.int_small → P TypeCode.int → (n : ℕ) → Tag P (encode_int n)
    unfolding encode_int
    int-Tag small wide n = elim (Bool-cases (is_wide_int n)) [
      | inl w ↦ rw w (coded P _ _ wide)
      | inr w ↦ rw w (coded P _ _ small)
    ]

    pub long-Tag : P TypeCode.long_small → P TypeCode.long → (n : ℕ) → Tag P (encode_long n)
    unfolding encode_long
    long-Tag small wide n = elim (Bool-cases (is_wide_long n)) [
      | inl w ↦ rw w (coded P _ _ wide)
      | inr w ↦ rw w (coded P _ _ small)
    ]

    pub boolean-Tag :
        P TypeCode.boolean_true → P TypeCode.boolean_false → (v : Bool) → Tag P (encode_boolean v)
    unfolding encode_boolean
    boolean-Tag h1 h0 true = coded_alone P _ h1
    boolean-Tag h1 h0 false = coded_alone P _ h0

  module _ ⦃x : Externals⦄ where
    small_int : (n : ℕ) → n < u8_mod → Codes read_u8 (encode_i8 n) 1 n
    unfolding encode_i8
    small_int n h = unfold encode_u8 in u8-Codes n h

    pub ubyte-Codes : (n : ℕ) → n < u8_mod → Codes decode_ubyte (encode_ubyte n) 2 n
    unfolding decode_ubyte encode_ubyte
    ubyte-Codes n h = tagged-Codes _ TypeCode.ubyte (u8-Codes n h)

    pub ushort-Codes : (n : ℕ) → n < u16_mod → Codes decode_ushort (encode_ushort n) 3 n
    unfolding decode_ushort encode_ushort
    ushort-Codes n h = tagged-Codes _ TypeCode.ushort (u16-Codes n h)

    pub byte-Codes : (n : ℕ) → n < u8_mod → Codes decode_byte (encode_byte n) 2 n
    unfolding decode_byte encode_byte
    byte-Codes n h = tagged-Codes _ TypeCode.byte (i8-Codes n h)

    pub short-Codes : (n : ℕ) → n < u16_mod → Codes decode_short (encode_short n) 3 n
    unfolding decode_short encode_short
    short-Codes n h = tagged-Codes _ TypeCode.short (i16-Codes n h)

    pub float-Codes : (n : ℕ) → n < u32_mod → Codes decode_float (encode_float n) 5 n
    unfolding decode_float encode_float encode_u32
    float-Codes n h = tagged-Codes _ TypeCode.float (reader-Codes 4 n h)

    pub double-Codes : (n : ℕ) → n < u64_mod → Codes decode_double (encode_double n) 9 n
    unfolding decode_double encode_double encode_u64
    double-Codes n h = tagged-Codes _ TypeCode.double (reader-Codes 8 n h)

    pub char-Codes :
        (n : ℕ) → is_char n ≡ true → n < u32_mod → Codes decode_char (encode_char n) 5 n
    unfolding decode_char encode_char checked_char pure
    char-Codes n h few =
        tagged-Codes _ TypeCode.char (Codes-last _ (u32-Codes n few) (λ rest. rw h refl))

    pub uint-Codes : (n : ℕ) → n < u32_mod → Codes decode_uint (encode_uint n) (uint_size n) n
    unfolding decode_uint encode_uint pure
    uint-Codes n h = elim (Bool-cases (n == 0)) [
      | inl z ↦
          let nothing : n ≡ 0 = ground arith in
          rw z (rw nothing (Codes-last _ (code-Codes TypeCode.uint0) (λ rest. refl)))
      | inr z ↦ elim (Bool-cases (ltb 255 n)) [
        | inl w ↦ rw (z, w) (tagged-Codes _ TypeCode.uint (u32-Codes n h))
        | inr w ↦
            let fits : n % u8_mod ≡ n = ground arith in
            let one = u8-Codes n (ground arith) in
            rw (z, w, fits) (tagged-Codes _ TypeCode.uint_small one)
      ]
    ]

    pub ulong-Codes : (n : ℕ) → n < u64_mod → Codes decode_ulong (encode_ulong n) (ulong_size n) n
    unfolding decode_ulong encode_ulong pure
    ulong-Codes n h = elim (Bool-cases (n == 0)) [
      | inl z ↦
          let nothing : n ≡ 0 = ground arith in
          rw z (rw nothing (Codes-last _ (code-Codes TypeCode.ulong0) (λ rest. refl)))
      | inr z ↦ elim (Bool-cases (ltb 255 n)) [
        | inl w ↦ rw (z, w) (tagged-Codes _ TypeCode.ulong (u64-Codes n h))
        | inr w ↦
            let fits : n % u8_mod ≡ n = ground arith in
            let one = u8-Codes n (ground arith) in
            rw (z, w, fits) (tagged-Codes _ TypeCode.ulong_small one)
      ]
    ]

    -- A negative number of one byte is left out: it is read back as if it had no sign.
    pub int-Codes : (n : ℕ) → n < u32_mod - 128 → Codes decode_int (encode_int n) (int_size n) n
    unfolding decode_int encode_int
    int-Codes n h = elim (Bool-cases (is_wide_int n)) [
      | inl w ↦ rw w (tagged-Codes _ TypeCode.int (i32-Codes n (omega arith)))
      | inr w ↦
          let fits : n % u8_mod ≡ n = ground arith in
          let one = small_int n (ground arith) in
          rw (w, fits) (tagged-Codes _ TypeCode.int_small one)
    ]

    -- An `i32` from -128 to -1 is written in one byte and read back as that byte, from 128 to 255.
    pub int-Codes_negative :
        (n : ℕ)
        → n < u32_mod
        → u32_mod - 128 ≤ n
        → Codes decode_int (encode_int n) (int_size n) (n - (u32_mod - 256))
    unfolding decode_int encode_int
    int-Codes_negative n h negative =
        let narrow : is_wide_int n ≡ false = ground arith in
        let byte : n % u8_mod ≡ n - (u32_mod - 256) = omega arith in
        let one = small_int (n - (u32_mod - 256)) (omega arith) in
        rw (narrow, byte) (tagged-Codes _ TypeCode.int_small one)

    -- Every `i64` is read back, a small one from two bytes.
    pub long-Codes : (n : ℕ) → n < u64_mod → Codes decode_long (encode_long n) (long_wire n) n
    unfolding decode_long encode_long
    long-Codes n h = elim (Bool-cases (is_wide_long n)) [
      | inl w ↦ rw w (tagged-Codes _ TypeCode.long (i64-Codes n h))
      | inr w ↦
          let back : i64_of_i8 (n % u8_mod) ≡ n = ground arith in
          let one = map_second-Codes i64_of_i8 (i8-Codes (n % u8_mod) (omega arith)) in
          rw w (tagged-Codes _ TypeCode.long_small (rw back at one))
    ]

    -- An `i64` from -128 to 127 is written in two bytes and read back, but declares three.
    pub small_long-Codes :
        (n : ℕ)
        → (n < 128) ⊎ ((u64_mod - 128 ≤ n) × (n < u64_mod))
        → Codes decode_long (encode_long n) 2 n × (long_size n ≡ 2 + 1)
    small_long-Codes n (inl h) =
        let small : is_wide_long n ≡ false = ground arith in
        (Codes-resize (long-Codes n (omega arith)) (rw small refl), rw small refl)
    small_long-Codes n (inr (low, high)) =
        let small : is_wide_long n ≡ false = ground arith in
        (Codes-resize (long-Codes n high) (rw small refl), rw small refl)

    pub boolean-Codes : (v : Bool) → Codes decode_boolean (encode_boolean v) 1 v
    unfolding decode_boolean encode_boolean pure
    boolean-Codes true = Codes-last _ (code-Codes TypeCode.boolean_true) (λ rest. refl)
    boolean-Codes false = Codes-last _ (code-Codes TypeCode.boolean_false) (λ rest. refl)
