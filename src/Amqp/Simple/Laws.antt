-- ===== src/Amqp/Simple/Laws.antt =====
-- A simple value reads back as itself, from as many bytes as its `encoded_size` says.
use rabbitmq_stream_rust_cli.Prelude.{
  ◌≤◌, ℕ, ◌-◌, ◌%◌, ◌<◌, ◌≡◌, refl, true, ltb, inl, inr, Bool-cases, arith, Option, none, some,
  List, length,
}
use rabbitmq_stream_rust_cli.Codec.Outcome.{Decode, pure}
use rabbitmq_stream_rust_cli.Codec.Emit.{Emit}
use rabbitmq_stream_rust_cli.Codec.ByteOrder.{ByteOrder}
use rabbitmq_stream_rust_cli.Codec.Utf8.{is_utf8}
use rabbitmq_stream_rust_cli.Codec.Laws.{Codes, Codes-last, Codes-resize}
use rabbitmq_stream_rust_cli.Codec.Ints.{u8_mod, u16_mod, u32_mod, u64_mod}
use rabbitmq_stream_rust_cli.Amqp.TypeCode
use rabbitmq_stream_rust_cli.Amqp.TypeCode.{TypeCode, map_second}
use rabbitmq_stream_rust_cli.Amqp.TypeCode.Laws.{
  Tag, coded, coded_alone, code-Codes, peek-Codes, map_second-Codes,
}
use rabbitmq_stream_rust_cli.Amqp.Errors.{Externals}
use rabbitmq_stream_rust_cli.Amqp.Numbers.{
  is_wide_long, is_char, encode_ubyte, encode_ushort, encode_byte, encode_short, encode_float,
  encode_double, encode_char,
}
use rabbitmq_stream_rust_cli.Amqp.Numbers.Laws.{
  uint-Tag, ulong-Tag, int-Tag, long-Tag, boolean-Tag, ubyte-Codes, ushort-Codes, byte-Codes,
  short-Codes, float-Codes, double-Codes, char-Codes, uint-Codes, ulong-Codes, int-Codes,
  long-Codes, boolean-Codes,
}
use rabbitmq_stream_rust_cli.Amqp.Texts
use rabbitmq_stream_rust_cli.Amqp.Texts.{encode_uuid, encode_timestamp}
use rabbitmq_stream_rust_cli.Amqp.Texts.Laws.{
  long_len, IsTimestamp, str-Tag, symbol-Tag, binary-Tag, binary-Codes, str-Codes, symbol-Codes,
  uuid-Codes, timestamp-Codes,
}
use rabbitmq_stream_rust_cli.Amqp.Simple.{
  SimpleValue, simple_size, encode_simple, decode_simple, simple_of, after_code, option_size,
  encode_option, decode_option, option_of,
}

pub long_size_lem : (v : List ℕ) → length v < u32_mod - 5 → long_len v ≡ Texts.long_size v
long_size_lem v h =
    let few : length v % u32_mod ≡ length v = omega arith in
    rw few (elim (Bool-cases (ltb 255 (length v))) [
      | inl w ↦ rw w (omega arith)
      | inr w ↦ rw w (omega arith)
    ])

-- Every value of an optional field satisfies `P`.
abbrev pub Each : {A : Type 0} → (A → Type 0) → Option A → Type 0
Each P none = Unit
Each P (some a) = P a

-- The codes that `SimpleValue::encode` writes.
abbrev pub IsSimpleCode : TypeCode → Type 0
IsSimpleCode TypeCode.described = ⊥
IsSimpleCode TypeCode.list0 = ⊥
IsSimpleCode TypeCode.list8 = ⊥
IsSimpleCode TypeCode.list32 = ⊥
IsSimpleCode TypeCode.map8 = ⊥
IsSimpleCode TypeCode.map32 = ⊥
IsSimpleCode TypeCode.array8 = ⊥
IsSimpleCode TypeCode.array32 = ⊥
IsSimpleCode c = Unit

module _ ⦃x : Externals⦄ where
  -- The values that the codec keeps: fields of their Rust types, no `i32` from -128 to -1, no `i64`
  -- from -128 to 127, texts and binaries that four bytes can announce, and times of milliseconds.
  unfoldable pub IsSimple : SimpleValue → Type 0
  IsSimple SimpleValue.null = Unit
  IsSimple (SimpleValue.boolean v) = Unit {0}
  IsSimple (SimpleValue.ubyte v) = v < u8_mod
  IsSimple (SimpleValue.ushort v) = v < u16_mod
  IsSimple (SimpleValue.uint v) = v < u32_mod
  IsSimple (SimpleValue.ulong v) = v < u64_mod
  IsSimple (SimpleValue.byte v) = v < u8_mod
  IsSimple (SimpleValue.short v) = v < u16_mod
  IsSimple (SimpleValue.int v) = v < u32_mod - 128
  IsSimple (SimpleValue.long v) = (128 ≤ v) × (v < u64_mod - 128)
  IsSimple (SimpleValue.float v) = v < u32_mod
  IsSimple (SimpleValue.double v) = v < u64_mod
  IsSimple (SimpleValue.char v) = (is_char v ≡ true) × (v < u32_mod)
  IsSimple (SimpleValue.timestamp v) = IsTimestamp v
  IsSimple (SimpleValue.uuid v) = Unit {0}
  IsSimple (SimpleValue.binary v) = length v < u32_mod - 5
  IsSimple (SimpleValue.string v) = (is_utf8 v ≡ true) × (length v < u32_mod - 5)
  IsSimple (SimpleValue.symbol v) = (is_utf8 v ≡ true) × (length v < u32_mod - 5)

module _ ⦃b : ByteOrder⦄ ⦃x : Externals⦄ where
  pub after_code-Codes :
      {A : Type 0} (a : A) (c : TypeCode) → Codes (after_code a) (TypeCode.encode c) 1 a
  unfolding after_code pure
  after_code-Codes a c = Codes-last _ (code-Codes c) (λ rest. refl)

  -- The first byte of a simple value is the code of a simple value.
  pub simple-Tag :
      (P : TypeCode → Type 0)
      → ((c : TypeCode) → IsSimpleCode c → P c)
      → (v : SimpleValue) → Tag P (encode_simple v)
  unfolding encode_simple encode_ubyte encode_ushort encode_byte encode_short encode_float
      encode_double encode_char encode_uuid encode_timestamp
  simple-Tag P p SimpleValue.null = coded_alone P _ (p TypeCode.null tt)
  simple-Tag P p (SimpleValue.boolean v) =
      boolean-Tag P (p TypeCode.boolean_true tt) (p TypeCode.boolean_false tt) v
  simple-Tag P p (SimpleValue.ubyte v) = coded P _ _ (p TypeCode.ubyte tt)
  simple-Tag P p (SimpleValue.ushort v) = coded P _ _ (p TypeCode.ushort tt)
  simple-Tag P p (SimpleValue.uint v) =
      uint-Tag P (p TypeCode.uint0 tt) (p TypeCode.uint_small tt) (p TypeCode.uint tt) v
  simple-Tag P p (SimpleValue.ulong v) =
      ulong-Tag P (p TypeCode.ulong0 tt) (p TypeCode.ulong_small tt) (p TypeCode.ulong tt) v
  simple-Tag P p (SimpleValue.byte v) = coded P _ _ (p TypeCode.byte tt)
  simple-Tag P p (SimpleValue.short v) = coded P _ _ (p TypeCode.short tt)
  simple-Tag P p (SimpleValue.int v) = int-Tag P (p TypeCode.int_small tt) (p TypeCode.int tt) v
  simple-Tag P p (SimpleValue.long v) = long-Tag P (p TypeCode.long_small tt) (p TypeCode.long tt) v
  simple-Tag P p (SimpleValue.float v) = coded P _ _ (p TypeCode.float tt)
  simple-Tag P p (SimpleValue.double v) = coded P _ _ (p TypeCode.double tt)
  simple-Tag P p (SimpleValue.char v) = coded P _ _ (p TypeCode.char tt)
  simple-Tag P p (SimpleValue.timestamp v) = coded P _ _ (p TypeCode.timestamp tt)
  simple-Tag P p (SimpleValue.uuid v) = coded P _ _ (p TypeCode.uuid tt)
  simple-Tag P p (SimpleValue.binary v) =
      binary-Tag P (p TypeCode.binary8 tt) (p TypeCode.binary32 tt) v
  simple-Tag P p (SimpleValue.string v) =
      str-Tag P (p TypeCode.string8 tt) (p TypeCode.string32 tt) v
  simple-Tag P p (SimpleValue.symbol v) =
      symbol-Tag P (p TypeCode.symbol8 tt) (p TypeCode.symbol32 tt) v

  as_simple :
      {A : Type 0} (f : A → SimpleValue) (d : Decode A) {e : Emit} {n : ℕ} {a : A}
      → Tag (λ c. simple_of c ≡ map_second f d) e
      → Codes d e n a
      → Codes decode_simple e n (f a)
  unfolding decode_simple
  as_simple f d t h = peek-Codes simple_of _ t (map_second-Codes f h)

  wide : (n : ℕ) → 128 ≤ n → n < u64_mod - 128 → is_wide_long n ≡ true
  wide n low high = ground arith

  -- A simple value reads back as itself from as many bytes as it declares, whatever follows it,
  -- provided that it is a number of its Rust type other than an i32 from -128 to -1 and an i64 from
  -- -128 to 127, a text in UTF-8 or a binary shorter than 2^32 - 5 bytes, a character of Unicode, a
  -- time that is made of whole milliseconds, a UUID, a Boolean or null.
  pub simple-Codes :
      (v : SimpleValue) → IsSimple v → Codes decode_simple (encode_simple v) (simple_size v) v
  unfolding IsSimple encode_simple decode_simple encode_ubyte encode_ushort encode_byte encode_short
      encode_float encode_double encode_char encode_uuid encode_timestamp
  simple-Codes SimpleValue.null h =
      peek-Codes simple_of (after_code SimpleValue.null) (coded_alone _ _ refl)
        (after_code-Codes _ TypeCode.null)
  simple-Codes (SimpleValue.boolean v) h =
      as_simple SimpleValue.boolean _ (boolean-Tag _ refl refl v) (boolean-Codes v)
  simple-Codes (SimpleValue.ubyte v) h =
      as_simple SimpleValue.ubyte _ (coded _ _ _ refl) (ubyte-Codes v h)
  simple-Codes (SimpleValue.ushort v) h =
      as_simple SimpleValue.ushort _ (coded _ _ _ refl) (ushort-Codes v h)
  simple-Codes (SimpleValue.uint v) h =
      as_simple SimpleValue.uint _ (uint-Tag _ refl refl refl v) (uint-Codes v h)
  simple-Codes (SimpleValue.ulong v) h =
      as_simple SimpleValue.ulong _ (ulong-Tag _ refl refl refl v) (ulong-Codes v h)
  simple-Codes (SimpleValue.byte v) h =
      as_simple SimpleValue.byte _ (coded _ _ _ refl) (byte-Codes v h)
  simple-Codes (SimpleValue.short v) h =
      as_simple SimpleValue.short _ (coded _ _ _ refl) (short-Codes v h)
  simple-Codes (SimpleValue.int v) h =
      as_simple SimpleValue.int _ (int-Tag _ refl refl v) (int-Codes v h)
  simple-Codes (SimpleValue.long v) h =
      as_simple SimpleValue.long _ (long-Tag _ refl refl v)
        (Codes-resize (long-Codes v (omega arith)) (rw (wide v h.0 h.1) refl))
  simple-Codes (SimpleValue.float v) h =
      as_simple SimpleValue.float _ (coded _ _ _ refl) (float-Codes v h)
  simple-Codes (SimpleValue.double v) h =
      as_simple SimpleValue.double _ (coded _ _ _ refl) (double-Codes v h)
  simple-Codes (SimpleValue.char v) h =
      as_simple SimpleValue.char _ (coded _ _ _ refl) (char-Codes v h.0 h.1)
  simple-Codes (SimpleValue.timestamp v) h =
      as_simple SimpleValue.timestamp _ (coded _ _ _ refl) (timestamp-Codes v h)
  simple-Codes (SimpleValue.uuid v) h =
      as_simple SimpleValue.uuid _ (coded _ _ _ refl) (uuid-Codes v)
  simple-Codes (SimpleValue.binary v) h =
      as_simple SimpleValue.binary _ (binary-Tag _ refl refl v)
        (Codes-resize (binary-Codes v (omega arith)) (long_size_lem v h))
  simple-Codes (SimpleValue.string v) h =
      as_simple SimpleValue.string _ (str-Tag _ refl refl v)
        (Codes-resize (str-Codes v h.0 (omega arith)) (long_size_lem v h.1))
  simple-Codes (SimpleValue.symbol v) h =
      as_simple SimpleValue.symbol _ (symbol-Tag _ refl refl v)
        (Codes-resize (symbol-Codes v h.0 (omega arith)) (long_size_lem v h.1))

  -- A field that is always there.
  pub present-Codes :
      {A : Type 0} (d : Decode A) {e : Emit} {n : ℕ} {a : A}
      → Tag (λ c. option_of d c ≡ map_second some d) e
      → Codes d e n a
      → Codes (decode_option d) e n (some a)
  unfolding decode_option
  present-Codes d t h = peek-Codes (option_of d) _ t (map_second-Codes some h)

  -- An optional field, whose value is never written as the null code.
  pub each-Codes :
      {A : Type 0} (P : A → Type 0) (d : Decode A) (f : A → Emit) (size : A → ℕ)
      → ((a : A) → P a → Codes d (f a) (size a) a)
      → ((a : A) → Tag (λ c. option_of d c ≡ map_second some d) (f a))
      → (o : Option A) → Each P o
      → Codes (decode_option d) (encode_option f o) (option_size size o) o
  unfolding encode_option decode_option
  each-Codes P d f size h t none good =
      peek-Codes (option_of d) (after_code none) (coded_alone _ _ refl)
        (after_code-Codes none TypeCode.null)
  each-Codes P d f size h t (some a) good =
      peek-Codes (option_of d) _ (t a) (map_second-Codes some (h a good))
