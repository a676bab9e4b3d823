-- ===== src/Commands/OffsetSpecification.antt =====
-- `OffsetSpecification` of protocol/src/commands/subscribe.rs.
use rabbitmq_stream_rust_cli.Prelude.{
  ℕ, [], ◌%◌, ◌<◌, ◌≡◌, refl, ◌==◌, if◌then◌else◌, arith, Bool-cases, inl, inr,
}
use rabbitmq_stream_rust_cli.Codec.Outcome.{Decode, pure, crash, ◌>>=◌}
use rabbitmq_stream_rust_cli.Codec.Emit.{Emit, done, ◌⊕◌}
use rabbitmq_stream_rust_cli.Codec.ByteOrder.{ByteOrder}
use rabbitmq_stream_rust_cli.Codec.Laws.{Codes, Codes-bind, Codes-last, Codes-nothing}
use rabbitmq_stream_rust_cli.Codec.Local.{IsLocal, IsLocal-bind, local_rules}
use rabbitmq_stream_rust_cli.Codec.Ints.{
  u32_mod, u64_mod, ◌⊞◌, u16_size, u64_size, i64_size, read_u16, read_u64, read_i64, encode_u16,
  encode_u64, encode_i64,
}
use rabbitmq_stream_rust_cli.Codec.Ints.Laws.{
  u16-Codes, u64-Codes, i64-Codes, read_u16-IsLocal, int_local_rules,
}

-- The number of a `timestamp` is the bit pattern of an `i64`.
pub data OffsetSpecification : Type 0 where
  first : OffsetSpecification
  last : OffsetSpecification
  next : OffsetSpecification
  offset : ℕ → OffsetSpecification
  timestamp : ℕ → OffsetSpecification

unfoldable pub get_type : OffsetSpecification → ℕ
get_type first = 1
get_type last = 2
get_type next = 3
get_type (offset n) = 4
get_type (timestamp n) = 5

abbrev argument_size : OffsetSpecification → ℕ
argument_size (offset n) = u64_size n
argument_size (timestamp n) = i64_size n
argument_size _ = 0

unfoldable pub encoded_size : OffsetSpecification → ℕ
unfolding get_type
encoded_size o = u16_size (get_type o) ⊞ argument_size o

abbrev pub IsValid : OffsetSpecification → Type 0
IsValid (offset n) = n < u64_mod
IsValid (timestamp n) = n < u64_mod
IsValid _ = Unit

abbrev pub wire_len : OffsetSpecification → ℕ
wire_len (offset n) = 10
wire_len (timestamp n) = 10
wire_len _ = 2

module _ ⦃b : ByteOrder⦄ where
  unfoldable pub encode_argument : OffsetSpecification → Emit
  encode_argument (offset n) = encode_u64 n
  encode_argument (timestamp n) = encode_i64 n
  encode_argument _ = done []

  unfoldable pub encode : OffsetSpecification → Emit
  unfolding encode_argument get_type
  encode o = encode_u16 (get_type o) ⊕ encode_argument o

  unfoldable pub decode_argument : ℕ → Decode OffsetSpecification
  decode_argument offset_type =
      if offset_type == 1
      then pure first
      else if offset_type == 2
      then pure last
      else if offset_type == 3
      then pure next
      else if offset_type == 4
      then (do n ← read_u64; pure (offset n))
      else if offset_type == 5
      then (do n ← read_i64; pure (timestamp n))
      else crash

  unfoldable pub decode : Decode OffsetSpecification
  unfolding decode_argument
  decode = do offset_type ← read_u16; decode_argument offset_type

  -- An offset specification reads back as itself.
  pub offset-Codes : (o : OffsetSpecification) → IsValid o → Codes decode (encode o) (wire_len o) o
  unfolding decode encode pure
  offset-Codes (offset n) h =
      Codes-bind _ (u16-Codes 4 (omega arith)) (Codes-last _ (u64-Codes n h) (λ rest. refl))
  offset-Codes (timestamp n) h =
      Codes-bind _ (u16-Codes 5 (omega arith)) (Codes-last _ (i64-Codes n h) (λ rest. refl))
  offset-Codes first h = Codes-bind _ (u16-Codes 1 (omega arith)) (Codes-nothing first)
  offset-Codes last h = Codes-bind _ (u16-Codes 2 (omega arith)) (Codes-nothing last)
  offset-Codes next h = Codes-bind _ (u16-Codes 3 (omega arith)) (Codes-nothing next)

  argument-IsLocal : (n : ℕ) → IsLocal (decode_argument n)
  unfolding decode_argument
  argument-IsLocal n = elim (Bool-cases (n == 1)) [
    | inl e ↦ rw e (search local_rules)
    | inr e₁ ↦ elim (Bool-cases (n == 2)) [
      | inl e ↦ rw (e₁, e) (search local_rules)
      | inr e₂ ↦ elim (Bool-cases (n == 3)) [
        | inl e ↦ rw (e₁, e₂, e) (search local_rules)
        | inr e₃ ↦ elim (Bool-cases (n == 4)) [
          | inl e ↦ rw (e₁, e₂, e₃, e) (search (local_rules, int_local_rules))
          | inr e₄ ↦ elim (Bool-cases (n == 5)) [
            | inl e ↦ rw (e₁, e₂, e₃, e₄, e) (search (local_rules, int_local_rules))
            | inr e₅ ↦ rw (e₁, e₂, e₃, e₄, e₅) (search local_rules)
          ]
        ]
      ]
    ]
  ]

  pub decode-IsLocal : IsLocal decode
  unfolding decode
  decode-IsLocal = IsLocal-bind _ _ read_u16-IsLocal argument-IsLocal

pub encoded_size_lem : (o : OffsetSpecification) → encoded_size o ≡ wire_len o % u32_mod
unfolding encoded_size
encoded_size_lem (offset n) = omega arith
encoded_size_lem _ = omega arith
