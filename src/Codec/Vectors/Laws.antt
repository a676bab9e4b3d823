-- ===== src/Codec/Vectors/Laws.antt =====
-- Vectors read back what was written, their sizes add up, and their decoders are local.
use mathlib.Core.List.{foldl}
use rabbitmq_stream_rust_cli.Prelude.{
  ℕ, zero, suc, ◌+◌, ◌%◌, ◌^◌, ◌<◌, ◌≡◌, refl, ap, ◌∙◌, true, inl, inr, List, [], ◌∷◌, length,
  arith, ltb, Bool-cases, All,
}
use rabbitmq_stream_rust_cli.Codec.Outcome.{Decode, pure}
use rabbitmq_stream_rust_cli.Codec.Emit.{Emit, emit_each, ◌⊕◌}
use rabbitmq_stream_rust_cli.Codec.ByteOrder.{ByteOrder}
use rabbitmq_stream_rust_cli.Codec.Laws.{
  Codes, Codes-bind, Codes-last, Codes-nothing, Codes-pure_bind,
}
use rabbitmq_stream_rust_cli.Codec.Local.{IsLocal, IsLocal-bind, IsLocal-pure, local_rules}
use rabbitmq_stream_rust_cli.Codec.Ints.{
  u16_mod, u32_mod, u64_mod, ◌⊞◌, read_u16, read_u64, encode_u16, encode_u32, encode_u64,
}
use rabbitmq_stream_rust_cli.Codec.Ints.Laws.{
  i32-Codes, u16-Codes, u32-Codes, u64-Codes, i32-eq-u32, read_i32-IsLocal, read_u16-IsLocal,
  read_u32-IsLocal, read_u64-IsLocal,
}
use rabbitmq_stream_rust_cli.Codec.Strings.{Str, str_size, IsText, decode_string, encode_str}
use rabbitmq_stream_rust_cli.Codec.Strings.Laws.{str-Codes, decode_string-IsLocal}
use rabbitmq_stream_rust_cli.Codec.Vectors.{
  repeat, reserve, fold_size, vec_size, read_vec, encode_vec, decode_vec_u16, encode_vec_u16,
  decode_vec_u64, encode_vec_u64, push, read_strings, decode_strings, encode_strings, strings_size,
}

-- The sum of the elements' lengths on the wire.
abbrev pub total : {A : Type 0} → (A → ℕ) → List A → ℕ
total len [] = 0
total len (x ∷ xs) = len x + total len xs

module _ {A : Type 0} (size len : A → ℕ) (fits : (x : A) → size x ≡ len x % u32_mod) where
  foldl_lem :
      (xs : List A) (acc : ℕ)
      → foldl (λ sum v. sum ⊞ size v) (acc % u32_mod) xs ≡ (acc + total len xs) % u32_mod
  foldl_lem [] acc = omega arith
  foldl_lem (x ∷ xs) acc =
      let start : acc % u32_mod ⊞ size x ≡ (acc + len x) % u32_mod = omega (arith, fits x) in
      ap (λ s. foldl (λ sum v. sum ⊞ size v) s xs) start ∙ foldl_lem xs (acc + len x) ∙ omega arith

  -- A folded size is the true length, cut to 32 bits.
  pub fold_size_lem : (xs : List A) → fold_size size xs ≡ total len xs % u32_mod
  fold_size_lem xs = foldl_lem xs 0 ∙ omega arith

  pub vec_size_lem : (xs : List A) → vec_size size xs ≡ (4 + total len xs) % u32_mod
  vec_size_lem xs = omega (arith, fold_size_lem xs)

abbrev pub str_len : Str → ℕ
str_len s = 2 + length s

pub strings_size_lem : (xs : List Str) → strings_size xs ≡ (4 + total str_len xs) % u32_mod
strings_size_lem xs = vec_size_lem str_size str_len (λ s. omega arith) xs

module _ {A : Type 0} (d : Decode A) (f : A → Emit) (len : A → ℕ) where
  pub repeat-Codes :
      (xs : List A)
      → All (λ x. Codes d (f x) (len x) x) xs
      → Codes (repeat (length xs) d) (emit_each f xs) (total len xs) xs
  unfolding repeat emit_each pure
  repeat-Codes [] h = Codes-nothing []
  repeat-Codes (x ∷ xs) h = Codes-bind _ h.0 (Codes-last _ (repeat-Codes xs h.1) (λ rest. refl))

reserve-IsLocal : (n : ℕ) → IsLocal (reserve n)
unfolding reserve
reserve-IsLocal n = elim (Bool-cases (ltb n (2 ^ 31))) [
  | inl fits ↦ rw fits (search local_rules)
  | inr huge ↦ rw huge (search local_rules)
]

module _ {A : Type 0} where
  pub repeat-IsLocal : (n : ℕ) (d : Decode A) → IsLocal d → IsLocal (repeat n d)
  unfolding repeat
  repeat-IsLocal zero d h = search local_rules
  repeat-IsLocal (suc n) d h =
      IsLocal-bind d _ h
        λ x. IsLocal-bind (repeat n d) _ (repeat-IsLocal n d h) λ xs. IsLocal-pure (x ∷ xs)

reserve_room : (n : ℕ) → n < 2 ^ 31 → reserve n ≡ pure tt
unfolding reserve
reserve_room n h = let fits : ltb n (2 ^ 31) ≡ true = ground arith in rw fits

pub All-map :
    {A : Type 0} {P Q : A → Type 0} (f : (x : A) → P x → Q x) (xs : List A) → All P xs → All Q xs
All-map f [] h = tt
All-map f (x ∷ xs) h = (f x h.0, All-map f xs h.1)

module _ ⦃b : ByteOrder⦄ where
  pub read_vec-IsLocal : {A : Type 0} (d : Decode A) → IsLocal d → IsLocal (read_vec d)
  unfolding read_vec
  read_vec-IsLocal d h =
      IsLocal-bind _ _ read_i32-IsLocal
        λ n. IsLocal-bind (reserve n) _ (reserve-IsLocal n) λ u. repeat-IsLocal n d h

  pub read_vec-Codes :
      {A : Type 0} (d : Decode A) (f : A → Emit) (len : A → ℕ) (xs : List A)
      → length xs < 2 ^ 31
      → All (λ x. Codes d (f x) (len x) x) xs
      → Codes (read_vec d) (encode_vec f xs) (4 + total len xs) xs
  unfolding read_vec encode_vec
  read_vec-Codes d f len xs few h =
      let small : length xs % u32_mod ≡ length xs = omega arith in
      let room : reserve (length xs) ≡ pure tt = reserve_room (length xs) few in
      Codes-bind _ (i32-Codes (length xs % u32_mod) (omega arith))
        (rw (small, room) (Codes-pure_bind _ _ (repeat-Codes d f len xs h)))

  -- The same for a vector whose length is written as a `u32`.
  pub read_vec_u32-Codes :
      {A : Type 0} (d : Decode A) (f : A → Emit) (len : A → ℕ) (xs : List A)
      → length xs < 2 ^ 31
      → All (λ x. Codes d (f x) (len x) x) xs
      → Codes (read_vec d) (encode_u32 (length xs % u32_mod) ⊕ emit_each f xs) (4 + total len xs) xs
  read_vec_u32-Codes d f len xs few h =
      rw (← i32-eq-u32 (length xs % u32_mod)) (unfold encode_vec in read_vec-Codes d f len xs few h)

  pub vec_u16-Codes :
      (xs : List ℕ)
      → length xs < 2 ^ 31
      → All (λ x. x < u16_mod) xs
      → Codes decode_vec_u16 (encode_vec_u16 xs) (4 + total (λ x. 2) xs) xs
  unfolding decode_vec_u16 encode_vec_u16
  vec_u16-Codes xs few h =
      read_vec-Codes read_u16 encode_u16 (λ x. 2) xs few (All-map u16-Codes xs h)

  pub vec_u64-Codes :
      (xs : List ℕ)
      → length xs < 2 ^ 31
      → All (λ x. x < u64_mod) xs
      → Codes decode_vec_u64 (encode_vec_u64 xs) (4 + total (λ x. 8) xs) xs
  unfolding decode_vec_u64 encode_vec_u64
  vec_u64-Codes xs few h =
      read_vec-Codes read_u64 encode_u64 (λ x. 8) xs few (All-map u64-Codes xs h)

  pub decode_vec_u16-IsLocal : IsLocal decode_vec_u16
  unfolding decode_vec_u16
  decode_vec_u16-IsLocal = read_vec-IsLocal read_u16 read_u16-IsLocal

  pub decode_vec_u64-IsLocal : IsLocal decode_vec_u64
  unfolding decode_vec_u64
  decode_vec_u64-IsLocal = read_vec-IsLocal read_u64 read_u64-IsLocal

  read_strings-IsLocal : (n : ℕ) → IsLocal (read_strings n)
  unfolding read_strings
  read_strings-IsLocal zero = IsLocal-pure []
  read_strings-IsLocal (suc n) =
      IsLocal-bind decode_string _ decode_string-IsLocal
        λ v. IsLocal-bind (read_strings n) _ (read_strings-IsLocal n) λ vs. IsLocal-pure (push v vs)

  pub decode_strings-IsLocal : IsLocal decode_strings
  unfolding decode_strings
  decode_strings-IsLocal = IsLocal-bind _ _ read_u32-IsLocal read_strings-IsLocal

  read_strings-Codes :
      (xs : List Str)
      → All IsText xs
      → Codes (read_strings (length xs)) (emit_each encode_str xs) (total str_len xs) xs
  unfolding read_strings emit_each pure
  read_strings-Codes [] h = Codes-nothing []
  read_strings-Codes (x ∷ xs) h =
      Codes-bind _ (str-Codes x h.0) (Codes-last _ (read_strings-Codes xs h.1) (λ rest. refl))

  -- A vector of texts, none of them empty, reads back as itself.
  pub strings-Codes :
      (xs : List Str)
      → length xs < u32_mod
      → All IsText xs
      → Codes decode_strings (encode_strings xs) (4 + total str_len xs) xs
  unfolding decode_strings encode_strings
  strings-Codes xs few h =
      let small : length xs % u32_mod ≡ length xs = omega arith in
      Codes-bind _ (u32-Codes (length xs % u32_mod) (omega arith))
        (rw small (read_strings-Codes xs h))
