-- ===== src/Codec/ByteOrder.antt =====
-- The crate `byteorder`, which is not part of the repository: `write_uW::<BigEndian>` and
-- `BigEndian::read_uW` for a width of W / 8 bytes. A signed integer is its bit pattern, so
-- `write_i16` and `write_u16` are one function. The laws are what the crate documents: a write
-- appends as many bytes as the width, a read of what was written gives the number back, and a read
-- looks at the first bytes of its slice only; the highest byte comes first, and is 0 in front of a
-- number that fits one byte less.
use rabbitmq_stream_rust_cli.Prelude.{ℕ, suc, ◌^◌, ◌<◌, ◌≡◌, List, [], ◌∷◌, ◌++◌, length}

pub record ByteOrder : Type 0 where
  pub write : ℕ → ℕ → List ℕ
  pub read : ℕ → List ℕ → ℕ
  pub length-write : (width n : ℕ) → length (write width n) ≡ width
  pub read-write : (width n : ℕ) → n < 256 ^ width → read width (write width n) ≡ n
  pub read-append :
      (width : ℕ) (bs more : List ℕ) → length bs ≡ width → read width (bs ++ more) ≡ read width bs
  pub read-lt : (width : ℕ) (bs : List ℕ) → read width bs < 256 ^ width
  pub write_one : (n : ℕ) → n < 256 → write 1 n ≡ n ∷ []
  pub write_high : (width n : ℕ) → n < 256 ^ width → write (suc width) n ≡ 0 ∷ write width n
