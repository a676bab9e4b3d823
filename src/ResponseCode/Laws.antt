-- ===== src/ResponseCode/Laws.antt =====
-- Response codes and their numbers.
use rabbitmq_stream_rust_cli.Prelude.{ℕ, ◌<◌, ◌≡◌, refl, none, some, arith}
use rabbitmq_stream_rust_cli.Codec.Outcome.{pure, fail, unknown_response_code}
use rabbitmq_stream_rust_cli.Codec.ByteOrder.{ByteOrder}
use rabbitmq_stream_rust_cli.Codec.Laws.{Codes, Codes-last}
use rabbitmq_stream_rust_cli.Codec.Local.{IsLocal, IsLocal-bind, IsLocal-pure, IsLocal-fail}
use rabbitmq_stream_rust_cli.Codec.Ints.{u16_mod}
use rabbitmq_stream_rust_cli.Codec.Ints.Laws.{u16-Codes, read_u16-IsLocal}
use rabbitmq_stream_rust_cli.ResponseCode.{
  ResponseCode, to_u16, from_u16, try_into, decode_code, encode_code,
}

pub from_u16-to_u16 : (c : ResponseCode) → from_u16 (to_u16 c) ≡ some c
unfolding from_u16 to_u16
from_u16-to_u16 ResponseCode.ok = refl
from_u16-to_u16 _ = refl

pub to_u16-lt : (c : ResponseCode) → to_u16 c < u16_mod
unfolding to_u16
to_u16-lt ResponseCode.ok = omega arith
to_u16-lt _ = omega arith

-- No number but that of a code is taken for it.
pub to_u16-from_u16 : (n : ℕ) (c : ResponseCode) → from_u16 n ≡ some c → to_u16 c ≡ n
unfolding from_u16 to_u16
to_u16-from_u16 n c h = ground arith

try_into-IsLocal : (n : ℕ) → IsLocal (try_into n)
unfolding try_into
try_into-IsLocal n =
    elim (from_u16 n)
      as (λ o. IsLocal (elim o [ none ↦ fail (unknown_response_code n) | some c ↦ pure c ])) [
        | none ↦ IsLocal-fail _
        | some c ↦ IsLocal-pure c
      ]

module _ ⦃b : ByteOrder⦄ where
  pub decode_code-IsLocal : IsLocal decode_code
  unfolding decode_code
  decode_code-IsLocal = IsLocal-bind _ _ read_u16-IsLocal try_into-IsLocal

  pub code-Codes : (c : ResponseCode) → Codes decode_code (encode_code c) 2 c
  unfolding decode_code encode_code try_into pure
  code-Codes c =
      Codes-last _ (u16-Codes (to_u16 c) (to_u16-lt c)) (λ rest. rw (from_u16-to_u16 c, try_into))
