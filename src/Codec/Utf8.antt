-- ===== src/Codec/Utf8.antt =====
-- `String::from_utf8` of the Rust standard library: which byte sequences are well formed UTF-8
-- (the table of the Unicode standard that its documentation names). A Rust `String` is a list of
-- bytes that passes this test.
use rabbitmq_stream_rust_cli.Prelude.{
  ℕ, zero, suc, Bool, true, false, ◌&&◌, Option, none, some, List, [], ◌∷◌, ltb, leb, if◌then◌else◌,
}

-- What the next byte may be: the first of a character, or one of a range, with so many
-- continuation bytes behind it.
pub data Utf8State : Type 0 where
  boundary : Utf8State
  within : ℕ → ℕ → ℕ → Utf8State

unfoldable pub first_byte : ℕ → Option Utf8State
first_byte b =
    if ltb b 0x80
    then some boundary
    else if ltb b 0xc2
    then none
    else if ltb b 0xe0
    then some (within 0x80 0xbf 0)
    else if ltb b 0xe1
    then some (within 0xa0 0xbf 1)
    else if ltb b 0xed
    then some (within 0x80 0xbf 1)
    else if ltb b 0xee
    then some (within 0x80 0x9f 1)
    else if ltb b 0xf0
    then some (within 0x80 0xbf 1)
    else if ltb b 0xf1
    then some (within 0x90 0xbf 2)
    else if ltb b 0xf4
    then some (within 0x80 0xbf 2)
    else if ltb b 0xf5
    then some (within 0x80 0x8f 2)
    else none

unfoldable pub utf8_step : Utf8State → ℕ → Option Utf8State
unfolding first_byte
utf8_step boundary b = first_byte b
utf8_step (within lo hi zero) b = if leb lo b && leb b hi then some boundary else none
utf8_step (within lo hi (suc k)) b =
    if leb lo b && leb b hi then some (within 0x80 0xbf k) else none

unfoldable pub utf8_from : Utf8State → List ℕ → Bool
unfolding utf8_step
utf8_from boundary [] = true
utf8_from (within lo hi k) [] = false
utf8_from s (b ∷ bs) = elim (utf8_step s b) [ none ↦ false | some t ↦ utf8_from t bs ]

unfoldable pub is_utf8 : List ℕ → Bool
unfolding utf8_from
is_utf8 bs = utf8_from boundary bs
