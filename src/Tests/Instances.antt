-- ===== src/Tests/Instances.antt =====
-- Instances of the interfaces that stand for code outside the repository, so that the model runs.
use native.Mathlib.Nat.{mod-lt, pow-succ', mod-eq_of_lt}
use native.Mathlib.Numerals.{unary_clauses}
use rabbitmq_stream_rust_cli.Prelude.{
  ℕ, zero, suc, ◌+◌, ◌*◌, ◌/◌, ◌%◌, ◌^◌, ◌<◌, ◌≡◌, ◌≢◌, refl, ap, Bool-cases, inl, inr, Option,
  none, some, List, [], ◌∷◌, ◌++◌, length, length-append, ◌==◌, ==_iff, ==_refl, if◌then◌else◌,
  arith,
}
use rabbitmq_stream_rust_cli.Codec.Emit.{done}
use rabbitmq_stream_rust_cli.Codec.ByteOrder.{ByteOrder}
use rabbitmq_stream_rust_cli.Codec.Ints.{read_u8}
use rabbitmq_stream_rust_cli.Message.{MessageCodec}
use rabbitmq_stream_rust_cli.Crates.{DashMap, Channel}
use rabbitmq_stream_rust_cli.Producer.{HasPublishingId}

abbrev digits : ℕ → ℕ → List ℕ
digits zero n = []
digits (suc w) n = digits w (n / 256) ++ (n % 256 ∷ [])

abbrev from_digits : ℕ → ℕ → List ℕ → ℕ
from_digits acc zero bs = acc
from_digits acc (suc w) [] = acc
from_digits acc (suc w) (b ∷ bs) = from_digits (acc * 256 + b % 256) w bs

pub length-digits : (w n : ℕ) → length (digits w n) ≡ w
length-digits zero n = refl
length-digits (suc w) n =
    omega (arith, length-append (digits w (n / 256)) (n % 256 ∷ []), length-digits w (n / 256))

from_digits_snoc :
    (acc w : ℕ) (bs : List ℕ) (x : ℕ)
    → length bs ≡ w
    → from_digits acc (suc w) (bs ++ (x ∷ [])) ≡ from_digits acc w bs * 256 + x % 256
from_digits_snoc acc zero [] x h = refl
from_digits_snoc acc (suc w) [] x h = absurd (omega arith)
from_digits_snoc acc zero (b ∷ bs) x h = absurd (omega arith)
from_digits_snoc acc (suc w) (b ∷ bs) x h =
    from_digits_snoc (acc * 256 + b % 256) w bs x (omega arith)

pub from_digits_append :
    (acc w : ℕ) (bs more : List ℕ)
    → length bs ≡ w
    → from_digits acc w (bs ++ more) ≡ from_digits acc w bs
from_digits_append acc zero [] more h = refl
from_digits_append acc (suc w) [] more h = absurd (omega arith)
from_digits_append acc zero (b ∷ bs) more h = absurd (omega arith)
from_digits_append acc (suc w) (b ∷ bs) more h =
    from_digits_append (acc * 256 + b % 256) w bs more (omega arith)

pub from_digits-digits : (w n : ℕ) → n < 256 ^ w → from_digits 0 w (digits w n) ≡ n
from_digits-digits zero n h = omega (arith, simp unary_clauses at h)
from_digits-digits (suc w) n h =
    let scaled : n < 256 * 256 ^ w = rw (pow-succ' 256 w) at h in
    let small : n / 256 < 256 ^ w = omega (arith, scaled) in
    let last = from_digits_snoc 0 w (digits w (n / 256)) (n % 256) (length-digits w (n / 256)) in
    let front = from_digits-digits w (n / 256) small in omega (arith, last, front)

pub pow_positive : (w : ℕ) → 0 < 256 ^ w
pow_positive zero = omega arith
pow_positive (suc w) = rw (pow-succ' 256 w) (omega (arith, pow_positive w))

pub digits_high : (w n : ℕ) → n < 256 ^ w → digits (suc w) n ≡ 0 ∷ digits w n
digits_high zero n h =
    let nothing : n ≡ 0 = omega (arith, simp unary_clauses at h) in rw nothing refl
digits_high (suc w) n h =
    let scaled : n < 256 * 256 ^ w = rw (pow-succ' 256 w) at h in
    rw (digits_high w (n / 256) (omega (arith, scaled))) refl

instance abbrev pub big_endian : ByteOrder
big_endian = record {
  write = digits;
  read = λ w bs. from_digits 0 w bs % 256 ^ w;
  length-write = length-digits;
  read-write = λ w n h. rw (from_digits-digits w n h) (mod-eq_of_lt h);
  read-append = λ w bs more h. ap (λ x. x % 256 ^ w) (from_digits_append 0 w bs more h);
  read-lt = λ w bs. mod-lt (from_digits 0 w bs) (pow_positive w);
  write_high = digits_high;
  write_one = λ n h. ap (λ x. x ∷ []) (omega (arith, h));
}

-- A message that is one byte.
abbrev pub Byte : Type 0
Byte = ℕ

instance abbrev pub byte_codec : MessageCodec Byte
byte_codec = record { encoded_size = λ x. 1; encode = λ x. done (x ∷ []); decode = read_u8 }

instance abbrev pub no_ids : HasPublishingId Byte
no_ids = record { publishing_id = λ m. none }

pub miss : {A : Type 0} (k j : ℕ) (a b : A) → j ≢ k → (if j == k then a else b) ≡ b
miss k j a b other = elim (Bool-cases (j == k)) [
  | inl same ↦ absurd (other ((==_iff j k).0 same))
  | inr differ ↦ rw differ
]

module _ {V : Type 0} where
  instance abbrev pub function_map : DashMap V
  function_map = record {
    Map = ℕ → Option V;
    new = λ k. none;
    get = λ k m. m k;
    insert = λ k v m j. if j == k then some v else m j;
    remove = λ k m. (m k, λ j. if j == k then none else m j);
    clear = λ m k. none;
    get-new = λ k. refl;
    get-insert = λ k v m. rw (==_refl k);
    get-insert_other = λ k j v m other. miss k j _ _ other;
    remove-get = λ k m. refl;
    get-remove = λ k m. rw (==_refl k);
    get-remove_other = λ k j m other. miss k j _ _ other;
    get-clear = λ k m. refl;
  }

  abbrev oldest : List V → Option V × List V
  oldest [] = (none, [])
  oldest (a ∷ rest) = (some a, rest)

  instance abbrev pub list_channel : Channel V
  list_channel = record {
    Queue = List V;
    new = λ capacity. [];
    queued = λ q. q;
    send = λ a q. q ++ (a ∷ []);
    try_recv = oldest;
    queued-new = λ capacity. refl;
    queued-send = λ a q. refl;
    try_recv_empty = λ q e. rw e (refl, refl);
    try_recv_oldest = λ q a rest e. rw e (refl, refl);
  }
