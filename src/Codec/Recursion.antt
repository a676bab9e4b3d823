-- ===== src/Codec/Recursion.antt =====
-- Decoders that call themselves on what they have not read yet: a step of the recursion, run on
-- fuel, and why the length of the input is enough of it.
use rabbitmq_stream_rust_cli.Prelude.{
  ℕ, zero, suc, ◌<◌, ◌≤◌, ◌≡◌, refl, sym, Bool, true, false, if◌then◌else◌, List, length,
  length-append, arith,
}
use rabbitmq_stream_rust_cli.Codec.Outcome.{
  Outcome, DecodeError, ok, err, panic, Decode, pure, fail, crash, continue, ◌>>=◌, >>=_ok,
}
use rabbitmq_stream_rust_cli.Codec.Local.{IsLocal}

module _ {A S : Type 0} (body : (S → Decode A) → S → Decode A) where
  -- The recursion cut off after so many calls, where it does `out`.
  unfoldable pub cut_off : (S → Decode A) → ℕ → S → Decode A
  cut_off out zero s = out s
  cut_off out (suc n) s = body (cut_off out n) s

  -- The recursion cut off by a panic.
  unfoldable pub fuelled : ℕ → S → Decode A
  unfolding cut_off
  fuelled n s = cut_off (λ t. crash) n s

  -- As many calls as there are bytes, and the first.
  unfoldable pub recursive : S → Decode A
  unfolding fuelled
  recursive s input = fuelled (suc (length input)) s input

-- A decoder that succeeds leaves no more than it was given, or less.
pub record Keeps {A : Type 0} (d : Decode A) : Type 0 where
  pub keep : (input rest : List ℕ) (a : A) → d input ≡ ok (rest, a) → length rest ≤ length input

pub record Shrinks {A : Type 0} (d : Decode A) : Type 0 where
  pub shrink : (input rest : List ℕ) (a : A) → d input ≡ ok (rest, a) → length rest < length input

-- Two decoders do the same on every input of fewer than `n` bytes.
pub record Agree {A : Type 0} (n : ℕ) (d e : Decode A) : Type 0 where
  pub agree : (input : List ℕ) → length input < n → d input ≡ e input

module _ {A : Type 0} where
  pub Keeps-pure : (a : A) → Keeps (pure a)
  unfolding pure
  Keeps-pure a = record {
    keep = λ input rest x h. let same : input ≡ rest = cc in rw same (omega arith);
  }

  pub Keeps-fail : (e : DecodeError) → Keeps (fail {A = A} e)
  unfolding fail
  Keeps-fail e = record { keep = λ input rest x h. absurd (cc) }

  pub Keeps-crash : Keeps (crash {A = A})
  unfolding crash
  Keeps-crash = record { keep = λ input rest x h. absurd (cc) }

  pub Keeps-if : (c : Bool) (d e : Decode A) → Keeps d → Keeps e → Keeps (if c then d else e)
  Keeps-if true d e p q = p
  Keeps-if false d e p q = q

  pub IsLocal-Keeps : (d : Decode A) → IsLocal d → Keeps d
  IsLocal-Keeps d h = record {
    keep = λ input rest a e.
        let (front, split, again) = h.took input rest a e in
        rw split (omega (arith, length-append front rest));
  }

  pub Shrinks-if :
      (c : Bool) (d e : Decode A) → Shrinks d → Shrinks e → Shrinks (if c then d else e)
  Shrinks-if true d e p q = p
  Shrinks-if false d e p q = q

  pub Shrinks-Keeps : (d : Decode A) → Shrinks d → Keeps d
  Shrinks-Keeps d h = record { keep = λ input rest a e. omega (arith, h.shrink input rest a e) }

  pub Agree-refl : (n : ℕ) (d : Decode A) → Agree n d d
  Agree-refl n d = record { agree = λ input h. refl }

module _ {A B : Type 0} where
  pub Keeps-bind :
      (d : Decode A) (k : A → Decode B) → Keeps d → ((a : A) → Keeps (k a)) → Keeps (d >>= k)
  Keeps-bind d k p q = record {
    keep = λ input rest b h.
        let (mid, a, first, second) = >>=_ok d k input h in
        omega (arith, p.keep input mid a first, (q a).keep mid rest b second);
  }

  pub Shrinks-bind :
      (d : Decode A) (k : A → Decode B) → Shrinks d → ((a : A) → Keeps (k a)) → Shrinks (d >>= k)
  Shrinks-bind d k p q = record {
    shrink = λ input rest b h.
        let (mid, a, first, second) = >>=_ok d k input h in
        omega (arith, p.shrink input mid a first, (q a).keep mid rest b second);
  }

  pub Shrinks-bind_right :
      (d : Decode A) (k : A → Decode B) → Keeps d → ((a : A) → Shrinks (k a)) → Shrinks (d >>= k)
  Shrinks-bind_right d k p q = record {
    shrink = λ input rest b h.
        let (mid, a, first, second) = >>=_ok d k input h in
        omega (arith, p.keep input mid a first, (q a).shrink mid rest b second);
  }

  -- The outcome of a bind, by that of its first part.
  bind_congr :
      (d e : Decode A) (k l : A → Decode B) (input : List ℕ)
      → d input ≡ e input
      → ((rest : List ℕ) (a : A) → d input ≡ ok (rest, a) → k a rest ≡ l a rest)
      → (d >>= k) input ≡ (e >>= l) input
  unfolding ◌>>=◌
  bind_congr d e k l input same p = rw (← same) (go (d input) p)
    where
      go :
          (o : Outcome (List ℕ × A))
          → ((rest : List ℕ) (a : A) → o ≡ ok (rest, a) → k a rest ≡ l a rest)
          → continue o k ≡ continue o l
      go (ok (rest, a)) p = p rest a refl
      go (err x) p = refl
      go panic p = refl

  pub Agree-bind :
      (n : ℕ) (d e : Decode A) (k l : A → Decode B)
      → Agree n d e
      → Keeps d
      → ((a : A) → Agree n (k a) (l a))
      → Agree n (d >>= k) (e >>= l)
  Agree-bind n d e k l p keeps q = record {
    agree = λ input h.
        bind_congr d e k l input (p.agree input h)
          λ rest a found. (q a).agree rest (omega (arith, keeps.keep input rest a found));
  }

  -- Behind a decoder that takes a byte there is one byte less to agree on.
  pub Agree-shrunk :
      (n : ℕ) (d : Decode A) (k l : A → Decode B)
      → Shrinks d
      → ((a : A) → Agree n (k a) (l a))
      → Agree (suc n) (d >>= k) (d >>= l)
  Agree-shrunk n d k l shrinks q = record {
    agree = λ input h.
        bind_congr d d k l input refl
          λ rest a found. (q a).agree rest (omega (arith, shrinks.shrink input rest a found));
  }

pub Agree-less : {A : Type 0} (n : ℕ) (d e : Decode A) → Agree (suc n) d e → Agree n d e
Agree-less n d e h = record { agree = λ input less. h.agree input (omega arith) }

-- A step whose calls stand behind a byte that it has read: on inputs of at most `n` bytes it needs
-- its calls on fewer bytes only. Calls that leave no more than they got are all that it meets.
pub record Recurses {A S : Type 0} (body : (S → Decode A) → S → Decode A) : Type 0 where
  pub keeps : (f : S → Decode A) → ((s : S) → Keeps (f s)) → (s : S) → Keeps (body f s)
  pub needs_less :
      (n : ℕ) (f g : S → Decode A)
      → ((s : S) → Keeps (f s))
      → ((s : S) → Agree n (f s) (g s))
      → (s : S) → Agree (suc n) (body f s) (body g s)

module _ {A S : Type 0} (body : (S → Decode A) → S → Decode A) (r : Recurses body) where
  pub fuelled-Keeps : (n : ℕ) (s : S) → Keeps (fuelled body n s)
  unfolding fuelled cut_off
  fuelled-Keeps zero s = Keeps-crash
  fuelled-Keeps (suc n) s = r.keeps (fuelled body n) (fuelled-Keeps n) s

  -- With more fuel than there are bytes, neither the amount of fuel nor what is done at the cut makes
  -- a difference: the cut is not reached.
  fuelled-cut_off :
      (out : S → Decode A) (m k n : ℕ)
      → n ≤ m
      → n ≤ k
      → (s : S) → Agree n (fuelled body m s) (cut_off body out k s)
  unfolding fuelled cut_off
  fuelled-cut_off out m k zero p q s = record { agree = λ input h. absurd (omega arith) }
  fuelled-cut_off out zero k (suc n) p q s = absurd (omega arith)
  fuelled-cut_off out (suc m) zero (suc n) p q s = absurd (omega arith)
  fuelled-cut_off out (suc m) (suc k) (suc n) p q s =
      r.needs_less n (fuelled body m) (cut_off body out k) (fuelled-Keeps m)
        (fuelled-cut_off out m k n (omega arith) (omega arith)) s

  pub recursive-cut_off :
      (out : S → Decode A) (k : ℕ) (s : S) (input : List ℕ)
      → length input < k
      → cut_off body out k s input ≡ recursive body s input
  unfolding recursive
  recursive-cut_off out k s input h = sym (
      (fuelled-cut_off out (suc (length input)) k (suc (length input)) (omega arith) (omega arith)
          s).agree
        input (omega arith))

  -- With more fuel than there are bytes, the amount of fuel makes no difference.
  pub enough_fuel :
      (m k n : ℕ) → n ≤ m → n ≤ k → (s : S) → Agree n (fuelled body m s) (fuelled body k s)
  unfolding fuelled cut_off
  enough_fuel m k zero p q s = record { agree = λ input h. absurd (omega arith) }
  enough_fuel zero k (suc n) p q s = absurd (omega arith)
  enough_fuel (suc m) zero (suc n) p q s = absurd (omega arith)
  enough_fuel (suc m) (suc k) (suc n) p q s =
      r.needs_less n (fuelled body m) (fuelled body k) (fuelled-Keeps m)
        (enough_fuel m k n (omega arith) (omega arith)) s

  -- The decoder is its step applied to itself: it ends on every input.
  pub recursive_step :
      (s : S) (input : List ℕ) → recursive body s input ≡ body (recursive body) s input
  unfolding recursive fuelled cut_off
  recursive_step s input =
      (r.needs_less (length input) (fuelled body (length input)) (recursive body)
          (fuelled-Keeps (length input)) (λ t. again t) s).agree
        input (omega arith)
    where
      again : (t : S) → Agree (length input) (fuelled body (length input) t) (recursive body t)
      again t = record {
        agree = λ bytes h.
            (enough_fuel (length input) (suc (length bytes)) (suc (length bytes)) (omega arith)
                (omega arith) t).agree
              bytes (omega arith);
      }

  pub recursive-Keeps : (s : S) → Keeps (recursive body s)
  unfolding recursive
  recursive-Keeps s = record {
    keep = λ input rest a h. (fuelled-Keeps (suc (length input)) s).keep input rest a h;
  }

pub ruleset keep_rules = (Keeps-pure, Keeps-fail, Keeps-crash, Keeps-bind, Keeps-if)
