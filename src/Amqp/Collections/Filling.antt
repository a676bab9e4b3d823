-- ===== src/Amqp/Collections/Filling.antt =====
-- The loop of `Map::decode` fills a map with the entries that were written.
use rabbitmq_stream_rust_cli.Prelude.{
  ℕ, zero, ◌+◌, ◌-◌, ◌*◌, ◌%◌, ◌<◌, ◌≤◌, ◌≡◌, refl, ◌∙◌, ap, Bool, true, false, List, [], ◌∷◌, ◌++◌,
  append_assoc, append-nil, length, length-append, ◌==◌, All, arith,
}
use rabbitmq_stream_rust_cli.Codec.Outcome.{Decode, pure, ◌>>=◌}
use rabbitmq_stream_rust_cli.Codec.Emit.{Emit, bytes, emit_each, ⊕_assoc}
use rabbitmq_stream_rust_cli.Codec.Laws.{
  Codes, Codes-bind, Codes-nothing, Codes-resize, Codes-pure_bind,
}
use rabbitmq_stream_rust_cli.Codec.Ints.{u32_mod}
use rabbitmq_stream_rust_cli.Codec.Vectors.Laws.{total}
use rabbitmq_stream_rust_cli.Codec.Recursion.{Keeps, Shrinks, recursive_step}
use rabbitmq_stream_rust_cli.Amqp.Collections.{
  Key, Entries, insert_with, insert_entry, fill_step, fill, pair_emit,
}
use rabbitmq_stream_rust_cli.Amqp.Collections.Keeps.{fill_step-Recurses}

-- Decoders that do the same read the same back.
pub Codes-same :
    {A : Type 0} (d : Decode A) {c : Decode A} {e : Emit} {n : ℕ} {a : A}
    → ((input : List ℕ) → d input ≡ c input)
    → Codes c e n a
    → Codes d e n a
Codes-same d {e = e} same h = record {
  written = h.written;
  sized = h.sized;
  reads = λ rest. same (bytes e ++ rest) ∙ h.reads rest;
}

-- What a decoder that takes a byte reads back was written in at least one.
pub Codes-positive :
    {A : Type 0} {d : Decode A} {e : Emit} {n : ℕ} {a : A} → Shrinks d → Codes d e n a → 0 < n
Codes-positive {e = e} s h =
    let less : zero < length (bytes e ++ []) = s.shrink (bytes e ++ []) [] _ (h.reads []) in
    omega (arith, less, length-append (bytes e) [], h.sized)

-- What is known of the elements of a list, and of the entries of a map.
module _ {A : Type 0} (d : Decode A) (f : A → Emit) (size : A → ℕ) where
  abbrev pub Elements : List A → Type 0
  Elements xs = All (λ x. Codes d (f x) (size x) x) xs

  pub length-le-total : (xs : List A) → Shrinks d → Elements xs → length xs ≤ total size xs
  length-le-total [] s h = omega arith
  length-le-total (x ∷ xs) s h = omega (arith, length-le-total xs s h.1, Codes-positive s h.0)

module _ {K V : Type 0} where
  abbrev pub pair_len : (K → ℕ) → (V → ℕ) → K × V → ℕ
  pair_len ks vs (k, v) = ks k + vs v

  abbrev pub FreshKey : (K → K → Bool) → K → Entries K V → Type 0
  FreshKey eq k m = All (λ e. eq e.0 k ≡ false) m

  -- No two entries have one key.
  abbrev pub DistinctKeys : (K → K → Bool) → Entries K V → Type 0
  DistinctKeys eq [] = Unit
  DistinctKeys eq ((k, v) ∷ m) = All (λ e. eq k e.0 ≡ false) m × DistinctKeys eq m

  abbrev pub ApartKeys : (K → K → Bool) → Entries K V → Entries K V → Type 0
  ApartKeys eq m es = All (λ e. FreshKey eq e.0 m) es

  insert_with-FreshKey :
      (eq : K → K → Bool) (k : K) (v : V) (m : Entries K V)
      → FreshKey eq k m
      → insert_with eq k v m ≡ m ++ ((k, v) ∷ [])
  unfolding insert_with
  insert_with-FreshKey eq k v [] h = refl
  insert_with-FreshKey eq k v ((j, w) ∷ m) h = rw h.0 (rw (insert_with-FreshKey eq k v m h.1))

  FreshKey-append :
      (eq : K → K → Bool) (j k : K) (v : V) (m : Entries K V)
      → FreshKey eq j m
      → eq k j ≡ false
      → FreshKey eq j (m ++ ((k, v) ∷ []))
  FreshKey-append eq j k v [] h e = (e, tt)
  FreshKey-append eq j k v (x ∷ m) h e = (h.0, FreshKey-append eq j k v m h.1 e)

  ApartKeys-append :
      (eq : K → K → Bool) (k : K) (v : V) (m es : Entries K V)
      → ApartKeys eq m es
      → All (λ e. eq k e.0 ≡ false) es
      → ApartKeys eq (m ++ ((k, v) ∷ [])) es
  ApartKeys-append eq k v m [] h d = tt
  ApartKeys-append eq k v m ((j, w) ∷ es) h d =
      (FreshKey-append eq j k v m h.0 d.0, ApartKeys-append eq k v m es h.1 d.1)

  pub ApartKeys-nil : (eq : K → K → Bool) (es : Entries K V) → ApartKeys eq [] es
  ApartKeys-nil eq [] = tt
  ApartKeys-nil eq (e ∷ es) = (tt, ApartKeys-nil eq es)

module _ {K V : Type 0} (key : Key K) (dk : Decode K) (dv : Decode V) (ke : K → Emit)
    (ve : V → Emit) (ks : K → ℕ) (vs : V → ℕ) where
  -- Each entry has a key that can be hashed, and reads back.
  abbrev pub Entry : K × V → Type 0
  Entry (k, v) = (key.hashable k ≡ true) × Codes dk (ke k) (ks k) k × Codes dv (ve v) (vs v) v

  insert_entry-pure :
      (k : K) (v : V) (m : Entries K V)
      → key.hashable k ≡ true
      → FreshKey key.eq k m
      → insert_entry key k v m ≡ pure (m ++ ((k, v) ∷ []))
  unfolding insert_entry
  insert_entry-pure k v m h fresh = rw h (ap pure (insert_with-FreshKey key.eq k v m fresh))

  pub entries-le-total :
      (es : Entries K V)
      → Shrinks dk
      → Shrinks dv
      → All Entry es
      → length es * 2 ≤ total (pair_len ks vs) es
  entries-le-total [] sk sv h = omega arith
  entries-le-total ((k, v) ∷ es) sk sv h =
      omega (arith, entries-le-total es sk sv h.1, Codes-positive sk h.0.1, Codes-positive sv h.0.2)

  module _ (sk : Shrinks dk) (hv : Keeps dv) where
    fill_step_eq :
        (s : ℕ × Entries K V) (input : List ℕ)
        → fill key dk dv s input ≡ fill_step key dk dv (fill key dk dv) s input
    unfolding fill
    fill_step_eq s input =
        recursive_step (fill_step key dk dv) (fill_step-Recurses key dk dv sk hv) s input

    pub fill-Codes :
        (es m : Entries K V)
        → length es * 2 < u32_mod
        → All Entry es
        → DistinctKeys key.eq es
        → ApartKeys key.eq m es
        → Codes
            (fill key dk dv (length es * 2, m))
            (emit_each (pair_emit ke ve) es)
            (total (pair_len ks vs) es)
            (m ++ es)
    unfolding emit_each fill_step
    fill-Codes [] m few h distinct apart =
        Codes-same _ (fill_step_eq (0, m)) (rw append-nil (Codes-nothing m))
    fill-Codes ((k, v) ∷ es) m few h distinct apart =
        let m' : Entries K V = m ++ ((k, v) ∷ []) in
        let rest : Codes (fill key dk dv (length es * 2, m')) (emit_each (pair_emit ke ve) es)
            (total (pair_len ks vs) es) (m' ++ es) =
          fill-Codes es m' (omega arith) h.1 distinct.1
            (ApartKeys-append key.eq k v m es apart.1 distinct.0) in
        let more : (length ((k, v) ∷ es) * 2 == 0) ≡ false = ground arith in
        let next : (length ((k, v) ∷ es) * 2 + (u32_mod - 2)) % u32_mod ≡ length es * 2 =
          omega arith in
        let added = insert_entry-pure k v m h.0.0 apart.0 in
        let loop : Entries K V → Decode (Entries K V) =
          λ es'. fill key dk dv ((length ((k, v) ∷ es) * 2 + (u32_mod - 2)) % u32_mod, es') in
        let step : Codes (insert_entry key k v m >>= loop) (emit_each (pair_emit ke ve) es)
            (total (pair_len ks vs) es) (m' ++ es) =
          rw added (Codes-pure_bind m' loop (rw next rest)) in
        Codes-same _ (fill_step_eq (length ((k, v) ∷ es) * 2, m)) (
          rw (more, ⊕_assoc, ← append_assoc m ((k, v) ∷ []) es)
            (Codes-resize (Codes-bind _ h.0.1 (Codes-bind _ h.0.2 step)) (omega arith)))
