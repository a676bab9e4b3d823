-- ===== src/Amqp/Collections/Keeps.antt =====
-- Lists and maps leave no more than they were given, and they do the same for decoders of their
-- elements that do the same.
use rabbitmq_stream_rust_cli.Prelude.{ℕ, zero, suc, inl, inr, Bool-cases, [], ◌∷◌, ◌==◌, length}
use rabbitmq_stream_rust_cli.Codec.Outcome.{Decode}
use rabbitmq_stream_rust_cli.Codec.ByteOrder.{ByteOrder}
use rabbitmq_stream_rust_cli.Codec.Ints.Laws.{read_u8-IsLocal, read_u32-IsLocal}
use rabbitmq_stream_rust_cli.Codec.Vectors.{repeat}
use rabbitmq_stream_rust_cli.Codec.Recursion.{
  fuelled, recursive, Keeps, Shrinks, Agree, Recurses, Keeps-pure, Keeps-crash, Keeps-bind,
  Keeps-if, Shrinks-Keeps, IsLocal-Keeps, Agree-refl, Agree-bind, Agree-shrunk, Shrinks-bind,
  keep_rules,
}
use rabbitmq_stream_rust_cli.Amqp.TypeCode.{TypeCode}
use rabbitmq_stream_rust_cli.Amqp.TypeCode.Keeps.{code-Shrinks, code_keep_rules}
use rabbitmq_stream_rust_cli.Amqp.Errors.{Target, Externals}
use rabbitmq_stream_rust_cli.Amqp.Collections.{
  Key, Entries, Filling, insert_entry, fill_step, fill, read_count8, read_count32, counted8,
  counted32, list_of, decode_list, fields_from, fields_of, decode_with_fields, map_of, decode_map,
}

module _ {A : Type 0} where
  repeat-Keeps : (d : Decode A) → Keeps d → (n : ℕ) → Keeps (repeat n d)
  unfolding repeat
  repeat-Keeps d h zero = Keeps-pure []
  repeat-Keeps d h (suc n) =
      Keeps-bind d _ h λ x. Keeps-bind _ _ (repeat-Keeps d h n) λ xs. Keeps-pure (x ∷ xs)

  repeat-Agree :
      (n : ℕ) (d e : Decode A) → Keeps d → Agree n d e → (k : ℕ) → Agree n (repeat k d) (repeat k e)
  unfolding repeat
  repeat-Agree n d e h p zero = Agree-refl n _
  repeat-Agree n d e h p (suc k) =
      Agree-bind n d e _ _ p h λ x.
        Agree-bind n _ _ _ _ (repeat-Agree n d e h p k) (repeat-Keeps d h k) λ xs. Agree-refl n _

module _ {K V : Type 0} (key : Key K) where
  insert_entry-Keeps : (k : K) (v : V) (m : Entries K V) → Keeps (insert_entry key k v m)
  unfolding insert_entry
  insert_entry-Keeps k v m = Keeps-if (key.hashable k) _ _ (Keeps-pure _) Keeps-crash

  fill_step-Keeps :
      (dk : Decode K) (dv : Decode V) (f : Filling K V → Decode (Entries K V))
      → Keeps dk
      → Keeps dv
      → ((s : Filling K V) → Keeps (f s))
      → (s : Filling K V) → Keeps (fill_step key dk dv f s)
  unfolding fill_step
  fill_step-Keeps dk dv f p q r (count, m) = Keeps-if (count == 0) _ _ (Keeps-pure m) (
      Keeps-bind dk _ p
        λ k. Keeps-bind dv _ q λ v. Keeps-bind _ _ (insert_entry-Keeps k v m) λ m'. r _)

  -- The loop over the entries of a map ends: each key takes a byte.
  pub fill_step-Recurses :
      (dk : Decode K) (dv : Decode V) → Shrinks dk → Keeps dv → Recurses (fill_step key dk dv)
  unfolding fill_step
  fill_step-Recurses dk dv p q = record {
    keeps = λ f h s. fill_step-Keeps dk dv f (Shrinks-Keeps dk p) q h s;
    needs_less = λ n f g h agree s. go n f g agree s;
  }
    where
      go :
          (n : ℕ) (f g : Filling K V → Decode (Entries K V))
          → ((s : Filling K V) → Agree n (f s) (g s))
          → (s : Filling K V) → Agree (suc n) (fill_step key dk dv f s) (fill_step key dk dv g s)
      go n f g agree (count, m) =
          unfold fill_step in
          elim (Bool-cases (count == 0)) [
            | inl none_left ↦ rw none_left (Agree-refl _ _)
            | inr more ↦ rw more (
                Agree-shrunk n dk _ _ p λ k. Agree-bind n dv dv _ _ (Agree-refl n dv) q λ v.
                  Agree-bind n _ _ _ _ (Agree-refl n _) (insert_entry-Keeps k v m) λ m'. agree _)
          ]

  module _ (n : ℕ) (dk ek : Decode K) (dv ev : Decode V) (hk : Keeps dk) (hv : Keeps dv)
      (pk : Agree n dk ek) (pv : Agree n dv ev) where
    fuelled_fill-Keeps : (m : ℕ) (s : Filling K V) → Keeps (fuelled (fill_step key dk dv) m s)
    unfolding fuelled
    fuelled_fill-Keeps zero s = Keeps-crash
    fuelled_fill-Keeps (suc m) s = fill_step-Keeps dk dv _ hk hv (fuelled_fill-Keeps m) s

    fuelled_fill-Agree :
        (m : ℕ) (s : Filling K V)
        → Agree n (fuelled (fill_step key dk dv) m s) (fuelled (fill_step key ek ev) m s)
    unfolding fuelled fill_step
    fuelled_fill-Agree zero s = Agree-refl n _
    fuelled_fill-Agree (suc m) (count, es) = elim (Bool-cases (count == 0)) [
      | inl none_left ↦ rw none_left (Agree-refl n _)
      | inr more ↦ rw more (
          Agree-bind n dk ek _ _ pk hk λ k. Agree-bind n dv ev _ _ pv hv λ v.
            Agree-bind n _ _ _ _ (Agree-refl n _) (insert_entry-Keeps k v es)
              λ es'. fuelled_fill-Agree m _)
    ]

    fill-Keeps : (s : Filling K V) → Keeps (fill key dk dv s)
    unfolding fill recursive
    fill-Keeps s = record {
      keep = λ input rest a h. (fuelled_fill-Keeps (suc (length input)) s).keep input rest a h;
    }

    fill-Agree : (s : Filling K V) → Agree n (fill key dk dv s) (fill key ek ev s)
    unfolding fill recursive
    fill-Agree s = record {
      agree = λ input h. (fuelled_fill-Agree (suc (length input)) s).agree input h;
    }

module _ ⦃b : ByteOrder⦄ where
  read_count8-Keeps : Keeps read_count8
  unfolding read_count8
  read_count8-Keeps = search (keep_rules, IsLocal-Keeps, read_u8-IsLocal)

  read_count32-Keeps : Keeps read_count32
  unfolding read_count32
  read_count32-Keeps = search (keep_rules, IsLocal-Keeps, read_u32-IsLocal)

  counted8-Keeps : {A : Type 0} (k : ℕ → Decode A) → ((n : ℕ) → Keeps (k n)) → Keeps (counted8 k)
  unfolding counted8
  counted8-Keeps k h = Keeps-bind _ _ read_count8-Keeps h

  counted32-Keeps : {A : Type 0} (k : ℕ → Decode A) → ((n : ℕ) → Keeps (k n)) → Keeps (counted32 k)
  unfolding counted32
  counted32-Keeps k h = Keeps-bind _ _ read_count32-Keeps h

  counted8-Agree :
      {A : Type 0} (n : ℕ) (k l : ℕ → Decode A)
      → ((m : ℕ) → Agree n (k m) (l m))
      → Agree n (counted8 k) (counted8 l)
  unfolding counted8
  counted8-Agree n k l h = Agree-bind n _ _ _ _ (Agree-refl n _) read_count8-Keeps h

  counted32-Agree :
      {A : Type 0} (n : ℕ) (k l : ℕ → Decode A)
      → ((m : ℕ) → Agree n (k m) (l m))
      → Agree n (counted32 k) (counted32 l)
  unfolding counted32
  counted32-Agree n k l h = Agree-bind n _ _ _ _ (Agree-refl n _) read_count32-Keeps h

module _ ⦃b : ByteOrder⦄ ⦃x : Externals⦄ where
  module _ {A : Type 0} where
    pub decode_list-Shrinks : (d : Decode A) → Keeps d → Shrinks (decode_list d)
    unfolding decode_list
    decode_list-Shrinks d h = Shrinks-bind _ (list_of d) code-Shrinks λ c.
        elim c as (λ c. Keeps (list_of d c)) [
          | TypeCode.list0 ↦ Keeps-pure []
          | TypeCode.list8 ↦ counted8-Keeps _ (repeat-Keeps d h)
          | TypeCode.list32 ↦ counted32-Keeps _ (repeat-Keeps d h)
          | _ ↦ search code_keep_rules
        ]

    pub decode_list-Agree :
        (n : ℕ) (d e : Decode A)
        → Keeps d
        → Agree n d e
        → Agree (suc n) (decode_list d) (decode_list e)
    unfolding decode_list
    decode_list-Agree n d e h p = Agree-shrunk n _ (list_of d) (list_of e) code-Shrinks λ c.
        elim c as (λ c. Agree n (list_of d c) (list_of e c)) [
          | TypeCode.list8 ↦ counted8-Agree n _ _ (repeat-Agree n d e h p)
          | TypeCode.list32 ↦ counted32-Agree n _ _ (repeat-Agree n d e h p)
          | _ ↦ Agree-refl n _
        ]

  module _ {T : Type 0} (f : ℕ → T → Decode T) (h : (idx : ℕ) (dest : T) → Keeps (f idx dest)) where
    fields_from-Keeps : (idx n : ℕ) (dest : T) → Keeps (fields_from f idx n dest)
    unfolding fields_from
    fields_from-Keeps idx zero dest = Keeps-pure dest
    fields_from-Keeps idx (suc n) dest = Keeps-bind _ _ (h idx dest) (fields_from-Keeps (suc idx) n)

    pub decode_with_fields-Keeps : (dest : T) → Keeps (decode_with_fields f dest)
    unfolding decode_with_fields
    decode_with_fields-Keeps dest = Shrinks-Keeps _ (
        Shrinks-bind _ (fields_of f dest) code-Shrinks λ c.
          elim c as (λ c. Keeps (fields_of f dest c)) [
            | TypeCode.list0 ↦ Keeps-pure dest
            | TypeCode.list8 ↦ counted8-Keeps _ (λ n. fields_from-Keeps 0 n dest)
            | TypeCode.list32 ↦ counted32-Keeps _ (λ n. fields_from-Keeps 0 n dest)
            | _ ↦ search code_keep_rules
          ])

  module _ {K V : Type 0} (target : Target) (key : Key K) where
    pub decode_map-Shrinks :
        (dk : Decode K) (dv : Decode V)
        → Keeps dk
        → Keeps dv
        → Shrinks (decode_map target key dk dv)
    unfolding decode_map
    decode_map-Shrinks dk dv hk hv =
        let loop : (n : ℕ) → Keeps (fill key dk dv (n, [])) =
          λ n. fill-Keeps key 0 dk dk dv dv hk hv (Agree-refl 0 dk) (Agree-refl 0 dv) (n, []) in
        Shrinks-bind _ (map_of target key dk dv) code-Shrinks λ c.
          elim c as (λ c. Keeps (map_of target key dk dv c)) [
            | TypeCode.map8 ↦ counted8-Keeps _ loop
            | TypeCode.map32 ↦ counted32-Keeps _ loop
            | _ ↦ search code_keep_rules
          ]

    pub decode_map-Agree :
        (n : ℕ) (dk ek : Decode K) (dv ev : Decode V)
        → Keeps dk
        → Keeps dv
        → Agree n dk ek
        → Agree n dv ev
        → Agree (suc n) (decode_map target key dk dv) (decode_map target key ek ev)
    unfolding decode_map
    decode_map-Agree n dk ek dv ev hk hv pk pv =
        let loop : (m : ℕ) → Agree n (fill key dk dv (m, [])) (fill key ek ev (m, [])) =
          λ m. fill-Agree key n dk ek dv ev hk hv pk pv (m, []) in
        Agree-shrunk n _ (map_of target key dk dv) (map_of target key ek ev) code-Shrinks λ c.
          elim c as (λ c. Agree n (map_of target key dk dv c) (map_of target key ek ev c)) [
            | TypeCode.map8 ↦ counted8-Agree n _ _ loop
            | TypeCode.map32 ↦ counted32-Agree n _ _ loop
            | _ ↦ Agree-refl n _
          ]
