-- ===== src/SuperStream/Routing.antt =====
-- Routing asks the broker once, and sends messages with one key to one partition.
use native.Mathlib.Nat.{mod-lt}
use rabbitmq_stream_rust_cli.Prelude.{
  ℕ, zero, suc, ◌%◌, ◌<◌, ◌≡◌, refl, sym, ◌∙◌, ap, false, ◌⊎◌, inl, inr, Bool-cases, Option-cases,
  Option, none, some, List, [], ◌∷◌, length, get_elem?, ◌==◌, arith,
}
use rabbitmq_stream_rust_cli.Codec.Ints.{u32_mod}
use rabbitmq_stream_rust_cli.Codec.Strings.{Str}
use rabbitmq_stream_rust_cli.Codec.Maps.{str_eq, lookup, insert}
use rabbitmq_stream_rust_cli.Codec.Maps.Laws.{str_eq_sound, lookup-insert, lookup-insert_other}
use rabbitmq_stream_rust_cli.SuperStream.{
  Query, Metadata, Run, Broker, Hash, hash_routing, answered, asking, known_partitions,
  known_routes, store_partitions, store_routes, partitions_of, routes_of, pick, picked, alone,
  routes,
}

-- A list has an element at each place before its end.
get_elem?-some :
    {A : Type 0} (xs : List A) (i : ℕ) → i < length xs → (x : A) × (get_elem? xs i ≡ some x)
get_elem?-some [] i h = absurd (omega arith)
get_elem?-some (x ∷ xs) zero h = (x, refl)
get_elem?-some (x ∷ xs) (suc i) h = get_elem?-some xs i (omega arith)

pick-some :
    (hash : ℕ) (streams : List Str)
    → 0 < length streams
    → length streams < u32_mod
    → (stream : Str) × (get_elem? streams (hash % length streams) ≡ some stream)
      × (pick hash streams ≡ some stream)
unfolding pick
pick-some hash streams some_left few =
    let n : length streams % u32_mod ≡ length streams = omega arith in
    let (stream, found) = get_elem?-some streams (hash % length streams) (mod-lt hash some_left) in
    let more : (length streams == 0) ≡ false = ground arith in (stream, found, rw n (rw more found))

-- A message that is routed by a hash, when between 1 and 2^32 - 1 partitions are known, goes to the one
-- partition at the hash of its key modulo their number, and the broker is not asked.
pub hash-routes :
    {Message : Type 0} (broker : Broker) (hash : Hash) (extractor : Message → Str)
    (message : Message) (m : Metadata)
    → 0 < length m.partitions
    → length m.partitions < u32_mod
    → (stream : Str) × (get_elem? m.partitions (hash (extractor message) % length m.partitions)
        ≡ some stream)
      × (routes broker hash (hash_routing extractor) message m ≡ some (stream ∷ [], m))
unfolding routes
hash-routes broker hash extractor message m some_left few =
    let (stream, found, chosen) = pick-some (hash (extractor message)) m.partitions some_left few in
    (
      stream,
      found,
      ap (picked (hash (extractor message))) (partitions_known broker m some_left)
          ∙ ap (λ o. alone o m) chosen,
    )
  where
    partitions_known :
        (broker : Broker) (m : Metadata)
        → 0 < length m.partitions
        → partitions_of broker m ≡ some (m.partitions, m)
    partitions_known broker m h = go m.partitions refl
      where
        go : (ps : List Str) → m.partitions ≡ ps → partitions_of broker m ≡ some (m.partitions, m)
        go [] e = absurd (omega (arith, h, ap length e))
        go (p ∷ ps) e = unfold partitions_of in rw e refl

routes_known :
    (broker : Broker) (key : Str) (m : Metadata) (known : List Str)
    → lookup key m.routes ≡ some known
    → routes_of broker key m ≡ some (known, m)
unfolding routes_of
routes_known broker key m known h =
    ap
      (λ o.
        known_routes o
          (answered (broker m.asked (Query.route key m.super_stream)) (store_routes key m)) m)
      h

routes_asked :
    (broker : Broker) (key : Str) (m : Metadata) (answer : Option (List Str))
    → lookup key m.routes ≡ none
    → broker m.asked (Query.route key m.super_stream) ≡ answer
    → routes_of broker key m ≡ answered answer (store_routes key m)
unfolding routes_of
routes_asked broker key m answer missing h =
    ap
      (λ o.
        known_routes o
          (answered (broker m.asked (Query.route key m.super_stream)) (store_routes key m)) m)
      missing
    ∙ ap (λ o. answered o (store_routes key m)) h

-- A lookup of the partitions, or of the streams for a routing key.
pub data Lookup : Type 0 where
  partitions : Lookup
  keyed : Str → Lookup

abbrev pub looked_up : Broker → Lookup → Metadata → Run (List Str)
looked_up broker Lookup.partitions m = partitions_of broker m
looked_up broker (Lookup.keyed k) m = routes_of broker k m

-- The metadata after lookups one after the other, each with what the broker would answer then, as long
-- as none of them panics.
pub data After (m : Metadata) : Metadata → Type 0 where
  unchanged : After m m
  lookup_of :
      (broker : Broker) (l : Lookup) (now next : Metadata) (streams : List Str)
      → After m now
      → looked_up broker l now ≡ some (streams, next)
      → After m next

-- The metadata knows the streams for the key.
abbrev Knows : Str → List Str → Metadata → Type 0
Knows k streams m = lookup k m.routes ≡ some streams

Knows-routes_of :
    (broker : Broker) (k : Str) (m m' : Metadata) (streams : List Str)
    → routes_of broker k m ≡ some (streams, m')
    → Knows k streams m' × ((j : Str) (known : List Str) → Knows j known m → Knows j known m')
Knows-routes_of broker k m m' streams h = elim (Option-cases (lookup k m.routes)) [
  | inl missing ↦ first missing (broker m.asked (Query.route k m.super_stream)) refl
  | inr (known, there) ↦
      let before = routes_known broker k m known there in
      let same_streams : known ≡ streams = cc in
      let same_state : m ≡ m' = cc in rw (← same_state, ← same_streams) (there, λ j others h. h)
]
  where
    stays :
        (found : List Str)
        → lookup k m.routes ≡ none
        → (j : Str) (known : List Str) → Knows j known m
        → lookup j (insert k found m.routes) ≡ some known
    stays found missing j known h = elim (Bool-cases (str_eq k j)) [
      | inl same ↦ let equal = str_eq_sound k j same in absurd (cc)
      | inr other ↦ lookup-insert_other k j found m.routes other ∙ h
    ]

    first :
        lookup k m.routes ≡ none
        → (answer : Option (List Str)) → broker m.asked (Query.route k m.super_stream) ≡ answer
        → Knows k streams m' × ((j : Str) (known : List Str) → Knows j known m → Knows j known m')
    first missing none e = absurd (cc (routes_asked broker k m none missing e))
    first missing (some found) e =
        let before = routes_asked broker k m (some found) missing e in
        let after : Metadata = record (asking m) { routes = insert k found m.routes } in
        let same_streams : found ≡ streams = cc in
        let same_state : after ≡ m' = cc in
        rw (← same_state, ← same_streams) (lookup-insert k found m.routes, stays found missing)

Knows-partitions_of :
    (broker : Broker) (m m' : Metadata) (streams : List Str)
    → partitions_of broker m ≡ some (streams, m')
    → m'.routes ≡ m.routes
unfolding partitions_of
Knows-partitions_of broker m m' streams h = go m.partitions h
  where
    asked :
        (o : Option (List Str))
        → answered o (store_partitions m) ≡ some (streams, m')
        → m'.routes ≡ m.routes
    asked none e = absurd (cc)
    asked (some found) e =
        let same : record (asking m) { partitions = found } ≡ m' = cc in
        sym (ap (λ x. x.routes) same)

    go :
        (ps : List Str)
        → known_partitions ps
            (answered (broker m.asked (Query.partitions m.super_stream)) (store_partitions m))
            m
          ≡ some (streams, m')
        → m'.routes ≡ m.routes
    go [] e = asked (broker m.asked (Query.partitions m.super_stream)) e
    go (p ∷ ps) e = let same : m ≡ m' = cc in sym (ap (λ x. x.routes) same)

Knows-After :
    (j : Str) (known : List Str) (m m' : Metadata) → After m m' → Knows j known m → Knows j known m'
Knows-After j known m _ unchanged h = h
Knows-After j known m _ (lookup_of broker Lookup.partitions now next streams before e) h =
    ap (lookup j) (Knows-partitions_of broker now next streams e)
    ∙ Knows-After j known m now before h
Knows-After j known m _ (lookup_of broker (Lookup.keyed k) now next streams before e) h =
    (Knows-routes_of broker k now next streams e).1 j known (Knows-After j known m now before h)

-- What a lookup of a routing key has once given is what it gives after any further lookups, of this
-- key, of other keys and of the partitions, that do not panic, whatever the broker would say; it
-- then changes nothing and asks nothing.
pub routes_of-again :
    (broker other : Broker) (key : Str) (m m' later : Metadata) (streams : List Str)
    → routes_of broker key m ≡ some (streams, m')
    → After m' later
    → routes_of other key later ≡ some (streams, later)
routes_of-again broker other key m m' later streams h after =
    routes_known other key later streams
      (Knows-After key streams m' later after (Knows-routes_of broker key m m' streams h).0)

-- When no partitions are known and the broker names none, or answers with an error, routing by a hash
-- panics.
pub hash-routes_panics :
    {Message : Type 0} (broker : Broker) (hash : Hash) (extractor : Message → Str)
    (message : Message) (m : Metadata)
    → m.partitions ≡ []
    → (broker m.asked (Query.partitions m.super_stream) ≡ some [])
      ⊎ (broker m.asked (Query.partitions m.super_stream) ≡ none)
    → routes broker hash (hash_routing extractor) message m ≡ none
unfolding routes partitions_of pick
hash-routes_panics broker hash extractor message m empty (inl nothing) =
    ap
      (λ ps. picked (hash (extractor message)) (
        known_partitions ps
          (answered (broker m.asked (Query.partitions m.super_stream)) (store_partitions m)) m))
      empty
    ∙ ap (λ o. picked (hash (extractor message)) (answered o (store_partitions m))) nothing
hash-routes_panics broker hash extractor message m empty (inr failed) =
    ap
      (λ ps. picked (hash (extractor message)) (
        known_partitions ps
          (answered (broker m.asked (Query.partitions m.super_stream)) (store_partitions m)) m))
      empty
    ∙ ap (λ o. picked (hash (extractor message)) (answered o (store_partitions m))) failed
