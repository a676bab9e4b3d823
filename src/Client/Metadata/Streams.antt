-- ===== src/Client/Metadata/Streams.antt =====
-- Which streams of a metadata response a client finds.
use rabbitmq_stream_rust_cli.Prelude.{
  ℕ, Option, if◌then◌else◌, ◌≡◌, refl, sym, ap, ◌∙◌, false, Bool-cases, Option-cases, inl, inr,
  none, some, List, [], ◌∷◌, ◌++◌, ◌==◌, All,
}
use rabbitmq_stream_rust_cli.Codec.Strings.{Str}
use rabbitmq_stream_rust_cli.Codec.Maps.{HashMap, str_eq, lookup}
use rabbitmq_stream_rust_cli.Codec.Maps.Laws.{lookup-insert, lookup-insert_other}
use rabbitmq_stream_rust_cli.Commands.MetadataResponse
use rabbitmq_stream_rust_cli.Commands.MetadataResponse.{MetadataResponse}
use rabbitmq_stream_rust_cli.Client.Metadata.{
  StreamMetadata, Broker, Brokers, keep, with_leader, get, replicas_of, collect, resolve, inserted,
  collect_streams, from_response,
}

-- No stream has the name.
abbrev pub Unnamed : Str → List MetadataResponse.StreamMetadata → Type 0
Unnamed name ss = All (λ s. str_eq s.stream_name name ≡ false) ss

resolve-name :
    (brokers : Brokers) (s : MetadataResponse.StreamMetadata) (x : StreamMetadata)
    → resolve brokers s ≡ some x
    → x.stream ≡ s.stream_name
unfolding resolve
resolve-name brokers s x h = elim (Option-cases (get s.leader_reference brokers)) [
  | inl unknown ↦ absurd (cc (ap (with_leader brokers s) unknown))
  | inr (leader, known) ↦
      let same = ap (with_leader brokers s) known in
      let built : StreamMetadata = record {
        stream = s.stream_name;
        response_code = s.code;
        leader = leader;
        replicas = replicas_of brokers s.replicas_references;
      } in
      let whole : built ≡ x = cc in ap (λ y. y.stream) (sym whole)
]

inserted_other :
    (brokers : Brokers) (s : MetadataResponse.StreamMetadata) (name : Str)
    (m : HashMap StreamMetadata)
    → str_eq s.stream_name name ≡ false
    → lookup name (inserted (resolve brokers s) m) ≡ lookup name m
inserted_other brokers s name m h = elim (Option-cases (resolve brokers s)) [
  | inl unknown ↦ rw unknown refl
  | inr (x, known) ↦
      let apart : str_eq x.stream name ≡ false =
        ap (λ n. str_eq n name) (resolve-name brokers s x known) ∙ h in
      rw known (lookup-insert_other x.stream name x m apart)
]

Unnamed-stays :
    (brokers : Brokers) (name : Str) (ss : List MetadataResponse.StreamMetadata)
    (m : HashMap StreamMetadata)
    → Unnamed name ss
    → lookup name (collect_streams brokers ss m) ≡ lookup name m
unfolding collect_streams
Unnamed-stays brokers name [] m h = refl
Unnamed-stays brokers name (s ∷ ss) m h =
    Unnamed-stays brokers name ss (inserted (resolve brokers s) m) h.1
    ∙ inserted_other brokers s name m h.0

named_alone :
    (brokers : Brokers) (before after : List MetadataResponse.StreamMetadata)
    (s : MetadataResponse.StreamMetadata) (m : HashMap StreamMetadata)
    → Unnamed s.stream_name before
    → Unnamed s.stream_name after
    → lookup s.stream_name m ≡ none
    → lookup s.stream_name (collect_streams brokers (before ++ s ∷ after) m) ≡ resolve brokers s
unfolding collect_streams
named_alone brokers [] after s m first last missing =
    Unnamed-stays brokers s.stream_name after (inserted (resolve brokers s) m) last
    ∙ elim (Option-cases (resolve brokers s)) [
      | inl unknown ↦ rw unknown missing
      | inr (x, known) ↦
          let same : x.stream ≡ s.stream_name = resolve-name brokers s x known in
          rw (known, ← same) (lookup-insert x.stream x m)
    ]
named_alone brokers (y ∷ before) after s m first last missing =
    named_alone brokers before after s (inserted (resolve brokers y) m) first.1 last
      (inserted_other brokers y s.stream_name m first.0 ∙ missing)

-- The last broker of the list with the reference.
abbrev pub broker_of : ℕ → List MetadataResponse.Broker → Option Broker
broker_of reference [] = none
broker_of reference (x ∷ xs) = elim (broker_of reference xs) [
  | some later ↦ some later
  | none ↦ if x.reference == reference then some (record { host = x.host; port = x.port }) else none
]

abbrev as_list : Option Broker → List Broker
as_list none = []
as_list (some x) = x ∷ []

-- The brokers of the references for which there is one, in the order of the references.
abbrev pub brokers_of : List ℕ → List MetadataResponse.Broker → List Broker
brokers_of [] xs = []
brokers_of (r ∷ rs) xs = as_list (broker_of r xs) ++ brokers_of rs xs

-- A stream with the broker of its leader, and with those brokers of its replicas.
abbrev led : MetadataResponse.StreamMetadata → List Broker → Option Broker → Option StreamMetadata
led s replicas none = none
led s replicas (some leader) = some (record {
  stream = s.stream_name;
  response_code = s.code;
  leader = leader;
  replicas = replicas;
})

-- What a client is to know of a stream: nothing without the broker of its leader.
abbrev pub described :
    List MetadataResponse.Broker → MetadataResponse.StreamMetadata → Option StreamMetadata
described xs s = led s (brokers_of s.replicas_references xs) (broker_of s.leader_reference xs)

abbrev or_else : Option Broker → Option Broker → Option Broker
or_else (some x) other = some x
or_else none other = other

get-collect :
    (reference : ℕ) (xs : List MetadataResponse.Broker) (known : Brokers)
    → get reference (collect xs known) ≡ or_else (broker_of reference xs) (get reference known)
unfolding get collect
get-collect reference [] known = refl
get-collect reference (x ∷ xs) known =
    get-collect reference xs ((x.reference, record { host = x.host; port = x.port }) ∷ known)
    ∙ elim (Option-cases (broker_of reference xs)) [
      | inr (later, there) ↦ rw there refl
      | inl missing ↦ elim (Bool-cases (x.reference == reference)) [
        | inl same ↦ rw (missing, same) refl
        | inr other ↦ rw (missing, other) refl
      ]
    ]

or_else-none : (o : Option Broker) → or_else o none ≡ o
or_else-none none = refl
or_else-none (some x) = refl

get-collected :
    (reference : ℕ) (xs : List MetadataResponse.Broker)
    → get reference (collect xs []) ≡ broker_of reference xs
get-collected reference xs =
    get-collect reference xs [] ∙ (unfold get in or_else-none (broker_of reference xs))

replicas_of-collected :
    (rs : List ℕ) (xs : List MetadataResponse.Broker)
    → replicas_of (collect xs []) rs ≡ brokers_of rs xs
unfolding replicas_of
replicas_of-collected [] xs = refl
replicas_of-collected (r ∷ rs) xs =
    ap (λ o. keep o (replicas_of (collect xs []) rs)) (get-collected r xs)
    ∙ elim (Option-cases (broker_of r xs)) [
      | inl missing ↦ rw (missing, replicas_of-collected rs xs) refl
      | inr (x, there) ↦ rw (there, replicas_of-collected rs xs) refl
    ]

resolve-described :
    (xs : List MetadataResponse.Broker) (s : MetadataResponse.StreamMetadata)
    → resolve (collect xs []) s ≡ described xs s
unfolding resolve
resolve-described xs s =
    ap (with_leader (collect xs []) s) (get-collected s.leader_reference xs)
    ∙ elim (Option-cases (broker_of s.leader_reference xs)) [
      | inl missing ↦ rw missing refl
      | inr (x, there) ↦ rw (there, replicas_of-collected s.replicas_references xs) refl
    ]

-- A stream of a metadata response, when no other stream of it has its name, is found under its name
-- with its response code, the host and port of its leader's broker, and those of the brokers of its
-- replicas that the response lists, in their order; when the response lists no broker for the
-- leader, it is not found. Of the brokers with one reference the last one counts.
pub from_response-lookup :
    (r : MetadataResponse) (before after : List MetadataResponse.StreamMetadata)
    (s : MetadataResponse.StreamMetadata)
    → r.stream_metadata ≡ before ++ s ∷ after
    → Unnamed s.stream_name before
    → Unnamed s.stream_name after
    → lookup s.stream_name (from_response r) ≡ described r.brokers s
unfolding from_response lookup
from_response-lookup r before after s split first last = rw split (
    named_alone (collect r.brokers []) before after s [] first last refl
    ∙ resolve-described r.brokers s)
