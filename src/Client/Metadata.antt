-- ===== src/Client/Metadata.antt =====
-- `from_response` of src/client/metadata.rs: the streams of a metadata response with their brokers.
pub mod Streams
use rabbitmq_stream_rust_cli.Prelude.{
  ℕ, ◌≡◌, refl, sym, ap, ◌∙◌, Bool, true, false, Bool-cases, inl, inr, Option, none, some, List, [],
  ◌∷◌, ◌==◌, All, if◌then◌else◌,
}
use rabbitmq_stream_rust_cli.ResponseCode.{ResponseCode}
use rabbitmq_stream_rust_cli.Codec.Strings.{Str}
use rabbitmq_stream_rust_cli.Codec.Maps.{HashMap, str_eq, lookup, insert}
use rabbitmq_stream_rust_cli.Commands.MetadataResponse
use rabbitmq_stream_rust_cli.Commands.MetadataResponse.{MetadataResponse}

pub record Broker : Type 0 where
  pub host : Str
  pub port : ℕ

pub record StreamMetadata : Type 0 where
  pub stream : Str
  pub response_code : ResponseCode
  pub leader : Broker
  pub replicas : List Broker

-- `HashMap<u16, Broker>`, with its `get`.
abbrev pub Brokers : Type 0
Brokers = List (ℕ × Broker)

unfoldable pub get : ℕ → Brokers → Option Broker
get reference [] = none
get reference ((r, x) ∷ brokers) = if r == reference then some x else get reference brokers

-- Its `collect`: of two brokers with one reference the later one stays.
unfoldable pub collect : List MetadataResponse.Broker → Brokers → Brokers
collect [] brokers = brokers
collect (x ∷ xs) brokers =
    collect xs ((x.reference, record { host = x.host; port = x.port }) ∷ brokers)

abbrev pub keep : {A : Type 0} → Option A → List A → List A
keep none xs = xs
keep (some x) xs = x ∷ xs

unfoldable pub replicas_of : Brokers → List ℕ → List Broker
unfolding get
replicas_of brokers [] = []
replicas_of brokers (r ∷ rs) = keep (get r brokers) (replicas_of brokers rs)

abbrev pub with_leader :
    Brokers → MetadataResponse.StreamMetadata → Option Broker → Option StreamMetadata
with_leader brokers s none = none
with_leader brokers s (some leader) = some (record {
  stream = s.stream_name;
  response_code = s.code;
  leader = leader;
  replicas = replicas_of brokers s.replicas_references;
})

-- The closure of `filter_map`.
unfoldable pub resolve : Brokers → MetadataResponse.StreamMetadata → Option StreamMetadata
unfolding get replicas_of
resolve brokers s = with_leader brokers s (get s.leader_reference brokers)

abbrev pub inserted : Option StreamMetadata → HashMap StreamMetadata → HashMap StreamMetadata
inserted none m = m
inserted (some s) m = insert s.stream s m

unfoldable pub collect_streams :
    Brokers → List MetadataResponse.StreamMetadata → HashMap StreamMetadata → HashMap StreamMetadata
unfolding resolve
collect_streams brokers [] m = m
collect_streams brokers (s ∷ ss) m = collect_streams brokers ss (inserted (resolve brokers s) m)

-- `from_response`
unfoldable pub from_response : MetadataResponse → HashMap StreamMetadata
unfolding collect collect_streams
from_response r = collect_streams (collect r.brokers []) r.stream_metadata []
