-- ===== src/Commands/MetadataResponse.antt =====
-- `Broker`, `StreamMetadata` and `MetadataResponse` of protocol/src/commands/metadata.rs.
use rabbitmq_stream_rust_cli.Prelude.{ℕ, ◌+◌, ◌^◌, ◌<◌, refl, List, length, All}
use rabbitmq_stream_rust_cli.Codec.Outcome.{Decode, pure, unwrap, ◌>>=◌}
use rabbitmq_stream_rust_cli.Codec.Emit.{Emit, ◌⊕◌}
use rabbitmq_stream_rust_cli.Codec.ByteOrder.{ByteOrder}
use rabbitmq_stream_rust_cli.Codec.Laws.{Codes, Codes-bind, Codes-last}
use rabbitmq_stream_rust_cli.Codec.Local.{IsLocal, local_rules}
use rabbitmq_stream_rust_cli.Codec.Ints.{
  u16_mod, u32_mod, read_u16, read_u32, encode_u16, encode_u32,
}
use rabbitmq_stream_rust_cli.Codec.Ints.Laws.{u16-Codes, u32-Codes, int_local_rules}
use rabbitmq_stream_rust_cli.Codec.Strings.{Str, IsText, decode_string, encode_str}
use rabbitmq_stream_rust_cli.Codec.Strings.Laws.{str-Codes, decode_string-IsLocal}
use rabbitmq_stream_rust_cli.Codec.Vectors.{read_vec, encode_vec, decode_vec_u16, encode_vec_u16}
use rabbitmq_stream_rust_cli.Codec.Vectors.Laws.{
  All-map, read_vec-Codes, read_vec-IsLocal, total, str_len, vec_u16-Codes, decode_vec_u16-IsLocal,
}
use rabbitmq_stream_rust_cli.ResponseCode.{ResponseCode, decode_code, encode_code}
use rabbitmq_stream_rust_cli.ResponseCode.Laws.{code-Codes, decode_code-IsLocal}

pub record Broker : Type 0 where
  pub reference : ℕ
  pub host : Str
  pub port : ℕ

pub record StreamMetadata : Type 0 where
  pub stream_name : Str
  pub code : ResponseCode
  pub leader_reference : ℕ
  pub replicas_references : List ℕ

pub record MetadataResponse : Type 0 where
  pub correlation_id : ℕ
  pub brokers : List Broker
  pub stream_metadata : List StreamMetadata

pub record IsBroker (x : Broker) : Type 0 where
  pub reference : x.reference < u16_mod
  pub host : IsText x.host
  pub port : x.port < u32_mod

pub record IsStreamMetadata (x : StreamMetadata) : Type 0 where
  pub stream_name : IsText x.stream_name
  pub leader_reference : x.leader_reference < u16_mod
  pub few : length x.replicas_references < 2 ^ 31
  pub replicas_references : All (λ r. r < u16_mod) x.replicas_references

-- The values of the fields' Rust types, with texts as `IsText` has them.
pub record IsValid (c : MetadataResponse) : Type 0 where
  pub correlation_id : c.correlation_id < u32_mod
  pub few_brokers : length c.brokers < 2 ^ 31
  pub brokers : All IsBroker c.brokers
  pub few_streams : length c.stream_metadata < 2 ^ 31
  pub stream_metadata : All IsStreamMetadata c.stream_metadata

abbrev pub broker_len : Broker → ℕ
broker_len x = 2 + (str_len x.host + 4)

abbrev pub stream_len : StreamMetadata → ℕ
stream_len x = str_len x.stream_name + (2 + (2 + (4 + total (λ r. 2) x.replicas_references)))

-- The number of bytes that a `MetadataResponse` is written in.
abbrev pub wire_len : MetadataResponse → ℕ
wire_len c = 4 + ((4 + total broker_len c.brokers) + (4 + total stream_len c.stream_metadata))

module _ ⦃b : ByteOrder⦄ where
  unfoldable pub encode_broker : Broker → Emit
  encode_broker x = encode_u16 x.reference ⊕ encode_str x.host ⊕ encode_u32 x.port

  unfoldable pub decode_broker : Decode Broker
  decode_broker = do
    reference ← read_u16
    opt_host ← decode_string
    port ← read_u32
    host ← unwrap opt_host
    pure (record { reference = reference; host = host; port = port })

  unfoldable pub encode_stream : StreamMetadata → Emit
  encode_stream x =
      encode_str x.stream_name
      ⊕ encode_code x.code
      ⊕ encode_u16 x.leader_reference
      ⊕ encode_vec_u16 x.replicas_references

  unfoldable pub decode_stream : Decode StreamMetadata
  decode_stream = do
    opt_stream_name ← decode_string
    code ← decode_code
    leader_reference ← read_u16
    replicas_references ← decode_vec_u16
    stream_name ← unwrap opt_stream_name
    pure (record {
      stream_name = stream_name;
      code = code;
      leader_reference = leader_reference;
      replicas_references = replicas_references;
    })

  -- `MetadataResponse::encode`
  unfoldable pub encode : MetadataResponse → Emit
  encode c =
      encode_u32 c.correlation_id
      ⊕ encode_vec encode_broker c.brokers
      ⊕ encode_vec encode_stream c.stream_metadata

  -- `MetadataResponse::decode`
  unfoldable pub decode : Decode MetadataResponse
  decode = do
    correlation_id ← read_u32
    brokers ← read_vec decode_broker
    stream_metadata ← read_vec decode_stream
    pure (record {
      correlation_id = correlation_id;
      brokers = brokers;
      stream_metadata = stream_metadata;
    })

  broker-Codes : (x : Broker) → IsBroker x → Codes decode_broker (encode_broker x) (broker_len x) x
  unfolding decode_broker encode_broker ◌>>=◌
  broker-Codes x h = Codes-bind _ (u16-Codes x.reference h.reference) (
      Codes-bind _ (str-Codes x.host h.host)
        (Codes-last _ (u32-Codes x.port h.port) (λ rest. refl)))

  stream-Codes :
      (x : StreamMetadata)
      → IsStreamMetadata x
      → Codes decode_stream (encode_stream x) (stream_len x) x
  unfolding decode_stream encode_stream ◌>>=◌
  stream-Codes x h = Codes-bind _ (str-Codes x.stream_name h.stream_name) (
      Codes-bind _ (code-Codes x.code) (
        Codes-bind _ (u16-Codes x.leader_reference h.leader_reference) (
          Codes-last _ (vec_u16-Codes x.replicas_references h.few h.replicas_references)
            (λ rest. refl))))

  -- A valid `MetadataResponse` reads back as itself, and the rest of the input is left.
  pub decode-Codes : (c : MetadataResponse) → IsValid c → Codes decode (encode c) (wire_len c) c
  unfolding decode encode pure
  decode-Codes c h = Codes-bind _ (u32-Codes c.correlation_id h.correlation_id) (
      Codes-bind _
        (read_vec-Codes decode_broker encode_broker broker_len c.brokers h.few_brokers
          (All-map broker-Codes c.brokers h.brokers))
        (Codes-last _
          (read_vec-Codes decode_stream encode_stream stream_len c.stream_metadata h.few_streams
            (All-map stream-Codes c.stream_metadata h.stream_metadata))
          (λ rest. refl)))

  broker-IsLocal : IsLocal decode_broker
  unfolding decode_broker
  broker-IsLocal = search (local_rules, int_local_rules, decode_string-IsLocal) depth 10

  stream-IsLocal : IsLocal decode_stream
  unfolding decode_stream
  stream-IsLocal =
      search
        (
          local_rules, int_local_rules, decode_string-IsLocal, decode_code-IsLocal,
          decode_vec_u16-IsLocal,
        )
        depth 12

  pub decode-IsLocal : IsLocal decode
  unfolding decode
  decode-IsLocal =
      search (local_rules, int_local_rules, read_vec-IsLocal, broker-IsLocal, stream-IsLocal) depth
        10
