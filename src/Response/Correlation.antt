-- ===== src/Response/Correlation.antt =====
-- The correlation id of a decoded response, and where it stands in the frame.
use rabbitmq_stream_rust_cli.Prelude.{
  ℕ, ◌≡◌, refl, sym, ap, ◌∙◌, Bool, true, false, some, none, List, take, drop, drop-drop,
  if◌then◌else◌,
}
use rabbitmq_stream_rust_cli.Codec.Outcome.{Decode, ok, fail, DecodeError, pure, ◌>>=◌, >>=_ok}
use rabbitmq_stream_rust_cli.Codec.ByteOrder.{ByteOrder}
use rabbitmq_stream_rust_cli.Codec.Ints.{read_u16, read_u32}
use rabbitmq_stream_rust_cli.Codec.Ints.Laws.{reader_ok}
use rabbitmq_stream_rust_cli.Codec.Yields.{Yields, yield_rules}
use rabbitmq_stream_rust_cli.Message.{MessageCodec}
use rabbitmq_stream_rust_cli.Header.{decode_header}
use rabbitmq_stream_rust_cli.Response.{
  ResponseKind, Response, kind_correlation_id, correlation_id, decode_kind, decode, open_response,
  close, peer_properties, sasl_handshake, generic, metadata, query_offset, query_publisher_sequence,
  exchange_command_versions, super_stream_partitions, super_stream_route, consumer_update, tunes,
  deliver, heartbeat, metadata_update, publish_confirm, publish_error, credit,
}
use rabbitmq_stream_rust_cli.Commands.OpenResponse
use rabbitmq_stream_rust_cli.Commands.CloseResponse
use rabbitmq_stream_rust_cli.Commands.PeerPropertiesResponse
use rabbitmq_stream_rust_cli.Commands.SaslHandshakeResponse
use rabbitmq_stream_rust_cli.Commands.Generic
use rabbitmq_stream_rust_cli.Commands.MetadataResponse
use rabbitmq_stream_rust_cli.Commands.QueryOffsetResponse
use rabbitmq_stream_rust_cli.Commands.QueryPublisherResponse
use rabbitmq_stream_rust_cli.Commands.ExchangeCommandVersionsResponse
use rabbitmq_stream_rust_cli.Commands.SuperStreamPartitionsResponse
use rabbitmq_stream_rust_cli.Commands.SuperStreamRouteResponse
use rabbitmq_stream_rust_cli.Commands.ConsumerUpdate
use rabbitmq_stream_rust_cli.Commands.Tune
use rabbitmq_stream_rust_cli.Commands.Deliver
use rabbitmq_stream_rust_cli.Commands.HeartBeat
use rabbitmq_stream_rust_cli.Commands.MetadataUpdate
use rabbitmq_stream_rust_cli.Commands.PublishConfirm
use rabbitmq_stream_rust_cli.Commands.PublishError
use rabbitmq_stream_rust_cli.Commands.CreditResponse

module _ {Message : Type 0} ⦃m : MessageCodec Message⦄ ⦃b : ByteOrder⦄ where
  -- A kind that `d` returns has no correlation id but the number in the first four bytes.
  record Leads (d : Decode (ResponseKind Message)) : Type 0 where
    lead :
        (input rest : List ℕ) (k : ResponseKind Message) (c : ℕ)
        → d input ≡ ok (rest, k)
        → kind_correlation_id k ≡ some c
        → b.read 4 (take 4 input) ≡ c

  Leads-if :
      (c : Bool) (d e : Decode (ResponseKind Message))
      → Leads d
      → Leads e
      → Leads (if c then d else e)
  Leads-if true d e p q = p
  Leads-if false d e p q = q

  Leads-fail : (e : DecodeError) → Leads (fail e)
  unfolding fail
  Leads-fail e = record { lead = λ input rest k c h. absurd (cc) }

  -- A kind without a correlation id.
  Leads-none :
      {A : Type 0} (d : Decode A) (k : A → ResponseKind Message)
      → ((a : A) → kind_correlation_id (k a) ≡ none)
      → Leads (d >>= λ a. pure (k a))
  unfolding pure
  Leads-none d k q = record {
    lead = λ input rest x c h known.
        let (mid, a, first, second) = >>=_ok d (λ a. pure (k a)) input h in
        let none_here = q a in absurd (cc);
  }

  -- A kind that starts with its correlation id.
  Leads-id :
      {A : Type 0} (f : ℕ → Decode A) (k : A → ResponseKind Message)
      → ((n : ℕ) → Yields (λ a. kind_correlation_id (k a) ≡ some n) (f n))
      → Leads ((read_u32 >>= f) >>= λ a. pure (k a))
  unfolding pure read_u32
  Leads-id f k q = record {
    lead = λ input rest x c h known.
        let (mid, a, first, second) = >>=_ok (read_u32 >>= f) (λ a. pure (k a)) input h in
        let (behind, n, head, tail) = >>=_ok read_u32 f input first in
        let here = (q n).yield behind mid a tail in
        let (number, left) = reader_ok 4 input head in cc;
  }

  open_response-Leads : Leads (do c ← OpenResponse.decode; pure (open_response c))
  unfolding OpenResponse.decode kind_correlation_id
  open_response-Leads = Leads-id _ open_response (search (yield_rules) depth 24)

  close-Leads : Leads (do c ← CloseResponse.decode; pure (close c))
  unfolding CloseResponse.decode kind_correlation_id
  close-Leads = Leads-id _ close (search (yield_rules) depth 24)

  peer_properties-Leads : Leads (do c ← PeerPropertiesResponse.decode; pure (peer_properties c))
  unfolding PeerPropertiesResponse.decode kind_correlation_id
  peer_properties-Leads = Leads-id _ peer_properties (search (yield_rules) depth 24)

  sasl_handshake-Leads : Leads (do c ← SaslHandshakeResponse.decode; pure (sasl_handshake c))
  unfolding SaslHandshakeResponse.decode kind_correlation_id
  sasl_handshake-Leads = Leads-id _ sasl_handshake (search (yield_rules) depth 24)

  generic-Leads : Leads (do c ← Generic.decode; pure (generic c))
  unfolding Generic.decode kind_correlation_id
  generic-Leads = Leads-id _ generic (search (yield_rules) depth 24)

  metadata-Leads : Leads (do c ← MetadataResponse.decode; pure (metadata c))
  unfolding MetadataResponse.decode kind_correlation_id
  metadata-Leads = Leads-id _ metadata (search (yield_rules) depth 24)

  query_offset-Leads : Leads (do c ← QueryOffsetResponse.decode; pure (query_offset c))
  unfolding QueryOffsetResponse.decode kind_correlation_id
  query_offset-Leads = Leads-id _ query_offset (search (yield_rules) depth 24)

  query_publisher_sequence-Leads :
      Leads (do c ← QueryPublisherResponse.decode; pure (query_publisher_sequence c))
  unfolding QueryPublisherResponse.decode kind_correlation_id
  query_publisher_sequence-Leads =
      Leads-id _ query_publisher_sequence (search (yield_rules) depth 24)

  exchange_command_versions-Leads :
      Leads (do c ← ExchangeCommandVersionsResponse.decode; pure (exchange_command_versions c))
  unfolding ExchangeCommandVersionsResponse.decode kind_correlation_id
  exchange_command_versions-Leads =
      Leads-id _ exchange_command_versions (search (yield_rules) depth 24)

  super_stream_partitions-Leads :
      Leads (do c ← SuperStreamPartitionsResponse.decode; pure (super_stream_partitions c))
  unfolding SuperStreamPartitionsResponse.decode kind_correlation_id
  super_stream_partitions-Leads = Leads-id _ super_stream_partitions (search (yield_rules) depth 24)

  super_stream_route-Leads :
      Leads (do c ← SuperStreamRouteResponse.decode; pure (super_stream_route c))
  unfolding SuperStreamRouteResponse.decode kind_correlation_id
  super_stream_route-Leads = Leads-id _ super_stream_route (search (yield_rules) depth 24)

  consumer_update-Leads : Leads (do c ← ConsumerUpdate.decode; pure (consumer_update c))
  unfolding ConsumerUpdate.decode kind_correlation_id
  consumer_update-Leads = Leads-id _ consumer_update (search (yield_rules) depth 24)

  tunes-Leads : Leads (do c ← Tune.decode; pure (tunes c))
  unfolding kind_correlation_id
  tunes-Leads = Leads-none _ tunes (λ a. refl)

  deliver-Leads : Leads (do c ← Deliver.decode; pure (deliver c))
  unfolding kind_correlation_id
  deliver-Leads = Leads-none _ deliver (λ a. refl)

  heartbeat-Leads : Leads (do c ← HeartBeat.decode; pure (heartbeat c))
  unfolding kind_correlation_id
  heartbeat-Leads = Leads-none _ heartbeat (λ a. refl)

  metadata_update-Leads : Leads (do c ← MetadataUpdate.decode; pure (metadata_update c))
  unfolding kind_correlation_id
  metadata_update-Leads = Leads-none _ metadata_update (λ a. refl)

  publish_confirm-Leads : Leads (do c ← PublishConfirm.decode; pure (publish_confirm c))
  unfolding kind_correlation_id
  publish_confirm-Leads = Leads-none _ publish_confirm (λ a. refl)

  publish_error-Leads : Leads (do c ← PublishError.decode; pure (publish_error c))
  unfolding kind_correlation_id
  publish_error-Leads = Leads-none _ publish_error (λ a. refl)

  credit-Leads : Leads (do c ← CreditResponse.decode; pure (credit c))
  unfolding kind_correlation_id
  credit-Leads = Leads-none _ credit (λ a. refl)

  kind-Leads : (n : ℕ) → Leads (decode_kind n)
  unfolding decode_kind
  kind-Leads n =
      search
        (
          Leads-if, Leads-fail, open_response-Leads, close-Leads, peer_properties-Leads,
          sasl_handshake-Leads, generic-Leads, metadata-Leads, query_offset-Leads,
          query_publisher_sequence-Leads, exchange_command_versions-Leads,
          super_stream_partitions-Leads, super_stream_route-Leads, consumer_update-Leads,
          tunes-Leads, deliver-Leads, heartbeat-Leads, metadata_update-Leads, publish_confirm-Leads,
          publish_error-Leads, credit-Leads,
        )
        depth 60

  -- The correlation id of a response that was decoded, when it has one, is the big-endian number in
  -- the bytes 8 to 11 of the input, whatever the kind of the response.
  pub correlation_id-decode :
      (input rest : List ℕ) (r : Response Message) (c : ℕ)
      → decode input ≡ ok (rest, r)
      → correlation_id r ≡ some c
      → b.read 4 (take 4 (drop 8 input)) ≡ c
  unfolding decode correlation_id decode_header pure read_u32 read_u16
  correlation_id-decode input rest r c h known =
      let (in1, len, first, h1) = >>=_ok read_u32 _ input h in
      let (in2, header, second, h2) = >>=_ok decode_header _ in1 h1 in
      let (in3, kind, third, h3) = >>=_ok (decode_kind header.key) _ in2 h2 in
      let (in4, key, fourth, h4) = >>=_ok read_u16 _ in1 second in
      let (in5, version, fifth, h5) = >>=_ok read_u16 _ in4 h4 in
      let (n1, skip1) = reader_ok 4 input first in
      let (n2, skip2) = reader_ok 2 in1 fourth in
      let (n3, skip3) = reader_ok 2 in4 fifth in
      let same : in5 ≡ in2 = cc in
      let eight : drop 8 input ≡ in2 =
        sym (drop-drop 4 4 input)
        ∙ ap (drop 4) skip1
        ∙ sym (drop-drop 2 2 in1)
        ∙ ap (drop 2) skip2
        ∙ skip3
        ∙ same in
      let whole : record { header = header; kind = kind } ≡ r = cc in
      let response : kind_correlation_id kind ≡ some c =
        ap (λ x. kind_correlation_id x.kind) whole ∙ known in
      rw eight ((kind-Leads header.key).lead in2 in3 kind c third response)
