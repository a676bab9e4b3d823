-- ===== src/Commands/Publish.antt =====
-- `PublishedMessage` of protocol/src/types.rs with its codecs in protocol/src/codec, and
-- `PublishCommand` of protocol/src/commands/publish.rs.
use mathlib.Core.Path.{subst}
use rabbitmq_stream_rust_cli.Prelude.{
  ℕ, ◌+◌, ◌%◌, ◌<◌, ◌≡◌, refl, Option, none, List, inl, inr, Bool-cases, if◌then◌else◌, ◌==◌, sym,
  length, All, arith,
}
use rabbitmq_stream_rust_cli.Codec.Outcome.{Decode, pure, ◌>>=◌}
use rabbitmq_stream_rust_cli.Codec.Emit.{Emit, emit_each, ◌⊕◌}
use rabbitmq_stream_rust_cli.Codec.ByteOrder.{ByteOrder}
use rabbitmq_stream_rust_cli.Codec.Laws.{Codes, Codes-bind, Codes-last}
use rabbitmq_stream_rust_cli.Codec.Local.{IsLocal, IsLocal-bind, local_rules}
use rabbitmq_stream_rust_cli.Codec.Ints.{
  u8_mod, u32_mod, u64_mod, ◌⊞◌, u8_size, u64_size, read_u8, read_u32, read_u64, encode_u8,
  encode_u32, encode_u64,
}
use rabbitmq_stream_rust_cli.Codec.Ints.Laws.{
  u8-Codes, u32-Codes, u64-Codes, int_local_rules, read_u32-IsLocal,
}
use rabbitmq_stream_rust_cli.Codec.Strings.{
  Str, string_size, string_len, decode_string, encode_string,
}
use rabbitmq_stream_rust_cli.Codec.Strings.Laws.{string_size-eq-string_len}
use rabbitmq_stream_rust_cli.Codec.Vectors.{vec_size, repeat}
use rabbitmq_stream_rust_cli.Codec.Vectors.Laws.{
  total, All-map, repeat-Codes, repeat-IsLocal, vec_size_lem,
}
use rabbitmq_stream_rust_cli.Message.{
  MessageCodec, IsMessage, encode_message, decode_message, decode_message-IsLocal, message-Codes,
  read_body, nested,
}
use rabbitmq_stream_rust_cli.Protocol.{protocol_version, protocol_version_2}

pub record PublishedMessage (Message : Type 0) : Type 0 where
  pub publishing_id : ℕ
  pub message : Message
  pub filter_value : Option Str

pub record PublishCommand (Message : Type 0) : Type 0 where
  pub publisher_id : ℕ
  pub published_messages : List (PublishedMessage Message)
  pub version : ℕ

module _ {Message : Type 0} ⦃m : MessageCodec Message⦄ where
  abbrev pub published_size : PublishedMessage Message → ℕ
  published_size p = u64_size p.publishing_id ⊞ 4 ⊞ m.encoded_size p.message

  abbrev pub published_size_version_2 : PublishedMessage Message → ℕ
  published_size_version_2 p =
      u64_size p.publishing_id ⊞ string_size p.filter_value ⊞ 4 ⊞ m.encoded_size p.message

  -- `PublishCommand::encoded_size`
  unfoldable pub encoded_size : PublishCommand Message → ℕ
  encoded_size c =
      if c.version == protocol_version_2
      then u8_size c.publisher_id ⊞ vec_size published_size_version_2 c.published_messages
      else u8_size c.publisher_id ⊞ vec_size published_size c.published_messages

  -- What one message takes on the wire, in each version.
  abbrev pub published_len : PublishedMessage Message → ℕ
  published_len p = 8 + (4 + m.encoded_size p.message)

  abbrev pub published_len_version_2 : PublishedMessage Message → ℕ
  published_len_version_2 p = 8 + (string_len p.filter_value + (4 + m.encoded_size p.message))

  -- The number of bytes that a `PublishCommand` is written in.
  abbrev pub wire_len : PublishCommand Message → ℕ
  wire_len c =
      if c.version == protocol_version_2
      then 1 + (4 + total published_len_version_2 c.published_messages)
      else 1 + (4 + total published_len c.published_messages)

  -- The declared size is the true one, cut to 32 bits.
  pub encoded_size-eq-wire_len :
      (c : PublishCommand Message) → encoded_size c ≡ wire_len c % u32_mod
  unfolding encoded_size
  encoded_size-eq-wire_len c = elim (Bool-cases (c.version == protocol_version_2)) [
    | inl two ↦ rw two (
        omega (
          arith,
          vec_size_lem published_size_version_2 published_len_version_2
              (λ p. omega (arith, string_size-eq-string_len p.filter_value)) c.published_messages,
        ))
    | inr one ↦ rw one (
        omega (
          arith,
          vec_size_lem published_size published_len (λ p. omega arith) c.published_messages,
        ))
  ]

  -- A message without a filter value, which version 1 does not send.
  pub record IsPublished (p : PublishedMessage Message) : Type 0 where
    pub publishing_id : p.publishing_id < u64_mod
    pub message : IsMessage p.message
    pub filter_value : p.filter_value ≡ none

  -- A command of version 1 whose messages their codec handles.
  pub record IsValid (c : PublishCommand Message) : Type 0 where
    pub publisher_id : c.publisher_id < u8_mod
    pub few : length c.published_messages < u32_mod
    pub published_messages : All IsPublished c.published_messages
    pub version : c.version ≡ protocol_version

  module _ ⦃b : ByteOrder⦄ where
    -- `PublishedMessage::encode`
    unfoldable pub encode_published : PublishedMessage Message → Emit
    unfolding encode_message
    encode_published p = encode_u64 p.publishing_id ⊕ encode_message p.message

    -- `PublishedMessage::encode_version_2`
    unfoldable pub encode_published_version_2 : PublishedMessage Message → Emit
    unfolding encode_message
    encode_published_version_2 p =
        encode_u64 p.publishing_id ⊕ encode_string p.filter_value ⊕ encode_message p.message

    -- `PublishedMessage::decode`
    unfoldable pub decode_published : Decode (PublishedMessage Message)
    decode_published = do
      publishing_id ← read_u64
      message ← decode_message
      pure (record { publishing_id = publishing_id; message = message; filter_value = none })

    -- `PublishedMessage::decode_version_2`: the body stands before the filter value.
    unfoldable pub decode_published_version_2 : Decode (PublishedMessage Message)
    unfolding read_body nested
    decode_published_version_2 = do
      publishing_id ← read_u64
      body ← read_body
      filter_value ← decode_string
      message ← nested m.decode body
      pure
          (record { publishing_id = publishing_id; message = message; filter_value = filter_value })

    -- The encoders of `Vec<PublishedMessage>`.
    unfoldable pub encode_messages : ℕ → List (PublishedMessage Message) → Emit
    unfolding emit_each encode_published encode_published_version_2
    encode_messages version ps =
        encode_u32 (length ps % u32_mod)
        ⊕ (if version == protocol_version_2
            then emit_each encode_published_version_2 ps
            else emit_each encode_published ps)

    -- `PublishCommand::encode`
    unfoldable pub encode : PublishCommand Message → Emit
    unfolding encode_messages
    encode c = encode_u8 c.publisher_id ⊕ encode_messages c.version c.published_messages

    -- `Vec::<PublishedMessage>::decode`
    unfoldable pub decode_messages : Decode (List (PublishedMessage Message))
    unfolding repeat decode_published
    decode_messages = do n ← read_u32; repeat n decode_published

    -- `PublishCommand::decode`
    unfoldable pub decode : Decode (PublishCommand Message)
    unfolding decode_messages
    decode = do
      publisher_id ← read_u8
      published_messages ← decode_messages
      pure (record {
        publisher_id = publisher_id;
        published_messages = published_messages;
        version = 1;
      })

    published-Codes :
        (p : PublishedMessage Message)
        → IsPublished p
        → Codes decode_published (encode_published p) (published_len p) p
    unfolding decode_published encode_published pure
    published-Codes p h =
        Codes-bind _ (u64-Codes p.publishing_id h.publishing_id)
          (Codes-last _ (message-Codes p.message h.message) (λ rest. rw h.filter_value))

    messages-Codes :
        (ps : List (PublishedMessage Message))
        → length ps < u32_mod
        → All IsPublished ps
        → Codes decode_messages
            (encode_messages protocol_version ps)
            (4 + total published_len ps)
            ps
    unfolding decode_messages encode_messages
    messages-Codes ps few h =
        let small : length ps % u32_mod ≡ length ps = omega arith in
        Codes-bind _ (u32-Codes (length ps % u32_mod) (omega arith)) (
          rw small (
            repeat-Codes decode_published encode_published published_len ps
              (All-map published-Codes ps h)))

    version_1-Codes :
        (id : ℕ) (ps : List (PublishedMessage Message))
        → id < u8_mod
        → length ps < u32_mod
        → All IsPublished ps
        → let c : PublishCommand Message = record {
          publisher_id = id;
          published_messages = ps;
          version = protocol_version;
        } in
          Codes decode (encode c) (wire_len c) c
    unfolding decode encode pure
    version_1-Codes id ps small few h =
        Codes-bind _ (u8-Codes id small) (Codes-last _ (messages-Codes ps few h) (λ rest. refl))

    -- A valid command of version 1 reads back as itself, and the rest of the input is left.
    pub decode-Codes :
        (c : PublishCommand Message) → IsValid c → Codes decode (encode c) (wire_len c) c
    decode-Codes c h =
        let as_version_1 : record c { version = protocol_version } ≡ c =
          λ i. record c { version = sym h.version i } in
        subst (λ x. Codes decode (encode x) (wire_len x) x) as_version_1
          (version_1-Codes c.publisher_id c.published_messages h.publisher_id h.few
            h.published_messages)

    published-IsLocal : IsLocal decode_published
    unfolding decode_published
    published-IsLocal = search (local_rules, int_local_rules, decode_message-IsLocal) depth 10

    messages-IsLocal : IsLocal decode_messages
    unfolding decode_messages
    messages-IsLocal =
        IsLocal-bind _ _ read_u32-IsLocal (λ n. repeat-IsLocal n decode_published published-IsLocal)

    pub decode-IsLocal : IsLocal decode
    unfolding decode
    decode-IsLocal = search (local_rules, int_local_rules, messages-IsLocal) depth 10
