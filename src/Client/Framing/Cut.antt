-- ===== src/Client/Framing/Cut.antt =====
-- What happens when the bytes of a frame arrive in parts.
use rabbitmq_stream_rust_cli.Prelude.{
  ℕ, ◌<◌, ◌^◌, ◌≡◌, ◌∙◌, List, ◌++◌, length, true, false, ltb, ◌==◌, arith,
}
use rabbitmq_stream_rust_cli.Protocol.{command_metadata_update}
use rabbitmq_stream_rust_cli.Codec.Outcome.{panic, ◌>>=◌, >>=_step}
use rabbitmq_stream_rust_cli.Codec.Emit.{bytes}
use rabbitmq_stream_rust_cli.Codec.ByteOrder.{ByteOrder}
use rabbitmq_stream_rust_cli.Codec.Ints.{u16_mod, u32_mod, read_u32, encode_u32, encode_i16}
use rabbitmq_stream_rust_cli.Codec.Ints.Laws.{u32-Codes, i16-Codes}
use rabbitmq_stream_rust_cli.Codec.Strings.{decode_string, decode_chars, split_at}
use rabbitmq_stream_rust_cli.Message.{MessageCodec}
use rabbitmq_stream_rust_cli.Header.{
  Header, extract_response_code, encode_header, decode_header, header-Codes,
}
use rabbitmq_stream_rust_cli.ResponseCode.{ResponseCode, encode_code}
use rabbitmq_stream_rust_cli.ResponseCode.Laws.{code-Codes}
use rabbitmq_stream_rust_cli.Commands.MetadataUpdate
use rabbitmq_stream_rust_cli.Response
use rabbitmq_stream_rust_cli.Response.{Response}
use rabbitmq_stream_rust_cli.Client.Framing.{panicked, poll}

module _ ⦃b : ByteOrder⦄ where
  -- A text that has announced `n` bytes of which not all are there.
  pub decode_string_cut :
      (n : ℕ) (part : List ℕ)
      → length part < n
      → n < 2 ^ 15
      → decode_string (bytes (encode_i16 n) ++ part) ≡ panic
  unfolding decode_string decode_chars split_at ◌>>=◌
  decode_string_cut n part short small =
      let there : (n == 0) ≡ false = ground arith in
      let positive : ltb n (2 ^ 15) ≡ true = ground arith in
      let cut : ltb (length part) n ≡ true = ground arith in
      rw ((i16-Codes n (omega arith)).reads part, there, positive, cut)

  -- The bytes of a metadata update up to and with a part of the stream's name.
  abbrev pub update_prefix : ℕ → Header → ResponseCode → ℕ → List ℕ → List ℕ
  update_prefix len h code n part =
      bytes (encode_u32 len)
      ++ (bytes (encode_header h) ++ (bytes (encode_code code) ++ (bytes (encode_i16 n) ++ part)))

module _ (Message : Type 0) ⦃m : MessageCodec Message⦄ ⦃b : ByteOrder⦄ where
  kind_update_prefix :
      (code : ResponseCode) (n : ℕ) (part : List ℕ)
      → length part < n
      → n < 2 ^ 15
      → Response.decode_kind {Message = Message} command_metadata_update
          (bytes (encode_code code) ++ (bytes (encode_i16 n) ++ part))
        ≡ panic
  unfolding Response.decode_kind MetadataUpdate.decode ◌>>=◌
  kind_update_prefix code n part short text =
      rw (
        (code-Codes code).reads (bytes (encode_i16 n) ++ part),
        decode_string_cut n part short text,
      )

  -- When a metadata update has arrived up to and with a part of the stream's name that is not the
  -- whole name, polling the buffer does not wait for the rest of the frame: it panics.
  pub poll-update_prefix :
      (len : ℕ) (h : Header) (code : ResponseCode) (n : ℕ) (part : List ℕ)
      → len < u32_mod
      → h.key < u16_mod
      → h.version < u16_mod
      → extract_response_code h.key ≡ command_metadata_update
      → length part < n
      → n < 2 ^ 15
      → poll {Message = Message} (update_prefix len h code n part)
        ≡ (update_prefix len h code n part, panicked)
  unfolding poll Response.decode
  poll-update_prefix len h code n part small key version kind short text =
      let name : List ℕ = bytes (encode_code code) ++ (bytes (encode_i16 n) ++ part) in
      let first = (u32-Codes len small).reads (bytes (encode_header h) ++ name) in
      let second = (header-Codes h key version).reads name in
      let third = kind_update_prefix code n part short text in
      let whole : Response.decode {Message = Message} (update_prefix len h code n part) ≡ panic =
        >>=_step read_u32 _ _ first
        ∙ (>>=_step decode_header _ _ second ∙ unfold ◌>>=◌ in rw (kind, third)) in
      rw whole
