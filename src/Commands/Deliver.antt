-- ===== src/Commands/Deliver.antt =====
-- `DeliverCommand` of protocol/src/commands/deliver.rs.
use rabbitmq_stream_rust_cli.Prelude.{ℕ, ◌+◌, ◌%◌, ◌<◌, ◌≡◌, refl, List, length, All, arith}
use rabbitmq_stream_rust_cli.Codec.Outcome.{Decode, pure, ◌>>=◌}
use rabbitmq_stream_rust_cli.Codec.Emit.{Emit, emit_each, ◌⊕◌}
use rabbitmq_stream_rust_cli.Codec.ByteOrder.{ByteOrder}
use rabbitmq_stream_rust_cli.Codec.Laws.{Codes, Codes-bind, Codes-last, Codes-resize}
use rabbitmq_stream_rust_cli.Codec.Local.{IsLocal, local_rules}
use rabbitmq_stream_rust_cli.Codec.Ints.{
  u8_mod, u16_mod, u32_mod, u64_mod, ◌⊞◌, read_i32, encode_i32, i32_size, u8_size, i8_size,
  u16_size, u32_size, u64_size, read_u8, read_i8, read_u16, read_u32, read_u64, encode_u8,
  encode_i8, encode_u16, encode_u32, encode_u64,
}
use rabbitmq_stream_rust_cli.Codec.Ints.Laws.{
  u8-Codes, i8-Codes, u16-Codes, u32-Codes, u64-Codes, i32-Codes, int_local_rules,
}
use rabbitmq_stream_rust_cli.Codec.Vectors.{fold_size, repeat}
use rabbitmq_stream_rust_cli.Codec.Vectors.Laws.{
  total, All-map, repeat-Codes, repeat-IsLocal, fold_size_lem,
}
use rabbitmq_stream_rust_cli.Message.{
  MessageCodec, IsMessage, encode_message, decode_message, decode_message-IsLocal, message-Codes,
}

pub record DeliverCommand (Message : Type 0) : Type 0 where
  pub subscription_id : ℕ
  pub magic_version : ℕ
  pub chunk_type : ℕ
  pub num_entries : ℕ
  pub timestamp : ℕ
  pub epoch : ℕ
  pub chunk_first_offset : ℕ
  pub chunk_crc : ℕ
  pub trailer_length : ℕ
  pub reserved : ℕ
  pub messages : List Message

module _ {Message : Type 0} ⦃m : MessageCodec Message⦄ where
  -- `acc + 1 + message.encoded_size()`, in a fold.
  abbrev pub messages_size : List Message → ℕ
  messages_size ms = fold_size (λ x. 1 ⊞ m.encoded_size x) ms

  -- `DeliverCommand::encoded_size`
  unfoldable pub encoded_size : DeliverCommand Message → ℕ
  encoded_size c =
      u8_size c.subscription_id
      ⊞ i8_size c.magic_version
      ⊞ u8_size c.chunk_type
      ⊞ u16_size c.num_entries
      ⊞ 4
      ⊞ u64_size c.timestamp
      ⊞ u64_size c.epoch
      ⊞ u64_size c.chunk_first_offset
      ⊞ i32_size c.chunk_crc
      ⊞ u32_size c.trailer_length
      ⊞ u32_size c.reserved
      ⊞ 4
      ⊞ messages_size c.messages

  -- The values of the fields' Rust types, with messages that their codec handles.
  pub record IsValid (c : DeliverCommand Message) : Type 0 where
    pub subscription_id : c.subscription_id < u8_mod
    pub magic_version : c.magic_version < u8_mod
    pub chunk_type : c.chunk_type < u8_mod
    pub num_entries : c.num_entries < u16_mod
    pub timestamp : c.timestamp < u64_mod
    pub epoch : c.epoch < u64_mod
    pub chunk_first_offset : c.chunk_first_offset < u64_mod
    pub chunk_crc : c.chunk_crc < u32_mod
    pub trailer_length : c.trailer_length < u32_mod
    pub reserved : c.reserved < u32_mod
    pub few : length c.messages < u32_mod
    pub messages : All IsMessage c.messages

  messages_size-lt : (ms : List Message) → messages_size ms < u32_mod
  messages_size-lt ms = omega (
    arith,
    fold_size_lem (λ x. 1 ⊞ m.encoded_size x) (λ x. 1 + m.encoded_size x) (λ x. omega arith) ms,
  )

  -- The number of bytes that a `DeliverCommand` is written in.
  abbrev pub wire_len : DeliverCommand Message → ℕ
  wire_len c = 49 + total (λ x. 4 + m.encoded_size x) c.messages

  module _ ⦃b : ByteOrder⦄ where
    -- `DeliverCommand::encode`
    unfoldable pub encode : DeliverCommand Message → Emit
    unfolding emit_each encode_message
    encode c =
        encode_u8 c.subscription_id
        ⊕ encode_i8 c.magic_version
        ⊕ encode_u8 c.chunk_type
        ⊕ encode_u16 c.num_entries
        ⊕ encode_u32 (length c.messages % u32_mod)
        ⊕ encode_u64 c.timestamp
        ⊕ encode_u64 c.epoch
        ⊕ encode_u64 c.chunk_first_offset
        ⊕ encode_i32 c.chunk_crc
        ⊕ encode_u32 (messages_size c.messages)
        ⊕ encode_u32 c.trailer_length
        ⊕ encode_u32 c.reserved
        ⊕ emit_each encode_message c.messages

    -- `DeliverCommand::decode`
    unfoldable pub decode : Decode (DeliverCommand Message)
    unfolding repeat decode_message
    decode = do
      subscription_id ← read_u8
      magic_version ← read_i8
      chunk_type ← read_u8
      num_entries ← read_u16
      num_records ← read_u32
      timestamp ← read_u64
      epoch ← read_u64
      chunk_first_offset ← read_u64
      chunk_crc ← read_i32
      data_length ← read_u32
      trailer_length ← read_u32
      reserved ← read_u32
      messages ← repeat num_records decode_message
      pure (record {
        subscription_id = subscription_id;
        magic_version = magic_version;
        chunk_type = chunk_type;
        num_entries = num_entries;
        timestamp = timestamp;
        epoch = epoch;
        chunk_first_offset = chunk_first_offset;
        chunk_crc = chunk_crc;
        trailer_length = trailer_length;
        reserved = reserved;
        messages = messages;
      })

    -- A valid `DeliverCommand` reads back as itself, whatever length of its data it announces.
    pub decode-Codes :
        (c : DeliverCommand Message) → IsValid c → Codes decode (encode c) (wire_len c) c
    unfolding decode encode pure
    decode-Codes c h =
        let small : length c.messages % u32_mod ≡ length c.messages = omega (arith, h.few) in
        rw small (
          Codes-resize
            (Codes-bind _ (u8-Codes c.subscription_id h.subscription_id) (
              Codes-bind _ (i8-Codes c.magic_version h.magic_version) (
                Codes-bind _ (u8-Codes c.chunk_type h.chunk_type) (
                  Codes-bind _ (u16-Codes c.num_entries h.num_entries) (
                    Codes-bind _ (u32-Codes (length c.messages) h.few) (
                      Codes-bind _ (u64-Codes c.timestamp h.timestamp) (
                        Codes-bind _ (u64-Codes c.epoch h.epoch) (
                          Codes-bind _ (u64-Codes c.chunk_first_offset h.chunk_first_offset) (
                            Codes-bind _ (i32-Codes c.chunk_crc h.chunk_crc) (
                              Codes-bind _
                                (u32-Codes (messages_size c.messages) (messages_size-lt c.messages))
                                (Codes-bind _ (u32-Codes c.trailer_length h.trailer_length) (
                                  Codes-bind _ (u32-Codes c.reserved h.reserved) (
                                    Codes-last _
                                      (repeat-Codes decode_message encode_message
                                        (λ x. 4 + m.encoded_size x) c.messages
                                        (All-map message-Codes c.messages h.messages))
                                      (λ rest. refl))))))))))))))
            (omega arith))

    pub decode-IsLocal : IsLocal decode
    unfolding decode
    decode-IsLocal =
        search (local_rules, int_local_rules, decode_message-IsLocal, repeat-IsLocal) depth 40
