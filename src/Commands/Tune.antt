-- ===== src/Commands/Tune.antt =====
-- `TunesCommand` of protocol/src/commands/tune.rs.
use rabbitmq_stream_rust_cli.Prelude.{ℕ, ◌+◌, ◌%◌, ◌<◌, ◌≡◌, refl, arith}
use rabbitmq_stream_rust_cli.Codec.Outcome.{Decode, pure, ◌>>=◌}
use rabbitmq_stream_rust_cli.Codec.Emit.{Emit, ◌⊕◌}
use rabbitmq_stream_rust_cli.Codec.ByteOrder.{ByteOrder}
use rabbitmq_stream_rust_cli.Codec.Laws.{Codes, Codes-bind, Codes-last}
use rabbitmq_stream_rust_cli.Codec.Local.{IsLocal, local_rules}
use rabbitmq_stream_rust_cli.Codec.Ints.{u32_mod, ◌⊞◌, u32_size, read_u32, encode_u32}
use rabbitmq_stream_rust_cli.Codec.Ints.Laws.{u32-Codes, int_local_rules}

pub record TunesCommand : Type 0 where
  pub max_frame_size : ℕ
  pub heartbeat : ℕ

-- The values of the fields' Rust types, with texts as `IsText` has them.
pub record IsValid (c : TunesCommand) : Type 0 where
  pub max_frame_size : c.max_frame_size < u32_mod
  pub heartbeat : c.heartbeat < u32_mod

-- `TunesCommand::encoded_size`
unfoldable pub encoded_size : TunesCommand → ℕ
encoded_size c = u32_size c.heartbeat ⊞ u32_size c.max_frame_size

-- The number of bytes that a `TunesCommand` is written in.
abbrev pub wire_len : TunesCommand → ℕ
wire_len c = 4 + 4

-- The declared size is the true one, cut to 32 bits.
pub encoded_size-eq-wire_len : (c : TunesCommand) → encoded_size c ≡ wire_len c % u32_mod
unfolding encoded_size
encoded_size-eq-wire_len c = omega arith

module _ ⦃b : ByteOrder⦄ where
  -- `TunesCommand::encode`
  unfoldable pub encode : TunesCommand → Emit
  encode c = encode_u32 c.max_frame_size ⊕ encode_u32 c.heartbeat

  -- `TunesCommand::decode`
  unfoldable pub decode : Decode TunesCommand
  decode = do
    max_frame_size ← read_u32
    heartbeat ← read_u32
    pure (record { max_frame_size = max_frame_size; heartbeat = heartbeat })

  -- A valid `TunesCommand` reads back as itself, and the rest of the input is left.
  pub decode-Codes : (c : TunesCommand) → IsValid c → Codes decode (encode c) (wire_len c) c
  unfolding decode encode pure
  decode-Codes c h =
      Codes-bind _ (u32-Codes c.max_frame_size h.max_frame_size)
        (Codes-last _ (u32-Codes c.heartbeat h.heartbeat) (λ rest. refl))

  pub decode-IsLocal : IsLocal decode
  unfolding decode
  decode-IsLocal = search (local_rules, int_local_rules) depth 24
