-- ===== src/Commands/HeartBeat.antt =====
-- `HeartBeatCommand` and `HeartbeatResponse` of protocol/src/commands/heart_beat.rs: no field.
use rabbitmq_stream_rust_cli.Prelude.{ℕ, []}
use rabbitmq_stream_rust_cli.Codec.Outcome.{Decode, pure}
use rabbitmq_stream_rust_cli.Codec.Emit.{Emit, done}
use rabbitmq_stream_rust_cli.Codec.Laws.{Codes, Codes-nothing}
use rabbitmq_stream_rust_cli.Codec.Local.{IsLocal, IsLocal-pure}

pub data HeartBeatCommand : Type 0 where
  heart_beat : HeartBeatCommand

unfoldable pub encoded_size : HeartBeatCommand → ℕ
encoded_size c = 0

unfoldable pub encode : HeartBeatCommand → Emit
encode c = done []

unfoldable pub decode : Decode HeartBeatCommand
decode = pure heart_beat

pub decode-Codes : (c : HeartBeatCommand) → Codes decode (encode c) 0 c
unfolding decode encode
decode-Codes heart_beat = Codes-nothing heart_beat

pub decode-IsLocal : IsLocal decode
unfolding decode
decode-IsLocal = IsLocal-pure heart_beat
