-- ===== src/Amqp/Errors.antt =====
-- protocol/src/message/amqp/error.rs and its conversion in protocol/src/message/mod.rs; and the code
-- that the AMQP codec uses and that is not part of the repository: the crates `chrono`, `uuid` and
-- `ordered_float`, and the texts that `format!`, `{:?}` and `type_name` make.
use rabbitmq_stream_rust_cli.Prelude.{ℕ, ◌≡◌, Bool, Option, some, List, length}
use rabbitmq_stream_rust_cli.Codec.Outcome.{DecodeError, Decode, fail}
use rabbitmq_stream_rust_cli.Codec.Strings.{Str}
use rabbitmq_stream_rust_cli.Amqp.TypeCode.{TypeCode}

-- `Descriptor` of protocol/src/message/amqp/types/descriptor.rs, and the constants of sections in
-- protocol/src/message/amqp/codec/constants.rs.
pub data Descriptor : Type 0 where
  ulong : ℕ → Descriptor
  symbol : Str → Descriptor

abbrev pub message_header : Descriptor
message_header = Descriptor.ulong 112

abbrev pub message_delivery_annotations : Descriptor
message_delivery_annotations = Descriptor.ulong 113

abbrev pub message_annotations : Descriptor
message_annotations = Descriptor.ulong 114

abbrev pub message_properties : Descriptor
message_properties = Descriptor.ulong 115

abbrev pub message_application_properties : Descriptor
message_application_properties = Descriptor.ulong 116

abbrev pub message_body_data : Descriptor
message_body_data = Descriptor.ulong 117

abbrev pub message_body_sequence : Descriptor
message_body_sequence = Descriptor.ulong 118

abbrev pub message_body_value : Descriptor
message_body_value = Descriptor.ulong 119

abbrev pub message_footer : Descriptor
message_footer = Descriptor.ulong 120

-- The types whose name an error carries.
pub data Target : Type 0 where
  ubyte ushort uint ulong byte short int long float double char boolean : Target
  uuid binary str symbol timestamp simple_value descriptor message_id annotation_key : Target
  list described_value collection_value : Target
  map : Target → Target → Target
  value : Target

-- What the text of an error says.
pub data ErrorText : Type 0 where
  invalid_type_code_for : Target → TypeCode → ErrorText
  invalid_list_code : TypeCode → ErrorText
  invalid_section : Descriptor → ErrorText
  invalid_header_descriptor : Descriptor → ErrorText
  invalid_properties_descriptor : Descriptor → ErrorText
  invalid_timestamp : ℕ → ErrorText
  invalid_uuid : List ℕ → ErrorText

pub record Externals : Type 1 where
  -- `chrono::DateTime<Utc>`: `timestamp_millis`, and `Utc.timestamp_millis_opt(_).single()`, which
  -- makes the time of that number of milliseconds.
  pub DateTime : Type 0
  pub timestamp_millis : DateTime → ℕ
  pub timestamp_millis_opt : ℕ → Option DateTime
  pub timestamp_millis-opt :
      (n : ℕ) (t : DateTime) → timestamp_millis_opt n ≡ some t → timestamp_millis t ≡ n
  pub datetime_eq : DateTime → DateTime → Bool
  -- `uuid::Uuid`: `as_bytes` gives 16 bytes, and `from_slice` takes them back.
  pub Uuid : Type 0
  pub as_bytes : Uuid → List ℕ
  pub from_slice : List ℕ → Option Uuid
  pub uuid_eq : Uuid → Uuid → Bool
  pub length-as_bytes : (u : Uuid) → length (as_bytes u) ≡ 16
  pub from_slice-as_bytes : (u : Uuid) → from_slice (as_bytes u) ≡ some u
  -- `OrderedFloat::eq`, on the bits of an `f32` and of an `f64`.
  pub float_eq : ℕ → ℕ → Bool
  pub double_eq : ℕ → ℕ → Bool
  -- The bytes of an error's text.
  pub format : ErrorText → Str

pub data AmqpDecodeError : Type 0 where
  invalid_type_code : ℕ → AmqpDecodeError
  invalid_type_code_for : Target → TypeCode → AmqpDecodeError
  message_parse : ErrorText → AmqpDecodeError
  incomplete : ℕ → AmqpDecodeError
  utf8_error : List ℕ → AmqpDecodeError
  uuid_error : List ℕ → AmqpDecodeError

module _ ⦃x : Externals⦄ where
  -- `impl From<AmqpDecodeError> for DecodeError`
  unfoldable pub decode_error : AmqpDecodeError → DecodeError
  decode_error (AmqpDecodeError.invalid_type_code n) = DecodeError.invalid_format_code n
  decode_error (AmqpDecodeError.message_parse text) = DecodeError.message_parse (x.format text)
  decode_error (AmqpDecodeError.incomplete n) = DecodeError.incomplete n
  decode_error (AmqpDecodeError.utf8_error bs) = DecodeError.utf8_error bs
  decode_error (AmqpDecodeError.uuid_error bs) =
      DecodeError.message_parse (x.format (ErrorText.invalid_uuid bs))
  decode_error (AmqpDecodeError.invalid_type_code_for target c) =
      DecodeError.message_parse (x.format (ErrorText.invalid_type_code_for target c))

  -- An error of the AMQP codec, as the callers of the codec see it. Inside of the codec errors are
  -- passed on only, so each decoder fails with what the conversion makes of its error.
  unfoldable pub fail_with : {A : Type 0} → AmqpDecodeError → Decode A
  unfolding decode_error
  fail_with e = fail (decode_error e)

  -- `Err(Self::invalid_type_code(code))`
  unfoldable pub invalid_code : {A : Type 0} → Target → TypeCode → Decode A
  unfolding fail_with
  invalid_code target c = fail_with (AmqpDecodeError.invalid_type_code_for target c)
