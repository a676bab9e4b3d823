-- ===== src/ResponseCode.antt =====
-- The response codes of protocol/src/response/mod.rs and protocol/src/response/shims.rs.
pub mod Laws
use rabbitmq_stream_rust_cli.Prelude.{ℕ, Bool, true, false, Option, none, some, ◌==◌, if◌then◌else◌}
use rabbitmq_stream_rust_cli.Protocol.{
  response_code_ok, response_code_stream_does_not_exist,
  response_code_subscription_id_already_exists, response_code_subscription_id_does_not_exist,
  response_code_stream_already_exists, response_code_stream_not_available,
  response_code_sasl_mechanism_not_supported, response_code_authentication_failure,
  response_code_sasl_error, response_code_sasl_challenge,
  response_code_authentication_failure_loopback, response_code_virtual_host_access_failure,
  response_code_unknown_frame, response_code_frame_too_large, response_code_internal_error,
  response_code_access_refused, response_code_precondition_failed,
  response_code_publisher_does_not_exist, response_code_offset_not_found,
}
use rabbitmq_stream_rust_cli.Codec.Outcome.{Decode, unknown_response_code, pure, fail, ◌>>=◌}
use rabbitmq_stream_rust_cli.Codec.Emit.{Emit}
use rabbitmq_stream_rust_cli.Codec.ByteOrder.{ByteOrder}
use rabbitmq_stream_rust_cli.Codec.Ints.{read_u16, encode_u16}

pub data ResponseCode : Type 0 where
  ok : ResponseCode
  stream_does_not_exist : ResponseCode
  subscription_id_already_exists : ResponseCode
  subscription_id_does_not_exist : ResponseCode
  stream_already_exists : ResponseCode
  stream_not_available : ResponseCode
  sasl_mechanism_not_supported : ResponseCode
  authentication_failure : ResponseCode
  sasl_error : ResponseCode
  sasl_challange : ResponseCode
  authentication_failure_loopback : ResponseCode
  virtual_host_access_failure : ResponseCode
  unknown_frame : ResponseCode
  frame_too_large : ResponseCode
  internal_error : ResponseCode
  access_refused : ResponseCode
  precodition_failed : ResponseCode
  publisher_does_not_exist : ResponseCode
  offset_not_found : ResponseCode

-- `impl From<&ResponseCode> for u16`
unfoldable pub to_u16 : ResponseCode → ℕ
to_u16 ok = response_code_ok
to_u16 stream_does_not_exist = response_code_stream_does_not_exist
to_u16 subscription_id_already_exists = response_code_subscription_id_already_exists
to_u16 subscription_id_does_not_exist = response_code_subscription_id_does_not_exist
to_u16 stream_already_exists = response_code_stream_already_exists
to_u16 stream_not_available = response_code_stream_not_available
to_u16 sasl_mechanism_not_supported = response_code_sasl_mechanism_not_supported
to_u16 authentication_failure = response_code_authentication_failure
to_u16 sasl_error = response_code_sasl_error
to_u16 sasl_challange = response_code_sasl_challenge
to_u16 authentication_failure_loopback = response_code_authentication_failure_loopback
to_u16 virtual_host_access_failure = response_code_virtual_host_access_failure
to_u16 unknown_frame = response_code_unknown_frame
to_u16 frame_too_large = response_code_frame_too_large
to_u16 internal_error = response_code_internal_error
to_u16 access_refused = response_code_access_refused
to_u16 precodition_failed = response_code_precondition_failed
to_u16 publisher_does_not_exist = response_code_publisher_does_not_exist
to_u16 offset_not_found = response_code_offset_not_found

-- The `match` of `impl TryFrom<u16> for ResponseCode`; `none` stands for the error.
unfoldable pub from_u16 : ℕ → Option ResponseCode
from_u16 value =
    if value == response_code_ok
    then some ok
    else if value == response_code_stream_does_not_exist
    then some stream_does_not_exist
    else if value == response_code_subscription_id_already_exists
    then some subscription_id_already_exists
    else if value == response_code_subscription_id_does_not_exist
    then some subscription_id_does_not_exist
    else if value == response_code_stream_already_exists
    then some stream_already_exists
    else if value == response_code_stream_not_available
    then some stream_not_available
    else if value == response_code_sasl_mechanism_not_supported
    then some sasl_mechanism_not_supported
    else if value == response_code_authentication_failure
    then some authentication_failure
    else if value == response_code_sasl_error
    then some sasl_error
    else if value == response_code_sasl_challenge
    then some sasl_challange
    else if value == response_code_authentication_failure_loopback
    then some authentication_failure_loopback
    else if value == response_code_virtual_host_access_failure
    then some virtual_host_access_failure
    else if value == response_code_unknown_frame
    then some unknown_frame
    else if value == response_code_frame_too_large
    then some frame_too_large
    else if value == response_code_internal_error
    then some internal_error
    else if value == response_code_access_refused
    then some access_refused
    else if value == response_code_precondition_failed
    then some precodition_failed
    else if value == response_code_publisher_does_not_exist
    then some publisher_does_not_exist
    else if value == response_code_offset_not_found
    then some offset_not_found
    else none

-- `code.try_into()?`
unfoldable pub try_into : ℕ → Decode ResponseCode
unfolding from_u16
try_into value = elim (from_u16 value) [
  | none ↦ fail (unknown_response_code value)
  | some c ↦ pure c
]

-- `self.response_code == ResponseCode::Ok`
unfoldable pub is_ok : ResponseCode → Bool
is_ok ok = true
is_ok _ = false

-- `ResponseCode::encoded_size`
abbrev pub code_size : ResponseCode → ℕ
code_size c = 2

module _ ⦃b : ByteOrder⦄ where
  unfoldable pub decode_code : Decode ResponseCode
  unfolding try_into
  decode_code = do code ← read_u16; try_into code

  unfoldable pub encode_code : ResponseCode → Emit
  unfolding to_u16
  encode_code c = encode_u16 (to_u16 c)
