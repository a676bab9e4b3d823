-- ===== src/Protocol.antt =====
-- protocol/src/protocol.rs: command keys, response codes and protocol versions.
use rabbitmq_stream_rust_cli.Prelude.{ℕ}

abbrev pub command_declare_publisher : ℕ
command_declare_publisher = 1

abbrev pub command_publish : ℕ
command_publish = 2

abbrev pub command_publish_confirm : ℕ
command_publish_confirm = 3

abbrev pub command_publish_error : ℕ
command_publish_error = 4

abbrev pub command_query_publisher_sequence : ℕ
command_query_publisher_sequence = 5

abbrev pub command_delete_publisher : ℕ
command_delete_publisher = 6

abbrev pub command_subscribe : ℕ
command_subscribe = 7

abbrev pub command_deliver : ℕ
command_deliver = 8

abbrev pub command_credit : ℕ
command_credit = 9

abbrev pub command_store_offset : ℕ
command_store_offset = 10

abbrev pub command_query_offset : ℕ
command_query_offset = 11

abbrev pub command_unsubscribe : ℕ
command_unsubscribe = 12

abbrev pub command_create_stream : ℕ
command_create_stream = 13

abbrev pub command_delete_stream : ℕ
command_delete_stream = 14

abbrev pub command_metadata : ℕ
command_metadata = 15

abbrev pub command_metadata_update : ℕ
command_metadata_update = 16

abbrev pub command_peer_properties : ℕ
command_peer_properties = 17

abbrev pub command_sasl_handshake : ℕ
command_sasl_handshake = 18

abbrev pub command_sasl_authenticate : ℕ
command_sasl_authenticate = 19

abbrev pub command_tune : ℕ
command_tune = 20

abbrev pub command_open : ℕ
command_open = 21

abbrev pub command_close : ℕ
command_close = 22

abbrev pub command_heartbeat : ℕ
command_heartbeat = 23

abbrev pub command_route : ℕ
command_route = 24

abbrev pub command_partitions : ℕ
command_partitions = 25

abbrev pub command_consumer_update : ℕ
command_consumer_update = 26

abbrev pub command_exchange_command_versions : ℕ
command_exchange_command_versions = 27

abbrev pub command_streams_stats : ℕ
command_streams_stats = 28

abbrev pub command_create_super_stream : ℕ
command_create_super_stream = 29

abbrev pub command_delete_super_stream : ℕ
command_delete_super_stream = 30

abbrev pub command_consumer_update_request : ℕ
command_consumer_update_request = 32794

abbrev pub response_code_ok : ℕ
response_code_ok = 1

abbrev pub response_code_stream_does_not_exist : ℕ
response_code_stream_does_not_exist = 2

abbrev pub response_code_subscription_id_already_exists : ℕ
response_code_subscription_id_already_exists = 3

abbrev pub response_code_subscription_id_does_not_exist : ℕ
response_code_subscription_id_does_not_exist = 4

abbrev pub response_code_stream_already_exists : ℕ
response_code_stream_already_exists = 5

abbrev pub response_code_stream_not_available : ℕ
response_code_stream_not_available = 6

abbrev pub response_code_sasl_mechanism_not_supported : ℕ
response_code_sasl_mechanism_not_supported = 7

abbrev pub response_code_authentication_failure : ℕ
response_code_authentication_failure = 8

abbrev pub response_code_sasl_error : ℕ
response_code_sasl_error = 9

abbrev pub response_code_sasl_challenge : ℕ
response_code_sasl_challenge = 10

abbrev pub response_code_authentication_failure_loopback : ℕ
response_code_authentication_failure_loopback = 11

abbrev pub response_code_virtual_host_access_failure : ℕ
response_code_virtual_host_access_failure = 12

abbrev pub response_code_unknown_frame : ℕ
response_code_unknown_frame = 13

abbrev pub response_code_frame_too_large : ℕ
response_code_frame_too_large = 14

abbrev pub response_code_internal_error : ℕ
response_code_internal_error = 15

abbrev pub response_code_access_refused : ℕ
response_code_access_refused = 16

abbrev pub response_code_precondition_failed : ℕ
response_code_precondition_failed = 17

abbrev pub response_code_publisher_does_not_exist : ℕ
response_code_publisher_does_not_exist = 18

abbrev pub response_code_offset_not_found : ℕ
response_code_offset_not_found = 19

abbrev pub protocol_version : ℕ
protocol_version = 1

abbrev pub protocol_version_2 : ℕ
protocol_version_2 = 2
