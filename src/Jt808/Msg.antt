-- ===== src/Jt808/Msg.antt =====
-- internal/protocol/jt808/types.go: the message IDs.
use tallerp_telemetry.Base.{ℕ}

abbrev pub terminal_general_response : ℕ
terminal_general_response = 0x0001

abbrev pub platform_general_response : ℕ
platform_general_response = 0x8001

abbrev pub terminal_heartbeat : ℕ
terminal_heartbeat = 0x0002

abbrev pub terminal_registration : ℕ
terminal_registration = 0x0100

abbrev pub registration_response : ℕ
registration_response = 0x8100

abbrev pub terminal_auth : ℕ
terminal_auth = 0x0102

abbrev pub set_terminal_parameters : ℕ
set_terminal_parameters = 0x8103

abbrev pub query_terminal_parameters : ℕ
query_terminal_parameters = 0x8104

abbrev pub query_parameters_response : ℕ
query_parameters_response = 0x0104

abbrev pub terminal_control : ℕ
terminal_control = 0x8105

abbrev pub query_terminal_properties : ℕ
query_terminal_properties = 0x8107

abbrev pub terminal_properties_resp : ℕ
terminal_properties_resp = 0x0107

abbrev pub location_report : ℕ
location_report = 0x0200
