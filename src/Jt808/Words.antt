-- ===== src/Jt808/Words.antt =====
-- internal/protocol/jt808/control.go and parameters.go: command words and parameter IDs.
use tallerp_telemetry.Base.{ℕ}

abbrev pub control_set_server : ℕ
control_set_server = 0x02

abbrev pub control_shutdown : ℕ
control_shutdown = 0x03

abbrev pub control_reset : ℕ
control_reset = 0x04

abbrev pub control_factory_reset : ℕ
control_factory_reset = 0x05

abbrev pub control_oil_electric_cutoff : ℕ
control_oil_electric_cutoff = 0x64

abbrev pub control_oil_electric_restore : ℕ
control_oil_electric_restore = 0x65

abbrev pub param_main_server_address : ℕ
param_main_server_address = 0x13

abbrev pub param_server_tcp_port : ℕ
param_server_tcp_port = 0x18

abbrev pub param_sleep_report_interval : ℕ
param_sleep_report_interval = 0x27

abbrev pub param_working_report_interval : ℕ
param_working_report_interval = 0x29

abbrev pub param_max_speed_kmh : ℕ
param_max_speed_kmh = 0x55

abbrev pub param_vehicle_mileage : ℕ
param_vehicle_mileage = 0x80
