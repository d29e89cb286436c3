-- ===== src/Gt02/Types.antt =====
-- internal/protocol/gt02/types.go: the packets.
use Prim.Native.String.{String}
use tallerp_telemetry.Base.{ℕ, zero, suc, Bool, List, Option, Bytes}
use tallerp_telemetry.Telemetry.{Float64, Time, CellObservation, WifiAccessPoint}

-- A Go `int`, where it may be below zero: `negsuc n` is -(n + 1).
pub data ℤ : Type 0 where
  pos negsuc : ℕ → ℤ

abbrev pub minus : ℕ → ℤ
minus zero = pos 0
minus (suc n) = negsuc n

pub record Gt02LoginPacket : Type 0 where
  pub imei : Bytes
  pub device_type : ℕ
  pub timezone_offset_minutes : ℤ
  pub language : ℕ
  pub serial : ℕ

pub record Gt02LocationPacket : Type 0 where
  pub imei : Bytes
  pub gps_at : Time
  pub latitude : Float64
  pub longitude : Float64
  pub speed_kmh : ℕ
  pub heading : ℕ
  pub satellites : ℕ
  pub gps_located : Bool
  pub realtime_gps : Bool
  pub acc : Bool
  pub mcc : ℕ
  pub mnc : ℕ
  pub lac : ℕ
  pub cell_id : ℕ
  pub data_reporting_mode : ℕ
  pub is_retransmission : Bool
  pub serial : ℕ

pub record PowerStatus : Type 0 where
  pub voltage_level : Option ℕ
  pub battery_percent : Option ℕ
  pub external_voltage : Option Float64

pub record Gt02HeartbeatPacket : Type 0 where
  pub imei : Bytes
  pub terminal_information : ℕ
  pub oil_electric_cut : Bool
  pub gps_located : Bool
  pub alarm_state : ℕ
  pub external_power : Bool
  pub acc : Bool
  pub armed : Bool
  pub power : PowerStatus
  pub gsm_signal : ℕ
  pub language : ℕ
  pub serial : ℕ

pub record Gt02AlarmPacket : Type 0 where
  pub location : Gt02LocationPacket
  pub terminal_information : ℕ
  pub external_power : Bool
  pub power : PowerStatus
  pub gsm_signal : ℕ
  pub alarm_code : ℕ
  pub alarm_type : String
  pub language : ℕ

pub record LbsPacket : Type 0 where
  pub imei : Bytes
  pub gps_at : Time
  pub timing_advance : ℕ
  pub mcc : ℕ
  pub mnc : ℕ
  pub cells : List CellObservation
  pub serial : ℕ

pub record WifiPacket : Type 0 where
  pub imei : Bytes
  pub gps_at : Time
  pub mcc : ℕ
  pub mnc : ℕ
  pub timing_advance : ℕ
  pub cells : List CellObservation
  pub access_points : List WifiAccessPoint
  pub serial : ℕ

pub record GeneralPacket : Type 0 where
  pub imei : Bytes
  pub subtype : ℕ
  pub device_imei : Bytes
  pub imsi : Bytes
  pub iccid : Bytes
  pub data_hex : Bytes
  pub serial : ℕ

pub record CommandResponsePacket : Type 0 where
  pub imei : Bytes
  pub server_flag : ℕ
  pub encoding : String
  pub content : Bytes
  pub serial : ℕ
