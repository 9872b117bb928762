-- ===== src/Protocol.antt =====
-- lib/CajuiProtocol/src/cajui_protocol.h: the sizes, the messages and the frames of the radio link.
-- A frame is the list of its first `size` bytes, and the readings of a sample are the list of the
-- first `count`: no code reads the arrays past these. The enumerations that come off the wire by a
-- cast (`Type`, `Status`) are the numbers of their underlying `uint8_t`.
pub mod Crypto
pub mod Codec
pub mod Delivery
pub mod Nonces
pub mod Payload
pub mod RoundTrip
use cajui_firmware.Base.{ℕ, ◌+◌, ◌*◌, ℤ, pos, Bool, true, false, List, [], length, replicate}

abbrev pub header_size : ℕ
header_size = 32

abbrev pub tag_size : ℕ
tag_size = 16

abbrev pub nonce_size : ℕ
nonce_size = 12

abbrev pub key_size : ℕ
key_size = 16

abbrev pub max_readings : ℕ
max_readings = 8

abbrev pub data_prefix_size : ℕ
data_prefix_size = 7

abbrev pub reading_size : ℕ
reading_size = 10

abbrev pub min_data_payload : ℕ
min_data_payload = data_prefix_size + reading_size

abbrev pub max_payload : ℕ
max_payload = data_prefix_size + max_readings * reading_size

abbrev pub max_frame : ℕ
max_frame = header_size + max_payload + tag_size

abbrev pub type_data : ℕ
type_data = 1

abbrev pub type_ack : ℕ
type_ack = 2

abbrev pub wire_v1 : ℕ
wire_v1 = 1

abbrev pub wire_v2 : ℕ
wire_v2 = 2

-- The power command that means "keep the current power".
abbrev pub keep_power : ℤ
keep_power = pos 127

abbrev pub first_pairing_type : ℕ
first_pairing_type = 3

abbrev pub last_pairing_type : ℕ
last_pairing_type = 6

abbrev pub status_ok : ℕ
status_ok = 0

abbrev pub status_error : ℕ
status_error = 1

abbrev pub status_skipped : ℕ
status_skipped = 2

pub data Result : Type 0 where
  ok invalid unauthorized crypto_error storage_error full replay conflict duplicate not_found :
      Result

abbrev pub is_ok : Result → Bool
is_ok Result.ok = true
is_ok _ = false

pub record Binding : Type 0 where
  pub network : ℕ
  pub node : ℕ
  pub key : List ℕ
  pub active : Bool

pub record Reading : Type 0 where
  pub sensor : ℕ
  pub metric : ℕ
  pub unit : ℕ
  pub status : ℕ
  pub milli_value : ℤ

pub record Data : Type 0 where
  pub battery_mv : ℕ
  pub next_seconds : ℕ
  pub readings : List Reading

abbrev pub no_data : Data
no_data = record { battery_mv = 0; next_seconds = 0; readings = [] }

abbrev pub Frame : Type 0
Frame = List ℕ

abbrev pub no_frame : Frame
no_frame = []

abbrev pub frame_size : Frame → ℕ
frame_size f = length f

pub record Message : Type 0 where
  pub type : ℕ
  pub version : ℕ
  pub counter : ℕ
  pub sample : Data
  pub data_tag : List ℕ
  pub power_dbm : ℤ

abbrev pub no_tag : List ℕ
no_tag = replicate tag_size 0

-- `Message{}`.
abbrev pub no_message : Message
no_message = record {
  type = type_data;
  version = wire_v1;
  counter = 0;
  sample = no_data;
  data_tag = no_tag;
  power_dbm = keep_power;
}

pub record Link : Type 0 where
  pub known : Bool
  pub rssi_dbm : ℤ
  pub snr_tenths_db : ℤ

abbrev pub no_link : Link
no_link = record { known = false; rssi_dbm = pos 0; snr_tenths_db = pos 0 }

pub record Receipt : Type 0 where
  pub counter : ℕ
  pub last : Frame
  pub link : Link
  pub ack_power : ℤ

abbrev pub no_receipt : Receipt
no_receipt = record { counter = 0; last = no_frame; link = no_link; ack_power = keep_power }
