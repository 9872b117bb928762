-- ===== src/Protocol/Codec.antt =====
-- lib/CajuiProtocol/src/codec.cpp: validation, `seal`, `open` and the untrusted header readers.
use cajui_firmware.Base.{
  ℕ, zero, suc, ◌+◌, ◌-◌, ◌*◌, ◌%◌, ℤ, pos, negsuc, Bool, true, false, not, ◌&&◌, ◌||◌, List, [],
  ◌∷◌, ◌++◌, Option, none, some, ltb, leb, ◌==◌, if◌then◌else◌, bytes_eq, int_eq, length, take,
  drop, slice, get_or, to_signed, to_unsigned, int8_half, int32_half,
}
use cajui_firmware.Wire
use cajui_firmware.Wire.{put, get}
use cajui_firmware.Protocol.{
  header_size, tag_size, max_readings, data_prefix_size, reading_size, min_data_payload,
  max_payload, max_frame, type_data, type_ack, wire_v1, wire_v2, keep_power, status_ok,
  status_skipped, Result, Binding, Reading, Data, Frame, no_frame, frame_size, Message, no_message,
}
use cajui_firmware.Protocol.Crypto.{Crypto, encrypt, decrypt}

abbrev pub known_version : ℕ → Bool
known_version v = v == wire_v1 || v == wire_v2

abbrev pub ack_power_size : ℕ
ack_power_size = 1

-- The nonce of a frame: its version byte is the frame's version.
unfoldable pub nonce_for : ℕ → ℕ → ℕ → List ℕ
nonce_for type version counter = b'C' ∷ b'J' ∷ type ∷ version ∷ put counter 8

-- The inner loop of `validData`: no earlier reading has the sensor and metric of `r`.
pub unseen : Reading → List Reading → Bool
unseen r [] = true
unseen r (s ∷ earlier) = not (r.sensor == s.sensor && r.metric == s.metric) && unseen r earlier

is_zero : ℤ → Bool
is_zero (pos zero) = true
is_zero (pos (suc n)) = false
is_zero (negsuc n) = false

unfoldable pub valid_reading : Reading → Bool
unfolding is_zero
valid_reading r =
    not (r.sensor == 0)
    && not (r.metric == 0)
    && not (r.unit == 0)
    && leb r.status status_skipped
    && (r.status == status_ok || is_zero r.milli_value)

-- The outer loop of `validData`, with the readings that it has passed.
unfoldable pub valid_readings : List Reading → List Reading → Bool
unfolding unseen valid_reading
valid_readings earlier [] = true
valid_readings earlier (r ∷ rs) =
    valid_reading r && unseen r earlier && valid_readings (r ∷ earlier) rs

unfoldable pub valid_data : Data → Bool
unfolding valid_readings
valid_data d =
    not (length d.readings == 0)
    && leb (length d.readings) max_readings
    && not (d.next_seconds == 0)
    && valid_readings [] d.readings

abbrev pub usable : Binding → Bool
usable b = b.active && not (b.network == 0) && not (b.node == 0)

abbrev pub byte_at : Frame → ℕ → ℕ
byte_at f i = get_or f i 0

-- The type byte of an envelope that has the magic, a known version and enough bytes, or 0.
unfoldable pub untrusted_type : Frame → ℕ
untrusted_type f =
    if ltb (frame_size f) header_size || ltb max_frame (frame_size f)
    then 0
    else let length = get (slice Wire.length_at 2 f) in
      if not (bytes_eq (take 4 f) Wire.magic)
        || not (known_version (byte_at f Wire.version_at))
        || ltb (frame_size f) (header_size + length)
      then 0
      else byte_at f Wire.type_at

unfoldable pub untrusted_data_node : Frame → ℕ
untrusted_data_node f =
    if ltb (frame_size f) (header_size + min_data_payload + tag_size)
      || ltb max_frame (frame_size f)
    then 0
    else let length = get (slice Wire.length_at 2 f) in
      if not (bytes_eq (take 4 f) Wire.magic)
        || not (known_version (byte_at f Wire.version_at))
        || not (byte_at f Wire.type_at == type_data)
        || ltb length min_data_payload
        || not (frame_size f == header_size + length + tag_size)
        || not ((length - data_prefix_size) % reading_size == 0)
      then 0
      else get (slice Wire.node_at 8 f)

unfoldable pub encode_reading : Reading → List ℕ
encode_reading r =
    put r.sensor 2
    ++ (put r.metric 2 ++ (r.unit ∷ r.status ∷ put (to_unsigned int32_half r.milli_value) 4))

unfoldable pub encode_readings : List Reading → List ℕ
unfolding encode_reading
encode_readings [] = []
encode_readings (r ∷ rs) = encode_reading r ++ encode_readings rs

-- The plaintext of DATA: battery, next interval, count, then the readings.
unfoldable pub encode_data : Data → List ℕ
unfolding encode_readings
encode_data d =
    put d.battery_mv 2 ++ (put d.next_seconds 4 ++ (length d.readings ∷ encode_readings d.readings))

-- The plaintext of ACK: the tag of the DATA, and in version 2 the power command.
unfoldable pub encode_ack : Message → List ℕ
encode_ack m =
    if m.version == wire_v2
    then m.data_tag ++ (to_unsigned int8_half m.power_dbm ∷ [])
    else m.data_tag

unfoldable pub plaintext : Message → List ℕ
unfolding encode_data encode_ack
plaintext m = if m.type == type_data then encode_data m.sample else encode_ack m

-- The payload length that the header carries.
unfoldable pub payload_length : Message → ℕ
payload_length m =
    if m.type == type_data
    then data_prefix_size + length m.sample.readings * reading_size
    else if m.version == wire_v2
    then tag_size + ack_power_size
    else tag_size

unfoldable pub header : Binding → Message → List ℕ
header b m =
    Wire.magic
    ++ (m.version ∷ m.type ∷ put b.network 8
        ++ (put b.node 8 ++ (put m.counter 8 ++ put (payload_length m) 2)))

-- The tests of `seal` on the message, `validData` included.
unfoldable pub sealable : Message → Bool
unfolding valid_data
sealable m =
    not (m.counter == 0)
    && (m.type == type_data || m.type == type_ack)
    && known_version m.version
    && not (m.version == wire_v1 && not (int_eq m.power_dbm keep_power))
    && (if m.type == type_data then valid_data m.sample else true)

unfoldable pub decode_reading : List ℕ → Reading
decode_reading p = record {
  sensor = get (slice 0 2 p);
  metric = get (slice 2 2 p);
  unit = byte_at p 4;
  status = byte_at p 5;
  milli_value = to_signed int32_half (get (slice 6 4 p));
}

-- `count` readings of ten bytes each.
unfoldable pub decode_readings : ℕ → List ℕ → List Reading
unfolding decode_reading
decode_readings zero p = []
decode_readings (suc count) p = decode_reading p ∷ decode_readings count (drop reading_size p)

unfoldable pub count_of : List ℕ → ℕ
count_of plain = byte_at plain 6

unfoldable pub read_data : List ℕ → Data
unfolding count_of decode_readings
read_data plain = record {
  battery_mv = get (slice 0 2 plain);
  next_seconds = get (slice 2 4 plain);
  readings = decode_readings (count_of plain) (drop data_prefix_size plain);
}

-- The body of `open` after decryption, for DATA.
unfoldable pub decode_data : ℕ → List ℕ → Option Data
decode_data length plain =
    if ltb max_readings (count_of plain)
      || not (length == data_prefix_size + count_of plain * reading_size)
    then none
    else if valid_data (read_data plain)
    then some (read_data plain)
    else none

-- The header's fields, read before anything is authenticated.
pub record Envelope : Type 0 where
  pub type : ℕ
  pub version : ℕ
  pub counter : ℕ
  pub length : ℕ

abbrev pub no_envelope : Envelope
no_envelope = record { type = 0; version = 0; counter = 0; length = 0 }

unfoldable pub read_envelope : Frame → Envelope
read_envelope f = record {
  type = byte_at f Wire.type_at;
  version = byte_at f Wire.version_at;
  counter = get (slice Wire.counter_at 8 f);
  length = get (slice Wire.length_at 2 f);
}

-- The tests of `open` before decryption: the size, the kind of frame, whom it is from, its layout.
unfoldable pub bad_size : Frame → Bool
bad_size f = ltb (frame_size f) (header_size + tag_size) || ltb max_frame (frame_size f)

unfoldable pub bad_kind : Frame → Bool
bad_kind f =
    not (bytes_eq (take 4 f) Wire.magic)
    || not (known_version (byte_at f Wire.version_at))
    || (not (byte_at f Wire.type_at == type_data) && not (byte_at f Wire.type_at == type_ack))

unfoldable pub foreign : Binding → Frame → Bool
foreign b f =
    not (get (slice Wire.network_at 8 f) == b.network)
    || not (get (slice Wire.node_at 8 f) == b.node)

unfoldable pub bad_layout : Envelope → ℕ → Bool
bad_layout e size =
    let ack_length = (if e.version == wire_v2 then tag_size + ack_power_size else tag_size) in
    e.counter == 0
    || ltb max_payload e.length
    || not (size == header_size + e.length + tag_size)
    || (e.type == type_ack && not (e.length == ack_length))
    || (e.type == type_data
        && (ltb e.length min_data_payload
            || not ((e.length - data_prefix_size) % reading_size == 0)))

-- The part of `open` before decryption, in the order of the source.
unfoldable pub open_envelope : Binding → Frame → (Result × Envelope)
open_envelope b f =
    if not (usable b)
    then (Result.unauthorized, no_envelope)
    else if bad_size f
    then (Result.invalid, no_envelope)
    else if bad_kind f
    then (Result.invalid, no_envelope)
    else if foreign b f
    then (Result.unauthorized, no_envelope)
    else if bad_layout (read_envelope f) (frame_size f)
    then (Result.invalid, no_envelope)
    else (Result.ok, read_envelope f)

-- The message of an authenticated plaintext.
unfoldable pub decode_payload : Envelope → List ℕ → (Result × Message)
decode_payload e plain =
    if e.type == type_ack
    then (
      Result.ok,
      record no_message {
        type = e.type;
        version = e.version;
        counter = e.counter;
        data_tag = take tag_size plain;
        power_dbm =
            if e.version == wire_v2
            then to_signed int8_half (byte_at plain tag_size)
            else keep_power;
      },
    )
    else elim (decode_data e.length plain) [
      | none ↦ (Result.invalid, no_message)
      | some d ↦ (
        Result.ok,
        record no_message { type = e.type; version = e.version; counter = e.counter; sample = d },
      )
    ]

unfoldable pub same_frame : Frame → Frame → Bool
same_frame a b = leb (frame_size a) max_frame && bytes_eq a b

module _ (c : Crypto) where
  unfoldable pub seal : Binding → Message → (Result × Frame)
  seal b m =
      if not (usable b)
      then (Result.unauthorized, no_frame)
      else if not (sealable m)
      then (Result.invalid, no_frame)
      else elim (encrypt c b.key (nonce_for m.type m.version m.counter) (header b m)
          (plaintext m)) [
            | none ↦ (Result.crypto_error, no_frame)
            | some (cipher, tag) ↦ (Result.ok, header b m ++ (cipher ++ tag))
          ]

  -- The part of `open` from the decryption on.
  unfoldable pub open_payload : Binding → Frame → Envelope → (Result × Message)
  open_payload b f e =
      elim (decrypt c b.key (nonce_for e.type e.version e.counter) (take header_size f)
        (slice header_size e.length f) (slice (header_size + e.length) tag_size f)) [
          | none ↦ (Result.crypto_error, no_message)
          | some plain ↦ decode_payload e plain
        ]

  unfoldable pub after_envelope : Binding → Frame → (Result × Envelope) → (Result × Message)
  after_envelope b f (Result.ok, e) = open_payload b f e
  after_envelope b f (r, e) = (r, no_message)

  unfoldable pub open_frame : Binding → Frame → (Result × Message)
  unfolding after_envelope
  open_frame b f = after_envelope b f (open_envelope b f)
