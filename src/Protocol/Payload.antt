-- ===== src/Protocol/Payload.antt =====
-- The DATA payload: `decode_data` reads back what `encode_data` writes.
use cajui_firmware.Base.{
  ℕ, ◌+◌, ◌*◌, ◌^◌, ◌≤◌, ◌<◌, ◌≡◌, refl, sym, ap, ◌∙◌, ℤ, pos, negsuc, to_signed, to_unsigned,
  IsSigned, true, List, [], ◌∷◌, ◌++◌, some, arith, length, All, length-append, drop-append,
  int32_half, to_signed-to_unsigned_int32,
}
use cajui_firmware.Wire.{put}
use cajui_firmware.Wire.Numbers.{get-put}
use cajui_firmware.Protocol.{Reading, Data, data_prefix_size, reading_size, max_readings}
use cajui_firmware.Protocol.Codec.{
  encode_reading, encode_readings, encode_data, decode_reading, decode_readings, decode_data,
  valid_data, read_data, count_of,
}

-- The fields of a reading lie in the ranges of their C++ types.
pub record IsReading (r : Reading) : Type 0 where
  pub sensor_fits : r.sensor < 2 ^ 16
  pub metric_fits : r.metric < 2 ^ 16
  pub unit_fits : r.unit < 2 ^ 8
  pub status_fits : r.status < 2 ^ 8
  pub value_fits : IsSigned int32_half r.milli_value

pub record IsSample (d : Data) : Type 0 where
  pub battery_fits : d.battery_mv < 2 ^ 16
  pub interval_fits : d.next_seconds < 2 ^ 32
  pub readings_fit : All IsReading d.readings

to_unsigned_fits : (a : ℤ) → IsSigned int32_half a → to_unsigned int32_half a < 2 ^ 32
to_unsigned_fits (pos n) h = ground arith
to_unsigned_fits (negsuc n) h = ground arith

decode_reading-encode_reading :
    (r : Reading) (rest : List ℕ) → IsReading r → decode_reading (encode_reading r ++ rest) ≡ r
unfolding decode_reading encode_reading put
decode_reading-encode_reading r rest h = λ i. record {
  sensor = get-put r.sensor 2 (omega arith) (omega arith) i;
  metric = get-put r.metric 2 (omega arith) (omega arith) i;
  unit = r.unit;
  status = r.status;
  milli_value =
      (ap (to_signed int32_half) (
            get-put (to_unsigned int32_half r.milli_value) 4
              (omega (arith, to_unsigned_fits r.milli_value h.value_fits))
              (omega (arith, to_unsigned_fits r.milli_value h.value_fits)))
          ∙ to_signed-to_unsigned_int32 r.milli_value h.value_fits)
        i;
}

length-encode_reading : (r : Reading) → length (encode_reading r) ≡ reading_size
unfolding encode_reading put
length-encode_reading r = refl

pub length-encode_readings :
    (rs : List Reading) → length (encode_readings rs) ≡ length rs * reading_size
unfolding encode_readings
length-encode_readings [] = refl
length-encode_readings (r ∷ rs) = omega (
  arith,
  length-append (encode_reading r) (encode_readings rs),
  length-encode_reading r,
  length-encode_readings rs,
)

decode_readings-encode_readings :
    (rs : List Reading) → All IsReading rs → decode_readings (length rs) (encode_readings rs) ≡ rs
unfolding decode_readings encode_readings
decode_readings-encode_readings [] h = refl
decode_readings-encode_readings (r ∷ rs) h =
    rw
      (
        decode_reading-encode_reading r (encode_readings rs) h.0,
        drop-append (encode_reading r) (encode_readings rs) reading_size
            (sym (length-encode_reading r)),
        decode_readings-encode_readings rs h.1,
      )
      refl

pub length-encode_data :
    (d : Data) → length (encode_data d) ≡ data_prefix_size + length d.readings * reading_size
unfolding encode_data put
length-encode_data d = omega (arith, length-encode_readings d.readings)

read_data-encode_data : (d : Data) → IsSample d → read_data (encode_data d) ≡ d
unfolding read_data encode_data put
read_data-encode_data d h = λ i. record {
  battery_mv = get-put d.battery_mv 2 (omega arith) (omega arith) i;
  next_seconds = get-put d.next_seconds 4 (omega arith) (omega arith) i;
  readings = decode_readings-encode_readings d.readings h.readings_fit i;
}

count_of-encode_data : (d : Data) → count_of (encode_data d) ≡ length d.readings
unfolding count_of encode_data put
count_of-encode_data d = refl

pub valid_data_count :
    (d : Data)
    → valid_data d ≡ true
    → (length d.readings ≤ max_readings) × (0 < length d.readings) × (0 < d.next_seconds)
unfolding valid_data
valid_data_count d v = ground arith

-- `open` reads a valid sample back from the payload that `seal` writes.
pub decode_data-encode_data :
    (d : Data)
    → IsSample d
    → valid_data d ≡ true
    → decode_data (length (encode_data d)) (encode_data d) ≡ some d
unfolding decode_data
decode_data-encode_data d h v = ground (
  arith,
  read_data-encode_data d h,
  count_of-encode_data d,
  length-encode_data d,
  valid_data_count d v,
)
