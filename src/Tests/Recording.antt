-- ===== src/Tests/Recording.antt =====
-- Stored records and their names, at concrete inputs.
use cajui_firmware.Base.{
  drop, ◌≢◌, ℕ, ◌≡◌, refl, ◌≤◌, ◌||◌, negsuc, [], ◌∷◌, some, arith, length, ◌==◌,
}
use cajui_firmware.Protocol.{no_link}
use cajui_firmware.Records.{RetiredList, QueueRecord, ReceiptRecord}
use cajui_firmware.Records.Codec.{crc32}
use cajui_firmware.Records.Head.{encode_head, decode_head, decode_head-encode_head}
use cajui_firmware.Records.Names.{queue_key-injective, receipt_key-injective}
use cajui_firmware.Records.Queue.{
  encode_queue, decode_queue, encode_receipt, decode_receipt, IsQueueRecord, IsReceiptRecord,
}
use cajui_firmware.Records.ReadBack.{decode_queue-encode_queue, decode_receipt-encode_receipt}
use cajui_firmware.Records.Retirement.{
  is_retired, retire, encode_retired, decode_retired, is_retired-retire,
  decode_retired-encode_retired,
}
use cajui_firmware.Tests.World.{strong}

-- The check value of CRC-32.
crc32_check :
    crc32 (b'1' ∷ b'2' ∷ b'3' ∷ b'4' ∷ b'5' ∷ b'6' ∷ b'7' ∷ b'8' ∷ b'9' ∷ []) ≡ 0xcbf4_3926
unfolding crc32
crc32_check = refl

decode_head-encode_head_example : decode_head (encode_head 300) ≡ some 300
decode_head-encode_head_example = decode_head-encode_head 300 (omega arith)

abbrev queued_sample : QueueRecord
queued_sample = record {
  sequence = 300;
  generation = 11;
  slot = 2;
  frame = 1 ∷ 2 ∷ 3 ∷ [];
  link = strong;
}

queued_sample_fits : IsQueueRecord queued_sample
queued_sample_fits = record {
  sequence_fits = omega arith;
  generation_fits = omega arith;
  has_generation = λ (e : 11 ≡ 0). absurd (omega arith);
  slot_fits = omega arith;
  frame_fits = omega arith;
  link_fits = record {
    rssi_fits = omega arith;
    snr_fits = omega arith;
    unknown = λ e. ground arith;
  };
}

decode_queue-encode_queue_example : decode_queue (encode_queue queued_sample) ≡ some queued_sample
decode_queue-encode_queue_example = decode_queue-encode_queue queued_sample queued_sample_fits

abbrev last_receipt : ReceiptRecord
last_receipt = record {
  generation = 11;
  through = 301;
  receipt = record { counter = 7; last = 1 ∷ 2 ∷ 3 ∷ []; link = no_link; ack_power = negsuc 8 };
}

last_receipt_fits : IsReceiptRecord last_receipt
last_receipt_fits = record {
  generation_fits = omega arith;
  has_generation = λ (e : 11 ≡ 0). absurd (omega arith);
  counter_fits = omega arith;
  through_fits = omega arith;
  frame_fits = omega arith;
  power_fits = omega arith;
  no_link_stored = refl;
}

decode_receipt-encode_receipt_example :
    decode_receipt (encode_receipt last_receipt) ≡ some last_receipt
decode_receipt-encode_receipt_example = decode_receipt-encode_receipt last_receipt last_receipt_fits

abbrev retired_twice : RetiredList
retired_twice =
    record { generation = 11; fingerprint = 77 } ∷ record { generation = 12; fingerprint = 78 } ∷ []

decode_retired-encode_retired_example :
    decode_retired (encode_retired retired_twice) ≡ some retired_twice
decode_retired-encode_retired_example = decode_retired-encode_retired retired_twice (omega arith) (
  record {
    generation_fits = omega arith;
    has_generation = λ (e : 11 ≡ 0). absurd (omega arith);
    print_fits = omega arith;
  },
  (
    record {
      generation_fits = omega arith;
      has_generation = λ (e : 12 ≡ 0). absurd (omega arith);
      print_fits = omega arith;
    },
    tt,
  ),
)

is_retired-retire_example :
    (length retired_twice ≢ 64
      → is_retired (retire retired_twice 13 79) 13 5
        ≡ (is_retired retired_twice 13 5 || (13 == 13 || 79 == 5)))
    × (length retired_twice ≡ 64
        → is_retired (retire retired_twice 13 79) 13 5
          ≡ (is_retired (drop 1 retired_twice) 13 5 || (13 == 13 || 79 == 5)))
    × (length (retire retired_twice 13 79) ≤ 64)
is_retired-retire_example = is_retired-retire retired_twice 13 79 13 5 (omega arith)

queue_key-injective_example : ◌≡◌ {A = ℕ} 130 130
queue_key-injective_example =
    queue_key-injective 100 130 130 (omega arith) (omega arith) (omega arith) (omega arith) refl

receipt_key-injective_example : ◌≡◌ {A = ℕ} 3 3
receipt_key-injective_example = receipt_key-injective 3 3 (omega arith) (omega arith) refl
