-- ===== src/Records/Queue.antt =====
-- records.cpp: the records of queued samples and of receipts.
use cajui_firmware.Base.{
  ℕ, ◌^◌, ◌≤◌, ◌<◌, ◌≡◌, ◌≢◌, ℤ, IsSigned, int8_half, int16_half, to_signed, to_unsigned, Bool,
  false, not, ◌&&◌, ◌||◌, List, [], ◌∷◌, ◌++◌, Option, none, some, ltb, leb, ◌==◌, if◌then◌else◌,
}
use cajui_firmware.Wire.{put}
use cajui_firmware.Protocol.{Frame, frame_size, max_frame, Link, no_link, keep_power}
use cajui_firmware.Records.{
  queue_kind, queue_version, receipt_kind, receipt_version, min_queue_record, queue_record_capacity,
  min_receipt, receipt_capacity, binding_capacity, QueueRecord, ReceiptRecord,
}
use cajui_firmware.Records.Codec.{Reader, number, done, finish, open_record, put_frame, get_frame}

-- An unknown link is written as zeros.
unfoldable pub put_link : Link → List ℕ
put_link l =
    if l.known
    then 1
      ∷ (put (to_unsigned int16_half l.rssi_dbm) 2
          ++ put (to_unsigned int16_half l.snr_tenths_db) 2)
    else 0 ∷ (put 0 2 ++ put 0 2)

unfoldable pub encode_queue : QueueRecord → List ℕ
encode_queue q = finish (
    queue_kind
    ∷ queue_version
    ∷ (put q.sequence 8
        ++ (q.slot ∷ (put q.generation 8 ++ (put_frame q.frame ++ put_link q.link)))))

-- Version 2's link: whether it is well formed, the link, and the reader past it.
unfoldable pub get_link : Reader → (Bool × Link × Reader)
get_link r =
    let (known, r1) = number 1 r in
    let (rssi, r2) = number 2 r1 in
    let (snr, r3) = number 2 r2 in
    (
      leb known 1 && (not (known == 0) || (rssi == 0 && snr == 0)),
      record {
        known = known == 1;
        rssi_dbm = to_signed int16_half rssi;
        snr_tenths_db = to_signed int16_half snr;
      },
      r3,
    )

unfoldable pub read_link : ℕ → (Bool × Frame × Reader) → (Bool × Link × Reader)
read_link found (ok, f, r) = if ok && leb queue_version found then get_link r else (ok, no_link, r)

unfoldable pub read_queue : Option (ℕ × Reader) → Option QueueRecord
read_queue none = none
read_queue (some (found, r)) =
    let (sequence, r1) = number 8 r in
    let (slot, r2) = number 1 r1 in
    let (generation, r3) = number 8 r2 in
    let framed = get_frame r3 in
    let (ok, link, r5) = read_link found framed in
    if ok && done r5 && not (generation == 0) && ltb slot binding_capacity
    then some (record {
      sequence = sequence;
      generation = generation;
      slot = slot;
      frame = framed.1;
      link = link;
    })
    else none

unfoldable pub decode_queue : List ℕ → Option QueueRecord
decode_queue input =
    read_queue (open_record input min_queue_record queue_record_capacity queue_kind queue_version)

unfoldable pub encode_receipt : ReceiptRecord → List ℕ
encode_receipt p = finish (
    receipt_kind
    ∷ receipt_version
    ∷ (put p.generation 8
        ++ (put p.receipt.counter 8
            ++ (put p.through 8
                ++ (put_frame p.receipt.last
                    ++ (to_unsigned int8_half p.receipt.ack_power ∷ []))))))

unfoldable pub read_power : ℕ → (Bool × Frame × Reader) → (ℤ × Reader)
read_power found (ok, f, r) =
    if ok && leb receipt_version found
    then (let (power, r') = number 1 r in (to_signed int8_half power, r'))
    else (keep_power, r)

unfoldable pub read_receipt : Option (ℕ × Reader) → Option ReceiptRecord
read_receipt none = none
read_receipt (some (found, r)) =
    let (generation, r1) = number 8 r in
    let (counter, r2) = number 8 r1 in
    let (through, r3) = number 8 r2 in
    let framed = get_frame r3 in
    let (power, r5) = read_power found framed in
    if framed.0 && done r5 && not (generation == 0)
    then some (record {
      generation = generation;
      through = through;
      receipt = record { counter = counter; last = framed.1; link = no_link; ack_power = power };
    })
    else none

unfoldable pub decode_receipt : List ℕ → Option ReceiptRecord
decode_receipt input =
    read_receipt (open_record input min_receipt receipt_capacity receipt_kind receipt_version)

-- A link as the receiver measures it: with no values where it is unknown.
pub record IsLink (l : Link) : Type 0 where
  pub rssi_fits : IsSigned int16_half l.rssi_dbm
  pub snr_fits : IsSigned int16_half l.snr_tenths_db
  pub unknown : l.known ≡ false → l ≡ no_link

pub record IsQueueRecord (q : QueueRecord) : Type 0 where
  pub sequence_fits : q.sequence < 2 ^ 64
  pub generation_fits : q.generation < 2 ^ 64
  pub has_generation : q.generation ≢ 0
  pub slot_fits : q.slot < binding_capacity
  pub frame_fits : frame_size q.frame ≤ max_frame
  pub link_fits : IsLink q.link

-- The link of a receipt is stored with its sample, so a receipt's record holds none.
pub record IsReceiptRecord (p : ReceiptRecord) : Type 0 where
  pub generation_fits : p.generation < 2 ^ 64
  pub has_generation : p.generation ≢ 0
  pub counter_fits : p.receipt.counter < 2 ^ 64
  pub through_fits : p.through < 2 ^ 64
  pub frame_fits : frame_size p.receipt.last ≤ max_frame
  pub power_fits : IsSigned int8_half p.receipt.ack_power
  pub no_link_stored : p.receipt.link ≡ no_link
