-- ===== src/Records/ReadBack.antt =====
-- Queued samples and receipts are read back as they were stored.
use cajui_firmware.Base.{
  ℕ, ◌+◌, ◌^◌, ◌<◌, ◌≡◌, refl, sym, ap, ◌∙◌, ℤ, pos, negsuc, IsSigned, int8_half, int16_half,
  to_unsigned, to_signed-to_unsigned_int8, to_signed-to_unsigned_int16, Bool, true, List, [], ◌∷◌,
  ◌++◌, some, arith, length, length-append, Bool-cases, inl, inr,
}
use cajui_firmware.Wire.{put, get}
use cajui_firmware.Wire.Numbers.{length-put}
use cajui_firmware.Protocol.{Frame, frame_size, Link, no_link}
use cajui_firmware.Records.{
  queue_kind, queue_version, receipt_kind, receipt_version, min_queue_record, queue_record_capacity,
  min_receipt, receipt_capacity, QueueRecord, ReceiptRecord,
}
use cajui_firmware.Records.Codec.{
  Reader, number, done, put_frame, number-put, number-put_end, number_byte, get_frame-put_frame,
  open_record-finish,
}
use cajui_firmware.Records.Queue.{
  put_link, get_link, read_link, encode_queue, read_queue, decode_queue, read_power, encode_receipt,
  read_receipt, decode_receipt, IsLink, IsQueueRecord, IsReceiptRecord,
}

signed_fits : (a : ℤ) → IsSigned int16_half a → to_unsigned int16_half a < 2 ^ 16
signed_fits (pos n) h = ground arith
signed_fits (negsuc n) h = ground arith

power_byte_fits : (a : ℤ) → IsSigned int8_half a → to_unsigned int8_half a < 2 ^ 8
power_byte_fits (pos n) h = ground arith
power_byte_fits (negsuc n) h = ground arith

get_known_link :
    (a b : ℤ)
    → IsSigned int16_half a
    → IsSigned int16_half b
    → get_link (record {
      rest = 1 ∷ (put (to_unsigned int16_half a) 2 ++ put (to_unsigned int16_half b) 2);
      ok = true;
    })
      ≡ (
        true,
        record { known = true; rssi_dbm = a; snr_tenths_db = b },
        record { rest = []; ok = true },
      )
unfolding get_link
get_known_link a b ha hb =
    let fa = signed_fits a ha in
    let fb = signed_fits b hb in
    rw
      (
        number_byte 1 (put (to_unsigned int16_half a) 2 ++ put (to_unsigned int16_half b) 2) true
            (omega arith),
        number-put (to_unsigned int16_half a) 2 (put (to_unsigned int16_half b) 2) true
            (omega arith) (omega arith),
        number-put_end (to_unsigned int16_half b) 2 true (omega arith) (omega arith),
        to_signed-to_unsigned_int16 a ha,
        to_signed-to_unsigned_int16 b hb,
      )
      refl

put_link_known :
    (l : Link)
    → l.known ≡ true
    → put_link l
      ≡ 1
        ∷ (put (to_unsigned int16_half l.rssi_dbm) 2
            ++ put (to_unsigned int16_half l.snr_tenths_db) 2)
unfolding put_link
put_link_known l e = ground arith

get_no_link :
    get_link (record { rest = put_link no_link; ok = true })
    ≡ (true, no_link, record { rest = []; ok = true })
unfolding get_link put_link number get put
get_no_link = refl

get_link-put_link :
    (l : Link)
    → IsLink l
    → get_link (record { rest = put_link l; ok = true })
      ≡ (true, l, record { rest = []; ok = true })
get_link-put_link l h = elim (Bool-cases l.known) [
  | inl e ↦
      let same : record l { known = true } ≡ l = λ i. record l { known = sym e i } in
      rw (put_link_known l e) (
        get_known_link l.rssi_dbm l.snr_tenths_db h.rssi_fits h.snr_fits
        ∙ ap
            (λ (k : Link).
              let p : Bool × Link × Reader = (true, k, record { rest = []; ok = true }) in p)
            same)
  | inr e ↦ rw (h.unknown e) get_no_link
]

length-put_link : (l : Link) → length (put_link l) ≡ 5
unfolding put_link put
length-put_link l = ground arith

length-put_frame : (f : Frame) → length (put_frame f) ≡ frame_size f + 2
unfolding put_frame put
length-put_frame f = omega arith

queue_body_size :
    (q : QueueRecord)
    → length (
        put q.sequence 8
        ++ (q.slot ∷ (put q.generation 8 ++ (put_frame q.frame ++ put_link q.link))))
      ≡ frame_size q.frame + 24
queue_body_size q = omega (
  arith,
  length-append (put q.sequence 8)
      (q.slot ∷ (put q.generation 8 ++ (put_frame q.frame ++ put_link q.link))),
  length-append (put q.generation 8) (put_frame q.frame ++ put_link q.link),
  length-append (put_frame q.frame) (put_link q.link),
  length-put q.sequence 8,
  length-put q.generation 8,
  length-put_frame q.frame,
  length-put_link q.link,
)

-- A queued sample whose fields fit their widths, with a generation other than zero, a slot below 16, a
-- frame of at most the largest size, and a link that is zeroed where it is not known, is read back as
-- it was written.
pub decode_queue-encode_queue :
    (q : QueueRecord) → IsQueueRecord q → decode_queue (encode_queue q) ≡ some q
unfolding decode_queue encode_queue read_queue read_link done
decode_queue-encode_queue q h =
    let tail = put_frame q.frame ++ put_link q.link in
    let after_slot = put q.generation 8 ++ tail in
    rw
      (
        open_record-finish queue_kind queue_version (put q.sequence 8 ++ (q.slot ∷ after_slot))
            min_queue_record queue_record_capacity queue_version (omega arith) (omega arith)
            (omega arith) (omega arith) (omega (arith, queue_body_size q))
            (omega (arith, queue_body_size q, h.frame_fits)),
        number-put q.sequence 8 (q.slot ∷ after_slot) true (omega arith) h.sequence_fits,
        number_byte q.slot after_slot true (omega (arith, h.slot_fits)),
        number-put q.generation 8 tail true (omega arith) h.generation_fits,
        get_frame-put_frame q.frame (put_link q.link) h.frame_fits,
        get_link-put_link q.link h.link_fits,
      )
      (ground (arith, h.has_generation, h.slot_fits))

receipt_body_size :
    (p : ReceiptRecord)
    → length (
        put p.generation 8
        ++ (put p.receipt.counter 8
            ++ (put p.through 8
                ++ (put_frame p.receipt.last ++ (to_unsigned int8_half p.receipt.ack_power ∷ [])))))
      ≡ frame_size p.receipt.last + 27
receipt_body_size p =
    let power : List ℕ = to_unsigned int8_half p.receipt.ack_power ∷ [] in
    let tail = put_frame p.receipt.last ++ power in
    omega (
      arith,
      length-append (put p.generation 8) (put p.receipt.counter 8 ++ (put p.through 8 ++ tail)),
      length-append (put p.receipt.counter 8) (put p.through 8 ++ tail),
      length-append (put p.through 8) tail,
      length-append (put_frame p.receipt.last) power,
      length-put p.generation 8,
      length-put p.receipt.counter 8,
      length-put p.through 8,
      length-put_frame p.receipt.last,
    )

-- A receipt whose fields fit their widths, with a generation other than zero, a frame of at most the
-- largest size and no link, is read back as it was written.
pub decode_receipt-encode_receipt :
    (p : ReceiptRecord) → IsReceiptRecord p → decode_receipt (encode_receipt p) ≡ some p
unfolding decode_receipt encode_receipt read_receipt read_power done
decode_receipt-encode_receipt p h =
    let power : List ℕ = to_unsigned int8_half p.receipt.ack_power ∷ [] in
    let tail = put_frame p.receipt.last ++ power in
    rw
      (
        open_record-finish receipt_kind receipt_version
            (put p.generation 8 ++ (put p.receipt.counter 8 ++ (put p.through 8 ++ tail)))
            min_receipt receipt_capacity receipt_version (omega arith) (omega arith) (omega arith)
            (omega arith) (omega (arith, receipt_body_size p))
            (omega (arith, receipt_body_size p, h.frame_fits)),
        number-put p.generation 8 (put p.receipt.counter 8 ++ (put p.through 8 ++ tail)) true
            (omega arith) h.generation_fits,
        number-put p.receipt.counter 8 (put p.through 8 ++ tail) true (omega arith) h.counter_fits,
        number-put p.through 8 tail true (omega arith) h.through_fits,
        get_frame-put_frame p.receipt.last power h.frame_fits,
        number_byte (to_unsigned int8_half p.receipt.ack_power) [] true
            (power_byte_fits p.receipt.ack_power h.power_fits),
        to_signed-to_unsigned_int8 p.receipt.ack_power h.power_fits,
      )
      (ground (arith, h.has_generation, h.no_link_stored))
