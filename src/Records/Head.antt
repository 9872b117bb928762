-- ===== src/Records/Head.antt =====
-- records.cpp: the queue head's record.
use cajui_firmware.Base.{
  ℕ, ◌^◌, ◌<◌, ◌≡◌, refl, true, List, ◌∷◌, Option, none, some, arith, if◌then◌else◌,
}
use cajui_firmware.Wire.{put}
use cajui_firmware.Wire.Numbers.{length-put}
use cajui_firmware.Records.{head_kind, head_size, version}
use cajui_firmware.Records.Codec.{
  Reader, number, done, finish, open_record, number-put_end, open_record-finish,
}

unfoldable pub encode_head : ℕ → List ℕ
encode_head sequence = finish (head_kind ∷ version ∷ put sequence 8)

unfoldable pub read_head : Option (ℕ × Reader) → Option ℕ
read_head none = none
read_head (some (found, r)) =
    let (sequence, r') = number 8 r in if done r' then some sequence else none

unfoldable pub decode_head : List ℕ → Option ℕ
unfolding read_head
decode_head input = read_head (open_record input head_size head_size head_kind version)

-- A stored head of 64 bits is read back.
pub decode_head-encode_head :
    (sequence : ℕ) → sequence < 2 ^ 64 → decode_head (encode_head sequence) ≡ some sequence
unfolding decode_head encode_head
decode_head-encode_head sequence h =
    rw
      (
        open_record-finish head_kind version (put sequence 8) head_size head_size version
            (omega arith) (omega arith) (omega arith) (omega arith)
            (omega (arith, length-put sequence 8)) (omega (arith, length-put sequence 8)),
        number-put_end sequence 8 true (omega arith) h,
      )
      (unfold done in refl)
