-- ===== src/Records/Codec.antt =====
-- records.cpp and cajui_crc32.cpp: the checksum, the reader and writer, and the envelope of a record.
use Prim.Native.Nat.{bit_xor}
use mathlib.Core.List.{append_assoc, append-nil}
use cajui_firmware.Base.{
  ℕ, suc, zero, ◌+◌, ◌-◌, ◌/◌, ◌%◌, ◌^◌, ◌≤◌, ◌<◌, ◌≡◌, refl, sym, ap, ◌∙◌, Bool, true, false, not,
  ◌&&◌, ◌||◌, List, [], ◌∷◌, ◌++◌, Option, none, some, arith, ltb, leb, ◌==◌, if◌then◌else◌, length,
  take, drop, slice, length-append, take-append, drop-append, take_all,
}
use cajui_firmware.Wire.{put, get}
use cajui_firmware.Wire.Numbers.{get-put, length-put}
use cajui_firmware.Protocol.{Frame, no_frame, frame_size, max_frame}
use cajui_firmware.Records.{crc_size, version}

-- One of the eight rounds for a byte: `(crc >> 1) ^ (Polynomial & (0u - (crc & 1u)))`.
unfoldable pub crc_round : ℕ → ℕ
crc_round crc = if crc % 2 == 0 then crc / 2 else bit_xor (crc / 2) 0xedb8_8320

unfoldable pub crc_rounds : ℕ → ℕ → ℕ
unfolding crc_round
crc_rounds zero crc = crc
crc_rounds (suc n) crc = crc_rounds n (crc_round crc)

unfoldable pub crc_from : ℕ → List ℕ → ℕ
unfolding crc_rounds
crc_from crc [] = crc
crc_from crc (b ∷ bs) = crc_from (crc_rounds 8 (bit_xor crc b)) bs

-- The final `~crc` on 32 bits.
unfoldable pub crc32 : List ℕ → ℕ
unfolding crc_from
crc32 bs = 2 ^ 32 - 1 - crc_from (2 ^ 32 - 1) bs

pub crc32-lt : (bs : List ℕ) → crc32 bs < 2 ^ 32
unfolding crc32
crc32-lt bs = omega arith

-- The bytes between `p` and `end`; a read past the end empties them and clears `ok`.
pub record Reader : Type 0 where
  pub rest : List ℕ
  pub ok : Bool

unfoldable pub number : ℕ → Reader → (ℕ × Reader)
number size r =
    if ltb (length r.rest) size
    then (0, record { rest = []; ok = false })
    else (get (take size r.rest), record r { rest = drop size r.rest })

unfoldable pub block : ℕ → Reader → (List ℕ × Reader)
block size r =
    if ltb (length r.rest) size
    then ([], record { rest = []; ok = false })
    else (take size r.rest, record r { rest = drop size r.rest })

unfoldable pub done : Reader → Bool
done r = r.ok && length r.rest == 0

-- `Writer::finish`: the checksum follows the payload.
unfoldable pub finish : List ℕ → List ℕ
finish payload = payload ++ put (crc32 payload) crc_size

-- The size of a record within its bounds, then its checksum.
unfoldable pub intact : List ℕ → ℕ → ℕ → Bool
intact input minimum maximum =
    not (ltb (length input) minimum || ltb maximum (length input))
    && get (slice (length input - crc_size) crc_size input)
      == crc32 (take (length input - crc_size) input)

-- `open`: the version found and a reader over the body, past kind and version.
unfoldable pub open_record : List ℕ → ℕ → ℕ → ℕ → ℕ → Option (ℕ × Reader)
open_record input minimum maximum kind newest =
    if not (intact input minimum maximum)
    then none
    else let (k, r) =
        number 1 (record { rest = take (length input - crc_size) input; ok = true }) in
      if not (k == kind)
      then none
      else let (found, r') = number 1 r in
        if leb version found && leb found newest then some (found, r') else none

-- A frame in a record: its size, then its bytes.
unfoldable pub put_frame : Frame → List ℕ
put_frame f = put (frame_size f) 2 ++ f

unfoldable pub get_frame : Reader → (Bool × Frame × Reader)
get_frame r =
    let (size, r') = number 2 r in
    if ltb max_frame size
    then (false, no_frame, r')
    else let (bytes, r'') = block size r' in (r''.ok, bytes, r'')

pub number-put :
    (v n : ℕ) (rest : List ℕ) (b : Bool)
    → v < 256 ^ n
    → v < 2 ^ 64
    → number n (record { rest = put v n ++ rest; ok = b }) ≡ (v, record { rest = rest; ok = b })
unfolding number
number-put v n rest b h k =
    rw
      (
        take-append (put v n) rest n (sym (length-put v n)),
        drop-append (put v n) rest n (sym (length-put v n)),
        get-put v n h k,
      )
      (ground (arith, length-append (put v n) rest, length-put v n))

pub number-put_end :
    (v n : ℕ) (b : Bool)
    → v < 256 ^ n
    → v < 2 ^ 64
    → number n (record { rest = put v n; ok = b }) ≡ (v, record { rest = []; ok = b })
number-put_end v n b h k =
    ap (λ (xs : List ℕ). number n (record { rest = xs; ok = b })) (sym (append-nil (put v n)))
    ∙ number-put v n [] b h k

pub block-append :
    (bytes rest : List ℕ) (n : ℕ) (b : Bool)
    → n ≡ length bytes
    → block n (record { rest = bytes ++ rest; ok = b }) ≡ (bytes, record { rest = rest; ok = b })
unfolding block
block-append bytes rest n b h =
    rw (take-append bytes rest n h, drop-append bytes rest n h)
      (ground (arith, length-append bytes rest))

pub get_frame-put_frame :
    (f : Frame) (rest : List ℕ)
    → frame_size f ≤ max_frame
    → get_frame (record { rest = put_frame f ++ rest; ok = true })
      ≡ (true, f, record { rest = rest; ok = true })
unfolding get_frame put_frame
get_frame-put_frame f rest h =
    rw
      (
        append_assoc (put (frame_size f) 2) f rest,
        number-put (frame_size f) 2 (f ++ rest) true (omega arith) (omega arith),
        block-append f rest (frame_size f) true refl,
      )
      (ground arith)

pub number_byte :
    (v : ℕ) (rest : List ℕ) (b : Bool)
    → v < 256
    → number 1 (record { rest = v ∷ rest; ok = b }) ≡ (v, record { rest = rest; ok = b })
unfolding number get
number_byte v rest b h = ground arith

pub length-finish : (payload : List ℕ) → length (finish payload) ≡ length payload + crc_size
unfolding finish
length-finish payload = omega (
  arith,
  length-append payload (put (crc32 payload) crc_size),
  length-put (crc32 payload) crc_size,
)

pub payload-finish :
    (payload : List ℕ) → take (length (finish payload) - crc_size) (finish payload) ≡ payload
unfolding finish
payload-finish payload =
    take-append payload (put (crc32 payload) crc_size) _ (omega (arith, length-finish payload))

trailer-finish :
    (payload : List ℕ)
    → slice (length (finish payload) - crc_size) crc_size (finish payload)
      ≡ put (crc32 payload) crc_size
unfolding finish
trailer-finish payload =
    ap (take crc_size)
      (drop-append payload (put (crc32 payload) crc_size) _ (omega (arith, length-finish payload)))
    ∙ take_all (put (crc32 payload) crc_size) crc_size (sym (length-put (crc32 payload) crc_size))

-- Every finished record within the bounds passes the checksum.
pub intact-finish :
    (payload : List ℕ) (minimum maximum : ℕ)
    → minimum ≤ length payload + crc_size
    → length payload + crc_size ≤ maximum
    → intact (finish payload) minimum maximum ≡ true
unfolding intact
intact-finish payload minimum maximum lo hi =
    rw
      (
        payload-finish payload,
        trailer-finish payload,
        get-put (crc32 payload) crc_size (crc32-lt payload) (omega (arith, crc32-lt payload)),
      )
      (ground (arith, length-finish payload))

-- A finished record opens, and its body is left to read.
pub open_record-finish :
    (kind found : ℕ) (body : List ℕ) (minimum maximum newest : ℕ)
    → kind < 256
    → found < 256
    → version ≤ found
    → found ≤ newest
    → minimum ≤ length body + 6
    → length body + 6 ≤ maximum
    → open_record (finish (kind ∷ found ∷ body)) minimum maximum kind newest
      ≡ some (found, record { rest = body; ok = true })
unfolding open_record
open_record-finish kind found body minimum maximum newest hk hf lo hi small big =
    rw
      (
        intact-finish (kind ∷ found ∷ body) minimum maximum (omega arith) (omega arith),
        payload-finish (kind ∷ found ∷ body),
        number_byte kind (found ∷ body) true hk,
        number_byte found body true hf,
      )
      (ground arith)
