-- ===== src/Wire.antt =====
-- lib/CajuiProtocol/src/cajui_wire.h: big-endian numbers, the GCM nonce and the header's layout.
-- A range of bytes is a list of numbers below 256.
pub mod Numbers
use cajui_firmware.Base.{ℕ, zero, suc, ◌+◌, ◌*◌, ◌/◌, ◌%◌, ◌^◌, List, [], ◌∷◌, ◌++◌}

abbrev pub magic : List ℕ
magic = b'C' ∷ b'J' ∷ b'L' ∷ b'R' ∷ []

abbrev pub version : ℕ
version = 1

abbrev pub version_at : ℕ
version_at = 4

abbrev pub type_at : ℕ
type_at = 5

abbrev pub network_at : ℕ
network_at = 6

abbrev pub node_at : ℕ
node_at = 14

abbrev pub counter_at : ℕ
counter_at = 22

abbrev pub length_at : ℕ
length_at = 30

-- `put(out, value, size)`: round `i` of the loop writes the byte that is `i` from the end.
unfoldable pub put : ℕ → ℕ → List ℕ
put value zero = []
put value (suc size) = put (value / 256) size ++ (value % 256 ∷ [])

-- `value = (value << 8) | in[i]` on a uint64.
unfoldable pub get_from : ℕ → List ℕ → ℕ
get_from value [] = value
get_from value (b ∷ bs) = get_from ((value * 256 + b) % 2 ^ 64) bs

unfoldable pub get : List ℕ → ℕ
unfolding get_from
get bs = get_from 0 bs

-- "CJ", the frame type, a version, then the counter.
unfoldable pub nonce : ℕ → ℕ → List ℕ
nonce type counter = b'C' ∷ b'J' ∷ type ∷ version ∷ put counter 8
