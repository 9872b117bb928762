-- ===== src/Protocol/Nonces.antt =====
-- The GCM nonces of the protocol's frames.
use cajui_firmware.Base.{ℕ, ◌^◌, ◌<◌, ◌≡◌, ap, List, drop, get_or, arith}
use cajui_firmware.Wire.Numbers.{put-injective}
use cajui_firmware.Protocol.Codec.{nonce_for}

-- For counters of 64 bits, two frames share a nonce only if they agree in type, version and counter.
-- So DATA and ACK, the two versions, and different counters never meet.
pub nonce_for-injective :
    (type type' version version' counter counter' : ℕ)
    → counter < 2 ^ 64
    → counter' < 2 ^ 64
    → nonce_for type version counter ≡ nonce_for type' version' counter'
    → (type ≡ type') × (version ≡ version') × (counter ≡ counter')
unfolding nonce_for
nonce_for-injective type type' version version' counter counter' h h' e = (
  ap (λ (n : List ℕ). get_or n 2 0) e,
  ap (λ (n : List ℕ). get_or n 3 0) e,
  put-injective counter counter' 8 (omega arith) h (omega arith) h' (ap (drop 4) e),
)
