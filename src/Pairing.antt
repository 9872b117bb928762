-- ===== src/Pairing.antt =====
-- lib/CajuiPairing/src/cajui_pairing.h: the types and the constants of radio pairing.
-- The curve and the entropy source are parameters: X25519 is mbedTLS's and OpenSSL's, and the random
-- bytes come from the board. A frame type is the number of its underlying `uint8_t`.
pub mod Frames
pub mod Keys
pub mod Candidates
pub mod Host
pub mod Accepting
pub mod Client
pub mod Exchange
pub mod Offering
pub mod Pinning
pub mod Attempts
pub mod Agreement
use cajui_firmware.Base.{ℕ, ℤ, ◌+◌, ◌^◌, Bool, true, false, List, [], ◌∷◌, Option, replicate}
use cajui_firmware.Protocol.{Result, Frame, header_size, tag_size}

abbrev pub x25519_size : ℕ
x25519_size = 32

abbrev pub type_request : ℕ
type_request = 3

abbrev pub type_offer : ℕ
type_offer = 4

abbrev pub type_confirm : ℕ
type_confirm = 5

abbrev pub type_done : ℕ
type_done = 6

abbrev pub pairing_profile : ℕ
pairing_profile = 1

abbrev pub max_candidates : ℕ
max_candidates = 4

abbrev pub pairing_window_ms : ℕ
pairing_window_ms = 120000

abbrev pub done_replay_ms : ℕ
done_replay_ms = 15000

abbrev pub max_done_replies : ℕ
max_done_replies = 5

abbrev pub no_x25519_key : List ℕ
no_x25519_key = replicate x25519_size 0

-- `montgomery private peer` is X25519 of the private key and the peer's public key, where the library
-- takes them; without a peer it is the base point's, the public key.
pub record Curve : Type 0 where
  pub montgomery : List ℕ → Option (List ℕ) → Option (List ℕ)

-- `fill size` is that many random bytes, where the source gives them.
pub record Entropy (W : Type 0) : Type 0 where
  pub fill : ℕ → W → (Option (List ℕ) × W)

pub record KeyPair : Type 0 where
  pub private_key : List ℕ
  pub public_key : List ℕ

abbrev pub no_key_pair : KeyPair
no_key_pair = record { private_key = no_x25519_key; public_key = no_x25519_key }

pub record Offer : Type 0 where
  pub network : ℕ
  pub receiver : ℕ
  pub node : ℕ
  pub nonce : ℕ
  pub generation : ℕ
  pub profile : ℕ
  pub receiver_public : List ℕ

abbrev pub no_offer : Offer
no_offer = record {
  network = 0;
  receiver = 0;
  node = 0;
  nonce = 0;
  generation = 0;
  profile = 0;
  receiver_public = no_x25519_key;
}

-- A node that asked to join during the window.
pub record Candidate : Type 0 where
  pub node : ℕ
  pub nonce : ℕ
  pub public_key : List ℕ
  pub rssi : ℤ
  pub seen_at : ℕ
  pub conflict : Bool
  pub joined : Bool

-- `uint32_t` milliseconds since the start of the board.
pub record Clock (W : Type 0) : Type 0 where
  pub now_ms : W → (ℕ × W)
