-- ===== src/Pairing/Frames.antt =====
-- cajui_pairing.cpp: the frames of the exchange.
use cajui_firmware.Base.{
  ℕ, ◌+◌, Bool, true, false, not, ◌&&◌, ◌||◌, List, [], ◌∷◌, ◌++◌, Option, none, some, ◌==◌,
  if◌then◌else◌, bytes_eq, take, slice, length,
}
use cajui_firmware.Wire
use cajui_firmware.Wire.{put, get}
use cajui_firmware.Protocol.{header_size, tag_size, Frame, frame_size}
use cajui_firmware.Protocol.Crypto.{Crypto, encrypt, decrypt}
use cajui_firmware.Protocol.Codec.{byte_at}
use cajui_firmware.Pairing.{x25519_size, type_request, type_offer, type_confirm, type_done, Offer}

abbrev pub request_payload : ℕ
request_payload = x25519_size

abbrev pub offer_payload : ℕ
offer_payload = x25519_size + 8 + 8 + 2

abbrev pub request_size : ℕ
request_size = header_size + request_payload

abbrev pub offer_size : ℕ
offer_size = header_size + offer_payload + tag_size

abbrev pub tagged_size : ℕ
tagged_size = header_size + tag_size

-- `header`, the first bytes of a frame.
unfoldable pub header : ℕ → ℕ → ℕ → ℕ → ℕ → List ℕ
header type network node nonce length =
    Wire.magic
    ++ (Wire.version ∷ type ∷ put network 8 ++ (put node 8 ++ (put nonce 8 ++ put length 2)))

unfoldable pub shaped : Frame → ℕ → ℕ → ℕ → Bool
shaped f type size length =
    frame_size f == size
    && bytes_eq (take 4 f) Wire.magic
    && byte_at f Wire.version_at == Wire.version
    && byte_at f Wire.type_at == type
    && get (slice Wire.length_at 2 f) == length

-- Some byte of a public key is not zero.
unfoldable pub nonzero : List ℕ → Bool
nonzero [] = false
nonzero (b ∷ bs) = not (b == 0) || nonzero bs

abbrev pub network_of : Frame → ℕ
network_of f = get (slice Wire.network_at 8 f)

abbrev pub node_of : Frame → ℕ
node_of f = get (slice Wire.node_at 8 f)

abbrev pub nonce_of : Frame → ℕ
nonce_of f = get (slice Wire.counter_at 8 f)

unfoldable pub build_request : ℕ → ℕ → List ℕ → Option Frame
build_request node nonce node_public =
    if node == 0 || nonce == 0 || not (nonzero node_public)
    then none
    else some (header type_request 0 node nonce request_payload ++ node_public)

-- The node, its nonce and its public key.
unfoldable pub parse_request : Frame → Option (ℕ × ℕ × List ℕ)
parse_request f =
    if not (shaped f type_request request_size request_payload)
    then none
    else let node_public = slice header_size x25519_size f in
      if not (network_of f == 0) || node_of f == 0 || nonce_of f == 0 || not (nonzero node_public)
      then none
      else some (node_of f, nonce_of f, node_public)

unfoldable pub whole_offer : Offer → Bool
whole_offer o =
    not (o.network == 0)
    && not (o.receiver == 0)
    && not (o.node == 0)
    && not (o.nonce == 0)
    && not (o.generation == 0)
    && nonzero o.receiver_public

-- The bytes of an offer that its tag authenticates.
unfoldable pub offer_bytes : Offer → List ℕ
offer_bytes o =
    header type_offer o.network o.node o.nonce offer_payload
    ++ (o.receiver_public ++ (put o.receiver 8 ++ (put o.generation 8 ++ put o.profile 2)))

unfoldable pub offer_of : Frame → Offer
offer_of f = record {
  network = network_of f;
  receiver = get (slice (header_size + x25519_size) 8 f);
  node = node_of f;
  nonce = nonce_of f;
  generation = get (slice (header_size + x25519_size + 8) 8 f);
  profile = get (slice (header_size + x25519_size + 16) 2 f);
  receiver_public = slice header_size x25519_size f;
}

unfoldable pub parse_offer : Frame → Option Offer
parse_offer f =
    if not (shaped f type_offer offer_size offer_payload)
    then none
    else if whole_offer (offer_of f)
    then some (offer_of f)
    else none

-- JOIN_CONFIRM and JOIN_DONE.
abbrev pub is_tagged : ℕ → Bool
is_tagged type = type == type_confirm || type == type_done

module _ (c : Crypto) where
  -- GCM with an empty plaintext: the tag of `authenticated`.
  unfoldable pub tag : List ℕ → ℕ → ℕ → List ℕ → Option (List ℕ)
  tag key type nonce authenticated = elim (encrypt c key (Wire.nonce type nonce) authenticated []) [
    | none ↦ none
    | some (cipher, output) ↦ some output
  ]

  unfoldable pub check : List ℕ → ℕ → ℕ → List ℕ → List ℕ → Bool
  check key type nonce authenticated received =
      elim (decrypt c key (Wire.nonce type nonce) authenticated [] received) [
        | none ↦ false
        | some output ↦ true
      ]

  -- The authenticated bytes with their tag.
  unfoldable pub sign : List ℕ → ℕ → ℕ → List ℕ → Option Frame
  sign key type nonce bytes = elim (tag key type nonce bytes) [
    | none ↦ none
    | some output ↦ some (bytes ++ output)
  ]

  unfoldable pub build_offer : Offer → List ℕ → Option Frame
  build_offer o key = if whole_offer o then sign key type_offer o.nonce (offer_bytes o) else none

  unfoldable pub verify_offer : Frame → List ℕ → Bool
  verify_offer f key = elim (parse_offer f) [
    | none ↦ false
    | some o ↦
        check key type_offer o.nonce (take (header_size + offer_payload) f)
          (slice (header_size + offer_payload) tag_size f)
  ]

  unfoldable pub build_tagged : ℕ → ℕ → ℕ → ℕ → List ℕ → Option Frame
  build_tagged type network node nonce key =
      if not (is_tagged type) || network == 0 || node == 0 || nonce == 0
      then none
      else sign key type nonce (header type network node nonce 0)

  unfoldable pub verify_tagged : Frame → ℕ → ℕ → ℕ → ℕ → List ℕ → Bool
  verify_tagged f type network node nonce key =
      if not (is_tagged type) || not (shaped f type tagged_size 0)
      then false
      else network_of f == network
        && node_of f == node
        && nonce_of f == nonce
        && check key type nonce (take header_size f) (slice header_size tag_size f)
