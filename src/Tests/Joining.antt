-- ===== src/Tests/Joining.antt =====
-- Pairing at concrete frames, a receiver's list and a node's attempt.
use cajui_firmware.Base.{
  ℕ, ◌≡◌, refl, ◌⊎◌, pos, true, List, [], ◌∷◌, Option, some, arith, replicate,
}
use cajui_firmware.Protocol.{Frame, no_frame}
use cajui_firmware.Records.{Role, no_key}
use cajui_firmware.Pairing.Agreement.{CurveLaws, offered_key-make_offer}
use cajui_firmware.Pairing.{
  Curve, Entropy, KeyPair, no_key_pair, Offer, no_offer, Candidate, type_confirm,
}
use cajui_firmware.Pairing.Frames.{
  build_request, parse_request, build_offer, parse_offer, verify_offer, build_tagged, verify_tagged,
}
use cajui_firmware.Pairing.Exchange.{parse_request-build_request, verify_tagged-build_tagged}
use cajui_firmware.Pairing.Offering.{IsOffer, verify_offer-build_offer}
use cajui_firmware.Pairing.Candidates.{new_candidate}
use cajui_firmware.Pairing.Host.{HostState, Host, no_completed, handle}
use cajui_firmware.Pairing.Accepting.{make_offer}
use cajui_firmware.Pairing.Pinning.{IsKept, handle_pinned}
use cajui_firmware.Pairing.Client.{ClientState, Client, offered_key}
use cajui_firmware.Tests.World.{clear_cipher, clear_cipher-Laws, Memory, memory, key, store_of}

abbrev public_key : List ℕ
public_key = replicate 32 6

abbrev or_empty : Option Frame → Frame
or_empty (some f) = f
or_empty Option.none = no_frame

abbrev request : Frame
request = or_empty (build_request 9 4 public_key)

built : build_request 9 4 public_key ≡ some request
unfolding build_request cajui_firmware.Pairing.Frames.nonzero
built = refl

parse_request-build_request_example : parse_request request ≡ some (9, 4, public_key)
parse_request-build_request_example =
    parse_request-build_request 9 4 public_key request (omega arith) (omega arith) refl built

abbrev offer : Offer
offer = record {
  network = 5;
  receiver = 2;
  node = 9;
  nonce = 4;
  generation = 11;
  profile = 1;
  receiver_public = public_key;
}

offer_fits : IsOffer offer
offer_fits = record {
  network_fits = omega arith;
  receiver_fits = omega arith;
  node_fits = omega arith;
  nonce_fits = omega arith;
  generation_fits = omega arith;
  profile_fits = omega arith;
  public_sized = refl;
}

abbrev offer_frame : Frame
offer_frame = or_empty (build_offer clear_cipher offer key)

offered : build_offer clear_cipher offer key ≡ some offer_frame
unfolding build_offer cajui_firmware.Pairing.Frames.whole_offer
    cajui_firmware.Pairing.Frames.nonzero cajui_firmware.Pairing.Frames.sign
    cajui_firmware.Pairing.Frames.tag cajui_firmware.Protocol.Crypto.encrypt
    cajui_firmware.Pairing.Frames.offer_bytes cajui_firmware.Pairing.Frames.header
    cajui_firmware.Wire.put
offered = refl

verify_offer-build_offer_example :
    (parse_offer offer_frame ≡ some offer) × (verify_offer clear_cipher offer_frame key ≡ true)
verify_offer-build_offer_example =
    verify_offer-build_offer clear_cipher clear_cipher-Laws offer key offer_frame offer_fits offered

abbrev confirmation : Frame
confirmation = or_empty (build_tagged clear_cipher type_confirm 5 9 4 key)

confirmed : build_tagged clear_cipher type_confirm 5 9 4 key ≡ some confirmation
unfolding build_tagged cajui_firmware.Pairing.Frames.sign cajui_firmware.Pairing.Frames.tag
    cajui_firmware.Protocol.Crypto.encrypt cajui_firmware.Pairing.Frames.header
    cajui_firmware.Wire.put
confirmed = refl

verify_tagged-build_tagged_example :
    verify_tagged clear_cipher confirmation type_confirm 5 9 4 key ≡ true
verify_tagged-build_tagged_example =
    verify_tagged-build_tagged clear_cipher clear_cipher-Laws type_confirm 5 9 4 key confirmation
      (omega arith) (omega arith) (omega arith) confirmed

-- A receiver whose list holds node 9 with another key than the request's.
abbrev host : Host Memory
host = record {
  store = store_of Role.receiver 2;
  state = HostState.opened;
  opened_at = 0;
  candidates = new_candidate 9 3 (replicate 32 7) (pos 1) 5 ∷ [];
  offer = no_offer;
  key = no_key;
  offer_frame = no_frame;
  paired_node = 0;
  last = no_completed;
}

abbrev heard_host : Host Memory
heard_host = (handle clear_cipher memory request (pos 2) 10 10 10 host).1

handle_pinned_example : (heard_host.candidates ≡ []) ⊎ IsKept host.candidates heard_host.candidates
handle_pinned_example =
    handle_pinned clear_cipher memory request (pos 2) 10 10 10 host (omega arith)

-- A node that awaits JOIN_DONE.
abbrev client : Client Memory
client = record {
  store = store_of Role.transmitter 9;
  state = ClientState.awaiting_done;
  after_send = ClientState.awaiting_done;
  keys = no_key_pair;
  nonce = 4;
  started_at = 0;
  phase_at = 0;
  wait_ms = 0;
  confirms = 4;
  offer = offer;
  key = key;
  outgoing = confirmation;
}

-- A curve whose every secret is a public key.
abbrev flat_curve : Curve
flat_curve = record { montgomery = λ private peer. some public_key }

flat_curve-CurveLaws : CurveLaws flat_curve
flat_curve-CurveLaws = record { agrees = λ a b public_a public_b h k. refl }

-- A node that listens for an offer to the request above, and the receiver's candidate for it.
abbrev listener : Client Memory
listener = record client {
  state = ClientState.listening;
  keys = record { private_key = replicate 32 8; public_key = public_key };
}

abbrev receiver_keys : KeyPair
receiver_keys = record { private_key = replicate 32 9; public_key = public_key }

abbrev candidate : Candidate
candidate = new_candidate 9 4 public_key (pos 1) 5

-- A source without random bytes.
abbrev no_entropy : Entropy ℕ
no_entropy = record { fill = λ size w. (Option.none, w) }

abbrev derived_key : List ℕ
derived_key = replicate 16 1

abbrev made_frame : Frame
made_frame = or_empty (build_offer clear_cipher offer derived_key)

made_offer :
    make_offer clear_cipher flat_curve no_entropy host candidate receiver_keys 5 11
    ≡ some (offer, derived_key, made_frame)
unfolding make_offer cajui_firmware.Pairing.Keys.derive_binding_key
    cajui_firmware.Pairing.Keys.x25519_shared cajui_firmware.Pairing.Frames.nonzero build_offer
    cajui_firmware.Pairing.Frames.whole_offer cajui_firmware.Pairing.Frames.sign
    cajui_firmware.Pairing.Frames.tag cajui_firmware.Protocol.Crypto.encrypt
    cajui_firmware.Pairing.Frames.offer_bytes cajui_firmware.Pairing.Frames.header
    cajui_firmware.Wire.put
made_offer = refl

offered_key-make_offer_example :
    offered_key clear_cipher flat_curve made_frame listener ≡ some (offer, derived_key)
offered_key-make_offer_example =
    offered_key-make_offer clear_cipher flat_curve no_entropy clear_cipher-Laws flat_curve-CurveLaws
      host candidate receiver_keys 5 11 offer derived_key made_frame listener made_offer offer_fits
      refl refl refl refl refl (λ (e : 2 ≡ 9). ground arith)
