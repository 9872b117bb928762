-- ===== src/Pairing/Offering.antt =====
-- An offer, built and read back.
use cajui_firmware.Base.{
  ℕ, zero, suc, ◌+◌, ◌^◌, ◌<◌, ◌≡◌, refl, sym, ap, ◌∙◌, true, List, [], ◌∷◌, ◌++◌, some, arith,
  length, take, drop, slice, length-append, take-append, drop-append,
}
use cajui_firmware.Wire.{put, get}
use cajui_firmware.Wire.Numbers.{get-put, length-put}
use cajui_firmware.Protocol.{header_size, tag_size, Frame}
use cajui_firmware.Protocol.Crypto.{Crypto, Laws}
use mathlib.Core.List.{append_assoc}
use cajui_firmware.Pairing.{x25519_size, type_offer, Offer}
use cajui_firmware.Pairing.Frames.{
  offer_payload, offer_size, header, shaped, whole_offer, offer_bytes, offer_of, parse_offer, check,
  sign, build_offer, verify_offer,
}
use cajui_firmware.Pairing.Exchange.{IsSigned, sign-IsSigned}

-- An offer whose fields have the widths of the frame.
pub record IsOffer (o : Offer) : Type 0 where
  pub network_fits : o.network < 2 ^ 64
  pub receiver_fits : o.receiver < 2 ^ 64
  pub node_fits : o.node < 2 ^ 64
  pub nonce_fits : o.nonce < 2 ^ 64
  pub generation_fits : o.generation < 2 ^ 64
  pub profile_fits : o.profile < 2 ^ 16
  pub public_sized : length o.receiver_public ≡ x25519_size

-- The bytes of an offer past its header.
abbrev offer_rest : Offer → List ℕ
offer_rest o = o.receiver_public ++ (put o.receiver 8 ++ (put o.generation 8 ++ put o.profile 2))

drop-drop : (i j k : ℕ) (xs : List ℕ) → k ≡ i + j → drop k xs ≡ drop j (drop i xs)
drop-drop zero j k xs h = ap (λ (n : ℕ). drop n xs) (omega (arith, h))
drop-drop (suc i) j zero xs h = absurd (omega (arith, h))
drop-drop (suc i) zero (suc k) [] h = refl
drop-drop (suc i) (suc j) (suc k) [] h = refl
drop-drop (suc i) j (suc k) (x ∷ xs) h = drop-drop i j k xs (omega (arith, h))

-- The fields past the public key, where `offer_of` reads them.
tail_fields :
    (o : Offer) (more : List ℕ)
    → IsOffer o
    → let p = put o.receiver 8 ++ (put o.generation 8 ++ put o.profile 2) ++ more in
      (get (slice 0 8 p) ≡ o.receiver)
      × (get (slice 8 8 p) ≡ o.generation)
      × (get (slice 16 2 p) ≡ o.profile)
unfolding put
tail_fields o more w = (
  get-put o.receiver 8 (omega (arith, w.receiver_fits)) w.receiver_fits,
  get-put o.generation 8 (omega (arith, w.generation_fits)) w.generation_fits,
  get-put o.profile 2 (omega (arith, w.profile_fits)) (omega (arith, w.profile_fits)),
)

abbrev offer_tail : Offer → List ℕ
offer_tail o = put o.receiver 8 ++ (put o.generation 8 ++ put o.profile 2)

pub length-offer_rest : (o : Offer) → IsOffer o → length (offer_rest o) ≡ offer_payload
length-offer_rest o w = omega (
  arith,
  length-append o.receiver_public (offer_tail o),
  length-append (put o.receiver 8) (put o.generation 8 ++ put o.profile 2),
  length-append (put o.generation 8) (put o.profile 2),
  length-put o.receiver 8,
  length-put o.generation 8,
  length-put o.profile 2,
  w.public_sized,
)

parse_fields :
    (f : Frame) (o : Offer)
    → shaped f type_offer offer_size offer_payload ≡ true
    → offer_of f ≡ o
    → whole_offer o ≡ true
    → parse_offer f ≡ some o
unfolding parse_offer
parse_fields f o shape read whole = rw (shape, read, whole) refl

module _ (c : Crypto) (laws : Laws c) where
  -- An offer that was signed is read with the fields it was built from.
  offer_of-offer_bytes :
      (o : Offer) (key : List ℕ) (f : Frame)
      → IsOffer o
      → IsSigned c laws key type_offer o.network o.node o.nonce offer_payload (offer_rest o) f
      → offer_of f ≡ o
  unfolding offer_of
  offer_of-offer_bytes o key f w z =
      let (output, body) = z.body in
      let flat : drop header_size f ≡ o.receiver_public ++ (offer_tail o ++ output) =
        body ∙ append_assoc o.receiver_public (offer_tail o) output in
      let public : slice header_size x25519_size f ≡ o.receiver_public =
        ap (take x25519_size) flat
        ∙ take-append o.receiver_public (offer_tail o ++ output) x25519_size (sym w.public_sized) in
      let past : drop (header_size + x25519_size) f ≡ offer_tail o ++ output =
        drop-drop header_size x25519_size _ f refl
        ∙ ap (drop x25519_size) flat
        ∙ drop-append o.receiver_public (offer_tail o ++ output) x25519_size (sym w.public_sized) in
      let past8 : drop (header_size + x25519_size + 8) f ≡ drop 8 (offer_tail o ++ output) =
        drop-drop (header_size + x25519_size) 8 _ f refl ∙ ap (drop 8) past in
      let past16 : drop (header_size + x25519_size + 16) f ≡ drop 16 (offer_tail o ++ output) =
        drop-drop (header_size + x25519_size) 16 _ f refl ∙ ap (drop 16) past in
      let (r, g, p) = tail_fields o output w in
      λ i. record {
        network = z.fields.network_read i;
        receiver = (ap (λ (x : List ℕ). get (take 8 x)) past ∙ r) i;
        node = z.fields.node_read i;
        nonce = z.fields.nonce_read i;
        generation = (ap (λ (x : List ℕ). get (take 8 x)) past8 ∙ g) i;
        profile = (ap (λ (x : List ℕ). get (take 2 x)) past16 ∙ p) i;
        receiver_public = public i;
      }

  offer_signed :
      (o : Offer) (key : List ℕ) (f : Frame)
      → build_offer c o key ≡ some f
      → (whole_offer o ≡ true)
        × (sign c key type_offer o.nonce
              (header type_offer o.network o.node o.nonce offer_payload ++ offer_rest o)
            ≡ some f)
  unfolding build_offer offer_bytes
  offer_signed o key f h = (ground arith, ground arith)

  -- An offer that was built is parsed to the same offer, and the key it was built with verifies it.
  pub verify_offer-build_offer :
      (o : Offer) (key : List ℕ) (f : Frame)
      → IsOffer o
      → build_offer c o key ≡ some f
      → (parse_offer f ≡ some o) × (verify_offer c f key ≡ true)
  unfolding verify_offer
  verify_offer-build_offer o key f w h =
      let (whole, signed) = offer_signed o key f h in
      let z =
        sign-IsSigned c laws key type_offer o.network o.node o.nonce offer_payload (offer_rest o) f
          w.network_fits w.node_fits w.nonce_fits (omega arith) signed in
      let read = offer_of-offer_bytes o key f w z in
      let size : length (offer_rest o) ≡ offer_payload = length-offer_rest o w in
      let shape : shaped f type_offer offer_size offer_payload ≡ true = rw size at z.shape in
      let checked : check c key type_offer o.nonce (take (header_size + offer_payload) f)
            (slice (header_size + offer_payload) tag_size f)
          ≡ true =
        rw size at z.checked in
      let parsed : parse_offer f ≡ some o = parse_fields f o shape read whole in
      (parsed, rw (parsed, verify_offer) checked)
