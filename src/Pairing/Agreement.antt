-- ===== src/Pairing/Agreement.antt =====
-- The receiver's offer at the node it was made for: both sides hold the same key.
use cajui_firmware.Base.{
  ℕ, ◌≡◌, ◌≢◌, refl, sym, ap, ◌∙◌, false, List, none, some, arith, inl, inr, Option-cases,
}
use cajui_firmware.Protocol.{Frame}
use cajui_firmware.Protocol.Crypto.{Crypto, Laws}
use cajui_firmware.Pairing.{Curve, Entropy, KeyPair, Offer, Candidate, pairing_profile}
use cajui_firmware.Pairing.Frames.{build_offer}
use cajui_firmware.Pairing.Keys.{x25519_shared, derive_binding_key}
use cajui_firmware.Pairing.Host.{Host}
use cajui_firmware.Pairing.Accepting.{make_offer}
use cajui_firmware.Pairing.Client.{Client, foreign_offer, offered_key}
use cajui_firmware.Pairing.Offering.{IsOffer, verify_offer-build_offer}

-- What RFC 7748 says of X25519: the two parties of an exchange compute the same value.
pub record CurveLaws (curve : Curve) : Type 0 where
  pub agrees :
      (a b public_a public_b : List ℕ)
      → curve.montgomery a none ≡ some public_a
      → curve.montgomery b none ≡ some public_b
      → curve.montgomery a (some public_b) ≡ curve.montgomery b (some public_a)

-- A pair of keys as `newKeyPair` makes them.
abbrev pub IsKeyPair : Curve → KeyPair → Type 0
IsKeyPair curve keys = curve.montgomery keys.private_key none ≡ some keys.public_key

-- Both sides derive one key.
derive_agrees :
    (c : Crypto) (curve : Curve)
    → CurveLaws curve
    → (a b : KeyPair) (network receiver node generation : ℕ) → IsKeyPair curve a
    → IsKeyPair curve b
    → derive_binding_key c curve a.private_key b.public_key network receiver node generation
        a.public_key b.public_key
      ≡ derive_binding_key c curve b.private_key a.public_key network receiver node generation
          a.public_key b.public_key
unfolding derive_binding_key x25519_shared
derive_agrees c curve laws a b network receiver node generation ka kb =
    rw (laws.agrees a.private_key b.private_key a.public_key b.public_key ka kb) refl

module _ {R W : Type 0} (c : Crypto) (curve : Curve) (e : Entropy W) where
  abbrev offer_to : Host R → Candidate → KeyPair → ℕ → ℕ → Offer
  offer_to h x keys network generation = record {
    network = network;
    receiver = h.store.device;
    node = x.node;
    nonce = x.nonce;
    generation = generation;
    profile = pairing_profile;
    receiver_public = keys.public_key;
  }

  -- What `make_offer` puts together.
  record IsMade (h : Host R) (x : Candidate) (keys : KeyPair) (network generation : ℕ) (o : Offer)
      (key : List ℕ) (f : Frame) : Type 0 where
    offer_is : o ≡ offer_to h x keys network generation
    derived :
        derive_binding_key c curve keys.private_key x.public_key network h.store.device x.node
          generation x.public_key keys.public_key
        ≡ some key
    built : build_offer c o key ≡ some f

  make_offer-IsMade :
      (h : Host R) (x : Candidate) (keys : KeyPair) (network generation : ℕ) (o : Offer)
      (key : List ℕ) (f : Frame)
      → make_offer c curve e h x keys network generation ≡ some (o, key, f)
      → IsMade h x keys network generation o key f
  unfolding make_offer
  make_offer-IsMade h x keys network generation o key f made =
      elim (Option-cases (
        derive_binding_key c curve keys.private_key x.public_key network h.store.device x.node
          generation x.public_key keys.public_key)) [
            | inl d ↦ absurd (ground (arith, d, made))
            | inr (key', d) ↦
                let o' = offer_to h x keys network generation in
                elim (Option-cases (build_offer c o' key')) [
                  | inl b ↦ absurd (ground (arith, d, b, made))
                  | inr (f', b) ↦
                      let offers : o' ≡ o = ground (arith, d, b, made) in
                      let same_key : key' ≡ key = ground (arith, d, b, made) in
                      let same_frame : f' ≡ f = ground (arith, d, b, made) in
                      record {
                        offer_is = sym offers;
                        derived = d ∙ ap some same_key;
                        built = cc (b, offers, same_key, same_frame);
                      }
                ]
          ]

  fields_agree :
      (h : Host R) (x : Candidate) (keys : KeyPair) (network generation : ℕ) (k : Client R)
      → x.node ≡ k.store.device
      → x.nonce ≡ k.nonce
      → h.store.device ≢ k.store.device
      → foreign_offer k (offer_to h x keys network generation) ≡ false
  unfolding foreign_offer
  fields_agree h x keys network generation k node nonce other = ground (arith, node, nonce, other)

  -- An offer that the receiver makes for the request of a node is taken by that node, whose attempt still
  -- has the request's nonce and keys, and the key it derives is the receiver's: under a cipher and a curve
  -- that keep their laws, where both sides drew their keys from the curve, the offer's fields fit their
  -- widths and the two devices differ.
  pub offered_key-make_offer :
      Laws c
      → CurveLaws curve
      → (h : Host R) (x : Candidate) (keys : KeyPair) (network generation : ℕ) (o : Offer)
        (key : List ℕ) (f : Frame) (k : Client R)
      → make_offer c curve e h x keys network generation ≡ some (o, key, f)
      → IsOffer o
      → IsKeyPair curve keys
      → IsKeyPair curve k.keys
      → x.node ≡ k.store.device
      → x.nonce ≡ k.nonce
      → x.public_key ≡ k.keys.public_key
      → h.store.device ≢ k.store.device
      → offered_key c curve f k ≡ some (o, key)
  unfolding offered_key
  offered_key-make_offer laws curve_laws h x keys network generation o key f k made fits drawn
        drawn_k node nonce public other =
      let m = make_offer-IsMade h x keys network generation o key f made in
      let (parsed, verified) = verify_offer-build_offer c laws o key f fits m.built in
      let ours : foreign_offer k o ≡ false =
        ap (foreign_offer k) m.offer_is
        ∙ fields_agree h x keys network generation k node nonce other in
      let derived : derive_binding_key c curve k.keys.private_key o.receiver_public o.network
            o.receiver k.store.device o.generation k.keys.public_key o.receiver_public
          ≡ some key =
        rw m.offer_is (
          derive_agrees c curve curve_laws k.keys keys network h.store.device k.store.device
            generation drawn_k drawn
          ∙ rw (public, node) at m.derived) in
      rw (parsed, offered_key) (rw (ours, derived, verified) refl)
