-- ===== src/Pairing/Accepting.antt =====
-- cajui_pairing.cpp: `PairingHost::accept`, the offer to a listed node.
use cajui_firmware.Base.{ℕ, List, Option, none, some, ◌==◌, if◌then◌else◌}
use cajui_firmware.Protocol.{Result, Frame}
use cajui_firmware.Protocol.Crypto.{Crypto}
use cajui_firmware.Storage.{Store, healthy}
use cajui_firmware.Storage.Enrolling.{free_slots}
use cajui_firmware.Pairing.{Curve, Entropy, KeyPair, Offer, Candidate, pairing_profile}
use cajui_firmware.Pairing.Frames.{build_offer}
use cajui_firmware.Pairing.Candidates.{candidate_of}
use cajui_firmware.Pairing.Keys.{new_key_pair, nonzero_random, derive_binding_key}
use cajui_firmware.Pairing.Host.{HostState, is_closed, Host, drop_offer, poll}

module _ {R : Type 0} where
  module _ {W : Type 0} (c : Crypto) (k : Curve) (e : Entropy W) where
    unfoldable pub network_for : Store R → W → (Option ℕ × W)
    network_for s w =
        if s.registry.network == 0 then nonzero_random e w else (some s.registry.network, w)

    -- The offer, its key and its frame, once the random values are drawn.
    unfoldable pub make_offer :
        Host R → Candidate → KeyPair → ℕ → ℕ → Option (Offer × List ℕ × Frame)
    make_offer h x keys network generation =
        let o : Offer = record {
          network = network;
          receiver = h.store.device;
          node = x.node;
          nonce = x.nonce;
          generation = generation;
          profile = pairing_profile;
          receiver_public = keys.public_key;
        } in
        elim (derive_binding_key c k keys.private_key x.public_key network h.store.device x.node
          generation x.public_key keys.public_key) [
            | none ↦ none
            | some key ↦ elim (build_offer c o key) [ none ↦ none | some f ↦ some (o, key, f) ]
          ]

    unfoldable pub draw_generation :
        Host R → Candidate → KeyPair → (Option ℕ × W) → (Option (Offer × List ℕ × Frame) × W)
    draw_generation h x keys (none, w) = (none, w)
    draw_generation h x keys (some network, w) =
        let (drawn, w') = nonzero_random e w in
        elim drawn [
          | none ↦ (none, w')
          | some generation ↦ (make_offer h x keys network generation, w')
        ]

    unfoldable pub draw_network :
        Host R → Candidate → (Option KeyPair × W) → (Option (Offer × List ℕ × Frame) × W)
    draw_network h x (none, w) = (none, w)
    draw_network h x (some keys, w) = draw_generation h x keys (network_for h.store w)

    -- Replaces any earlier offer; a node that paired before is paired anew.
    unfoldable pub offering : Host R → (Offer × List ℕ × Frame) → Host R
    offering h (o, key, f) =
        let h' = drop_offer h in
        record h' {
          paired_node = if h'.paired_node == o.node then 0 else h'.paired_node;
          offer = o;
          key = key;
          offer_frame = f;
          state = HostState.offered;
        }

    unfoldable pub after_offer :
        Host R → (Option (Offer × List ℕ × Frame) × W) → (Result × Host R × W)
    after_offer h (none, w) = (Result.crypto_error, h, w)
    after_offer h (some made, w) = (Result.ok, offering h made, w)

    unfoldable pub accept_candidate : Candidate → Host R → W → (Result × Host R × W)
    accept_candidate x h w =
        if x.conflict
        then (Result.conflict, h, w)
        else if free_slots h.store == 0
        then ((if healthy h.store then Result.full else Result.storage_error), h, w)
        else after_offer h (draw_network h x (new_key_pair e k w))

    unfoldable pub accept_open : ℕ → Host R → W → (Result × Host R × W)
    accept_open node h w =
        if is_closed h.state
        then (Result.invalid, h, w)
        else elim (candidate_of node h.candidates) [
          | none ↦ (Result.not_found, h, w)
          | some x ↦ accept_candidate x h w
        ]

    -- `accept`, with the reading of the clock in `poll`.
    unfoldable pub accept : ℕ → ℕ → Host R → W → (Result × Host R × W)
    accept at node h w = accept_open node (poll at h) w
