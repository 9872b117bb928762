-- ===== src/Pairing/Client.antt =====
-- cajui_pairing.cpp: `PairingClient`, the node's side of pairing.
use cajui_firmware.Base.{
  ℕ, ◌+◌, ◌%◌, ◌^◌, Bool, true, false, not, ◌&&◌, ◌||◌, List, Option, none, some, ltb, leb, ◌==◌,
  if◌then◌else◌,
}
use cajui_firmware.Protocol.{Result, Frame, no_frame}
use cajui_firmware.Protocol.Crypto.{Crypto}
use cajui_firmware.Protocol.Codec.{untrusted_type}
use cajui_firmware.Records.{is_receiver, no_key}
use cajui_firmware.Storage.{RecordStore, Store, healthy}
use cajui_firmware.Storage.Entries.{Credential}
use cajui_firmware.Storage.Enrolling.{free_slots, activate, revoke}
use cajui_firmware.Runtime.{Outside, ChannelStatus, TransmitStatus, ReceiveStatus, elapsed}
use cajui_firmware.Pairing.{
  Curve, Entropy, KeyPair, no_key_pair, Offer, type_offer, type_confirm, type_done, pairing_profile,
  pairing_window_ms,
}
use cajui_firmware.Pairing.Frames.{
  build_request, parse_offer, verify_offer, build_tagged, verify_tagged,
}
use cajui_firmware.Pairing.Keys.{new_key_pair, nonzero_random, derive_binding_key, prepare_fresh}

pub data ClientState : Type 0 where
  idle checking sending listening waiting confirming awaiting_done paired failed : ClientState

abbrev pub is_idle : ClientState → Bool
is_idle ClientState.idle = true
is_idle _ = false

abbrev pub is_listening : ClientState → Bool
is_listening ClientState.listening = true
is_listening _ = false

abbrev pub is_awaiting_done : ClientState → Bool
is_awaiting_done ClientState.awaiting_done = true
is_awaiting_done _ = false

-- The states in which `poll` does nothing.
abbrev pub is_resting : ClientState → Bool
is_resting ClientState.idle = true
is_resting ClientState.paired = true
is_resting ClientState.failed = true
is_resting _ = false

abbrev pub deadline_ms : ℕ
deadline_ms = pairing_window_ms

abbrev pub listen_ms : ℕ
listen_ms = 1500

abbrev pub transmit_timeout_ms : ℕ
transmit_timeout_ms = 3000

abbrev pub retry_min_ms : ℕ
retry_min_ms = 300

abbrev pub retry_max_ms : ℕ
retry_max_ms = 800

abbrev pub confirm_attempts : ℕ
confirm_attempts = 5

-- `offer` is `paired_`.
pub record Client (R : Type 0) : Type 0 where
  pub store : Store R
  pub state : ClientState
  pub after_send : ClientState
  pub keys : KeyPair
  pub nonce : ℕ
  pub started_at : ℕ
  pub phase_at : ℕ
  pub wait_ms : ℕ
  pub confirms : ℕ
  pub offer : Offer
  pub key : List ℕ
  pub outgoing : Frame

module _ {R : Type 0} where
  unfoldable pub fail : Client R → Client R
  fail k = record k { keys = no_key_pair; key = no_key; state = ClientState.failed }

  -- One network and one receiver for a device.
  unfoldable pub compatible : Store R → Offer → Bool
  compatible s o =
      s.registry.network == 0
      || (s.registry.network == o.network && s.registry.receiver == o.receiver)

  -- An offer for this node's attempt, before its tag is known.
  unfoldable pub foreign_offer : Client R → Offer → Bool
  foreign_offer k o =
      not (o.node == k.store.device)
      || not (o.nonce == k.nonce)
      || o.receiver == k.store.device
      || not (o.profile == pairing_profile)

  -- The key of an authentic offer to this node.
  unfoldable pub offered_key : Crypto → Curve → Frame → Client R → Option (Offer × List ℕ)
  offered_key c curve f k = elim (parse_offer f) [
    | none ↦ none
    | some o ↦
        if foreign_offer k o
        then none
        else elim (derive_binding_key c curve k.keys.private_key o.receiver_public o.network
            o.receiver k.store.device o.generation k.keys.public_key o.receiver_public) [
              | none ↦ none
              | some key ↦ if verify_offer c f key then some (o, key) else none
            ]
  ]

  abbrev pub credential_of : Client R → Credential
  credential_of k = record {
    network = k.offer.network;
    receiver = k.offer.receiver;
    node = k.store.device;
    generation = k.offer.generation;
    key = k.key;
    profile = pairing_profile;
  }

  module _ (store : RecordStore R) (c : Crypto) where
    -- A generation that cannot be activated is revoked again.
    unfoldable pub after_activation : Client R → (Result × Store R) → Client R
    after_activation k (Result.ok, s) = record k {
      store = s;
      keys = no_key_pair;
      key = no_key;
      state = ClientState.paired;
    }
    after_activation k (r, s) =
        fail (record k { store = (revoke store c k.store.device k.offer.generation s).1 })

    unfoldable pub after_stored : Client R → (Result × Store R) → Client R
    after_stored k (Result.ok, s) =
        after_activation k (activate store c k.store.device k.offer.generation s)
    after_stored k (r, s) = fail (record k { store = s })

    -- A valid JOIN_DONE: the binding is stored and activated.
    unfoldable pub store_binding : Client R → Client R
    store_binding k = after_stored k (prepare_fresh store c (credential_of k) k.store)

    unfoldable pub is_done : Frame → Client R → Bool
    is_done f k =
        is_awaiting_done k.state
        && untrusted_type f == type_done
        && verify_tagged c f type_done k.offer.network k.store.device k.nonce k.key

  module _ {W : Type 0} (o : Outside W) where
    unfoldable pub transmit : ClientState → Client R → W → (Client R × W)
    transmit next k w =
        let (now, w1) = o.now_ms w in
        let k' : Client R = record k { phase_at = now; after_send = next } in
        let (started, w2) = o.start_channel_check w1 in
        if started then (record k' { state = ClientState.checking }, w2) else (fail k', w2)

    unfoldable pub wait : Client R → W → (Client R × W)
    wait k w =
        let (drawn, w1) = o.between retry_min_ms retry_max_ms w in
        let (now, w2) = o.now_ms w1 in
        (
          record k {
            wait_ms = elim drawn [ none ↦ retry_max_ms | some ms ↦ ms ];
            phase_at = now;
            state = ClientState.waiting;
          },
          w2,
        )

    unfoldable pub send_now : ℕ → Client R → W → (Client R × W)
    send_now now k w =
        let (started, w') = o.start_transmit k.outgoing w in
        if started
        then (record k { phase_at = now; state = ClientState.sending }, w')
        else (fail (record k { phase_at = now }), w')

    unfoldable pub check_channel : ℕ → Client R → (ChannelStatus × W) → (Client R × W)
    check_channel now k (ChannelStatus.error, w) = (fail k, w)
    check_channel now k (ChannelStatus.pending, w) =
        (if leb transmit_timeout_ms (elapsed now k.phase_at) then fail k else k, w)
    check_channel now k (ChannelStatus.busy, w) = wait k w
    check_channel now k (ChannelStatus.clear, w) = send_now now k w

    unfoldable pub check_transmit : ℕ → Client R → TransmitStatus → Client R
    check_transmit now k TransmitStatus.error = fail k
    check_transmit now k TransmitStatus.pending =
        if leb transmit_timeout_ms (elapsed now k.phase_at) then fail k else k
    check_transmit now k (TransmitStatus.complete at) = record k {
      state = k.after_send;
      phase_at = now;
    }

    -- Nothing for this node was heard: repeats the confirmation, or the request after a wait.
    unfoldable pub listen_on : ℕ → Client R → W → (Client R × W)
    listen_on now k w =
        if ltb (elapsed now k.phase_at) listen_ms
        then (k, w)
        else if is_awaiting_done k.state
        then (if leb confirm_attempts k.confirms
            then (fail k, w)
            else transmit ClientState.awaiting_done
                (record k { confirms = (k.confirms + 1) % 2 ^ 8 }) w)
        else wait (record k { after_send = ClientState.listening }) w

    module _ (store : RecordStore R) (c : Crypto) (curve : Curve) where
      unfoldable pub confirm : Offer → List ℕ → Client R → W → (Client R × W)
      confirm offer key k w =
          elim (build_tagged c type_confirm offer.network k.store.device k.nonce key) [
            | none ↦ (fail (record k { outgoing = no_frame }), w)
            | some f ↦
                transmit ClientState.awaiting_done
                  (record k { outgoing = f; offer = offer; key = key; confirms = 1 }) w
          ]

      unfoldable pub handle_offer : Frame → Client R → W → (Client R × W)
      handle_offer f k w = elim (offered_key c curve f k) [
        | none ↦ (k, w)
        | some (offer, key) ↦
            if compatible k.store offer then confirm offer key k w else (fail k, w)
      ]

      unfoldable pub take_frame : ℕ → Client R → (ReceiveStatus × W) → (Client R × W)
      take_frame now k (ReceiveStatus.error, w) = (fail k, w)
      take_frame now k (ReceiveStatus.empty, w) = listen_on now k w
      take_frame now k (ReceiveStatus.received f, w) =
          if is_listening k.state && untrusted_type f == type_offer
          then handle_offer f k w
          else if is_done store c f k
          then (store_binding store c k, w)
          else listen_on now k w

      -- `poll` past the deadline's test, by the state of the client.
      unfoldable pub advance : ℕ → ClientState → Client R → W → (Client R × W)
      advance now ClientState.checking k w = check_channel now k (o.channel_status w)
      advance now ClientState.sending k w =
          let (status, w') = o.transmit_status w in (check_transmit now k status, w')
      advance now ClientState.waiting k w =
          if leb k.wait_ms (elapsed now k.phase_at) then transmit k.after_send k w else (k, w)
      advance now _ k w = take_frame now k (o.receive w)

      unfoldable pub poll : Client R → W → (Client R × W)
      poll k w =
          let (now, w') = o.now_ms w in
          if is_resting k.state
          then (k, w)
          else if leb deadline_ms (elapsed now k.started_at)
          then (fail k, w')
          else advance now k.state k w'

    module _ (e : Entropy W) (curve : Curve) where
      unfoldable pub request : Client R → W → (Client R × W)
      request k w = elim (build_request k.store.device k.nonce k.keys.public_key) [
        | none ↦ (fail (record k { outgoing = no_frame }), w)
        | some f ↦
            let (now, w') = o.now_ms w in
            transmit ClientState.listening (record k { outgoing = f; started_at = now }) w'
      ]

      unfoldable pub after_nonce : Client R → (Option ℕ × W) → (Client R × W)
      after_nonce k (none, w) = (fail (record k { nonce = 0 }), w)
      after_nonce k (some nonce, w) = request (record k { nonce = nonce }) w

      unfoldable pub after_keys : Client R → (Option KeyPair × W) → (Client R × W)
      after_keys k (none, w) = (fail k, w)
      after_keys k (some keys, w) = after_nonce (record k { keys = keys }) (nonzero_random e w)

      -- `start`; its answer is whether the state is not Failed.
      unfoldable pub start : Client R → W → (Client R × W)
      start k w =
          if not (is_idle k.state)
            || not (healthy k.store)
            || is_receiver k.store.role
            || free_slots k.store == 0
          then (fail k, w)
          else after_keys k (new_key_pair e curve w)
