-- ===== src/Application/Receiving.antt =====
-- `ReceiverController`: one radio, one store, pairing frames handed to a port.
use cajui_firmware.Base.{
  ℕ, ◌+◌, ◌-◌, ◌%◌, ◌^◌, ℤ, pos, Bool, true, false, not, ◌&&◌, ◌||◌, List, [], ◌∷◌, Option, none,
  some, leb, ◌==◌, if◌then◌else◌,
}
use cajui_firmware.Protocol.{
  Result, Binding, Frame, no_frame, Link, no_link, keep_power, first_pairing_type,
  last_pairing_type,
}
use cajui_firmware.Protocol.Crypto.{Crypto}
use cajui_firmware.Protocol.Codec.{untrusted_type, untrusted_data_node}
use cajui_firmware.Protocol.Delivery
use cajui_firmware.Records.{is_receiver}
use cajui_firmware.Storage.{RecordStore, Store, healthy}
use cajui_firmware.Storage.Enrolling.{bindings}
use cajui_firmware.Storage.Sampling.{journal}
use cajui_firmware.Runtime.{TransmitStatus}
use cajui_firmware.Application.Limiter.{Slot, no_slots, allow}

pub data ReceiverState : Type 0 where
  stopped listening acknowledging failed : ReceiverState

pub data Measured : Type 0 where
  empty : Measured
  received : Frame → Link → Measured
  error : Measured

-- The radio, the clock and the pairing port, over one state of the outside world. The port answers
-- with the reply to send, if any; `none` for all is a controller without a port.
pub record Surroundings (W : Type 0) : Type 0 where
  pub now_ms : W → (ℕ × W)
  pub listen : W → (Bool × W)
  pub sleep : W → (Bool × W)
  pub start_transmit : Frame → W → (Bool × W)
  pub transmit_status : W → (TransmitStatus × W)
  pub receive_measured : W → (Measured × W)
  pub handle_pairing : Frame → ℤ → W → (Option Frame × W)

abbrev pub ack_transmit_timeout_ms : ℕ
ack_transmit_timeout_ms = 3000

pub record Receiver (R : Type 0) : Type 0 where
  pub store : Store R
  pub ack : Frame
  pub state : ReceiverState
  pub result : Result
  pub link : Link
  pub node : ℕ
  pub power : ℤ
  pub answers_data : Bool
  pub started_at : ℕ
  pub duplicates : List Slot

abbrev pub new_receiver : {R : Type 0} → Store R → Receiver R
new_receiver store = record {
  store = store;
  ack = no_frame;
  state = ReceiverState.stopped;
  result = Result.not_found;
  link = no_link;
  node = 0;
  power = keep_power;
  answers_data = false;
  started_at = 0;
  duplicates = no_slots;
}

module _ {R W : Type 0} (o : Surroundings W) where
  unfoldable pub fail : Receiver R → W → (Receiver R × W)
  fail k w = (record k { state = ReceiverState.failed }, (o.sleep w).1)

  unfoldable pub listen_start : Receiver R → W → (Bool × Receiver R × W)
  listen_start k w =
      let (listens, w') = o.listen w in
      if listens
      then (true, record k { state = ReceiverState.listening }, w')
      else (let (k', w'') = fail k w' in (false, k', w''))

  unfoldable pub start : Receiver R → W → (Bool × Receiver R × W)
  start k w = elim k.state [
    | ReceiverState.stopped ↦
        if not (healthy k.store) || not (is_receiver k.store.role)
        then (let (k', w') = fail k w in (false, k', w'))
        else listen_start k w
    | _ ↦ (false, k, w)
  ]

  -- The end of both paths: the ACK in `k.ack` goes on the air.
  unfoldable pub transmit_ack : Receiver R → W → (Receiver R × W)
  transmit_ack k w =
      let (now, w1) = o.now_ms w in
      let (sending, w2) = o.start_transmit k.ack w1 in
      if not sending
      then fail (record k { started_at = now }) w2
      else (record k { started_at = now; state = ReceiverState.acknowledging }, w2)

  unfoldable pub after_status : Receiver R → (TransmitStatus × W) → (Receiver R × W)
  after_status k (TransmitStatus.complete at_ms, w) =
      (record k { state = ReceiverState.listening }, w)
  after_status k (TransmitStatus.error, w) = fail k w
  after_status k (TransmitStatus.pending, w) =
      let (now, w') = o.now_ms w in
      if leb ack_transmit_timeout_ms ((now + 2 ^ 32 - k.started_at) % 2 ^ 32)
      then fail k w'
      else (k, w')

  unfoldable pub after_pairing : Receiver R → (Option Frame × W) → (Receiver R × W)
  after_pairing k (none, w) = (k, w)
  after_pairing k (some reply, w) = transmit_ack (record k { ack = reply; answers_data = false }) w

  -- After the bindings were tried: a storage error fails the controller, a new sample or an allowed
  -- duplicate is acknowledged, anything else is dropped.
  unfoldable pub after_data : ℕ → Receiver R → W → (Receiver R × W)
  after_data node k w = elim k.result [
    | Result.storage_error ↦ fail k w
    | Result.ok ↦ transmit_ack (record k { node = node }) w
    | Result.duplicate ↦
        let (now, w') = o.now_ms w in
        let (allowed, slots) = allow node now k.duplicates in
        let k' = record k { duplicates = slots } in
        if allowed then transmit_ack (record k' { node = node }) w' else (k', w')
    | _ ↦ (k, w)
  ]

  module _ (records : RecordStore R) (c : Crypto) where
    -- Each binding in turn, until the frame authenticates under one.
    unfoldable pub try_bindings : List Binding → Frame → Link → Receiver R → Receiver R
    try_bindings [] f link k = k
    try_bindings (b ∷ bs) f link k =
        let (r, ack, store) = Delivery.receive c (journal records c) b f link k.power k.store in
        let k' = record k { result = r; ack = ack; store = store } in
        elim r [ Result.crypto_error ↦ try_bindings bs f link k' | _ ↦ k' ]

    unfoldable pub poll_data : Frame → Link → Receiver R → W → (Receiver R × W)
    poll_data f link k w =
        let node = untrusted_data_node f in
        let known = (if node == 0 then [] else bindings node k.store 2) in
        let k' = record k { result = Result.unauthorized; link = link; answers_data = true } in
        after_data node (try_bindings known f link k') w

    unfoldable pub poll_frame : Receiver R → (Measured × W) → (Receiver R × W)
    poll_frame k (Measured.empty, w) = (k, w)
    poll_frame k (Measured.error, w) = fail k w
    poll_frame k (Measured.received f link, w) =
        let type = untrusted_type f in
        if leb first_pairing_type type && leb type last_pairing_type
        then after_pairing k (o.handle_pairing f (if link.known then link.rssi_dbm else pos 0) w)
        else poll_data f link k w

    unfoldable pub poll : Receiver R → W → (Receiver R × W)
    poll k w = elim k.state [
      | ReceiverState.acknowledging ↦ after_status k (o.transmit_status w)
      | ReceiverState.listening ↦ poll_frame k (o.receive_measured w)
      | _ ↦ (k, w)
    ]
