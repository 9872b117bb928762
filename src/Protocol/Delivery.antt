-- ===== src/Protocol/Delivery.antt =====
-- lib/CajuiProtocol/src/delivery.cpp: the receiver's `receive` and the transmitter's `Sender`.
-- The virtual classes `Journal` and `CounterStore` are interfaces over a state `S` of their own.
pub mod Attempts
pub mod Exchange
pub mod Confirmed
use cajui_firmware.Base.{
  ℕ, ◌+◌, ◌-◌, ℤ, Bool, true, false, not, ◌&&◌, ◌||◌, Option, none, some, ltb, leb, ◌==◌,
  if◌then◌else◌, bytes_eq, slice, replicate,
}
use cajui_firmware.Protocol.{
  tag_size, type_data, type_ack, wire_v1, wire_v2, keep_power, Result, is_ok, Binding, Data, Frame,
  no_frame, frame_size, Message, no_message, Link, Receipt,
}
use cajui_firmware.Protocol.Crypto.{Crypto}
use cajui_firmware.Protocol.Codec.{usable, valid_data, same_frame, seal, open_frame}

-- `load` fills in a receipt or fails; `commit` answers with the new state, failures included.
pub record Journal (S : Type 0) : Type 0 where
  pub load : Binding → S → Option Receipt
  pub commit : Binding → ℕ → Receipt → S → (Result × S)

-- `none` is a false result.
pub record CounterStore (S : Type 0) : Type 0 where
  pub reserve : Binding → S → (Option ℕ × S)

-- The last `tag_size` bytes of a frame.
abbrev pub tag_of : Frame → Frame
tag_of f = slice (frame_size f - tag_size) tag_size f

abbrev pub max_attempts : ℕ
max_attempts = 3

-- The command that a new receipt stores.
unfoldable pub command_for : ℕ → ℤ → ℤ
command_for version power = if version == wire_v2 then power else keep_power

unfoldable pub new_receipt : Message → Frame → Link → ℤ → Receipt
unfolding command_for
new_receipt m f link power = record {
  counter = m.counter;
  last = f;
  link = link;
  ack_power = command_for m.version power;
}

-- The ACK of an accepted DATA; a duplicate is answered with the stored command.
unfoldable pub response : Message → Frame → ℤ → Message
unfolding command_for
response m f power = record no_message {
  type = type_ack;
  version = m.version;
  counter = m.counter;
  data_tag = tag_of f;
  power_dbm = command_for m.version power;
}

pub record Sender : Type 0 where
  pub binding : Binding
  pub pending : Frame
  pub counter : ℕ
  pub attempts : ℕ
  pub version : ℕ
  pub power : ℤ
  pub delivered : Bool

-- A new `Sender`.
abbrev pub new_sender : Sender
new_sender = record {
  binding = record { network = 0; node = 0; key = replicate 16 0; active = false };
  pending = no_frame;
  counter = 0;
  attempts = 0;
  version = wire_v1;
  power = keep_power;
  delivered = false;
}

unfoldable pub abandon : Sender → Sender
abandon s = record s {
  power = keep_power;
  pending = no_frame;
  counter = 0;
  attempts = 0;
  delivered = false;
}

-- At most three transmissions; `none` is the null pointer.
unfoldable pub next_attempt : Sender → (Option Frame × Sender)
next_attempt s =
    if frame_size s.pending == 0 || s.delivered || leb max_attempts s.attempts
    then (none, s)
    else (some s.pending, record s { attempts = s.attempts + 1 })

-- An opened frame is the ACK of the pending sample.
unfoldable pub confirms : Sender → Message → Bool
confirms s m =
    m.type == type_ack
    && m.counter == s.counter
    && m.version == s.version
    && bytes_eq m.data_tag (tag_of s.pending)

-- The end of `receive`, after the ACK was sealed.
unfoldable pub answer : {S : Type 0} → Bool → S → (Result × Frame) → (Result × Frame × S)
answer duplicate s (Result.ok, ack) = (if duplicate then Result.duplicate else Result.ok, ack, s)
answer duplicate s (failed, ack) = (failed, ack, s)

-- The transmitter's state after `begin` has sealed a new sample.
unfoldable pub start_sample : Binding → ℕ → ℕ → Sender → (Result × Frame) → (Result × Sender)
start_sample b version counter s (Result.ok, f) = (
  Result.ok,
  record {
    binding = b;
    pending = f;
    counter = counter;
    attempts = 0;
    version = version;
    power = keep_power;
    delivered = false;
  },
)
start_sample b version counter s (failed, f) = (failed, s)

unfoldable pub after_ack : Sender → (Result × Message) → (Result × Sender)
after_ack s (Result.ok, m) =
    if confirms s m
    then (Result.ok, record s { delivered = true; power = m.power_dbm })
    else (Result.invalid, s)
after_ack s (failed, m) = (failed, s)

module _ (c : Crypto) where
  module _ {S : Type 0} (j : Journal S) where
    -- A new sample: commit it, then acknowledge it.
    unfoldable pub accept :
        Binding → Frame → Link → ℤ → Message → Receipt → S → (Result × Frame × S)
    accept b f link power m old s =
        let (saved, s') = j.commit b old.counter (new_receipt m f link power) s in
        if is_ok saved
        then answer false s' (seal c b (response m f power))
        else (saved, no_frame, s')

    -- A repeated sample is acknowledged again, with the command of its receipt.
    unfoldable pub repeat : Binding → Frame → Message → Receipt → S → (Result × Frame × S)
    repeat b f m old s =
        if same_frame old.last f
        then answer true s (seal c b (response m f old.ack_power))
        else (Result.conflict, no_frame, s)

    -- `receive` with the receipt loaded.
    unfoldable pub judge : Binding → Frame → Link → ℤ → Message → Receipt → S → (Result × Frame × S)
    judge b f link power m old s =
        if ltb m.counter old.counter
        then (Result.replay, no_frame, s)
        else if m.counter == old.counter
        then repeat b f m old s
        else accept b f link power m old s

    unfoldable pub after_load :
        Binding → Frame → Link → ℤ → Message → Option Receipt → S → (Result × Frame × S)
    after_load b f link power m none s = (Result.storage_error, no_frame, s)
    after_load b f link power m (some old) s = judge b f link power m old s

    unfoldable pub after_open :
        Binding → Frame → Link → ℤ → (Result × Message) → S → (Result × Frame × S)
    after_open b f link power (Result.ok, m) s =
        if m.type == type_data
        then after_load b f link power m (j.load b s) s
        else (Result.invalid, no_frame, s)
    after_open b f link power (failed, m) s = (failed, no_frame, s)

    -- The result, the ACK and the journal's new state.
    unfoldable pub receive : Binding → Frame → Link → ℤ → S → (Result × Frame × S)
    receive b f link power s = after_open b f link power (open_frame c b f) s

  module _ {S : Type 0} (counters : CounterStore S) where
    -- `begin` with the counter reserved.
    unfoldable pub begin_with : Binding → Data → ℕ → Sender → (Option ℕ × S) → (Result × Sender × S)
    begin_with b sample version s (none, t) = (Result.storage_error, s, t)
    begin_with b sample version s (some counter, t) =
        if counter == 0
        then (Result.storage_error, s, t)
        else let (r, s') = start_sample b version counter s (
            seal c b
              (record no_message { version = version; counter = counter; sample = sample })) in
          (r, s', t)

    unfoldable pub begin : Binding → Data → ℕ → Sender → S → (Result × Sender × S)
    begin b sample version s t =
        if not (frame_size s.pending == 0) && not s.delivered
        then (Result.conflict, s, t)
        else if not (usable b)
        then (Result.unauthorized, s, t)
        else if not (valid_data sample) || (not (version == wire_v1) && not (version == wire_v2))
        then (Result.invalid, s, t)
        else begin_with b sample version s (counters.reserve b t)

  unfoldable pub acknowledge : Frame → Sender → (Result × Sender)
  acknowledge ack s =
      if frame_size s.pending == 0 || s.attempts == 0
      then (Result.invalid, s)
      else after_ack s (open_frame c s.binding ack)
