-- ===== src/Runtime/Ending.antt =====
-- What a poll keeps: the bound on the attempts, and the latch of a radio that may not have stopped.
use cajui_firmware.Base.{ℕ, ◌≤◌, ◌≡◌, refl, inl, inr, false, Option, arith, Bool-cases, leb}
use cajui_firmware.Protocol.{Result, Frame}
use cajui_firmware.Protocol.Crypto.{Crypto}
use cajui_firmware.Protocol.Delivery.{Sender, max_attempts, next_attempt, acknowledge, abandon}
use cajui_firmware.Runtime.{
  Outside, SendState, Completion, Controller, ChannelStatus, TransmitStatus, ReceiveStatus, elapsed,
  finish, after_draw, wait, backoff, poll_waiting, transmit_next, after_channel, poll_channel,
  after_transmit, poll_transmitting, after_ack, after_receive, poll_awaiting, poll_state, poll,
}
use cajui_firmware.Protocol.Delivery.Attempts.{acknowledge_keeps, next_attempt_cases}

-- Three attempts at most, in the sender and in the report; and a radio once lost stays lost.
pub record Safe (k l : Controller) : Type 0 where
  pub bounded :
      k.sender.attempts ≤ max_attempts
      → k.report.attempts ≤ max_attempts
      → (l.sender.attempts ≤ max_attempts) × (l.report.attempts ≤ max_attempts)
  pub latched : k.radio_available ≡ false → l.radio_available ≡ false

Safe-refl : (k : Controller) → Safe k k
Safe-refl k = record { bounded = λ a b. (a, b); latched = λ h. h }

module _ {W : Type 0} (o : Outside W) where
  finish-Safe :
      (completion : Completion) (k : Controller) (w : W) → Safe k (finish o completion k w).0
  unfolding finish abandon
  finish-Safe completion k w = record { bounded = λ a b. ground arith; latched = λ h. ground arith }

  -- A record that only moves the state, the phase and the wait.
  after_draw-Safe :
      (lo hi : ℕ) (k : Controller) (p : Option ℕ × W) → Safe k (after_draw o lo hi k p).0
  unfolding after_draw
  after_draw-Safe lo hi k (Option.none, w) = finish-Safe Completion.random_error k w
  after_draw-Safe lo hi k (Option.some delay, w) =
      let f = finish-Safe Completion.random_error k w in
      record {
        bounded = λ a b. ground (arith, f.bounded a b);
        latched = λ h. ground (arith, f.latched h);
      }

  wait-Safe : (lo hi : ℕ) (k : Controller) (w : W) → Safe k (wait o lo hi k w).0
  unfolding wait
  wait-Safe lo hi k w =
      let f =
        finish-Safe Completion.radio_error (record k { radio_available = false }) (o.sleep w).1 in
      let d = after_draw-Safe lo hi k (o.between lo hi (o.sleep w).1) in
      record {
        bounded = λ a b. ground (arith, f.bounded a b, d.bounded a b);
        latched = λ h. ground (arith, f.latched refl, d.latched h);
      }

  backoff-Safe : (k : Controller) (w : W) → Safe k (backoff o k w).0
  unfolding backoff
  backoff-Safe k w =
      let p = wait-Safe k.policy.first_backoff_min_ms k.policy.first_backoff_max_ms k w in
      let q = wait-Safe k.policy.second_backoff_min_ms k.policy.second_backoff_max_ms k w in
      record {
        bounded = λ a b. ground (arith, p.bounded a b, q.bounded a b);
        latched = λ h. ground (arith, p.latched h, q.latched h);
      }

  poll_waiting-Safe : (now : ℕ) (k : Controller) (w : W) → Safe k (poll_waiting o now k w).0
  unfolding poll_waiting
  poll_waiting-Safe now k w =
      let f = finish-Safe Completion.radio_error k (o.start_channel_check w).1 in
      record {
        bounded = λ a b. ground (arith, f.bounded a b);
        latched = λ h. ground (arith, f.latched h);
      }

  transmit_next-Safe :
      (now : ℕ) (k : Controller) (p : Option Frame × Sender) (w : W)
      → (k.sender.attempts ≤ max_attempts → p.1.attempts ≤ max_attempts)
      → Safe k (transmit_next o now k p w).0
  unfolding transmit_next
  transmit_next-Safe now k (Option.none, s) w low =
      let f = finish-Safe Completion.radio_error (record k { sender = s }) w in
      record { bounded = λ a b. f.bounded (low a) b; latched = λ h. f.latched h }
  transmit_next-Safe now k (Option.some x, s) w low =
      let f =
        finish-Safe Completion.radio_error (record k { sender = s }) (o.start_transmit x w).1 in
      record {
        bounded = λ a b. ground (arith, f.bounded (low a) b, low a);
        latched = λ h. ground (arith, f.latched h);
      }

  next_attempt_low :
      (s : Sender) → s.attempts ≤ max_attempts → (next_attempt s).1.attempts ≤ max_attempts
  next_attempt_low s h = elim (next_attempt_cases s) [
    | inl e ↦ rw e h
    | inr (e, more) ↦ rw e (omega arith)
  ]

  after_channel-Safe :
      (now : ℕ) (k : Controller) (p : ChannelStatus × W) → Safe k (after_channel o now k p).0
  unfolding after_channel
  after_channel-Safe now k (ChannelStatus.pending, w) = Safe-refl k
  after_channel-Safe now k (ChannelStatus.busy, w) = backoff-Safe k w
  after_channel-Safe now k (ChannelStatus.error, w) = finish-Safe Completion.radio_error k w
  after_channel-Safe now k (ChannelStatus.clear, w) =
      transmit_next-Safe now k (next_attempt k.sender) w (next_attempt_low k.sender)

  poll_channel-Safe : (now : ℕ) (k : Controller) (w : W) → Safe k (poll_channel o now k w).0
  unfolding poll_channel
  poll_channel-Safe now k w =
      elim (Bool-cases (leb k.policy.channel_timeout_ms (elapsed now k.phase_start))) [
        | inl e ↦ rw e (finish-Safe Completion.radio_timeout k w)
        | inr e ↦ rw e (after_channel-Safe now k (o.channel_status w))
      ]

  after_transmit-Safe :
      (observed : ℕ) (k : Controller) (status : TransmitStatus) (w : W)
      → Safe k (after_transmit o observed k status w).0
  unfolding after_transmit
  after_transmit-Safe observed k TransmitStatus.pending w = Safe-refl k
  after_transmit-Safe observed k TransmitStatus.error w = finish-Safe Completion.radio_error k w
  after_transmit-Safe observed k (TransmitStatus.complete at_ms) w =
      let f = finish-Safe Completion.radio_error k w in
      record {
        bounded = λ a b. ground (arith, f.bounded a b);
        latched = λ h. ground (arith, f.latched h);
      }

  poll_transmitting-Safe :
      (now : ℕ) (k : Controller) (w : W) → Safe k (poll_transmitting o now k w).0
  unfolding poll_transmitting
  poll_transmitting-Safe now k w =
      let p = o.transmit_status w in
      let q = o.now_ms p.1 in
      let f = finish-Safe Completion.radio_timeout k w in
      let g = finish-Safe Completion.deadline k q.1 in
      let h = finish-Safe Completion.radio_timeout k q.1 in
      let t = after_transmit-Safe q.0 k p.0 q.1 in
      record {
        bounded = λ a b. ground (arith, f.bounded a b, g.bounded a b, h.bounded a b, t.bounded a b);
        latched = λ l. ground (arith, f.latched l, g.latched l, h.latched l, t.latched l);
      }

  after_ack-Safe :
      (k : Controller) (p : Result × Sender) (w : W)
      → p.1.attempts ≡ k.sender.attempts
      → Safe k (after_ack o k p w).0
  unfolding after_ack
  after_ack-Safe k (Result.ok, s) w e =
      let f = finish-Safe Completion.acknowledged (record k { sender = s }) w in
      record { bounded = λ a b. f.bounded (omega arith) b; latched = λ h. f.latched h }
  after_ack-Safe k (_, s) w e = record { bounded = λ a b. (omega arith, b); latched = λ h. h }

  module _ (c : Crypto) where
    after_receive-Safe :
        (observed : ℕ) (k : Controller) (status : ReceiveStatus) (w : W)
        → Safe k (after_receive o c observed k status w).0
    unfolding after_receive
    after_receive-Safe observed k ReceiveStatus.empty w = Safe-refl k
    after_receive-Safe observed k ReceiveStatus.error w = finish-Safe Completion.radio_error k w
    after_receive-Safe observed k (ReceiveStatus.received f) w =
        after_ack-Safe k (acknowledge c f k.sender) w (acknowledge_keeps c f k.sender).1

    poll_awaiting-Safe : (now : ℕ) (k : Controller) (w : W) → Safe k (poll_awaiting o c now k w).0
    unfolding poll_awaiting
    poll_awaiting-Safe now k w =
        let p = o.receive w in
        let q = o.now_ms p.1 in
        let f = finish-Safe Completion.attempts_exhausted k w in
        let g = backoff-Safe k w in
        let h = finish-Safe Completion.deadline k q.1 in
        let t = after_receive-Safe q.0 k p.0 q.1 in
        record {
          bounded =
              λ a b. ground (arith, f.bounded a b, g.bounded a b, h.bounded a b, t.bounded a b);
          latched = λ l. ground (arith, f.latched l, g.latched l, h.latched l, t.latched l);
        }

    poll_state-Safe :
        (st : SendState) (now : ℕ) (k : Controller) (w : W) → Safe k (poll_state o c st now k w).0
    unfolding poll_state
    poll_state-Safe SendState.starting now k w = wait-Safe 0 k.policy.initial_jitter_ms k w
    poll_state-Safe SendState.waiting now k w = poll_waiting-Safe now k w
    poll_state-Safe SendState.checking_channel now k w = poll_channel-Safe now k w
    poll_state-Safe SendState.transmitting now k w = poll_transmitting-Safe now k w
    poll_state-Safe SendState.awaiting_ack now k w = poll_awaiting-Safe now k w
    poll_state-Safe SendState.idle now k w = Safe-refl k
    poll_state-Safe SendState.finished now k w = Safe-refl k

    -- No poll counts a fourth attempt or reports one, and none takes a radio back into use whose
    -- stop was not confirmed.
    pub poll-Safe : (k : Controller) (w : W) → Safe k (poll o c k w).0
    unfolding poll
    poll-Safe k w =
        let now = o.now_ms w in
        let f = finish-Safe Completion.deadline k now.1 in
        let p = poll_state-Safe k.state now.0 k now.1 in
        record {
          bounded = λ a b. ground (arith, f.bounded a b, p.bounded a b);
          latched = λ l. ground (arith, f.latched l, p.latched l);
        }
