-- ===== src/Runtime/Deadlines.antt =====
-- The states of a delivery cycle: which follow one another, and how it ends in time.
use cajui_firmware.Base.{ℕ, ◌≤◌, ◌≡◌, refl, ◌⊎◌, inr, Bool, true, false, Option, arith}
use cajui_firmware.Protocol.{Result, Frame}
use cajui_firmware.Protocol.Crypto.{Crypto}
use cajui_firmware.Protocol.Delivery.{Sender, next_attempt, acknowledge}
use cajui_firmware.Runtime.{
  Outside, SendState, Completion, Controller, ChannelStatus, TransmitStatus, ReceiveStatus, active,
  elapsed, finish, after_draw, wait, backoff, poll_waiting, transmit_next, after_channel,
  poll_channel, after_transmit, poll_transmitting, after_ack, after_receive, poll_awaiting,
  poll_state, poll,
}

-- The edges of the state machine. Every state of a cycle may stay or end; a frame goes on the air
-- only from the channel check, which only a wait leads to.
abbrev pub follows : SendState → SendState → Bool
follows SendState.idle SendState.idle = true
follows SendState.finished SendState.finished = true
follows SendState.starting SendState.waiting = true
follows SendState.starting SendState.finished = true
follows SendState.waiting SendState.waiting = true
follows SendState.waiting SendState.checking_channel = true
follows SendState.waiting SendState.finished = true
follows SendState.checking_channel SendState.checking_channel = true
follows SendState.checking_channel SendState.waiting = true
follows SendState.checking_channel SendState.transmitting = true
follows SendState.checking_channel SendState.finished = true
follows SendState.transmitting SendState.transmitting = true
follows SendState.transmitting SendState.awaiting_ack = true
follows SendState.transmitting SendState.finished = true
follows SendState.awaiting_ack SendState.awaiting_ack = true
follows SendState.awaiting_ack SendState.waiting = true
follows SendState.awaiting_ack SendState.finished = true
follows _ _ = false

module _ {W : Type 0} (o : Outside W) where
  finish_state :
      (completion : Completion) (k : Controller) (w : W)
      → (finish o completion k w).0.state ≡ SendState.finished
  unfolding finish
  finish_state completion k w = refl

  after_draw_state :
      (lo hi : ℕ) (k : Controller) (p : Option ℕ × W)
      → ((after_draw o lo hi k p).0.state ≡ SendState.waiting)
        ⊎ ((after_draw o lo hi k p).0.state ≡ SendState.finished)
  unfolding after_draw
  after_draw_state lo hi k (Option.none, w) = inr (finish_state Completion.random_error k w)
  after_draw_state lo hi k (Option.some delay, w) =
      ground (arith, finish_state Completion.random_error k w)

  wait_state :
      (lo hi : ℕ) (k : Controller) (w : W)
      → ((wait o lo hi k w).0.state ≡ SendState.waiting)
        ⊎ ((wait o lo hi k w).0.state ≡ SendState.finished)
  unfolding wait
  wait_state lo hi k w = ground (
    arith,
    finish_state Completion.radio_error (record k { radio_available = false }) (o.sleep w).1,
    after_draw_state lo hi k (o.between lo hi (o.sleep w).1),
  )

  backoff_state :
      (k : Controller) (w : W)
      → ((backoff o k w).0.state ≡ SendState.waiting)
        ⊎ ((backoff o k w).0.state ≡ SendState.finished)
  unfolding backoff
  backoff_state k w = ground (
    arith,
    wait_state k.policy.first_backoff_min_ms k.policy.first_backoff_max_ms k w,
    wait_state k.policy.second_backoff_min_ms k.policy.second_backoff_max_ms k w,
  )

  transmit_next_state :
      (now : ℕ) (k : Controller) (p : Option Frame × Sender) (w : W)
      → ((transmit_next o now k p w).0.state ≡ SendState.transmitting)
        ⊎ ((transmit_next o now k p w).0.state ≡ SendState.finished)
  unfolding transmit_next finish
  transmit_next_state now k (Option.none, s) w = inr refl
  transmit_next_state now k (Option.some f, s) w = ground arith

  after_channel-follows :
      (now : ℕ) (k : Controller) (p : ChannelStatus × W)
      → k.state ≡ SendState.checking_channel
      → follows SendState.checking_channel (after_channel o now k p).0.state ≡ true
  unfolding after_channel
  after_channel-follows now k (ChannelStatus.pending, w) e = rw e
  after_channel-follows now k (ChannelStatus.busy, w) e = ground (arith, backoff_state k w)
  after_channel-follows now k (ChannelStatus.error, w) e =
      rw (finish_state Completion.radio_error k w)
  after_channel-follows now k (ChannelStatus.clear, w) e =
      ground (arith, transmit_next_state now k (next_attempt k.sender) w)

  after_transmit-follows :
      (observed : ℕ) (k : Controller) (status : TransmitStatus) (w : W)
      → k.state ≡ SendState.transmitting
      → follows SendState.transmitting (after_transmit o observed k status w).0.state ≡ true
  unfolding after_transmit
  after_transmit-follows observed k TransmitStatus.pending w e = rw e
  after_transmit-follows observed k TransmitStatus.error w e =
      rw (finish_state Completion.radio_error k w)
  after_transmit-follows observed k (TransmitStatus.complete at_ms) w e =
      ground (arith, finish_state Completion.radio_error k w)

  after_ack-follows :
      (k : Controller) (p : Result × Sender) (w : W)
      → k.state ≡ SendState.awaiting_ack
      → follows SendState.awaiting_ack (after_ack o k p w).0.state ≡ true
  unfolding after_ack
  after_ack-follows k (Result.ok, s) w e =
      rw (finish_state Completion.acknowledged (record k { sender = s }) w)
  after_ack-follows k (_, s) w e = rw e

  module _ (c : Crypto) where
    after_receive-follows :
        (observed : ℕ) (k : Controller) (status : ReceiveStatus) (w : W)
        → k.state ≡ SendState.awaiting_ack
        → follows SendState.awaiting_ack (after_receive o c observed k status w).0.state ≡ true
    unfolding after_receive
    after_receive-follows observed k ReceiveStatus.empty w e = rw e
    after_receive-follows observed k ReceiveStatus.error w e =
        rw (finish_state Completion.radio_error k w)
    after_receive-follows observed k (ReceiveStatus.received f) w e =
        after_ack-follows k (acknowledge c f k.sender) w e

    poll_state-follows :
        (st : SendState) (now : ℕ) (k : Controller) (w : W)
        → k.state ≡ st
        → follows st (poll_state o c st now k w).0.state ≡ true
    unfolding poll_state poll_waiting poll_channel poll_transmitting poll_awaiting
    poll_state-follows SendState.starting now k w e =
        ground (arith, wait_state 0 k.policy.initial_jitter_ms k w)
    poll_state-follows SendState.waiting now k w e =
        ground (arith, finish_state Completion.radio_error k (o.start_channel_check w).1)
    poll_state-follows SendState.checking_channel now k w e = ground (
      arith,
      finish_state Completion.radio_timeout k w,
      after_channel-follows now k (o.channel_status w),
    )
    poll_state-follows SendState.transmitting now k w e =
        let p = o.transmit_status w in
        let q = o.now_ms p.1 in
        ground (
          arith,
          finish_state Completion.radio_timeout k w,
          finish_state Completion.deadline k q.1,
          finish_state Completion.radio_timeout k q.1,
          after_transmit-follows q.0 k p.0 q.1,
        )
    poll_state-follows SendState.awaiting_ack now k w e =
        let p = o.receive w in
        let q = o.now_ms p.1 in
        ground (
          arith,
          finish_state Completion.attempts_exhausted k w,
          backoff_state k w,
          finish_state Completion.deadline k q.1,
          after_receive-follows q.0 k p.0 q.1,
        )
    poll_state-follows SendState.idle now k w e = rw e
    poll_state-follows SendState.finished now k w e = rw e

    finished_follows :
        (k : Controller) → active k ≡ true → follows k.state SendState.finished ≡ true
    finished_follows k h = ground arith

    idle_follows : (k : Controller) → active k ≡ false → follows k.state k.state ≡ true
    idle_follows k h = ground arith

    -- Whatever the clock, the jitter source and the radio answer, a poll moves the controller along
    -- an edge of the state machine; and once the cycle's time is over it ends the cycle, in
    -- whichever state it is, with the report Deadline.
    pub poll-follows :
        (k : Controller) (w : W)
        → (follows k.state (poll o c k w).0.state ≡ true)
          × (active k ≡ true
              → k.policy.cycle_timeout_ms ≤ elapsed (o.now_ms w).0 k.cycle_start
              → ((poll o c k w).0.state ≡ SendState.finished)
                × ((poll o c k w).0.report.completion ≡ Completion.deadline))
    unfolding poll
    poll-follows k w =
        let now = o.now_ms w in
        (
          ground (
            arith,
            idle_follows k,
            finished_follows k,
            finish_state Completion.deadline k now.1,
            poll_state-follows k.state now.0 k now.1 refl,
          ),
          λ running late. unfold finish in ground arith,
        )
