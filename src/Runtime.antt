-- ===== src/Runtime.antt =====
-- lib/CajuiRuntime/src: the controller that schedules the delivery of one sample.
-- The clock, the jitter source and the radio are interfaces over one state `W` of the outside
-- world, which every call may change.
pub mod Deadlines
pub mod Ending
pub mod Airtime
use cajui_firmware.Base.{
  ℕ, ◌+◌, ◌-◌, ◌%◌, ◌^◌, ℤ, Bool, true, false, not, ◌&&◌, ◌||◌, Option, ltb, leb, ◌==◌,
  if◌then◌else◌,
}
use cajui_firmware.Protocol.{Result, is_ok, Binding, Data, Frame, keep_power, wire_v2}
use cajui_firmware.Protocol.Crypto.{Crypto}
use cajui_firmware.Protocol.Delivery.{
  CounterStore, Sender, new_sender, max_attempts, begin, next_attempt, acknowledge, abandon,
}

pub data ChannelStatus : Type 0 where
  pending clear busy error : ChannelStatus

-- `Complete` comes with the time of completion.
pub data TransmitStatus : Type 0 where
  pending : TransmitStatus
  complete : ℕ → TransmitStatus
  error : TransmitStatus

pub data ReceiveStatus : Type 0 where
  empty : ReceiveStatus
  received : Frame → ReceiveStatus
  error : ReceiveStatus

pub record Outside (W : Type 0) : Type 0 where
  pub now_ms : W → (ℕ × W)
  pub between : ℕ → ℕ → W → (Option ℕ × W)
  pub start_channel_check : W → (Bool × W)
  pub channel_status : W → (ChannelStatus × W)
  pub start_transmit : Frame → W → (Bool × W)
  pub transmit_status : W → (TransmitStatus × W)
  pub receive : W → (ReceiveStatus × W)
  pub sleep : W → (Bool × W)

pub record SendPolicy : Type 0 where
  pub initial_jitter_ms : ℕ
  pub ack_timeout_ms : ℕ
  pub first_backoff_min_ms : ℕ
  pub first_backoff_max_ms : ℕ
  pub second_backoff_min_ms : ℕ
  pub second_backoff_max_ms : ℕ
  pub channel_timeout_ms : ℕ
  pub transmit_timeout_ms : ℕ
  pub cycle_timeout_ms : ℕ

-- The defaults of `SendPolicy`.
abbrev pub default_policy : SendPolicy
default_policy = record {
  initial_jitter_ms = 500;
  ack_timeout_ms = 1500;
  first_backoff_min_ms = 100;
  first_backoff_max_ms = 500;
  second_backoff_min_ms = 200;
  second_backoff_max_ms = 1000;
  channel_timeout_ms = 1000;
  transmit_timeout_ms = 3000;
  cycle_timeout_ms = 10000;
}

pub data SendState : Type 0 where
  idle starting waiting checking_channel transmitting awaiting_ack finished : SendState

pub data StartResult : Type 0 where
  started busy invalid_policy protocol_rejected radio_unavailable : StartResult

pub data Completion : Type 0 where
  none acknowledged attempts_exhausted deadline radio_error radio_timeout random_error cancelled :
      Completion

abbrev pub is_acknowledged : Completion → Bool
is_acknowledged Completion.acknowledged = true
is_acknowledged _ = false

pub record SendReport : Type 0 where
  pub completion : Completion
  pub attempts : ℕ
  pub rejected_acks : ℕ
  pub radio_sleeping : Bool
  pub power_command : ℤ

abbrev pub no_report : SendReport
no_report = record {
  completion = Completion.none;
  attempts = 0;
  rejected_acks = 0;
  radio_sleeping = false;
  power_command = keep_power;
}

-- A `SendController` without its references; `policy` is constant.
pub record Controller : Type 0 where
  pub policy : SendPolicy
  pub sender : Sender
  pub state : SendState
  pub report : SendReport
  pub protocol_result : Result
  pub cycle_start : ℕ
  pub phase_start : ℕ
  pub wait_ms : ℕ
  pub radio_available : Bool

abbrev pub new_controller : SendPolicy → Controller
new_controller policy = record {
  policy = policy;
  sender = new_sender;
  state = SendState.idle;
  report = no_report;
  protocol_result = Result.ok;
  cycle_start = 0;
  phase_start = 0;
  wait_ms = 0;
  radio_available = true;
}

abbrev pub active : Controller → Bool
active k = elim k.state [ SendState.idle ↦ false | SendState.finished ↦ false | _ ↦ true ]

-- `uint32_t(a - b)` on a clock that wraps.
abbrev pub elapsed : ℕ → ℕ → ℕ
elapsed a b = (a + 2 ^ 32 - b) % 2 ^ 32

unfoldable pub valid_policy : SendPolicy → Bool
valid_policy p =
    not (p.cycle_timeout_ms == 0)
    && leb p.cycle_timeout_ms (2 ^ 31 - 1)
    && ltb p.initial_jitter_ms p.cycle_timeout_ms
    && not (p.ack_timeout_ms == 0)
    && ltb p.ack_timeout_ms p.cycle_timeout_ms
    && not (p.channel_timeout_ms == 0)
    && ltb p.channel_timeout_ms p.cycle_timeout_ms
    && not (p.transmit_timeout_ms == 0)
    && ltb p.transmit_timeout_ms p.cycle_timeout_ms
    && not (p.first_backoff_min_ms == 0)
    && leb p.first_backoff_min_ms p.first_backoff_max_ms
    && ltb p.first_backoff_max_ms p.cycle_timeout_ms
    && not (p.second_backoff_min_ms == 0)
    && leb p.second_backoff_min_ms p.second_backoff_max_ms
    && ltb p.second_backoff_max_ms p.cycle_timeout_ms

module _ {W : Type 0} (o : Outside W) where
  -- Stops the radio first; a radio that may not have stopped is never used again.
  unfoldable pub finish : Completion → Controller → W → (Controller × W)
  finish completion k w =
      let (asleep, w') = (if k.radio_available then o.sleep w else (false, w)) in
      (
        record k {
          radio_available = asleep;
          report = record k.report {
            radio_sleeping = asleep;
            attempts = k.sender.attempts;
            completion = completion;
            power_command = if is_acknowledged completion then k.sender.power else keep_power;
          };
          state = SendState.finished;
          sender = if asleep then abandon k.sender else k.sender;
        },
        w',
      )

  unfoldable pub after_draw : ℕ → ℕ → Controller → (Option ℕ × W) → (Controller × W)
  after_draw minimum maximum k (Option.none, w) = finish Completion.random_error k w
  after_draw minimum maximum k (Option.some delay, w) =
      if ltb delay minimum || ltb maximum delay
      then finish Completion.random_error k w
      else let (now, w') = o.now_ms w in
        (record k { wait_ms = delay; phase_start = now; state = SendState.waiting }, w')

  unfoldable pub wait : ℕ → ℕ → Controller → W → (Controller × W)
  wait minimum maximum k w =
      let (asleep, w') = o.sleep w in
      if not asleep
      then finish Completion.radio_error (record k { radio_available = false }) w'
      else after_draw minimum maximum k (o.between minimum maximum w')

  unfoldable pub backoff : Controller → W → (Controller × W)
  backoff k w =
      if ltb k.sender.attempts 2
      then wait k.policy.first_backoff_min_ms k.policy.first_backoff_max_ms k w
      else wait k.policy.second_backoff_min_ms k.policy.second_backoff_max_ms k w

  -- The cases of `poll`, each with the time that the poll began.
  unfoldable pub poll_waiting : ℕ → Controller → W → (Controller × W)
  poll_waiting now k w =
      if ltb (elapsed now k.phase_start) k.wait_ms
      then (k, w)
      else let (checking, w') = o.start_channel_check w in
        if not checking
        then finish Completion.radio_error k w'
        else (record k { phase_start = now; state = SendState.checking_channel }, w')

  -- The channel is clear: the next attempt goes on the air.
  unfoldable pub transmit_next : ℕ → Controller → (Option Frame × Sender) → W → (Controller × W)
  transmit_next now k (Option.none, s) w = finish Completion.radio_error (record k { sender = s }) w
  transmit_next now k (Option.some f, s) w =
      let (sending, w') = o.start_transmit f w in
      if not sending
      then finish Completion.radio_error (record k { sender = s }) w'
      else (record k { sender = s; phase_start = now; state = SendState.transmitting }, w')

  unfoldable pub after_channel : ℕ → Controller → (ChannelStatus × W) → (Controller × W)
  after_channel now k (ChannelStatus.pending, w) = (k, w)
  after_channel now k (ChannelStatus.busy, w) = backoff k w
  after_channel now k (ChannelStatus.error, w) = finish Completion.radio_error k w
  after_channel now k (ChannelStatus.clear, w) = transmit_next now k (next_attempt k.sender) w

  unfoldable pub poll_channel : ℕ → Controller → W → (Controller × W)
  poll_channel now k w =
      if leb k.policy.channel_timeout_ms (elapsed now k.phase_start)
      then finish Completion.radio_timeout k w
      else after_channel now k (o.channel_status w)

  -- The deadlines are tested again at the time observed after the radio was asked.
  unfoldable pub after_transmit : ℕ → Controller → TransmitStatus → W → (Controller × W)
  after_transmit observed k TransmitStatus.pending w = (k, w)
  after_transmit observed k TransmitStatus.error w = finish Completion.radio_error k w
  after_transmit observed k (TransmitStatus.complete at_ms) w =
      if ltb (elapsed observed k.phase_start) (elapsed at_ms k.phase_start)
      then finish Completion.radio_error k w
      else (record k { phase_start = at_ms; state = SendState.awaiting_ack }, w)

  unfoldable pub poll_transmitting : ℕ → Controller → W → (Controller × W)
  poll_transmitting now k w =
      if leb k.policy.transmit_timeout_ms (elapsed now k.phase_start)
      then finish Completion.radio_timeout k w
      else let (status, w1) = o.transmit_status w in
        let (observed, w2) = o.now_ms w1 in
        if leb k.policy.cycle_timeout_ms (elapsed observed k.cycle_start)
        then finish Completion.deadline k w2
        else if leb k.policy.transmit_timeout_ms (elapsed observed k.phase_start)
        then finish Completion.radio_timeout k w2
        else after_transmit observed k status w2

  unfoldable pub after_ack : Controller → (Result × Sender) → W → (Controller × W)
  after_ack k (Result.ok, s) w = finish Completion.acknowledged (record k { sender = s }) w
  after_ack k (_, s) w = (
    record k {
      sender = s;
      report = record k.report {
        rejected_acks =
            if k.report.rejected_acks == 2 ^ 32 - 1
            then k.report.rejected_acks
            else k.report.rejected_acks + 1;
      };
    },
    w,
  )

  module _ (c : Crypto) where
    unfoldable pub after_receive : ℕ → Controller → ReceiveStatus → W → (Controller × W)
    after_receive observed k ReceiveStatus.empty w = (k, w)
    after_receive observed k ReceiveStatus.error w = finish Completion.radio_error k w
    after_receive observed k (ReceiveStatus.received f) w = after_ack k (acknowledge c f k.sender) w

    unfoldable pub poll_awaiting : ℕ → Controller → W → (Controller × W)
    poll_awaiting now k w =
        if leb k.policy.ack_timeout_ms (elapsed now k.phase_start)
        then (if leb max_attempts k.sender.attempts
            then finish Completion.attempts_exhausted k w
            else backoff k w)
        else let (status, w1) = o.receive w in
          let (observed, w2) = o.now_ms w1 in
          if leb k.policy.cycle_timeout_ms (elapsed observed k.cycle_start)
          then finish Completion.deadline k w2
          else if leb k.policy.ack_timeout_ms (elapsed observed k.phase_start)
          then (k, w2)
          else after_receive observed k status w2

    unfoldable pub poll_state : SendState → ℕ → Controller → W → (Controller × W)
    poll_state SendState.starting now k w = wait 0 k.policy.initial_jitter_ms k w
    poll_state SendState.waiting now k w = poll_waiting now k w
    poll_state SendState.checking_channel now k w = poll_channel now k w
    poll_state SendState.transmitting now k w = poll_transmitting now k w
    poll_state SendState.awaiting_ack now k w = poll_awaiting now k w
    poll_state SendState.idle now k w = (k, w)
    poll_state SendState.finished now k w = (k, w)

    unfoldable pub poll : Controller → W → (Controller × W)
    poll k w =
        if not (active k)
        then (k, w)
        else let (now, w') = o.now_ms w in
          if leb k.policy.cycle_timeout_ms (elapsed now k.cycle_start)
          then finish Completion.deadline k w'
          else poll_state k.state now k w'

    unfoldable pub cancel : Controller → W → (Controller × W)
    cancel k w = if active k then finish Completion.cancelled k w else (k, w)

    module _ {T : Type 0} (counters : CounterStore T) where
      unfoldable pub start :
          Binding → Data → Controller → T → W → (StartResult × Controller × T × W)
      start b sample k t w =
          if active k
          then (StartResult.busy, k, t, w)
          else if not k.radio_available
          then (StartResult.radio_unavailable, k, t, w)
          else if not (valid_policy k.policy)
          then (StartResult.invalid_policy, k, t, w)
          else let (now, w') = o.now_ms w in
            let (r, s, t') = begin c counters b sample wire_v2 k.sender t in
            let k' = record k { sender = s; protocol_result = r } in
            if not (is_ok r) then (StartResult.protocol_rejected, k', t', w') else (
              StartResult.started,
              record k' { cycle_start = now; report = no_report; state = SendState.starting },
              t',
              w',
            )
