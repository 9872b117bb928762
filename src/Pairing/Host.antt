-- ===== src/Pairing/Host.antt =====
-- cajui_pairing.cpp: `PairingHost`, the receiver's side of pairing.
use cajui_firmware.Base.{
  ℕ, ◌+◌, ◌-◌, ◌%◌, ◌^◌, ℤ, Bool, true, false, not, ◌&&◌, ◌||◌, List, [], ◌∷◌, ◌++◌, Option, none,
  some, leb, ◌==◌, if◌then◌else◌, length, map,
}
use cajui_firmware.Protocol.{Result, Frame, no_frame}
use cajui_firmware.Protocol.Crypto.{Crypto}
use cajui_firmware.Protocol.Codec.{untrusted_type}
use cajui_firmware.Records.{no_key}
use cajui_firmware.Storage.{RecordStore, Store}
use cajui_firmware.Storage.Entries.{Credential}
use cajui_firmware.Storage.Enrolling.{activate_alongside, revoke}
use cajui_firmware.Runtime.{elapsed}
use cajui_firmware.Pairing.{
  Offer, no_offer, Candidate, type_request, type_confirm, type_done, pairing_profile,
  max_candidates, pairing_window_ms, done_replay_ms, max_done_replies,
}
use cajui_firmware.Pairing.Frames.{parse_request, build_tagged, verify_tagged}
use cajui_firmware.Pairing.Candidates.{new_candidate, hear, join, waiting_in}
use cajui_firmware.Pairing.Keys.{prepare_fresh}

pub data HostState : Type 0 where
  closed opened offered paired : HostState

abbrev pub is_closed : HostState → Bool
is_closed HostState.closed = true
is_closed _ = false

abbrev pub is_offered : HostState → Bool
is_offered HostState.offered = true
is_offered _ = false

-- The last completed exchange.
pub record Completed : Type 0 where
  pub network : ℕ
  pub node : ℕ
  pub nonce : ℕ
  pub key : List ℕ
  pub done : Frame
  pub at : ℕ
  pub replies : ℕ

abbrev pub no_completed : Completed
no_completed = record {
  network = 0;
  node = 0;
  nonce = 0;
  key = no_key;
  done = no_frame;
  at = 0;
  replies = 0;
}

-- `candidates` are the first `count_` of the array, and `paired_node` is `paired_`. The operations take the
-- readings of the clock as arguments: `at` is what `nowMs` answers where the branch that runs reads it.
pub record Host (R : Type 0) : Type 0 where
  pub store : Store R
  pub state : HostState
  pub opened_at : ℕ
  pub candidates : List Candidate
  pub offer : Offer
  pub key : List ℕ
  pub offer_frame : Frame
  pub paired_node : ℕ
  pub last : Completed

abbrev pub uint8 : ℕ → ℕ
uint8 n = n % 2 ^ 8

module _ {R : Type 0} where
  unfoldable pub forget_completed : Host R → Host R
  forget_completed h = record h { last = no_completed }

  unfoldable pub drop_offer : Host R → Host R
  drop_offer h = record h {
    key = no_key;
    offer = no_offer;
    offer_frame = no_frame;
    state =
        if is_offered h.state
        then (if h.paired_node == 0 then HostState.opened else HostState.paired)
        else h.state;
  }

  unfoldable pub close : Host R → Host R
  close h = record (drop_offer h) { state = HostState.closed; candidates = [] }

  unfoldable pub waiting : Host R → ℕ → List Candidate
  waiting h capacity = waiting_in h.candidates capacity

  -- The list with a node that was not listed; a full list ignores it.
  unfoldable pub add_candidate : ℕ → ℕ → List ℕ → ℤ → ℕ → Host R → (Bool × Host R)
  add_candidate node nonce public_key rssi at h =
      if length h.candidates == max_candidates then (false, h) else (
        true,
        record h {
          candidates = h.candidates ++ (new_candidate node nonce public_key rssi at ∷ []);
        },
      )

  unfoldable pub track_at : ℕ → ℕ → List ℕ → ℤ → ℕ → Host R → (Bool × Host R)
  track_at node nonce public_key rssi at h =
      elim (hear node nonce public_key rssi at h.candidates) [
        | some (consistent, cs) ↦ (consistent, record h { candidates = cs })
        | none ↦ add_candidate node nonce public_key rssi at h
      ]

  -- The answer to a request that was tracked.
  unfoldable pub answer_request : ℕ → (Bool × Host R) → (Option Frame × Host R)
  answer_request node (consistent, h) =
      if not (is_offered h.state) || not (node == h.offer.node)
      then (none, h)
      else if not consistent
      then (none, drop_offer h)
      else (some h.offer_frame, h)

  unfoldable pub request_at : Frame → ℤ → ℕ → Host R → (Option Frame × Host R)
  request_at f rssi at h = elim (parse_request f) [
    | none ↦ (none, h)
    | some (node, nonce, public_key) ↦
        if node == h.store.device
        then (none, h)
        else answer_request node (track_at node nonce public_key rssi at h)
  ]

  -- The last exchange is forgotten once its time or its replies are used up.
  unfoldable pub expire_completed : ℕ → Host R → Host R
  expire_completed at h =
      if not (h.last.node == 0)
        && (leb done_replay_ms (elapsed at h.last.at) || leb max_done_replies h.last.replies)
      then forget_completed h
      else h

  abbrev pub credential_of : Host R → Credential
  credential_of h = record {
    network = h.offer.network;
    receiver = h.offer.receiver;
    node = h.offer.node;
    generation = h.offer.generation;
    key = h.key;
    profile = pairing_profile;
  }

  -- The exchange is complete: the node joined, and its JOIN_DONE may be repeated.
  unfoldable pub complete : Frame → ℕ → Host R → Host R
  complete done at h =
      record (drop_offer (record h {
        candidates = map (join h.offer.node) h.candidates;
        last = record {
          network = h.offer.network;
          node = h.offer.node;
          nonce = h.offer.nonce;
          key = h.key;
          done = done;
          at = at;
          replies = 1;
        };
        paired_node = h.offer.node;
      })) { state = HostState.paired }

  module _ (c : Crypto) where
    -- A repeated confirmation of the last exchange is answered with the identical frame.
    unfoldable pub repeats : Frame → Host R → Bool
    repeats f h =
        untrusted_type f == type_confirm
        && not (h.last.node == 0)
        && verify_tagged c f type_confirm h.last.network h.last.node h.last.nonce h.last.key

    unfoldable pub repeat_done : Host R → (Option Frame × Host R)
    repeat_done h = (
      some h.last.done,
      record h { last = record h.last { replies = uint8 (h.last.replies + 1) } },
    )

    unfoldable pub confirms : Frame → Host R → Bool
    confirms f h =
        untrusted_type f == type_confirm
        && is_offered h.state
        && verify_tagged c f type_confirm h.offer.network h.offer.node h.offer.nonce h.key

    module _ (store : RecordStore R) where
      -- Storing the binding: the JOIN_DONE, where the store and the cipher succeed.
      unfoldable pub sign_done : Host R → (Result × Store R) → (Option Frame × Store R)
      sign_done h (Result.ok, s) =
          (build_tagged c type_done h.offer.network h.offer.node h.offer.nonce h.key, s)
      sign_done h (r, s) = (none, s)

      unfoldable pub activate_offer : Host R → (Result × Store R) → (Option Frame × Store R)
      activate_offer h (Result.ok, s) =
          sign_done h (activate_alongside store c h.offer.node h.offer.generation s)
      activate_offer h (r, s) = (none, s)

      unfoldable pub after_storing : ℕ → Host R → (Option Frame × Store R) → (Option Frame × Host R)
      after_storing at h (none, s) =
          (none, record h { store = (revoke store c h.offer.node h.offer.generation s).1 })
      after_storing at h (some done, s) = (some done, complete done at (record h { store = s }))

      -- JOIN_CONFIRM of the current offer.
      unfoldable pub confirm_at : ℕ → Host R → (Option Frame × Host R)
      confirm_at at h =
          after_storing at h (activate_offer h (prepare_fresh store c (credential_of h) h.store))

      -- `handle` past the repeated confirmation; `at` is the one reading of the clock that its branch makes.
      unfoldable pub respond_at : Frame → ℤ → ℕ → Host R → (Option Frame × Host R)
      respond_at f rssi at h =
          if is_closed h.state
          then (none, h)
          else if untrusted_type f == type_request
          then request_at f rssi at h
          else if confirms f h
          then confirm_at at h
          else (none, h)

      unfoldable pub after_expiry : Frame → ℤ → ℕ → Host R → (Option Frame × Host R)
      after_expiry f rssi at h = if repeats f h then repeat_done h else respond_at f rssi at h

  unfoldable pub open_window : ℕ → Host R → Host R
  open_window at h = record (forget_completed (close h)) {
    state = HostState.opened;
    opened_at = at;
    paired_node = 0;
  }

  unfoldable pub remaining_ms : ℕ → Host R → ℕ
  remaining_ms at h =
      if is_closed h.state
      then 0
      else if leb pairing_window_ms (elapsed at h.opened_at)
      then 0
      else pairing_window_ms - elapsed at h.opened_at

  unfoldable pub poll : ℕ → Host R → Host R
  poll at h = if not (is_closed h.state) && remaining_ms at h == 0 then close h else h

  -- `handle`, with the readings of the clock in `poll`, for the last exchange, and after it.
  unfoldable pub handle :
      (c : Crypto) (store : RecordStore R) (f : Frame) (rssi : ℤ) (polled expired at : ℕ)
      → Host R
      → (Option Frame × Host R)
  handle c store f rssi polled expired at h =
      after_expiry c store f rssi at (expire_completed expired (poll polled h))
