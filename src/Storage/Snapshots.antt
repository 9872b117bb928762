-- ===== src/Storage/Snapshots.antt =====
-- snapshot.h and snapshot.cpp: the v1 layout, one blob for the whole state, read to migrate a device.
use cajui_firmware.Base.{
  ℕ, zero, suc, ◌+◌, ◌-◌, ◌*◌, Bool, true, false, not, ◌&&◌, ◌||◌, List, [], ◌∷◌, ◌++◌, Option,
  none, some, ltb, ◌==◌, if◌then◌else◌, bytes_eq, length, take, drop, get_or,
}
use cajui_firmware.Wire.{get}
use cajui_firmware.Protocol.{
  Binding, Frame, frame_size, max_frame, type_data, Receipt, no_receipt, key_size, is_ok,
}
use cajui_firmware.Protocol.Crypto.{Crypto}
use cajui_firmware.Protocol.Codec.{open_frame}
use cajui_firmware.Records.{
  Role, role_code, is_receiver, Enrollment, is_empty, is_prepared, is_active, Health, no_key,
  binding_capacity, queue_capacity,
}
use cajui_firmware.Records.Codec.{crc32}
use cajui_firmware.Records.Registries.{nonzero, enrollment_of}

abbrev pub checksum_size : ℕ
checksum_size = 4

abbrev pub snapshot_header_size : ℕ
snapshot_header_size = 4 + 1 + 1 + 8 + 8 + 8 + 8 + 2 + 1 + 1

abbrev pub entry_record_size : ℕ
entry_record_size = 1 + 8 + 8 + key_size + 8 + 8 + 2 + max_frame

abbrev pub queue_record_size : ℕ
queue_record_size = 1 + 2 + max_frame

abbrev pub min_snapshot_size : ℕ
min_snapshot_size = snapshot_header_size + checksum_size

abbrev pub snapshot_size : ℕ
snapshot_size =
    min_snapshot_size + binding_capacity * entry_record_size + queue_capacity * queue_record_size

abbrev pub snapshot_magic : List ℕ
snapshot_magic = b'C' ∷ b'J' ∷ b'S' ∷ b'T' ∷ []

abbrev pub snapshot_version : ℕ
snapshot_version = 1

pub record OldEntry : Type 0 where
  pub state : Enrollment
  pub node : ℕ
  pub generation : ℕ
  pub counter : ℕ
  pub key : List ℕ
  pub receipt : Receipt

abbrev pub no_old_entry : OldEntry
no_old_entry = record {
  state = Enrollment.empty;
  node = 0;
  generation = 0;
  counter = 0;
  key = no_key;
  receipt = no_receipt;
}

pub record Queued : Type 0 where
  pub entry : ℕ
  pub frame : Frame

-- `entries` has the occupied prefix, `queue` the first `count` frames.
pub record State : Type 0 where
  pub revision : ℕ
  pub network : ℕ
  pub receiver : ℕ
  pub profile : ℕ
  pub entries : List OldEntry
  pub queue : List Queued

-- `Reader::number`, which has no bounds of its own: the sizes were checked before.
abbrev pub next_number : ℕ → List ℕ → (ℕ × List ℕ)
next_number size p = (get (take size p), drop size p)

unfoldable pub old_binding : OldEntry → ℕ → Binding
old_binding e network = record { network = network; node = e.node; key = e.key; active = true }

-- A frame that opens under the entry, as DATA, gives its counter.
unfoldable pub old_counter : Crypto → OldEntry → ℕ → Frame → Option ℕ
old_counter c e network f =
    let (r, m) = open_frame c (old_binding e network) f in
    if is_ok r && m.type == type_data then some m.counter else none

-- The inner loop over the entries read before.
unfoldable pub any_prior : OldEntry → List OldEntry → Bool
any_prior e [] = false
any_prior e (prior ∷ es) =
    (not (is_empty prior.state)
      && (bytes_eq prior.key e.key
          || prior.generation == e.generation
          || (prior.node == e.node && is_active prior.state && is_active e.state)))
    || any_prior e es

unfoldable pub bad_receipt_of : Crypto → ℕ → OldEntry → Bool
bad_receipt_of c network e =
    if e.receipt.counter == 0
    then not (frame_size e.receipt.last == 0)
    else elim (old_counter c e network e.receipt.last) [
      | none ↦ true
      | some counter ↦ not (counter == e.receipt.counter)
    ]

unfoldable pub bad_old_entry : Crypto → Role → ℕ → State → OldEntry → Bool
bad_old_entry c role device g e =
    e.node == 0
    || e.generation == 0
    || not (nonzero e.key)
    || e.node == g.receiver
    || (not (is_receiver role) && not (e.node == device))
    || (not (is_receiver role) && not (e.receipt.counter == 0))
    || (is_receiver role && not (e.counter == 0))
    || any_prior e g.entries
    || (is_prepared e.state && (not (e.counter == 0) || not (e.receipt.counter == 0)))
    || bad_receipt_of c g.network e

-- One entry: its fields, its state's byte, the frame's size, and what is left.
unfoldable pub read_old_entry : List ℕ → (ℕ × ℕ × OldEntry × List ℕ)
read_old_entry p =
    let (state, p1) = next_number 1 p in
    let (node, p2) = next_number 8 p1 in
    let (generation, p3) = next_number 8 p2 in
    let key = take key_size p3 in
    let (counter, p4) = next_number 8 (drop key_size p3) in
    let (received, p5) = next_number 8 p4 in
    let (size, p6) = next_number 2 p5 in
    (
      state,
      size,
      record no_old_entry {
        node = node;
        generation = generation;
        counter = counter;
        key = key;
        receipt = record no_receipt { counter = received; last = take size p6 };
      },
      drop max_frame p6,
    )

unfoldable pub add_old_entry :
    Crypto → Role → ℕ → ℕ → Option Enrollment → OldEntry → State → Option State
add_old_entry c role device size none e g = none
add_old_entry c role device size (some state) e g =
    let e' = record e { state = state } in
    if ltb max_frame size || bad_old_entry c role device g e'
    then none
    else some (record g { entries = g.entries ++ (e' ∷ []) })

-- The loop over the entries; `none` is Invalid.
unfoldable pub read_old_entries : Crypto → Role → ℕ → ℕ → List ℕ → State → Option (State × List ℕ)
read_old_entries c role device zero p g = some (g, p)
read_old_entries c role device (suc left) p g =
    let (state, size, e, rest) = read_old_entry p in
    elim (add_old_entry c role device size (enrollment_of state) e g) [
      | none ↦ none
      | some g' ↦ read_old_entries c role device left rest g'
    ]

unfoldable pub bad_queued : Crypto → ℕ → State → Queued → Bool
bad_queued c size g q =
    let e = get_or g.entries q.entry no_old_entry in
    not (ltb q.entry binding_capacity)
    || ltb max_frame size
    || is_empty e.state
    || is_prepared e.state
    || elim (old_counter c e g.network q.frame) [
      | none ↦ true
      | some counter ↦ ltb e.receipt.counter counter
    ]

-- The loop over the queue.
unfoldable pub read_old_queue : Crypto → ℕ → List ℕ → State → Option State
read_old_queue c zero p g = some g
read_old_queue c (suc left) p g =
    let (entry, p1) = next_number 1 p in
    let (size, p2) = next_number 2 p1 in
    let q : Queued = record { entry = entry; frame = take size p2 } in
    let rest =
      read_old_queue c left (drop max_frame p2) (record g { queue = g.queue ++ (q ∷ []) }) in
    if bad_queued c size g q then none else rest

pub data OldDecoded : Type 0 where
  ready : State → OldDecoded
  refused : Health → OldDecoded

unfoldable pub after_old_entries : Crypto → ℕ → Option (State × List ℕ) → OldDecoded
after_old_entries c count none = OldDecoded.refused Health.invalid
after_old_entries c count (some (g, p)) = elim (read_old_queue c count p g) [
  | none ↦ OldDecoded.refused Health.invalid
  | some g' ↦ OldDecoded.ready g'
]

unfoldable pub bad_snapshot_head : Role → ℕ → ℕ → ℕ → ℕ → State → Bool
bad_snapshot_head role device size count occupied g =
    occupied == 0
    || ltb binding_capacity occupied
    || not (size == min_snapshot_size + occupied * entry_record_size + count * queue_record_size)
    || g.revision == 0
    || g.network == 0
    || g.receiver == 0
    || not (g.profile == 1)
    || ltb queue_capacity count
    || (not (is_receiver role) && not (count == 0))
    || (is_receiver role && not (g.receiver == device))

-- `decode` past the device.
unfoldable pub read_snapshot : Crypto → ℕ → Role → ℕ → List ℕ → OldDecoded
read_snapshot c size role device p =
    let (revision, p1) = next_number 8 p in
    let (network, p2) = next_number 8 p1 in
    let (receiver, p3) = next_number 8 p2 in
    let (profile, p4) = next_number 2 p3 in
    let (count, p5) = next_number 1 p4 in
    let (occupied, p6) = next_number 1 p5 in
    let g : State = record {
      revision = revision;
      network = network;
      receiver = receiver;
      profile = profile;
      entries = [];
      queue = [];
    } in
    if bad_snapshot_head role device size count occupied g
    then OldDecoded.refused Health.invalid
    else after_old_entries c count (read_old_entries c role device occupied p6 g)

unfoldable pub decode_snapshot : Crypto → List ℕ → Role → ℕ → OldDecoded
decode_snapshot c input role device =
    let size = length input in
    if ltb size min_snapshot_size
      || ltb snapshot_size size
      || not (get (drop (size - checksum_size) input) == crc32 (take (size - checksum_size) input))
    then OldDecoded.refused Health.corrupt
    else let (version, p1) = next_number 1 (drop 4 input) in
      let (role_found, p2) = next_number 1 p1 in
      let (device_found, p3) = next_number 8 p2 in
      if not (bytes_eq (take 4 input) snapshot_magic) || not (version == snapshot_version)
      then OldDecoded.refused Health.format
      else if not (role_found == role_code role)
      then OldDecoded.refused Health.role
      else if not (device_found == device)
      then OldDecoded.refused Health.device
      else read_snapshot c size role device p3
