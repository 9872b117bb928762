-- ===== src/Storage/Mounting.antt =====
-- cajui_storage.cpp: `mount`, `load` and `loadReceiver`.
use cajui_firmware.Base.{
  ℕ, zero, suc, Bool, true, false, not, ◌&&◌, ◌||◌, List, [], ◌∷◌, Option, none, some, ltb, ◌==◌,
  if◌then◌else◌, int_eq, get_or, set, replicate,
}
use cajui_firmware.Protocol.{Frame, type_data, wire_v2, keep_power, is_ok}
use cajui_firmware.Protocol.Crypto.{Crypto}
use cajui_firmware.Protocol.Codec.{open_frame}
use cajui_firmware.Records.{
  is_receiver, is_empty, is_prepared, Health, is_ready, Entry, Registry, no_registry, ReceiptRecord,
  no_receipt_record, QueueRecord, binding_capacity, queue_capacity, registry_key, retired_key,
  head_key, legacy_key,
}
use cajui_firmware.Records.Head.{decode_head}
use cajui_firmware.Records.Names.{receipt_key, queue_key}
use cajui_firmware.Records.Queue.{decode_queue, decode_receipt}
use cajui_firmware.Records.Registries.{Decoded, decode_registry}
use cajui_firmware.Records.Retirement.{decode_retired}
use cajui_firmware.Records.Validation.{validate}
use cajui_firmware.Storage.{
  Read, RecordStore, Store, binding_of, entry_at, queued, bump, next_sequence,
}
use cajui_firmware.Storage.Migrating.{migrate}

-- `frameMatches`: the counter of a DATA frame of this entry.
unfoldable pub frame_matches : Crypto → Entry → ℕ → Frame → Option ℕ
frame_matches c e network f =
    let (r, m) = open_frame c (binding_of e network) f in
    if is_ok r && m.type == type_data then some m.counter else none

unfoldable pub has_counter : Option ℕ → ℕ → Bool
has_counter none n = false
has_counter (some counter) n = counter == n

unfoldable pub at_most : Option ℕ → ℕ → Bool
at_most none n = false
at_most (some counter) n = not (ltb n counter)

-- A receipt that is not its entry's state of replay.
unfoldable pub bad_receipt : Crypto → Registry → Entry → ReceiptRecord → Bool
bad_receipt c g e p =
    is_prepared e.state
    || p.receipt.counter == 0
    || not (has_counter (frame_matches c e g.network p.receipt.last) p.receipt.counter)
    || (not (get_or p.receipt.last 4 0 == wire_v2) && not (int_eq p.receipt.ack_power keep_power))

unfoldable pub bad_sample : Crypto → Registry → List ReceiptRecord → ℕ → QueueRecord → Bool
bad_sample c g receipts sequence q =
    let e = entry_at g q.slot in
    not (q.sequence == sequence)
    || is_empty e.state
    || is_prepared e.state
    || not (e.generation == q.generation)
    || not (
        at_most (frame_matches c e g.network q.frame)
          (get_or receipts q.slot no_receipt_record).receipt.counter)

module _ {R : Type 0} where
  unfoldable pub clear : Store R → Store R
  clear s = record s {
    registry = no_registry;
    retired = [];
    receipts = replicate binding_capacity no_receipt_record;
    queued_by_slot = replicate binding_capacity 0;
    head = 0;
    tail = 0;
  }

  -- A receipt is taken, and the tail reaches past its last sample.
  unfoldable pub keep_receipt : ℕ → ReceiptRecord → Store R → Store R
  keep_receipt slot p s = record s {
    receipts = set s.receipts slot p;
    tail = if ltb s.tail p.through then p.through else s.tail;
  }

  module _ (store : RecordStore R) (c : Crypto) where
    unfoldable pub judge_receipt : ℕ → Entry → Option ReceiptRecord → Store R → (Health × Store R)
    judge_receipt slot e none s = (Health.corrupt, s)
    judge_receipt slot e (some p) s =
        if not (p.generation == e.generation)
        then (Health.ready, s)
        else if bad_receipt c s.registry e p
        then (Health.invalid, s)
        else (Health.ready, keep_receipt slot p s)

    unfoldable pub load_receipt : ℕ → Entry → Store R → (Health × Store R)
    load_receipt slot e s = elim (store.read (receipt_key slot) s.records) [
      | Read.error ↦ (Health.read_error, s)
      | Read.missing ↦ (Health.ready, s)
      | Read.found bytes ↦ judge_receipt slot e (decode_receipt bytes) s
    ]

    -- The loop over the slots, from `slot` on.
    unfoldable pub load_receipts : ℕ → List Entry → Store R → (Health × Store R)
    load_receipts slot [] s = (Health.ready, s)
    load_receipts slot (e ∷ es) s =
        let skipped = load_receipts (suc slot) es s in
        let (h, s') = load_receipt slot e s in
        let rest = load_receipts (suc slot) es s' in
        if is_empty e.state then skipped else if is_ready h then rest else (h, s')

    unfoldable pub judge_sample : ℕ → Option QueueRecord → Store R → (Health × Store R)
    judge_sample sequence none s = (Health.corrupt, s)
    judge_sample sequence (some q) s =
        if bad_sample c s.registry s.receipts sequence q
        then (Health.invalid, s)
        else (Health.ready, record s { queued_by_slot = bump s.queued_by_slot q.slot })

    unfoldable pub load_sample : ℕ → Store R → (Health × Store R)
    load_sample sequence s = elim (store.read (queue_key sequence) s.records) [
      | Read.error ↦ (Health.read_error, s)
      | Read.missing ↦ (Health.invalid, s)
      | Read.found bytes ↦ judge_sample sequence (decode_queue bytes) s
    ]

    -- The loop over the queue: the samples left, and the next sequence.
    unfoldable pub load_samples : ℕ → ℕ → Store R → (Health × Store R)
    load_samples zero sequence s = (Health.ready, s)
    load_samples (suc left) sequence s =
        let (h, s') = load_sample sequence s in
        let rest = load_samples left (next_sequence sequence) s' in
        if is_ready h then rest else (h, s')

    unfoldable pub load_queue : (Health × Store R) → (Health × Store R)
    load_queue (Health.ready, s) =
        if ltb queue_capacity (queued s)
        then (Health.invalid, s)
        else load_samples (queued s) s.head s
    load_queue (h, s) = (h, s)

    -- `loadReceiver` from the head.
    unfoldable pub load_from : Option ℕ → Store R → (Health × Store R)
    load_from none s = (Health.corrupt, s)
    load_from (some head) s =
        load_queue (load_receipts 0 s.registry.entries (record s { head = head; tail = head }))

    unfoldable pub load_receiver : Store R → (Health × Store R)
    load_receiver s = elim (store.read head_key s.records) [
      | Read.error ↦ (Health.read_error, s)
      | Read.missing ↦ load_from (some s.head) s
      | Read.found bytes ↦ load_from (decode_head bytes) s
    ]

    unfoldable pub check_rules : Store R → (Health × Store R)
    check_rules s =
        let h = validate c s.registry s.role s.retired in
        if not (is_ready h)
        then (h, s)
        else if is_receiver s.role
        then load_receiver s
        else (Health.ready, s)

    unfoldable pub load_retired : Store R → (Health × Store R)
    load_retired s = elim (store.read retired_key s.records) [
      | Read.error ↦ (Health.read_error, s)
      | Read.missing ↦ check_rules s
      | Read.found bytes ↦ elim (decode_retired bytes) [
        | none ↦ (Health.corrupt, s)
        | some list ↦ check_rules (record s { retired = list })
      ]
    ]

    -- A registry that was decoded supersedes a v1 snapshot, whose removal may fail.
    unfoldable pub take_registry : Decoded → Store R → (Health × Store R)
    take_registry (Decoded.refused h) s = (h, s)
    take_registry (Decoded.ready g) s =
        load_retired (record s { registry = g; records = (store.erase legacy_key s.records).1 })

    unfoldable pub load_registry : Read → Store R → (Health × Store R)
    load_registry Read.error s = (Health.read_error, s)
    load_registry Read.missing s = load_retired s
    load_registry (Read.found bytes) s = take_registry (decode_registry bytes s.role s.device) s

    unfoldable pub after_migration : (Health × R) → Store R → (Health × Store R)
    after_migration (Health.ready, r) s =
        load_registry (store.read registry_key r) (record s { records = r })
    after_migration (h, r) s = (h, record s { records = r })

    unfoldable pub load_all : Store R → (Health × Store R)
    load_all s = elim (store.read registry_key s.records) [
      | Read.missing ↦ after_migration (migrate store c s.role s.device s.records) s
      | Read.error ↦ load_registry Read.error s
      | Read.found bytes ↦ load_registry (Read.found bytes) s
    ]

    unfoldable pub after_load : (Health × Store R) → (Bool × Store R)
    after_load (Health.ready, s) = (true, record s { health = Health.ready })
    after_load (h, s) = (false, record (clear s) { health = h })

    unfoldable pub mount : Store R → (Bool × Store R)
    mount s =
        let s' = clear (record s { health = Health.unmounted }) in
        if s.device == 0
        then (false, record s' { health = Health.identity })
        else after_load (load_all s')
