-- ===== src/Storage/Migrating.antt =====
-- cajui_storage.cpp: `migrate`, which copies a v1 snapshot into records, the registry last.
use cajui_firmware.Base.{
  ℕ, zero, suc, ◌+◌, Bool, true, false, not, ◌||◌, List, [], ◌∷◌, ◌==◌, if◌then◌else◌, get_or, set,
  replicate,
}
use cajui_firmware.Protocol.{no_link}
use cajui_firmware.Protocol.Crypto.{Crypto}
use cajui_firmware.Records.{
  Role, is_receiver, is_empty, Health, Entry, no_entry, Registry, ReceiptRecord, QueueRecord,
  binding_capacity, registry_key, head_key, legacy_key,
}
use cajui_firmware.Records.Enrollments.{encode_registry}
use cajui_firmware.Records.Head.{encode_head}
use cajui_firmware.Records.Names.{receipt_key, queue_key}
use cajui_firmware.Records.Queue.{encode_queue, encode_receipt}
use cajui_firmware.Storage.{Read, RecordStore}
use cajui_firmware.Storage.Snapshots.{
  OldEntry, no_old_entry, Queued, State, OldDecoded, decode_snapshot,
}

abbrev pub entry_of : OldEntry → Entry
entry_of e = record {
  state = e.state;
  node = e.node;
  generation = e.generation;
  counter = e.counter;
  key = e.key;
}

-- The slots past the snapshot's entries stay empty.
unfoldable pub migrated_entries : ℕ → List OldEntry → List Entry
migrated_entries zero es = []
migrated_entries (suc slots) [] = no_entry ∷ migrated_entries slots []
migrated_entries (suc slots) (e ∷ es) = entry_of e ∷ migrated_entries slots es

unfoldable pub migrated_registry : State → Registry
migrated_registry g = record {
  revision = g.revision;
  network = g.network;
  receiver = g.receiver;
  profile = g.profile;
  entries = migrated_entries binding_capacity g.entries;
}

unfoldable pub migrated_sample : State → ℕ → Queued → QueueRecord
migrated_sample g sequence q = record {
  sequence = sequence;
  generation = (get_or g.entries q.entry no_old_entry).generation;
  slot = q.entry;
  frame = q.frame;
  link = no_link;
}

module _ {R : Type 0} (store : RecordStore R) where
  -- The queue's samples, from `sequence` on, with `through` of each slot.
  unfoldable pub write_samples : State → ℕ → List Queued → List ℕ → R → (Bool × List ℕ × R)
  write_samples g sequence [] through r = (true, through, r)
  write_samples g sequence (q ∷ qs) through r =
      let through' = set through q.entry (sequence + 1) in
      let (written, r') =
        store.write (queue_key sequence) (encode_queue (migrated_sample g sequence q)) r in
      let rest = write_samples g (suc sequence) qs through' r' in
      if written then rest else (false, through', r')

  -- The receipts of the slots, from `slot` on; a slot without one is passed over.
  unfoldable pub write_receipts : ℕ → List OldEntry → List ℕ → R → (Bool × R)
  write_receipts slot [] through r = (true, r)
  write_receipts slot (e ∷ es) through r =
      let p : ReceiptRecord = record {
        generation = e.generation;
        through = get_or through slot 0;
        receipt = e.receipt;
      } in
      let (written, r') = store.write (receipt_key slot) (encode_receipt p) r in
      let skipped = write_receipts (suc slot) es through r in
      let rest = write_receipts (suc slot) es through r' in
      if is_empty e.state || e.receipt.counter == 0
      then skipped
      else if written
      then rest
      else (false, r')

  -- What only a receiver stores.
  unfoldable pub write_queue : State → R → (Bool × R)
  write_queue g r =
      let (a, through, r1) = write_samples g 0 g.queue (replicate binding_capacity 0) r in
      if not a
      then (false, r1)
      else let (b, r2) = write_receipts 0 g.entries through r1 in
        if not b then (false, r2) else store.write head_key (encode_head 0) r2

  unfoldable pub write_registry : State → Role → ℕ → (Bool × R) → (Health × R)
  write_registry g role device (false, r) = (Health.write_error, r)
  write_registry g role device (true, r) =
      let (written, r') =
        store.write registry_key (encode_registry (migrated_registry g) role device) r in
      (if written then Health.ready else Health.write_error, r')

  unfoldable pub migrate_state : OldDecoded → Role → ℕ → R → (Health × R)
  migrate_state (OldDecoded.refused h) role device r = (h, r)
  migrate_state (OldDecoded.ready g) role device r =
      write_registry g role device (if is_receiver role then write_queue g r else (true, r))

  -- A new device has no snapshot either.
  unfoldable pub migrate : Crypto → Role → ℕ → R → (Health × R)
  migrate c role device r = elim (store.read legacy_key r) [
    | Read.missing ↦ (Health.ready, r)
    | Read.error ↦ (Health.read_error, r)
    | Read.found bytes ↦ migrate_state (decode_snapshot c bytes role device) role device r
  ]
