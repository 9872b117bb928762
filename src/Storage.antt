-- ===== src/Storage.antt =====
-- lib/CajuiStorage/src/cajui_storage.h and cajui_storage.cpp: the durable state of a device.
-- The scratch buffer and the pending copies `next_` and `nextRetired_` are arguments and results
-- here. A `RecordStore` is an interface over a state of its own.
pub mod Indexing
pub mod Entries
pub mod Enrolling
pub mod Sampling
pub mod Latch
pub mod Counters
pub mod Journaling
pub mod Committing
pub mod Refinement
pub mod Activation
pub mod Snapshots
pub mod Migrating
pub mod Mounting
pub mod Restarting
pub mod Recounting
pub mod Refusing
pub mod Copying
pub mod LastUsed
pub mod Migration
use cajui_firmware.Base.{
  ℕ, zero, suc, ◌+◌, ◌-◌, ◌%◌, ◌^◌, ◌≡◌, ◌≢◌, ◌⊎◌, Bool, true, false, not, ◌&&◌, ◌||◌, List, [],
  ◌∷◌, Option, none, some, ltb, ◌==◌, if◌then◌else◌, bytes_eq, length, get_or, set, replicate,
}
use cajui_firmware.Protocol.{
  Binding, Result, Frame, Message, Data, Link, no_data, no_link, type_data,
}
use cajui_firmware.Protocol.Crypto.{Crypto}
use cajui_firmware.Protocol.Codec.{open_frame}
use cajui_firmware.Records.{
  Role, is_receiver, Enrollment, is_empty, is_active, is_revoked, Health, is_ready, Entry, no_entry,
  Registry, RetiredList, ReceiptRecord, QueueRecord, registry_key, retired_key, head_key,
  no_receipt_record, no_queue_record,
}
use cajui_firmware.Records.Enrollments.{encode_registry}
use cajui_firmware.Records.Retirement.{encode_retired}
use cajui_firmware.Records.Head.{encode_head}

-- `ReadResult`, with the bytes of a record that was read.
pub data Read : Type 0 where
  found : List ℕ → Read
  missing error : Read

pub record RecordStore (R : Type 0) : Type 0 where
  pub read : List ℕ → R → Read
  pub write : List ℕ → List ℕ → R → (Bool × R)
  pub erase : List ℕ → R → (Bool × R)

-- What the comments of `RecordStore` promise of an adapter: a successful write is read back, no
-- write touches another record, and a failed write leaves the old record or the new one.
pub record RecordLaws {R : Type 0} (store : RecordStore R) : Type 0 where
  pub read-write :
      (name bytes : List ℕ) (r r' : R)
      → store.write name bytes r ≡ (true, r')
      → store.read name r' ≡ found bytes
  pub read-write_other :
      (name other bytes : List ℕ) (r : R)
      → name ≢ other
      → store.read other (store.write name bytes r).1 ≡ store.read other r
  pub read-erase_other :
      (name other : List ℕ) (r : R)
      → name ≢ other
      → store.read other (store.erase name r).1 ≡ store.read other r
  pub write_atomic :
      (name bytes : List ℕ) (r : R)
      → (store.read name (store.write name bytes r).1 ≡ store.read name r)
        ⊎ (store.read name (store.write name bytes r).1 ≡ found bytes)

-- A `PersistentStore`: `receipts` and `queued_by_slot` have one element for each slot.
pub record Store (R : Type 0) : Type 0 where
  pub records : R
  pub role : Role
  pub device : ℕ
  pub health : Health
  pub registry : Registry
  pub retired : RetiredList
  pub receipts : List ReceiptRecord
  pub queued_by_slot : List ℕ
  pub head : ℕ
  pub tail : ℕ
  pub dropped : ℕ

pub next_index : Option ℕ → Option ℕ
next_index none = none
next_index (some i) = some (suc i)

-- The index of the first entry that passes the test; `none` is -1.
unfoldable pub find_index {ℓ} : {A : Type ℓ} → (A → Bool) → List A → Option ℕ
unfolding next_index
find_index p [] = none
find_index p (x ∷ xs) = if p x then some 0 else next_index (find_index p xs)

unfoldable pub binding_of : Entry → ℕ → Binding
binding_of e network = record { network = network; node = e.node; key = e.key; active = true }

abbrev pub entry_at : Registry → ℕ → Entry
entry_at registry i = get_or registry.entries i no_entry

unfoldable pub is_enrollment : ℕ → ℕ → Entry → Bool
is_enrollment node generation e =
    not (is_empty e.state) && e.node == node && e.generation == generation

unfoldable pub is_authority : Binding → Entry → Bool
is_authority b e = is_active e.state && e.node == b.node && bytes_eq e.key b.key

-- Sequences are `uint64_t`, the counts of a slot `uint16_t`.
abbrev pub next_sequence : ℕ → ℕ
next_sequence n = (n + 1) % 2 ^ 64

abbrev pub bump : List ℕ → ℕ → List ℕ
bump counts slot = set counts slot ((get_or counts slot 0 + 1) % 2 ^ 16)

abbrev pub unbump : List ℕ → ℕ → List ℕ
unbump counts slot = set counts slot ((get_or counts slot 0 + (2 ^ 16 - 1)) % 2 ^ 16)

module _ {R : Type 0} where
  abbrev pub healthy : Store R → Bool
  healthy s = is_ready s.health

  abbrev pub queued : Store R → ℕ
  queued s = s.tail - s.head

  -- Latched until remounted.
  abbrev pub fail : Health → Store R → Store R
  fail health s = record s { health = health }

  unfoldable pub find : ℕ → ℕ → Store R → Option ℕ
  unfolding find_index is_enrollment
  find node generation s = find_index (is_enrollment node generation) s.registry.entries

  unfoldable pub authorized : Binding → Store R → Option ℕ
  authorized b s =
      if not (healthy s) || not b.active || not (b.network == s.registry.network)
      then none
      else find_index (is_authority b) s.registry.entries

  module _ (store : RecordStore R) where
    unfoldable pub save_registry : Registry → Store R → (Bool × Store R)
    save_registry next s =
        if s.registry.revision == 2 ^ 64 - 1
        then (false, fail Health.write_error s)
        else let next' = record next { revision = s.registry.revision + 1 } in
          let (written, r) =
            store.write registry_key (encode_registry next' s.role s.device) s.records in
          if written
          then (true, record s { records = r; registry = next' })
          else (false, record s { records = r; health = Health.write_error })

    unfoldable pub save_retired : RetiredList → Store R → (Bool × Store R)
    save_retired next s =
        let (written, r) = store.write retired_key (encode_retired next) s.records in
        if written
        then (true, record s { records = r; retired = next })
        else (false, record s { records = r; health = Health.write_error })

    unfoldable pub save_head : ℕ → Store R → (Bool × Store R)
    save_head sequence s =
        let (written, r) = store.write head_key (encode_head sequence) s.records in
        if written
        then (true, record s { records = r; head = sequence })
        else (false, record s { records = r; health = Health.write_error })

    -- `saveRegistry() ? Result::Ok : Result::StorageError`
    unfoldable pub commit_registry : Registry → Store R → (Result × Store R)
    commit_registry next s =
        let (saved, s') = save_registry next s in
        (if saved then Result.ok else Result.storage_error, s')
