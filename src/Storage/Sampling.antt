-- ===== src/Storage/Sampling.antt =====
-- cajui_storage.cpp: counters on a transmitter, receipts and the sample queue on a receiver.
use cajui_firmware.Base.{
  ℕ, suc, ◌+◌, ◌-◌, ◌%◌, ◌^◌, Bool, true, false, not, ◌&&◌, ◌||◌, List, [], ◌∷◌, Option, none, some,
  ltb, ◌==◌, if◌then◌else◌, get_or, set,
}
use cajui_firmware.Protocol.{Binding, Result, is_ok, Data, Link, Receipt, type_data}
use cajui_firmware.Protocol.Crypto.{Crypto}
use cajui_firmware.Protocol.Codec.{open_frame}
use cajui_firmware.Protocol.Delivery.{Journal, CounterStore}
use cajui_firmware.Records.{
  is_receiver, Enrollment, is_empty, is_active, Health, Entry, no_entry, Registry, ReceiptRecord,
  QueueRecord, no_receipt_record, queue_capacity,
}
use cajui_firmware.Records.Names.{receipt_key, queue_key}
use cajui_firmware.Records.Queue.{encode_queue, decode_queue, encode_receipt}
use cajui_firmware.Storage.{
  found, missing, error, RecordStore, Store, binding_of, entry_at, healthy, queued, fail, find,
  authorized, save_registry, save_head, next_sequence, bump, unbump,
}

pub record QueuedSample : Type 0 where
  pub node : ℕ
  pub generation : ℕ
  pub counter : ℕ
  pub sample : Data
  pub link : Link

-- `++next_.entries[index].counter`
unfoldable pub count_up : List Entry → ℕ → List Entry
count_up es i =
    set es i (record (get_or es i no_entry) { counter = (get_or es i no_entry).counter + 1 })

-- Every other active entry of the node is revoked, once the node has used the one in `slot`.
unfoldable pub supersede : ℕ → ℕ → ℕ → List Entry → List Entry
supersede node slot i [] = []
supersede node slot i (e ∷ es) =
    (if not (i == slot) && e.node == node && is_active e.state
      then record e { state = Enrollment.revoked }
      else e)
    ∷ supersede node slot (suc i) es

unfoldable pub any_superseded : ℕ → ℕ → ℕ → List Entry → Bool
any_superseded node slot i [] = false
any_superseded node slot i (e ∷ es) =
    (not (i == slot) && e.node == node && is_active e.state) || any_superseded node slot (suc i) es

-- A record read for the queue's front belongs to the entry of its slot.
unfoldable pub fits_front : Registry → ℕ → QueueRecord → Bool
fits_front registry head q =
    let e = entry_at registry q.slot in
    q.sequence == head && not (is_empty e.state) && e.generation == q.generation

unfoldable pub judge_front : Registry → ℕ → Option QueueRecord → (Health × Option QueueRecord)
judge_front registry head none = (Health.corrupt, none)
judge_front registry head (some q) =
    if fits_front registry head q then (Health.ready, some q) else (Health.invalid, some q)

module _ {R : Type 0} (store : RecordStore R) where
  unfoldable pub reserve_at : ℕ → Store R → (Option ℕ × Store R)
  reserve_at i s =
      if is_receiver s.role || (entry_at s.registry i).counter == 2 ^ 64 - 1
      then (none, s)
      else let (saved, s') =
          save_registry store (record s.registry { entries = count_up s.registry.entries i }) s in
        if saved then (some (entry_at s'.registry i).counter, s') else (none, s')

  -- `none` is a false result.
  unfoldable pub reserve : Binding → Store R → (Option ℕ × Store R)
  reserve b s = elim (authorized b s) [ none ↦ (none, s) | some i ↦ reserve_at i s ]

  unfoldable pub load : Binding → Store R → Option Receipt
  load b s = elim (authorized b s) [
    | none ↦ none
    | some i ↦
        if is_receiver s.role then some (get_or s.receipts i no_receipt_record).receipt else none
  ]

  unfoldable pub read_front : Store R → (Health × Option QueueRecord)
  read_front s = elim (store.read (queue_key s.head) s.records) [
    | found bytes ↦ judge_front s.registry s.head (decode_queue bytes)
    | missing ↦ (Health.read_error, none)
    | error ↦ (Health.read_error, none)
  ]

  -- A full queue gives up its oldest sample.
  unfoldable pub evict_front : (Health × Option QueueRecord) → Store R → (Bool × Store R)
  evict_front (Health.ready, some oldest) s =
      let (saved, s') = save_head store (next_sequence s.head) s in
      (
        saved,
        (if saved
            then record s' {
              queued_by_slot = unbump s'.queued_by_slot oldest.slot;
              dropped = (s'.dropped + 1) % 2 ^ 32;
            }
            else s'),
      )
  evict_front (health, q) s = (false, fail health s)

  unfoldable pub make_space : Store R → (Bool × Store R)
  make_space s = if queued s == queue_capacity then evict_front (read_front s) s else (true, s)

  unfoldable pub queue_record : ℕ → Receipt → Store R → QueueRecord
  queue_record slot receipt s = record {
    sequence = s.tail;
    generation = (entry_at s.registry slot).generation;
    slot = slot % 2 ^ 8;
    frame = receipt.last;
    link = receipt.link;
  }

  unfoldable pub receipt_record : ℕ → Receipt → Store R → ReceiptRecord
  receipt_record slot receipt s = record {
    generation = (entry_at s.registry slot).generation;
    through = next_sequence s.tail;
    receipt = receipt;
  }

  -- The two writes: the sample's record, then the receipt that counts it.
  unfoldable pub store_sample : ℕ → Receipt → Store R → (Bool × Store R)
  store_sample slot receipt s =
      let (a, r) =
        store.write (queue_key s.tail) (encode_queue (queue_record slot receipt s)) s.records in
      if not a
      then (false, record s { records = r; health = Health.write_error })
      else let next = receipt_record slot receipt s in
        let (b, r') = store.write (receipt_key slot) (encode_receipt next) r in
        if not b then (false, record s { records = r'; health = Health.write_error }) else (
          true,
          record s {
            records = r';
            receipts = set s.receipts slot next;
            tail = next_sequence s.tail;
            queued_by_slot = bump s.queued_by_slot slot;
          },
        )

  -- The previous generation of a re-paired node is revoked after its first new sample.
  unfoldable pub revoke_superseded : ℕ → ℕ → Store R → (Result × Store R)
  revoke_superseded node slot s =
      if any_superseded node slot 0 s.registry.entries
      then (let (saved, s') =
            save_registry store
              (record s.registry { entries = supersede node slot 0 s.registry.entries }) s in
          (if saved then Result.ok else Result.storage_error, s'))
      else (Result.ok, s)

  unfoldable pub append_sample : ℕ → ℕ → Receipt → Store R → (Result × Store R)
  append_sample node slot receipt s =
      let (room, s1) = make_space s in
      if not room
      then (Result.storage_error, s1)
      else let (stored, s2) = store_sample slot receipt s1 in
        if not stored then (Result.storage_error, s2) else revoke_superseded node slot s2

  module _ (c : Crypto) where
    -- The frame of a receipt is this binding's DATA with the receipt's counter.
    unfoldable pub matches : Binding → ℕ → Receipt → Bool
    matches b expected receipt =
        let (r, m) = open_frame c b receipt.last in
        is_ok r && m.type == type_data && m.counter == receipt.counter && ltb expected m.counter

    unfoldable pub commit_at : ℕ → Binding → ℕ → Receipt → Store R → (Result × Store R)
    commit_at slot b expected receipt s =
        if not (is_receiver s.role)
        then (Result.unauthorized, s)
        else if not ((get_or s.receipts slot no_receipt_record).receipt.counter == expected)
        then (Result.conflict, s)
        else if not (matches b expected receipt)
        then (Result.invalid, s)
        else append_sample b.node slot receipt s

    unfoldable pub commit : Binding → ℕ → Receipt → Store R → (Result × Store R)
    commit b expected receipt s =
        if not (healthy s) then (Result.storage_error, s) else elim (authorized b s) [
          | none ↦ (Result.unauthorized, s)
          | some slot ↦ commit_at slot b expected receipt s
        ]

    -- The front's sample, opened; a front that does not open latches the store.
    unfoldable pub open_front :
        (Health × Option QueueRecord) → Store R → (Option QueuedSample × Store R)
    open_front (Health.ready, some q) s =
        let e = entry_at s.registry q.slot in
        let (r, m) = open_frame c (binding_of e s.registry.network) q.frame in
        if is_ok r
        then (
          some (record {
            node = e.node;
            generation = e.generation;
            counter = m.counter;
            sample = m.sample;
            link = q.link;
          }),
          s,
        )
        else (none, fail Health.invalid s)
    open_front (health, q) s = (none, fail health s)

    unfoldable pub peek : Store R → (Option QueuedSample × Store R)
    peek s = if not (healthy s) || queued s == 0 then (none, s) else open_front (read_front s) s

    unfoldable pub is_front : ℕ → ℕ → ℕ → QueuedSample → Bool
    is_front node generation counter q =
        q.node == node && q.generation == generation && q.counter == counter

    unfoldable pub forward_front : ℕ → ℕ → ℕ → (Option QueuedSample × Store R) → (Result × Store R)
    forward_front node generation counter (none, s) =
        (if healthy s then Result.conflict else Result.storage_error, s)
    forward_front node generation counter (some q, s) =
        if not (is_front node generation counter q)
        then (Result.conflict, s)
        else let (saved, s') = save_head store (next_sequence s.head) s in
          if not saved then (Result.storage_error, s') else elim (find node generation s) [
            | none ↦ (Result.ok, s')
            | some slot ↦ (Result.ok, record s' { queued_by_slot = unbump s'.queued_by_slot slot })
          ]

    -- Drops the front once it was forwarded.
    unfoldable pub forwarded : ℕ → ℕ → ℕ → Store R → (Result × Store R)
    forwarded node generation counter s =
        if not (healthy s)
        then (Result.storage_error, s)
        else forward_front node generation counter (peek s)

    -- The two interfaces that the protocol asks for.
    abbrev pub journal : Journal (Store R)
    journal = record { load = load; commit = commit }

  abbrev pub counters : CounterStore (Store R)
  counters = record { reserve = reserve }
