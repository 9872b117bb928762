-- ===== src/Storage/Journaling.antt =====
-- The receiver's journal: a `PersistentStore` keeps what `Journal` promises.
use cajui_firmware.Base.{
  ℕ, zero, suc, ◌+◌, ◌-◌, ◌%◌, ◌^◌, ◌≡◌, refl, true, List, [], ◌∷◌, Option, none, some, arith, ◌==◌,
  if◌then◌else◌, length, get_or, set, length-set,
}
use cajui_firmware.Protocol.{Binding, Receipt}
use cajui_firmware.Records.{Health, Entry, QueueRecord, binding_capacity, queue_capacity}
use cajui_firmware.Storage.{
  RecordStore, Store, is_authority, find_index, save_head, next_sequence, queued,
}
use cajui_firmware.Storage.Sampling.{
  supersede, evict_front, read_front, make_space, receipt_record, store_sample,
}

-- The arrays of the store have one element for each slot.
pub record IsSized {R : Type 0} (s : Store R) : Type 0 where
  pub entries_sized : length s.registry.entries ≡ binding_capacity
  pub receipts_sized : length s.receipts ≡ binding_capacity
  pub counts_sized : length s.queued_by_slot ≡ binding_capacity

pub length-supersede :
    (node slot i : ℕ) (es : List Entry) → length (supersede node slot i es) ≡ length es
unfolding supersede
length-supersede node slot i [] = refl
length-supersede node slot i (e ∷ es) = omega (arith, length-supersede node slot (suc i) es)

-- Revoking the other generations leaves the one in use where it was.
pub authority-supersede :
    (b : Binding) (node slot i k : ℕ) (es : List Entry)
    → slot ≡ i + k
    → find_index (is_authority b) es ≡ some k
    → find_index (is_authority b) (supersede node slot i es) ≡ some k
unfolding find_index supersede is_authority
authority-supersede b node slot i k [] e h = absurd (ground arith)
authority-supersede b node slot i zero (x ∷ es) e h = ground arith
authority-supersede b node slot i (suc k) (x ∷ es) e h =
    ground (arith, authority-supersede b node slot (suc i) k es)

-- What an eviction, which may fail, leaves alone.
pub record Kept {R : Type 0} (s t : Store R) : Type 0 where
  pub registry_kept : t.registry ≡ s.registry
  pub receipts_kept : t.receipts ≡ s.receipts
  pub role_kept : t.role ≡ s.role
  pub tail_kept : t.tail ≡ s.tail
  pub counts_kept : length t.queued_by_slot ≡ length s.queued_by_slot

module _ {R : Type 0} (store : RecordStore R) where
  save_head-Kept : (n : ℕ) (s : Store R) → Kept s (save_head store n s).1
  unfolding save_head
  save_head-Kept n s = ground arith

  save_head_done :
      (n : ℕ) (s : Store R)
      → (save_head store n s).0 ≡ true
      → ((save_head store n s).1.health ≡ s.health) × ((save_head store n s).1.head ≡ n)
  unfolding save_head
  save_head_done n s = ground arith

  evict_front-Kept :
      (q : Health × Option QueueRecord) (s : Store R) → Kept s (evict_front store q s).1
  unfolding evict_front
  evict_front-Kept (Health.ready, some q) s =
      let t = (save_head store (next_sequence s.head) s).1 in
      ground (
        arith,
        save_head-Kept (next_sequence s.head) s,
        length-set t.queued_by_slot q.slot
            ((get_or t.queued_by_slot q.slot 0 + (2 ^ 16 - 1)) % 2 ^ 16),
      )
  evict_front-Kept (Health.ready, none) s = ground arith
  evict_front-Kept (_, q) s = ground arith

  evict_front_done :
      (q : Health × Option QueueRecord) (s : Store R)
      → (evict_front store q s).0 ≡ true
      → ((evict_front store q s).1.health ≡ s.health)
        × ((evict_front store q s).1.head ≡ next_sequence s.head)
  unfolding evict_front
  evict_front_done (Health.ready, some q) s h =
      ground (arith, save_head_done (next_sequence s.head) s)
  evict_front_done (Health.ready, none) s h = absurd (ground arith)
  evict_front_done (_, q) s h = absurd (ground arith)

  pub make_space-Kept : (s : Store R) → Kept s (make_space store s).1
  unfolding make_space
  make_space-Kept s = ground (arith, evict_front-Kept (read_front store s) s)

  -- With room made the queue has one sample less if it was full, and is otherwise as it was.
  pub make_space_done :
      (s : Store R)
      → (make_space store s).0 ≡ true
      → ((make_space store s).1.health ≡ s.health)
        × ((make_space store s).1.head
            ≡ (if queued s == queue_capacity then next_sequence s.head else s.head))
  unfolding make_space
  make_space_done s h = ground (arith, evict_front_done (read_front store s) s)

  pub store_sample-IsSized :
      (slot : ℕ) (r : Receipt) (s : Store R) → IsSized s → IsSized (store_sample store slot r s).1
  unfolding store_sample
  store_sample-IsSized slot r s w = ground (
    arith,
    w.entries_sized,
    w.receipts_sized,
    w.counts_sized,
    length-set s.receipts slot (receipt_record store slot r s),
    length-set s.queued_by_slot slot ((get_or s.queued_by_slot slot 0 + 1) % 2 ^ 16),
  )

  -- What a stored sample changes.
  pub record Stored (slot : ℕ) (r : Receipt) (s t : Store R) : Type 0 where
    pub health_kept : t.health ≡ s.health
    pub registry_kept : t.registry ≡ s.registry
    pub role_kept : t.role ≡ s.role
    pub head_kept : t.head ≡ s.head
    pub tail_next : t.tail ≡ next_sequence s.tail
    pub receipt_set : t.receipts ≡ set s.receipts slot (receipt_record store slot r s)

  pub store_sample-Stored :
      (slot : ℕ) (r : Receipt) (s : Store R)
      → (store_sample store slot r s).0 ≡ true
      → Stored slot r s (store_sample store slot r s).1
  unfolding store_sample
  store_sample-Stored slot r s h = ground arith
