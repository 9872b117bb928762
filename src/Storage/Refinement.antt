-- ===== src/Storage/Refinement.antt =====
-- `PersistentStore` implements the `Journal` of the protocol.
use cajui_firmware.Base.{
  ℕ, ◌+◌, ◌-◌, ◌^◌, ◌≤◌, ◌<◌, ◌≡◌, sym, ap, ◌∙◌, true, List, some, arith, inl, inr, get_or,
  get_or-set_self,
}
use cajui_firmware.Protocol.{Binding, Result, Receipt}
use cajui_firmware.Protocol.Crypto.{Crypto}
use cajui_firmware.Protocol.Delivery.Exchange.{JournalLaws}
use cajui_firmware.Records.{is_ready, no_entry, no_receipt_record, ReceiptRecord, queue_capacity}
use cajui_firmware.Storage.{
  RecordStore, Store, healthy, queued, is_authority, find_index, authorized,
}
use cajui_firmware.Storage.Indexing.{find_index_found}
use cajui_firmware.Storage.Sampling.{load, commit, journal}
use cajui_firmware.Storage.Journaling.{IsSized, authority-supersede}
use cajui_firmware.Storage.Committing.{Committed, commit_ok, commit_IsSized}

module _ {R : Type 0} (store : RecordStore R) (c : Crypto) where
  authorized_parts :
      (b : Binding) (s : Store R) (i : ℕ)
      → authorized b s ≡ some i
      → (b.active ≡ true)
        × (b.network ≡ s.registry.network)
        × (find_index (is_authority b) s.registry.entries ≡ some i)
  unfolding authorized
  authorized_parts b s i h = ground arith

  authorized_of_parts :
      (b : Binding) (s : Store R) (i : ℕ)
      → healthy s ≡ true
      → b.active ≡ true
      → b.network ≡ s.registry.network
      → find_index (is_authority b) s.registry.entries ≡ some i
      → authorized b s ≡ some i
  unfolding authorized
  authorized_of_parts b s i alive active network h = ground arith

  still_authorized :
      (b : Binding) (n : ℕ) (r : Receipt) (s t : Store R) (k : Committed store c b n r s t)
      → authorized b t ≡ some k.slot
  still_authorized b n r s t k =
      let (active, network, found) = authorized_parts b s k.slot k.authority in
      let moved =
        authority-supersede b b.node k.slot 0 k.slot s.registry.entries (omega arith) found in
      authorized_of_parts b t k.slot (ap is_ready k.appended.health_kept ∙ k.is_healthy) active
        (network ∙ sym k.appended.network_kept)
        (elim k.appended.entries_now [
          | inl e ↦ ap (find_index (is_authority b)) e ∙ found
          | inr e ↦ ap (find_index (is_authority b)) e ∙ moved
        ])

  load-commit :
      (b : Binding) (n : ℕ) (r : Receipt) (s t : Store R)
      → IsSized s
      → commit store c b n r s ≡ (Result.ok, t)
      → load store b t ≡ some r
  unfolding load
  load-commit b n r s t w h =
      let k = commit_ok store c b n r s t h in
      let (p, set_now, is_r, _) = k.appended.receipt_now in
      let (_, _, found) = authorized_parts b s k.slot k.authority in
      let (inside, _) =
        find_index_found (is_authority b) s.registry.entries k.slot no_entry found in
      let stored : (get_or t.receipts k.slot no_receipt_record) ≡ p =
        ap (λ (l : List ReceiptRecord). get_or l k.slot no_receipt_record) set_now
        ∙ get_or-set_self s.receipts k.slot p no_receipt_record
            (omega (arith, w.entries_sized, w.receipts_sized)) in
      rw (still_authorized b n r s t k, k.appended.role_kept, load)
        (ground (arith, k.receives, stored, is_r))

  -- The store is a journal as `receive` needs it, in every state with its 16 entries, receipts and
  -- counts: a receipt that a commit answered Ok for is the one loaded next, and a commit, failed or
  -- not, leaves such a state.
  pub journal-JournalLaws : JournalLaws IsSized (journal store c)
  journal-JournalLaws = record {
    load-commit = load-commit;
    keep = λ b n r s w. commit_IsSized store c b n r s w;
  }

  -- The queue's ends are in order and at most 128 samples apart, and the next sequence fits.
  pub record IsQueue (s : Store R) : Type 0 where
    pub ordered : s.head ≤ s.tail
    pub bounded : s.tail - s.head ≤ queue_capacity
    pub in_range : s.tail < 2 ^ 64 - 1

  -- From a queue with its ends in order, at most 128 samples and a next sequence that fits 64 bits,
  -- a committed sample is the queue's last: the tail goes up by one, and the head stays unless the
  -- queue was full; then the oldest sample alone is given up.
  pub commit_queue :
      (b : Binding) (n : ℕ) (r : Receipt) (s t : Store R)
      → IsQueue s
      → commit store c b n r s ≡ (Result.ok, t)
      → (t.tail ≡ s.tail + 1)
        × (t.head ≤ t.tail)
        × (queued t ≤ queue_capacity)
        × ((queued s < queue_capacity) → (t.head ≡ s.head) × (queued t ≡ queued s + 1))
        × ((queued s ≡ queue_capacity) → (t.head ≡ s.head + 1) × (queued t ≡ queued s))
  commit_queue b n r s t q h =
      let k = commit_ok store c b n r s t h in
      ground (arith, k.appended.head_now, k.appended.tail_now, q.ordered, q.bounded, q.in_range)
