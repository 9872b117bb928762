-- ===== src/Storage/Committing.antt =====
-- `commit` on a `PersistentStore` keeps what `Journal` promises.
use cajui_firmware.Base.{
  subst, ℕ, ◌≡◌, refl, ap, ◌∙◌, true, List, some, arith, ◌==◌, if◌then◌else◌, Option-cases, inl,
  inr, length, get_or, set, ◌⊎◌,
}
use cajui_firmware.Protocol.{Binding, Result, Receipt}
use cajui_firmware.Protocol.Crypto.{Crypto}
use cajui_firmware.Records.{is_receiver, Registry, no_receipt_record, ReceiptRecord, queue_capacity}
use cajui_firmware.Storage.{
  RecordStore, Store, healthy, authorized, save_registry, next_sequence, queued,
}
use cajui_firmware.Storage.Sampling.{
  supersede, make_space, receipt_record, store_sample, revoke_superseded, append_sample, matches,
  commit_at, commit,
}
use cajui_firmware.Storage.Journaling.{
  IsSized, length-supersede, Kept, make_space-Kept, make_space_done, store_sample-IsSized,
  store_sample-Stored,
}

module _ {R : Type 0} (store : RecordStore R) where
  -- What the revocation of superseded generations may change: the registry's revision, and the
  -- states of other entries of the node.
  record Superseded (node slot : ℕ) (s t : Store R) : Type 0 where
    receipts_kept : t.receipts ≡ s.receipts
    role_kept : t.role ≡ s.role
    network_kept : t.registry.network ≡ s.registry.network
    counts_kept : t.queued_by_slot ≡ s.queued_by_slot
    ends_kept : (t.head ≡ s.head) × (t.tail ≡ s.tail)
    entries_now :
        (t.registry.entries ≡ s.registry.entries)
        ⊎ (t.registry.entries ≡ supersede node slot 0 s.registry.entries)

  revoke_superseded_lem :
      (node slot : ℕ) (s : Store R) → Superseded node slot s (revoke_superseded store node slot s).1
  unfolding revoke_superseded save_registry
  revoke_superseded_lem node slot s = ground arith

  revoke_superseded_ok :
      (node slot : ℕ) (s : Store R)
      → (revoke_superseded store node slot s).0 ≡ Result.ok
      → (revoke_superseded store node slot s).1.health ≡ s.health
  unfolding revoke_superseded save_registry
  revoke_superseded_ok node slot s h = ground arith

  Superseded-IsSized :
      (node slot : ℕ) (s t : Store R) → Superseded node slot s t → IsSized s → IsSized t
  Superseded-IsSized node slot s t u w = record {
    entries_sized =
        ground
          (arith, u.entries_now, w.entries_sized, length-supersede node slot 0 s.registry.entries);
    receipts_sized = ap length u.receipts_kept ∙ w.receipts_sized;
    counts_sized = ap length u.counts_kept ∙ w.counts_sized;
  }

  Kept-IsSized : (s t : Store R) → Kept s t → IsSized s → IsSized t
  Kept-IsSized s t k w = record {
    entries_sized = ap (λ (r : Registry). length r.entries) k.registry_kept ∙ w.entries_sized;
    receipts_sized = ap length k.receipts_kept ∙ w.receipts_sized;
    counts_sized = k.counts_kept ∙ w.counts_sized;
  }

  append_sample-IsSized :
      (node slot : ℕ) (r : Receipt) (s : Store R)
      → IsSized s
      → IsSized (append_sample store node slot r s).1
  unfolding append_sample
  append_sample-IsSized node slot r s w =
      let s1 = (make_space store s).1 in
      let w1 = Kept-IsSized s s1 (make_space-Kept store s) w in
      let s2 = (store_sample store slot r s1).1 in
      let w2 = store_sample-IsSized store slot r s1 w1 in
      let w3 = Superseded-IsSized node slot s2 _ (revoke_superseded_lem node slot s2) w2 in
      ground (arith, w1, w2, w3)

  -- A sample that was appended: the queue's ends, the receipt, and the entries.
  pub record Appended (node slot : ℕ) (r : Receipt) (s t : Store R) : Type 0 where
    pub health_kept : t.health ≡ s.health
    pub role_kept : t.role ≡ s.role
    pub network_kept : t.registry.network ≡ s.registry.network
    pub entries_now :
        (t.registry.entries ≡ s.registry.entries)
        ⊎ (t.registry.entries ≡ supersede node slot 0 s.registry.entries)
    pub receipt_now :
        (p : ReceiptRecord) × (t.receipts ≡ set s.receipts slot p)
        × (p.receipt ≡ r)
        × (p.through ≡ next_sequence s.tail)
    pub head_now : t.head ≡ (if queued s == queue_capacity then next_sequence s.head else s.head)
    pub tail_now : t.tail ≡ next_sequence s.tail

  append_sample_ok :
      (node slot : ℕ) (r : Receipt) (s t : Store R)
      → append_sample store node slot r s ≡ (Result.ok, t)
      → Appended node slot r s t
  unfolding append_sample
  append_sample_ok node slot r s t h =
      let room : (make_space store s).0 ≡ true = ground arith in
      let s1 = (make_space store s).1 in
      let stored : (store_sample store slot r s1).0 ≡ true = ground arith in
      let s2 = (store_sample store slot r s1).1 in
      let last : revoke_superseded store node slot s2 ≡ (Result.ok, t) = ground arith in
      let k = make_space-Kept store s in
      let d = make_space_done store s room in
      let p = store_sample-Stored store slot r s1 stored in
      let u = revoke_superseded_lem node slot s2 in
      let alive = revoke_superseded_ok node slot s2 (ap (λ (q : Result × Store R). q.0) last) in
      let entries : s2.registry.entries ≡ s.registry.entries =
        ap (λ (g : Registry). g.entries) (p.registry_kept ∙ k.registry_kept) in
      subst (Appended node slot r s) (ap (λ (q : Result × Store R). q.1) last) (record {
        health_kept = alive ∙ p.health_kept ∙ d.0;
        role_kept = u.role_kept ∙ p.role_kept ∙ k.role_kept;
        network_kept =
            u.network_kept ∙ ap (λ (g : Registry). g.network) (p.registry_kept ∙ k.registry_kept);
        entries_now = rw entries at u.entries_now;
        receipt_now = (
          receipt_record store slot r s1,
          u.receipts_kept
              ∙ p.receipt_set
              ∙ ap (λ (l : List ReceiptRecord). set l slot (receipt_record store slot r s1))
                  k.receipts_kept,
          unfold receipt_record in refl,
          unfold receipt_record in ap next_sequence k.tail_kept,
        );
        head_now = u.ends_kept.0 ∙ p.head_kept ∙ d.1;
        tail_now = u.ends_kept.1 ∙ p.tail_next ∙ ap next_sequence k.tail_kept;
      })

  module _ (c : Crypto) where
    -- What a commit that answered Ok has done.
    pub record Committed (b : Binding) (n : ℕ) (r : Receipt) (s t : Store R) : Type 0 where
      pub slot : ℕ
      pub is_healthy : healthy s ≡ true
      pub authority : authorized b s ≡ some slot
      pub receives : is_receiver s.role ≡ true
      pub expected : (get_or s.receipts slot no_receipt_record).receipt.counter ≡ n
      pub matched : matches store c b n r ≡ true
      pub appended : Appended b.node slot r s t

    commit_at_ok :
        (slot : ℕ) (b : Binding) (n : ℕ) (r : Receipt) (s t : Store R)
        → commit_at store c slot b n r s ≡ (Result.ok, t)
        → (is_receiver s.role ≡ true)
          × ((get_or s.receipts slot no_receipt_record).receipt.counter ≡ n)
          × (matches store c b n r ≡ true)
          × (append_sample store b.node slot r s ≡ (Result.ok, t))
    unfolding commit_at
    commit_at_ok slot b n r s t h = ground arith

    pub commit_ok :
        (b : Binding) (n : ℕ) (r : Receipt) (s t : Store R)
        → commit store c b n r s ≡ (Result.ok, t)
        → Committed b n r s t
    unfolding commit
    commit_ok b n r s t h = elim (Option-cases (authorized b s)) [
      | inl e ↦ absurd (ground (arith, e))
      | inr (slot, e) ↦
          let alive : healthy s ≡ true = ground arith in
          let (receives, expected, matched, appended) =
            commit_at_ok slot b n r s t (rw (alive, e, commit) at h) in
          record {
            slot = slot;
            is_healthy = alive;
            authority = e;
            receives = receives;
            expected = expected;
            matched = matched;
            appended = append_sample_ok b.node slot r s t appended;
          }
    ]

    commit_at-IsSized :
        (slot : ℕ) (b : Binding) (n : ℕ) (r : Receipt) (s : Store R)
        → IsSized s
        → IsSized (commit_at store c slot b n r s).1
    unfolding commit_at
    commit_at-IsSized slot b n r s w = ground (arith, append_sample-IsSized b.node slot r s w)

    pub commit_IsSized :
        (b : Binding) (n : ℕ) (r : Receipt) (s : Store R)
        → IsSized s
        → IsSized (commit store c b n r s).1
    unfolding commit
    commit_IsSized b n r s w = elim (Option-cases (authorized b s)) [
      | inl e ↦ rw (e, commit) (ground arith)
      | inr (slot, e) ↦ rw (e, commit) (ground (arith, commit_at-IsSized slot b n r s w))
    ]
