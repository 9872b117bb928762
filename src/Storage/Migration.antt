-- ===== src/Storage/Migration.antt =====
-- What an attempted migration of a v1 snapshot leaves in the records.
use cajui_firmware.Base.{
  ℕ, suc, ◌+◌, ◌≡◌, ◌≢◌, ◌⊎◌, refl, sym, ap, ◌∙◌, Bool, true, false, ◌||◌, List, [], ◌∷◌, arith,
  ◌==◌, if◌then◌else◌, Bool-cases, inl, inr, length, get_or, set, replicate,
}
use cajui_firmware.Protocol.Crypto.{Crypto}
use cajui_firmware.Records.{
  Registry, Role, is_receiver, is_empty, Health, binding_capacity, registry_key, legacy_key,
  head_key,
}
use cajui_firmware.Records.Enrollments.{encode_registry}
use cajui_firmware.Records.Head.{encode_head}
use cajui_firmware.Records.Names.{receipt_key, queue_key}
use cajui_firmware.Records.Queue.{encode_queue, encode_receipt}
use cajui_firmware.Storage.{Read, found, missing, RecordStore, RecordLaws}
use cajui_firmware.Storage.Snapshots.{OldEntry, Queued, State, OldDecoded, decode_snapshot}
use cajui_firmware.Storage.Refusing.{is_sound, decode_snapshot_sound}
use cajui_firmware.Storage.Copying.{IsCopy, migrated_registry-IsCopy}
use cajui_firmware.Storage.Migrating.{
  migrated_registry, migrated_sample, write_samples, write_receipts, write_queue, write_registry,
  migrate_state, migrate,
}

queue_key_short : (sequence : ℕ) → length (queue_key sequence) ≡ 3
unfolding queue_key
queue_key_short sequence = refl

receipt_key_short : (slot : ℕ) → length (receipt_key slot) ≡ 3
unfolding receipt_key
receipt_key_short slot = refl

Read-cases :
    (x : Read) → ((bytes : List ℕ) × (x ≡ found bytes)) ⊎ ((x ≡ missing) ⊎ (x ≡ Read.error))
Read-cases (Read.found bytes) = inl (bytes, refl)
Read-cases Read.missing = inr (inl refl)
Read-cases Read.error = inr (inr refl)

OldDecoded-cases :
    (d : OldDecoded)
    → ((g : State) × (d ≡ OldDecoded.ready g)) ⊎ ((h : Health) × (d ≡ OldDecoded.refused h))
OldDecoded-cases (OldDecoded.ready g) = inl (g, refl)
OldDecoded-cases (OldDecoded.refused h) = inr (h, refl)

module _ {R : Type 0} (store : RecordStore R) (laws : RecordLaws store) where
  abbrev before_registry : State → Role → R → (Bool × R)
  before_registry g role r = if is_receiver role then write_queue store g r else (true, r)

  -- A record whose name is longer than those of receipts, samples and the head.
  module _ (name : List ℕ) (long : length name ≡ 8) where
    apart :
        (other bytes : List ℕ) (r : R)
        → length other ≢ 8
        → store.read name (store.write other bytes r).1 ≡ store.read name r
    apart other bytes r short =
        laws.read-write_other other name bytes r (λ e. short (ap length e ∙ long))

    read-write_samples :
        (g : State) (sequence : ℕ) (qs : List Queued) (through : List ℕ) (r : R)
        → store.read name (write_samples store g sequence qs through r).2 ≡ store.read name r
    unfolding write_samples
    read-write_samples g sequence [] through r = refl
    read-write_samples g sequence (q ∷ qs) through r =
        let bytes = encode_queue (migrated_sample g sequence q) in
        let one = apart (queue_key sequence) bytes r (omega (arith, queue_key_short sequence)) in
        let rest =
          read-write_samples g (suc sequence) qs (set through q.entry (sequence + 1))
            (store.write (queue_key sequence) bytes r).1 in
        elim (Bool-cases (store.write (queue_key sequence) bytes r).0) [
          | inl e ↦ rw e (rest ∙ one)
          | inr e ↦ rw e one
        ]

    read-write_receipts :
        (slot : ℕ) (es : List OldEntry) (through : List ℕ) (r : R)
        → store.read name (write_receipts store slot es through r).1 ≡ store.read name r
    unfolding write_receipts
    read-write_receipts slot [] through r = refl
    read-write_receipts slot (e ∷ es) through r =
        let bytes = encode_receipt (record {
          generation = e.generation;
          through = get_or through slot 0;
          receipt = e.receipt;
        }) in
        let r' = (store.write (receipt_key slot) bytes r).1 in
        let one = apart (receipt_key slot) bytes r (omega (arith, receipt_key_short slot)) in
        let rest = read-write_receipts (suc slot) es through r' in
        elim (Bool-cases (is_empty e.state || e.receipt.counter == 0)) [
          | inl skip ↦ rw skip (read-write_receipts (suc slot) es through r)
          | inr keep ↦ elim (Bool-cases (store.write (receipt_key slot) bytes r).0) [
            | inl ok ↦ rw (keep, ok) (rest ∙ one)
            | inr ok ↦ rw (keep, ok) one
          ]
        ]

    read-write_queue :
        (g : State) (r : R) → store.read name (write_queue store g r).1 ≡ store.read name r
    unfolding write_queue
    read-write_queue g r =
        let blank : List ℕ = replicate binding_capacity 0 in
        let first = write_samples store g 0 g.queue blank r in
        let samples = read-write_samples g 0 g.queue blank r in
        let second = write_receipts store 0 g.entries first.1 first.2 in
        let receipts = read-write_receipts 0 g.entries first.1 first.2 in
        let head = apart head_key (encode_head 0) second.1 (omega arith) in
        elim (Bool-cases first.0) [
          | inl a ↦ elim (Bool-cases second.0) [
            | inl b ↦ rw (a, b) (head ∙ receipts ∙ samples)
            | inr b ↦ rw (a, b) (receipts ∙ samples)
          ]
          | inr a ↦ rw a samples
        ]

    read_before_registry :
        (g : State) (role : Role) (r : R)
        → store.read name (before_registry g role r).1 ≡ store.read name r
    read_before_registry g Role.transmitter r = refl
    read_before_registry g Role.receiver r = read-write_queue g r

  -- The last write, the registry, is whole or absent, and the snapshot stays.
  record IsStep (g : State) (role : Role) (device : ℕ) (r r' : R) : Type 0 where
    snapshot_kept : store.read legacy_key r' ≡ store.read legacy_key r
    registry_whole :
        (store.read registry_key r' ≡ store.read registry_key r)
        ⊎ (store.read registry_key r' ≡ found (encode_registry (migrated_registry g) role device))

  legacy_apart : registry_key ≢ legacy_key
  legacy_apart e = absurd (ground (arith, ap (λ (x : List ℕ). get_or x 0 0) e))

  write_registry-IsStep :
      (g : State) (role : Role) (device : ℕ) (ok : Bool) (r : R)
      → IsStep g role device r (write_registry store g role device (ok, r)).1
  unfolding write_registry
  write_registry-IsStep g role device false r = record {
    snapshot_kept = refl;
    registry_whole = inl refl;
  }
  write_registry-IsStep g role device true r = record {
    snapshot_kept = laws.read-write_other registry_key legacy_key _ r legacy_apart;
    registry_whole = laws.write_atomic registry_key _ r;
  }

  write_registry-ready :
      (g : State) (role : Role) (device : ℕ) (p : Bool × R) (r' : R)
      → write_registry store g role device p ≡ (Health.ready, r')
      → store.read registry_key r' ≡ found (encode_registry (migrated_registry g) role device)
  unfolding write_registry
  write_registry-ready g role device (false, r) r' h = absurd (ground (arith, h))
  write_registry-ready g role device (true, r) r' h =
      laws.read-write registry_key _ r r' (ground (arith, h))

  -- What a registry record holds after a migration from `r`.
  abbrev pub IsMigrated : Crypto → Role → ℕ → R → R → Type 0
  IsMigrated c role device r r' =
      (bytes : List ℕ) × (g : State) × (store.read legacy_key r ≡ found bytes)
      × (decode_snapshot c bytes role device ≡ OldDecoded.ready g)
      × (store.read registry_key r' ≡ found (encode_registry (migrated_registry g) role device))

  migrated-IsStep :
      (g : State) (role : Role) (device : ℕ) (r : R)
      → IsStep g role device r (write_registry store g role device (before_registry g role r)).1
  migrated-IsStep g role device r =
      let p = before_registry g role r in
      let step = write_registry-IsStep g role device p.0 p.1 in
      let kept = read_before_registry registry_key refl g role r in
      record {
        snapshot_kept = step.snapshot_kept ∙ read_before_registry legacy_key refl g role r;
        registry_whole = elim step.registry_whole [ inl e ↦ inl (e ∙ kept) | inr e ↦ inr e ];
      }

  migrate_found :
      (c : Crypto) (role : Role) (device : ℕ) (r : R) (bytes : List ℕ) (g : State)
      → store.read legacy_key r ≡ found bytes
      → decode_snapshot c bytes role device ≡ OldDecoded.ready g
      → migrate store c role device r
        ≡ write_registry store g role device (before_registry g role r)
  unfolding migrate migrate_state
  migrate_found c role device r bytes g e d = rw (e, migrate) (rw (d, migrate_state) refl)

  migrate-refused :
      (c : Crypto) (role : Role) (device : ℕ) (r : R) (bytes : List ℕ) (x : Health)
      → store.read legacy_key r ≡ found bytes
      → decode_snapshot c bytes role device ≡ OldDecoded.refused x
      → migrate store c role device r ≡ (x, r)
  unfolding migrate migrate_state
  migrate-refused c role device r bytes x e d = rw (e, migrate) (rw (d, migrate_state) refl)

  whole :
      (c : Crypto) (role : Role) (device : ℕ) (r : R) (bytes : List ℕ) (g : State)
      → store.read legacy_key r ≡ found bytes
      → decode_snapshot c bytes role device ≡ OldDecoded.ready g
      → {r' : R}
      → (store.read registry_key r' ≡ store.read registry_key r)
        ⊎ (store.read registry_key r' ≡ found (encode_registry (migrated_registry g) role device))
      → (store.read registry_key r' ≡ store.read registry_key r) ⊎ IsMigrated c role device r r'
  whole c role device r bytes g e d (inl kept) = inl kept
  whole c role device r bytes g e d (inr new) = inr (bytes, g, e, d, new)

  -- Whatever a migration answers and wherever a write failed, the snapshot's record is as before, and
  -- the registry's record is as before or the whole registry of the decoded snapshot.
  pub migrate_atomic :
      (c : Crypto) (role : Role) (device : ℕ) (r : R)
      → (store.read legacy_key (migrate store c role device r).1 ≡ store.read legacy_key r)
        × ((store.read registry_key (migrate store c role device r).1 ≡ store.read registry_key r)
            ⊎ IsMigrated c role device r (migrate store c role device r).1)
  unfolding migrate migrate_state
  migrate_atomic c role device r = elim (Read-cases (store.read legacy_key r)) [
    | inl (bytes, e) ↦ elim (OldDecoded-cases (decode_snapshot c bytes role device)) [
      | inl (g, d) ↦
          let step = migrated-IsStep g role device r in
          rw (migrate_found c role device r bytes g e d)
            (step.snapshot_kept, whole c role device r bytes g e d step.registry_whole)
      | inr (h, d) ↦ rw (e, migrate) (rw (d, migrate_state) (e, inl refl))
    ]
    | inr (inl e) ↦ rw (e, migrate) (e, inl refl)
    | inr (inr e) ↦ rw (e, migrate) (e, inl refl)
  ]

  -- A migration of a snapshot that answers Ready decoded the snapshot and stored a registry that is a
  -- copy of it: the same revision, network, receiver and profile, and in each of the 16 slots the
  -- state, node, generation, counter and key of the snapshot's entry.
  pub migrate_ready :
      (c : Crypto) (role : Role) (device : ℕ) (bytes : List ℕ) (r r' : R)
      → store.read legacy_key r ≡ found bytes
      → migrate store c role device r ≡ (Health.ready, r')
      → (g : State) × (next : Registry) × (decode_snapshot c bytes role device ≡ OldDecoded.ready g)
        × IsCopy g next
        × (store.read registry_key r' ≡ found (encode_registry next role device))
  unfolding is_sound
  migrate_ready c role device bytes r r' e h =
      elim (OldDecoded-cases (decode_snapshot c bytes role device)) [
        | inl (g, d) ↦ (
          g,
          migrated_registry g,
          d,
          migrated_registry-IsCopy g,
          write_registry-ready g role device _ r'
              (sym (migrate_found c role device r bytes g e d) ∙ h),
        )
        | inr (x, d) ↦
            let same : x ≡ Health.ready =
              ap (λ (p : Health × R). p.0)
                (sym (migrate-refused c role device r bytes x e d) ∙ h) in
            absurd (
              ground (
                arith,
                ap is_sound (d ∙ ap OldDecoded.refused same),
                decode_snapshot_sound c bytes role device,
              ))
      ]
