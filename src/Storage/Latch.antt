-- ===== src/Storage/Latch.antt =====
-- A failed or ambiguous write latches the store.
use cajui_firmware.Base.{
  ℕ, ◌≡◌, refl, false, none, arith, if◌then◌else◌, map, Option-cases, inl, inr,
}
use cajui_firmware.Protocol.{Result}
use cajui_firmware.Protocol.Crypto.{Crypto}
use cajui_firmware.Records.{Registry, RetiredList, Enrollment, Entry, is_empty}
use cajui_firmware.Records.Enrollments.{fingerprint}
use cajui_firmware.Storage.{
  RecordStore, Store, find, find_index, healthy, entry_at, save_registry, save_retired,
  commit_registry,
}
use cajui_firmware.Records.Retirement.{is_retired, retire}
use cajui_firmware.Storage.Entries.{
  Credential, reclaimable_from, enrolled, set_state, revoke_node, revoke_others, last_used,
}
use cajui_firmware.Storage.Enrolling.{
  write_entry, reclaim, prepare_new, prepare, activate, activate_alongside, revoke,
}

-- A storage error is answered by a store that is not healthy.
abbrev pub Latches : {R : Type 0} → Result × Store R → Type 0
Latches p = p.0 ≡ Result.storage_error → healthy p.1 ≡ false

module _ {R : Type 0} (store : RecordStore R) (c : Crypto) where
  save_registry_Latches :
      (next : Registry) (s : Store R)
      → (save_registry store next s).0 ≡ false
      → healthy (save_registry store next s).1 ≡ false
  unfolding save_registry
  save_registry_Latches next s h = ground arith

  save_retired_Latches :
      (next : RetiredList) (s : Store R)
      → (save_retired store next s).0 ≡ false
      → healthy (save_retired store next s).1 ≡ false
  unfolding save_retired
  save_retired_Latches next s h = ground arith

  commit_registry-Latches : (next : Registry) (s : Store R) → Latches (commit_registry store next s)
  unfolding commit_registry
  commit_registry-Latches next s h = ground (arith, save_registry_Latches next s)

  write_entry-Latches :
      (a : Credential) (slot : ℕ) (s : Store R) → Latches (write_entry store c a slot s)
  unfolding write_entry
  write_entry-Latches a slot s h =
      ground (arith, save_registry_Latches (enrolled a slot s.registry) s)

  reclaim-Latches : (a : Credential) (s : Store R) → Latches (reclaim store c a s)
  unfolding reclaim
  reclaim-Latches a s h =
      elim (Option-cases (reclaimable_from 0 s.registry.entries s.queued_by_slot)) [
        | inl e ↦ absurd (ground (arith, e))
        | inr (slot, e) ↦
            let old = entry_at s.registry slot in
            elim (Option-cases (fingerprint c old.key)) [
              | inl f ↦ absurd (ground (arith, e, f))
              | inr (print, f) ↦
                  let next : RetiredList =
                    (if is_retired s.retired old.generation print
                      then s.retired
                      else retire s.retired old.generation print) in
                  rw (e, f, reclaim)
                    (ground (
                      arith,
                      e,
                      f,
                      save_retired_Latches next s,
                      write_entry-Latches a slot (save_retired store next s).1,
                    ))
            ]
      ]

  prepare_new-Latches : (a : Credential) (s : Store R) → Latches (prepare_new store c a s)
  unfolding prepare_new
  prepare_new-Latches a s h = elim (Option-cases (fingerprint c a.key)) [
    | inl e ↦ absurd (ground (arith, e))
    | inr (print, e) ↦
        elim (Option-cases (find_index (λ (x : Entry). is_empty x.state) s.registry.entries)) [
          | inl f ↦ ground (arith, e, f, reclaim-Latches a s)
          | inr (slot, f) ↦ ground (arith, e, f, write_entry-Latches a slot s)
        ]
  ]

  prepare-Latches : (a : Credential) (s : Store R) → Latches (prepare store c a s)
  unfolding prepare
  prepare-Latches a s h = elim (Option-cases (find a.node a.generation s)) [
    | inl e ↦ ground (arith, e, prepare_new-Latches a s)
    | inr (i, e) ↦ ground (arith, e)
  ]

  activate-Latches :
      (node generation : ℕ) (s : Store R) → Latches (activate store c node generation s)
  unfolding activate
  activate-Latches node generation s h = elim (Option-cases (find node generation s)) [
    | inl e ↦ ground (arith, e)
    | inr (i, e) ↦ ground (
      arith,
      e,
      commit_registry-Latches
          (record s.registry {
            entries = set_state (map (revoke_node node) s.registry.entries) i Enrollment.active;
          })
          s,
    )
  ]

  alongside_Latches :
      (node generation : ℕ) (s : Store R) → Latches (activate_alongside store c node generation s)
  unfolding activate_alongside
  alongside_Latches node generation s h = elim (Option-cases (find node generation s)) [
    | inl e ↦ ground (arith, e)
    | inr (i, e) ↦
        let keep = last_used node 0 none s.registry.entries s.receipts in
        ground (
          arith,
          e,
          commit_registry-Latches
              (record s.registry {
                entries =
                    set_state (revoke_others node keep 0 s.registry.entries) i Enrollment.active;
              })
              s,
        )
  ]

  revoke-Latches : (node generation : ℕ) (s : Store R) → Latches (revoke store c node generation s)
  unfolding revoke
  revoke-Latches node generation s h = elim (Option-cases (find node generation s)) [
    | inl e ↦ ground (arith, e)
    | inr (i, e) ↦ ground (
      arith,
      e,
      commit_registry-Latches
          (record s.registry { entries = set_state s.registry.entries i Enrollment.revoked }) s,
    )
  ]

  -- Whichever enrollment operation answers StorageError, the store is not healthy afterwards; and
  -- a store that is not healthy answers StorageError and changes nothing.
  pub enrollment_Latches :
      (a : Credential) (node generation : ℕ) (s : Store R)
      → Latches (prepare store c a s)
        × Latches (activate store c node generation s)
        × Latches (activate_alongside store c node generation s)
        × Latches (revoke store c node generation s)
        × (healthy s ≡ false
            → (prepare store c a s ≡ (Result.storage_error, s))
              × (activate store c node generation s ≡ (Result.storage_error, s))
              × (activate_alongside store c node generation s ≡ (Result.storage_error, s))
              × (revoke store c node generation s ≡ (Result.storage_error, s)))
  unfolding prepare activate activate_alongside revoke
  enrollment_Latches a node generation s = (
    prepare-Latches a s,
    activate-Latches node generation s,
    alongside_Latches node generation s,
    revoke-Latches node generation s,
    λ h. (rw h refl, rw h refl, rw h refl, rw h refl),
  )
