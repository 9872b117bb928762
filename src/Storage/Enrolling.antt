-- ===== src/Storage/Enrolling.antt =====
-- cajui_storage.cpp: `prepare`, `activate`, `activateAlongside`, `revoke`, `reset` and the queries
-- on enrollments.
use cajui_firmware.Base.{
  ℕ, Bool, true, false, not, ◌&&◌, ◌||◌, List, [], Option, none, some, ◌==◌, if◌then◌else◌,
  bytes_eq, get_or, set, replicate, map, take,
}
use cajui_firmware.Protocol.{Binding, Result}
use cajui_firmware.Protocol.Crypto.{Crypto}
use cajui_firmware.Records.{
  is_receiver, Enrollment, is_empty, is_active, is_revoked, Entry, no_registry, RetiredList,
  no_receipt_record, binding_capacity,
}
use cajui_firmware.Records.Registries.{nonzero}
use cajui_firmware.Records.Enrollments.{fingerprint}
use cajui_firmware.Records.Retirement.{is_retired, retire}
use cajui_firmware.Storage.{
  RecordStore, Store, find_index, binding_of, entry_at, healthy, queued, find, save_registry,
  save_retired, save_head, commit_registry,
}
use cajui_firmware.Storage.Entries.{
  EnrollmentInfo, Credential, any_clash, reclaimable_from, revoke_node, set_state, last_used,
  revoke_others, retire_all, free_count, infos, active_bindings, other_network, enrolled,
}

module _ {R : Type 0} where
  unfoldable pub info : ℕ → ℕ → Store R → Option EnrollmentInfo
  info node generation s = if not (healthy s) then none else elim (find node generation s) [
    | none ↦ none
    | some i ↦
        let e = entry_at s.registry i in
        some (record {
          state = e.state;
          node = e.node;
          generation = e.generation;
          counter = e.counter;
          received = (get_or s.receipts i no_receipt_record).receipt.counter;
        })
  ]

  unfoldable pub free_slots : Store R → ℕ
  free_slots s = if not (healthy s) then 0 else free_count s.registry.entries s.queued_by_slot

  unfoldable pub list : Store R → ℕ → List EnrollmentInfo
  list s capacity =
      if not (healthy s) then [] else take capacity (infos s.registry.entries s.receipts)

  unfoldable pub binding : ℕ → Store R → Option Binding
  binding node s =
      if not (healthy s)
      then none
      else elim (find_index (λ (e : Entry). e.node == node && is_active e.state)
          s.registry.entries) [
            | none ↦ none
            | some i ↦ some (binding_of (entry_at s.registry i) s.registry.network)
          ]

  unfoldable pub bindings : ℕ → Store R → ℕ → List Binding
  bindings node s capacity =
      if not (healthy s)
      then []
      else take capacity (active_bindings node s.registry.network s.registry.entries)

  unfoldable pub refused : Credential → Store R → Bool
  refused a s =
      a.network == 0
      || a.receiver == 0
      || a.node == 0
      || a.generation == 0
      || not (nonzero a.key)
      || a.receiver == a.node
      || not (a.profile == 1)
      || (not (is_receiver s.role) && not (a.node == s.device))
      || (is_receiver s.role && not (a.receiver == s.device))

  module _ (store : RecordStore R) (c : Crypto) where
    unfoldable pub write_entry : Credential → ℕ → Store R → (Result × Store R)
    write_entry a slot s =
        let (saved, s') = save_registry store (enrolled a slot s.registry) s in
        if saved
        then (Result.ok, record s' { receipts = set s'.receipts slot no_receipt_record })
        else (Result.storage_error, s')

    -- A revoked slot is freed: its credential joins the retired list first.
    unfoldable pub reclaim : Credential → Store R → (Result × Store R)
    reclaim a s = elim (reclaimable_from 0 s.registry.entries s.queued_by_slot) [
      | none ↦ (Result.full, s)
      | some slot ↦
          let old = entry_at s.registry slot in
          elim (fingerprint c old.key) [
            | none ↦ (Result.crypto_error, s)
            | some print ↦
                let (saved, s') =
                  save_retired store
                    (if is_retired s.retired old.generation print
                      then s.retired
                      else retire s.retired old.generation print)
                    s in
                if saved then write_entry a slot s' else (Result.storage_error, s')
          ]
    ]

    -- `prepare` for a credential that is not enrolled.
    unfoldable pub prepare_new : Credential → Store R → (Result × Store R)
    prepare_new a s = elim (fingerprint c a.key) [
      | none ↦ (Result.crypto_error, s)
      | some print ↦
          if is_retired s.retired a.generation print || any_clash a s.registry.entries
          then (Result.conflict, s)
          else elim (find_index (λ (e : Entry). is_empty e.state) s.registry.entries) [
            | none ↦ reclaim a s
            | some slot ↦ write_entry a slot s
          ]
    ]

    unfoldable pub prepare : Credential → Store R → (Result × Store R)
    prepare a s =
        if not (healthy s)
        then (Result.storage_error, s)
        else if refused a s
        then (Result.invalid, s)
        else if other_network a s.registry
        then (Result.conflict, s)
        else elim (find a.node a.generation s) [
          | none ↦ prepare_new a s
          | some i ↦
              let e = entry_at s.registry i in
              (
                if bytes_eq e.key a.key && not (is_revoked e.state)
                    then Result.ok
                    else Result.conflict,
                s,
              )
        ]

    -- The registry with an enrollment active and every other one of its node revoked.
    unfoldable pub activate : ℕ → ℕ → Store R → (Result × Store R)
    activate node generation s =
        if not (healthy s) then (Result.storage_error, s) else elim (find node generation s) [
          | none ↦ (Result.not_found, s)
          | some i ↦ elim (entry_at s.registry i).state [
            | Enrollment.active ↦ (Result.ok, s)
            | Enrollment.prepared ↦
                commit_registry store
                  (record s.registry {
                    entries =
                        set_state (map (revoke_node node) s.registry.entries) i Enrollment.active;
                  })
                  s
            | _ ↦ (Result.conflict, s)
          ]
        ]

    unfoldable pub activate_alongside : ℕ → ℕ → Store R → (Result × Store R)
    activate_alongside node generation s =
        if not (healthy s)
        then (Result.storage_error, s)
        else if not (is_receiver s.role)
        then (Result.invalid, s)
        else elim (find node generation s) [
          | none ↦ (Result.not_found, s)
          | some i ↦ elim (entry_at s.registry i).state [
            | Enrollment.active ↦ (Result.ok, s)
            | Enrollment.prepared ↦
                let keep = last_used node 0 none s.registry.entries s.receipts in
                commit_registry store
                  (record s.registry {
                    entries =
                        set_state (revoke_others node keep 0 s.registry.entries) i
                          Enrollment.active;
                  })
                  s
            | _ ↦ (Result.conflict, s)
          ]
        ]

    unfoldable pub revoke : ℕ → ℕ → Store R → (Result × Store R)
    revoke node generation s =
        if not (healthy s) then (Result.storage_error, s) else elim (find node generation s) [
          | none ↦ (Result.not_found, s)
          | some i ↦
              if is_revoked (entry_at s.registry i).state
              then (Result.ok, s)
              else commit_registry store
                  (record s.registry {
                    entries = set_state s.registry.entries i Enrollment.revoked;
                  })
                  s
        ]

    -- The three writes of `reset` before the registry is emptied.
    unfoldable pub reset_writes : List Entry → RetiredList → Store R → (Bool × Store R)
    reset_writes entries list s =
        let (a, s1) = save_registry store (record s.registry { entries = entries }) s in
        if not a
        then (false, s1)
        else let (b, s2) = save_retired store list s1 in
          if not b
          then (false, s2)
          else if queued s2 == 0
          then (true, s2)
          else save_head store s2.tail s2

    unfoldable pub reset : Bool → Store R → (Result × Store R)
    reset discard_queue s =
        if not (healthy s)
        then (Result.storage_error, s)
        else if not (queued s == 0) && not discard_queue
        then (Result.conflict, s)
        else elim (retire_all c s.retired s.registry.entries) [
          | none ↦ (Result.crypto_error, s)
          | some (entries, list) ↦
              let (a, s1) = reset_writes entries list s in
              if not a
              then (Result.storage_error, s1)
              else let (b, s2) = save_registry store no_registry s1 in
                if not b then (Result.storage_error, s2) else (
                  Result.ok,
                  record s2 {
                    receipts = replicate binding_capacity no_receipt_record;
                    queued_by_slot = replicate binding_capacity 0;
                  },
                )
        ]
