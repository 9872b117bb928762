-- ===== src/Storage/Restarting.antt =====
-- A transmitter's counters across a restart.
use cajui_firmware.Base.{
  ℕ, ◌≡◌, ◌≢◌, ◌⊎◌, refl, ap, ◌∙◌, true, false, List, [], some, arith, ◌==◌, inl, inr, get_or,
}
use cajui_firmware.Protocol.Crypto.{Crypto}
use cajui_firmware.Records.{
  Role, Health, Registry, RetiredList, registry_key, retired_key, legacy_key,
}
use cajui_firmware.Records.Enrollments.{encode_registry}
use cajui_firmware.Records.RegistryReadBack.{IsRegistry, decode_registry-encode_registry}
use cajui_firmware.Records.Retirement.{decode_retired}
use cajui_firmware.Records.Validation.{validate}
use cajui_firmware.Storage.{found, missing, RecordStore, RecordLaws, Store}
use cajui_firmware.Storage.Mounting.{
  clear, check_rules, load_retired, take_registry, load_registry, load_all, after_load, mount,
}

names_apart : legacy_key ≢ retired_key
names_apart e = absurd (ground (arith, ap (λ (x : List ℕ). get_or x 0 0) e))

module _ {R : Type 0} (store : RecordStore R) (c : Crypto) where
  -- What the retired record holds: nothing yet, or the list.
  abbrev pub IsRetiredAt : R → RetiredList → Type 0
  IsRetiredAt r list =
      ((store.read retired_key r ≡ missing) × (list ≡ []))
      ⊎ ((bytes : List ℕ) × (store.read retired_key r ≡ found bytes)
          × (decode_retired bytes ≡ some list))

  check_rules-transmitter :
      (s : Store R)
      → s.role ≡ Role.transmitter
      → validate c s.registry s.role s.retired ≡ Health.ready
      → check_rules store c s ≡ (Health.ready, s)
  unfolding check_rules
  check_rules-transmitter s role valid = rw (valid, role) refl

  load_retired-IsRetiredAt :
      (s : Store R) (list : RetiredList)
      → IsRetiredAt s.records list
      → load_retired store c (record s { retired = [] })
        ≡ check_rules store c (record s { retired = list })
  unfolding load_retired
  load_retired-IsRetiredAt s list (inl (e, blank)) = rw (e, load_retired) (rw blank refl)
  load_retired-IsRetiredAt s list (inr (bytes, e, d)) = rw (e, load_retired) (rw d refl)

  retired_after_erase :
      RecordLaws store
      → (r : R) (list : RetiredList) → IsRetiredAt r list
      → IsRetiredAt (store.erase legacy_key r).1 list
  retired_after_erase laws r list (inl (e, blank)) =
      inl (laws.read-erase_other legacy_key retired_key r names_apart ∙ e, blank)
  retired_after_erase laws r list (inr (bytes, e, d)) =
      inr (bytes, laws.read-erase_other legacy_key retired_key r names_apart ∙ e, d)

  -- A restarted store: what the last run left in memory and in its records.
  pub record IsRestartable (g : Registry) (list : RetiredList) (s : Store R) : Type 0 where
    pub transmits : s.role ≡ Role.transmitter
    pub identity : s.device ≢ 0
    pub fits : IsRegistry Role.transmitter s.device g
    pub valid : validate c g Role.transmitter list ≡ Health.ready
    pub registry_stored :
        store.read registry_key s.records ≡ found (encode_registry g Role.transmitter s.device)
    pub retired_stored : IsRetiredAt s.records list

  abbrev pub mounted : Registry → RetiredList → Store R → Store R
  mounted g list s = record (clear s) {
    health = Health.ready;
    registry = g;
    retired = list;
    records = (store.erase legacy_key s.records).1;
  }

  load_all_found :
      (bytes : List ℕ) (s : Store R)
      → store.read registry_key s.records ≡ found bytes
      → load_all store c s ≡ load_registry store c (found bytes) s
  unfolding load_all
  load_all_found bytes s e = rw (e, load_all) refl

  -- A transmitter before it loads.
  abbrev unloaded : Store R → Store R
  unloaded t = record t { role = Role.transmitter; retired = [] }

  load_all-IsRestartable :
      RecordLaws store
      → (g : Registry) (list : RetiredList) (t : Store R) → IsRestartable g list t
      → load_all store c (unloaded t) ≡ (
        Health.ready,
        record t {
          role = Role.transmitter;
          registry = g;
          retired = list;
          records = (store.erase legacy_key t.records).1;
        },
      )
  unfolding load_registry take_registry
  load_all-IsRestartable laws g list t w =
      let erased = (store.erase legacy_key t.records).1 in
      let s : Store R = record t { role = Role.transmitter; registry = g; records = erased } in
      load_all_found _ (unloaded t) w.registry_stored
      ∙ rw (decode_registry-encode_registry Role.transmitter t.device g w.fits) (
          load_retired-IsRetiredAt s list (retired_after_erase laws t.records list w.retired_stored)
          ∙ check_rules-transmitter (record s { retired = list }) refl w.valid)

  pub mount-IsRestartable :
      RecordLaws store
      → (g : Registry) (list : RetiredList) (s : Store R) → IsRestartable g list s
      → mount store c s ≡ (true, mounted g list s)
  unfolding mount clear after_load
  mount-IsRestartable laws g list s w =
      let blank : Store R = clear (record s { health = Health.unmounted }) in
      let same : IsRestartable g list blank = record {
        transmits = w.transmits;
        identity = w.identity;
        fits = w.fits;
        valid = w.valid;
        registry_stored = w.registry_stored;
        retired_stored = w.retired_stored;
      } in
      let identified : (s.device == 0) ≡ false = ground (arith, w.identity) in
      rw (identified, w.transmits, load_all-IsRestartable laws g list blank same) refl
