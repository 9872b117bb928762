-- ===== src/Tests/Restarting.antt =====
-- A transmitter that restarts, at concrete records.
use cajui_firmware.Base.{
  ℕ, zero, suc, All, get_or, ◌≡◌, refl, ◌++◌, ◌+◌, List, ◌∷◌, arith, replicate, inl, inr, ◌⊎◌,
}
use cajui_firmware.Wire.{put}
use cajui_firmware.Protocol.{max_frame}
use cajui_firmware.Records.{
  Role, Enrollment, Health, Registry, no_entry, registry_key, legacy_key, role_code,
  enrollment_code,
}
use cajui_firmware.Records.Codec.{crc32}
use cajui_firmware.Records.Enrollments.{encode_registry}
use cajui_firmware.Records.Registries.{Decoded, decode_registry}
use cajui_firmware.Records.EntryReadBack.{IsOccupied, IsEntry}
use cajui_firmware.Records.RegistryReadBack.{IsRegistry, decode_registry-encode_registry}
use cajui_firmware.Storage.{Read, found, Store}
use cajui_firmware.Storage.Sampling.{reserve}
use cajui_firmware.Storage.Mounting.{mount}
use cajui_firmware.Storage.Snapshots.{State, OldDecoded, snapshot_magic, decode_snapshot}
use cajui_firmware.Storage.Migrating.{migrated_registry, migrate}
use cajui_firmware.Storage.Copying.{IsCopy}
use cajui_firmware.Storage.Migration.{IsMigrated, migrate_atomic, migrate_ready}
use cajui_firmware.Tests.World.{
  clear_cipher, Memory, no_records, memory, memory-RecordLaws, key, node, store_of, entries,
  write_memory,
}

abbrev registry : Registry
registry = (store_of Role.transmitter 9).registry

active_fits : IsOccupied Role.transmitter 9 2 (get_or entries 0 no_entry)
unfolding cajui_firmware.Records.Registries.bad_entry cajui_firmware.Records.Registries.nonzero
active_fits = record {
  occupied_state = refl;
  node_fits = omega arith;
  generation_fits = omega arith;
  counter_fits = omega arith;
  key_sized = refl;
  allowed = refl;
}

prepared_fits : IsOccupied Role.transmitter 9 2 (get_or entries 1 no_entry)
unfolding cajui_firmware.Records.Registries.bad_entry cajui_firmware.Records.Registries.nonzero
prepared_fits = record {
  occupied_state = refl;
  node_fits = omega arith;
  generation_fits = omega arith;
  counter_fits = omega arith;
  key_sized = refl;
  allowed = refl;
}

blanks_fit : (n : ℕ) → All (IsEntry Role.transmitter 9 2) (replicate n no_entry)
blanks_fit zero = tt
blanks_fit (suc n) = (inl refl, blanks_fit n)

registry-IsRegistry : IsRegistry Role.transmitter 9 registry
unfolding cajui_firmware.Records.Registries.bad_head cajui_firmware.Records.Enrollments.occupied
registry-IsRegistry = record {
  device_fits = omega arith;
  revision_fits = omega arith;
  network_fits = omega arith;
  receiver_fits = omega arith;
  profile_fits = omega arith;
  entries_sized = refl;
  entries_fit = (inr active_fits, (inr prepared_fits, blanks_fit 14));
  head_fits = refl;
}

decode_registry-encode_registry_example :
    decode_registry (encode_registry registry Role.transmitter 9) Role.transmitter 9
    ≡ Decoded.ready registry
decode_registry-encode_registry_example =
    decode_registry-encode_registry Role.transmitter 9 registry registry-IsRegistry

-- The records after the registry was stored.
abbrev stored_records : Memory
stored_records = write_memory registry_key (encode_registry registry Role.transmitter 9) no_records

abbrev running : Store Memory
running = record (store_of Role.transmitter 9) { records = stored_records }

abbrev reserved : Store Memory
reserved = (reserve memory node running).1

abbrev reserved_again : Store Memory
reserved_again = (reserve memory node (mount memory clear_cipher reserved).1).1

-- A v1 snapshot of one active entry.
abbrev snapshot_body : List ℕ
snapshot_body =
    snapshot_magic
    ++ (1 ∷ role_code Role.transmitter ∷ put 9 8
        ++ (put 1 8
            ++ (put 5 8
                ++ (put 2 8
                    ++ (put 1 2
                        ++ (0 ∷ 1 ∷ enrollment_code Enrollment.active ∷ put 9 8
                            ++ (put 11 8 ++ (key ++ (replicate (8 + 8 + 2 + max_frame) 0)))))))))

abbrev snapshot : List ℕ
snapshot = snapshot_body ++ put (crc32 snapshot_body) 4

abbrev old_records : Memory
old_records = write_memory legacy_key snapshot no_records

abbrev new_records : Memory
new_records = (migrate memory clear_cipher Role.transmitter 9 old_records).1

migrated : migrate memory clear_cipher Role.transmitter 9 old_records ≡ (Health.ready, new_records)
unfolding migrate cajui_firmware.Storage.Migrating.migrate_state decode_snapshot put
    cajui_firmware.Wire.get crc32 cajui_firmware.Storage.Snapshots.read_snapshot
    cajui_firmware.Storage.Snapshots.bad_snapshot_head
    cajui_firmware.Storage.Snapshots.after_old_entries
    cajui_firmware.Storage.Snapshots.read_old_entries cajui_firmware.Storage.Snapshots.add_old_entry
    cajui_firmware.Storage.Snapshots.read_old_entry cajui_firmware.Storage.Snapshots.bad_old_entry
    cajui_firmware.Records.Registries.nonzero cajui_firmware.Storage.Snapshots.any_prior
    cajui_firmware.Storage.Snapshots.bad_receipt_of cajui_firmware.Storage.Snapshots.read_old_queue
    cajui_firmware.Storage.Migrating.write_registry
migrated = refl

migrate_ready_example :
    (g : State) × (next : Registry) × (decode_snapshot clear_cipher snapshot Role.transmitter 9
      ≡ OldDecoded.ready g)
    × IsCopy g next
    × (memory.read registry_key new_records ≡ found (encode_registry next Role.transmitter 9))
migrate_ready_example =
    migrate_ready memory memory-RecordLaws clear_cipher Role.transmitter 9 snapshot old_records
      new_records refl migrated

migrate_atomic_example :
    (memory.read legacy_key new_records ≡ memory.read legacy_key old_records)
    × ((memory.read registry_key new_records ≡ memory.read registry_key old_records)
        ⊎ IsMigrated memory memory-RecordLaws clear_cipher Role.transmitter 9 old_records
            new_records)
migrate_atomic_example =
    migrate_atomic memory memory-RecordLaws clear_cipher Role.transmitter 9 old_records
