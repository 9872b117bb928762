-- ===== src/Tests/Storing.antt =====
-- The durable state, at concrete inputs.
use cajui_firmware.Base.{ℕ, ◌+◌, ◌≤◌, ◌<◌, ◌≡◌, ◌≢◌, refl, pos, true, false, some, arith, replicate}
use cajui_firmware.Protocol.{Result, Frame, Receipt}
use cajui_firmware.Protocol.Codec.{seal}
use cajui_firmware.Records.{Role, is_active, registry_key}
use cajui_firmware.Records.Enrollments.{encode_registry}
use cajui_firmware.Storage.{Read, found, Store, find, entry_at, authorized, healthy, queued}
use cajui_firmware.Storage.Entries.{Credential}
use cajui_firmware.Storage.Enrolling.{prepare, activate, activate_alongside, revoke}
use cajui_firmware.Storage.Sampling.{commit, reserve}
use cajui_firmware.Storage.Counters.{reserve-reserve, reserve_durable}
use cajui_firmware.Storage.Refinement.{commit_queue}
use cajui_firmware.Records.{Enrollment}
use cajui_firmware.Storage.Activation.{activate_exclusive, IsBeside, activate_alongside-IsBeside}
use cajui_firmware.Storage.Latch.{Latches, enrollment_Latches}
use cajui_firmware.Tests.World.{
  clear_cipher, Memory, memory, memory-RecordLaws, node, data_message, strong, store_of,
}

abbrev sensor : Store Memory
sensor = store_of Role.transmitter 9

abbrev base : Store Memory
base = store_of Role.receiver 2

abbrev once : Store Memory
once = (reserve memory node sensor).1

abbrev twice : Store Memory
twice = (reserve memory node once).1

reserved_once : reserve memory node sensor ≡ (some 1, once)
unfolding reserve authorized cajui_firmware.Storage.find_index cajui_firmware.Storage.is_authority
    cajui_firmware.Storage.Sampling.reserve_at cajui_firmware.Storage.save_registry
    cajui_firmware.Storage.Sampling.count_up
reserved_once = refl

reserved_twice : reserve memory node once ≡ (some 2, twice)
unfolding reserve authorized cajui_firmware.Storage.find_index cajui_firmware.Storage.is_authority
    cajui_firmware.Storage.Sampling.reserve_at cajui_firmware.Storage.save_registry
    cajui_firmware.Storage.Sampling.count_up
reserved_twice = refl

reserve-reserve_example : ◌≡◌ {A = ℕ} 2 (1 + 1)
reserve-reserve_example =
    reserve-reserve memory node 1 2 sensor once twice reserved_once reserved_twice

reserve_durable_example :
    (i : ℕ) × (authorized node sensor ≡ some i)
    × ((entry_at once.registry i).counter ≡ 1)
    × (once.records registry_key ≡ found (encode_registry once.registry once.role once.device))
reserve_durable_example = reserve_durable memory memory-RecordLaws node 1 sensor once reserved_once

abbrev receipt : Receipt
receipt = record {
  counter = 1;
  last = (seal clear_cipher node data_message).1;
  link = strong;
  ack_power = pos 10;
}

abbrev stored : Store Memory
stored = (commit memory clear_cipher node 0 receipt base).1

committed : commit memory clear_cipher node 0 receipt base ≡ (Result.ok, stored)
unfolding commit authorized cajui_firmware.Storage.find_index cajui_firmware.Storage.is_authority
    cajui_firmware.Storage.Sampling.commit_at cajui_firmware.Storage.Sampling.matches
    cajui_firmware.Protocol.Codec.open_frame cajui_firmware.Protocol.Codec.open_envelope
    cajui_firmware.Protocol.Codec.bad_size seal cajui_firmware.Protocol.Codec.sealable
    cajui_firmware.Protocol.Crypto.encrypt cajui_firmware.Protocol.Codec.header
    cajui_firmware.Wire.put cajui_firmware.Protocol.Codec.plaintext
    cajui_firmware.Protocol.Codec.bad_kind cajui_firmware.Protocol.Codec.foreign
    cajui_firmware.Wire.get cajui_firmware.Protocol.Codec.bad_layout
    cajui_firmware.Protocol.Codec.read_envelope cajui_firmware.Protocol.Codec.payload_length
    cajui_firmware.Protocol.Codec.open_payload cajui_firmware.Protocol.Crypto.decrypt
    cajui_firmware.Protocol.Codec.decode_payload cajui_firmware.Protocol.Codec.decode_data
    cajui_firmware.Protocol.Codec.count_of cajui_firmware.Protocol.Codec.read_data
    cajui_firmware.Storage.Sampling.append_sample cajui_firmware.Storage.Sampling.make_space
    cajui_firmware.Storage.Sampling.store_sample cajui_firmware.Storage.Sampling.revoke_superseded
    cajui_firmware.Storage.Sampling.any_superseded
committed = refl

commit_queue_example :
    (stored.tail ≡ base.tail + 1)
    × (stored.head ≤ stored.tail)
    × (queued stored ≤ 128)
    × ((queued base < 128) → (stored.head ≡ base.head) × (queued stored ≡ queued base + 1))
    × ((queued base ≡ 128) → (stored.head ≡ base.head + 1) × (queued stored ≡ queued base))
commit_queue_example =
    commit_queue memory clear_cipher node 0 receipt base stored
      (record { ordered = omega arith; bounded = omega arith; in_range = omega arith }) committed

abbrev moved : Store Memory
moved = (activate memory clear_cipher 9 12 base).1

found_prepared : find 9 12 base ≡ some 1
unfolding find
found_prepared = refl

activated : activate memory clear_cipher 9 12 base ≡ (Result.ok, moved)
unfolding activate find cajui_firmware.Storage.commit_registry cajui_firmware.Storage.save_registry
activated = refl

activate_exclusive_example :
    ((entry_at base.registry 1).node ≡ 9)
    × ((entry_at base.registry 1).generation ≡ 12)
    × (entry_at moved.registry 1 ≡ record (entry_at base.registry 1) { state = Enrollment.active })
    × ((j : ℕ)
        → j ≢ 1
        → ((entry_at base.registry j).node ≡ 9
            → is_active (entry_at base.registry j).state ≡ true
            → entry_at moved.registry j
              ≡ record (entry_at base.registry j) { state = Enrollment.revoked })
          × ((entry_at base.registry j).node ≡ 9
              → is_active (entry_at base.registry j).state ≡ false
              → entry_at moved.registry j ≡ entry_at base.registry j)
          × ((entry_at base.registry j).node ≢ 9
              → entry_at moved.registry j ≡ entry_at base.registry j))
activate_exclusive_example =
    activate_exclusive memory clear_cipher 9 12 base moved 1 found_prepared refl activated

abbrev beside : Store Memory
beside = (activate_alongside memory clear_cipher 9 12 base).1

activated_beside : activate_alongside memory clear_cipher 9 12 base ≡ (Result.ok, beside)
unfolding activate_alongside find cajui_firmware.Storage.commit_registry
    cajui_firmware.Storage.save_registry
activated_beside = refl

activate_alongside-IsBeside_example : IsBeside memory clear_cipher 9 12 1 base beside
activate_alongside-IsBeside_example =
    activate_alongside-IsBeside memory clear_cipher 9 12 base beside 1 found_prepared refl
      activated_beside

abbrev credential : Credential
credential = record {
  network = 5;
  receiver = 2;
  node = 10;
  generation = 13;
  key = replicate 16 6;
  profile = 1;
}

enrollment_Latches_example :
    Latches (prepare memory clear_cipher credential base)
    × Latches (activate memory clear_cipher 9 12 base)
    × Latches (activate_alongside memory clear_cipher 9 12 base)
    × Latches (revoke memory clear_cipher 9 12 base)
    × (healthy base ≡ false
        → (prepare memory clear_cipher credential base ≡ (Result.storage_error, base))
          × (activate memory clear_cipher 9 12 base ≡ (Result.storage_error, base))
          × (activate_alongside memory clear_cipher 9 12 base ≡ (Result.storage_error, base))
          × (revoke memory clear_cipher 9 12 base ≡ (Result.storage_error, base)))
enrollment_Latches_example = enrollment_Latches memory clear_cipher credential 9 12 base
