-- ===== src/Tests/World.antt =====
-- The concrete parameters of the tests: a cipher, a record store and a radio.
use cajui_firmware.Base.{
  ℕ, ◌≡◌, refl, ap, subst, ◌≢◌, inr, sym, pos, Bool, true, List, [], ◌∷◌, none, some, arith,
  if◌then◌else◌, bytes_eq, bytes_eq_refl, bytes_eq→eq, Bool-cases, inl, replicate,
}
use cajui_firmware.Protocol.{tag_size, Binding, Reading, Data, Message, no_message, Link, wire_v2}
use cajui_firmware.Protocol.Crypto.{Crypto, Laws}
use cajui_firmware.Records.{Role, Enrollment, Health, Entry, no_entry, no_receipt_record}
use cajui_firmware.Storage.{Read, found, missing, RecordStore, RecordLaws, Store}
use cajui_firmware.Runtime.{Outside, ChannelStatus, TransmitStatus, ReceiveStatus}

-- A cipher that leaves the bytes as they are and tags them with sevens.
abbrev pub sevens : List ℕ
sevens = replicate tag_size 7

abbrev pub clear_cipher : Crypto
clear_cipher = record {
  gcm_seal = λ key nonce aad input. some (input, sevens);
  gcm_open = λ key nonce aad input tag. if bytes_eq tag sevens then some input else none;
  hkdf = λ input salt info size. some (replicate size 1);
}

pub clear_cipher-Laws : Laws clear_cipher
clear_cipher-Laws = record {
  seal_sizes = λ key nonce aad input cipher tag h. ground arith;
  open_sealed = λ key nonce aad input cipher tag h. ground arith;
}

-- Records in memory, a function from names.
abbrev pub Memory : Type 0
Memory = List ℕ → Read

abbrev pub no_records : Memory
no_records = λ name. missing

abbrev pub write_memory : List ℕ → List ℕ → Memory → Memory
write_memory name bytes r = λ n. if bytes_eq n name then found bytes else r n

abbrev pub memory : RecordStore Memory
memory = record {
  read = λ name r. r name;
  write = λ name bytes r. (true, write_memory name bytes r);
  erase = λ name r. (true, λ n. if bytes_eq n name then missing else r n);
}

same_name : (name bytes : List ℕ) (r : Memory) → write_memory name bytes r name ≡ found bytes
same_name name bytes r = rw (bytes_eq_refl name) refl

other_name :
    (name other bytes : List ℕ) (r : Memory)
    → name ≢ other
    → write_memory name bytes r other ≡ r other
other_name name other bytes r h = elim (Bool-cases (bytes_eq other name)) [
  | inl e ↦ absurd (h (sym (bytes_eq→eq other name e)))
  | inr e ↦ rw e refl
]

other_erased :
    (name other : List ℕ) (r : Memory) → name ≢ other → (memory.erase name r).1 other ≡ r other
other_erased name other r h = elim (Bool-cases (bytes_eq other name)) [
  | inl e ↦ absurd (h (sym (bytes_eq→eq other name e)))
  | inr e ↦ rw e refl
]

pub memory-RecordLaws : RecordLaws memory
memory-RecordLaws = record {
  read-write = λ name bytes r r' h.
      subst (λ x. x name ≡ found bytes) (ap (λ (p : Bool × Memory). p.1) h)
        (same_name name bytes r);
  read-write_other = λ name other bytes r h. other_name name other bytes r h;
  read-erase_other = λ name other r h. other_erased name other r h;
  write_atomic = λ name bytes r. inr (same_name name bytes r);
}

abbrev pub key : List ℕ
key = replicate 16 3

abbrev pub node : Binding
node = record { network = 5; node = 9; key = key; active = true }

abbrev pub reading : Reading
reading = record { sensor = 1; metric = 2; unit = 3; status = 0; milli_value = pos 21500 }

abbrev pub sample : Data
sample = record { battery_mv = 3000; next_seconds = 60; readings = reading ∷ [] }

abbrev pub data_message : Message
data_message = record no_message { version = wire_v2; counter = 1; sample = sample }

abbrev pub strong : Link
strong = record { known = true; rssi_dbm = pos 10; snr_tenths_db = pos 55 }

-- The node's active enrollment and a prepared one.
abbrev pub entries : List Entry
entries =
    record { state = Enrollment.active; node = 9; generation = 11; counter = 0; key = key }
    ∷ record {
      state = Enrollment.prepared;
      node = 9;
      generation = 12;
      counter = 0;
      key = replicate 16 4;
    }
    ∷ replicate 14 no_entry

abbrev pub store_of : Role → ℕ → Store Memory
store_of role device = record {
  records = no_records;
  role = role;
  device = device;
  health = Health.ready;
  registry = record { revision = 1; network = 5; receiver = 2; profile = 1; entries = entries };
  retired = [];
  receipts = replicate 16 no_receipt_record;
  queued_by_slot = replicate 16 0;
  head = 0;
  tail = 0;
  dropped = 0;
}

-- A world that is its clock: every radio call succeeds at once, and nothing is heard.
abbrev pub quiet : Outside ℕ
quiet = record {
  now_ms = λ w. (w, w);
  between = λ lo hi w. (some lo, w);
  start_channel_check = λ w. (true, w);
  channel_status = λ w. (ChannelStatus.clear, w);
  start_transmit = λ f w. (true, w);
  transmit_status = λ w. (TransmitStatus.complete w, w);
  receive = λ w. (ReceiveStatus.empty, w);
  sleep = λ w. (true, w);
}
