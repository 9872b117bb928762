-- ===== src/Records.antt =====
-- lib/CajuiStorage/src/records.h, records.cpp and cajui_crc32.cpp: the stored records and their
-- codecs, and from snapshot.h the enumerations that both layouts share. The names of the records
-- are byte lists.
pub mod Codec
pub mod Head
pub mod Queue
pub mod ReadBack
pub mod Enrollments
pub mod Registries
pub mod EntryReadBack
pub mod RegistryReadBack
pub mod Validation
pub mod Retirement
pub mod Names
use cajui_firmware.Base.{
  ℕ, suc, zero, ◌+◌, ◌-◌, ◌*◌, ◌/◌, ◌%◌, ◌^◌, Bool, true, false, not, ◌&&◌, ◌||◌, List, [], ◌∷◌,
  ◌++◌, Option, none, some, ltb, leb, ◌==◌, if◌then◌else◌, bytes_eq, length, get_or, replicate,
}
use cajui_firmware.Protocol.{
  Frame, Link, Receipt, no_receipt, no_frame, no_link, max_frame, key_size,
}

abbrev pub binding_capacity : ℕ
binding_capacity = 16

abbrev pub queue_capacity : ℕ
queue_capacity = 128

abbrev pub retired_capacity : ℕ
retired_capacity = 64

pub data Role : Type 0 where
  transmitter receiver : Role

abbrev pub role_code : Role → ℕ
role_code Role.transmitter = 1
role_code Role.receiver = 2

abbrev pub is_receiver : Role → Bool
is_receiver Role.transmitter = false
is_receiver Role.receiver = true

pub data Enrollment : Type 0 where
  empty prepared active revoked : Enrollment

abbrev pub is_empty : Enrollment → Bool
is_empty Enrollment.empty = true
is_empty Enrollment.prepared = false
is_empty Enrollment.active = false
is_empty Enrollment.revoked = false

abbrev pub is_prepared : Enrollment → Bool
is_prepared Enrollment.empty = false
is_prepared Enrollment.prepared = true
is_prepared Enrollment.active = false
is_prepared Enrollment.revoked = false

abbrev pub is_active : Enrollment → Bool
is_active Enrollment.empty = false
is_active Enrollment.prepared = false
is_active Enrollment.active = true
is_active Enrollment.revoked = false

abbrev pub is_revoked : Enrollment → Bool
is_revoked Enrollment.empty = false
is_revoked Enrollment.prepared = false
is_revoked Enrollment.active = false
is_revoked Enrollment.revoked = true

abbrev pub enrollment_code : Enrollment → ℕ
enrollment_code Enrollment.empty = 0
enrollment_code Enrollment.prepared = 1
enrollment_code Enrollment.active = 2
enrollment_code Enrollment.revoked = 3

pub data Health : Type 0 where
  unmounted ready identity read_error corrupt format role device invalid write_error : Health

abbrev pub is_ready : Health → Bool
is_ready Health.ready = true
is_ready _ = false

pub record Entry : Type 0 where
  pub state : Enrollment
  pub node : ℕ
  pub generation : ℕ
  pub counter : ℕ
  pub key : List ℕ

abbrev pub no_key : List ℕ
no_key = replicate key_size 0

abbrev pub no_entry : Entry
no_entry = record { state = Enrollment.empty; node = 0; generation = 0; counter = 0; key = no_key }

-- `entries` has `binding_capacity` elements.
pub record Registry : Type 0 where
  pub revision : ℕ
  pub network : ℕ
  pub receiver : ℕ
  pub profile : ℕ
  pub entries : List Entry

abbrev pub no_registry : Registry
no_registry = record {
  revision = 0;
  network = 0;
  receiver = 0;
  profile = 0;
  entries = replicate binding_capacity no_entry;
}

pub record Retired : Type 0 where
  pub generation : ℕ
  pub fingerprint : ℕ

-- The first `count` items of `RetiredList`, oldest first.
abbrev pub RetiredList : Type 0
RetiredList = List Retired

pub record ReceiptRecord : Type 0 where
  pub generation : ℕ
  pub through : ℕ
  pub receipt : Receipt

abbrev pub no_receipt_record : ReceiptRecord
no_receipt_record = record { generation = 0; through = 0; receipt = no_receipt }

pub record QueueRecord : Type 0 where
  pub sequence : ℕ
  pub generation : ℕ
  pub slot : ℕ
  pub frame : Frame
  pub link : Link

abbrev pub no_queue_record : QueueRecord
no_queue_record = record {
  sequence = 0;
  generation = 0;
  slot = 0;
  frame = no_frame;
  link = no_link;
}

abbrev pub crc_size : ℕ
crc_size = 4

abbrev pub registry_header_size : ℕ
registry_header_size = 1 + 1 + 1 + 8 + 8 + 8 + 8 + 2 + 1

abbrev pub registry_entry_size : ℕ
registry_entry_size = 1 + 1 + 8 + 8 + key_size + 8

abbrev pub registry_capacity : ℕ
registry_capacity = registry_header_size + binding_capacity * registry_entry_size + crc_size

abbrev pub receipt_capacity : ℕ
receipt_capacity = 1 + 1 + 8 + 8 + 8 + 2 + max_frame + 1 + crc_size

abbrev pub link_size : ℕ
link_size = 1 + 2 + 2

abbrev pub queue_record_capacity : ℕ
queue_record_capacity = 1 + 1 + 8 + 1 + 8 + 2 + max_frame + link_size + crc_size

abbrev pub head_size : ℕ
head_size = 1 + 1 + 8 + crc_size

abbrev pub retired_record_capacity : ℕ
retired_record_capacity = 1 + 1 + 1 + retired_capacity * 16 + crc_size

-- Smallest valid receipt and queue records: every field present, empty frame.
abbrev pub min_receipt : ℕ
min_receipt = 1 + 1 + 8 + 8 + 8 + 2 + crc_size

abbrev pub min_queue_record : ℕ
min_queue_record = 1 + 1 + 8 + 1 + 8 + 2 + crc_size

abbrev pub registry_kind : ℕ
registry_kind = b'G'

abbrev pub retired_kind : ℕ
retired_kind = b'X'

abbrev pub receipt_kind : ℕ
receipt_kind = b'R'

abbrev pub queue_kind : ℕ
queue_kind = b'Q'

abbrev pub head_kind : ℕ
head_kind = b'H'

abbrev pub version : ℕ
version = 1

abbrev pub queue_version : ℕ
queue_version = 2

abbrev pub receipt_version : ℕ
receipt_version = 2

abbrev pub registry_key : List ℕ
registry_key = b'r' ∷ b'e' ∷ b'g' ∷ b'i' ∷ b's' ∷ b't' ∷ b'r' ∷ b'y' ∷ []

abbrev pub retired_key : List ℕ
retired_key = b'r' ∷ b'e' ∷ b't' ∷ b'i' ∷ b'r' ∷ b'e' ∷ b'd' ∷ []

abbrev pub head_key : List ℕ
head_key = b'h' ∷ b'e' ∷ b'a' ∷ b'd' ∷ []

abbrev pub legacy_key : List ℕ
legacy_key = b's' ∷ b'n' ∷ b'a' ∷ b'p' ∷ b's' ∷ b'h' ∷ b'o' ∷ b't' ∷ []
