-- ===== src/Storage/Copying.antt =====
-- The registry that `migrate` makes of a snapshot, field by field.
use cajui_firmware.Base.{ℕ, zero, suc, ◌<◌, ◌≡◌, refl, ap, List, [], ◌∷◌, arith, length, get_or}
use cajui_firmware.Records.{Entry, no_entry, Registry}
use cajui_firmware.Storage.Snapshots.{OldEntry, no_old_entry, State}
use cajui_firmware.Storage.Migrating.{migrated_entries, migrated_registry}

-- The entry of a slot, with the fields that the snapshot's entry of the slot has.
pub record IsCopyOf (old : OldEntry) (e : Entry) : Type 0 where
  pub state_kept : e.state ≡ old.state
  pub node_kept : e.node ≡ old.node
  pub generation_kept : e.generation ≡ old.generation
  pub counter_kept : e.counter ≡ old.counter
  pub key_kept : e.key ≡ old.key

-- A slot past the snapshot's entries is empty.
pub record IsCopy (g : State) (next : Registry) : Type 0 where
  pub revision_kept : next.revision ≡ g.revision
  pub network_kept : next.network ≡ g.network
  pub receiver_kept : next.receiver ≡ g.receiver
  pub profile_kept : next.profile ≡ g.profile
  pub sized : length next.entries ≡ 16
  pub entries_kept :
      (slot : ℕ)
      → slot < 16
      → IsCopyOf (get_or g.entries slot no_old_entry) (get_or next.entries slot no_entry)

length-migrated_entries :
    (slots : ℕ) (es : List OldEntry) → length (migrated_entries slots es) ≡ slots
unfolding migrated_entries
length-migrated_entries zero es = refl
length-migrated_entries (suc slots) [] = ap suc (length-migrated_entries slots [])
length-migrated_entries (suc slots) (e ∷ es) = ap suc (length-migrated_entries slots es)

all_kept :
    (old : OldEntry)
    → IsCopyOf old (record no_entry {
      state = old.state;
      node = old.node;
      generation = old.generation;
      counter = old.counter;
      key = old.key;
    })
all_kept old = record {
  state_kept = refl;
  node_kept = refl;
  generation_kept = refl;
  counter_kept = refl;
  key_kept = refl;
}

migrated_entries-IsCopyOf :
    (slots : ℕ) (es : List OldEntry) (slot : ℕ)
    → slot < slots
    → IsCopyOf (get_or es slot no_old_entry) (get_or (migrated_entries slots es) slot no_entry)
unfolding migrated_entries
migrated_entries-IsCopyOf zero es slot h = absurd (omega (arith, h))
migrated_entries-IsCopyOf (suc slots) [] zero h = all_kept no_old_entry
migrated_entries-IsCopyOf (suc slots) [] (suc slot) h =
    migrated_entries-IsCopyOf slots [] slot (omega (arith, h))
migrated_entries-IsCopyOf (suc slots) (e ∷ es) zero h = all_kept e
migrated_entries-IsCopyOf (suc slots) (e ∷ es) (suc slot) h =
    migrated_entries-IsCopyOf slots es slot (omega (arith, h))

pub migrated_registry-IsCopy : (g : State) → IsCopy g (migrated_registry g)
unfolding migrated_registry
migrated_registry-IsCopy g = record {
  revision_kept = refl;
  network_kept = refl;
  receiver_kept = refl;
  profile_kept = refl;
  sized = length-migrated_entries 16 g.entries;
  entries_kept = λ slot h. migrated_entries-IsCopyOf 16 g.entries slot h;
}
