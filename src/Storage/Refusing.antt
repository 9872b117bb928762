-- ===== src/Storage/Refusing.antt =====
-- snapshot.cpp: what `decode` refuses with.
use cajui_firmware.Base.{
  ℕ, ◌≡◌, refl, ap, Bool, true, false, not, List, Option, some, if◌then◌else◌, Option-cases, inl,
  inr, length,
}
use cajui_firmware.Protocol.Crypto.{Crypto}
use cajui_firmware.Records.{Role, Health, is_ready}
use cajui_firmware.Records.Names.{receipt_key, queue_key}
use cajui_firmware.Storage.Snapshots.{
  State, OldDecoded, after_old_entries, read_old_queue, read_snapshot, decode_snapshot,
}

queue_key_short : (sequence : ℕ) → length (queue_key sequence) ≡ 3
unfolding queue_key
queue_key_short sequence = refl

receipt_key_short : (slot : ℕ) → length (receipt_key slot) ≡ 3
unfolding receipt_key
receipt_key_short slot = refl

-- A refusal does not answer Ready.
unfoldable pub is_sound : OldDecoded → Bool
is_sound (OldDecoded.ready g) = true
is_sound (OldDecoded.refused h) = not (is_ready h)

is_sound-if :
    (b : Bool) (h : Health) (d : OldDecoded)
    → is_ready h ≡ false
    → is_sound d ≡ true
    → is_sound (if b then OldDecoded.refused h else d) ≡ true
unfolding is_sound
is_sound-if true h d fails ok = ap not fails
is_sound-if false h d fails ok = ok

after_old_entries_sound :
    (c : Crypto) (count : ℕ) (o : Option (State × List ℕ))
    → is_sound (after_old_entries c count o) ≡ true
unfolding is_sound after_old_entries
after_old_entries_sound c count Option.none = refl
after_old_entries_sound c count (some (g, p)) = elim (Option-cases (read_old_queue c count p g)) [
  | inl e ↦ rw (e, after_old_entries) refl
  | inr (g', e) ↦ rw (e, after_old_entries) refl
]

pub decode_snapshot_sound :
    (c : Crypto) (input : List ℕ) (role : Role) (device : ℕ)
    → is_sound (decode_snapshot c input role device) ≡ true
unfolding decode_snapshot read_snapshot
decode_snapshot_sound c input role device = is_sound-if _ Health.corrupt _ refl (
    is_sound-if _ Health.format _ refl (
      is_sound-if _ Health.role _ refl (
        is_sound-if _ Health.device _ refl
          (is_sound-if _ Health.invalid _ refl (after_old_entries_sound c _ _)))))
