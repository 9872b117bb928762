-- ===== src/Records/Enrollments.antt =====
-- records.cpp: the registry's record, and the fingerprint of a key.
use cajui_firmware.Base.{ℕ, suc, List, [], ◌∷◌, ◌++◌, Option, none, some, if◌then◌else◌}
use cajui_firmware.Wire.{put, get}
use cajui_firmware.Protocol.Crypto.{Crypto}
use cajui_firmware.Records.{
  Role, role_code, is_empty, enrollment_code, Entry, Registry, registry_kind, version,
}
use cajui_firmware.Records.Codec.{finish}

-- The occupied entries, counted.
unfoldable pub occupied : List Entry → ℕ
occupied [] = 0
occupied (e ∷ es) = if is_empty e.state then occupied es else suc (occupied es)

unfoldable pub put_entry : ℕ → Entry → List ℕ
put_entry slot e =
    slot
    ∷ enrollment_code e.state
    ∷ (put e.node 8 ++ (put e.generation 8 ++ (e.key ++ put e.counter 8)))

-- The occupied entries, each with its slot; the argument is the slot of the first entry.
unfoldable pub put_entries : ℕ → List Entry → List ℕ
unfolding put_entry
put_entries slot [] = []
put_entries slot (e ∷ es) =
    if is_empty e.state
    then put_entries (suc slot) es
    else put_entry slot e ++ put_entries (suc slot) es

unfoldable pub encode_registry : Registry → Role → ℕ → List ℕ
unfolding occupied put_entries
encode_registry registry role device = finish (
    registry_kind
    ∷ version
    ∷ role_code role
    ∷ (put device 8
        ++ (put registry.revision 8
            ++ (put registry.network 8
                ++ (put registry.receiver 8
                    ++ (put registry.profile 2
                        ++ (occupied registry.entries ∷ put_entries 0 registry.entries)))))))

-- "cajui-retired-v1"
abbrev salt : List ℕ
salt =
    b'c' ∷ b'a' ∷ b'j' ∷ b'u' ∷ b'i' ∷ b'-' ∷ b'r' ∷ b'e' ∷ b't' ∷ b'i' ∷ b'r' ∷ b'e' ∷ b'd' ∷ b'-'
    ∷ b'v' ∷ b'1' ∷ []

-- A key's 64-bit fingerprint, where HKDF succeeds.
unfoldable pub fingerprint : Crypto → List ℕ → Option ℕ
fingerprint c key = elim (c.hkdf key salt [] 8) [ none ↦ none | some digest ↦ some (get digest) ]
