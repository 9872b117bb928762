-- ===== src/Records/RegistryReadBack.antt =====
-- A registry is read back as it was written.
use cajui_firmware.Base.{
  ℕ, ◌+◌, ◌*◌, ◌^◌, ◌<◌, ◌≡◌, refl, subst, true, false, List, [], ◌∷◌, ◌++◌, some, arith, ltb, ◌==◌,
  ==_refl, length, replicate, All, length-append,
}
use mathlib.Core.List.{append-nil}
use cajui_firmware.Wire.{put}
use cajui_firmware.Wire.Numbers.{length-put}
use cajui_firmware.Records.{
  Role, role_code, Entry, no_entry, Registry, registry_kind, version, crc_size, binding_capacity,
  registry_header_size, registry_entry_size, registry_capacity,
}
use cajui_firmware.Records.Codec.{
  done, finish, number-put, number_byte, intact-finish, length-finish, payload-finish,
}
use cajui_firmware.Records.Enrollments.{occupied, put_entries, encode_registry}
use cajui_firmware.Records.Registries.{
  Decoded, read_entries, bad_head, after_entries, read_registry, decode_registry,
}
-- An occupied entry that a registry of the role may hold.
use cajui_firmware.Records.EntryReadBack.{IsEntry, read_entries-put_entries, length-put_entries}

pub record IsRegistry (role : Role) (device : ℕ) (g : Registry) : Type 0 where
  pub device_fits : device < 2 ^ 64
  pub revision_fits : g.revision < 2 ^ 64
  pub network_fits : g.network < 2 ^ 64
  pub receiver_fits : g.receiver < 2 ^ 64
  pub profile_fits : g.profile < 2 ^ 16
  pub entries_sized : length g.entries ≡ binding_capacity
  pub entries_fit : All (IsEntry role device g.receiver) g.entries
  pub head_fits : bad_head role device (occupied g.entries) g ≡ false

-- The loop from a blank registry.
blank_entries :
    (role : Role) (device receiver : ℕ) (es : List Entry)
    → length es ≡ binding_capacity
    → All (IsEntry role device receiver) es
    → read_entries role device receiver
        (occupied es)
        0
        (record { rest = put_entries 0 es; ok = true })
        (replicate binding_capacity no_entry)
      ≡ some (es, record { rest = []; ok = true })
blank_entries role device receiver es sized w =
    subst
      (λ (x : List ℕ).
        read_entries role device receiver (occupied es) 0 (record { rest = x; ok = true })
          (replicate binding_capacity no_entry)
        ≡ some (es, record { rest = []; ok = true }))
      (append-nil (put_entries 0 es))
      (subst
        (λ (n : ℕ).
          read_entries role device receiver (occupied es) 0
            (record { rest = put_entries 0 es ++ []; ok = true }) (replicate n no_entry)
          ≡ some (es, record { rest = []; ok = true }))
        sized
        (read_entries-put_entries role device receiver es [] 0 0 [] (omega arith) refl
          (omega (arith, sized)) w))

-- The registry's fields past the role, as `encode` writes them.
abbrev put_head : Registry → List ℕ
put_head g =
    put g.revision 8
    ++ (put g.network 8
        ++ (put g.receiver 8
            ++ (put g.profile 2 ++ (occupied g.entries ∷ put_entries 0 g.entries))))

read_registry-put_head :
    (role : Role) (device : ℕ) (g : Registry) (size : ℕ)
    → IsRegistry role device g
    → size ≡ registry_header_size + occupied g.entries * registry_entry_size + crc_size
    → read_registry size role device (record { rest = put_head g; ok = true }) ≡ Decoded.ready g
unfolding read_registry after_entries
read_registry-put_head role device g size w e =
    let few = (length-put_entries role device g.receiver g.entries 0 w.entries_fit).1 in
    let blanks : List Entry = replicate binding_capacity no_entry in
    let head_ok : bad_head role device (occupied g.entries) (record g { entries = blanks })
        ≡ false =
      unfold bad_head in w.head_fits in
    let loop : read_entries role device g.receiver (occupied g.entries) 0
          (record { rest = put_entries 0 g.entries; ok = true }) blanks
        ≡ some (g.entries, record { rest = []; ok = true }) =
      blank_entries role device g.receiver g.entries w.entries_sized w.entries_fit in
    let count_ok : ltb binding_capacity (occupied g.entries) ≡ false =
      ground (arith, few, w.entries_sized) in
    let size_ok : (size
          == registry_header_size + occupied g.entries * registry_entry_size + crc_size)
        ≡ true =
      ground (arith, e) in
    rw
      (
        number-put g.revision 8
            (put g.network 8
              ++ (put g.receiver 8
                  ++ (put g.profile 2 ++ (occupied g.entries ∷ put_entries 0 g.entries))))
            true (omega arith) w.revision_fits,
        number-put g.network 8
            (put g.receiver 8
              ++ (put g.profile 2 ++ (occupied g.entries ∷ put_entries 0 g.entries)))
            true (omega arith) w.network_fits,
        number-put g.receiver 8 (put g.profile 2 ++ (occupied g.entries ∷ put_entries 0 g.entries))
            true (omega arith) w.receiver_fits,
        number-put g.profile 2 (occupied g.entries ∷ put_entries 0 g.entries) true
            (omega (arith, w.profile_fits)) (omega (arith, w.profile_fits)),
        number_byte (occupied g.entries) (put_entries 0 g.entries) true
            (omega (arith, few, w.entries_sized)),
        count_ok,
        size_ok,
      )
      (rw (head_ok, loop) (unfold done in refl))

length-put_head :
    (role : Role) (device : ℕ) (g : Registry)
    → IsRegistry role device g
    → length (put_head g) ≡ 27 + occupied g.entries * registry_entry_size
length-put_head role device g w = omega (
  arith,
  (length-put_entries role device g.receiver g.entries 0 w.entries_fit).0,
  length-append (put g.revision 8) (
      put g.network 8
      ++ (put g.receiver 8 ++ (put g.profile 2 ++ (occupied g.entries ∷ put_entries 0 g.entries)))),
  length-append (put g.network 8)
      (put g.receiver 8 ++ (put g.profile 2 ++ (occupied g.entries ∷ put_entries 0 g.entries))),
  length-append (put g.receiver 8)
      (put g.profile 2 ++ (occupied g.entries ∷ put_entries 0 g.entries)),
  length-append (put g.profile 2) (occupied g.entries ∷ put_entries 0 g.entries),
  length-put g.revision 8,
  length-put g.network 8,
  length-put g.receiver 8,
  length-put g.profile 2,
)

role_code-lt : (role : Role) → role_code role < 256
role_code-lt Role.transmitter = omega arith
role_code-lt Role.receiver = omega arith

-- A registry that its role may hold, on a device whose identity fits 64 bits, is read back by that
-- role and device as it was written, the empty slots included.
pub decode_registry-encode_registry :
    (role : Role) (device : ℕ) (g : Registry)
    → IsRegistry role device g
    → decode_registry (encode_registry g role device) role device ≡ Decoded.ready g
unfolding decode_registry encode_registry
decode_registry-encode_registry role device g w =
    let body = put device 8 ++ put_head g in
    let payload : List ℕ = registry_kind ∷ version ∷ role_code role ∷ body in
    let few = (length-put_entries role device g.receiver g.entries 0 w.entries_fit).1 in
    let size : length body ≡ 35 + occupied g.entries * registry_entry_size = omega (
      arith,
      length-append (put device 8) (put_head g),
      length-put device 8,
      length-put_head role device g w,
    ) in
    rw
      (
        intact-finish payload (registry_header_size + crc_size) registry_capacity
            (omega (arith, size)) (omega (arith, size, few, w.entries_sized)),
        payload-finish payload,
        number_byte registry_kind (version ∷ role_code role ∷ body) true (omega arith),
        number_byte version (role_code role ∷ body) true (omega arith),
        number_byte (role_code role) body true (role_code-lt role),
        ==_refl (role_code role),
        number-put device 8 (put_head g) true (omega arith) w.device_fits,
        ==_refl device,
      )
      (read_registry-put_head role device g (length (finish payload)) w
        (omega (arith, length-finish payload, size)))
