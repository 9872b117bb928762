-- ===== src/Records/Registries.antt =====
-- records.cpp: the registry's record read back.
use cajui_firmware.Base.{
  ℕ, zero, suc, ◌+◌, ◌-◌, ◌*◌, Bool, true, false, not, ◌&&◌, ◌||◌, List, [], ◌∷◌, Option, none,
  some, ltb, leb, ◌==◌, if◌then◌else◌, length, take, set, replicate,
}
use cajui_firmware.Protocol.{key_size}
use cajui_firmware.Records.{
  Role, role_code, is_receiver, Enrollment, is_prepared, Health, Entry, no_entry, Registry,
  registry_kind, version, crc_size, binding_capacity, registry_header_size, registry_entry_size,
  registry_capacity,
}
use cajui_firmware.Records.Codec.{Reader, number, block, done, intact}

-- The result of `decode`: Ready with the registry, or why it is refused.
pub data Decoded : Type 0 where
  ready : Registry → Decoded
  refused : Health → Decoded

-- `snapshot::nonzero`
unfoldable pub nonzero : List ℕ → Bool
nonzero [] = false
nonzero (b ∷ bs) = not (b == 0) || nonzero bs

-- A stored state: not Empty, and at most Revoked.
abbrev pub enrollment_of : ℕ → Option Enrollment
enrollment_of n =
    if n == 1
    then some Enrollment.prepared
    else if n == 2
    then some Enrollment.active
    else if n == 3
    then some Enrollment.revoked
    else none

unfoldable pub bad_entry : Role → ℕ → ℕ → Entry → Bool
bad_entry role device receiver e =
    e.node == 0
    || e.generation == 0
    || not (nonzero e.key)
    || e.node == receiver
    || (not (is_receiver role) && not (e.node == device))
    || (is_receiver role && not (e.counter == 0))
    || (is_prepared e.state && not (e.counter == 0))

-- The tests on an entry once its state is known.
unfoldable pub with_state :
    Role → ℕ → ℕ → Option Enrollment → Entry → Reader → Option (Entry × Reader)
with_state role device receiver none e r = none
with_state role device receiver (some state) e r =
    if bad_entry role device receiver (record e { state = state })
    then none
    else some (record e { state = state }, r)

-- The fields of one entry after its slot; `none` is Invalid.
unfoldable pub read_entry : Role → ℕ → ℕ → Reader → Option (Entry × Reader)
read_entry role device receiver r =
    let (state, r1) = number 1 r in
    let (node, r2) = number 8 r1 in
    let (generation, r3) = number 8 r2 in
    let (key, r4) = block key_size r3 in
    let (counter, r5) = number 8 r4 in
    with_state role device receiver (enrollment_of state)
      (record no_entry { node = node; generation = generation; counter = counter; key = key }) r5

-- The loop over the entries: the rounds left, and the least slot that may come next.
unfoldable pub read_entries :
    Role → ℕ → ℕ → ℕ → ℕ → Reader → List Entry → Option (List Entry × Reader)
read_entries role device receiver zero next r entries = some (entries, r)
read_entries role device receiver (suc left) next r entries =
    let (slot, r') = number 1 r in
    if ltb slot next || leb binding_capacity slot
    then none
    else elim (read_entry role device receiver r') [
      | none ↦ none
      | some (e, r'') ↦ read_entries role device receiver left (suc slot) r'' (set entries slot e)
    ]

-- The fields before the entries that must fit together.
unfoldable pub bad_head : Role → ℕ → ℕ → Registry → Bool
bad_head role device count g =
    let joined = not (g.network == 0) || not (g.receiver == 0) || not (g.profile == 0) in
    g.revision == 0
    || (not (count == 0) && not joined)
    || (joined && (g.network == 0 || g.receiver == 0 || not (g.profile == 1)))
    || (is_receiver role && joined && not (g.receiver == device))

unfoldable pub after_entries : Registry → Option (List Entry × Reader) → Decoded
after_entries g none = Decoded.refused Health.invalid
after_entries g (some (entries, r)) =
    if done r
    then Decoded.ready (record g { entries = entries })
    else Decoded.refused Health.invalid

-- `decode` past the device.
unfoldable pub read_registry : ℕ → Role → ℕ → Reader → Decoded
read_registry size role device r =
    let (revision, r1) = number 8 r in
    let (network, r2) = number 8 r1 in
    let (receiver, r3) = number 8 r2 in
    let (profile, r4) = number 2 r3 in
    let (count, r5) = number 1 r4 in
    let g : Registry = record {
      revision = revision;
      network = network;
      receiver = receiver;
      profile = profile;
      entries = replicate binding_capacity no_entry;
    } in
    if ltb binding_capacity count
      || not (size == registry_header_size + count * registry_entry_size + crc_size)
      || bad_head role device count g
    then Decoded.refused Health.invalid
    else after_entries g (read_entries role device receiver count 0 r5 g.entries)

unfoldable pub decode_registry : List ℕ → Role → ℕ → Decoded
decode_registry input role device =
    if not (intact input (registry_header_size + crc_size) registry_capacity)
    then Decoded.refused Health.corrupt
    else let (kind, r1) =
        number 1 (record { rest = take (length input - crc_size) input; ok = true }) in
      let (found, r2) = number 1 r1 in
      if not (kind == registry_kind) || not (found == version)
      then Decoded.refused Health.format
      else let (role_found, r3) = number 1 r2 in
        if not (role_found == role_code role)
        then Decoded.refused Health.role
        else let (device_found, r4) = number 8 r3 in
          if not (device_found == device)
          then Decoded.refused Health.device
          else read_registry (length input) role device r4
