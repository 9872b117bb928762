-- ===== src/Records/EntryReadBack.antt =====
-- records.cpp: the entries of a registry, read back.
use cajui_firmware.Base.{
  ℕ, zero, suc, ◌+◌, ◌*◌, ◌^◌, ◌≤◌, ◌<◌, ◌≡◌, refl, sym, ap, true, false, List, [], ◌∷◌, ◌++◌, some,
  arith, ltb, leb, ◌⊎◌, inl, inr, length, set, replicate, All, length-append,
}
use mathlib.Core.List.{append_assoc}
use cajui_firmware.Wire.{put}
use cajui_firmware.Wire.Numbers.{length-put}
use cajui_firmware.Protocol.{key_size}
use cajui_firmware.Records.{
  Role, Enrollment, is_empty, enrollment_code, Entry, no_entry, binding_capacity,
  registry_entry_size,
}
use cajui_firmware.Records.Codec.{number-put, number_byte, block-append}
use cajui_firmware.Records.Enrollments.{occupied, put_entry, put_entries}
use cajui_firmware.Records.Registries.{
  enrollment_of, bad_entry, with_state, read_entry, read_entries,
}

-- An occupied entry that a registry of the role may hold.
pub record IsOccupied (role : Role) (device receiver : ℕ) (e : Entry) : Type 0 where
  pub occupied_state : is_empty e.state ≡ false
  pub node_fits : e.node < 2 ^ 64
  pub generation_fits : e.generation < 2 ^ 64
  pub counter_fits : e.counter < 2 ^ 64
  pub key_sized : length e.key ≡ key_size
  pub allowed : bad_entry role device receiver e ≡ false

abbrev pub IsEntry : Role → ℕ → ℕ → Entry → Type 0
IsEntry role device receiver e = (e ≡ no_entry) ⊎ IsOccupied role device receiver e

enrollment_of-code :
    (state : Enrollment)
    → is_empty state ≡ false
    → enrollment_of (enrollment_code state) ≡ some state
enrollment_of-code Enrollment.empty h = ground arith
enrollment_of-code Enrollment.prepared h = refl
enrollment_of-code Enrollment.active h = refl
enrollment_of-code Enrollment.revoked h = refl

enrollment_code-lt : (state : Enrollment) → enrollment_code state < 256
enrollment_code-lt Enrollment.empty = omega arith
enrollment_code-lt Enrollment.prepared = omega arith
enrollment_code-lt Enrollment.active = omega arith
enrollment_code-lt Enrollment.revoked = omega arith

abbrev put_fields : Entry → List ℕ
put_fields e =
    enrollment_code e.state ∷ (put e.node 8 ++ (put e.generation 8 ++ (e.key ++ put e.counter 8)))

module _ (role : Role) (device receiver : ℕ) where
  read_entry-put_fields :
      (e : Entry) (rest : List ℕ)
      → IsOccupied role device receiver e
      → read_entry role device receiver (record { rest = put_fields e ++ rest; ok = true })
        ≡ some (e, record { rest = rest; ok = true })
  unfolding read_entry
  read_entry-put_fields e rest w =
      rw
        (
          append_assoc (put e.node 8) (put e.generation 8 ++ (e.key ++ put e.counter 8)) rest,
          append_assoc (put e.generation 8) (e.key ++ put e.counter 8) rest,
          append_assoc e.key (put e.counter 8) rest,
          number_byte (enrollment_code e.state)
              (put e.node 8 ++ (put e.generation 8 ++ (e.key ++ (put e.counter 8 ++ rest)))) true
              (enrollment_code-lt e.state),
          number-put e.node 8 (put e.generation 8 ++ (e.key ++ (put e.counter 8 ++ rest))) true
              (omega arith) w.node_fits,
          number-put e.generation 8 (e.key ++ (put e.counter 8 ++ rest)) true (omega arith)
              w.generation_fits,
          block-append e.key (put e.counter 8 ++ rest) key_size true (sym w.key_sized),
          number-put e.counter 8 rest true (omega arith) w.counter_fits,
          enrollment_of-code e.state w.occupied_state,
        )
        (unfold with_state in rw w.allowed refl)

  set-append :
      (pre ys : List Entry) (x e : Entry) (slot : ℕ)
      → slot ≡ length pre
      → set (pre ++ (x ∷ ys)) slot e ≡ pre ++ (e ∷ ys)
  set-append [] ys x e zero h = refl
  set-append [] ys x e (suc slot) h = absurd (omega arith)
  set-append (p ∷ pre) ys x e zero h = absurd (omega arith)
  set-append (p ∷ pre) ys x e (suc slot) h = ap (◌∷◌ p) (set-append pre ys x e slot (omega arith))

  -- One round of the loop, at an occupied entry.
  read_entries_round :
      (left next slot : ℕ) (e : Entry) (rest : List ℕ) (entries : List Entry)
      → next ≤ slot
      → slot < binding_capacity
      → IsOccupied role device receiver e
      → read_entries role device receiver
          (suc left)
          next
          (record { rest = slot ∷ (put_fields e ++ rest); ok = true })
          entries
        ≡ read_entries role device receiver left
            (suc slot)
            (record { rest = rest; ok = true })
            (set entries slot e)
  unfolding read_entries
  read_entries_round left next slot e rest entries low high w =
      let above : ltb slot next ≡ false = ground arith in
      let below : leb binding_capacity slot ≡ false = ground arith in
      rw
        (
          number_byte slot (put_fields e ++ rest) true (omega arith),
          above,
          below,
          read_entry-put_fields e rest w,
          read_entries,
        )
        (rw (number_byte slot (put_fields e ++ rest) true (omega arith)) refl)

  pub read_entries-put_entries :
      (es pre : List Entry) (next slot : ℕ) (rest : List ℕ)
      → next ≤ slot
      → slot ≡ length pre
      → slot + length es ≡ binding_capacity
      → All (IsEntry role device receiver) es
      → read_entries role device receiver
          (occupied es)
          next
          (record { rest = put_entries slot es ++ rest; ok = true })
          (pre ++ replicate (length es) no_entry)
        ≡ some (pre ++ es, record { rest = rest; ok = true })
  unfolding occupied put_entries
  read_entries-put_entries [] pre next slot rest low at full w = unfold read_entries in refl
  read_entries-put_entries (e ∷ es) pre next slot rest low at full (inl blank, w) =
      rw
        (
          blank,
          ← append_assoc pre (no_entry ∷ []) (replicate (length es) no_entry),
          ← append_assoc pre (no_entry ∷ []) es,
        )
        (read_entries-put_entries es (pre ++ (no_entry ∷ [])) next (suc slot) rest (omega arith)
          (omega (arith, length-append pre (no_entry ∷ []))) (omega arith) w)
  read_entries-put_entries (e ∷ es) pre next slot rest low at full (inr held, w) =
      rw
        (
          held.occupied_state,
          append_assoc (put_fields e) (put_entries (suc slot) es) rest,
          read_entries_round (occupied es) next slot e (put_entries (suc slot) es ++ rest)
              (pre ++ (no_entry ∷ replicate (length es) no_entry)) low (omega arith) held,
          set-append pre (replicate (length es) no_entry) no_entry e slot at,
          ← append_assoc pre (e ∷ []) (replicate (length es) no_entry),
          ← append_assoc pre (e ∷ []) es,
        )
        (read_entries-put_entries es (pre ++ (e ∷ [])) (suc slot) (suc slot) rest (omega arith)
          (omega (arith, length-append pre (e ∷ []))) (omega arith) w)

  pub length-put_entries :
      (es : List Entry) (slot : ℕ)
      → All (IsEntry role device receiver) es
      → (length (put_entries slot es) ≡ occupied es * registry_entry_size)
        × (occupied es ≤ length es)
  unfolding occupied put_entries put_entry
  length-put_entries [] slot w = (refl, omega arith)
  length-put_entries (e ∷ es) slot (inl blank, w) =
      let rest = length-put_entries es (suc slot) w in rw blank (rest.0, omega (arith, rest.1))
  length-put_entries (e ∷ es) slot (inr held, w) =
      let rest = length-put_entries es (suc slot) w in
      rw held.occupied_state (
        omega (
          arith,
          rest.0,
          held.key_sized,
          length-append (put_fields e) (put_entries (suc slot) es),
          length-append (put e.node 8) (put e.generation 8 ++ (e.key ++ put e.counter 8)),
          length-append (put e.generation 8) (e.key ++ put e.counter 8),
          length-append e.key (put e.counter 8),
          length-put e.node 8,
          length-put e.generation 8,
          length-put e.counter 8,
        ),
        omega (arith, rest.1),
      )
