-- ===== src/Records/Names.antt =====
-- records.cpp: the names of receipts and queued samples.
use cajui_firmware.Base.{
  ℕ, zero, suc, Bool, true, ◌&&◌, ◌+◌, ◌-◌, ◌/◌, ◌%◌, ◌<◌, ◌≤◌, ◌≡◌, refl, sym, ap, ◌∙◌, List, [],
  ◌∷◌, arith, ltb, ◌==◌, if◌then◌else◌, get_or,
}
use cajui_firmware.Records.{queue_capacity, binding_capacity}

abbrev hex : List ℕ
hex =
    b'0' ∷ b'1' ∷ b'2' ∷ b'3' ∷ b'4' ∷ b'5' ∷ b'6' ∷ b'7' ∷ b'8' ∷ b'9' ∷ b'a' ∷ b'b' ∷ b'c' ∷ b'd'
    ∷ b'e' ∷ b'f' ∷ []

-- A letter and two hexadecimal digits, without the terminating zero.
unfoldable pub name : ℕ → ℕ → List ℕ
name prefix index = prefix ∷ get_or hex (index / 16 % 16) 0 ∷ get_or hex (index % 16) 0 ∷ []

unfoldable pub receipt_key : ℕ → List ℕ
unfolding name
receipt_key slot = name b'r' slot

unfoldable pub queue_key : ℕ → List ℕ
unfolding name
queue_key sequence = name b'q' (sequence % queue_capacity)

hex_value : ℕ → ℕ
hex_value d = if ltb d b'a' then d - b'0' else d - 87

-- A function on digits that undoes the table gives back every number below a bound.
fixes : (ℕ → ℕ) → ℕ → Bool
fixes f zero = true
fixes f (suc bound) = fixes f bound && f bound == bound

fixes_lem : (f : ℕ → ℕ) (bound i : ℕ) → fixes f bound ≡ true → i < bound → f i ≡ i
unfolding fixes
fixes_lem f zero i all inside = absurd (omega arith)
fixes_lem f (suc bound) i all inside = ground (arith, fixes_lem f bound i)

hex_value-hex : (i : ℕ) → i < 16 → hex_value (get_or hex i 0) ≡ i
unfolding hex_value fixes
hex_value-hex i inside = fixes_lem (λ d. hex_value (get_or hex d 0)) 16 i refl inside

name-injective : (prefix i j : ℕ) → i < 256 → j < 256 → name prefix i ≡ name prefix j → i ≡ j
unfolding name
name-injective prefix i j hi hj e =
    let high : i / 16 % 16 ≡ j / 16 % 16 =
      sym (hex_value-hex _ (omega arith))
      ∙ ap (λ (n : List ℕ). hex_value (get_or n 1 0)) e
      ∙ hex_value-hex _ (omega arith) in
    let low : i % 16 ≡ j % 16 =
      sym (hex_value-hex _ (omega arith))
      ∙ ap (λ (n : List ℕ). hex_value (get_or n 2 0)) e
      ∙ hex_value-hex _ (omega arith) in
    omega arith

-- The samples of one queue, at most 128 sequence numbers in a row, have names of their own.
pub queue_key-injective :
    (head s t : ℕ)
    → head ≤ s
    → s < head + queue_capacity
    → head ≤ t
    → t < head + queue_capacity
    → queue_key s ≡ queue_key t
    → s ≡ t
unfolding queue_key
queue_key-injective head s t hs ls ht lt e = omega (
  arith,
  name-injective b'q' (s % queue_capacity) (t % queue_capacity) (omega arith) (omega arith) e,
)

-- Every slot has a receipt name of its own.
pub receipt_key-injective :
    (i j : ℕ) → i < binding_capacity → j < binding_capacity → receipt_key i ≡ receipt_key j → i ≡ j
unfolding receipt_key
receipt_key-injective i j hi hj e = name-injective b'r' i j (omega arith) (omega arith) e
