-- ===== src/Application/Limiter.antt =====
-- `DuplicateAckLimiter`: how often a repeated sample of one node is acknowledged again.
use cajui_firmware.Base.{
  ℕ, suc, ◌+◌, ◌-◌, ◌%◌, ◌^◌, Bool, true, false, ◌||◌, List, [], ◌∷◌, Option, none, some, leb, ◌==◌,
  if◌then◌else◌, get_or, set, replicate,
}
use cajui_firmware.Records.{binding_capacity}

abbrev pub window_ms : ℕ
window_ms = 60000

abbrev pub per_window : ℕ
per_window = 3

pub record Slot : Type 0 where
  pub node : ℕ
  pub since : ℕ
  pub count : ℕ

abbrev pub no_slot : Slot
no_slot = record { node = 0; since = 0; count = 0 }

-- `binding_capacity` slots.
abbrev pub no_slots : List Slot
no_slots = replicate binding_capacity no_slot

-- `uint32_t(now - slot->since)`
abbrev pub age : ℕ → Slot → ℕ
age now s = (now + 2 ^ 32 - s.since) % 2 ^ 32

-- The loops keep the last candidate: its index, from `i` on.
unfoldable pub last_index : (Slot → Bool) → ℕ → Option ℕ → List Slot → Option ℕ
last_index p i best [] = best
last_index p i best (s ∷ ss) = last_index p (suc i) (if p s then some i else best) ss

abbrev pub is_slot_of : ℕ → Slot → Bool
is_slot_of node s = s.node == node

-- A free or expired slot.
abbrev pub is_reusable : ℕ → Slot → Bool
is_reusable now s = s.node == 0 || leb window_ms (age now s)

-- A slot that has run out of its window starts a new one.
unfoldable pub renewed : ℕ → Slot → Slot
renewed now s = if leb window_ms (age now s) then record s { since = now; count = 0 } else s

-- The end of `allow`, on the slot of the node.
unfoldable pub count_in : ℕ → ℕ → Slot → List Slot → (Bool × List Slot)
unfolding renewed
count_in now i s slots =
    if leb per_window (renewed now s).count
    then (false, set slots i (renewed now s))
    else (true, set slots i (record (renewed now s) { count = (renewed now s).count + 1 }))

unfoldable pub allow : ℕ → ℕ → List Slot → (Bool × List Slot)
unfolding last_index
allow node now slots = elim (last_index (is_slot_of node) 0 none slots) [
  | some i ↦ count_in now i (get_or slots i no_slot) slots
  | none ↦ elim (last_index (is_reusable now) 0 none slots) [
    | none ↦ (false, slots)
    | some i ↦ count_in now i (record { node = node; since = now; count = 0 }) slots
  ]
]
