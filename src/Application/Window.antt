-- ===== src/Application/Window.antt =====
-- When the limiter lets a repeated ACK of one node through.
use cajui_firmware.Base.{
  ℕ, ◌+◌, ◌<◌, ◌≤◌, ◌≡◌, ◌⊎◌, Bool, true, false, List, ◌==◌, get_or, set, length, All,
}
use cajui_firmware.Application.Limiter.{window_ms, per_window, Slot, no_slot, age, is_slot_of}

-- A slot of the node in its window.
pub record IsOpen (node now : ℕ) (s : Slot) : Type 0 where
  pub of_node : s.node ≡ node
  pub within : age now s < window_ms

-- The slot that counts an answered call: a new window's first, or one more of an open window.
abbrev pub IsCounted : ℕ → ℕ → Slot → Slot → Type 0
IsCounted node now before after =
    (after ≡ record { node = node; since = now; count = 1 })
    ⊎ (IsOpen node now before
        × (before.count < per_window)
        × (after ≡ record { node = node; since = before.since; count = before.count + 1 }))

-- Call `true`: exactly one slot changes, and it counts the answer.
pub record IsAllowed (node now : ℕ) (slots : List Slot) (r : Bool × List Slot) : Type 0 where
  pub answer : r.0 ≡ true
  pub index : ℕ
  pub in_range : index < length slots
  pub slot : Slot
  pub counted : IsCounted node now (get_or slots index no_slot) slot
  pub kept : r.1 ≡ set slots index slot

-- A slot that another call may not take over.
pub record IsBusy (node now : ℕ) (s : Slot) : Type 0 where
  pub of_other : is_slot_of node s ≡ false
  pub taken : (s.node == 0) ≡ false
  pub within : age now s < window_ms

-- Call `false`: the node's open window is full, or every slot is another node's.
pub record IsRefused (node now : ℕ) (slots : List Slot) (r : Bool × List Slot) : Type 0 where
  pub answer : r.0 ≡ false
  pub reason :
      ((i : ℕ) × (i < length slots)
        × IsOpen node now (get_or slots i no_slot)
        × (per_window ≤ (get_or slots i no_slot).count))
      ⊎ All (IsBusy node now) slots

abbrev pub IsAnswered : ℕ → ℕ → List Slot → (Bool × List Slot) → Type 0
IsAnswered node now slots r = IsAllowed node now slots r ⊎ IsRefused node now slots r
