-- ===== src/Records/Validation.antt =====
-- records.cpp: `validate`, the rules across the entries of a registry and the retired list.
use cajui_firmware.Base.{
  ℕ, suc, ◌+◌, Bool, true, false, not, ◌&&◌, ◌||◌, List, [], ◌∷◌, none, some, ltb, ◌==◌,
  if◌then◌else◌, bytes_eq,
}
use cajui_firmware.Protocol.Crypto.{Crypto}
use cajui_firmware.Records.{
  Role, is_empty, is_prepared, is_active, is_revoked, Health, Entry, Registry, RetiredList,
}
use cajui_firmware.Records.Enrollments.{fingerprint}
use cajui_firmware.Records.Retirement.{is_retired}

-- Two occupied entries that no registry holds together.
unfoldable pub excludes : Entry → Entry → Bool
excludes e other =
    bytes_eq other.key e.key
    || other.generation == e.generation
    || (other.node == e.node && is_prepared other.state && is_prepared e.state)

-- The inner loop, for entry `i`: another occupied entry excludes it.
unfoldable pub any_excludes : ℕ → Entry → ℕ → List Entry → Bool
any_excludes i e j [] = false
any_excludes i e j (other ∷ es) =
    (not (j == i) && not (is_empty other.state) && excludes e other) || any_excludes i e (suc j) es

-- The inner loop's count of other active generations of an active entry's node.
unfoldable pub active_others : ℕ → Entry → ℕ → List Entry → ℕ
active_others i e j [] = 0
active_others i e j (other ∷ es) =
    (if not (j == i) && is_active e.state && other.node == e.node && is_active other.state
      then 1
      else 0)
    + active_others i e (suc j) es

abbrev pub active_limit : Role → ℕ
active_limit Role.receiver = 2
active_limit Role.transmitter = 1

unfoldable pub too_many_active : Role → ℕ → Entry → List Entry → Bool
too_many_active role i e es =
    ltb (active_limit role) ((if is_active e.state then 1 else 0) + active_others i e 0 es)

-- An entry that is not revoked must have a fingerprint, and not a retired one.
unfoldable pub bad_print : Crypto → RetiredList → Entry → Bool
bad_print c list e =
    not (is_revoked e.state)
    && elim (fingerprint c e.key) [ none ↦ true | some print ↦ is_retired list e.generation print ]

unfoldable pub bad_rules : Crypto → Role → RetiredList → List Entry → ℕ → Entry → Bool
bad_rules c role list all i e =
    not (is_empty e.state)
    && (any_excludes i e 0 all || too_many_active role i e all || bad_print c list e)

-- The outer loop, from entry `i` on.
unfoldable pub any_bad : Crypto → Role → RetiredList → List Entry → ℕ → List Entry → Bool
any_bad c role list all i [] = false
any_bad c role list all i (e ∷ es) =
    bad_rules c role list all i e || any_bad c role list all (suc i) es

unfoldable pub validate : Crypto → Registry → Role → RetiredList → Health
validate c g role list =
    if any_bad c role list g.entries 0 g.entries then Health.invalid else Health.ready
