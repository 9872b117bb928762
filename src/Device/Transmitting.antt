-- ===== src/Device/Transmitting.antt =====
-- The transmit power across cycles and restarts.
use cajui_firmware.Base.{
  ℕ, ◌≤◌, ◌≡◌, refl, ℤ, pos, negsuc, int8_half, int_eq, int_eq_refl, IsSigned, to_unsigned,
  to_signed-to_unsigned_int8, Bool, true, false, List, some, arith, Bool-cases, inl, inr, [], ◌∷◌,
  ==_refl,
}
use cajui_firmware.Wire.Numbers.{get-put, length-put}
use cajui_firmware.Records.Codec.{crc32, crc32-lt}
use cajui_firmware.Storage.{found}
use cajui_firmware.Device.{
  int_leb, min_power, missed_ack_limit, valid_power, clamp_power, PowerState, ceiling_of,
  current_power, carried, answered, unanswered, next_power, AtomicBlob, loaded, power_record,
  read_power, load_power, save_power, radio_record_size, power_kind, power_version,
}

int_leb_refl : (a : ℤ) → int_leb a a ≡ true
int_leb_refl (pos n) = ground arith
int_leb_refl (negsuc n) = ground arith

ceiling_of_valid : (configured : ℤ) → int_leb min_power (ceiling_of configured) ≡ true
unfolding ceiling_of valid_power
ceiling_of_valid configured = ground arith

-- A power within the ceiling.
pub record IsPower (dbm ceiling : ℤ) : Type 0 where
  pub enough : int_leb min_power dbm ≡ true
  pub capped : int_leb dbm ceiling ≡ true

clamp_power-IsPower :
    (dbm ceiling : ℤ) → int_leb min_power ceiling ≡ true → IsPower (clamp_power dbm ceiling) ceiling
unfolding clamp_power
clamp_power-IsPower dbm ceiling h = record {
  enough = ground arith;
  capped = ground (arith, int_leb_refl ceiling);
}

clamp_power_id : (dbm ceiling : ℤ) → IsPower dbm ceiling → clamp_power dbm ceiling ≡ dbm
unfolding clamp_power
clamp_power_id dbm ceiling p = ground (arith, p.enough, p.capped)

ceiling_IsPower : (ceiling : ℤ) → int_leb min_power ceiling ≡ true → IsPower ceiling ceiling
ceiling_IsPower ceiling h = record { enough = h; capped = int_leb_refl ceiling }

-- What every step keeps: a power within the ceiling, and at most three missed ACKs.
pub record IsPowerState (configured : ℤ) (s : PowerState) : Type 0 where
  pub power : IsPower s.dbm s.ceiling
  pub ceiling_now : s.ceiling ≡ ceiling_of configured
  pub counted : s.missed ≤ missed_ack_limit
  pub returned : s.missed ≡ missed_ack_limit → s.dbm ≡ s.ceiling

-- A state of this ceiling keeps its power; the count is bounded in the stored state already.
carried_parts :
    (s : PowerState) (ceiling : ℤ)
    → int_leb min_power ceiling ≡ true
    → s.missed ≤ missed_ack_limit
    → IsPower (carried s ceiling).dbm ceiling
      × ((carried s ceiling).ceiling ≡ ceiling)
      × ((carried s ceiling).missed ≤ missed_ack_limit)
unfolding carried
carried_parts s ceiling h m = elim (Bool-cases (int_eq s.ceiling ceiling)) [
  | inl e ↦ rw e (clamp_power-IsPower s.dbm ceiling h, refl, m)
  | inr e ↦ rw e (ceiling_IsPower ceiling h, refl, omega arith)
]

unanswered-IsPowerState :
    (configured : ℤ) (s : PowerState)
    → IsPower s.dbm s.ceiling
    → s.ceiling ≡ ceiling_of configured
    → s.missed ≤ missed_ack_limit
    → IsPowerState configured (unanswered s)
unfolding unanswered
unanswered-IsPowerState configured s p e m = record {
  power = record {
    enough = ground (arith, p.enough, ceiling_of_valid configured);
    capped = ground (arith, p.capped, int_leb_refl s.ceiling);
  };
  ceiling_now = e;
  counted = ground arith;
  returned = λ h. ground arith;
}

answered-IsPowerState :
    (configured command : ℤ) (s : PowerState)
    → IsPower s.dbm s.ceiling
    → s.ceiling ≡ ceiling_of configured
    → IsPowerState configured (answered command s)
unfolding answered
answered-IsPowerState configured command s p e =
    let q = clamp_power-IsPower command s.ceiling (rw e (ceiling_of_valid configured)) in
    record {
      power = record {
        enough = ground (arith, p.enough, q.enough);
        capped = ground (arith, p.capped, q.capped);
      };
      ceiling_now = e;
      counted = ground arith;
      returned = λ h. ground arith;
    }

pub next_power-IsPowerState :
    (s : PowerState) (configured command : ℤ) (acknowledged : Bool)
    → s.missed ≤ missed_ack_limit
    → IsPowerState configured (next_power s configured acknowledged command)
unfolding next_power
next_power-IsPowerState s configured command acknowledged m =
    let (p, e, n) = carried_parts s (ceiling_of configured) (ceiling_of_valid configured) m in
    let same : IsPower (carried s (ceiling_of configured)).dbm
        (carried s (ceiling_of configured)).ceiling =
      rw e p in
    elim acknowledged as (λ k. IsPowerState configured (next_power s configured k command)) [
      | true ↦ answered-IsPowerState configured command (carried s (ceiling_of configured)) same e
      | false ↦ unanswered-IsPowerState configured (carried s (ceiling_of configured)) same e n
    ]

-- From a state with three missed ACKs at most, a restart under the same setting uses the power that
-- the last cycle chose.
pub current_power-next_power :
    (s : PowerState) (configured command : ℤ) (acknowledged : Bool)
    → s.missed ≤ missed_ack_limit
    → current_power (some (next_power s configured acknowledged command)) configured
      ≡ (next_power s configured acknowledged command).dbm
unfolding current_power
current_power-next_power s configured command acknowledged m =
    let t = next_power s configured acknowledged command in
    let w = next_power-IsPowerState s configured command acknowledged m in
    rw (← w.ceiling_now, int_eq_refl t.ceiling) (clamp_power_id t.dbm t.ceiling w.power)

valid_power-IsSigned : (dbm : ℤ) → valid_power dbm ≡ true → IsSigned int8_half dbm
unfolding valid_power
valid_power-IsSigned (pos n) h = ground arith
valid_power-IsSigned (negsuc n) h = ground arith

read_power-power_record :
    (dbm : ℤ) → valid_power dbm ≡ true → read_power (power_record dbm) ≡ loaded dbm
unfolding read_power power_record
read_power-power_record dbm h =
    let head : List ℕ = power_kind ∷ power_version ∷ to_unsigned int8_half dbm ∷ [] in
    rw
      (
        get-put (crc32 head) 4 (omega (arith, crc32-lt head)) (omega (arith, crc32-lt head)),
        length-put (crc32 head) 4,
        to_signed-to_unsigned_int8 dbm (valid_power-IsSigned dbm h),
        h,
        ==_refl (crc32 head),
      )
      refl

-- With a blob that reads back what it was given, a power that was saved is the one loaded next.
pub load_power-save_power :
    {B : Type 0} (blob : AtomicBlob B)
    → ((bytes : List ℕ) (b b' : B)
        → blob.replace bytes b ≡ (true, b')
        → blob.read radio_record_size b' ≡ found bytes)
    → (dbm : ℤ) (b b' : B) → save_power blob dbm b ≡ (true, b')
    → load_power blob b' ≡ loaded dbm
unfolding load_power save_power
load_power-save_power blob law dbm b b' h = elim (Bool-cases (valid_power dbm)) [
  | inl v ↦
      rw (law (power_record dbm) b b' (rw (v, save_power) at h), load_power)
        (read_power-power_record dbm v)
  | inr v ↦ absurd (ground (arith, v))
]
