-- ===== src/Base/Int.antt =====
-- Signed integers and the two's-complement patterns of `int8_t`, `int16_t` and `int32_t`.
use Prim.Native.Nat.{ℕ, ◌-◌, ◌*◌, ◌%◌, ◌<◌}
use mathlib.Core.Path.{◌≡◌}
use mathlib.Core.Bool.{Bool, true, false}
use native.Mathlib.Omega.{arith}
use cajui_firmware.Base.Tests.{ltb, ◌==◌, if◌then◌else◌}

-- `negsuc n` is -(n + 1).
pub data ℤ : Type 0 where
  pos : ℕ → ℤ
  negsuc : ℕ → ℤ

abbrev pub int_eq : ℤ → ℤ → Bool
int_eq (pos a) (pos b) = a == b
int_eq (pos a) (negsuc b) = false
int_eq (negsuc a) (pos b) = false
int_eq (negsuc a) (negsuc b) = a == b

pub int_eq→eq : (a b : ℤ) → int_eq a b ≡ true → a ≡ b
int_eq→eq (pos a) (pos b) h = ground arith
int_eq→eq (pos a) (negsuc b) h = ground arith
int_eq→eq (negsuc a) (pos b) h = ground arith
int_eq→eq (negsuc a) (negsuc b) h = ground arith

pub int_eq_refl : (a : ℤ) → int_eq a a ≡ true
int_eq_refl (pos a) = ground arith
int_eq_refl (negsuc a) = ground arith

-- The unsigned and the signed type of one width hold `half` negative and `half` other values:
-- a conversion to the unsigned type, which wraps, and one back.
abbrev pub to_unsigned : ℕ → ℤ → ℕ
to_unsigned half (pos n) = n % (2 * half)
to_unsigned half (negsuc n) = 2 * half - 1 - n % (2 * half)

abbrev pub to_signed : ℕ → ℕ → ℤ
to_signed half u = if ltb u half then pos u else negsuc (2 * half - 1 - u)

-- The values of the signed type.
abbrev pub IsSigned : ℕ → ℤ → Type 0
IsSigned half (pos n) = n < half
IsSigned half (negsuc n) = n < half

abbrev pub int8_half : ℕ
int8_half = 0x80

abbrev pub int16_half : ℕ
int16_half = 0x8000

abbrev pub int32_half : ℕ
int32_half = 0x8000_0000

pub to_signed-to_unsigned_int8 :
    (a : ℤ) → IsSigned int8_half a → to_signed int8_half (to_unsigned int8_half a) ≡ a
to_signed-to_unsigned_int8 (pos n) h = ground arith
to_signed-to_unsigned_int8 (negsuc n) h = ground arith

pub to_signed-to_unsigned_int16 :
    (a : ℤ) → IsSigned int16_half a → to_signed int16_half (to_unsigned int16_half a) ≡ a
to_signed-to_unsigned_int16 (pos n) h = ground arith
to_signed-to_unsigned_int16 (negsuc n) h = ground arith

pub to_signed-to_unsigned_int32 :
    (a : ℤ) → IsSigned int32_half a → to_signed int32_half (to_unsigned int32_half a) ≡ a
to_signed-to_unsigned_int32 (pos n) h = ground arith
to_signed-to_unsigned_int32 (negsuc n) h = ground arith
