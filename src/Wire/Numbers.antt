-- ===== src/Wire/Numbers.antt =====
-- Reading a big-endian number back.
use cajui_firmware.Base.{
  ℕ, zero, suc, ◌+◌, ◌*◌, ◌/◌, ◌%◌, ◌^◌, ◌<◌, ◌≡◌, refl, sym, ap, ◌∙◌, List, [], ◌∷◌, ◌++◌, arith,
  length, length-append,
}
use cajui_firmware.Wire.{put, get_from, get}
use native.Mathlib.Nat.{pow-suc}

pub length-put : (v n : ℕ) → length (put v n) ≡ n
unfolding put
length-put v zero = refl
length-put v (suc n) =
    omega (arith, length-append (put (v / 256) n) (v % 256 ∷ []), length-put (v / 256) n)

get_from-append :
    (acc b : ℕ) (bs : List ℕ) → get_from acc (bs ++ (b ∷ [])) ≡ (get_from acc bs * 256 + b) % 2 ^ 64
unfolding get_from
get_from-append acc b [] = refl
get_from-append acc b (x ∷ bs) = get_from-append ((acc * 256 + x) % 2 ^ 64) b bs

get_from-put : (v n : ℕ) → v < 256 ^ n → v < 2 ^ 64 → get_from 0 (put v n) ≡ v
unfolding put
get_from-put v zero h k = unfold get_from in omega arith
get_from-put v (suc n) h k =
    get_from-append 0 (v % 256) (put (v / 256) n)
    ∙ omega (arith, get_from-put (v / 256) n (omega (arith, pow-suc 256 n)) (omega arith))

-- A number that fits its bytes is read back.
pub get-put : (v n : ℕ) → v < 256 ^ n → v < 2 ^ 64 → get (put v n) ≡ v
unfolding get
get-put v n h k = get_from-put v n h k

-- So two numbers with the same bytes are equal.
pub put-injective :
    (v w n : ℕ) → v < 256 ^ n → v < 2 ^ 64 → w < 256 ^ n → w < 2 ^ 64 → put v n ≡ put w n → v ≡ w
put-injective v w n hv kv hw kw e = sym (get-put v n hv kv) ∙ ap get e ∙ get-put w n hw kw
