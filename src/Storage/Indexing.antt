-- ===== src/Storage/Indexing.antt =====
-- The search for the first entry that passes a test.
use cajui_firmware.Base.{
  ℕ, zero, suc, ◌<◌, ◌≡◌, refl, Bool, true, List, [], ◌∷◌, some, arith, length, get_or, set,
}
use cajui_firmware.Storage.{find_index}

module _ {ℓ} {A : Type ℓ} where
  -- The index found is in range, its element passes, and none before it does.
  pub find_index_found :
      (p : A → Bool) (xs : List A) (i : ℕ) (d : A)
      → find_index p xs ≡ some i
      → (i < length xs) × (p (get_or xs i d) ≡ true)
  unfolding find_index
  find_index_found p [] i d h = absurd (ground arith)
  find_index_found p (x ∷ xs) zero d h = ground (arith, h)
  find_index_found p (x ∷ xs) (suc i) d h = ground (arith, find_index_found p xs i d)

  -- A write that does not change what the test says of its slot does not change what is found.
  pub find_index-set :
      (p : A → Bool) (xs : List A) (i : ℕ) (v d : A)
      → p v ≡ p (get_or xs i d)
      → find_index p (set xs i v) ≡ find_index p xs
  unfolding find_index
  find_index-set p [] i v d h = refl
  find_index-set p (x ∷ xs) zero v d h = rw h
  find_index-set p (x ∷ xs) (suc i) v d h = rw (find_index-set p xs i v d h)
