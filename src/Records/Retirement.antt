-- ===== src/Records/Retirement.antt =====
-- records.cpp: the list of retired credentials.
use cajui_firmware.Base.{
  ℕ, zero, suc, ◌+◌, ◌*◌, ◌^◌, ◌<◌, ◌≤◌, ◌≡◌, ◌≢◌, refl, Bool, true, false, not, ◌&&◌, ◌||◌, List,
  [], ◌∷◌, ◌++◌, Option, none, some, arith, ltb, ◌==◌, if◌then◌else◌, length, drop, All,
  length-append,
}
use cajui_firmware.Wire.{put}
use cajui_firmware.Wire.Numbers.{length-put}
use cajui_firmware.Records.{
  Retired, RetiredList, retired_capacity, retired_kind, retired_record_capacity, crc_size, version,
}
use cajui_firmware.Records.Codec.{
  Reader, number, done, finish, open_record, number-put, number_byte, open_record-finish,
}

unfoldable pub is_retired : RetiredList → ℕ → ℕ → Bool
is_retired [] generation print = false
is_retired (r ∷ rs) generation print =
    r.generation == generation || r.fingerprint == print || is_retired rs generation print

-- A full list forgets its oldest item.
unfoldable pub make_room : RetiredList → RetiredList
make_room list = if length list == retired_capacity then drop 1 list else list

unfoldable pub retire : RetiredList → ℕ → ℕ → RetiredList
unfolding make_room
retire list generation print =
    make_room list ++ (record { generation = generation; fingerprint = print } ∷ [])

unfoldable pub put_items : RetiredList → List ℕ
put_items [] = []
put_items (r ∷ rs) = put r.generation 8 ++ (put r.fingerprint 8 ++ put_items rs)

unfoldable pub encode_retired : RetiredList → List ℕ
unfolding put_items
encode_retired list = finish (retired_kind ∷ version ∷ length list ∷ put_items list)

-- A generation of zero clears `ok`.
unfoldable pub get_items : ℕ → Reader → (RetiredList × Reader)
get_items zero r = ([], r)
get_items (suc count) r =
    let (generation, r1) = number 8 r in
    let (print, r2) = number 8 r1 in
    let (rest, r3) = get_items count (record r2 { ok = r2.ok && not (generation == 0) }) in
    (record { generation = generation; fingerprint = print } ∷ rest, r3)

unfoldable pub read_retired : Option (ℕ × Reader) → Option RetiredList
read_retired none = none
read_retired (some (found, r)) =
    let (count, r1) = number 1 r in
    if ltb retired_capacity count
    then none
    else let (items, r2) = get_items count r1 in if done r2 then some items else none

unfoldable pub decode_retired : List ℕ → Option RetiredList
decode_retired input =
    read_retired (open_record input (3 + crc_size) retired_record_capacity retired_kind version)

is_retired-append :
    (xs ys : RetiredList) (generation print : ℕ)
    → is_retired (xs ++ ys) generation print
      ≡ (is_retired xs generation print || is_retired ys generation print)
unfolding is_retired
is_retired-append [] ys generation print = refl
is_retired-append (x ∷ xs) ys generation print =
    ground (arith, is_retired-append xs ys generation print)

one_item :
    (generation print g p : ℕ)
    → is_retired (record { generation = generation; fingerprint = print } ∷ []) g p
      ≡ (generation == g || print == p)
unfolding is_retired
one_item generation print g p = ground arith

make_room_size :
    (list : RetiredList)
    → length list ≤ retired_capacity
    → length (make_room list) < retired_capacity
unfolding make_room
make_room_size [] h = omega arith
make_room_size (x ∷ xs) h = ground arith

make_room_full :
    (list : RetiredList)
    → (length list ≢ 64 → make_room list ≡ list) × (length list ≡ 64 → make_room list ≡ drop 1 list)
unfolding make_room
make_room_full list = (λ h. ground (arith, h), λ h. ground (arith, h))

-- After a retirement, the credentials refused are those with its generation or its fingerprint and
-- those that the list refused before; where the list had all its 64 items, those that its items but
-- the first refused. A list of at most 64 items stays one.
pub is_retired-retire :
    (list : RetiredList) (generation print g p : ℕ)
    → length list ≤ 64
    → (length list ≢ 64
        → is_retired (retire list generation print) g p
          ≡ (is_retired list g p || (generation == g || print == p)))
      × (length list ≡ 64
          → is_retired (retire list generation print) g p
            ≡ (is_retired (drop 1 list) g p || (generation == g || print == p)))
      × (length (retire list generation print) ≤ 64)
unfolding retire
is_retired-retire list generation print g p h =
    let new : RetiredList = record { generation = generation; fingerprint = print } ∷ [] in
    let refused = is_retired-append (make_room list) new g p in
    let one = one_item generation print g p in
    (
      λ room. ground (arith, make_room_full list, room, refused, one),
      λ full. ground (arith, make_room_full list, full, refused, one),
      omega (arith, length-append (make_room list) new, make_room_size list h),
    )

pub record IsRetired (r : Retired) : Type 0 where
  pub generation_fits : r.generation < 2 ^ 64
  pub has_generation : r.generation ≢ 0
  pub print_fits : r.fingerprint < 2 ^ 64

nonzero : (n : ℕ) → n ≢ 0 → (true && not (n == 0)) ≡ true
nonzero n h = ground arith

get_items-put_items :
    (list : RetiredList)
    → All IsRetired list
    → get_items (length list) (record { rest = put_items list; ok = true })
      ≡ (list, record { rest = []; ok = true })
unfolding get_items put_items
get_items-put_items [] h = refl
get_items-put_items (r ∷ rs) (h, hs) =
    rw
      (
        number-put r.generation 8 (put r.fingerprint 8 ++ put_items rs) true (omega arith)
            h.generation_fits,
        number-put r.fingerprint 8 (put_items rs) true (omega arith) h.print_fits,
        nonzero r.generation h.has_generation,
        get_items-put_items rs hs,
      )
      refl

length-put_items : (list : RetiredList) → length (put_items list) ≡ length list * 16
unfolding put_items
length-put_items [] = refl
length-put_items (r ∷ rs) = omega (
  arith,
  length-append (put r.generation 8) (put r.fingerprint 8 ++ put_items rs),
  length-append (put r.fingerprint 8) (put_items rs),
  length-put r.generation 8,
  length-put r.fingerprint 8,
  length-put_items rs,
)

-- A list of at most 64 retired credentials, with generations other than zero and numbers of 64 bits,
-- is read back.
pub decode_retired-encode_retired :
    (list : RetiredList)
    → length list ≤ retired_capacity
    → All IsRetired list
    → decode_retired (encode_retired list) ≡ some list
unfolding decode_retired encode_retired read_retired
decode_retired-encode_retired list h each =
    rw
      (
        open_record-finish retired_kind version (length list ∷ put_items list) (3 + crc_size)
            retired_record_capacity version (omega arith) (omega arith) (omega arith) (omega arith)
            (omega (arith, length-put_items list)) (omega (arith, length-put_items list)),
        number_byte (length list) (put_items list) true (omega arith),
        get_items-put_items list each,
      )
      (unfold done in ground arith)
