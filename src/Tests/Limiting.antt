-- ===== src/Tests/Limiting.antt =====
-- The limiter on repeated ACKs, at concrete inputs.
use cajui_firmware.Base.{◌≡◌, refl, true, false, List}
use cajui_firmware.Application.Limiter.{Slot, no_slots, allow}

abbrev after_one : List Slot
after_one = (allow 9 1000 no_slots).1

abbrev after_two : List Slot
after_two = (allow 9 2000 after_one).1

abbrev after_three : List Slot
after_three = (allow 9 3000 after_two).1

first_three_allowed : (allow 9 3000 after_two).0 ≡ true
unfolding allow cajui_firmware.Application.Limiter.count_in
first_three_allowed = refl

fourth_refused : (allow 9 4000 after_three).0 ≡ false
unfolding allow cajui_firmware.Application.Limiter.count_in
fourth_refused = refl

new_window : (allow 9 61000 after_three).0 ≡ true
unfolding allow cajui_firmware.Application.Limiter.count_in
new_window = refl
