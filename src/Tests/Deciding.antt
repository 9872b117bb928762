-- ===== src/Tests/Deciding.antt =====
-- The device's decisions, at concrete inputs.
use cajui_firmware.Base.{
  ltb, if◌then◌else◌, ◌*◌, ℕ, ◌+◌, ◌≡◌, refl, ap, sym, pos, Bool, true, false, List, some, arith,
}
use cajui_firmware.Storage.{Read, found, missing}
use cajui_firmware.Device.{
  PowerState, next_power, current_power, AtomicBlob, load_power, save_power, loaded, retry_delay_ms,
  power_record,
}
use cajui_firmware.Device.Transmitting.{current_power-next_power, load_power-save_power}
use cajui_firmware.Device.Waiting.{retry_delay_ms_doubles}

abbrev at_ceiling : PowerState
at_ceiling = record { dbm = pos 10; missed = 2; ceiling = pos 14 }

current_power-next_power_example :
    current_power (some (next_power at_ceiling (pos 14) false (pos 20))) (pos 14)
    ≡ (next_power at_ceiling (pos 14) false (pos 20)).dbm
current_power-next_power_example =
    current_power-next_power at_ceiling (pos 14) (pos 20) false (omega arith)

-- The third missed ACK returns the power to the ceiling.
third_missed : (next_power at_ceiling (pos 14) false (pos 20)).dbm ≡ pos 14
unfolding next_power cajui_firmware.Device.unanswered cajui_firmware.Device.carried
    cajui_firmware.Device.ceiling_of cajui_firmware.Device.valid_power
third_missed = refl

-- A blob that is its last record.
abbrev cell : AtomicBlob Read
cell = record { read = λ capacity b. b; replace = λ bytes b. (true, found bytes) }

cell_law :
    (bytes : List ℕ) (b b' : Read)
    → cell.replace bytes b ≡ (true, b')
    → cell.read 7 b' ≡ found bytes
cell_law bytes b b' h = ap (λ (p : Bool × Read). p.1) (sym h)

saved : save_power cell (pos 14) missing ≡ (true, found (power_record (pos 14)))
unfolding save_power cajui_firmware.Device.valid_power
saved = refl

load_power-save_power_example : load_power cell (found (power_record (pos 14))) ≡ loaded (pos 14)
load_power-save_power_example =
    load_power-save_power cell cell_law (pos 14) missing (found (power_record (pos 14))) saved

retry_delay_ms_doubles_example :
    (retry_delay_ms 0 ≡ 10000)
    × (retry_delay_ms 1 ≡ 10000)
    × (retry_delay_ms (2 + 2)
        ≡ (if ltb (retry_delay_ms (2 + 1) * 2) 900000 then retry_delay_ms (2 + 1) * 2 else 900000))
    × (retry_delay_ms (2 + 8) ≡ 900000)
retry_delay_ms_doubles_example = retry_delay_ms_doubles 2
