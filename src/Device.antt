-- ===== src/Device.antt =====
-- lib/CajuiDevice/src/cajui_device.h and cajui_device.cpp: the decisions of a device about its boot
-- mode, its transmit power, its battery and its restarts.
pub mod Transmitting
pub mod Waiting
use cajui_firmware.Base.{
  ℕ, zero, suc, ◌+◌, ◌-◌, ◌*◌, ◌%◌, ◌^◌, ℤ, pos, negsuc, int8_half, int_eq, to_signed, to_unsigned,
  Bool, true, false, not, ◌&&◌, ◌||◌, List, [], ◌∷◌, ◌++◌, Option, ltb, leb, ◌==◌, if◌then◌else◌,
  length, take, drop, get_or,
}
use cajui_firmware.Wire.{put, get}
use cajui_firmware.Protocol.{keep_power}
use cajui_firmware.Records.{is_receiver}
use cajui_firmware.Records.Codec.{crc32}
use cajui_firmware.Storage.{Read, Store}
use cajui_firmware.Storage.Enrolling.{binding}
use cajui_firmware.Runtime.{Completion}

pub data BootRequest : Type 0 where
  none admin pair : BootRequest

pub data BootMode : Type 0 where
  admin pair run : BootMode

pub data AdminReason : Type 0 where
  none requested storage not_enrolled : AdminReason

pub record BootDecision : Type 0 where
  pub mode : BootMode
  pub reason : AdminReason

abbrev pub administer : AdminReason → BootDecision
administer reason = record { mode = BootMode.admin; reason = reason }

abbrev pub boot_into : BootMode → BootDecision
boot_into mode = record { mode = mode; reason = AdminReason.none }

abbrev pub is_pair : BootRequest → Bool
is_pair BootRequest.pair = true
is_pair _ = false

abbrev pub is_bound : {R : Type 0} → Store R → Bool
is_bound s = elim (binding s.device s) [ Option.none ↦ false | Option.some b ↦ true ]

-- `decideBoot` for mounted storage and no request for administration.
unfoldable pub decide_mounted : {R : Type 0} → Store R → ℕ → BootRequest → Bool → BootDecision
decide_mounted s radio_profile request pair_held =
    let profile_ok = s.registry.profile == radio_profile in
    if not (is_receiver s.role)
    then (if is_pair request || pair_held
        then boot_into BootMode.pair
        else if not (s.registry.network == 0) && profile_ok && is_bound s
        then boot_into BootMode.run
        else administer AdminReason.not_enrolled)
    else if s.registry.network == 0 || profile_ok
    then boot_into BootMode.run
    else administer AdminReason.not_enrolled

unfoldable pub decide_boot : {R : Type 0} → Store R → Bool → ℕ → BootRequest → Bool → BootDecision
decide_boot s mounted radio_profile BootRequest.admin pair_held = administer AdminReason.requested
decide_boot s mounted radio_profile request pair_held =
    if not mounted
    then administer AdminReason.storage
    else decide_mounted s radio_profile request pair_held

abbrev pub int_leb : ℤ → ℤ → Bool
int_leb (pos m) (pos n) = leb m n
int_leb (pos m) (negsuc n) = false
int_leb (negsuc m) (pos n) = true
int_leb (negsuc m) (negsuc n) = leb n m

abbrev pub min_power : ℤ
min_power = negsuc 8

abbrev pub max_power : ℤ
max_power = pos 22

abbrev pub default_power : ℤ
default_power = negsuc 8

abbrev pub missed_ack_limit : ℕ
missed_ack_limit = 3

unfoldable pub valid_power : ℤ → Bool
valid_power dbm = int_leb min_power dbm && int_leb dbm max_power

unfoldable pub clamp_power : ℤ → ℤ → ℤ
clamp_power dbm ceiling =
    if not (int_leb min_power dbm)
    then min_power
    else if not (int_leb dbm ceiling)
    then ceiling
    else dbm

pub record PowerState : Type 0 where
  pub dbm : ℤ
  pub missed : ℕ
  pub ceiling : ℤ

unfoldable pub ceiling_of : ℤ → ℤ
ceiling_of configured = if valid_power configured then configured else default_power

unfoldable pub current_power : Option PowerState → ℤ → ℤ
current_power Option.none configured = ceiling_of configured
current_power (Option.some state) configured =
    if int_eq state.ceiling (ceiling_of configured)
    then clamp_power state.dbm (ceiling_of configured)
    else ceiling_of configured

-- The state that `nextPower` starts from: a state of another ceiling counts for nothing.
unfoldable pub carried : PowerState → ℤ → PowerState
carried now ceiling =
    if int_eq now.ceiling ceiling
    then record { dbm = clamp_power now.dbm ceiling; missed = now.missed; ceiling = ceiling }
    else record { dbm = ceiling; missed = 0; ceiling = ceiling }

unfoldable pub unanswered : PowerState → PowerState
unanswered next =
    let missed = (if ltb next.missed missed_ack_limit then next.missed + 1 else missed_ack_limit) in
    record next {
      missed = missed;
      dbm = if leb missed_ack_limit missed then next.ceiling else next.dbm;
    }

unfoldable pub answered : ℤ → PowerState → PowerState
answered command next = record next {
  missed = 0;
  dbm = if int_eq command keep_power then next.dbm else clamp_power command next.ceiling;
}

unfoldable pub next_power : PowerState → ℤ → Bool → ℤ → PowerState
next_power now configured acknowledged command =
    let next = carried now (ceiling_of configured) in
    if acknowledged then answered command next else unanswered next

-- `AtomicBlob`: one durable record.
pub record AtomicBlob (B : Type 0) : Type 0 where
  pub read : ℕ → B → Read
  pub replace : List ℕ → B → (Bool × B)

abbrev pub power_kind : ℕ
power_kind = b'P'

abbrev pub power_version : ℕ
power_version = 1

abbrev pub radio_record_size : ℕ
radio_record_size = 1 + 1 + 1 + 4

pub data LoadedPower : Type 0 where
  loaded : ℤ → LoadedPower
  missing error : LoadedPower

unfoldable pub power_record : ℤ → List ℕ
power_record dbm =
    let head = power_kind ∷ power_version ∷ to_unsigned int8_half dbm ∷ [] in
    head ++ put (crc32 head) 4

unfoldable pub read_power : List ℕ → LoadedPower
read_power bytes =
    let value = to_signed int8_half (get_or bytes 2 0) in
    if not (length bytes == radio_record_size)
      || not (get_or bytes 0 0 == power_kind)
      || not (get_or bytes 1 0 == power_version)
      || not (get (drop 3 bytes) == crc32 (take 3 bytes))
      || not (valid_power value)
    then LoadedPower.error
    else LoadedPower.loaded value

module _ {B : Type 0} (blob : AtomicBlob B) where
  unfoldable pub load_power : B → LoadedPower
  load_power b = elim (blob.read radio_record_size b) [
    | Read.found bytes ↦ read_power bytes
    | Read.missing ↦ LoadedPower.missing
    | Read.error ↦ LoadedPower.error
  ]

  unfoldable pub save_power : ℤ → B → (Bool × B)
  save_power dbm b = if not (valid_power dbm) then (false, b) else blob.replace (power_record dbm) b

abbrev pub first_retry_ms : ℕ
first_retry_ms = 10000

abbrev pub max_retry_ms : ℕ
max_retry_ms = 15 * 60 * 1000

-- The loop, with the rounds that are left.
unfoldable pub doubled : ℕ → ℕ → ℕ
doubled zero delay = delay
doubled (suc n) delay =
    let rest = doubled n (delay * 2) in if ltb delay max_retry_ms then rest else delay

unfoldable pub retry_delay_ms : ℕ → ℕ
retry_delay_ms faults =
    let delay = doubled (faults - 1) first_retry_ms in
    if ltb delay max_retry_ms then delay else max_retry_ms

pub data BatteryMode : Type 0 where
  normal low critical : BatteryMode

abbrev pub low_battery_mv : ℕ
low_battery_mv = 3400

abbrev pub critical_battery_mv : ℕ
critical_battery_mv = 3200

abbrev pub battery_hysteresis_mv : ℕ
battery_hysteresis_mv = 100

abbrev pub critical_below : BatteryMode → ℕ
critical_below BatteryMode.critical = critical_battery_mv + battery_hysteresis_mv
critical_below _ = critical_battery_mv

abbrev pub low_below : BatteryMode → ℕ
low_below BatteryMode.normal = low_battery_mv
low_below _ = low_battery_mv + battery_hysteresis_mv

unfoldable pub battery_mode : ℕ → BatteryMode → BatteryMode
battery_mode millivolts previous =
    if millivolts == 0
    then previous
    else if ltb millivolts (critical_below previous)
    then BatteryMode.critical
    else if ltb millivolts (low_below previous)
    then BatteryMode.low
    else BatteryMode.normal

abbrev pub radio_silence_ms : ℕ
radio_silence_ms = 30 * 60 * 1000

unfoldable pub radio_silent : ℕ → ℕ → Bool → Bool
radio_silent now last enrolled = enrolled && leb radio_silence_ms ((now + 2 ^ 32 - last) % 2 ^ 32)

pub record CycleOutcome : Type 0 where
  pub confirm : Bool
  pub fault : Bool

unfoldable pub after_delivery : Completion → CycleOutcome
after_delivery Completion.acknowledged = record { confirm = true; fault = false }
after_delivery Completion.attempts_exhausted = record { confirm = false; fault = false }
after_delivery Completion.deadline = record { confirm = false; fault = false }
after_delivery Completion.cancelled = record { confirm = false; fault = false }
after_delivery _ = record { confirm = false; fault = true }
