-- ===== src/Device/Waiting.antt =====
-- How long a device waits: the restart delay and the battery's schedule.
use cajui_firmware.Base.{
  ℕ, zero, suc, refl, sym, ap, ◌∙◌, ltb, if◌then◌else◌, ◌+◌, ◌*◌, ◌≤◌, ◌≡◌, arith, ◌≢◌,
}
use cajui_firmware.Device.{first_retry_ms, max_retry_ms, doubled, retry_delay_ms}

doubled_mono : (n d : ℕ) → doubled n d ≤ doubled (suc n) d
unfolding doubled
doubled_mono zero d = ground arith
doubled_mono (suc n) d = ground (arith, doubled_mono n (d * 2))

doubled_lower : (n d : ℕ) → d ≤ doubled n d
unfolding doubled
doubled_lower zero d = omega arith
doubled_lower (suc n) d = ground (arith, doubled_lower n (d * 2))

doubled_late : (n : ℕ) → max_retry_ms ≤ doubled (7 + n) first_retry_ms
unfolding doubled
doubled_late n = ground (arith, doubled_lower n 1280000)

-- The loop, from twice the delay: it is the loop's result doubled, up to the limit.
doubled_twice :
    (n d : ℕ)
    → d ≢ 0
    → (if ltb (doubled n (d * 2)) max_retry_ms then doubled n (d * 2) else max_retry_ms)
      ≡ (if ltb (doubled n d * 2) max_retry_ms then doubled n d * 2 else max_retry_ms)
unfolding doubled
doubled_twice zero d h = refl
doubled_twice (suc n) d h =
    ground (arith, doubled_twice n (d * 2), doubled_lower n (d * 2), doubled_lower n (d * 2 * 2))

ten_seconds : ◌≢◌ {A = ℕ} 10000 0
ten_seconds e = absurd (omega (arith, e))

abbrev capped : ℕ → ℕ
capped delay = if ltb delay max_retry_ms then delay else max_retry_ms

retry_delay_ms-suc : (n m : ℕ) → m ≡ suc n → retry_delay_ms m ≡ capped (doubled n 10000)
unfolding retry_delay_ms
retry_delay_ms-suc n m h = ap (λ (k : ℕ). capped (doubled k 10000)) (omega (arith, h))

capped_twice : (n : ℕ) → capped (doubled (suc n) 10000) ≡ capped (capped (doubled n 10000) * 2)
unfolding doubled
capped_twice n = ground (arith, doubled_twice n 10000 ten_seconds)

-- The delay before a restart is ten seconds with no or one consecutive fault, and with each further
-- fault it is twice the delay before, up to a quarter of an hour, which it is from the eighth fault on.
pub retry_delay_ms_doubles :
    (faults : ℕ)
    → (retry_delay_ms 0 ≡ 10000)
      × (retry_delay_ms 1 ≡ 10000)
      × (retry_delay_ms (faults + 2) ≡ (
          if ltb (retry_delay_ms (faults + 1) * 2) 900000
          then retry_delay_ms (faults + 1) * 2
          else 900000))
      × (retry_delay_ms (faults + 8) ≡ 900000)
unfolding retry_delay_ms
retry_delay_ms_doubles n = (
  unfold doubled in refl,
  unfold doubled in refl,
  retry_delay_ms-suc (suc n) (n + 2) (omega arith)
      ∙ capped_twice n
      ∙ ap (λ (k : ℕ). capped (k * 2)) (sym (retry_delay_ms-suc n (n + 1) (omega arith))),
  retry_delay_ms-suc (7 + n) (n + 8) (omega arith) ∙ ground (arith, doubled_late n),
)
