-- ===== src/Runtime/Airtime.antt =====
-- How often the controller transmits in one cycle, counted at the radio.
use cajui_firmware.Base.{ℕ, zero, suc, ◌+◌, ◌-◌, ◌≤◌, if◌then◌else◌}
use cajui_firmware.Protocol.Crypto.{Crypto}
use cajui_firmware.Runtime.{Outside, Controller, active, poll}

-- A radio that counts every frame it is told to transmit, whether it then does or not.
unfoldable pub counting : {W : Type 0} → Outside W → Outside (ℕ × W)
counting o = record {
  now_ms = λ p. ((o.now_ms p.1).0, (p.0, (o.now_ms p.1).1));
  between = λ lo hi p. ((o.between lo hi p.1).0, (p.0, (o.between lo hi p.1).1));
  start_channel_check = λ p. ((o.start_channel_check p.1).0, (p.0, (o.start_channel_check p.1).1));
  channel_status = λ p. ((o.channel_status p.1).0, (p.0, (o.channel_status p.1).1));
  start_transmit = λ f p. ((o.start_transmit f p.1).0, (suc p.0, (o.start_transmit f p.1).1));
  transmit_status = λ p. ((o.transmit_status p.1).0, (p.0, (o.transmit_status p.1).1));
  receive = λ p. ((o.receive p.1).0, (p.0, (o.receive p.1).1));
  sleep = λ p. ((o.sleep p.1).0, (p.0, (o.sleep p.1).1));
}

-- The transmissions that a controller has left: none outside a cycle.
abbrev pub left : Controller → ℕ
left k = if active k then 3 - k.sender.attempts else 0

module _ {W : Type 0} (o : Outside W) where
  -- From `n` transmissions, a call spends at most what the controller had left.
  abbrev IsWithin : Controller → ℕ → (Controller × (ℕ × W)) → Type 0
  IsWithin k n r = r.1.0 + left r.0 ≤ n + left k

  module _ (c : Crypto) where
    -- Any number of polls, in order.
    unfoldable pub polls : ℕ → Controller → (ℕ × W) → (Controller × (ℕ × W))
    polls zero k p = (k, p)
    polls (suc count) k p = let (k', p') = poll (counting o) c k p in polls count k' p'
