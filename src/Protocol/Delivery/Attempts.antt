-- ===== src/Protocol/Delivery/Attempts.antt =====
-- How often, and with which bytes, one sample goes on the air.
use cajui_firmware.Base.{
  ◌+◌, ◌≤◌, ◌<◌, ◌⊎◌, ◌≡◌, refl, ◌∙◌, List, [], ◌∷◌, ◌++◌, none, some, arith, length, All, inl, inr,
  subst,
}
use cajui_firmware.Protocol.{Result, Frame, Message}
use cajui_firmware.Protocol.Crypto.{Crypto}
use cajui_firmware.Protocol.Codec.{open_frame}
use cajui_firmware.Protocol.Delivery.{
  Sender, max_attempts, next_attempt, after_ack, acknowledge, abandon,
}

-- What the application does with a sample in flight, in any order: ask for the next transmission,
-- hand over a frame that was heard, give the sample up.
pub data Event : Type 0 where
  attempt : Event
  heard : Frame → Event
  give_up : Event

pub next_attempt_cases :
    (s : Sender)
    → (next_attempt s ≡ (none, s))
      ⊎ ((next_attempt s ≡ (some s.pending, record s { attempts = s.attempts + 1 }))
          × (s.attempts < max_attempts))
unfolding next_attempt
next_attempt_cases s = ground arith

module _ (c : Crypto) where
  after : Event → Sender → Sender
  after attempt s = (next_attempt s).1
  after (heard f) s = (acknowledge c f s).1
  after give_up s = abandon s

  sent : Event → Sender → List Frame
  sent attempt s = elim (next_attempt s).0 [ none ↦ [] | some f ↦ f ∷ [] ]
  sent (heard f) s = []
  sent give_up s = []

  -- The frames that a history puts on the air.
  unfoldable pub transmissions : List Event → Sender → List Frame
  unfolding after sent
  transmissions [] s = []
  transmissions (e ∷ es) s = sent e s ++ transmissions es (after e s)

  after_ack_keeps :
      (s : Sender) (p : Result × Message)
      → ((after_ack s p).1.pending ≡ s.pending) × ((after_ack s p).1.attempts ≡ s.attempts)
  unfolding after_ack
  after_ack_keeps s (Result.ok, m) = ground arith
  after_ack_keeps s (_, m) = (refl, refl)

  pub acknowledge_keeps :
      (f : Frame) (s : Sender)
      → ((acknowledge c f s).1.pending ≡ s.pending) × ((acknowledge c f s).1.attempts ≡ s.attempts)
  unfolding acknowledge
  acknowledge_keeps f s = ground (arith, after_ack_keeps s (open_frame c s.binding f))

  -- Nothing is sent without a sample.
  transmissions_idle : (es : List Event) (s : Sender) → s.pending ≡ [] → transmissions es s ≡ []
  unfolding transmissions next_attempt abandon
  transmissions_idle [] s h = refl
  transmissions_idle (attempt ∷ es) s h = ground (arith, transmissions_idle es s h)
  transmissions_idle (heard f ∷ es) s h =
      transmissions_idle es (acknowledge c f s).1 ((acknowledge_keeps f s).0 ∙ h)
  transmissions_idle (give_up ∷ es) s h = transmissions_idle es (abandon s) (unfold abandon in refl)

  -- From a sender with three attempts made at most, every history sends its sample three times at
  -- most, the attempts already made included, and each time the very bytes of the pending frame.
  pub transmissions_bound :
      (es : List Event) (s : Sender)
      → s.attempts ≤ max_attempts
      → (length (transmissions es s) + s.attempts ≤ max_attempts)
        × All (λ f. f ≡ s.pending) (transmissions es s)
  unfolding transmissions
  transmissions_bound [] s h = (omega arith, tt)
  transmissions_bound (attempt ∷ es) s h = elim (next_attempt_cases s) [
    | inl e ↦ rw (e, sent, after) (transmissions_bound es s h)
    | inr (e, more) ↦
        let rest = transmissions_bound es (record s { attempts = s.attempts + 1 }) (omega arith) in
        rw (e, sent, after) (omega (arith, rest.0), (refl, rest.1))
  ]
  transmissions_bound (heard f ∷ es) s h =
      let (same, tried) = acknowledge_keeps f s in
      let rest = transmissions_bound es (acknowledge c f s).1 (omega arith) in
      (
        omega (arith, rest.0),
        subst (λ p. All (λ g. g ≡ p) (transmissions es (acknowledge c f s).1)) same rest.1,
      )
  transmissions_bound (give_up ∷ es) s h =
      rw (transmissions_idle es (abandon s) (unfold abandon in refl)) (omega arith, tt)
