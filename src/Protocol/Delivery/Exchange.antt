-- ===== src/Protocol/Delivery/Exchange.antt =====
-- A sample's way through `receive`, and back to the sender.
use cajui_firmware.Base.{
  ℕ, ◌≤◌, ◌<◌, ◌≡◌, refl, ap, ◌∙◌, ℤ, Bool, true, false, Option, none, some, arith, ◌==◌,
  bytes_eq_refl, Bool-cases, ==→eq, eq→==, inl, inr,
}
use cajui_firmware.Protocol.{
  max_frame, type_data, Result, is_ok, Binding, Frame, frame_size, Message, Link, Receipt,
}
use cajui_firmware.Protocol.Crypto.{Crypto}
use cajui_firmware.Protocol.Codec.{
  same_frame, seal, open_frame, open_envelope, after_envelope, bad_size, Envelope,
}
use cajui_firmware.Protocol.Delivery.{
  Journal, new_receipt, response, answer, accept, repeat, judge, after_load, after_open, receive,
}

-- What `Journal` promises, as long as its state is well formed: a committed receipt is the one
-- loaded next, and a commit, failed ones too, leaves a well-formed state.
pub record JournalLaws {S : Type 0} (P : S → Type 0) (j : Journal S) : Type 0 where
  pub load-commit :
      (b : Binding) (n : ℕ) (r : Receipt) (s s' : S)
      → P s
      → j.commit b n r s ≡ (Result.ok, s')
      → j.load b s' ≡ some r
  pub keep : (b : Binding) (n : ℕ) (r : Receipt) (s : S) → P s → P (j.commit b n r s).1

-- The stored command is the one that the first ACK carried.
response_command :
    (m : Message) (f : Frame) (link : Link) (power : ℤ)
    → response m f (new_receipt m f link power).ack_power ≡ response m f power
unfolding response new_receipt
response_command m f link power = ground arith

module _ (c : Crypto) where
  open_envelope_size :
      (b : Binding) (f : Frame) (e : Envelope)
      → open_envelope b f ≡ (Result.ok, e)
      → frame_size f ≤ max_frame
  unfolding open_envelope bad_size
  open_envelope_size b f e h = ground arith

  after_envelope_ok :
      (b : Binding) (f : Frame) (p : Result × Envelope) (m : Message)
      → after_envelope c b f p ≡ (Result.ok, m)
      → p ≡ (Result.ok, p.1)
  unfolding after_envelope
  after_envelope_ok b f (Result.ok, e) m h = refl
  after_envelope_ok b f (_, e) m h = absurd (ground arith)

  -- A frame that opens is within the bounds of a frame.
  pub open_frame_size :
      (b : Binding) (f : Frame) (m : Message)
      → open_frame c b f ≡ (Result.ok, m)
      → frame_size f ≤ max_frame
  unfolding open_frame
  open_frame_size b f m h = open_envelope_size b f _ (after_envelope_ok b f (open_envelope b f) m h)

  same_frame_self :
      (b : Binding) (f : Frame) (m : Message)
      → open_frame c b f ≡ (Result.ok, m)
      → same_frame f f ≡ true
  unfolding same_frame
  same_frame_self b f m h = ground (arith, open_frame_size b f m h, bytes_eq_refl f)

  module _ {S : Type 0} (j : Journal S) where
    is_ok_eq : (r : Result) → is_ok r ≡ true → r ≡ Result.ok
    is_ok_eq Result.ok h = refl
    is_ok_eq _ h = absurd (ground arith)

    -- What a new sample goes through.
    pub record Accepted (b : Binding) (f : Frame) (link : Link) (power : ℤ) (s : S) (ack : Frame)
        (s' : S) : Type 0 where
      pub message : Message
      pub old : Receipt
      pub opened : open_frame c b f ≡ (Result.ok, message)
      pub is_data : message.type ≡ type_data
      pub loaded : j.load b s ≡ some old
      pub is_new : old.counter < message.counter
      pub committed : j.commit b old.counter (new_receipt message f link power) s ≡ (Result.ok, s')
      pub sealed : seal c b (response message f power) ≡ (Result.ok, ack)

    answer_ok :
        (s s' : S) (p : Result × Frame) (duplicate : Bool) (ack : Frame)
        → answer duplicate s p ≡ (Result.ok, ack, s')
        → (p ≡ (Result.ok, ack)) × (duplicate ≡ false) × (s ≡ s')
    unfolding answer
    answer_ok s s' (Result.ok, f) duplicate ack h = ground arith
    answer_ok s s' (_, f) duplicate ack h = absurd (ground arith)

    judge_ok :
        (b : Binding) (f : Frame) (link : Link) (power : ℤ) (m : Message) (old : Receipt) (s s' : S)
        (ack : Frame)
        → judge c j b f link power m old s ≡ (Result.ok, ack, s')
        → (old.counter < m.counter)
          × (j.commit b old.counter (new_receipt m f link power) s ≡ (Result.ok, s'))
          × (seal c b (response m f power) ≡ (Result.ok, ack))
    unfolding judge accept repeat
    judge_ok b f link power m old s s' ack h =
        let saved = j.commit b old.counter (new_receipt m f link power) s in
        ground (
          arith,
          is_ok_eq saved.0,
          answer_ok saved.1 s' (seal c b (response m f power)) false ack,
          answer_ok s s' (seal c b (response m f old.ack_power)) true ack,
        )

    after_load_ok :
        (b : Binding) (f : Frame) (link : Link) (power : ℤ) (m : Message) (o : Option Receipt)
        (s s' : S) (ack : Frame)
        → open_frame c b f ≡ (Result.ok, m)
        → m.type ≡ type_data
        → j.load b s ≡ o
        → after_load c j b f link power m o s ≡ (Result.ok, ack, s')
        → Accepted b f link power s ack s'
    unfolding after_load
    after_load_ok b f link power m none s s' ack opened sample loaded h = absurd (ground arith)
    after_load_ok b f link power m (some old) s s' ack opened sample loaded h =
        let (new, committed, sealed) = judge_ok b f link power m old s s' ack h in
        record {
          message = m;
          old = old;
          opened = opened;
          is_data = sample;
          loaded = loaded;
          is_new = new;
          committed = committed;
          sealed = sealed;
        }

    after_open_ok :
        (b : Binding) (f : Frame) (link : Link) (power : ℤ) (p : Result × Message) (s s' : S)
        (ack : Frame)
        → open_frame c b f ≡ p
        → after_open c j b f link power p s ≡ (Result.ok, ack, s')
        → Accepted b f link power s ack s'
    unfolding after_open
    after_open_ok b f link power (Result.ok, m) s s' ack opened h =
        elim (Bool-cases (m.type == type_data)) [
          | inl sample ↦
              after_load_ok b f link power m (j.load b s) s s' ack opened (==→eq _ _ sample) refl
                (rw sample at h)
          | inr other ↦ absurd (ground (arith, other))
        ]
    after_open_ok b f link power (_, m) s s' ack opened h = absurd (ground arith)

    -- Where `receive` answers Ok, the frame opened to DATA with a counter above the journal's, the
    -- journal committed its receipt, and the ACK is the sealed response to it.
    pub receive_ok :
        (b : Binding) (f : Frame) (link : Link) (power : ℤ) (s s' : S) (ack : Frame)
        → receive c j b f link power s ≡ (Result.ok, ack, s')
        → Accepted b f link power s ack s'
    unfolding receive
    receive_ok b f link power s s' ack h =
        after_open_ok b f link power (open_frame c b f) s s' ack refl h

    judge_duplicate :
        (b : Binding) (f : Frame) (link : Link) (power : ℤ) (m : Message) (old : Receipt) (s : S)
        (ack : Frame)
        → old.counter ≡ m.counter
        → same_frame old.last f ≡ true
        → seal c b (response m f old.ack_power) ≡ (Result.ok, ack)
        → judge c j b f link power m old s ≡ (Result.duplicate, ack, s)
    unfolding judge repeat answer
    judge_duplicate b f link power m old s ack same match sealed = rw (sealed, match) (ground arith)

    -- With a journal that keeps its laws in a well-formed state, a frame that was accepted as new
    -- and comes again, whatever the command or the link now, is a duplicate: it is answered with the
    -- very bytes of the first ACK, and the journal is left alone.
    pub receive-receive :
        {P : S → Type 0}
        → JournalLaws P j
        → (b : Binding) (f : Frame) (link link' : Link) (power power' : ℤ) (s s' : S) (ack : Frame)
        → P s
        → receive c j b f link power s ≡ (Result.ok, ack, s')
        → receive c j b f link' power' s' ≡ (Result.duplicate, ack, s')
    unfolding receive after_open after_load
    receive-receive laws b f link link' power power' s s' ack w h =
        let a = receive_ok b f link power s s' ack h in
        let next = new_receipt a.message f link power in
        let again : seal c b (response a.message f next.ack_power) ≡ (Result.ok, ack) =
          ap (seal c b) (response_command a.message f link power) ∙ a.sealed in
        rw (a.opened, eq→== _ _ a.is_data, laws.load-commit b a.old.counter next s s' w a.committed)
          (judge_duplicate b f link' power' a.message next s' ack (unfold new_receipt in refl)
            (unfold new_receipt in same_frame_self b f a.message a.opened) again)
