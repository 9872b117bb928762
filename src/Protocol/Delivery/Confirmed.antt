-- ===== src/Protocol/Delivery/Confirmed.antt =====
-- From `begin` to `acknowledge`: a sample that the receiver accepts is confirmed to its sender.
use cajui_firmware.Base.{
  ℕ, ◌++◌, ◌+◌, ◌-◌, ◌^◌, ◌≤◌, ◌<◌, ◌≡◌, refl, sym, ap, ◌∙◌, ◌≢◌, ℤ, true, false, Option, none,
  some, arith, ◌==◌, bytes_eq_refl, length-append, length-slice, IsSigned, int8_half, inl, inr,
  Bool-cases, subst,
}
use cajui_firmware.Protocol.{
  header_size, tag_size, wire_v2, keep_power, Result, Binding, Data, Frame, frame_size, Message,
  no_message, Link,
}
use cajui_firmware.Protocol.Crypto.{Crypto, Laws}
use cajui_firmware.Protocol.Codec.{seal, open_frame, header}
use cajui_firmware.Protocol.Payload.{IsSample}
use cajui_firmware.Protocol.RoundTrip.{
  IsIdentity, IsMessage, open_frame-seal, seal-Sealed, decrypt-Sealed, length-header,
}
use cajui_firmware.Protocol.Delivery.{
  Journal, CounterStore, Sender, tag_of, command_for, response, receive, start_sample, begin_with,
  begin, next_attempt, after_ack, acknowledge, confirms,
}
use cajui_firmware.Protocol.Delivery.Exchange.{receive_ok}

-- The message that `begin` seals.
abbrev pub sample_message : ℕ → ℕ → Data → Message
sample_message version counter sample = record no_message {
  version = version;
  counter = counter;
  sample = sample;
}

-- The sender right after a successful `begin`.
abbrev pub begun : Binding → ℕ → ℕ → Frame → Sender
begun b version counter f = record {
  binding = b;
  pending = f;
  counter = counter;
  attempts = 0;
  version = version;
  power = keep_power;
  delivered = false;
}

command_for-IsSigned :
    (version : ℕ) (power : ℤ)
    → IsSigned int8_half power
    → IsSigned int8_half (command_for version power)
unfolding command_for
command_for-IsSigned version power h = elim (Bool-cases (version == wire_v2)) [
  | inl e ↦ rw e h
  | inr e ↦ rw e (omega arith)
]

-- The ACK of the sample in flight.
abbrev confirmation : Sender → Data → ℤ → Message
confirmation s d power = response (sample_message s.version s.counter d) s.pending power

confirmation-IsMessage :
    (s : Sender) (d : Data) (power : ℤ)
    → s.counter < 2 ^ 64
    → header_size + tag_size ≤ frame_size s.pending
    → IsSigned int8_half power
    → IsMessage (confirmation s d power)
unfolding response
confirmation-IsMessage s d power fits size signed = (
  fits,
  inr (record {
    is_ack = refl;
    no_sample = refl;
    tag_fits = length-slice s.pending (frame_size s.pending - tag_size) tag_size (omega arith);
    power_fits = command_for-IsSigned s.version power signed;
  }),
)

confirms-confirmation :
    (s : Sender) (d : Data) (power : ℤ)
    → (confirms s (confirmation s d power) ≡ true)
      × ((confirmation s d power).power_dbm ≡ command_for s.version power)
unfolding confirms response
confirms-confirmation s d power = (ground (arith, bytes_eq_refl (tag_of s.pending)), refl)

module _ (c : Crypto) where
  start_sample_ok :
      (b : Binding) (version counter : ℕ) (s s' : Sender) (p : Result × Frame)
      → start_sample b version counter s p ≡ (Result.ok, s')
      → (p ≡ (Result.ok, s'.pending)) × (s' ≡ begun b version counter s'.pending)
  unfolding start_sample
  start_sample_ok b version counter s s' (Result.ok, f) h = ground arith
  start_sample_ok b version counter s s' (_, f) h = absurd (ground arith)

  module _ {T : Type 0} (counters : CounterStore T) where
    begin_with_ok :
        (b : Binding) (d : Data) (version : ℕ) (s s' : Sender) (p : Option ℕ × T) (t' : T)
        → begin_with c counters b d version s p ≡ (Result.ok, s', t')
        → (p ≡ (some s'.counter, t'))
          × (s'.counter ≢ 0)
          × (seal c b (sample_message version s'.counter d) ≡ (Result.ok, s'.pending))
          × (s' ≡ begun b version s'.counter s'.pending)
    unfolding begin_with
    begin_with_ok b d version s s' (none, t) t' h = absurd (ground arith)
    begin_with_ok b d version s s' (some counter, t) t' h = ground (
      arith,
      start_sample_ok b version counter s s' (seal c b (sample_message version counter d)),
    )

    -- A sample in flight is one frame, sealed under a counter that the store has just reserved.
    pub begin_ok :
        (b : Binding) (d : Data) (version : ℕ) (s s' : Sender) (t t' : T)
        → begin c counters b d version s t ≡ (Result.ok, s', t')
        → (counters.reserve b t ≡ (some s'.counter, t'))
          × (s'.counter ≢ 0)
          × (seal c b (sample_message version s'.counter d) ≡ (Result.ok, s'.pending))
          × (s' ≡ begun b version s'.counter s'.pending)
    unfolding begin
    begin_ok b d version s s' t t' h =
        ground (arith, begin_with_ok b d version s s' (counters.reserve b t) t')

  module _ (laws : Laws c) where
    pub seal_size :
        (b : Binding) (m : Message) (f : Frame)
        → seal c b m ≡ (Result.ok, f)
        → header_size + tag_size ≤ frame_size f
    seal_size b m f h =
        let s = seal-Sealed c b m f h in
        rw s.layout (
          omega (
            arith,
            length-append {0} (header b m) (s.cipher ++ s.tag),
            length-append {0} s.cipher s.tag,
            length-header b m,
            decrypt-Sealed c laws b m f s,
          ))

    -- An ACK for the sample in flight is taken by the sender that waits for it.
    acknowledge-seal :
        (b : Binding) (s : Sender) (ack : Frame) (power : ℤ)
        → IsIdentity b
        → s.binding ≡ b
        → s.counter < 2 ^ 64
        → s.attempts ≢ 0
        → header_size + tag_size ≤ frame_size s.pending
        → IsSigned int8_half power
        → (d : Data)
        → seal c b (response (sample_message s.version s.counter d) s.pending power)
          ≡ (Result.ok, ack)
        → acknowledge c ack s
          ≡ (Result.ok, record s { delivered = true; power = command_for s.version power })
    unfolding acknowledge after_ack
    acknowledge-seal b s ack power i bound fits tried size signed d h =
        let opened : open_frame c s.binding ack ≡ (Result.ok, confirmation s d power) = rw bound (
          open_frame-seal c laws b (confirmation s d power) ack i
            (confirmation-IsMessage s d power fits size signed) h) in
        rw opened (ground (arith, confirms-confirmation s d power))

    -- The whole exchange, under a cipher that keeps its laws, with an identity, a sample, a counter
    -- and a power command that fit their widths: a sample that `begin` took and `receive` accepted as
    -- new is confirmed by the ACK after the first transmission, and the sender learns the command.
    pub delivers :
        {S T : Type 0} (j : Journal S) (counters : CounterStore T)
        → (b : Binding) (d : Data) (version : ℕ) (sender sender' : Sender) (t t' : T)
        → (link : Link) (power : ℤ) (s s' : S) (ack : Frame) → IsIdentity b
        → IsSample d
        → IsSigned int8_half power
        → sender'.counter < 2 ^ 64
        → begin c counters b d version sender t ≡ (Result.ok, sender', t')
        → receive c j b sender'.pending link power s ≡ (Result.ok, ack, s')
        → (next_attempt sender' ≡ (some sender'.pending, record sender' { attempts = 1 }))
          × (acknowledge c ack (record sender' { attempts = 1 }) ≡ (
            Result.ok,
            record sender' { attempts = 1; delivered = true; power = command_for version power },
          ))
    unfolding next_attempt
    delivers j counters b d version sender sender' t t' link power s s' ack i w signed fits h r =
        let (_, _, sealed, shape) = begin_ok counters b d version sender sender' t t' h in
        let size = seal_size b (sample_message version sender'.counter d) sender'.pending sealed in
        let a = receive_ok c j b sender'.pending link power s s' ack r in
        let opened =
          open_frame-seal c laws b (sample_message version sender'.counter d) sender'.pending i
            (
              fits,
              inl (record { is_data = refl; sample_fits = w; no_data_tag = refl; no_power = refl }),
            )
            sealed in
        let same : a.message ≡ sample_message version sender'.counter d =
          ap (λ (p : Result × Message). p.1) (sym a.opened ∙ opened) in
        let idle : sender'.attempts ≡ 0 = ap (λ (x : Sender). x.attempts) shape in
        let open_still : sender'.delivered ≡ false = ap (λ (x : Sender). x.delivered) shape in
        (
          ground (arith, idle, open_still, size),
          subst
              (λ v.
                seal c b (response (sample_message v sender'.counter d) sender'.pending power)
                  ≡ (Result.ok, ack)
                → acknowledge c ack (record sender' { attempts = 1 }) ≡ (
                  Result.ok,
                  record sender' { attempts = 1; delivered = true; power = command_for v power },
                ))
              (ap (λ (x : Sender). x.version) shape)
              (acknowledge-seal b (record sender' { attempts = 1 }) ack power i
                (ap (λ (x : Sender). x.binding) shape) fits (omega arith) size signed d)
              (rw same at a.sealed),
        )
