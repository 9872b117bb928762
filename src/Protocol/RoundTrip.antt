-- ===== src/Protocol/RoundTrip.antt =====
-- `open` after `seal`, and what `open` accepts.
use cajui_firmware.Base.{
  ℕ, ◌+◌, ◌-◌, ◌%◌, ◌^◌, ◌≤◌, ◌<◌, ◌≡◌, refl, sym, ap, ◌∙◌, ◌≢◌, IsSigned, true, false, List, [],
  ◌∷◌, ◌++◌, some, arith, ◌==◌, if◌then◌else◌, int_eq→eq, Bool-cases, Option-cases, ◌⊎◌, inl, inr,
  length, take, slice, get_or, length-append, take-append, drop-append, take_all, get_or-append,
  int8_half, to_signed, to_unsigned, to_signed-to_unsigned_int8,
}
use cajui_firmware.Wire
use cajui_firmware.Wire.{put, get}
use cajui_firmware.Wire.Numbers.{get-put}
use cajui_firmware.Protocol.{
  header_size, tag_size, data_prefix_size, reading_size, min_data_payload, max_payload, type_data,
  type_ack, wire_v1, wire_v2, keep_power, Result, Binding, Data, no_data, Frame, Message,
  no_message, no_tag,
}
use mathlib.Core.List.{append_assoc}
use cajui_firmware.Protocol.Crypto.{Crypto, Laws, encrypt, decrypt, decrypt-encrypt}
use cajui_firmware.Protocol.Codec.{
  usable, known_version, valid_data, sealable, plaintext, encode_data, encode_ack, payload_length,
  header, nonce_for, Envelope, read_envelope, bad_size, bad_kind, foreign, bad_layout,
  open_envelope, open_payload, decode_payload, seal, open_frame,
}
use cajui_firmware.Protocol.Payload.{
  IsSample, length-encode_data, decode_data-encode_data, valid_data_count,
}

pub record IsIdentity (b : Binding) : Type 0 where
  pub network_fits : b.network < 2 ^ 64
  pub node_fits : b.node < 2 ^ 64

-- What a DATA or an ACK message carries; the fields of the other kind are those of `Message{}`.
pub record IsDataMessage (m : Message) : Type 0 where
  pub is_data : m.type ≡ type_data
  pub sample_fits : IsSample m.sample
  pub no_data_tag : m.data_tag ≡ no_tag
  pub no_power : m.power_dbm ≡ keep_power

pub record IsAckMessage (m : Message) : Type 0 where
  pub is_ack : m.type ≡ type_ack
  pub no_sample : m.sample ≡ no_data
  pub tag_fits : length m.data_tag ≡ tag_size
  pub power_fits : IsSigned int8_half m.power_dbm

abbrev pub IsMessage : Message → Type 0
IsMessage m = (m.counter < 2 ^ 64) × (IsDataMessage m ⊎ IsAckMessage m)

abbrev envelope_of : Message → Envelope
envelope_of m = record {
  type = m.type;
  version = m.version;
  counter = m.counter;
  length = payload_length m;
}

pub length-header : (b : Binding) (m : Message) → length (header b m) ≡ header_size
unfolding header put
length-header b m = refl

-- The header's fields, where `open` reads them.
record Reads (b : Binding) (m : Message) (f : Frame) : Type 0 where
  magic_read : take 4 f ≡ Wire.magic
  version_read : get_or f Wire.version_at 0 ≡ m.version
  type_read : get_or f Wire.type_at 0 ≡ m.type
  network_read : slice Wire.network_at 8 f ≡ put b.network 8
  node_read : slice Wire.node_at 8 f ≡ put b.node 8
  counter_read : slice Wire.counter_at 8 f ≡ put m.counter 8
  length_read : slice Wire.length_at 2 f ≡ put (payload_length m) 2

header-Reads : (b : Binding) (m : Message) (rest : List ℕ) → Reads b m (header b m ++ rest)
unfolding header put
header-Reads b m rest = record {
  magic_read = refl;
  version_read = refl;
  type_read = refl;
  network_read = refl;
  node_read = refl;
  counter_read = refl;
  length_read = refl;
}

-- The payload has the length that the header states.
pub length-plaintext :
    (m : Message) → IsMessage m → sealable m ≡ true → length (plaintext m) ≡ payload_length m
unfolding plaintext payload_length encode_ack sealable
length-plaintext m (_, inl h) v = ground (arith, length-encode_data m.sample, h.is_data)
length-plaintext m (_, inr h) v =
    ground (
      arith,
      h.is_ack,
      h.tag_fits,
      length-append m.data_tag (to_unsigned int8_half m.power_dbm ∷ []),
    )

-- A payload is short enough for the frame and its length for two bytes; a DATA payload has whole
-- readings.
record Sized (m : Message) : Type 0 where
  in_frame : payload_length m ≤ max_payload
  data_shape :
      m.type ≡ type_data
      → (min_data_payload ≤ payload_length m)
        × ((payload_length m - data_prefix_size) % reading_size ≡ 0)
  ack_shape :
      m.type ≡ type_ack
      → payload_length m ≡ (if m.version == wire_v2 then tag_size + 1 else tag_size)

sealable-Sized : (m : Message) → sealable m ≡ true → Sized m
unfolding sealable payload_length
sealable-Sized m v = record {
  in_frame = ground (arith, valid_data_count m.sample);
  data_shape = λ e. ground (arith, valid_data_count m.sample);
  ack_shape = λ e. ground arith;
}

sealable_parts :
    (m : Message)
    → sealable m ≡ true
    → (m.counter ≢ 0)
      × ((m.type ≡ type_data) ⊎ (m.type ≡ type_ack))
      × (known_version m.version ≡ true)
      × (m.version ≡ wire_v1 → m.power_dbm ≡ keep_power)
      × (m.type ≡ type_data → valid_data m.sample ≡ true)
unfolding sealable
sealable_parts m v = ground (arith, int_eq→eq m.power_dbm keep_power)

read_envelope-Reads :
    (b : Binding) (m : Message) (f : Frame)
    → Reads b m f
    → m.counter < 2 ^ 64
    → Sized m
    → read_envelope f ≡ envelope_of m
unfolding read_envelope
read_envelope-Reads b m f r hc z = λ i. record {
  type = r.type_read i;
  version = r.version_read i;
  counter = (ap get r.counter_read ∙ get-put m.counter 8 (omega arith) hc) i;
  length =
      (ap get r.length_read
          ∙ get-put (payload_length m) 2 (omega (arith, z.in_frame)) (omega (arith, z.in_frame)))
        i;
}

not_bad_kind :
    (b : Binding) (m : Message) (f : Frame) → Reads b m f → sealable m ≡ true → bad_kind f ≡ false
unfolding bad_kind
not_bad_kind b m f r v =
    rw (r.magic_read, r.version_read, r.type_read) (ground (arith, sealable_parts m v))

not_foreign :
    (b : Binding) (m : Message) (f : Frame) → Reads b m f → IsIdentity b → foreign b f ≡ false
unfolding foreign
not_foreign b m f r i = ground (
  arith,
  ap get r.network_read ∙ get-put b.network 8 (omega arith) i.network_fits,
  ap get r.node_read ∙ get-put b.node 8 (omega arith) i.node_fits,
)

not_bad_layout :
    (m : Message) (size : ℕ)
    → Sized m
    → m.counter ≢ 0
    → size ≡ header_size + payload_length m + tag_size
    → bad_layout (envelope_of m) size ≡ false
unfolding bad_layout
not_bad_layout m size z c e = ground (arith, z.in_frame, z.data_shape, z.ack_shape)

open_envelope-Reads :
    (b : Binding) (m : Message) (f : Frame)
    → Reads b m f
    → usable b ≡ true
    → IsIdentity b
    → m.counter < 2 ^ 64
    → sealable m ≡ true
    → length f ≡ header_size + payload_length m + tag_size
    → open_envelope b f ≡ (Result.ok, envelope_of m)
unfolding open_envelope bad_size
open_envelope-Reads b m f r u i hc v hl =
    let z = sealable-Sized m v in
    rw
      (
        u,
        not_bad_kind b m f r v,
        not_foreign b m f r i,
        read_envelope-Reads b m f r hc z,
        not_bad_layout m (length f) z (sealable_parts m v).0 hl,
      )
      (ground (arith, z.in_frame))

open_envelope-header :
    (b : Binding) (m : Message) (rest : List ℕ)
    → usable b ≡ true
    → IsIdentity b
    → m.counter < 2 ^ 64
    → sealable m ≡ true
    → length rest ≡ payload_length m + tag_size
    → open_envelope b (header b m ++ rest) ≡ (Result.ok, envelope_of m)
open_envelope-header b m rest u i hc v hl =
    open_envelope-Reads b m (header b m ++ rest) (header-Reads b m rest) u i hc v
      (omega (arith, length-append (header b m) rest, length-header b m))

data_message : Envelope → Data → Message
data_message e d = record no_message {
  type = e.type;
  version = e.version;
  counter = e.counter;
  sample = d;
}

ack_message : Envelope → Message → Message
ack_message e m = record no_message {
  type = e.type;
  version = e.version;
  counter = e.counter;
  data_tag = m.data_tag;
  power_dbm = m.power_dbm;
}

decode_payload-data :
    (m : Message)
    → IsDataMessage m
    → sealable m ≡ true
    → decode_payload (envelope_of m) (encode_data m.sample) ≡ (Result.ok, m)
unfolding decode_payload payload_length
decode_payload-data m h v =
    let read = decode_data-encode_data m.sample h.sample_fits ((sealable_parts m v).4 h.is_data) in
    ground (arith, read, length-encode_data m.sample, h.is_data, h.no_data_tag, h.no_power)

read_power :
    (m : Message)
    → length m.data_tag ≡ tag_size
    → IsSigned int8_half m.power_dbm
    → to_signed int8_half
        (get_or (m.data_tag ++ (to_unsigned int8_half m.power_dbm ∷ [])) tag_size 0)
      ≡ m.power_dbm
read_power m h s =
    rw (get_or-append m.data_tag (to_unsigned int8_half m.power_dbm) 0 tag_size (sym h))
      (to_signed-to_unsigned_int8 m.power_dbm s)

decode_payload-ack :
    (m : Message)
    → IsAckMessage m
    → sealable m ≡ true
    → decode_payload (envelope_of m) (encode_ack m) ≡ (Result.ok, m)
unfolding decode_payload encode_ack
decode_payload-ack m h v = elim (Bool-cases (m.version == wire_v2)) [
  | inl e ↦
      rw
        (
          e,
          read_power m h.tag_fits h.power_fits,
          take-append m.data_tag (to_unsigned int8_half m.power_dbm ∷ []) tag_size (sym h.tag_fits),
        )
        (ground (arith, h.is_ack, h.no_sample))
  | inr e ↦
      rw (e, take_all m.data_tag tag_size (sym h.tag_fits))
        (ground (arith, h.is_ack, h.no_sample, sealable_parts m v))
]

decode_payload-plaintext :
    (m : Message)
    → IsMessage m
    → sealable m ≡ true
    → decode_payload (envelope_of m) (plaintext m) ≡ (Result.ok, m)
unfolding plaintext
decode_payload-plaintext m (_, inl h) v = ground (arith, decode_payload-data m h v, h.is_data)
decode_payload-plaintext m (_, inr h) v = ground (arith, decode_payload-ack m h v, h.is_ack)

module _ (c : Crypto) where
  -- What a sealed frame is made of.
  pub record Sealed (b : Binding) (m : Message) (f : Frame) : Type 0 where
    pub cipher : List ℕ
    pub tag : List ℕ
    pub is_usable : usable b ≡ true
    pub is_sealable : sealable m ≡ true
    pub encrypted :
        encrypt c b.key (nonce_for m.type m.version m.counter) (header b m) (plaintext m)
        ≡ some (cipher, tag)
    pub layout : f ≡ header b m ++ (cipher ++ tag)

  pub seal-Sealed :
      (b : Binding) (m : Message) (f : Frame) → seal c b m ≡ (Result.ok, f) → Sealed b m f
  unfolding seal
  seal-Sealed b m f e =
      elim (Option-cases
        (encrypt c b.key (nonce_for m.type m.version m.counter) (header b m) (plaintext m))) [
          | inl failed ↦ absurd (ground (arith, failed))
          | inr ((cipher, tag), done) ↦ record {
            cipher = cipher;
            tag = tag;
            is_usable = ground (arith, done);
            is_sealable = ground (arith, done);
            encrypted = done;
            layout = ground (arith, done);
          }
        ]

  module _ (laws : Laws c) where
    pub decrypt-Sealed :
        (b : Binding) (m : Message) (f : Frame) (s : Sealed b m f)
        → (length s.cipher ≡ length (plaintext m))
          × (length s.tag ≡ tag_size)
          × (decrypt c b.key (nonce_for m.type m.version m.counter) (header b m) s.cipher s.tag
              ≡ some (plaintext m))
    decrypt-Sealed b m f s = decrypt-encrypt c laws _ _ _ _ s.cipher s.tag s.encrypted

    open_payload-Sealed :
        (b : Binding) (m : Message) (f : Frame) (s : Sealed b m f)
        → length (plaintext m) ≡ payload_length m
        → open_payload c b (header b m ++ (s.cipher ++ s.tag)) (envelope_of m)
          ≡ decode_payload (envelope_of m) (plaintext m)
    unfolding open_payload
    open_payload-Sealed b m f s size =
        let d = decrypt-Sealed b m f s in
        let h = header b m in
        let front : slice header_size (payload_length m) (h ++ (s.cipher ++ s.tag)) ≡ s.cipher =
          ap (take (payload_length m))
            (drop-append h (s.cipher ++ s.tag) header_size (sym (length-header b m)))
          ∙ take-append s.cipher s.tag (payload_length m) (omega (arith, d.0)) in
        let back : slice (header_size + payload_length m) tag_size (h ++ (s.cipher ++ s.tag))
            ≡ s.tag =
          ap (take tag_size) (
            rw (← append_assoc h s.cipher s.tag) (
              drop-append (h ++ s.cipher) s.tag (header_size + payload_length m)
                (omega (arith, d.0, length-append h s.cipher, length-header b m))))
          ∙ take_all s.tag tag_size (sym d.1) in
        rw
          (
            front,
            back,
            take-append h (s.cipher ++ s.tag) header_size (sym (length-header b m)),
            d.2,
            open_payload,
          )
          refl

    -- Under a cipher that keeps its laws, a message whose fields and whose binding's identity fit
    -- their widths opens again: the frame that `seal` made of it, opened under the same binding, is
    -- that message.
    pub open_frame-seal :
        (b : Binding) (m : Message) (f : Frame)
        → IsIdentity b
        → IsMessage m
        → seal c b m ≡ (Result.ok, f)
        → open_frame c b f ≡ (Result.ok, m)
    unfolding open_frame
    open_frame-seal b m f i w e =
        let s = seal-Sealed b m f e in
        let d = decrypt-Sealed b m f s in
        let size = length-plaintext m w s.is_sealable in
        rw
          (
            s.layout,
            open_envelope-header b m (s.cipher ++ s.tag) s.is_usable i w.0 s.is_sealable
                (omega (arith, d.0, d.1, length-append s.cipher s.tag, size)),
          )
          (open_payload-Sealed b m f s size ∙ decode_payload-plaintext m w s.is_sealable)
