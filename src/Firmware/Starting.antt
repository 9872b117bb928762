-- ===== src/Firmware/Starting.antt =====
-- cajui_firmware.cpp: what a transfer has received so far.
use cajui_firmware.Base.{
  ℕ, ◌+◌, ◌-◌, ◌≤◌, ◌<◌, ◌≡◌, ◌≢◌, refl, sym, ap, ◌∙◌, ◌⊎◌, inl, inr, true, false, List, [], ◌∷◌,
  ◌++◌, some, arith, if◌then◌else◌, Bool-cases, length, take, slice, length-append,
}
use mathlib.Core.List.{append_assoc, append-nil}
use cajui_firmware.Wire.{get}
use cajui_firmware.Firmware.{
  context, role_at, version_at, size_at, signed_header_size, update_header_size, byte_at, malformed,
  Platform, UpdateStatus, is_receiving, UpdateReceiver, fail, begin_image, check_image,
  parse_header, feed_image,
}

-- A streaming hash: `content` is what it has absorbed, and `sha` the digest of that.
pub record HashLaws {H W : Type 0} (p : Platform H W) : Type 0 where
  pub content : H → List ℕ
  pub sha : List ℕ → List ℕ
  pub content_start : content p.hash_start ≡ []
  pub content_update :
      (bytes : List ℕ) (h h' : H)
      → p.hash_update bytes h ≡ (true, h')
      → content h' ≡ content h ++ bytes
  pub digest : (h : H) (d : List ℕ) → p.hash_finish h ≡ some d → d ≡ sha (content h)

-- What the header must say for a device.
pub record Accepts (role running max_image : ℕ) (header : List ℕ) : Type 0 where
  pub whole : length header ≡ update_header_size
  pub well_formed : malformed header ≡ false
  pub for_role : byte_at header role_at ≡ role
  pub not_older : running ≢ 0 → running ≤ get (slice version_at 4 header)
  pub not_empty : get (slice size_at 4 header) ≢ 0
  pub fits : get (slice size_at 4 header) ≤ max_image

module _ {H W : Type 0} (p : Platform H W) where
  module _ (laws : HashLaws p) (role running max_image : ℕ) where
    pub record Device (r : UpdateReceiver H W) : Type 0 where
      pub role_kept : r.role ≡ role
      pub running_kept : r.running ≡ running
      pub max_kept : r.max_image ≡ max_image

    -- Before the header is complete.
    pub record Pending (sent : List ℕ) (r : UpdateReceiver H W) : Type 0 where
      pub device : Device r
      pub in_header : sent ≡ r.header
      pub short : length r.header < update_header_size
      pub nothing_hashed : laws.content r.hash ≡ []
      pub nothing_written : r.written ≡ 0

    -- After it, with the part of the image that has come.
    pub record Started (sent : List ℕ) (r : UpdateReceiver H W) : Type 0 where
      pub device : Device r
      pub image : List ℕ
      pub sent_is : sent ≡ r.header ++ image
      pub accepts : Accepts role running max_image r.header
      pub size_read : r.image_size ≡ get (slice size_at 4 r.header)
      pub stored : length image ≡ r.written
      pub within : r.written ≤ r.image_size
      pub hashed : laws.content r.hash ≡ context ++ (take signed_header_size r.header ++ image)

    abbrev pub Fed : List ℕ → UpdateReceiver H W → Type 0
    Fed sent r = Pending sent r ⊎ Started sent r

    pub not_receiving_fail :
        (status : UpdateStatus) (r : UpdateReceiver H W) → (fail p status r).status ≡ status
    unfolding fail
    not_receiving_fail status r = refl

    pub record Stored (bytes : List ℕ) (r r' : UpdateReceiver H W) : Type 0 where
      pub room : length bytes ≤ r.image_size - r.written
      pub absorbed : p.hash_update bytes r.hash ≡ (true, r'.hash)
      pub now : r' ≡ record r { hash = r'.hash; sink = r'.sink; written = r.written + length bytes }

    pub feed_image-Stored :
        (b : ℕ) (bs : List ℕ) (r : UpdateReceiver H W)
        → is_receiving (feed_image p (b ∷ bs) r).status ≡ true
        → Stored (b ∷ bs) r (feed_image p (b ∷ bs) r)
    unfolding feed_image fail
    feed_image-Stored b bs r h = record {
      room = ground arith;
      absorbed = ground arith;
      now = ground arith;
    }

    pub Stored-Started :
        (sent bytes : List ℕ) (r r' : UpdateReceiver H W)
        → Started sent r
        → Stored bytes r r'
        → Started (sent ++ bytes) r'
    Stored-Started sent bytes r r' w k = rw k.now (record {
      device = record {
        role_kept = w.device.role_kept;
        running_kept = w.device.running_kept;
        max_kept = w.device.max_kept;
      };
      image = w.image ++ bytes;
      sent_is = ap (λ (x : List ℕ). x ++ bytes) w.sent_is ∙ append_assoc r.header w.image bytes;
      accepts = w.accepts;
      size_read = w.size_read;
      stored = omega (arith, length-append w.image bytes, w.stored);
      within = omega (arith, k.room, w.within);
      hashed =
          laws.content_update bytes r.hash r'.hash k.absorbed
          ∙ ap (λ (x : List ℕ). x ++ bytes) w.hashed
          ∙ append_assoc context (take signed_header_size r.header ++ w.image) bytes
          ∙ ap (λ (x : List ℕ). context ++ x)
              (append_assoc (take signed_header_size r.header) w.image bytes);
    })

    pub feed_image-Started :
        (sent bs : List ℕ) (r : UpdateReceiver H W)
        → Started sent r
        → is_receiving (feed_image p bs r).status ≡ true
        → Started (sent ++ bs) (feed_image p bs r)
    unfolding feed_image
    feed_image-Started sent [] r w h = rw (append-nil sent) w
    feed_image-Started sent (b ∷ bs) r w h =
        Stored-Started sent (b ∷ bs) r (feed_image p (b ∷ bs) r) w (feed_image-Stored b bs r h)

    -- What a header that was taken leaves.
    pub record Parsed (r r' : UpdateReceiver H W) : Type 0 where
      pub accepts : Accepts role running max_image r.header
      pub first : H
      pub context_hashed : p.hash_update context r.hash ≡ (true, first)
      pub header_hashed : p.hash_update (take signed_header_size r.header) first ≡ (true, r'.hash)
      pub now : r' ≡ record r {
        version = get (slice version_at 4 r.header);
        image_size = get (slice size_at 4 r.header);
        hash = r'.hash;
        sink = r'.sink;
      }

    pub parse_header-Parsed :
        (r : UpdateReceiver H W)
        → Device r
        → length r.header ≡ update_header_size
        → is_receiving (parse_header p r).status ≡ true
        → Parsed r (parse_header p r)
    unfolding parse_header check_image begin_image
    parse_header-Parsed r d whole h = record {
      accepts = record {
        whole = whole;
        well_formed = ground arith;
        for_role = ground (arith, d.role_kept);
        not_older = λ n. ground (arith, d.running_kept);
        not_empty = λ e. ground arith;
        fits = ground (arith, d.max_kept);
      };
      first = (p.hash_update context r.hash).1;
      context_hashed = ground arith;
      header_hashed = ground arith;
      now = ground arith;
    }

    pub Parsed-Started :
        (r r' : UpdateReceiver H W)
        → Device r
        → laws.content r.hash ≡ []
        → r.written ≡ 0
        → Parsed r r'
        → Started r.header r'
    Parsed-Started r r' d empty none_written k = rw k.now (record {
      device = record {
        role_kept = d.role_kept;
        running_kept = d.running_kept;
        max_kept = d.max_kept;
      };
      image = [];
      sent_is = sym (append-nil r.header);
      accepts = k.accepts;
      size_read = refl;
      stored = sym none_written;
      within = omega (arith, none_written);
      hashed =
          laws.content_update (take signed_header_size r.header) k.first r'.hash k.header_hashed
          ∙ ap (λ (x : List ℕ). x ++ take signed_header_size r.header)
              (laws.content_update context r.hash k.first k.context_hashed
                ∙ ap (λ (x : List ℕ). x ++ context) empty)
          ∙ ap (λ (x : List ℕ). context ++ x) (sym (append-nil (take signed_header_size r.header)));
    })

    pub after_header :
        (sent bs : List ℕ) (r : UpdateReceiver H W)
        → Device r
        → length r.header ≡ update_header_size
        → laws.content r.hash ≡ []
        → r.written ≡ 0
        → sent ≡ r.header
        → is_receiving
            (if is_receiving (parse_header p r).status
              then feed_image p bs (parse_header p r)
              else parse_header p r).status
          ≡ true
        → Started (sent ++ bs) (
            if is_receiving (parse_header p r).status
            then feed_image p bs (parse_header p r)
            else parse_header p r)
    after_header sent bs r d whole empty none_written e h =
        elim (Bool-cases (is_receiving (parse_header p r).status)) [
          | inl ok ↦ rw ok (
              feed_image-Started sent bs (parse_header p r)
                (rw e (
                  Parsed-Started r (parse_header p r) d empty none_written
                    (parse_header-Parsed r d whole ok)))
                (rw ok at h))
          | inr no_more ↦ absurd (ground (arith, no_more))
        ]

    abbrev pub push : ℕ → UpdateReceiver H W → UpdateReceiver H W
    push b r = record r { header = r.header ++ (b ∷ []) }

    pub Pending-push :
        (sent : List ℕ) (b : ℕ) (r : UpdateReceiver H W)
        → Pending sent r
        → Device (push b r)
          × (sent ++ (b ∷ []) ≡ (push b r).header)
          × (length (push b r).header ≡ length r.header + 1)
    Pending-push sent b r w = (
      record {
        role_kept = w.device.role_kept;
        running_kept = w.device.running_kept;
        max_kept = w.device.max_kept;
      },
      ap (λ (x : List ℕ). x ++ (b ∷ [])) w.in_header,
      omega (arith, length-append r.header (b ∷ [])),
    )
