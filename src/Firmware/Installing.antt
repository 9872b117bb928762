-- ===== src/Firmware/Installing.antt =====
-- What an update that was installed must have been.
use cajui_firmware.Base.{
  ℕ, ◌≤◌, ◌≡◌, ◌≢◌, refl, sym, ap, ◌∙◌, inl, inr, true, List, [], ◌∷◌, ◌++◌, Option, none, some,
  arith, leb, ◌==◌, Bool-cases, length, take, slice,
}
use cajui_firmware.Wire.{get}
use cajui_firmware.Firmware.{
  context, size_at, signature_at, signature_size, signed_header_size, update_header_size, Platform,
  UpdateStatus, is_receiving, UpdateReceiver, new_update, fail, begin_image, check_image,
  parse_header, feed_image, feed_bytes, feed, install, finish,
}
use cajui_firmware.Firmware.Starting.{HashLaws, Accepts, Started, push}
use cajui_firmware.Firmware.Feeding.{feed_all, joined, feed_all-Fed, new-Fed}

module _ {H W : Type 0} (p : Platform H W) where
  module _ (laws : HashLaws p) (role running max_image : ℕ) where
    -- Only `finish` installs.
    feed_image_not :
        (bs : List ℕ) (r : UpdateReceiver H W)
        → r.status ≢ UpdateStatus.installed
        → (feed_image p bs r).status ≢ UpdateStatus.installed
    unfolding feed_image fail
    feed_image_not [] r n e = n e
    feed_image_not (b ∷ bs) r n e = ground arith

    parse_header_not :
        (r : UpdateReceiver H W)
        → r.status ≢ UpdateStatus.installed
        → (parse_header p r).status ≢ UpdateStatus.installed
    unfolding parse_header check_image begin_image
    parse_header_not r n e = ground arith

    feed_bytes_not :
        (bs : List ℕ) (r : UpdateReceiver H W)
        → r.status ≢ UpdateStatus.installed
        → (feed_bytes p bs r).status ≢ UpdateStatus.installed
    unfolding feed_bytes
    feed_bytes_not [] r n e = n e
    feed_bytes_not (b ∷ bs) r n e = elim (Bool-cases (leb update_header_size (length r.header))) [
      | inl full ↦ feed_image_not (b ∷ bs) r n (rw full at e)
      | inr room ↦
          elim (Bool-cases
            (length (push p laws role running max_image b r).header == update_header_size)) [
              | inr more ↦
                  feed_bytes_not bs (push p laws role running max_image b r) n
                    (rw (room, more) at e)
              | inl whole ↦
                  elim (Bool-cases (
                    is_receiving
                      (parse_header p (push p laws role running max_image b r)).status)) [
                        | inl ok ↦
                            feed_image_not bs
                              (parse_header p (push p laws role running max_image b r))
                              (parse_header_not (push p laws role running max_image b r) n)
                              (rw (room, whole, ok) at e)
                        | inr no_more ↦
                            parse_header_not (push p laws role running max_image b r) n
                              (rw (room, whole, no_more) at e)
                      ]
            ]
    ]

    feed_all_not :
        (cs : List (List ℕ)) (r : UpdateReceiver H W)
        → r.status ≢ UpdateStatus.installed
        → (feed_all p cs r).status ≢ UpdateStatus.installed
    unfolding feed_all feed
    feed_all_not [] r n e = n e
    feed_all_not (c ∷ cs) r n e =
        feed_all_not cs (feed p (some c) r) (λ f. ground (arith, feed_bytes_not c r n)) e

    -- An update that was installed.
    pub record Installed (file : List ℕ) : Type 0 where
      pub header : List ℕ
      pub image : List ℕ
      pub parts : file ≡ header ++ image
      pub accepted : Accepts role running max_image header
      pub complete : length image ≡ get (slice size_at 4 header)
      pub signed :
          p.verify
            (laws.sha (context ++ (take signed_header_size header ++ image)))
            (slice signature_at (signature_size header) header)
          ≡ true

    install_ok :
        (r : UpdateReceiver H W) (d : Option (List ℕ))
        → is_receiving r.status ≡ true
        → (install p d r).status ≡ UpdateStatus.installed
        → (digest : List ℕ) × (d ≡ some digest)
          × (p.verify digest (slice signature_at (signature_size r.header) r.header) ≡ true)
    unfolding install fail
    install_ok r none go h = absurd (ground arith)
    install_ok r (some digest) go h = (digest, refl, ground arith)

    finish_parts :
        (r : UpdateReceiver H W)
        → r.status ≢ UpdateStatus.installed
        → (finish p r).status ≡ UpdateStatus.installed
        → (is_receiving r.status ≡ true)
          × (update_header_size ≤ length r.header)
          × (r.written ≡ r.image_size)
          × ((install p (p.hash_finish r.hash) r).status ≡ UpdateStatus.installed)
    unfolding finish fail
    finish_parts r n h = ground arith

    Started-Installed :
        (sent : List ℕ) (r : UpdateReceiver H W)
        → Started p laws role running max_image sent r
        → r.written ≡ r.image_size
        → (d : List ℕ) → p.hash_finish r.hash ≡ some d
        → p.verify d (slice signature_at (signature_size r.header) r.header) ≡ true
        → Installed sent
    Started-Installed sent r w all d e v = record {
      header = r.header;
      image = w.image;
      parts = w.sent_is;
      accepted = w.accepts;
      complete = omega (arith, w.stored, w.size_read);
      signed =
          ap (λ (x : List ℕ). p.verify x (slice signature_at (signature_size r.header) r.header))
            (sym (laws.digest r.hash d e ∙ ap laws.sha w.hashed))
          ∙ v;
    }

    -- With a hash that keeps its laws, a transfer that `finish` installs was one well-formed header
    -- for this device, not older than what runs, and an image of the stated size within the limit,
    -- with a signature that verifies over the context, the signed header and the whole image.
    pub finish_installed :
        (chunks : List (List ℕ)) (sink : W)
        → (finish p (feed_all p chunks (new_update p role running max_image sink))).status
          ≡ UpdateStatus.installed
        → Installed (joined p chunks)
    finish_installed chunks sink h =
        let start = new_update p role running max_image sink in
        let r = feed_all p chunks start in
        let (go, whole, all, sealed) =
          finish_parts r (feed_all_not chunks start (λ e. ground arith)) h in
        let (d, e, v) = install_ok r (p.hash_finish r.hash) go sealed in
        elim (feed_all-Fed p laws role running max_image chunks [] start
          (new-Fed p laws role running max_image sink) refl go) [
            | inl w ↦ absurd (omega (arith, w.short, whole))
            | inr w ↦ Started-Installed (joined p chunks) r w all d e v
          ]
