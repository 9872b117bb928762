-- ===== src/Firmware/Feeding.antt =====
-- cajui_firmware.cpp: a transfer in chunks.
use cajui_firmware.Base.{
  ℕ, ◌≡◌, refl, sym, inl, inr, true, false, List, [], ◌∷◌, ◌++◌, some, arith, leb, ◌==◌, Bool-cases,
  ==→eq, length,
}
use mathlib.Core.List.{append_assoc, append-nil}
use cajui_firmware.Firmware.{
  update_header_size, Platform, is_receiving, UpdateReceiver, new_update, feed_bytes, feed,
}
use cajui_firmware.Firmware.Starting.{
  HashLaws, Fed, Pending, Pending-push, Started, after_header, feed_image-Started, push,
}

module _ {H W : Type 0} (p : Platform H W) where
  -- The chunks of one transfer, in order.
  unfoldable pub feed_all : List (List ℕ) → UpdateReceiver H W → UpdateReceiver H W
  feed_all [] r = r
  feed_all (c ∷ cs) r = feed_all cs (feed p (some c) r)

  abbrev pub joined : List (List ℕ) → List ℕ
  joined [] = []
  joined (c ∷ cs) = c ++ joined cs

  module _ (laws : HashLaws p) (role running max_image : ℕ) where
    pub feed_bytes-Fed :
        (bs sent : List ℕ) (r : UpdateReceiver H W)
        → Pending p laws role running max_image sent r
        → is_receiving (feed_bytes p bs r).status ≡ true
        → Fed p laws role running max_image (sent ++ bs) (feed_bytes p bs r)
    unfolding feed_bytes
    feed_bytes-Fed [] sent r w h = rw (append-nil sent) (inl w)
    feed_bytes-Fed (b ∷ bs) sent r w h =
        let (d, e, n) = Pending-push p laws role running max_image sent b r w in
        let still : leb update_header_size (length r.header) ≡ false = ground (arith, w.short) in
        let shift : sent ++ (b ∷ bs) ≡ (sent ++ (b ∷ [])) ++ bs =
          sym (append_assoc sent (b ∷ []) bs) in
        elim (Bool-cases
          (length (push p laws role running max_image b r).header == update_header_size)) [
            | inl full ↦
                rw (shift, still, full)
                  (inr (
                    after_header p laws role running max_image (sent ++ (b ∷ [])) bs
                      (push p laws role running max_image b r) d (==→eq _ _ full) w.nothing_hashed
                      w.nothing_written e (rw (still, full) at h)))
            | inr more ↦
                rw (shift, still, more)
                  (feed_bytes-Fed bs (sent ++ (b ∷ [])) (push p laws role running max_image b r)
                    (record {
                      device = d;
                      in_header = e;
                      short = ground (arith, n, w.short);
                      nothing_hashed = w.nothing_hashed;
                      nothing_written = w.nothing_written;
                    })
                    (rw (still, more) at h))
          ]

    pub feed_bytes-Started :
        (bs sent : List ℕ) (r : UpdateReceiver H W)
        → Started p laws role running max_image sent r
        → is_receiving (feed_bytes p bs r).status ≡ true
        → Started p laws role running max_image (sent ++ bs) (feed_bytes p bs r)
    unfolding feed_bytes
    feed_bytes-Started [] sent r w h = rw (append-nil sent) w
    feed_bytes-Started (b ∷ bs) sent r w h =
        let full : leb update_header_size (length r.header) ≡ true =
          ground (arith, w.accepts.whole) in
        rw full (feed_image-Started p laws role running max_image sent (b ∷ bs) r w (rw full at h))

    pub feed-Fed :
        (c sent : List ℕ) (r : UpdateReceiver H W)
        → Fed p laws role running max_image sent r
        → is_receiving r.status ≡ true
        → is_receiving (feed p (some c) r).status ≡ true
        → Fed p laws role running max_image (sent ++ c) (feed p (some c) r)
    unfolding feed
    feed-Fed c sent r (inl w) go h = rw go (feed_bytes-Fed c sent r w (rw go at h))
    feed-Fed c sent r (inr w) go h = rw go (inr (feed_bytes-Started c sent r w (rw go at h)))

    pub feed_all_over :
        (cs : List (List ℕ)) (r : UpdateReceiver H W)
        → is_receiving r.status ≡ false
        → feed_all cs r ≡ r
    unfolding feed_all feed
    feed_all_over [] r h = refl
    feed_all_over (c ∷ cs) r h = rw h (feed_all_over cs r h)

    pub feed_all-Fed :
        (cs : List (List ℕ)) (sent : List ℕ) (r : UpdateReceiver H W)
        → Fed p laws role running max_image sent r
        → is_receiving r.status ≡ true
        → is_receiving (feed_all cs r).status ≡ true
        → Fed p laws role running max_image (sent ++ joined cs) (feed_all cs r)
    unfolding feed_all
    feed_all-Fed [] sent r w go h = rw (append-nil sent) w
    feed_all-Fed (c ∷ cs) sent r w go h =
        elim (Bool-cases (is_receiving (feed p (some c) r).status)) [
          | inl still ↦ rw (← append_assoc sent c (joined cs)) (
              feed_all-Fed cs (sent ++ c) (feed p (some c) r) (feed-Fed c sent r w go still) still
                h)
          | inr over ↦ absurd (ground (arith, over, feed_all_over cs (feed p (some c) r) over))
        ]

    pub new-Fed :
        (sink : W) → Fed p laws role running max_image [] (new_update p role running max_image sink)
    new-Fed sink = inl (record {
      device = record { role_kept = refl; running_kept = refl; max_kept = refl };
      in_header = refl;
      short = omega arith;
      nothing_hashed = laws.content_start;
      nothing_written = refl;
    })
