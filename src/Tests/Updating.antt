-- ===== src/Tests/Updating.antt =====
-- An update at a concrete transfer.
use cajui_firmware.Base.{ℕ, ◌-◌, ◌≡◌, refl, ◌++◌, true, List, [], ◌∷◌, some, arith, replicate}
use cajui_firmware.Wire.{put}
use cajui_firmware.Firmware.{
  Platform, UpdateStatus, UpdateReceiver, magic, format, signature_capacity, new_update, finish,
}
use cajui_firmware.Firmware.Starting.{HashLaws}
use cajui_firmware.Firmware.Feeding.{feed_all, joined}
use cajui_firmware.Firmware.Installing.{Installed, finish_installed}

-- A hash that keeps what it was given, a verifier that accepts, and a sink that counts its calls.
abbrev keeping : Platform (List ℕ) ℕ
keeping = record {
  hash_start = [];
  hash_update = λ bytes h. (true, h ++ bytes);
  hash_finish = λ h. some h;
  verify = λ digest signature. true;
  sink_begin = λ size w. (true, w);
  sink_write = λ bytes w. (true, w);
  sink_commit = λ w. (true, w);
  sink_abort = λ w. w;
}

keeping-HashLaws : HashLaws keeping
keeping-HashLaws = record {
  content = λ h. h;
  sha = λ h. h;
  content_start = refl;
  content_update = λ bytes h h' e. ground (arith, e);
  digest = λ h d e. ground (arith, e);
}

-- Version 3 for role 1, an image of two bytes and a signature of one byte.
abbrev update_header : List ℕ
update_header =
    magic
    ++ (format ∷ 1 ∷ 0 ∷ 0 ∷ put 3 4 ++ (put 2 4 ++ (1 ∷ 9 ∷ replicate (signature_capacity - 1) 0)))

abbrev chunks : List (List ℕ)
chunks = (update_header ++ (5 ∷ [])) ∷ (6 ∷ []) ∷ []

transferred :
    (finish keeping (feed_all keeping chunks (new_update keeping 1 2 100 0))).status
    ≡ UpdateStatus.installed
unfolding finish feed_all cajui_firmware.Firmware.feed cajui_firmware.Firmware.feed_bytes put
    cajui_firmware.Firmware.parse_header cajui_firmware.Firmware.malformed
    cajui_firmware.Firmware.all_zero cajui_firmware.Firmware.check_image cajui_firmware.Wire.get
    cajui_firmware.Firmware.begin_image cajui_firmware.Firmware.feed_image
    cajui_firmware.Firmware.install
transferred = refl

finish_installed_example : Installed keeping keeping-HashLaws 1 2 100 (joined keeping chunks)
finish_installed_example = finish_installed keeping keeping-HashLaws 1 2 100 chunks 0 transferred
