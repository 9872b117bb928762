-- ===== src/Firmware.antt =====
-- lib/CajuiFirmware/src: `UpdateReceiver`, which takes a signed update file in chunks.
-- The hash, the signature check and the flash are libraries: the interface `Platform`.
pub mod Starting
pub mod Feeding
pub mod Installing
use cajui_firmware.Base.{
  ℕ, ◌+◌, ◌-◌, ◌*◌, ◌≡◌, Bool, true, false, not, ◌&&◌, ◌||◌, List, [], ◌∷◌, ◌++◌, Option, none,
  some, ltb, leb, ◌==◌, if◌then◌else◌, bytes_eq, length, take, drop, slice, get_or,
}
use cajui_firmware.Wire.{get}

abbrev pub magic : List ℕ
magic = b'C' ∷ b'J' ∷ b'F' ∷ b'W' ∷ []

abbrev pub format : ℕ
format = 1

-- "cajui-firmware-v1"
abbrev pub context : List ℕ
context =
    b'c' ∷ b'a' ∷ b'j' ∷ b'u' ∷ b'i' ∷ b'-' ∷ b'f' ∷ b'i' ∷ b'r' ∷ b'm' ∷ b'w' ∷ b'a' ∷ b'r' ∷ b'e'
    ∷ b'-' ∷ b'v' ∷ b'1' ∷ []

abbrev pub format_at : ℕ
format_at = 4

abbrev pub role_at : ℕ
role_at = 5

abbrev pub reserved_at : ℕ
reserved_at = 6

abbrev pub version_at : ℕ
version_at = 8

abbrev pub size_at : ℕ
size_at = 12

abbrev pub signature_length_at : ℕ
signature_length_at = 16

abbrev pub signature_at : ℕ
signature_at = 17

abbrev pub signed_header_size : ℕ
signed_header_size = 16

abbrev pub signature_capacity : ℕ
signature_capacity = 72

abbrev pub update_header_size : ℕ
update_header_size = signed_header_size + 1 + signature_capacity

-- On `unsigned`, whose overflow no release number reaches.
unfoldable pub firmware_version_code : ℕ → ℕ → ℕ → ℕ
firmware_version_code major minor patch = major * 100 * 100 + minor * 100 + patch

-- `H` is a hash in progress, `W` the state of the flash. `hash_finish` and `verify` hold the release
-- key's check of a digest against a signature.
pub record Platform (H W : Type 0) : Type 0 where
  pub hash_start : H
  pub hash_update : List ℕ → H → (Bool × H)
  pub hash_finish : H → Option (List ℕ)
  pub verify : List ℕ → List ℕ → Bool
  pub sink_begin : ℕ → W → (Bool × W)
  pub sink_write : List ℕ → W → (Bool × W)
  pub sink_commit : W → (Bool × W)
  pub sink_abort : W → W

pub data UpdateStatus : Type 0 where
  receiving installed bad_header wrong_role downgrade too_large truncated bad_signature
        write_error :
      UpdateStatus

abbrev pub is_receiving : UpdateStatus → Bool
is_receiving UpdateStatus.receiving = true
is_receiving _ = false

-- `header` is the first `headerUsed_` bytes of `header_`.
pub record UpdateReceiver (H W : Type 0) : Type 0 where
  pub role : ℕ
  pub running : ℕ
  pub max_image : ℕ
  pub header : List ℕ
  pub version : ℕ
  pub image_size : ℕ
  pub written : ℕ
  pub hash : H
  pub sink : W
  pub status : UpdateStatus

abbrev pub byte_at : List ℕ → ℕ → ℕ
byte_at h i = get_or h i 0

unfoldable pub all_zero : List ℕ → Bool
all_zero [] = true
all_zero (b ∷ bs) = b == 0 && all_zero bs

abbrev pub signature_size : List ℕ → ℕ
signature_size h = byte_at h signature_length_at

unfoldable pub malformed : List ℕ → Bool
malformed h =
    not (bytes_eq (take 4 h) magic)
    || not (byte_at h format_at == format)
    || not (byte_at h reserved_at == 0)
    || not (byte_at h (reserved_at + 1) == 0)
    || signature_size h == 0
    || ltb signature_capacity (signature_size h)
    || not (all_zero (drop (signature_at + signature_size h) h))

module _ {H W : Type 0} (p : Platform H W) where
  abbrev pub new_update : ℕ → ℕ → ℕ → W → UpdateReceiver H W
  new_update role running max_image sink = record {
    role = role;
    running = running;
    max_image = max_image;
    header = [];
    version = 0;
    image_size = 0;
    written = 0;
    hash = p.hash_start;
    sink = sink;
    status = UpdateStatus.receiving;
  }

  -- An error after the header aborts the image.
  unfoldable pub fail : UpdateStatus → UpdateReceiver H W → UpdateReceiver H W
  fail status r = record r {
    status = status;
    sink =
        if is_receiving r.status && length r.header == update_header_size
        then p.sink_abort r.sink
        else r.sink;
  }

  -- The end of `parseHeader`: hash what is signed, then open the sink.
  unfoldable pub begin_image : UpdateReceiver H W → UpdateReceiver H W
  begin_image r =
      let (a, h1) = p.hash_update context r.hash in
      if not a
      then record r { hash = h1; status = UpdateStatus.write_error }
      else let (b, h2) = p.hash_update (take signed_header_size r.header) h1 in
        if not b
        then record r { hash = h2; status = UpdateStatus.write_error }
        else let (opened, w) = p.sink_begin r.image_size r.sink in
          if not opened
          then record r { hash = h2; sink = w; status = UpdateStatus.write_error }
          else record r { hash = h2; sink = w }

  unfoldable pub check_image : UpdateReceiver H W → UpdateReceiver H W
  check_image r =
      if not (r.running == 0) && ltb r.version r.running
      then record r { status = UpdateStatus.downgrade }
      else if r.image_size == 0 || ltb r.max_image r.image_size
      then record r { status = UpdateStatus.too_large }
      else begin_image r

  unfoldable pub parse_header : UpdateReceiver H W → UpdateReceiver H W
  parse_header r =
      if malformed r.header
      then record r { status = UpdateStatus.bad_header }
      else if not (byte_at r.header role_at == r.role)
      then record r { status = UpdateStatus.wrong_role }
      else check_image (record r {
        version = get (slice version_at 4 r.header);
        image_size = get (slice size_at 4 r.header);
      })

  -- The rest of a chunk, past the header.
  unfoldable pub feed_image : List ℕ → UpdateReceiver H W → UpdateReceiver H W
  feed_image [] r = r
  feed_image (b ∷ bs) r =
      if ltb (r.image_size - r.written) (length (b ∷ bs))
      then fail UpdateStatus.too_large r
      else let (hashed, h) = p.hash_update (b ∷ bs) r.hash in
        if not hashed
        then fail UpdateStatus.write_error (record r { hash = h })
        else let (stored, w) = p.sink_write (b ∷ bs) r.sink in
          if not stored
          then fail UpdateStatus.write_error (record r { hash = h; sink = w })
          else record r { hash = h; sink = w; written = r.written + length (b ∷ bs) }

  -- The loop of `feed` over the bytes of the header.
  unfoldable pub feed_bytes : List ℕ → UpdateReceiver H W → UpdateReceiver H W
  feed_bytes [] r = r
  feed_bytes (b ∷ bs) r =
      let r' = record r { header = r.header ++ (b ∷ []) } in
      let parsed = parse_header r' in
      let more = feed_bytes bs r' in
      if leb update_header_size (length r.header)
      then feed_image (b ∷ bs) r
      else if not (length r'.header == update_header_size)
      then more
      else if is_receiving parsed.status
      then feed_image bs parsed
      else parsed

  -- `none` is a null pointer with a size other than zero.
  unfoldable pub feed : Option (List ℕ) → UpdateReceiver H W → UpdateReceiver H W
  feed none r = if is_receiving r.status then fail UpdateStatus.write_error r else r
  feed (some bytes) r = if is_receiving r.status then feed_bytes bytes r else r

  -- `finish` with a complete image and its digest.
  unfoldable pub install : Option (List ℕ) → UpdateReceiver H W → UpdateReceiver H W
  install none r = fail UpdateStatus.write_error r
  install (some digest) r =
      if not (p.verify digest (slice signature_at (signature_size r.header) r.header))
      then fail UpdateStatus.bad_signature r
      else let (committed, w) = p.sink_commit r.sink in
        if committed
        then record r { sink = w; status = UpdateStatus.installed }
        else fail UpdateStatus.write_error (record r { sink = w })

  unfoldable pub finish : UpdateReceiver H W → UpdateReceiver H W
  finish r =
      if not (is_receiving r.status)
      then r
      else if ltb (length r.header) update_header_size || not (r.written == r.image_size)
      then fail UpdateStatus.truncated r
      else install (p.hash_finish r.hash) r

  unfoldable pub cancel : UpdateReceiver H W → UpdateReceiver H W
  cancel r = if is_receiving r.status then fail UpdateStatus.truncated r else r
