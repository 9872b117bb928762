-- ===== src/Pairing/Exchange.antt =====
-- The frames of the exchange, built and read back.
use cajui_firmware.Base.{
  ℕ, ◌+◌, ◌^◌, ◌<◌, ◌≡◌, refl, sym, ap, ◌∙◌, subst, true, false, List, [], ◌∷◌, ◌++◌, some, arith,
  ◌==◌, inl, inr, Option-cases, length, take, drop, slice, get_or, length-append, take-append,
  drop-append, take_all, ==_refl,
}
use cajui_firmware.Wire
use cajui_firmware.Wire.{put, get}
use cajui_firmware.Wire.Numbers.{get-put}
use cajui_firmware.Protocol.{header_size, tag_size, Frame}
use cajui_firmware.Protocol.Crypto.{Crypto, Laws, encrypt, decrypt, decrypt-encrypt}
use mathlib.Core.List.{append_assoc, append-nil}
use cajui_firmware.Pairing.{x25519_size, type_request}
use cajui_firmware.Pairing.Frames.{
  request_payload, request_size, header, shaped, nonzero, network_of, node_of, nonce_of,
  build_request, parse_request, is_tagged, tag, check, sign, build_tagged, verify_tagged,
}

-- The header's fields, where the readers of pairing frames look.
pub record HasHeader (type network node nonce size : ℕ) (f : Frame) : Type 0 where
  pub magic_read : take 4 f ≡ Wire.magic
  pub version_read : get_or f Wire.version_at 0 ≡ Wire.version
  pub type_read : get_or f Wire.type_at 0 ≡ type
  pub network_read : network_of f ≡ network
  pub node_read : node_of f ≡ node
  pub nonce_read : nonce_of f ≡ nonce
  pub length_read : get (slice Wire.length_at 2 f) ≡ size

header-HasHeader :
    (type network node nonce size : ℕ) (rest : List ℕ)
    → network < 2 ^ 64
    → node < 2 ^ 64
    → nonce < 2 ^ 64
    → size < 2 ^ 16
    → HasHeader type network node nonce size (header type network node nonce size ++ rest)
unfolding header put
header-HasHeader type network node nonce size rest hn hd hc hs = record {
  magic_read = refl;
  version_read = refl;
  type_read = refl;
  network_read = get-put network 8 (omega arith) hn;
  node_read = get-put node 8 (omega arith) hd;
  nonce_read = get-put nonce 8 (omega arith) hc;
  length_read = get-put size 2 (omega arith) (omega arith);
}

length-header :
    (type network node nonce size : ℕ) → length (header type network node nonce size) ≡ header_size
unfolding header put
length-header type network node nonce size = refl

header-shaped :
    (type network node nonce size : ℕ) (f : Frame)
    → HasHeader type network node nonce size f
    → shaped f type (length f) size ≡ true
unfolding shaped
header-shaped type network node nonce size f r =
    rw
      (
        r.magic_read,
        r.version_read,
        r.type_read,
        r.length_read,
        ==_refl (length f),
        ==_refl type,
        ==_refl size,
      )
      refl

-- The bytes past a header.
payload_of :
    (type network node nonce size : ℕ) (rest : List ℕ)
    → drop header_size (header type network node nonce size ++ rest) ≡ rest
payload_of type network node nonce size rest =
    drop-append (header type network node nonce size) rest header_size
      (sym (length-header type network node nonce size))

-- A request with these fields.
request_fields :
    (node nonce : ℕ) (node_public : List ℕ) (f : Frame)
    → HasHeader type_request 0 node nonce request_payload f
    → shaped f type_request request_size request_payload ≡ true
    → slice header_size x25519_size f ≡ node_public
    → (node == 0) ≡ false
    → (nonce == 0) ≡ false
    → nonzero node_public ≡ true
    → parse_request f ≡ some (node, nonce, node_public)
unfolding parse_request
request_fields node nonce node_public f r shape public hn hc nz =
    rw (shape, r.network_read, r.node_read, r.nonce_read, public, hn, hc, nz) refl

built_request :
    (node nonce : ℕ) (node_public : List ℕ) (f : Frame)
    → build_request node nonce node_public ≡ some f
    → ((node == 0) ≡ false)
      × ((nonce == 0) ≡ false)
      × (nonzero node_public ≡ true)
      × (header type_request 0 node nonce request_payload ++ node_public ≡ f)
unfolding build_request
built_request node nonce node_public f h = (ground arith, ground arith, ground arith, ground arith)

-- A request that was built is parsed to the same node, nonce and public key.
pub parse_request-build_request :
    (node nonce : ℕ) (node_public : List ℕ) (f : Frame)
    → node < 2 ^ 64
    → nonce < 2 ^ 64
    → length node_public ≡ x25519_size
    → build_request node nonce node_public ≡ some f
    → parse_request f ≡ some (node, nonce, node_public)
parse_request-build_request node nonce node_public f hd hc sized h =
    let (hn, hz, nz, made) = built_request node nonce node_public f h in
    let g = header type_request 0 node nonce request_payload ++ node_public in
    let r =
      header-HasHeader type_request 0 node nonce request_payload node_public (omega arith) hd hc
        (omega arith) in
    let size : length g ≡ request_size = omega (
      arith,
      length-append (header type_request 0 node nonce request_payload) node_public,
      length-header type_request 0 node nonce request_payload,
      sized,
    ) in
    subst (λ (x : Frame). parse_request x ≡ some (node, nonce, node_public)) made
      (request_fields node nonce node_public g r
        (subst (λ (n : ℕ). shaped g type_request n request_payload ≡ true) size
          (header-shaped type_request 0 node nonce request_payload g r))
        (ap (take x25519_size) (payload_of type_request 0 node nonce request_payload node_public)
          ∙ take_all node_public x25519_size (sym sized))
        hn hz nz)

no_bytes : (xs : List ℕ) → length xs ≡ 0 → xs ≡ []
no_bytes [] h = refl
no_bytes (x ∷ xs) h = absurd (omega (arith, h))

module _ (c : Crypto) (laws : Laws c) where
  -- What was signed is checked, where the frame is split at its tag.
  sign-check :
      (key : List ℕ) (type nonce : ℕ) (bytes : List ℕ) (f : Frame)
      → sign c key type nonce bytes ≡ some f
      → (output : List ℕ) × (f ≡ bytes ++ output)
        × (length output ≡ tag_size)
        × (check c key type nonce bytes output ≡ true)
  unfolding sign check tag
  sign-check key type nonce bytes f h =
      elim (Option-cases (encrypt c key (Wire.nonce type nonce) bytes [])) [
        | inl e ↦ absurd (ground (arith, e))
        | inr ((cipher, output), e) ↦
            let opened =
              decrypt-encrypt c laws key (Wire.nonce type nonce) bytes [] cipher output e in
            let blank : cipher ≡ [] = no_bytes cipher opened.0 in
            let again : decrypt c key (Wire.nonce type nonce) bytes [] output ≡ some [] =
              rw blank at opened.2 in
            let made : f ≡ bytes ++ output = ground (arith, e) in
            (output, made, opened.1, rw (again, check) refl)
      ]

  -- The fields of a frame that was signed, and its parts.
  pub record IsSigned (key : List ℕ) (type network node nonce size : ℕ) (rest : List ℕ) (f : Frame)
      : Type 0 where
    pub fields : HasHeader type network node nonce size f
    pub shape : shaped f type (header_size + length rest + tag_size) size ≡ true
    pub checked :
        check c key type nonce
          (take (header_size + length rest) f)
          (slice (header_size + length rest) tag_size f)
        ≡ true
    pub body : (output : List ℕ) × (drop header_size f ≡ rest ++ output)

  pub sign-IsSigned :
      (key : List ℕ) (type network node nonce size : ℕ) (rest : List ℕ) (f : Frame)
      → network < 2 ^ 64
      → node < 2 ^ 64
      → nonce < 2 ^ 64
      → size < 2 ^ 16
      → sign c key type nonce (header type network node nonce size ++ rest) ≡ some f
      → IsSigned key type network node nonce size rest f
  sign-IsSigned key type network node nonce size rest f hn hd hc hs h =
      let head = header type network node nonce size in
      let (output, made, sized, ok) = sign-check key type nonce (head ++ rest) f h in
      let flat : f ≡ head ++ (rest ++ output) = made ∙ append_assoc head rest output in
      let n : header_size + length rest ≡ length (head ++ rest) =
        omega (arith, length-append head rest, length-header type network node nonce size) in
      let r : HasHeader type network node nonce size f =
        subst (λ (x : Frame). HasHeader type network node nonce size x) (sym flat)
          (header-HasHeader type network node nonce size (rest ++ output) hn hd hc hs) in
      let whole : length f ≡ header_size + length rest + tag_size =
        rw made (omega (arith, length-append (head ++ rest) output, n, sized)) in
      let front : take (header_size + length rest) f ≡ head ++ rest =
        rw made (take-append (head ++ rest) output (header_size + length rest) n) in
      let back : slice (header_size + length rest) tag_size f ≡ output = rw made (
        ap (take tag_size) (drop-append (head ++ rest) output (header_size + length rest) n)
        ∙ take_all output tag_size (sym sized)) in
      record {
        fields = r;
        shape =
            subst (λ (m : ℕ). shaped f type m size ≡ true) whole
              (header-shaped type network node nonce size f r);
        checked = rw (front, back) ok;
        body = (
          output,
          ap (drop header_size) flat ∙ payload_of type network node nonce size (rest ++ output),
        );
      }

  tagged_fields :
      (type network node nonce : ℕ) (key : List ℕ) (f : Frame)
      → is_tagged type ≡ true
      → IsSigned key type network node nonce 0 [] f
      → verify_tagged c f type network node nonce key ≡ true
  unfolding verify_tagged
  tagged_fields type network node nonce key f kind w =
      rw
        (
          kind,
          w.shape,
          w.fields.network_read,
          w.fields.node_read,
          w.fields.nonce_read,
          ==_refl network,
          ==_refl node,
          ==_refl nonce,
          w.checked,
        )
        refl

  tagged_signed :
      (type network node nonce : ℕ) (key : List ℕ) (f : Frame)
      → build_tagged c type network node nonce key ≡ some f
      → (is_tagged type ≡ true)
        × (sign c key type nonce (header type network node nonce 0) ≡ some f)
  unfolding build_tagged
  tagged_signed type network node nonce key f h = (ground arith, ground arith)

  -- A JOIN_CONFIRM or a JOIN_DONE that was built is verified by the same key for the same network, node
  -- and nonce.
  pub verify_tagged-build_tagged :
      (type network node nonce : ℕ) (key : List ℕ) (f : Frame)
      → network < 2 ^ 64
      → node < 2 ^ 64
      → nonce < 2 ^ 64
      → build_tagged c type network node nonce key ≡ some f
      → verify_tagged c f type network node nonce key ≡ true
  verify_tagged-build_tagged type network node nonce key f hn hd hc h =
      let (kind, signed) = tagged_signed type network node nonce key f h in
      tagged_fields type network node nonce key f kind (
        sign-IsSigned key type network node nonce 0 [] f hn hd hc (omega arith) (
          subst (λ (x : List ℕ). sign c key type nonce x ≡ some f)
            (sym (append-nil (header type network node nonce 0))) signed))
