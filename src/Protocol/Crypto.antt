-- ===== src/Protocol/Crypto.antt =====
-- lib/CajuiProtocol/src/crypto.cpp: the bounds that the firmware puts round AES-GCM.
-- AES-128-GCM and HKDF-SHA256 themselves are mbedTLS's and OpenSSL's: a parameter of the model.
use cajui_firmware.Base.{
  ℕ, ◌≡◌, arith, List, Bool, ◌&&◌, Option, none, some, leb, if◌then◌else◌, length,
}
use cajui_firmware.Protocol.{max_frame, max_payload, tag_size}

-- `gcm_seal key nonce aad input` is the ciphertext and the tag, or none where the backend fails;
-- `gcm_open key nonce aad input tag` is the plaintext. `hkdf` is HKDF-SHA256 of an input, a salt,
-- an info string and an output size.
pub record Crypto : Type 0 where
  pub gcm_seal : List ℕ → List ℕ → List ℕ → List ℕ → Option (List ℕ × List ℕ)
  pub gcm_open : List ℕ → List ℕ → List ℕ → List ℕ → List ℕ → Option (List ℕ)
  pub hkdf : List ℕ → List ℕ → List ℕ → ℕ → Option (List ℕ)

-- What NIST SP 800-38D says of AES-GCM: the ciphertext is as long as the plaintext, the tag has the
-- size asked for, and authenticated decryption under the same key, nonce and header undoes
-- encryption.
pub record Laws (c : Crypto) : Type 0 where
  pub seal_sizes :
      (key nonce aad input cipher tag : List ℕ)
      → c.gcm_seal key nonce aad input ≡ some (cipher, tag)
      → (length cipher ≡ length input) × (length tag ≡ tag_size)
  pub open_sealed :
      (key nonce aad input cipher tag : List ℕ)
      → c.gcm_seal key nonce aad input ≡ some (cipher, tag)
      → c.gcm_open key nonce aad cipher tag ≡ some input

unfoldable pub within_bounds : ℕ → ℕ → Bool
within_bounds aad_size size = leb aad_size max_frame && leb size max_payload

module _ (c : Crypto) where
  unfoldable pub encrypt : List ℕ → List ℕ → List ℕ → List ℕ → Option (List ℕ × List ℕ)
  unfolding within_bounds
  encrypt key nonce aad input =
      if within_bounds (length aad) (length input) then c.gcm_seal key nonce aad input else none

  unfoldable pub decrypt : List ℕ → List ℕ → List ℕ → List ℕ → List ℕ → Option (List ℕ)
  unfolding within_bounds
  decrypt key nonce aad input tag =
      if within_bounds (length aad) (length input) then c.gcm_open key nonce aad input tag else none

  -- Both bounds hold wherever a frame was sealed, so it can be opened again.
  pub decrypt-encrypt :
      Laws c
      → (key nonce aad input cipher tag : List ℕ) → encrypt key nonce aad input ≡ some (cipher, tag)
      → (length cipher ≡ length input)
        × (length tag ≡ tag_size)
        × (decrypt key nonce aad cipher tag ≡ some input)
  unfolding encrypt decrypt
  decrypt-encrypt laws key nonce aad input cipher tag e = ground (
    arith,
    laws.seal_sizes key nonce aad input cipher tag,
    laws.open_sealed key nonce aad input cipher tag,
  )
