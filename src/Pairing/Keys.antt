-- ===== src/Pairing/Keys.antt =====
-- cajui_pairing.cpp and crypto.cpp: key pairs, random numbers, the binding key, and the store's
-- preparation of a generation.
use cajui_firmware.Base.{
  ℕ, zero, suc, Bool, true, false, ◌&&◌, ◌||◌, List, [], ◌∷◌, ◌++◌, Option, none, some, ◌==◌,
  if◌then◌else◌,
}
use cajui_firmware.Wire.{put, get}
use cajui_firmware.Protocol.{Result, is_ok, key_size}
use cajui_firmware.Protocol.Crypto.{Crypto}
use cajui_firmware.Records.{is_prepared, binding_capacity}
use cajui_firmware.Storage.{RecordStore, Store}
use cajui_firmware.Storage.Entries.{EnrollmentInfo, Credential}
use cajui_firmware.Storage.Enrolling.{list, prepare, revoke}
use cajui_firmware.Pairing.{Curve, Entropy, KeyPair, x25519_size}
use cajui_firmware.Pairing.Frames.{nonzero}

-- "cajui-pair-v1".
abbrev pub salt : List ℕ
salt = b'c' ∷ b'a' ∷ b'j' ∷ b'u' ∷ b'i' ∷ b'-' ∷ b'p' ∷ b'a' ∷ b'i' ∷ b'r' ∷ b'-' ∷ b'v' ∷ b'1' ∷ []

abbrev pub random_attempts : ℕ
random_attempts = 8

unfoldable pub x25519_public : Curve → List ℕ → Option (List ℕ)
x25519_public k private = k.montgomery private none

-- A shared secret of zeros is refused.
unfoldable pub x25519_shared : Curve → List ℕ → List ℕ → Option (List ℕ)
x25519_shared k private peer = elim (k.montgomery private (some peer)) [
  | none ↦ none
  | some shared ↦ if nonzero shared then some shared else none
]

module _ {W : Type 0} (e : Entropy W) where
  unfoldable pub new_key_pair : Curve → W → (Option KeyPair × W)
  new_key_pair k w =
      let (filled, w') = e.fill x25519_size w in
      elim filled [
        | none ↦ (none, w')
        | some private ↦ elim (x25519_public k private) [
          | none ↦ (none, w')
          | some public ↦ (some (record { private_key = private; public_key = public }), w')
        ]
      ]

  -- The loop, with the attempts left.
  unfoldable pub draw : ℕ → W → (Option ℕ × W)
  draw zero w = (none, w)
  draw (suc left) w =
      let (filled, w') = e.fill 8 w in
      let rest = draw left w' in
      elim filled [
        | none ↦ (none, w')
        | some bytes ↦ if get bytes == 0 then rest else (some (get bytes), w')
      ]

  unfoldable pub nonzero_random : W → (Option ℕ × W)
  nonzero_random w = draw random_attempts w

unfoldable pub derive_binding_key :
    Crypto
    → Curve
    → (private_key peer_public : List ℕ) (network receiver node generation : ℕ)
      (node_public receiver_public : List ℕ)
    → Option (List ℕ)
derive_binding_key c k private_key peer_public network receiver node generation node_public
      receiver_public =
    if network == 0 || receiver == 0 || node == 0 || generation == 0
    then none
    else elim (x25519_shared k private_key peer_public) [
      | none ↦ none
      | some shared ↦
          c.hkdf shared salt
            (put network 8
              ++ (put receiver 8
                  ++ (put node 8 ++ (put generation 8 ++ (node_public ++ receiver_public)))))
            key_size
    ]

module _ {R : Type 0} (store : RecordStore R) (c : Crypto) where
  -- Revokes the node's prepared generations; whether one was revoked.
  unfoldable pub revoke_prepared : ℕ → List EnrollmentInfo → Bool → Store R → (Bool × Store R)
  revoke_prepared node [] revoked s = (revoked, s)
  revoke_prepared node (x ∷ xs) revoked s =
      let (r, s') = revoke store c x.node x.generation s in
      let skipped = revoke_prepared node xs revoked s in
      let rest = revoke_prepared node xs (is_ok r || revoked) s' in
      if x.node == node && is_prepared x.state then rest else skipped

  unfoldable pub retry_prepare : Credential → (Bool × Store R) → (Result × Store R)
  retry_prepare a (true, s) = prepare store c a s
  retry_prepare a (false, s) = (Result.conflict, s)

  unfoldable pub after_prepare : Credential → (Result × Store R) → (Result × Store R)
  after_prepare a (Result.conflict, s) =
      retry_prepare a (revoke_prepared a.node (list s binding_capacity) false s)
  after_prepare a (r, s) = (r, s)

  unfoldable pub prepare_fresh : Credential → Store R → (Result × Store R)
  prepare_fresh a s = after_prepare a (prepare store c a s)
