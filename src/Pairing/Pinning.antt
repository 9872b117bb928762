-- ===== src/Pairing/Pinning.antt =====
-- The keys that the receiver's list of requests holds on to.
use cajui_firmware.Base.{
  ℕ, suc, ◌≤◌, ◌≡◌, ◌⊎◌, refl, ap, ◌∙◌, subst, ℤ, Bool, true, false, not, ◌&&◌, List, [], ◌∷◌, ◌++◌,
  Option, some, arith, ◌==◌, inl, inr, Bool-cases, Option-cases, length, map, length-append,
}
use cajui_firmware.Protocol.{Frame}
use cajui_firmware.Protocol.Crypto.{Crypto}
use cajui_firmware.Protocol.Codec.{untrusted_type}
use cajui_firmware.Storage.{RecordStore, Store}
use cajui_firmware.Pairing.{Candidate, max_candidates, type_request}
use cajui_firmware.Pairing.Frames.{parse_request}
use cajui_firmware.Pairing.Candidates.{new_candidate, relisted, heard, hear, join}
use cajui_firmware.Pairing.Host.{
  Host, is_closed, close, drop_offer, forget_completed, add_candidate, track_at, answer_request,
  request_at, expire_completed, repeats, repeat_done, confirms, complete, after_storing, confirm_at,
  activate_offer, credential_of, respond_at, after_expiry, poll, remaining_ms, handle,
}
use cajui_firmware.Pairing.Keys.{prepare_fresh}

-- The listed request `y` is what `x` became: the same node and, unless it had joined, the same attempt,
-- in conflict if it was.
pub record IsPinned (x y : Candidate) : Type 0 where
  pub node_kept : y.node ≡ x.node
  pub nonce_kept : x.joined ≡ false → y.nonce ≡ x.nonce
  pub key_kept : x.joined ≡ false → y.public_key ≡ x.public_key
  pub conflict_kept : x.joined ≡ false → x.conflict ≡ true → y.conflict ≡ true

unfoldable pub Keeps : List Candidate → List Candidate → Type 0
Keeps [] ys = Unit {0}
Keeps (x ∷ xs) [] = ⊥
Keeps (x ∷ xs) (y ∷ ys) = IsPinned x y × Keeps xs ys

IsPinned-self : (x : Candidate) → IsPinned x x
IsPinned-self x = record {
  node_kept = refl;
  nonce_kept = λ h. refl;
  key_kept = λ h. refl;
  conflict_kept = λ h k. k;
}

Keeps-self : (xs : List Candidate) → Keeps xs xs
unfolding Keeps
Keeps-self [] = tt
Keeps-self (x ∷ xs) = (IsPinned-self x, Keeps-self xs)

Keeps-append : (xs ys : List Candidate) → Keeps xs (xs ++ ys)
unfolding Keeps
Keeps-append [] ys = tt
Keeps-append (x ∷ xs) ys = (IsPinned-self x, Keeps-append xs ys)

heard-IsPinned :
    (x : Candidate) (nonce : ℕ) (public_key : List ℕ) (rssi : ℤ) (at : ℕ)
    → IsPinned x (heard x nonce public_key rssi at)
unfolding heard relisted
heard-IsPinned x nonce public_key rssi at = record {
  node_kept = ground arith;
  nonce_kept = λ h. ground arith;
  key_kept = λ h. ground arith;
  conflict_kept = λ h k. ground arith;
}

join-IsPinned : (node : ℕ) (x : Candidate) → IsPinned x (join node x)
unfolding join
join-IsPinned node x = record {
  node_kept = ground arith;
  nonce_kept = λ h. ground arith;
  key_kept = λ h. ground arith;
  conflict_kept = λ h k. ground arith;
}

Keeps-join : (node : ℕ) (xs : List Candidate) → Keeps xs (map (join node) xs)
unfolding Keeps
Keeps-join node [] = tt
Keeps-join node (x ∷ xs) = (join-IsPinned node x, Keeps-join node xs)

length-join : (node : ℕ) (xs : List Candidate) → length (map (join node) xs) ≡ length xs
length-join node [] = refl
length-join node (x ∷ xs) = omega (arith, length-join node xs)

-- The list after a step is short enough and pins what the list before it did.
pub record IsKept (xs ys : List Candidate) : Type 0 where
  pub few : length ys ≤ max_candidates
  pub kept : Keeps xs ys

IsKept-self : (xs : List Candidate) → length xs ≤ max_candidates → IsKept xs xs
IsKept-self xs h = record { few = h; kept = Keeps-self xs }

hear_kept :
    (node nonce : ℕ) (public_key : List ℕ) (rssi : ℤ) (at : ℕ) (ok : Bool) (xs ys : List Candidate)
    → hear node nonce public_key rssi at xs ≡ some (ok, ys)
    → (length ys ≡ length xs) × Keeps xs ys
unfolding hear Keeps
hear_kept node nonce public_key rssi at ok [] ys h = absurd (ground (arith, h))
hear_kept node nonce public_key rssi at ok (x ∷ xs) ys h = elim (Bool-cases (x.node == node)) [
  | inl same ↦
      let made : heard x nonce public_key rssi at ∷ xs ≡ ys = ground (arith, same, h) in
      subst (λ (zs : List Candidate). (length zs ≡ suc (length xs)) × Keeps (x ∷ xs) zs) made
        (refl, (heard-IsPinned x nonce public_key rssi at, Keeps-self xs))
  | inr other ↦ elim (Option-cases (hear node nonce public_key rssi at xs)) [
    | inl e ↦ absurd (ground (arith, h, e))
    | inr ((ok', zs), e) ↦
        let made : x ∷ zs ≡ ys = ground (arith, other, e, h) in
        let rest = hear_kept node nonce public_key rssi at ok' xs zs e in
        subst (λ (vs : List Candidate). (length vs ≡ suc (length xs)) × Keeps (x ∷ xs) vs) made
          (ap suc rest.0, (IsPinned-self x, rest.1))
  ]
]

module _ {R : Type 0} where
  add_candidate-IsKept :
      (node nonce : ℕ) (public_key : List ℕ) (rssi : ℤ) (at : ℕ) (h : Host R)
      → length h.candidates ≤ max_candidates
      → IsKept h.candidates (add_candidate node nonce public_key rssi at h).1.candidates
  unfolding add_candidate
  add_candidate-IsKept node nonce public_key rssi at h few =
      elim (Bool-cases (length h.candidates == max_candidates)) [
        | inl full ↦ rw full (IsKept-self h.candidates few)
        | inr room ↦ rw room (record {
          few = ground (
            arith,
            room,
            length-append h.candidates (new_candidate node nonce public_key rssi at ∷ []),
          );
          kept = Keeps-append h.candidates (new_candidate node nonce public_key rssi at ∷ []);
        })
      ]

  track_at-IsKept :
      (node nonce : ℕ) (public_key : List ℕ) (rssi : ℤ) (at : ℕ) (h : Host R)
      → length h.candidates ≤ max_candidates
      → IsKept h.candidates (track_at node nonce public_key rssi at h).1.candidates
  unfolding track_at
  track_at-IsKept node nonce public_key rssi at h few =
      elim (Option-cases (hear node nonce public_key rssi at h.candidates)) [
        | inl e ↦ rw (e, track_at) (add_candidate-IsKept node nonce public_key rssi at h few)
        | inr ((ok, ys), e) ↦
            let heard_list = hear_kept node nonce public_key rssi at ok h.candidates ys e in
            rw (e, track_at)
              (record { few = omega (arith, few, heard_list.0); kept = heard_list.1 })
      ]

  answer_request_same :
      (node : ℕ) (ok : Bool) (h : Host R)
      → (answer_request node (ok, h)).1.candidates ≡ h.candidates
  unfolding answer_request drop_offer
  answer_request_same node ok h = ground arith

  request_at-IsKept :
      (f : Frame) (rssi : ℤ) (at : ℕ) (h : Host R)
      → length h.candidates ≤ max_candidates
      → IsKept h.candidates (request_at f rssi at h).1.candidates
  unfolding request_at
  request_at-IsKept f rssi at h few = elim (Option-cases (parse_request f)) [
    | inl e ↦ rw (e, request_at) (IsKept-self h.candidates few)
    | inr ((node, nonce, public_key), e) ↦
        rw (e, request_at)
          (elim (Bool-cases (node == h.store.device)) [
            | inl own ↦ rw own (IsKept-self h.candidates few)
            | inr other ↦
                let t = track_at node nonce public_key rssi at h in
                rw (other, answer_request_same node t.0 t.1)
                  (track_at-IsKept node nonce public_key rssi at h few)
          ])
  ]

  module _ (c : Crypto) (store : RecordStore R) where
    after_storing-IsKept :
        (at : ℕ) (h : Host R) (o : Option Frame) (s : Store R)
        → length h.candidates ≤ max_candidates
        → IsKept h.candidates (after_storing c store at h (o, s)).1.candidates
    unfolding after_storing complete drop_offer
    after_storing-IsKept at h Option.none s few = IsKept-self h.candidates few
    after_storing-IsKept at h (some done) s few = record {
      few = omega (arith, few, length-join h.offer.node h.candidates);
      kept = Keeps-join h.offer.node h.candidates;
    }

    after_expiry-IsKept :
        (f : Frame) (rssi : ℤ) (at : ℕ) (h : Host R)
        → length h.candidates ≤ max_candidates
        → IsKept h.candidates (after_expiry c store f rssi at h).1.candidates
    unfolding after_expiry respond_at repeat_done confirm_at
    after_expiry-IsKept f rssi at h few = elim (Bool-cases (repeats c f h)) [
      | inl a ↦ rw a (IsKept-self h.candidates few)
      | inr a ↦ elim (Bool-cases (is_closed h.state)) [
        | inl b ↦ rw (a, b) (IsKept-self h.candidates few)
        | inr b ↦ elim (Bool-cases (untrusted_type f == type_request)) [
          | inl d ↦ rw (a, b, d) (request_at-IsKept f rssi at h few)
          | inr d ↦ elim (Bool-cases (confirms c f h)) [
            | inl g ↦
                let p =
                  activate_offer c store h (prepare_fresh store c (credential_of h) h.store) in
                rw (a, b, d, g) (after_storing-IsKept at h p.0 p.1 few)
            | inr g ↦ rw (a, b, d, g) (IsKept-self h.candidates few)
          ]
        ]
      ]
    ]

    after_expiry_closed :
        (f : Frame) (rssi : ℤ) (at : ℕ) (h : Host R)
        → is_closed h.state ≡ true
        → (after_expiry c store f rssi at h).1.candidates ≡ h.candidates
    unfolding after_expiry respond_at repeat_done
    after_expiry_closed f rssi at h closed = elim (Bool-cases (repeats c f h)) [
      | inl a ↦ rw a refl
      | inr a ↦ rw (a, closed) refl
    ]

    expire_same :
        (at : ℕ) (h : Host R)
        → ((expire_completed at h).candidates ≡ h.candidates)
          × ((expire_completed at h).state ≡ h.state)
    unfolding expire_completed forget_completed
    expire_same at h = (ground arith, ground arith)

    -- Handling a frame never replaces the attempt of a listed node: the list is emptied, where the window
    -- has expired, or every listed request that had not joined stays at its place with its node, its
    -- nonce and its key, and a conflict on it stays. The list never grows past four requests.
    pub handle_pinned :
        (f : Frame) (rssi : ℤ) (polled expired at : ℕ) (h : Host R)
        → length h.candidates ≤ max_candidates
        → ((handle c store f rssi polled expired at h).1.candidates ≡ [])
          ⊎ IsKept h.candidates (handle c store f rssi polled expired at h).1.candidates
    unfolding handle poll close drop_offer
    handle_pinned f rssi polled expired at h few =
        elim (Bool-cases (not (is_closed h.state) && remaining_ms polled h == 0)) [
          | inl expires ↦
              let e = expire_same expired (close h) in
              rw expires (
                inl (
                  after_expiry_closed f rssi at (expire_completed expired (close h))
                    (ap is_closed e.1)
                  ∙ e.0))
          | inr stays ↦
              let e = expire_same expired h in
              rw stays (
                inr (
                  subst
                    (λ (xs : List Candidate).
                      IsKept xs
                        (after_expiry c store f rssi at (expire_completed expired h)).1.candidates)
                    e.0 (after_expiry-IsKept f rssi at (expire_completed expired h) (rw e.0 few))))
        ]
