-- ===== src/Pairing/Candidates.antt =====
-- cajui_pairing.cpp: the list of the nodes that ask to join, in `PairingHost`.
use cajui_firmware.Base.{
  ℕ, zero, suc, ℤ, pos, Bool, true, false, not, ◌&&◌, ◌||◌, List, [], ◌∷◌, Option, none, some, ◌==◌,
  if◌then◌else◌, bytes_eq,
}
use cajui_firmware.Pairing.{Candidate}

abbrev pub new_candidate : ℕ → ℕ → List ℕ → ℤ → ℕ → Candidate
new_candidate node nonce public_key rssi seen_at = record {
  node = node;
  nonce = nonce;
  public_key = public_key;
  rssi = rssi;
  seen_at = seen_at;
  conflict = false;
  joined = false;
}

abbrev pub same_attempt : Candidate → ℕ → List ℕ → Bool
same_attempt listed nonce public_key =
    listed.nonce == nonce && bytes_eq listed.public_key public_key

-- A joined node that asks again with another nonce or key is listed afresh.
unfoldable pub relisted : Candidate → ℕ → List ℕ → Candidate
relisted listed nonce public_key =
    if listed.joined && not (same_attempt listed nonce public_key)
    then new_candidate listed.node nonce public_key (pos 0) 0
    else listed

unfoldable pub heard : Candidate → ℕ → List ℕ → ℤ → ℕ → Candidate
heard listed nonce public_key rssi at =
    let c = relisted listed nonce public_key in
    record c {
      conflict = c.conflict || not (same_attempt c nonce public_key);
      rssi = rssi;
      seen_at = at;
    }

-- The loop of `track`: whether the request is consistent, and the list, where the node is listed.
unfoldable pub hear : ℕ → ℕ → List ℕ → ℤ → ℕ → List Candidate → Option (Bool × List Candidate)
hear node nonce public_key rssi at [] = none
hear node nonce public_key rssi at (listed ∷ cs) =
    let found = heard listed nonce public_key rssi at in
    let rest = hear node nonce public_key rssi at cs in
    if listed.node == node
    then some (not found.conflict, found ∷ cs)
    else elim rest [ none ↦ none | some (consistent, cs') ↦ some (consistent, listed ∷ cs') ]

-- The loop of `accept`: the last candidate with the identity.
unfoldable pub candidate_of : ℕ → List Candidate → Option Candidate
candidate_of node [] = none
candidate_of node (listed ∷ cs) = elim (candidate_of node cs) [
  | some c ↦ some c
  | none ↦ if listed.node == node then some listed else none
]

unfoldable pub join : ℕ → Candidate → Candidate
join node listed = if listed.node == node then record listed { joined = true } else listed

-- The candidates that still ask to join, at most `capacity`.
unfoldable pub waiting_in : List Candidate → ℕ → List Candidate
waiting_in cs zero = []
waiting_in [] (suc capacity) = []
waiting_in (listed ∷ cs) (suc capacity) =
    if listed.joined then waiting_in cs (suc capacity) else listed ∷ waiting_in cs capacity
