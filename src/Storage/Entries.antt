-- ===== src/Storage/Entries.antt =====
-- cajui_storage.cpp: the loops over the entries of the registry, and the changes that the
-- enrollment operations make to it.
use cajui_firmware.Base.{
  ℕ, suc, Bool, false, not, ◌&&◌, ◌||◌, List, [], ◌∷◌, Option, none, some, ltb, ◌==◌, if◌then◌else◌,
  bytes_eq, get_or, set,
}
use cajui_firmware.Protocol.{Binding}
use cajui_firmware.Protocol.Crypto.{Crypto}
use cajui_firmware.Records.{
  Enrollment, is_empty, is_prepared, is_active, is_revoked, Entry, no_entry, Registry, RetiredList,
  ReceiptRecord,
}
use cajui_firmware.Records.Enrollments.{fingerprint}
use cajui_firmware.Records.Retirement.{is_retired, retire}
use cajui_firmware.Storage.{binding_of}

pub record EnrollmentInfo : Type 0 where
  pub state : Enrollment
  pub node : ℕ
  pub generation : ℕ
  pub counter : ℕ
  pub received : ℕ

-- The arguments of `prepare`.
pub record Credential : Type 0 where
  pub network : ℕ
  pub receiver : ℕ
  pub node : ℕ
  pub generation : ℕ
  pub key : List ℕ
  pub profile : ℕ

-- An occupied entry that `prepare` refuses to share its key, its generation or its node's
-- preparation with.
unfoldable pub clashes : Credential → Entry → Bool
clashes a e =
    not (is_empty e.state)
    && (bytes_eq e.key a.key
        || e.generation == a.generation
        || (e.node == a.node && is_prepared e.state))

unfoldable pub any_clash : Credential → List Entry → Bool
unfolding clashes
any_clash a [] = false
any_clash a (e ∷ es) = clashes a e || any_clash a es

-- A revoked slot with no queued sample; both arrays run in step.
unfoldable pub reclaimable_from : ℕ → List Entry → List ℕ → Option ℕ
reclaimable_from i [] counts = none
reclaimable_from i (e ∷ es) [] = none
reclaimable_from i (e ∷ es) (n ∷ counts) =
    if is_revoked e.state && n == 0 then some i else reclaimable_from (suc i) es counts

unfoldable pub prepared_entry : Credential → Entry
prepared_entry a = record {
  state = Enrollment.prepared;
  node = a.node;
  generation = a.generation;
  counter = 0;
  key = a.key;
}

unfoldable pub revoke_node : ℕ → Entry → Entry
revoke_node node e =
    if e.node == node && is_active e.state then record e { state = Enrollment.revoked } else e

-- The state of one entry set, as `e.state = state` does at an index.
unfoldable pub set_state : List Entry → ℕ → Enrollment → List Entry
set_state es i state = set es i (record (get_or es i no_entry) { state = state })

-- The active generation of the node that a sample used last: the highest `through` among the
-- receipts with a counter. `keep` is the best so far, with its `through`.
unfoldable pub last_used : ℕ → ℕ → Option (ℕ × ℕ) → List Entry → List ReceiptRecord → Option (ℕ × ℕ)
last_used node i keep [] rs = keep
last_used node i keep (e ∷ es) [] = keep
last_used node i keep (e ∷ es) (r ∷ rs) =
    last_used node (suc i)
      (if not (e.node == node) || not (is_active e.state) || r.receipt.counter == 0
        then keep
        else elim keep [
          | none ↦ some (i, r.through)
          | some (j, best) ↦ if ltb best r.through then some (i, r.through) else some (j, best)
        ])
      es rs

-- Every active entry of the node is revoked, but for the index to keep.
unfoldable pub revoke_others : ℕ → Option (ℕ × ℕ) → ℕ → List Entry → List Entry
revoke_others node keep i [] = []
revoke_others node keep i (e ∷ es) =
    (if e.node == node
        && is_active e.state
        && not (elim keep [ none ↦ false | some (k, _) ↦ k == i ])
      then record e { state = Enrollment.revoked }
      else e)
    ∷ revoke_others node keep (suc i) es

-- `reset` revokes and retires every occupied entry; `none` where a fingerprint fails.
unfoldable pub retire_all : Crypto → RetiredList → List Entry → Option (List Entry × RetiredList)
retire_all c list [] = some ([], list)
retire_all c list (e ∷ es) =
    if is_empty e.state
    then (elim (retire_all c list es) [ none ↦ none | some (es', l) ↦ some (e ∷ es', l) ])
    else elim (fingerprint c e.key) [
      | none ↦ none
      | some print ↦
          elim (retire_all c
            (if is_retired list e.generation print then list else retire list e.generation print)
            es) [
              | none ↦ none
              | some (es', l) ↦ some (record e { state = Enrollment.revoked } ∷ es', l)
            ]
    ]

unfoldable pub free_count : List Entry → List ℕ → ℕ
free_count [] counts = 0
free_count (e ∷ es) [] = 0
free_count (e ∷ es) (n ∷ counts) =
    let rest = free_count es counts in
    if is_empty e.state || (is_revoked e.state && n == 0) then suc rest else rest

unfoldable pub infos : List Entry → List ReceiptRecord → List EnrollmentInfo
infos [] rs = []
infos (e ∷ es) [] = []
infos (e ∷ es) (r ∷ rs) =
    let rest = infos es rs in
    if is_empty e.state
    then rest
    else record {
      state = e.state;
      node = e.node;
      generation = e.generation;
      counter = e.counter;
      received = r.receipt.counter;
    }
      ∷ rest

unfoldable pub active_bindings : ℕ → ℕ → List Entry → List Binding
active_bindings node network [] = []
active_bindings node network (e ∷ es) =
    let rest = active_bindings node network es in
    if e.node == node && is_active e.state then binding_of e network ∷ rest else rest

unfoldable pub other_network : Credential → Registry → Bool
other_network a r =
    not (r.network == 0)
    && (not (a.network == r.network)
        || not (a.receiver == r.receiver)
        || not (a.profile == r.profile))

-- The registry with a prepared entry in a slot.
unfoldable pub enrolled : Credential → ℕ → Registry → Registry
unfolding prepared_entry
enrolled a slot r = record r {
  network = a.network;
  receiver = a.receiver;
  profile = a.profile;
  entries = set r.entries slot (prepared_entry a);
}
