-- ===== src/Storage/Activation.antt =====
-- How many generations of a node `activate` and `activateAlongside` leave active.
use cajui_firmware.Base.{
  ℕ, not, ◌&&◌, if◌then◌else◌, zero, suc, ◌+◌, ◌<◌, ◌≡◌, ◌≢◌, refl, sym, ap, ◌∙◌, ◌⊎◌, inl, inr,
  true, false, List, [], ◌∷◌, map, Option, none, some, arith, ◌==◌, length, get_or, get_or-set_self,
  get_or-set_other,
}
use cajui_firmware.Protocol.{Result}
use cajui_firmware.Protocol.Crypto.{Crypto}
use cajui_firmware.Records.{Enrollment, is_active, is_receiver, Entry, no_entry, Registry}
use cajui_firmware.Storage.{
  RecordStore, Store, entry_at, healthy, find, is_enrollment, save_registry, commit_registry,
}
use cajui_firmware.Storage.Indexing.{find_index_found}
use cajui_firmware.Storage.Entries.{revoke_node, set_state, revoke_others, last_used}
use cajui_firmware.Storage.LastUsed.{is_used, IsLastUsed, last_used-IsLastUsed}
use cajui_firmware.Storage.Enrolling.{activate, activate_alongside}

revoked_at :
    (node : ℕ) (es : List Entry) (j : ℕ)
    → get_or (map (revoke_node node) es) j no_entry ≡ revoke_node node (get_or es j no_entry)
unfolding revoke_node
revoked_at node [] j = ground arith
revoked_at node (e ∷ es) zero = refl
revoked_at node (e ∷ es) (suc j) = revoked_at node es j

revoke_node_lem :
    (node : ℕ) (e : Entry)
    → (e.node ≡ node
        → is_active e.state ≡ true
        → revoke_node node e ≡ record e { state = Enrollment.revoked })
      × (e.node ≡ node → is_active e.state ≡ false → revoke_node node e ≡ e)
      × (e.node ≢ node → revoke_node node e ≡ e)
unfolding revoke_node
revoke_node_lem node e = (λ h a. ground arith, λ h a. ground arith, λ h. ground arith)

prepared_kept : (node : ℕ) (e : Entry) → e.state ≡ Enrollment.prepared → revoke_node node e ≡ e
unfolding revoke_node
prepared_kept node e h = ground arith

length-map : (f : Entry → Entry) (es : List Entry) → length (map f es) ≡ length es
length-map f [] = refl
length-map f (e ∷ es) = omega (arith, length-map f es)

-- An entry after `activateAlongside`'s loop, by its index.
abbrev revoked_unless : ℕ → Option (ℕ × ℕ) → ℕ → Entry → Entry
revoked_unless node keep i e =
    if e.node == node
      && is_active e.state
      && not (elim keep [ none ↦ false | some (k, _) ↦ k == i ])
    then record e { state = Enrollment.revoked }
    else e

others_at :
    (node : ℕ) (keep : Option (ℕ × ℕ)) (i : ℕ) (es : List Entry) (j n : ℕ)
    → n ≡ i + j
    → get_or (revoke_others node keep i es) j no_entry
      ≡ revoked_unless node keep n (get_or es j no_entry)
unfolding revoke_others
others_at node keep i [] j n h = ground arith
others_at node keep i (e ∷ es) zero n h =
    ap (λ (m : ℕ). revoked_unless node keep m e) (omega (arith, h))
others_at node keep i (e ∷ es) (suc j) n h = others_at node keep (suc i) es j n (omega (arith, h))

length-revoke_others :
    (node : ℕ) (keep : Option (ℕ × ℕ)) (i : ℕ) (es : List Entry)
    → length (revoke_others node keep i es) ≡ length es
unfolding revoke_others
length-revoke_others node keep i [] = refl
length-revoke_others node keep i (e ∷ es) = omega (arith, length-revoke_others node keep (suc i) es)

module _ {R : Type 0} (store : RecordStore R) (c : Crypto) where
  commit_registry_ok :
      (next : Registry) (s t : Store R)
      → commit_registry store next s ≡ (Result.ok, t)
      → t.registry.entries ≡ next.entries
  unfolding commit_registry save_registry
  commit_registry_ok next s t h = ground arith

  find_inside :
      (node generation : ℕ) (s : Store R) (i : ℕ)
      → find node generation s ≡ some i
      → (i < length s.registry.entries)
        × ((entry_at s.registry i).node ≡ node)
        × ((entry_at s.registry i).generation ≡ generation)
  unfolding find is_enrollment
  find_inside node generation s i h =
      ground
        (arith, find_index_found (is_enrollment node generation) s.registry.entries i no_entry h)

  activate_prepared :
      (node generation : ℕ) (s t : Store R) (i : ℕ)
      → find node generation s ≡ some i
      → (entry_at s.registry i).state ≡ Enrollment.prepared
      → activate store c node generation s ≡ (Result.ok, t)
      → t.registry.entries
        ≡ set_state (map (revoke_node node) s.registry.entries) i Enrollment.active
  unfolding activate
  activate_prepared node generation s t i found prepared h =
      let alive : healthy s ≡ true = ground arith in
      commit_registry_ok
        (record s.registry {
          entries = set_state (map (revoke_node node) s.registry.entries) i Enrollment.active;
        })
        s t (rw (alive, found, prepared, activate) at h)

  -- Where activating the prepared generation at an index succeeds, the entry there is that node and
  -- generation, now active and otherwise unchanged. Of the other entries, an active one of the node is
  -- revoked and otherwise unchanged, and every other is as it was.
  pub activate_exclusive :
      (node generation : ℕ) (s t : Store R) (i : ℕ)
      → find node generation s ≡ some i
      → (entry_at s.registry i).state ≡ Enrollment.prepared
      → activate store c node generation s ≡ (Result.ok, t)
      → ((entry_at s.registry i).node ≡ node)
        × ((entry_at s.registry i).generation ≡ generation)
        × (entry_at t.registry i ≡ record (entry_at s.registry i) { state = Enrollment.active })
        × ((j : ℕ)
            → j ≢ i
            → ((entry_at s.registry j).node ≡ node
                → is_active (entry_at s.registry j).state ≡ true
                → entry_at t.registry j
                  ≡ record (entry_at s.registry j) { state = Enrollment.revoked })
              × ((entry_at s.registry j).node ≡ node
                  → is_active (entry_at s.registry j).state ≡ false
                  → entry_at t.registry j ≡ entry_at s.registry j)
              × ((entry_at s.registry j).node ≢ node
                  → entry_at t.registry j ≡ entry_at s.registry j))
  unfolding set_state
  activate_exclusive node generation s t i found prepared h =
      let now = activate_prepared node generation s t i found prepared h in
      let es = map (revoke_node node) s.registry.entries in
      let new : Entry = record (get_or es i no_entry) { state = Enrollment.active } in
      let (inside, own, whose) = find_inside node generation s i found in
      let same : get_or es i no_entry ≡ entry_at s.registry i =
        revoked_at node s.registry.entries i
        ∙ prepared_kept node (entry_at s.registry i) prepared in
      (
        own,
        whose,
        ap (λ (l : List Entry). get_or l i no_entry) now
            ∙ get_or-set_self es i new no_entry
                (omega (arith, inside, length-map (revoke_node node) s.registry.entries))
            ∙ ap (λ (e : Entry). record e { state = Enrollment.active }) same,
        λ j other.
            let here : entry_at t.registry j ≡ revoke_node node (entry_at s.registry j) =
              ap (λ (l : List Entry). get_or l j no_entry) now
              ∙ get_or-set_other es i j new no_entry (λ e. other (sym e))
              ∙ revoked_at node s.registry.entries j in
            rw here (revoke_node_lem node (entry_at s.registry j)),
      )

  alongside_prepared :
      (node generation : ℕ) (s t : Store R) (i : ℕ)
      → find node generation s ≡ some i
      → (entry_at s.registry i).state ≡ Enrollment.prepared
      → activate_alongside store c node generation s ≡ (Result.ok, t)
      → t.registry.entries
        ≡ set_state
            (revoke_others node
              (last_used node 0 none s.registry.entries s.receipts)
              0
              s.registry.entries)
            i
            Enrollment.active
  unfolding activate_alongside
  alongside_prepared node generation s t i found prepared h =
      let alive : healthy s ≡ true = ground arith in
      let receives : is_receiver s.role ≡ true = ground arith in
      let keep = last_used node 0 none s.registry.entries s.receipts in
      commit_registry_ok
        (record s.registry {
          entries = set_state (revoke_others node keep 0 s.registry.entries) i Enrollment.active;
        })
        s t (rw (alive, receives, found, prepared, activate_alongside) at h)

  others_after :
      (node generation : ℕ) (s t : Store R) (i j : ℕ)
      → find node generation s ≡ some i
      → (entry_at s.registry i).state ≡ Enrollment.prepared
      → activate_alongside store c node generation s ≡ (Result.ok, t)
      → j ≢ i
      → entry_at t.registry j
        ≡ revoked_unless node
            (last_used node 0 none s.registry.entries s.receipts)
            j
            (entry_at s.registry j)
  unfolding set_state
  others_after node generation s t i j found prepared h other =
      let keep = last_used node 0 none s.registry.entries s.receipts in
      let es = revoke_others node keep 0 s.registry.entries in
      let new : Entry = record (get_or es i no_entry) { state = Enrollment.active } in
      ap (λ (l : List Entry). get_or l j no_entry)
        (alongside_prepared node generation s t i found prepared h)
      ∙ get_or-set_other es i j new no_entry (λ e. other (sym e))
      ∙ others_at node keep 0 s.registry.entries j j (omega arith)

  new_after :
      (node generation : ℕ) (s t : Store R) (i : ℕ)
      → find node generation s ≡ some i
      → (entry_at s.registry i).state ≡ Enrollment.prepared
      → activate_alongside store c node generation s ≡ (Result.ok, t)
      → entry_at t.registry i ≡ record (entry_at s.registry i) { state = Enrollment.active }
  unfolding set_state
  new_after node generation s t i found prepared h =
      let keep = last_used node 0 none s.registry.entries s.receipts in
      let es = revoke_others node keep 0 s.registry.entries in
      let new : Entry = record (get_or es i no_entry) { state = Enrollment.active } in
      let (inside, own, whose) = find_inside node generation s i found in
      let same : get_or es i no_entry ≡ entry_at s.registry i =
        others_at node keep 0 s.registry.entries i i (omega arith) ∙ ground (arith, prepared) in
      ap (λ (l : List Entry). get_or l i no_entry)
        (alongside_prepared node generation s t i found prepared h)
      ∙ get_or-set_self es i new no_entry
          (omega (arith, inside, length-revoke_others node keep 0 s.registry.entries))
      ∙ ap (λ (e : Entry). record e { state = Enrollment.active }) same

  -- The registry after `activateAlongside`: the entry at the index is the prepared one, now active; of
  -- the node's other active entries the one that it used last is as it was, and the rest are revoked;
  -- where it used none, all are revoked. Every other entry is as it was.
  pub record IsBeside (node generation i : ℕ) (s t : Store R) : Type 0 where
    pub own_node : (entry_at s.registry i).node ≡ node
    pub own_generation : (entry_at s.registry i).generation ≡ generation
    pub activated :
        entry_at t.registry i ≡ record (entry_at s.registry i) { state = Enrollment.active }
    pub other_nodes :
        (j : ℕ)
        → j ≢ i
        → (entry_at s.registry j).node ≢ node
        → entry_at t.registry j ≡ entry_at s.registry j
    pub inactive :
        (j : ℕ)
        → j ≢ i
        → is_active (entry_at s.registry j).state ≡ false
        → entry_at t.registry j ≡ entry_at s.registry j
    pub previous :
        (((n : ℕ) → is_used node s.registry.entries s.receipts n ≡ false)
          × ((j : ℕ)
              → j ≢ i
              → (entry_at s.registry j).node ≡ node
              → is_active (entry_at s.registry j).state ≡ true
              → entry_at t.registry j
                ≡ record (entry_at s.registry j) { state = Enrollment.revoked }))
        ⊎ ((k : ℕ) × IsLastUsed node s.registry.entries s.receipts k
            × (entry_at t.registry k ≡ entry_at s.registry k)
            × ((j : ℕ)
                → j ≢ i
                → j ≢ k
                → (entry_at s.registry j).node ≡ node
                → is_active (entry_at s.registry j).state ≡ true
                → entry_at t.registry j
                  ≡ record (entry_at s.registry j) { state = Enrollment.revoked }))

  -- Where activating the prepared generation at an index alongside succeeds, the registry is as
  -- `IsBeside` says: two generations of the node at most are active, the new one and the one whose
  -- receipt reaches furthest in the queue among those with a receipt.
  pub activate_alongside-IsBeside :
      (node generation : ℕ) (s t : Store R) (i : ℕ)
      → find node generation s ≡ some i
      → (entry_at s.registry i).state ≡ Enrollment.prepared
      → activate_alongside store c node generation s ≡ (Result.ok, t)
      → IsBeside node generation i s t
  activate_alongside-IsBeside node generation s t i found prepared h =
      let (inside, own, whose) = find_inside node generation s i found in
      let after =
        λ (j : ℕ) (other : j ≢ i). others_after node generation s t i j found prepared h other in
      record {
        own_node = own;
        own_generation = whose;
        activated = new_after node generation s t i found prepared h;
        other_nodes = λ j other foreign. after j other ∙ ground (arith, foreign);
        inactive = λ j other idle. after j other ∙ ground (arith, idle);
        previous = elim (last_used-IsLastUsed node s.registry.entries s.receipts) [
          | inl (e, unused) ↦
              inl (unused, λ j other mine live. after j other ∙ rw e (ground (arith, mine, live)))
          | inr (k, best, e, last) ↦
              let apart : k ≢ i = λ q. ground (arith, last.used, prepared, q) in
              inr (
                k,
                last,
                after k apart ∙ rw e (ground arith),
                λ j other away mine live. after j other ∙ rw e (ground (arith, away, mine, live)),
              )
        ];
      }
