-- ===== src/Storage/Counters.antt =====
-- The transmitter's counters: `reserve`.
use cajui_firmware.Base.{
  ℕ, ◌+◌, ◌-◌, ◌^◌, ◌<◌, ◌≡◌, ◌≢◌, refl, ap, ◌∙◌, true, List, some, arith, Option-cases, inl, inr,
  length, get_or, get_or-set_self,
}
use cajui_firmware.Protocol.{Binding}
use cajui_firmware.Records.{Entry, no_entry, Registry, registry_key}
use cajui_firmware.Records.Enrollments.{encode_registry}
use cajui_firmware.Storage.{
  found, RecordStore, RecordLaws, Store, entry_at, is_authority, find_index, authorized,
  save_registry,
}
use cajui_firmware.Storage.Indexing.{find_index_found, find_index-set}
use cajui_firmware.Storage.Sampling.{count_up, reserve_at, reserve}

pub count_up_self :
    (es : List Entry) (i : ℕ)
    → i < length es
    → (get_or (count_up es i) i no_entry).counter ≡ (get_or es i no_entry).counter + 1
unfolding count_up
count_up_self es i h =
    ap (λ (e : Entry). e.counter)
      (get_or-set_self es i
        (record (get_or es i no_entry) { counter = (get_or es i no_entry).counter + 1 }) no_entry h)

-- Counting up does not change who is authorized.
pub authority-count_up :
    (b : Binding) (es : List Entry) (i : ℕ)
    → find_index (is_authority b) (count_up es i) ≡ find_index (is_authority b) es
unfolding count_up is_authority
authority-count_up b es i =
    find_index-set (is_authority b) es i
      (record (get_or es i no_entry) { counter = (get_or es i no_entry).counter + 1 }) no_entry refl

module _ {R : Type 0} (store : RecordStore R) where
  -- A registry that was saved is the one in memory, and the one that the next mount reads.
  pub record Saved (next : Registry) (s s' : Store R) : Type 0 where
    pub below : s.registry.revision ≢ 2 ^ 64 - 1
    pub registry_now : s'.registry ≡ record next { revision = s.registry.revision + 1 }
    pub written :
        store.write registry_key (encode_registry s'.registry s.role s.device) s.records
        ≡ (true, s'.records)
    pub rest : s' ≡ record s { records = s'.records; registry = s'.registry }

  pub save_registry-Saved :
      (next : Registry) (s s' : Store R) → save_registry store next s ≡ (true, s') → Saved next s s'
  unfolding save_registry
  save_registry-Saved next s s' h = record {
    below = ground arith;
    registry_now = ground arith;
    written = ground arith;
    rest = ground arith;
  }

  -- A counter that `reserve` hands out.
  pub record Reserved (b : Binding) (n : ℕ) (s s' : Store R) : Type 0 where
    pub slot : ℕ
    pub authority : authorized b s ≡ some slot
    pub fresh : n ≡ (entry_at s.registry slot).counter + 1
    pub room : (entry_at s.registry slot).counter ≢ 2 ^ 64 - 1
    pub saved : Saved (record s.registry { entries = count_up s.registry.entries slot }) s s'

  reserve_at_room :
      (i n : ℕ) (s s' : Store R)
      → reserve_at store i s ≡ (some n, s')
      → (entry_at s.registry i).counter ≢ 2 ^ 64 - 1
  unfolding reserve_at
  reserve_at_room i n s s' h = λ e. ground arith

  reserve_at-some :
      (i n : ℕ) (s s' : Store R)
      → i < length s.registry.entries
      → reserve_at store i s ≡ (some n, s')
      → (n ≡ (entry_at s.registry i).counter + 1)
        × Saved (record s.registry { entries = count_up s.registry.entries i }) s s'
  unfolding reserve_at
  reserve_at-some i n s s' lt h =
      let next : Registry = record s.registry { entries = count_up s.registry.entries i } in
      let saved : save_registry store next s ≡ (true, s') = ground arith in
      let given : n ≡ (entry_at s'.registry i).counter = ground arith in
      let v = save_registry-Saved next s s' saved in
      (given ∙ rw v.registry_now (count_up_self s.registry.entries i lt), v)

  pub authorized_found :
      (b : Binding) (s : Store R) (i : ℕ)
      → authorized b s ≡ some i
      → find_index (is_authority b) s.registry.entries ≡ some i
  unfolding authorized
  authorized_found b s i h = ground arith

  -- What `reserve` hands out is one past the counter of the binding's entry, and was written first.
  pub reserve_some :
      (b : Binding) (n : ℕ) (s s' : Store R) → reserve store b s ≡ (some n, s') → Reserved b n s s'
  unfolding reserve
  reserve_some b n s s' h = elim (Option-cases (authorized b s)) [
    | inl e ↦ absurd (ground (arith, e))
    | inr (i, e) ↦
        let range =
          find_index_found (is_authority b) s.registry.entries i no_entry
            (authorized_found b s i e) in
        let tried : reserve_at store i s ≡ (some n, s') = rw (e, reserve) at h in
        let (fresh, saved) = reserve_at-some i n s s' range.0 tried in
        record {
          slot = i;
          authority = e;
          fresh = fresh;
          room = reserve_at_room i n s s' tried;
          saved = saved;
        }
  ]

  still_authorized :
      (b : Binding) (n : ℕ) (s s' : Store R) (r : Reserved b n s s') → authorized b s' ≡ some r.slot
  unfolding authorized
  still_authorized b n s s' r =
      ap (authorized b) r.saved.rest
      ∙ rw (r.saved.registry_now, authority-count_up b s.registry.entries r.slot) r.authority

  -- Two reservations in a row for one binding, where both succeed, never give one counter: the
  -- second is the next number.
  pub reserve-reserve :
      (b : Binding) (n m : ℕ) (s s' s'' : Store R)
      → reserve store b s ≡ (some n, s')
      → reserve store b s' ≡ (some m, s'')
      → m ≡ n + 1
  reserve-reserve b n m s s' s'' h k =
      let p = reserve_some b n s s' h in
      let q = reserve_some b m s' s'' k in
      let same : q.slot ≡ p.slot = cc (still_authorized b n s s' p, q.authority) in
      let range =
        find_index_found (is_authority b) s.registry.entries p.slot no_entry
          (authorized_found b s p.slot p.authority) in
      let counted : (entry_at s'.registry p.slot).counter
          ≡ (entry_at s.registry p.slot).counter + 1 =
        rw p.saved.registry_now (count_up_self s.registry.entries p.slot range.0) in
      let now : m ≡ (entry_at s'.registry p.slot).counter + 1 = rw same at q.fresh in
      omega (arith, now, counted, p.fresh)

  -- With a record store that keeps its laws, a reserved counter is durable: it is the counter of the
  -- binding's entry in the registry whose encoding the record store now reads back.
  pub reserve_durable :
      RecordLaws store
      → (b : Binding) (n : ℕ) (s s' : Store R) → reserve store b s ≡ (some n, s')
      → (i : ℕ) × (authorized b s ≡ some i)
        × ((entry_at s'.registry i).counter ≡ n)
        × (store.read registry_key s'.records
            ≡ found (encode_registry s'.registry s'.role s'.device))
  reserve_durable laws b n s s' h =
      let p = reserve_some b n s s' h in
      let range =
        find_index_found (is_authority b) s.registry.entries p.slot no_entry
          (authorized_found b s p.slot p.authority) in
      let counted : (entry_at s'.registry p.slot).counter
          ≡ (entry_at s.registry p.slot).counter + 1 =
        rw p.saved.registry_now (count_up_self s.registry.entries p.slot range.0) in
      let role : s'.role ≡ s.role = ap (λ (t : Store R). t.role) p.saved.rest in
      let device : s'.device ≡ s.device = ap (λ (t : Store R). t.device) p.saved.rest in
      (
        p.slot,
        p.authority,
        omega (arith, counted, p.fresh),
        rw (role, device) (laws.read-write registry_key _ s.records s'.records p.saved.written),
      )
