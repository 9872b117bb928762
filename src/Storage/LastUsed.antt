-- ===== src/Storage/LastUsed.antt =====
-- The generation that a node used last, among the receipts of its active entries.
use cajui_firmware.Base.{
  ℕ, zero, suc, ◌+◌, ◌≤◌, ◌≡◌, ◌⊎◌, inl, inr, refl, sym, ap, ◌∙◌, Bool, true, false, not, ◌&&◌,
  ◌||◌, List, [], ◌∷◌, Option, none, some, arith, ltb, ◌==◌, if◌then◌else◌, Bool-cases,
  Option-cases, get_or,
}
use cajui_firmware.Records.{is_active, Entry, no_entry, ReceiptRecord, no_receipt_record}
use cajui_firmware.Storage.Entries.{last_used}

-- An active entry of the node with a receipt.
abbrev pub is_used : ℕ → List Entry → List ReceiptRecord → ℕ → Bool
is_used node es rs n =
    (get_or es n no_entry).node == node
    && is_active (get_or es n no_entry).state
    && not ((get_or rs n no_receipt_record).receipt.counter == 0)

abbrev pub through_of : List ReceiptRecord → ℕ → ℕ
through_of rs n = (get_or rs n no_receipt_record).through

-- The slot of such an entry whose receipt reaches as far in the queue as any other's.
pub record IsLastUsed (node : ℕ) (es : List Entry) (rs : List ReceiptRecord) (k : ℕ) : Type 0 where
  pub used : is_used node es rs k ≡ true
  pub latest : (n : ℕ) → is_used node es rs n ≡ true → through_of rs n ≤ through_of rs k

-- What the search leaves, from a best so far.
record IsUnused (node : ℕ) (keep : Option (ℕ × ℕ)) (es : List Entry) (rs : List ReceiptRecord)
    (res : Option (ℕ × ℕ)) : Type 0 where
  no_result : res ≡ none
  no_keep : keep ≡ none
  none_used : (n : ℕ) → is_used node es rs n ≡ false

record IsBest (node i : ℕ) (keep : Option (ℕ × ℕ)) (es : List Entry) (rs : List ReceiptRecord)
    (res : Option (ℕ × ℕ)) : Type 0 where
  index : ℕ
  best : ℕ
  result : res ≡ some (index, best)
  origin :
      (keep ≡ some (index, best))
      ⊎ ((n : ℕ) × (index ≡ i + n) × (is_used node es rs n ≡ true) × (through_of rs n ≡ best))
  over : (n : ℕ) → is_used node es rs n ≡ true → through_of rs n ≤ best
  over_keep : (j b : ℕ) → keep ≡ some (j, b) → b ≤ best

abbrev Outcome : ℕ → ℕ → Option (ℕ × ℕ) → List Entry → List ReceiptRecord → Option (ℕ × ℕ) → Type 0
Outcome node i keep es rs res = IsUnused node keep es rs res ⊎ IsBest node i keep es rs res

-- One round of the search.
abbrev next_keep : ℕ → ℕ → Option (ℕ × ℕ) → Entry → ReceiptRecord → Option (ℕ × ℕ)
next_keep node i keep e r =
    if not (e.node == node) || not (is_active e.state) || r.receipt.counter == 0
    then keep
    else elim keep [
      | none ↦ some (i, r.through)
      | some (j, best) ↦ if ltb best r.through then some (i, r.through) else some (j, best)
    ]

abbrev heads : ℕ → Entry → ReceiptRecord → Bool
heads node e r = e.node == node && is_active e.state && not (r.receipt.counter == 0)

record IsRound (node i : ℕ) (keep : Option (ℕ × ℕ)) (e : Entry) (r : ReceiptRecord)
    (next : Option (ℕ × ℕ)) : Type 0 where
  from :
      (k b : ℕ)
      → next ≡ some (k, b)
      → (keep ≡ some (k, b)) ⊎ ((k ≡ i) × (b ≡ r.through) × (heads node e r ≡ true))
  kept : (j b : ℕ) → keep ≡ some (j, b) → (j' : ℕ) × (b' : ℕ) × (next ≡ some (j', b')) × (b ≤ b')
  counted : heads node e r ≡ true → (j' : ℕ) × (b' : ℕ) × (next ≡ some (j', b')) × (r.through ≤ b')

pair_eq : (j b k d : ℕ) → ◌≡◌ {A = Option (ℕ × ℕ)} (some (j, b)) (some (k, d)) → (j ≡ k) × (b ≡ d)
pair_eq j b k d e = (ground (arith, e), ground (arith, e))

next_keep-IsRound :
    (node i : ℕ) (keep : Option (ℕ × ℕ)) (e : Entry) (r : ReceiptRecord)
    → IsRound node i keep e r (next_keep node i keep e r)
next_keep-IsRound node i keep e r =
    elim (Bool-cases (not (e.node == node) || not (is_active e.state) || r.receipt.counter == 0)) [
      | inl other ↦ rw other (record {
        from = λ k b h. inl h;
        kept = λ j b h. (j, b, h, omega arith);
        counted = λ h. absurd (ground (arith, other, h));
      })
      | inr own ↦ rw own (taken keep (ground (arith, own)))
    ]
  where
    taken :
        (keep' : Option (ℕ × ℕ))
        → heads node e r ≡ true
        → IsRound node i keep' e r (elim keep' [
          | none ↦ some (i, r.through)
          | some (j, best) ↦ if ltb best r.through then some (i, r.through) else some (j, best)
        ])
    taken none used = record {
      from =
          λ k b h. inr (sym (pair_eq i r.through k b h).0, sym (pair_eq i r.through k b h).1, used);
      kept = λ j b h. absurd (ground (arith, h));
      counted = λ h. (i, r.through, refl, omega arith);
    }
    taken (some (j, best)) used = elim (Bool-cases (ltb best r.through)) [
      | inl more ↦ rw more (record {
        from = λ k b h.
            inr (sym (pair_eq i r.through k b h).0, sym (pair_eq i r.through k b h).1, used);
        kept = λ k b h. (i, r.through, refl, ground (arith, more, (pair_eq j best k b h).1));
        counted = λ h. (i, r.through, refl, omega arith);
      })
      | inr less ↦ rw less (record {
        from = λ k b h. inl h;
        kept = λ k b h. (k, b, h, omega arith);
        counted = λ h. (j, best, refl, ground (arith, less));
      })
    ]

nothing_used : (node : ℕ) (es : List Entry) (n : ℕ) → is_used node es [] n ≡ false
nothing_used node es n = ground arith

combine-IsUnused :
    (node i : ℕ) (keep next res : Option (ℕ × ℕ)) (e : Entry) (es : List Entry) (r : ReceiptRecord)
    (rs : List ReceiptRecord)
    → IsRound node i keep e r next
    → IsUnused node next es rs res
    → IsUnused node keep (e ∷ es) (r ∷ rs) res
combine-IsUnused node i keep next res e es r rs step u = record {
  no_result = u.no_result;
  no_keep = elim (Option-cases keep) [
    | inl h ↦ h
    | inr ((j, b), h) ↦
        let (j', b', h', low) = step.kept j b h in absurd (ground (arith, h', u.no_keep))
  ];
  none_used = head_or_tail;
}
  where
    head_or_tail : (n : ℕ) → is_used node (e ∷ es) (r ∷ rs) n ≡ false
    head_or_tail zero = elim (Bool-cases (heads node e r)) [
      | inl h ↦ let (j', b', h', low) = step.counted h in absurd (ground (arith, h', u.no_keep))
      | inr h ↦ h
    ]
    head_or_tail (suc n) = u.none_used n

combine-IsBest :
    (node i : ℕ) (keep next res : Option (ℕ × ℕ)) (e : Entry) (es : List Entry) (r : ReceiptRecord)
    (rs : List ReceiptRecord)
    → IsRound node i keep e r next
    → IsBest node (suc i) next es rs res
    → IsBest node i keep (e ∷ es) (r ∷ rs) res
combine-IsBest node i keep next res e es r rs step u = record {
  index = u.index;
  best = u.best;
  result = u.result;
  origin = elim u.origin [
    | inl h ↦ elim (step.from u.index u.best h) [
      | inl k ↦ inl k
      | inr (a, b, used) ↦ inr (0, omega (arith, a), used, sym b)
    ]
    | inr (n, a, used, b) ↦ inr (suc n, omega (arith, a), used, b)
  ];
  over = head_or_tail;
  over_keep =
      λ j b h. let (j', b', h', low) = step.kept j b h in omega (arith, low, u.over_keep j' b' h');
}
  where
    head_or_tail :
        (n : ℕ) → is_used node (e ∷ es) (r ∷ rs) n ≡ true → through_of (r ∷ rs) n ≤ u.best
    head_or_tail zero h =
        let (j', b', h', low) = step.counted h in omega (arith, low, u.over_keep j' b' h')
    head_or_tail (suc n) h = u.over n h

stopped :
    (node i : ℕ) (keep : Option (ℕ × ℕ)) (es : List Entry) (rs : List ReceiptRecord)
    → ((n : ℕ) → is_used node es rs n ≡ false)
    → Outcome node i keep es rs keep
stopped node i none es rs h = inl (record { no_result = refl; no_keep = refl; none_used = h })
stopped node i (some (k, b)) es rs h = inr (record {
  index = k;
  best = b;
  result = refl;
  origin = inl refl;
  over = λ n u. absurd (ground (arith, u, h n));
  over_keep = λ j d e. ground (arith, (pair_eq k b j d e).1);
})

last_used-Outcome :
    (node i : ℕ) (keep : Option (ℕ × ℕ)) (es : List Entry) (rs : List ReceiptRecord)
    → Outcome node i keep es rs (last_used node i keep es rs)
unfolding last_used
last_used-Outcome node i keep [] rs = stopped node i keep [] rs (λ n. ground arith)
last_used-Outcome node i keep (e ∷ es) [] =
    stopped node i keep (e ∷ es) [] (nothing_used node (e ∷ es))
last_used-Outcome node i keep (e ∷ es) (r ∷ rs) =
    let next = next_keep node i keep e r in
    let step = next_keep-IsRound node i keep e r in
    elim (last_used-Outcome node (suc i) next es rs) [
      | inl u ↦ inl (combine-IsUnused node i keep next _ e es r rs step u)
      | inr u ↦ inr (combine-IsBest node i keep next _ e es r rs step u)
    ]

-- The search from the first slot finds the entry that was used last, and finds none only where no
-- active entry of the node has a receipt.
pub last_used-IsLastUsed :
    (node : ℕ) (es : List Entry) (rs : List ReceiptRecord)
    → ((last_used node 0 none es rs ≡ none) × ((n : ℕ) → is_used node es rs n ≡ false))
      ⊎ ((k : ℕ) × (best : ℕ) × (last_used node 0 none es rs ≡ some (k, best))
          × IsLastUsed node es rs k)
last_used-IsLastUsed node es rs = elim (last_used-Outcome node 0 none es rs) [
  | inl u ↦ inl (u.no_result, u.none_used)
  | inr u ↦ elim u.origin [
    | inl h ↦ absurd (ground (arith, h))
    | inr (n, a, used, b) ↦
        let same : u.index ≡ n = omega (arith, a) in
        inr (
          n,
          u.best,
          u.result ∙ ap (λ (k : ℕ). some (k, u.best)) same,
          record { used = used; latest = λ m h. omega (arith, b, u.over m h) },
        )
  ]
]
