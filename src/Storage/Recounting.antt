-- ===== src/Storage/Recounting.antt =====
-- The registry that `reserve` stores, against the rules of a registry.
use cajui_firmware.Base.{
  ℕ, zero, suc, ◌+◌, ◌-◌, ◌^◌, ◌<◌, ◌≡◌, ◌≢◌, refl, sym, ap, ◌∙◌, true, List, [], ◌∷◌, arith, inl,
  inr, length, get_or, set, All, map,
}
use cajui_firmware.Protocol.{Binding}
use cajui_firmware.Protocol.Crypto.{Crypto}
use cajui_firmware.Records.{Role, is_active, Entry, no_entry, Registry, RetiredList}
use cajui_firmware.Records.Enrollments.{occupied}
use cajui_firmware.Records.Registries.{bad_entry, bad_head}
use cajui_firmware.Records.EntryReadBack.{IsOccupied, IsEntry}
use cajui_firmware.Records.RegistryReadBack.{IsRegistry}
use cajui_firmware.Records.Validation.{
  excludes, bad_print, any_excludes, active_others, too_many_active, bad_rules, any_bad,
}
use cajui_firmware.Storage.{entry_at, is_authority}
use cajui_firmware.Storage.Sampling.{count_up}
use cajui_firmware.Storage.Counters.{count_up_self}

-- The rules of `validate` do not read the counters.
abbrev uncounted : Entry → Entry
uncounted e = record e { counter = 0 }

any_excludes-uncounted :
    (i j : ℕ) (e : Entry) (es : List Entry)
    → any_excludes i (uncounted e) j (map uncounted es) ≡ any_excludes i e j es
unfolding any_excludes excludes
any_excludes-uncounted i j e [] = refl
any_excludes-uncounted i j e (x ∷ es) = rw (any_excludes-uncounted i (suc j) e es) refl

active_others-uncounted :
    (i j : ℕ) (e : Entry) (es : List Entry)
    → active_others i (uncounted e) j (map uncounted es) ≡ active_others i e j es
unfolding active_others
active_others-uncounted i j e [] = refl
active_others-uncounted i j e (x ∷ es) = rw (active_others-uncounted i (suc j) e es) refl

any_bad-uncounted :
    (c : Crypto) (role : Role) (list : RetiredList) (all : List Entry) (i : ℕ) (es : List Entry)
    → any_bad c role list (map uncounted all) i (map uncounted es) ≡ any_bad c role list all i es
unfolding any_bad bad_rules too_many_active bad_print
any_bad-uncounted c role list all i [] = refl
any_bad-uncounted c role list all i (e ∷ es) =
    rw
      (
        any_excludes-uncounted i 0 e all,
        active_others-uncounted i 0 e all,
        any_bad-uncounted c role list all (suc i) es,
      )
      refl

uncounted-set :
    (es : List Entry) (i n : ℕ)
    → map uncounted (set es i (record (get_or es i no_entry) { counter = n })) ≡ map uncounted es
uncounted-set [] i n = refl
uncounted-set (e ∷ es) zero n = refl
uncounted-set (e ∷ es) (suc i) n = ap (◌∷◌ (uncounted e)) (uncounted-set es i n)

pub any_bad-count_up :
    (c : Crypto) (role : Role) (list : RetiredList) (es : List Entry) (i : ℕ)
    → any_bad c role list (count_up es i) 0 (count_up es i) ≡ any_bad c role list es 0 es
unfolding count_up
any_bad-count_up c role list es i =
    let same = uncounted-set es i ((get_or es i no_entry).counter + 1) in
    sym (any_bad-uncounted c role list (count_up es i) 0 (count_up es i))
    ∙ rw same (any_bad-uncounted c role list es 0 es)

occupied-count_up : (es : List Entry) (i : ℕ) → occupied (count_up es i) ≡ occupied es
unfolding occupied count_up
occupied-count_up [] i = refl
occupied-count_up (e ∷ es) zero = refl
occupied-count_up (e ∷ es) (suc i) = rw (occupied-count_up es i) refl

length-count_up : (es : List Entry) (i : ℕ) → length (count_up es i) ≡ length es
unfolding count_up
length-count_up [] i = refl
length-count_up (e ∷ es) zero = refl
length-count_up (e ∷ es) (suc i) = omega (arith, length-count_up es i)

counted-IsOccupied :
    (device receiver : ℕ) (e : Entry)
    → is_active e.state ≡ true
    → e.counter < 2 ^ 64 - 1
    → IsEntry Role.transmitter device receiver e
    → IsOccupied Role.transmitter device receiver (record e { counter = e.counter + 1 })
unfolding bad_entry
counted-IsOccupied device receiver e live below (inl blank) =
    absurd (ground (arith, ap (λ (x : Entry). x.state) blank))
counted-IsOccupied device receiver e live below (inr w) = record {
  occupied_state = w.occupied_state;
  node_fits = w.node_fits;
  generation_fits = w.generation_fits;
  counter_fits = omega (arith, below);
  key_sized = w.key_sized;
  allowed = ground (arith, w.allowed);
}

count_up-fit :
    (device receiver : ℕ) (es : List Entry) (i : ℕ)
    → is_active (get_or es i no_entry).state ≡ true
    → (get_or es i no_entry).counter < 2 ^ 64 - 1
    → All (IsEntry Role.transmitter device receiver) es
    → All (IsEntry Role.transmitter device receiver) (count_up es i)
unfolding count_up
count_up-fit device receiver [] i live below w = tt
count_up-fit device receiver (e ∷ es) zero live below w =
    (inr (counted-IsOccupied device receiver e live below w.0), w.1)
count_up-fit device receiver (e ∷ es) (suc i) live below w =
    (w.0, count_up-fit device receiver es i live below w.1)

counter_at-lt :
    (device receiver : ℕ) (es : List Entry) (i : ℕ)
    → All (IsEntry Role.transmitter device receiver) es
    → (get_or es i no_entry).counter < 2 ^ 64
counter_at-lt device receiver [] i w = omega arith
counter_at-lt device receiver (e ∷ es) zero w = elim w.0 [
  | inl blank ↦ omega (arith, ap (λ (x : Entry). x.counter) blank)
  | inr held ↦ held.counter_fits
]
counter_at-lt device receiver (e ∷ es) (suc i) w = counter_at-lt device receiver es i w.1

-- The registry that `reserve` stores.
abbrev pub counted : ℕ → Registry → Registry
counted i g = record g { entries = count_up g.entries i; revision = g.revision + 1 }

pub counted-IsRegistry :
    (device : ℕ) (g : Registry) (i : ℕ)
    → is_active (entry_at g i).state ≡ true
    → (entry_at g i).counter ≢ 2 ^ 64 - 1
    → g.revision ≢ 2 ^ 64 - 1
    → IsRegistry Role.transmitter device g
    → IsRegistry Role.transmitter device (counted i g)
unfolding bad_head
counted-IsRegistry device g i live room below w = record {
  device_fits = w.device_fits;
  revision_fits = omega (arith, below, w.revision_fits);
  network_fits = w.network_fits;
  receiver_fits = w.receiver_fits;
  profile_fits = w.profile_fits;
  entries_sized = length-count_up g.entries i ∙ w.entries_sized;
  entries_fit =
      count_up-fit device g.receiver g.entries i live
        (omega (arith, room, counter_at-lt device g.receiver g.entries i w.entries_fit))
        w.entries_fit;
  head_fits = rw (occupied-count_up g.entries i) (ground (arith, w.head_fits));
}

pub active_of : (b : Binding) (e : Entry) → is_authority b e ≡ true → is_active e.state ≡ true
unfolding is_authority
active_of b e h = ground arith

pub counter_next :
    (es fs : List Entry) (i j : ℕ)
    → fs ≡ count_up es i
    → j ≡ i
    → i < length es
    → (get_or fs j no_entry).counter ≡ (get_or es i no_entry).counter + 1
counter_next es fs i j e same h = rw (e, same) (count_up_self es i h)
