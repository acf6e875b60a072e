-- ===== src/Net/Arp/Slot.antt =====
-- Which slot of the table the search of arp_add_entry in src/network/arp.c takes.
use cgos.Base.{
  ℕ, zero, suc, ◌+◌, ◌<◌, ◌≤◌, ◌≡◌, inl, inr, refl, sym, ap, subst, ◌∙◌, Bool, true, false, not,
  List, [], ◌∷◌, arith, ltb, if◌then◌else◌, get_elem?, Option, some, Bool-cases, tests,
}
use cgos.Net.Arp.{Entry, find_slot}

-- Every entry is in use and no older than `time`.
abbrev pub Fresh : ℕ → List Entry → Type 0
Fresh time [] = Unit
Fresh time (e ∷ es) = (e.valid ≡ true) × (time ≤ e.timestamp) × Fresh time es

-- The first `s` entries are in use.
abbrev pub Full : ℕ → List Entry → Type 0
Full zero es = Unit
Full (suc s) [] = Unit
Full (suc s) (e ∷ es) = (e.valid ≡ true) × Full s es

-- The slot for a new entry: the first empty one, or, with none empty, one whose entry is older
-- than `time` and no younger than any; or none, if all entries are in use and none is older.
pub data Slot (es : List Entry) (i time : ℕ) (before r : Option ℕ) : Type 0 where
  empty :
      (s : ℕ) (e : Entry)
      → r ≡ some (i + s)
      → get_elem? es s ≡ some e
      → e.valid ≡ false
      → Full s es
      → Slot es i time before r
  oldest :
      (s : ℕ) (e : Entry)
      → r ≡ some (i + s)
      → get_elem? es s ≡ some e
      → e.timestamp < time
      → Fresh e.timestamp es
      → Slot es i time before r
  nowhere : r ≡ before → Fresh time es → Slot es i time before r

-- An entry in use in front: it is older than the one to beat, or not.
older-Slot :
    (e : Entry) (es : List Entry) (i time : ℕ) (before r : Option ℕ)
    → e.valid ≡ true
    → e.timestamp < time
    → Slot es (i + 1) e.timestamp (some i) r
    → Slot (e ∷ es) i time before r
older-Slot e es i time before r v lt (empty s f same at free full) =
    empty (suc s) f (same ∙ ap some (omega arith)) at free (v, full)
older-Slot e es i time before r v lt (oldest s f same at lt' fresh) =
    oldest (suc s) f (same ∙ ap some (omega arith)) at (omega arith) (v, omega arith, fresh)
older-Slot e es i time before r v lt (nowhere same fresh) =
    oldest 0 e (same ∙ ap some (omega arith)) refl lt (v, omega arith, fresh)

younger-Slot :
    (e : Entry) (es : List Entry) (i time : ℕ) (before r : Option ℕ)
    → e.valid ≡ true
    → time ≤ e.timestamp
    → Slot es (i + 1) time before r
    → Slot (e ∷ es) i time before r
younger-Slot e es i time before r v le (empty s f same at free full) =
    empty (suc s) f (same ∙ ap some (omega arith)) at free (v, full)
younger-Slot e es i time before r v le (oldest s f same at lt fresh) =
    oldest (suc s) f (same ∙ ap some (omega arith)) at lt (v, omega arith, fresh)
younger-Slot e es i time before r v le (nowhere same fresh) = nowhere same (v, le, fresh)

not_lt : (a b : ℕ) → ltb a b ≡ false → b ≤ a
not_lt a b h = ground arith

-- The search of arp_add_entry finds the first empty entry, or else the oldest one that is older
-- than now, and fails only when the table is full of entries with the current time or later.
pub find_slot-Slot :
    (es : List Entry) (i : ℕ) (before : Option ℕ) (time : ℕ)
    → Slot es i time before (find_slot es i before time)
unfolding find_slot
find_slot-Slot [] i before time = nowhere refl tt
find_slot-Slot (e ∷ es) i before time = elim (Bool-cases e.valid) [
  | inl v ↦ elim (Bool-cases (ltb e.timestamp time)) [
    | inl o ↦
        subst (λ (b : Bool × Bool). Slot (e ∷ es) i time before (picked b.0 b.1)) (sym (both v o))
          (older-Slot e es i time before (picked true true) v (omega (tests, o))
            (find_slot-Slot es (i + 1) (some i) e.timestamp))
    | inr o ↦
        subst (λ (b : Bool × Bool). Slot (e ∷ es) i time before (picked b.0 b.1)) (sym (both v o))
          (younger-Slot e es i time before (picked true false) v (not_lt e.timestamp time o)
            (find_slot-Slot es (i + 1) before time))
  ]
  | inr v ↦
      subst (λ b. Slot (e ∷ es) i time before (picked b (ltb e.timestamp time))) (sym v)
        (empty 0 e (ap some (omega arith)) refl v tt)
]
  where
    picked : Bool → Bool → Option ℕ
    picked b o =
        if not b
        then some i
        else find_slot es (i + 1) (if o then some i else before) (if o then e.timestamp else time)

    both :
        {b o : Bool}
        → e.valid ≡ b
        → ltb e.timestamp time ≡ o
        → ◌≡◌ {A = Bool × Bool} (e.valid, ltb e.timestamp time) (b, o)
    both v o = λ i. (v i, o i)
