-- ===== src/Sched/Ready/Linked.antt =====
-- When a chain of control blocks holds a list of threads, and how a chain grows and shrinks.
use cgos.Base.{
  ℕ, ◌≡◌, ◌≢◌, refl, sym, subst, ◌∙◌, Bool, true, false, ◌||◌, Option, none, some, List, [], ◌∷◌,
  ◌++◌, arith, ◌==◌, if◌then◌else◌, ℕ_discrete,
}
use cgos.Sched.Thread.{Thread}
use cgos.Sched.State.{points_to, if_null}

abbrev pub occurs : ℕ → List ℕ → Bool
occurs x [] = false
occurs x (y ∷ ys) = y == x || occurs x ys

abbrev pub Distinct : List ℕ → Type 0
Distinct [] = Unit
Distinct (x ∷ xs) = (occurs x xs ≡ false) × Distinct xs

-- From `head` on the blocks lead through the threads of the list to `tail`; `back` is what the
-- first one's `prev` holds.
abbrev pub Linked : (ℕ → Thread) → Option ℕ → Option ℕ → Option ℕ → List ℕ → Type 0
Linked th back head tail [] = (head ≡ none) × (tail ≡ back)
Linked th back head tail (x ∷ xs) =
    (head ≡ some x) × ((th x).prev ≡ back) × Linked th (some x) (th x).next tail xs

-- The two blocks are linked alike.
abbrev pub SameLinks : Thread → Thread → Type 0
SameLinks a b = (a.next ≡ b.next) × (a.prev ≡ b.prev)

module _ (th th' : ℕ → Thread) where
  -- Writes to other threads leave a chain alone.
  pub Linked-frame :
      (back head tail : Option ℕ) (xs : List ℕ)
      → ((x : ℕ) → occurs x xs ≡ true → SameLinks (th' x) (th x))
      → Linked th back head tail xs
      → Linked th' back head tail xs
  Linked-frame back head tail [] same l = l
  Linked-frame back head tail (x ∷ xs) same l =
      let here = same x (ground arith) in
      (
        l.0,
        here.1 ∙ l.1,
        rw (here.0)
            (Linked-frame (some x) (th x).next tail xs (λ y h. same y (ground (arith, h))) l.2),
      )

-- The last thread of a chain is one of its threads.
pub Linked-last :
    (th : ℕ → Thread) (back head tail : Option ℕ) (x : ℕ) (xs : List ℕ)
    → Linked th back head tail (x ∷ xs)
    → (l : ℕ) × (tail ≡ some l) × (occurs l (x ∷ xs) ≡ true)
Linked-last th back head tail x [] l = (x, l.2.1, ground arith)
Linked-last th back head tail x (y ∷ ys) l =
    let (z, e, o) = Linked-last th (some x) (th x).next tail y ys l.2 in (z, e, ground (arith, o))

pub ne_of_occurs : (x y : ℕ) (l : List ℕ) → occurs x l ≡ true → occurs y l ≡ false → x ≢ y
ne_of_occurs x y l h k e = let h' : occurs y l ≡ true = subst (λ z. occurs z l ≡ true) e h in cc

-- A chain's `tail` is not a thread that does not occur in it.
pub Linked-tail_ne :
    (th : ℕ → Thread) (back head tail : Option ℕ) (y z : ℕ) (zs : List ℕ)
    → occurs y (z ∷ zs) ≡ false
    → Linked th back head tail (z ∷ zs)
    → points_to tail y ≡ false
Linked-tail_ne th back head tail y z zs out l =
    let (w, e, o) = Linked-last th back head tail z zs l in
    let ne = ne_of_occurs w y (z ∷ zs) o out in rw e (ground arith)

-- What appending `x` to the chain that ends at `tail` writes.
pub record IsAppended (th th' : ℕ → Thread) (tail : Option ℕ) (x : ℕ) : Type 0 where
  pub last_next : (th' x).next ≡ none
  pub last_prev : (th' x).prev ≡ tail
  pub others_prev : (y : ℕ) → y ≢ x → (th' y).prev ≡ (th y).prev
  pub others_next :
      (y : ℕ) → y ≢ x → (th' y).next ≡ (if points_to tail y then some x else (th y).next)

module _ {th th' : ℕ → Thread} {tail : Option ℕ} (x : ℕ) (w : IsAppended th th' tail x) where
  abbrev head_of : List ℕ → Option ℕ → Option ℕ
  head_of [] h = some x
  head_of (y ∷ ys) h = h

  -- The next of the thread before the chain `xs`, which ends at `tail`.
  next_before :
      (y : ℕ) (xs : List ℕ)
      → y ≢ x
      → occurs y xs ≡ false
      → Linked th (some y) (th y).next tail xs
      → (th' y).next ≡ head_of xs (th y).next
  next_before y [] ne out l = w.others_next y ne ∙ rw (l.1) (ground arith)
  next_before y (z ∷ zs) ne out l =
      w.others_next y ne ∙ rw (Linked-tail_ne th (some y) (th y).next tail y z zs out l)

  pub Linked-append :
      (back head : Option ℕ) (xs : List ℕ)
      → occurs x xs ≡ false
      → Distinct xs
      → Linked th back head tail xs
      → Linked th' back (head_of xs head) (some x) (xs ++ x ∷ [])
  Linked-append back head [] out d l = (refl, w.last_prev ∙ l.1, (w.last_next, refl))
  Linked-append back head (y ∷ ys) out d l =
      let ne : y ≢ x = ground arith in
      let out' : occurs x ys ≡ false = ground arith in
      (
        l.0,
        w.others_prev y ne ∙ l.1,
        rw (next_before y ys ne d.0 l.2) (Linked-append (some y) (th y).next ys out' d.1 l.2),
      )

-- What taking the first thread `x` off a chain writes.
pub record IsTaken (th th' : ℕ → Thread) (x : ℕ) : Type 0 where
  pub others_next : (y : ℕ) → y ≢ x → (th' y).next ≡ (th y).next
  pub others_prev :
      (y : ℕ) → y ≢ x → (th' y).prev ≡ (if points_to (th x).next y then none else (th y).prev)

pub ne_left : (x y : ℕ) (l : List ℕ) → occurs x l ≡ true → occurs y l ≡ false → y ≢ x
ne_left x y l h k e = ne_of_occurs x y l h k (sym e)

pub Linked-rest :
    {th th' : ℕ → Thread} (x : ℕ) (tail : Option ℕ) (xs : List ℕ)
    → IsTaken th th' x
    → Distinct (x ∷ xs)
    → Linked th (some x) (th x).next tail xs
    → Linked th' none (th x).next (if_null (th x).next none tail) xs
Linked-rest x tail [] w d l = (l.0, rw (l.0))
Linked-rest {th} {th'} x tail (y ∷ ys) w d l =
    let ne : y ≢ x = ground arith in
    let out : occurs x ys ≡ false = ground arith in
    let rest : Linked th' (some y) (th y).next tail ys =
      Linked-frame th th' (some y) (th y).next tail ys
        (λ z h.
          let nz = ne_of_occurs z x ys h out in
          let ny = ne_left z y ys h d.1.0 in
          (w.others_next z nz, w.others_prev z nz ∙ rw (l.0) (ground arith)))
        l.2 in
    let at_tail : if_null (th x).next none tail ≡ tail = rw (l.0) in
    (l.0, w.others_prev y ne ∙ rw (l.0) (ground arith), rw (w.others_next y ne, at_tail) rest)

-- What unlinking `x` from the middle of a chain writes.
pub record IsUnlinked (th th' : ℕ → Thread) (x : ℕ) : Type 0 where
  pub others_next :
      (y : ℕ)
      → y ≢ x
      → (th' y).next ≡ (if points_to (th x).prev y then (th x).next else (th y).next)
  pub others_prev :
      (y : ℕ)
      → y ≢ x
      → (th' y).prev ≡ (if points_to (th x).next y then (th x).prev else (th y).prev)

abbrev pub erase : ℕ → List ℕ → List ℕ
erase x [] = []
erase x (y ∷ ys) = if y == x then ys else y ∷ erase x ys

-- The thread before `x` in a chain is the one that `back` points to, or occurs in the chain.
pub Linked-prev_in :
    (th : ℕ → Thread) (back head tail : Option ℕ) (x y : ℕ) (xs : List ℕ)
    → Linked th back head tail xs
    → occurs x xs ≡ true
    → occurs y xs ≡ false
    → points_to back y ≡ false
    → points_to (th x).prev y ≡ false
Linked-prev_in th back head tail x y [] l h out b = absurd (cc)
Linked-prev_in th back head tail x y (z ∷ zs) l h out b = elim (ℕ_discrete z x) [
  | yes p ↦ let here : (th x).prev ≡ back = subst (λ k. (th k).prev ≡ back) p l.1 in rw here b
  | no p ↦
      Linked-prev_in th (some z) (th z).next tail x y zs l.2 (ground arith) (ground arith)
        (ground arith)
]

-- The thread behind `x` occurs in the chain, behind its first thread.
pub Linked-next_in :
    (th : ℕ → Thread) (back head tail : Option ℕ) (x y : ℕ) (xs : List ℕ)
    → Linked th back head tail xs
    → occurs x xs ≡ true
    → occurs y xs ≡ false
    → points_to (th x).next y ≡ false
Linked-next_in th back head tail x y [] l h out = absurd (cc)
Linked-next_in th back head tail x y (z ∷ []) l h out =
    let p : z ≡ x = ground arith in rw (subst (λ k. (th k).next ≡ none) p l.2.0)
Linked-next_in th back head tail x y (z ∷ w ∷ zs) l h out = elim (ℕ_discrete z x) [
  | yes p ↦
      let nxt : (th x).next ≡ some w = subst (λ k. (th k).next ≡ some w) p l.2.0 in
      rw nxt (ground arith)
  | no p ↦
      Linked-next_in th (some z) (th z).next tail x y (w ∷ zs) l.2 (ground arith) (ground arith)
]
