-- ===== src/Sched/Sleep/Chain.antt =====
-- What the sleep queue holds, and the insertion into it.
use cgos.Base.{
  ℕ, zero, suc, ◌≤◌, ◌≡◌, ◌≢◌, inl, inr, refl, sym, subst, ◌∙◌, true, false, Option, none, some,
  List, [], ◌∷◌, arith, ◌==◌, ltb, leb, if◌then◌else◌, length, ◌||◌, Bool-cases,
}
use cgos.Sched.Thread.{Thread}
use cgos.Sched.Ready.Linked.{occurs, Distinct, ne_of_occurs}
use cgos.Sched.Sleep.{find_prev, link_after}

abbrev pub Chain : (ℕ → Thread) → Option ℕ → List ℕ → Type 0
Chain th head [] = head ≡ none
Chain th head (x ∷ xs) = (head ≡ some x) × Chain th (th x).next xs

-- In the order of the wake times.
abbrev pub IsTimed : (ℕ → ℕ) → List ℕ → Type 0
IsTimed wake [] = Unit
IsTimed wake (x ∷ []) = Unit
IsTimed wake (x ∷ y ∷ ys) = (wake x ≤ wake y) × IsTimed wake (y ∷ ys)

-- The place of a new sleeper: behind those that wake no later.
abbrev pub insert : (ℕ → ℕ) → ℕ → List ℕ → List ℕ
insert wake x [] = x ∷ []
insert wake x (y ∷ ys) = if ltb (wake x) (wake y) then x ∷ y ∷ ys else y ∷ insert wake x ys

module _ (th th' : ℕ → Thread) where
  pub Chain-frame :
      (head : Option ℕ) (xs : List ℕ)
      → ((x : ℕ) → occurs x xs ≡ true → (th' x).next ≡ (th x).next)
      → Chain th head xs
      → Chain th' head xs
  Chain-frame head [] same c = c
  Chain-frame head (x ∷ xs) same c = (
    c.0,
    rw (same x (ground arith)) (Chain-frame (th x).next xs (λ y h. same y (ground (arith, h))) c.1),
  )

pub occurs-insert :
    (wake : ℕ → ℕ) (x z : ℕ) (xs : List ℕ) → occurs z (insert wake x xs) ≡ ((x == z) || occurs z xs)
occurs-insert wake x z [] = ground arith
occurs-insert wake x z (y ∷ ys) = ground (arith, occurs-insert wake x z ys)

pub Distinct-insert :
    (wake : ℕ → ℕ) (x : ℕ) (xs : List ℕ)
    → Distinct xs
    → occurs x xs ≡ false
    → Distinct (insert wake x xs)
Distinct-insert wake x [] d o = (refl, tt)
Distinct-insert wake x (y ∷ ys) d o = elim (Bool-cases (ltb (wake x) (wake y))) [
  | inl e ↦ rw e (o, d)
  | inr e ↦
      rw e (
        ground (arith, occurs-insert wake x y ys, d.0),
        Distinct-insert wake x ys d.1 (ground arith),
      )
]

pub length-insert :
    (wake : ℕ → ℕ) (x : ℕ) (xs : List ℕ) → length (insert wake x xs) ≡ suc (length xs)
length-insert wake x [] = refl
length-insert wake x (y ∷ ys) = ground (arith, length-insert wake x ys)

IsTimed-insert_behind :
    (wake : ℕ → ℕ) (x y : ℕ) (ys : List ℕ)
    → wake y ≤ wake x
    → IsTimed wake (y ∷ ys)
    → IsTimed wake (y ∷ insert wake x ys)
IsTimed-insert_behind wake x y [] le t = (le, tt)
IsTimed-insert_behind wake x y (z ∷ zs) le t = elim (Bool-cases (ltb (wake x) (wake z))) [
  | inl e ↦ rw e (le, (ground arith, t.1))
  | inr e ↦ rw e (t.0, IsTimed-insert_behind wake x z zs (ground arith) t.1)
]

pub IsTimed-insert :
    (wake : ℕ → ℕ) (x : ℕ) (xs : List ℕ) → IsTimed wake xs → IsTimed wake (insert wake x xs)
IsTimed-insert wake x [] t = tt
IsTimed-insert wake x (y ∷ ys) t = elim (Bool-cases (ltb (wake x) (wake y))) [
  | inl e ↦ rw e (ground arith, t)
  | inr e ↦ rw e (IsTimed-insert_behind wake x y ys (ground arith) t)
]

find_prev-step :
    (f : ℕ) (th : ℕ → Thread) (y w z : ℕ)
    → (th y).next ≡ some z
    → find_prev (suc f) th y w ≡ (if leb (th z).wake_time w then find_prev f th z w else y)
unfolding find_prev
find_prev-step f th y w z e = rw (e, find_prev) (ground arith)

find_prev-zero : (th : ℕ → Thread) (y w : ℕ) → find_prev zero th y w ≡ y
unfolding find_prev
find_prev-zero th y w = refl

find_prev-end : (f : ℕ) (th : ℕ → Thread) (y w : ℕ) → (th y).next ≡ none → find_prev f th y w ≡ y
unfolding find_prev
find_prev-end zero th y w e = refl
find_prev-end (suc f) th y w e = rw (e, find_prev)

-- The search ends at a thread of the chain.
find_prev-in :
    (f : ℕ) (th : ℕ → Thread) (y w : ℕ) (ys : List ℕ)
    → Chain th (th y).next ys
    → occurs (find_prev f th y w) (y ∷ ys) ≡ true
find_prev-in f th y w [] c = rw (find_prev-end f th y w c) (ground arith)
find_prev-in zero th y w (z ∷ zs) c = rw (find_prev-zero th y w) (ground arith)
find_prev-in (suc f) th y w (z ∷ zs) c = elim (Bool-cases (leb (th z).wake_time w)) [
  | inl e ↦
      let r : find_prev (suc f) th y w ≡ find_prev f th z w =
        find_prev-step f th y w z c.0 ∙ rw e in
      subst (λ k. occurs k (y ∷ z ∷ zs) ≡ true) (sym r)
        (ground (arith, find_prev-in f th z w zs c.1))
  | inr e ↦
      let r : find_prev (suc f) th y w ≡ y = find_prev-step f th y w z c.0 ∙ rw e in
      subst (λ k. occurs k (y ∷ z ∷ zs) ≡ true) (sym r) (ground arith)
]

module _ (th : ℕ → Thread) (t : ℕ) where
  abbrev wake : ℕ → ℕ
  wake x = (th x).wake_time

  linked_after :
      (p x : ℕ)
      → p ≢ t
      → (link_after th p t x).next
        ≡ (if p == x then some t else if t == x then (th p).next else (th x).next)
  unfolding link_after
  linked_after p x ne = ground arith

  -- Behind the thread that the search finds, the new sleeper stands in its place.
  pub Chain-after :
      (f y : ℕ) (ys : List ℕ)
      → length ys ≤ f
      → occurs t (y ∷ ys) ≡ false
      → Distinct (y ∷ ys)
      → Chain th (th y).next ys
      → Chain
          (link_after th (find_prev f th y (wake t)) t)
          (link_after th (find_prev f th y (wake t)) t y).next
          (insert wake t ys)
  Chain-after f y [] le o d c =
      let ne : y ≢ t = ground arith in
      rw (find_prev-end f th y (wake t) c, linked_after y y ne, linked_after y t ne)
        (ground arith, ground (arith, c))
  Chain-after zero y (z ∷ zs) le o d c = absurd (omega arith)
  Chain-after (suc f) y (z ∷ zs) le o d c = elim (Bool-cases (leb (wake z) (wake t))) [
    | inl e ↦
        let p : ℕ = find_prev f th z (wake t) in
        let inside = find_prev-in f th z (wake t) zs c.1 in
        let pt : p ≢ t = ne_of_occurs p t (z ∷ zs) inside (ground arith) in
        let py : p ≢ y = ne_of_occurs p y (z ∷ zs) inside d.0 in
        let behind : ltb (wake t) (wake z) ≡ false = ground arith in
        rw (find_prev-step f th y (wake t) z c.0, e, behind)
          (
            linked_after p y pt ∙ ground (arith, c.0),
            Chain-after f z zs (omega arith) (ground arith) d.1 c.1,
          )
    | inr e ↦
        let yt : y ≢ t = ground arith in
        let before : ltb (wake t) (wake z) ≡ true = ground arith in
        rw (find_prev-step f th y (wake t) z c.0, e, before)
          (
            linked_after y y yt ∙ ground arith,
            (
              linked_after y t yt ∙ ground (arith, c.0),
              (Chain-frame th (link_after th y t) (some z) (z ∷ zs)
                  (λ x h.
                    let xy : x ≢ y = ne_of_occurs x y (z ∷ zs) h d.0 in
                    let xt : x ≢ t = ne_of_occurs x t (z ∷ zs) h (ground arith) in
                    linked_after y x yt ∙ ground arith)
                  (refl, c.1)).1,
            ),
          )
  ]
