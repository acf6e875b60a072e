-- ===== src/Sched/Ready/Erase.antt =====
-- Unlinking a thread from the middle of a chain.
use cgos.Base.{
  ℕ, ◌≡◌, ◌≢◌, ap, subst, ◌∙◌, true, false, Option, some, List, [], ◌∷◌, arith, ◌==◌, if◌then◌else◌,
  ℕ_discrete,
}
use cgos.Sched.Thread.{Thread}
use cgos.Sched.State.{points_to, if_null}
use cgos.Sched.Ready.Linked.{
  occurs, Distinct, Linked, Linked-frame, ne_of_occurs, ne_left, IsUnlinked, erase, Linked-prev_in,
  Linked-next_in,
}

-- The pointer before a chain points into it.
abbrev pub IsOutside : Option ℕ → List ℕ → Type 0
IsOutside back xs = (z : ℕ) → occurs z xs ≡ true → points_to back z ≡ false

module _ {th th' : ℕ → Thread} (x : ℕ) (w : IsUnlinked th th' x) where
  -- `x` is the first thread of the chain.
  relink :
      (back tail : Option ℕ) (ys : List ℕ)
      → Distinct (x ∷ ys)
      → (th x).prev ≡ back
      → IsOutside back ys
      → Linked th (some x) (th x).next tail ys
      → Linked th' back (th x).next (if_null (th x).next (th x).prev tail) ys
  relink back tail [] d e out l = (l.0, rw (l.0) e)
  relink back tail (y ∷ ys) d e out l =
      let ne : y ≢ x = ground arith in
      let x_out : occurs x ys ≡ false = ground arith in
      let out_y : points_to (th x).prev y ≡ false = rw e (out y (ground arith)) in
      let rest : Linked th' (some y) (th y).next tail ys =
        Linked-frame th th' (some y) (th y).next tail ys
          (λ z h.
            let nz = ne_of_occurs z x ys h x_out in
            let ny = ne_left z y ys h d.1.0 in
            let out_z : points_to (th x).prev z ≡ false = rw e (out z (ground (arith, h))) in
            (w.others_next z nz ∙ rw out_z, w.others_prev z nz ∙ rw (l.0) (ground arith)))
          l.2 in
      let next_y : (th' y).next ≡ (th y).next = w.others_next y ne ∙ rw out_y in
      let at_tail : if_null (th x).next (th x).prev tail ≡ tail = rw (l.0) in
      (l.0, w.others_prev y ne ∙ rw (l.0) (ground arith), rw (next_y, at_tail) rest)

  -- The `next` of the thread `y` before the rest `ys` of the chain.
  next_over :
      (y : ℕ) (tail : Option ℕ) (ys : List ℕ)
      → y ≢ x
      → occurs y ys ≡ false
      → occurs x ys ≡ true
      → Linked th (some y) (th y).next tail ys
      → (th' y).next ≡ (if points_to (th y).next x then (th x).next else (th y).next)
  next_over y tail [] ne out h l = absurd (cc)
  next_over y tail (z ∷ zs) ne out h l = elim (ℕ_discrete z x) [
    | yes p ↦
        let before : (th x).prev ≡ some y = subst (λ k. (th k).prev ≡ some y) p l.1 in
        w.others_next y ne ∙ rw (before, l.0) (ground arith)
    | no p ↦
        let away : points_to (th x).prev y ≡ false =
          Linked-prev_in th (some z) (th z).next tail x y zs l.2 (ground arith) (ground arith)
            (ground arith) in
        w.others_next y ne ∙ rw (away, l.0) (ground arith)
  ]

  pub Linked-erase :
      (back head tail : Option ℕ) (xs : List ℕ)
      → Distinct xs
      → occurs x xs ≡ true
      → IsOutside back xs
      → Linked th back head tail xs
      → Linked th' back
          (if points_to head x then (th x).next else head)
          (if_null (th x).next (th x).prev tail)
          (erase x xs)
  Linked-erase back head tail [] d h out l = absurd (cc)
  Linked-erase back head tail (y ∷ ys) d h out l = elim (ℕ_discrete y x) [
    | yes p ↦
        let d' : Distinct (x ∷ ys) = subst (λ k. Distinct (k ∷ ys)) p d in
        let e : (th x).prev ≡ back = subst (λ k. (th k).prev ≡ back) p l.1 in
        let l' : Linked th (some x) (th x).next tail ys =
          subst (λ k. Linked th (some k) (th k).next tail ys) p l.2 in
        let first : head ≡ some x = l.0 ∙ ap some p in
        let same : (x == x) ≡ true = ground arith in
        let gone : (y == x) ≡ true = ground arith in
        rw (gone, first, same) (relink back tail ys d' e (λ z hz. out z (ground (arith, hz))) l')
    | no p ↦
        let h' : occurs x ys ≡ true = ground arith in
        let away : points_to (th x).next y ≡ false =
          Linked-next_in th (some y) (th y).next tail x y ys l.2 h' d.0 in
        let rest =
          Linked-erase (some y) (th y).next tail ys d.1 h'
            (λ z hz. let ny = ne_left z y ys hz d.0 in ground arith) l.2 in
        let kept : (y == x) ≡ false = ground arith in
        rw kept (
          rw (l.0) (ground arith),
          w.others_prev y p ∙ rw away l.1,
          rw (next_over y tail ys p d.0 h' l.2) rest,
        )
  ]
