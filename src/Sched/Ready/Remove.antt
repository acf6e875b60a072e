-- ===== src/Sched/Ready/Remove.antt =====
-- remove_from_ready unlinks a thread from anywhere in the queue of its priority.
use cgos.Base.{
  ℕ, ◌+◌, ◌<◌, ◌≡◌, ◌≢◌, refl, sym, subst, ◌∙◌, true, false, Option, none, some, List, [], ◌∷◌,
  arith, ◌==◌, if◌then◌else◌, ℕ_discrete, length,
}
use cgos.Sched.Thread.{Thread, priority_levels}
use cgos.Sched.State.{Sched, update, points_to, if_null, set_prev_of, set_next_of}
use cgos.Sched.Ready.{unlink, remove_from_ready}
use cgos.Sched.Ready.Linked.{
  occurs, Distinct, Linked, Linked-frame, IsUnlinked, erase, Linked-prev_in, Linked-next_in,
}
use cgos.Sched.Ready.Erase.{Linked-erase}
use cgos.Sched.Ready.Spec.{IsQueued, total-update, elsewhere, one_queue}

module _ (th : ℕ → Thread) (t : ℕ) where
  abbrev after : Option ℕ → Option ℕ → ℕ → Thread
  after prev next = unlink (set_prev_of (set_next_of th prev next) next prev) t

  after-IsUnlinked :
      (prev next : Option ℕ)
      → (th t).prev ≡ prev
      → (th t).next ≡ next
      → IsUnlinked th (after prev next) t
  unfolding unlink set_prev_of set_next_of
  after-IsUnlinked none none e f = record {
    others_next = λ y ne. ground arith;
    others_prev = λ y ne. ground arith;
  }
  after-IsUnlinked none (some n) e f = record {
    others_next = λ y ne. ground arith;
    others_prev = λ y ne. ground arith;
  }
  after-IsUnlinked (some p) none e f = record {
    others_next = λ y ne. ground arith;
    others_prev = λ y ne. ground arith;
  }
  after-IsUnlinked (some p) (some n) e f = record {
    others_next = λ y ne. ground arith;
    others_prev = λ y ne. ground arith;
  }

  after-fields :
      (prev next : Option ℕ) (y : ℕ)
      → ((after prev next y).priority ≡ (th y).priority)
        × ((after prev next y).state ≡ (th y).state)
  unfolding unlink set_prev_of set_next_of
  after-fields none none y = (ground arith, ground arith)
  after-fields none (some n) y = (ground arith, ground arith)
  after-fields (some p) none y = (ground arith, ground arith)
  after-fields (some p) (some n) y = (ground arith, ground arith)

occurs-erase : (x t : ℕ) (xs : List ℕ) → occurs x (erase t xs) ≡ true → occurs x xs ≡ true
occurs-erase x t [] o = absurd (cc)
occurs-erase x t (y ∷ ys) o = ground (arith, occurs-erase x t ys)

occurs-erase-false : (x t : ℕ) (xs : List ℕ) → occurs x xs ≡ false → occurs x (erase t xs) ≡ false
occurs-erase-false x t [] o = refl
occurs-erase-false x t (y ∷ ys) o = ground (arith, occurs-erase-false x t ys)

Distinct-erase : (t : ℕ) (xs : List ℕ) → Distinct xs → Distinct (erase t xs)
Distinct-erase t [] d = tt
Distinct-erase t (y ∷ ys) d = elim (ℕ_discrete y t) [
  | yes e ↦ let same : (y == t) ≡ true = ground arith in rw same d.1
  | no ne ↦
      let other : (y == t) ≡ false = ground arith in
      rw other (occurs-erase-false y t ys d.0, Distinct-erase t ys d.1)
]

length-erase : (t : ℕ) (xs : List ℕ) → occurs t xs ≡ true → length (erase t xs) + 1 ≡ length xs
length-erase t [] o = absurd (cc)
length-erase t (y ∷ ys) o = ground (arith, length-erase t ys)

-- A thread with another before it has a `prev`.
prev_is_some :
    (th : ℕ → Thread) (y : ℕ) (head tail : Option ℕ) (t : ℕ) (ys : List ℕ)
    → Linked th (some y) head tail ys
    → occurs t ys ≡ true
    → (w : ℕ) × ((th t).prev ≡ some w)
prev_is_some th y head tail t [] l o = absurd (cc)
prev_is_some th y head tail t (z ∷ zs) l o = elim (ℕ_discrete z t) [
  | yes e ↦ (y, subst (λ k. (th k).prev ≡ some y) e l.1)
  | no ne ↦ prev_is_some th z (th z).next tail t zs l.2 (ground arith)
]

module _ (s : Sched) (q : ℕ → List ℕ) (t : ℕ) (iq : IsQueued s q)
    (lt : (s.threads t).priority < priority_levels)
    (o_t : occurs t (q (s.threads t).priority) ≡ true) where
  abbrev p : ℕ
  p = (s.threads t).priority

  abbrev prev : Option ℕ
  prev = (s.threads t).prev

  abbrev next : Option ℕ
  next = (s.threads t).next

  abbrev q' : ℕ → List ℕ
  q' = update q p (erase t (q p))

  abbrev th' : ℕ → Thread
  th' = after s.threads t prev next

  unlinked : IsUnlinked s.threads th' t
  unlinked = after-IsUnlinked s.threads t prev next refl refl

  -- The neighbours of the thread are in its queue, so threads of other queues are not written.
  beside :
      (r x : ℕ)
      → r < priority_levels
      → p ≢ r
      → occurs x (q r) ≡ true
      → (points_to prev x ≡ false) × (points_to next x ≡ false)
  beside r x lr ne o =
      let out : occurs x (q p) ≡ false = one_queue s q iq r p x lr lt (λ e. ne (sym e)) o in
      (
        Linked-prev_in s.threads none _ _ t x (q p) (iq.linked p lt) o_t out refl,
        Linked-next_in s.threads none _ _ t x (q p) (iq.linked p lt) o_t out,
      )

  -- The code moves the queue's head if the thread has no `prev`: then it is the first.
  head_here :
      (xs : List ℕ) (tail : Option ℕ)
      → Distinct xs
      → Linked s.threads none (s.ready_queue_heads p) tail xs
      → occurs t xs ≡ true
      → (if_null prev (update s.ready_queue_heads p next) s.ready_queue_heads p)
        ≡ (if points_to (s.ready_queue_heads p) t then next else s.ready_queue_heads p)
  head_here [] tail d l o = absurd (cc)
  head_here (y ∷ ys) tail d l o = elim (ℕ_discrete y t) [
    | yes e ↦
        let no_prev : prev ≡ none = subst (λ k. (s.threads k).prev ≡ none) e l.1 in
        let same : (p == p) ≡ true = ground arith in
        let first : (y == t) ≡ true = ground arith in rw (no_prev, same, l.0, first)
    | no ne ↦
        let (w, e) = prev_is_some s.threads y _ tail t ys l.2 (ground arith) in
        let other : (y == t) ≡ false = ground arith in rw (e, l.0, other)
  ]

  Linked-here :
      Linked th' none
        (if_null prev (update s.ready_queue_heads p next) s.ready_queue_heads p)
        (if_null next (update s.ready_queue_tails p prev) s.ready_queue_tails p)
        (q' p)
  Linked-here =
      let same : (p == p) ≡ true = ground arith in
      let l = iq.linked p lt in
      let d = iq.distinct p lt in
      rw (head_here (q p) (s.ready_queue_tails p) d l o_t, tail_here next same, same)
        (Linked-erase t unlinked none (s.ready_queue_heads p) (s.ready_queue_tails p) (q p) d o_t
          (λ z h. refl) l)
    where
      tail_here :
          (n : Option ℕ)
          → (p == p) ≡ true
          → (if_null n (update s.ready_queue_tails p prev) s.ready_queue_tails p)
            ≡ if_null n prev (s.ready_queue_tails p)
      tail_here none same = rw same
      tail_here (some l) same = refl

  unmoved :
      (f : ℕ → Option ℕ) (a b : Option ℕ) (r : ℕ) → p ≢ r → (if_null a (update f p b) f r) ≡ f r
  unmoved f none b r ne = ground arith
  unmoved f (some l) b r ne = refl

  linked' :
      (r : ℕ)
      → r < priority_levels
      → Linked th' none
          (if_null prev (update s.ready_queue_heads p next) s.ready_queue_heads r)
          (if_null next (update s.ready_queue_tails p prev) s.ready_queue_tails r)
          (q' r)
  linked' r lr = elim (ℕ_discrete p r) [
    | yes e ↦
        subst
          (λ k.
            Linked th' none (if_null prev (update s.ready_queue_heads p next) s.ready_queue_heads k)
              (if_null next (update s.ready_queue_tails p prev) s.ready_queue_tails k) (q' k))
          e Linked-here
    | no ne ↦
        let other : (p == r) ≡ false = ground arith in
        rw
          (
            unmoved s.ready_queue_heads prev next r ne,
            unmoved s.ready_queue_tails next prev r ne,
            other,
          )
          (Linked-frame s.threads th' none (s.ready_queue_heads r) (s.ready_queue_tails r) (q r)
            (λ x o.
              let nt = elsewhere s q iq r t x lr o ne in
              let (away_p, away_n) = beside r x lr ne o in
              (unlinked.others_next x nt ∙ rw away_p, unlinked.others_prev x nt ∙ rw away_n))
            (iq.linked r lr))
  ]

  member' : (r x : ℕ) → occurs x (q' r) ≡ true → occurs x (q r) ≡ true
  member' r x o = elim (ℕ_discrete p r) [
    | yes e ↦
        let same : (p == r) ≡ true = ground arith in
        let o' : occurs x (erase t (q p)) ≡ true = rw same at o in
        subst (λ k. occurs x (q k) ≡ true) e (occurs-erase x t (q p) o')
    | no ne ↦ let other : (p == r) ≡ false = ground arith in (rw other at o)
  ]

  distinct' : (r : ℕ) → r < priority_levels → Distinct (q' r)
  distinct' r lr = elim (ℕ_discrete p r) [
    | yes e ↦
        let same : (p == r) ≡ true = ground arith in
        rw same (Distinct-erase t (q p) (iq.distinct p lt))
    | no ne ↦ let other : (p == r) ≡ false = ground arith in rw other (iq.distinct r lr)
  ]

  -- A thread that waits in its ready queue is taken out of it, wherever it stands: the queue holds
  -- the other threads in their order, and the other queues stay as they are.
  pub remove_from_ready-IsQueued : IsQueued (remove_from_ready s t) q'
  unfolding remove_from_ready
  remove_from_ready-IsQueued = record {
    linked = linked';
    distinct = distinct';
    level = λ r x lr o. (after-fields s.threads t prev next x).0 ∙ iq.level r x lr (member' r x o);
    waiting =
        λ r x lr o. (after-fields s.threads t prev next x).1 ∙ iq.waiting r x lr (member' r x o);
    counted = omega (
      arith,
      iq.counted,
      total-update q p (erase t (q p)) priority_levels lt,
      length-erase t (q p) o_t,
    );
  }
