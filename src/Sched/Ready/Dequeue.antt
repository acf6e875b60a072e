-- ===== src/Sched/Ready/Dequeue.antt =====
-- dequeue_ready takes the first thread of a queue, and pick_next_thread that of the highest
-- priority whose queue is not empty.
use cgos.Base.{
  ℕ, zero, suc, ◌+◌, ◌<◌, ◌≡◌, ◌≢◌, refl, sym, ap, subst, ◌∙◌, Bool, true, false, Option, none,
  some, List, [], ◌∷◌, arith, ◌==◌, ℕ_discrete, length,
}
use cgos.Sched.Thread.{Thread, priority_levels}
use cgos.Sched.State.{Sched, update, points_to, if_null, set_prev_of}
use cgos.Sched.Ready.{unlink, take_head, dequeue_ready, pick_from, pick_next_thread}
use cgos.Sched.Ready.Linked.{occurs, Distinct, Linked, Linked-frame, IsTaken, Linked-rest}
use cgos.Sched.Ready.Spec.{IsQueued, total-update, elsewhere, one_queue}

module _ (th : ℕ → Thread) (t : ℕ) where
  abbrev after : Option ℕ → ℕ → Thread
  after next = unlink (set_prev_of th next none) t

  after-IsTaken : (next : Option ℕ) → (th t).next ≡ next → IsTaken th (after next) t
  unfolding unlink set_prev_of
  after-IsTaken none e = record {
    others_next = λ y ne. ground arith;
    others_prev = λ y ne. ground arith;
  }
  after-IsTaken (some l) e = record {
    others_next = λ y ne. ground arith;
    others_prev = λ y ne. ground arith;
  }

  pub after-fields :
      (next : Option ℕ) (y : ℕ)
      → ((after next y).priority ≡ (th y).priority)
        × ((after next y).state ≡ (th y).state)
        × ((after next y).wake_time ≡ (th y).wake_time)
  unfolding unlink set_prev_of
  after-fields none y = (ground arith, ground arith, ground arith)
  after-fields (some l) y = (ground arith, ground arith, ground arith)

module _ (s : Sched) (q : ℕ → List ℕ) (p t : ℕ) (xs : List ℕ) (iq : IsQueued s q)
    (lt : p < priority_levels) (first : q p ≡ t ∷ xs) where
  abbrev next : Option ℕ
  next = (s.threads t).next

  abbrev q' : ℕ → List ℕ
  q' = update q p xs

  taken : IsTaken s.threads (after s.threads t next) t
  taken = after-IsTaken s.threads t next refl

  own : Linked s.threads none (s.ready_queue_heads p) (s.ready_queue_tails p) (t ∷ xs)
  own =
      subst (λ l. Linked s.threads none (s.ready_queue_heads p) (s.ready_queue_tails p) l) first
        (iq.linked p lt)

  own-Distinct : Distinct (t ∷ xs)
  own-Distinct = subst (λ l. Distinct l) first (iq.distinct p lt)

  was : (x : ℕ) → occurs x xs ≡ true → occurs x (q p) ≡ true
  was x o = rw first (ground (arith, o))

  -- The thread behind the first one is in the same queue.
  next_here : (x : ℕ) → points_to next x ≡ true → occurs x (q p) ≡ true
  next_here x h = go xs refl
    where
      go : (l : List ℕ) → xs ≡ l → occurs x (q p) ≡ true
      go [] e = absurd (
          let l' : Linked s.threads none (s.ready_queue_heads p) (s.ready_queue_tails p) (t ∷ []) =
            rw e at own in
          let h' : false ≡ true = rw (l'.2.0) at h in cc)
      go (y ∷ ys) e =
          let l' : Linked s.threads none (s.ready_queue_heads p) (s.ready_queue_tails p)
              (t ∷ y ∷ ys) =
            rw e at own in
          let h' : (y == x) ≡ true = rw (l'.2.0) at h in was x (rw e (ground (arith, h')))

  outside :
      (r x : ℕ) → r < priority_levels → p ≢ r → occurs x (q r) ≡ true → points_to next x ≡ false
  outside r x lr ne o = go (points_to next x) refl
    where
      go : (b : Bool) → points_to next x ≡ b → points_to next x ≡ false
      go true e = absurd (let o' = one_queue s q iq p r x lt lr ne (next_here x e) in cc)
      go false e = e

  at_first : (r x : ℕ) → r < priority_levels → p ≢ r → occurs x (q r) ≡ true → x ≢ t
  at_first r x lr ne o =
      elsewhere s q iq r t x lr o (λ e. ne (sym (iq.level p t lt (rw first (ground arith))) ∙ e))

  linked' :
      (r : ℕ)
      → r < priority_levels
      → Linked
          (after s.threads t next)
          none
          (update s.ready_queue_heads p next r)
          (if_null next (update s.ready_queue_tails p none) s.ready_queue_tails r)
          (q' r)
  linked' r lr = elim (ℕ_discrete p r) [
    | yes e ↦
        subst
          (λ k.
            Linked (after s.threads t next) none (update s.ready_queue_heads p next k)
              (if_null next (update s.ready_queue_tails p none) s.ready_queue_tails k) (q' k))
          e here
    | no ne ↦
        let other : (p == r) ≡ false = ground arith in
        let tail : (if_null next (update s.ready_queue_tails p none) s.ready_queue_tails r)
            ≡ s.ready_queue_tails r =
          ground (arith, other) in
        rw (tail, other)
          (Linked-frame s.threads (after s.threads t next) none (s.ready_queue_heads r)
            (s.ready_queue_tails r) (q r)
            (λ x o.
              let nt = at_first r x lr ne o in
              (taken.others_next x nt, taken.others_prev x nt ∙ rw (outside r x lr ne o)))
            (iq.linked r lr))
  ]
    where
      same : (p == p) ≡ true
      same = ground arith

      tail_here :
          (n : Option ℕ)
          → (if_null n (update s.ready_queue_tails p none) s.ready_queue_tails p)
            ≡ if_null n none (s.ready_queue_tails p)
      tail_here none = rw same
      tail_here (some l) = refl

      here :
          Linked
            (after s.threads t next)
            none
            (update s.ready_queue_heads p next p)
            (if_null next (update s.ready_queue_tails p none) s.ready_queue_tails p)
            (q' p)
      here =
          rw (tail_here next, same)
            (Linked-rest t (s.ready_queue_tails p) xs taken own-Distinct own.2)

  member' : (r x : ℕ) → r < priority_levels → occurs x (q' r) ≡ true → occurs x (q r) ≡ true
  member' r x lr o = elim (ℕ_discrete p r) [
    | yes e ↦
        let same : (p == r) ≡ true = ground arith in
        let o' : occurs x xs ≡ true = rw same at o in
        subst (λ k. occurs x (q k) ≡ true) e (was x o')
    | no ne ↦ let other : (p == r) ≡ false = ground arith in (rw other at o)
  ]

  distinct' : (r : ℕ) → r < priority_levels → Distinct (q' r)
  distinct' r lr = elim (ℕ_discrete p r) [
    | yes e ↦ let same : (p == r) ≡ true = ground arith in rw same own-Distinct.1
    | no ne ↦ let other : (p == r) ≡ false = ground arith in rw other (iq.distinct r lr)
  ]

  length_first : length (q p) ≡ suc (length xs)
  length_first = rw first

  -- The first thread leaves its queue; the other queues stay as they are.
  pub take_head-IsQueued : IsQueued (take_head s p t) q'
  unfolding take_head
  take_head-IsQueued = record {
    linked = linked';
    distinct = distinct';
    level = λ r x lr o. (after-fields s.threads t next x).0 ∙ iq.level r x lr (member' r x lr o);
    waiting =
        λ r x lr o. (after-fields s.threads t next x).1 ∙ iq.waiting r x lr (member' r x lr o);
    counted = omega (arith, iq.counted, total-update q p xs priority_levels lt, length_first);
  }

  pub dequeue_ready-first : dequeue_ready s p ≡ (some t, take_head s p t)
  unfolding dequeue_ready
  dequeue_ready-first = rw (own.0, dequeue_ready)

-- What picking the next thread does: the first thread of the first queue that is not empty leaves
-- that queue; with all queues empty the idle thread is picked.
pub data Picked (s : Sched) (q : ℕ → List ℕ) (r : Option ℕ × Sched) : Type 0 where
  idle : ((p : ℕ) → p < priority_levels → q p ≡ []) → r ≡ (s.idle_thread, s) → Picked s q r
  first :
      (p t : ℕ) (xs : List ℕ)
      → p < priority_levels
      → ((k : ℕ) → k < p → q k ≡ [])
      → q p ≡ t ∷ xs
      → r ≡ (some t, take_head s p t)
      → IsQueued (take_head s p t) (update q p xs)
      → Picked s q r

pick_from-empty :
    (s : Sched) (n p : ℕ)
    → s.ready_queue_heads p ≡ none
    → pick_from s (suc n) p ≡ pick_from s n (p + 1)
unfolding pick_from
pick_from-empty s n p e = rw (e, pick_from)

pub pick_from-full :
    (s : Sched) (n p : ℕ) {t : ℕ}
    → s.ready_queue_heads p ≡ some t
    → pick_from s (suc n) p ≡ dequeue_ready s p
unfolding pick_from
pick_from-full s n p e = rw (e, pick_from)

module _ (s : Sched) (q : ℕ → List ℕ) (iq : IsQueued s q) where
  empty_head : (p : ℕ) → p < priority_levels → q p ≡ [] → s.ready_queue_heads p ≡ none
  empty_head p lt e =
      (subst (λ l. Linked s.threads none (s.ready_queue_heads p) (s.ready_queue_tails p) l) e
        (iq.linked p lt)).0

  full_head :
      (p t : ℕ) (xs : List ℕ) → p < priority_levels → q p ≡ t ∷ xs → s.ready_queue_heads p ≡ some t
  full_head p t xs lt e =
      (subst (λ l. Linked s.threads none (s.ready_queue_heads p) (s.ready_queue_tails p) l) e
        (iq.linked p lt)).0

  pick_from-Picked :
      (n p : ℕ)
      → n + p ≡ priority_levels
      → ((k : ℕ) → k < p → q k ≡ [])
      → Picked s q (pick_from s n p)
  unfolding pick_from
  pick_from-Picked zero p e below = idle (λ k lt. below k (omega arith)) refl
  pick_from-Picked (suc n) p e below =
      go (q p) refl (λ none_here. pick_from-Picked n (p + 1) (omega arith) (more none_here))
    where
      more : q p ≡ [] → (k : ℕ) → k < p + 1 → q k ≡ []
      more none_here k lt = elim (ℕ_discrete k p) [
        | yes same ↦ ap q same ∙ none_here
        | no ne ↦ below k (omega arith)
      ]

      go :
          (l : List ℕ)
          → q p ≡ l
          → (q p ≡ [] → Picked s q (pick_from s n (p + 1)))
          → Picked s q (pick_from s (suc n) p)
      go [] f rest = rw (pick_from-empty s n p (empty_head p (omega arith) f)) (rest f)
      go (t ∷ xs) f rest =
          rw
            (
              pick_from-full s n p (full_head p t xs (omega arith) f),
              dequeue_ready-first s q p t xs iq (omega arith) f,
            )
            (first p t xs (omega arith) below f refl
              (take_head-IsQueued s q p t xs iq (omega arith) f))

  -- pick_next_thread takes the first thread of the highest priority that has a ready thread, or
  -- else the idle thread, and leaves the other queues as they are.
  pub pick_next_thread-Picked : Picked s q (pick_next_thread s)
  unfolding pick_next_thread
  pick_next_thread-Picked =
      pick_from-Picked priority_levels 0 (omega arith) (λ k lt. absurd (omega arith))
