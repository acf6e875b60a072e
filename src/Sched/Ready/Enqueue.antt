-- ===== src/Sched/Ready/Enqueue.antt =====
-- enqueue_ready appends a thread to the queue of its priority.
use cgos.Base.{
  ℕ, ◌<◌, ◌≡◌, ◌≢◌, refl, sym, ap, subst, ◌∙◌, ◌⊎◌, inl, inr, true, false, Option, none, some, List,
  [], ◌∷◌, ◌++◌, arith, ◌==◌, if◌then◌else◌, ℕ_discrete, length-append, ◌||◌,
}
use cgos.Sched.Thread.{Thread, ready, priority_levels}
use cgos.Sched.State.{Sched, update, points_to, if_null, set_state}
use cgos.Sched.Ready.{link_last, enqueue_ready}
use cgos.Sched.Ready.Linked.{
  occurs, Distinct, Linked, Linked-last, Linked-frame, IsAppended, Linked-append,
}
use cgos.Sched.Ready.Spec.{IsQueued, total-update, tail_outside, elsewhere, one_queue}

module _ (th : ℕ → Thread) (t : ℕ) where
  abbrev pub after : Option ℕ → ℕ → Thread
  after tail = set_state (link_last th t tail) t ready

  pub after-IsAppended :
      (tail : Option ℕ) → points_to tail t ≡ false → IsAppended th (after tail) tail t
  unfolding link_last set_state
  after-IsAppended none h = record {
    last_next = ground arith;
    last_prev = ground arith;
    others_prev = λ y ne. ground arith;
    others_next = λ y ne. ground arith;
  }
  after-IsAppended (some l) h = record {
    last_next = ground arith;
    last_prev = ground arith;
    others_prev = λ y ne. ground arith;
    others_next = λ y ne. ground arith;
  }

  -- The writes leave the other fields alone.
  pub after-fields :
      (tail : Option ℕ) (y : ℕ)
      → ((after tail y).priority ≡ (th y).priority)
        × ((after tail y).wake_time ≡ (th y).wake_time)
        × ((after tail y).state ≡ (if t == y then ready else (th y).state))
  unfolding link_last set_state
  after-fields none y = (ground arith, ground arith, ground arith)
  after-fields (some l) y = (ground arith, ground arith, ground arith)

pub occurs-append : (x t : ℕ) (xs : List ℕ) → occurs x (xs ++ t ∷ []) ≡ (occurs x xs || (t == x))
occurs-append x t [] = ground arith
occurs-append x t (y ∷ ys) = ground (arith, occurs-append x t ys)

Distinct-append :
    (t : ℕ) (xs : List ℕ) → Distinct xs → occurs t xs ≡ false → Distinct (xs ++ t ∷ [])
Distinct-append t [] d out = (refl, tt)
Distinct-append t (x ∷ xs) d out =
    (ground (arith, occurs-append x t xs, d.0), Distinct-append t xs d.1 (ground arith))

module _ (s : Sched) (q : ℕ → List ℕ) (t : ℕ) (iq : IsQueued s q)
    (lt : (s.threads t).priority < priority_levels)
    (out : occurs t (q (s.threads t).priority) ≡ false) where
  abbrev pub level_of : ℕ
  level_of = (s.threads t).priority

  abbrev pub tail : Option ℕ
  tail = s.ready_queue_tails level_of

  abbrev pub q' : ℕ → List ℕ
  q' = update q level_of (q level_of ++ t ∷ [])

  pub tail_away : points_to tail t ≡ false
  tail_away = tail_outside s.threads _ tail (q level_of) t (iq.linked level_of lt) out

  pub appended : IsAppended s.threads (after s.threads t tail) tail t
  appended = after-IsAppended s.threads t tail tail_away

  own_queue :
      (xs : List ℕ)
      → occurs t xs ≡ false
      → Distinct xs
      → Linked s.threads none (s.ready_queue_heads level_of) tail xs
      → Linked
          (after s.threads t tail)
          none
          (if_null tail (update s.ready_queue_heads level_of (some t)) s.ready_queue_heads level_of)
          (some t)
          (xs ++ t ∷ [])
  own_queue [] o d l =
      let head : (if_null tail (update s.ready_queue_heads level_of (some t)) s.ready_queue_heads
            level_of)
          ≡ some t =
        (let same : (level_of == level_of) ≡ true = ground arith in rw (l.1, same)) in
      rw head (Linked-append t appended none _ [] o d l)
  own_queue (x ∷ xs) o d l =
      let (z, e, _) = Linked-last s.threads none _ tail x xs l in
      let head : (if_null tail (update s.ready_queue_heads level_of (some t)) s.ready_queue_heads
            level_of)
          ≡ s.ready_queue_heads level_of =
        rw e in
      rw head (Linked-append t appended none _ (x ∷ xs) o d l)

  other_queue :
      (p : ℕ)
      → p < priority_levels
      → level_of ≢ p
      → Linked (after s.threads t tail) none (s.ready_queue_heads p) (s.ready_queue_tails p) (q p)
  other_queue p ltp ne =
      Linked-frame s.threads (after s.threads t tail) none (s.ready_queue_heads p)
        (s.ready_queue_tails p) (q p)
        (λ x o.
          let nt = elsewhere s q iq p t x ltp o ne in
          let away : points_to tail x ≡ false =
            tail_outside s.threads _ tail (q level_of) x (iq.linked level_of lt)
              (one_queue s q iq p level_of x ltp lt (λ e. ne (sym e)) o) in
          (appended.others_next x nt ∙ rw away, appended.others_prev x nt))
        (iq.linked p ltp)

  linked' :
      (p : ℕ)
      → p < priority_levels
      → Linked
          (after s.threads t tail)
          none
          (if_null tail (update s.ready_queue_heads level_of (some t)) s.ready_queue_heads p)
          (update s.ready_queue_tails level_of (some t) p)
          (q' p)
  linked' p ltp = elim (ℕ_discrete level_of p) [
    | yes e ↦
        subst
          (λ k.
            Linked (after s.threads t tail) none
              (if_null tail (update s.ready_queue_heads level_of (some t)) s.ready_queue_heads k)
              (update s.ready_queue_tails level_of (some t) k) (q' k))
          e
          (let same : (level_of == level_of) ≡ true = ground arith in
            rw same (own_queue (q level_of) out (iq.distinct level_of lt) (iq.linked level_of lt)))
    | no ne ↦
        let other : (level_of == p) ≡ false = ground arith in
        let head : (if_null tail (update s.ready_queue_heads level_of (some t)) s.ready_queue_heads
              p)
            ≡ s.ready_queue_heads p =
          ground (arith, other) in
        rw (head, other) (other_queue p ltp ne)
  ]

  distinct' : (p : ℕ) → p < priority_levels → Distinct (q' p)
  distinct' p ltp = elim (ℕ_discrete level_of p) [
    | yes e ↦
        let same : (level_of == p) ≡ true = ground arith in
        rw same (Distinct-append t (q level_of) (iq.distinct level_of lt) out)
    | no ne ↦ let other : (level_of == p) ≡ false = ground arith in rw other (iq.distinct p ltp)
  ]

  -- A thread of the new queues is the new one, or was there.
  member' : (p x : ℕ) → occurs x (q' p) ≡ true → (t ≡ x × level_of ≡ p) ⊎ (occurs x (q p) ≡ true)
  member' p x o = elim (ℕ_discrete level_of p) [
    | yes e ↦
        let same : (level_of == p) ≡ true = ground arith in
        let o' : occurs x (q level_of ++ t ∷ []) ≡ true = rw same at o in
        let here : occurs x (q level_of) ≡ occurs x (q p) = ap (λ k. occurs x (q k)) e in
        ground (arith, occurs-append x t (q level_of))
    | no ne ↦ let other : (level_of == p) ≡ false = ground arith in inr (rw other at o)
  ]

  level' :
      (p x : ℕ)
      → p < priority_levels
      → occurs x (q' p) ≡ true
      → (after s.threads t tail x).priority ≡ p
  level' p x ltp o = elim (member' p x o) [
    | inl (e, e') ↦
        (after-fields s.threads t tail x).0 ∙ ap (λ k. (s.threads k).priority) (sym e) ∙ e'
    | inr o' ↦ (after-fields s.threads t tail x).0 ∙ iq.level p x ltp o'
  ]

  waiting' :
      (p x : ℕ)
      → p < priority_levels
      → occurs x (q' p) ≡ true
      → (after s.threads t tail x).state ≡ ready
  waiting' p x ltp o = elim (member' p x o) [
    | inl (e, e') ↦ (after-fields s.threads t tail x).2 ∙ ground arith
    | inr o' ↦ let old = iq.waiting p x ltp o' in (after-fields s.threads t tail x).2 ∙ ground arith
  ]

  -- The thread is appended to the queue of its priority; the other queues stay as they are.
  pub enqueue_ready-IsQueued : IsQueued (enqueue_ready s t) q'
  unfolding enqueue_ready
  enqueue_ready-IsQueued = record {
    linked = linked';
    distinct = distinct';
    level = level';
    waiting = waiting';
    counted = omega (
      arith,
      iq.counted,
      total-update q level_of (q level_of ++ t ∷ []) priority_levels lt,
      length-append {0} (q level_of) (t ∷ []),
    );
  }
