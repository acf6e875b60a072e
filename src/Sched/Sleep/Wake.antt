-- ===== src/Sched/Sleep/Wake.antt =====
-- wake_expired_sleepers moves the expired sleepers to the ready queues, in their order.
use cgos.Base.{
  ℕ, zero, suc, ◌%◌, ◌^◌, ◌<◌, ◌≤◌, ◌≡◌, ◌≢◌, refl, sym, ap, subst, fun_ext, ◌∙◌, Bool, true, false,
  Option, none, some, List, [], ◌∷◌, ◌++◌, arith, ◌==◌, leb, if◌then◌else◌, length, Bool-cases, inl,
  inr, ℕ_discrete,
}
use cgos.Sched.Thread.{Thread, sleeping, ready, priority_levels, max_threads}
use cgos.Sched.State.{Sched, update, points_to}
use cgos.Sched.Ready.{enqueue_ready}
use cgos.Sched.Ready.Linked.{occurs, Distinct, ne_of_occurs}
use cgos.Sched.Ready.Spec.{IsQueued, IsQueued-frame, not_ready, tail_of}
use cgos.Sched.Ready.Enqueue.{after, after-fields, appended, enqueue_ready-IsQueued}
use cgos.Sched.Sleep.{pop_sleeper, wake_loop, wake_expired_sleepers}
use cgos.Sched.Sleep.Chain.{Chain, Chain-frame, IsTimed}
use cgos.Sched.Sleep.Spec.{IsAsleep}

-- The sleepers at the queue's front that have expired, and the others.
abbrev pub expired : (ℕ → ℕ) → ℕ → List ℕ → List ℕ
expired wake now [] = []
expired wake now (x ∷ xs) = if leb (wake x) now then x ∷ expired wake now xs else []

abbrev pub still : (ℕ → ℕ) → ℕ → List ℕ → List ℕ
still wake now [] = []
still wake now (x ∷ xs) = if leb (wake x) now then still wake now xs else x ∷ xs

-- The queues with the threads of a list appended, each at its priority.
abbrev pub push_all : (ℕ → ℕ) → (ℕ → List ℕ) → List ℕ → ℕ → List ℕ
push_all prio q [] = q
push_all prio q (x ∷ xs) = push_all prio (update q (prio x) (q (prio x) ++ x ∷ [])) xs

IsTimed-tail : (wake : ℕ → ℕ) (x : ℕ) (xs : List ℕ) → IsTimed wake (x ∷ xs) → IsTimed wake xs
IsTimed-tail wake x [] t = tt
IsTimed-tail wake x (y ∷ ys) t = t.1

sleeping≢ready : sleeping ≢ ready
sleeping≢ready e = cc

-- Putting another thread into a ready queue does not touch the sleepers.
pub enqueue_ready-IsAsleep :
    (s : Sched) (q : ℕ → List ℕ) (t : ℕ) (xs : List ℕ) (iq : IsQueued s q)
    → (s.threads t).priority < priority_levels
    → occurs t (q (s.threads t).priority) ≡ false
    → occurs t xs ≡ false
    → IsAsleep s xs
    → IsAsleep (enqueue_ready s t) xs
unfolding enqueue_ready
enqueue_ready-IsAsleep s q t xs iq lt out away v = record {
  chain =
      Chain-frame s.threads th' s.sleep_queue xs
        (λ x h.
          (appended s q t iq lt out).others_next x (ne_of_occurs x t xs h away) ∙ rw (not_tail x h))
        v.chain;
  distinct = v.distinct;
  timed =
      subst (λ w. IsTimed w xs) (sym (fun_ext λ x. (after-fields s.threads t tail x).1)) v.timed;
  asleep = λ x h.
      let ne = ne_of_occurs x t xs h away in
      let old = v.asleep x h in (after-fields s.threads t tail x).2 ∙ ground arith;
  placed = λ x h. rw ((after-fields s.threads t tail x).0) (v.placed x h);
  counted = v.counted;
}
  where
    tail : Option ℕ
    tail = s.ready_queue_tails (s.threads t).priority

    th' : ℕ → Thread
    th' = after s.threads t tail

    not_tail : (x : ℕ) → occurs x xs ≡ true → points_to tail x ≡ false
    not_tail x h = go (points_to tail x) refl
      where
        go : (b : Bool) → points_to tail x ≡ b → points_to tail x ≡ false
        go true e = absurd (
            let o = tail_of s.threads _ tail (q (s.threads t).priority) x (iq.linked _ lt) e in
            let r = iq.waiting _ x lt o in let z = v.asleep x h in cc)
        go false e = e

module _ (s : Sched) (x : ℕ) (xs : List ℕ) (v : IsAsleep s (x ∷ xs)) where
  pop-fields :
      (y : ℕ)
      → (((pop_sleeper s x).threads y).wake_time ≡ (s.threads y).wake_time)
        × (((pop_sleeper s x).threads y).state ≡ (s.threads y).state)
        × (((pop_sleeper s x).threads y).priority ≡ (s.threads y).priority)
        × (((pop_sleeper s x).threads y).prev ≡ (s.threads y).prev)
        × (((pop_sleeper s x).threads y).next ≡ (if x == y then none else (s.threads y).next))
  unfolding pop_sleeper
  pop-fields y = (ground arith, ground arith, ground arith, ground arith, ground arith)

  pop-Chain : Chain (pop_sleeper s x).threads (pop_sleeper s x).sleep_queue xs
  unfolding pop_sleeper
  pop-Chain =
      Chain-frame s.threads (pop_sleeper s x).threads (s.threads x).next xs
        (λ y h. let ne = ne_of_occurs y x xs h v.distinct.0 in (pop-fields y).4 ∙ ground arith)
        v.chain.1

  pop-counted : (pop_sleeper s x).stats.threads_sleeping ≡ length xs % 2 ^ 32
  unfolding pop_sleeper
  pop-counted = omega (arith, v.counted)

  pub pop-IsAsleep : IsAsleep (pop_sleeper s x) xs
  pop-IsAsleep = record {
    chain = pop-Chain;
    distinct = v.distinct.1;
    timed =
        subst (λ w. IsTimed w xs) (sym (fun_ext λ y. (pop-fields y).0))
          (IsTimed-tail _ x xs v.timed);
    asleep = λ y h. (pop-fields y).1 ∙ v.asleep y (ground (arith, h));
    placed = λ y h. rw ((pop-fields y).2) (v.placed y (ground (arith, h)));
    counted = pop-counted;
  }

  pub pop-IsQueued : (q : ℕ → List ℕ) → IsQueued s q → IsQueued (pop_sleeper s x) q
  unfolding pop_sleeper
  pop-IsQueued q iq =
      IsQueued-frame s (pop_sleeper s x) q refl refl refl
        (λ p y lt o.
          let asleep = v.asleep x (ground arith) in
          let awake = iq.waiting p y lt o in
          let ne : y ≢ x =
            λ e. (let again = subst (λ k. (s.threads k).state ≡ ready) e awake in cc) in
          let f = pop-fields y in (f.4 ∙ ground arith, f.3, f.2, f.1))
        iq

-- The threads' wake times and priorities, which the loop does not change.
abbrev pub Reads : Sched → (ℕ → ℕ) → (ℕ → ℕ) → Type 0
Reads s wake prio = (x : ℕ) → ((s.threads x).wake_time ≡ wake x) × ((s.threads x).priority ≡ prio x)

-- What the loop leaves: the expired sleepers in the ready queues, the others asleep.
pub record IsWoken (q : ℕ → List ℕ) (wake prio : ℕ → ℕ) (now : ℕ) (xs : List ℕ) (s' : Sched)
    : Type 0 where
  pub queued : IsQueued s' (push_all prio q (expired wake now xs))
  pub asleep : IsAsleep s' (still wake now xs)

-- One round of the loop.
abbrev round : Sched → ℕ → Sched
round s x = enqueue_ready (pop_sleeper s x) x

module _ (s : Sched) (q : ℕ → List ℕ) (x : ℕ) (xs : List ℕ) (iq : IsQueued s q)
    (v : IsAsleep s (x ∷ xs)) (wake prio : ℕ → ℕ) (reads : Reads s wake prio) where
  lt : ((pop_sleeper s x).threads x).priority < priority_levels
  lt = rw ((pop-fields s x xs v x).2) (v.placed x (ground arith))

  out : occurs x (q ((pop_sleeper s x).threads x).priority) ≡ false
  out = rw ((pop-fields s x xs v x).2) (
      not_ready s q iq _ x (v.placed x (ground arith))
        (λ e. let asleep = v.asleep x (ground arith) in cc))

  round-IsAsleep : IsAsleep (round s x) xs
  round-IsAsleep =
      enqueue_ready-IsAsleep (pop_sleeper s x) q x xs (pop-IsQueued s x xs v q iq) lt out
        v.distinct.0 (pop-IsAsleep s x xs v)

  prio_x : ((pop_sleeper s x).threads x).priority ≡ prio x
  prio_x = (pop-fields s x xs v x).2 ∙ (reads x).1

  round-IsQueued : IsQueued (round s x) (update q (prio x) (q (prio x) ++ x ∷ []))
  round-IsQueued =
      subst (λ k. IsQueued (round s x) (update q k (q k ++ x ∷ []))) prio_x
        (enqueue_ready-IsQueued (pop_sleeper s x) q x (pop-IsQueued s x xs v q iq) lt out)

  round-Reads : Reads (round s x) wake prio
  unfolding enqueue_ready
  round-Reads y =
      let f =
        after-fields (pop_sleeper s x).threads x
          ((pop_sleeper s x).ready_queue_tails ((pop_sleeper s x).threads x).priority) y in
      let g = pop-fields s x xs v y in (f.1 ∙ g.0 ∙ (reads y).0, f.0 ∙ g.2 ∙ (reads y).1)

pub wake_loop-empty : (f : ℕ) (s : Sched) (now : ℕ) → s.sleep_queue ≡ none → wake_loop f s now ≡ s
unfolding wake_loop
wake_loop-empty zero s now e = refl
wake_loop-empty (suc f) s now e = simp (e, wake_loop)

wake_loop-step :
    (f : ℕ) (s : Sched) (now x : ℕ)
    → s.sleep_queue ≡ some x
    → wake_loop (suc f) s now
      ≡ (if leb (s.threads x).wake_time now then wake_loop f (round s x) now else s)
unfolding wake_loop
wake_loop-step f s now x e =
    simp (e, wake_loop)
      (elim (Bool-cases (leb (s.threads x).wake_time now)) [
        | inl b ↦ simp (b, wake_loop)
        | inr b ↦ simp (b, wake_loop)
      ])

wake_loop-IsWoken :
    (f : ℕ) (s : Sched) (q : ℕ → List ℕ) (xs : List ℕ) (wake prio : ℕ → ℕ) (now : ℕ)
    → IsQueued s q
    → IsAsleep s xs
    → Reads s wake prio
    → length xs ≤ f
    → IsWoken q wake prio now xs (wake_loop f s now)
wake_loop-IsWoken f s q [] wake prio now iq v reads le =
    rw (wake_loop-empty f s now v.chain) (record { queued = iq; asleep = v })
wake_loop-IsWoken zero s q (x ∷ xs) wake prio now iq v reads le = absurd (omega arith)
wake_loop-IsWoken (suc f) s q (x ∷ xs) wake prio now iq v reads le =
    let step = wake_loop-step f s now x v.chain.0 in
    elim (Bool-cases (leb (wake x) now)) [
      | inl e ↦
          let ih =
            wake_loop-IsWoken f (round s x) (update q (prio x) (q (prio x) ++ x ∷ [])) xs wake prio
              now (round-IsQueued s q x xs iq v wake prio reads)
              (round-IsAsleep s q x xs iq v wake prio reads)
              (round-Reads s q x xs iq v wake prio reads) (omega arith) in
          let e' : leb (s.threads x).wake_time now ≡ true = ap (λ k. leb k now) (reads x).0 ∙ e in
          let eq = step ∙ ap (λ b. if b then wake_loop f (round s x) now else s) e' in
          subst (λ r. IsWoken q wake prio now (x ∷ xs) r) (sym eq)
            (record { queued = rw e ih.queued; asleep = rw e ih.asleep })
      | inr e ↦
          let e' : leb (s.threads x).wake_time now ≡ false = ap (λ k. leb k now) (reads x).0 ∙ e in
          let eq = step ∙ ap (λ b. if b then wake_loop f (round s x) now else s) e' in
          subst (λ r. IsWoken q wake prio now (x ∷ xs) r) (sym eq)
            (record { queued = rw e iq; asleep = rw e v })
    ]

later_all :
    (wake : ℕ → ℕ) (now x y : ℕ) (ys : List ℕ)
    → now < wake y
    → IsTimed wake (y ∷ ys)
    → occurs x (y ∷ ys) ≡ true
    → leb (wake x) now ≡ false
later_all wake now x y [] lt t o = ground arith
later_all wake now x y (z ∷ zs) lt t o = elim (ℕ_discrete y x) [
  | yes e ↦ let lt' : now < wake x = subst (λ k. now < wake k) e lt in ground arith
  | no ne ↦ later_all wake now x z zs (omega (arith, t.0)) t.1 (ground arith)
]

expired-exactly :
    (wake : ℕ → ℕ) (now x : ℕ) (xs : List ℕ)
    → IsTimed wake xs
    → Distinct xs
    → occurs x xs ≡ true
    → occurs x (expired wake now xs) ≡ leb (wake x) now
expired-exactly wake now x [] t d o = absurd (cc)
expired-exactly wake now x (y ∷ ys) t d o = elim (Bool-cases (leb (wake y) now)) [
  | inl e ↦ elim (ℕ_discrete y x) [
    | yes same ↦
        let e' : leb (wake x) now ≡ true = subst (λ k. leb (wake k) now ≡ true) same e in
        rw (e, e') (ground arith)
    | no ne ↦ rw e (ground (arith, expired-exactly wake now x ys (IsTimed-tail wake y ys t) d.1))
  ]
  | inr e ↦ rw e (sym (later_all wake now x y ys (ground arith) t o))
]

-- At a timer tick exactly the sleepers whose wake time has come leave the sleep queue (of at most
-- MAX_THREADS threads): they are appended, in the order of their wake times, to the ready queues of
-- their priorities, and the others sleep on.
pub wake_expired_sleepers-IsWoken :
    (s : Sched) (q : ℕ → List ℕ) (xs : List ℕ) (now x : ℕ)
    → IsQueued s q
    → IsAsleep s xs
    → length xs ≤ max_threads
    → occurs x xs ≡ true
    → let wake = λ (y : ℕ). (s.threads y).wake_time in
      let prio = λ (y : ℕ). (s.threads y).priority in
      IsWoken q wake prio now xs (wake_expired_sleepers s now)
      × (occurs x (expired wake now xs) ≡ leb (wake x) now)
unfolding wake_expired_sleepers
wake_expired_sleepers-IsWoken s q xs now x iq v few o = (
  wake_loop-IsWoken max_threads s q xs (λ y. (s.threads y).wake_time) (λ y. (s.threads y).priority)
      now iq v (λ y. (refl, refl)) few,
  expired-exactly (λ y. (s.threads y).wake_time) now x xs v.timed v.distinct o,
)
