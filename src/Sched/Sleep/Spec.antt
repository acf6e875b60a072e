-- ===== src/Sched/Sleep/Spec.antt =====
-- enqueue_sleep keeps the sleep queue in the order of the wake times.
use cgos.Base.{
  ℕ, ◌%◌, ◌^◌, ◌<◌, ◌≤◌, ◌≡◌, refl, sym, subst, fun_ext, ℕ_discrete, ◌∙◌, true, false, Option, none,
  some, List, [], ◌∷◌, arith, ◌==◌, ltb, if◌then◌else◌, length, Bool-cases, inl, inr,
}
use cgos.Sched.Thread.{Thread, sleeping, priority_levels, max_threads}
use cgos.Sched.State.{Sched, set_next, set_state}
use cgos.Sched.Ready.Linked.{occurs, Distinct, ne_of_occurs}
use cgos.Sched.Sleep.{link_after, insert_sleeper, enqueue_sleep}
use cgos.Sched.Sleep.Chain.{
  Chain, Chain-frame, IsTimed, IsTimed-insert, insert, occurs-insert, Distinct-insert,
  length-insert, Chain-after,
}

-- The queue holds distinct sleeping threads of valid priorities in the order of their wake times.
pub record IsAsleep (s : Sched) (xs : List ℕ) : Type 0 where
  pub chain : Chain s.threads s.sleep_queue xs
  pub distinct : Distinct xs
  pub timed : IsTimed (λ x. (s.threads x).wake_time) xs
  pub asleep : (x : ℕ) → occurs x xs ≡ true → (s.threads x).state ≡ sleeping
  pub placed : (x : ℕ) → occurs x xs ≡ true → (s.threads x).priority < priority_levels
  pub counted : s.stats.threads_sleeping ≡ length xs % 2 ^ 32

link_after-fields :
    (th : ℕ → Thread) (p t x : ℕ)
    → ((link_after th p t x).wake_time ≡ (th x).wake_time)
      × ((link_after th p t x).state ≡ (th x).state)
      × ((link_after th p t x).priority ≡ (th x).priority)
      × ((link_after th p t x).prev ≡ (th x).prev)
unfolding link_after
link_after-fields th p t x = (ground arith, ground arith, ground arith, ground arith)

-- The writes of the insertion go to `next` fields alone.
insert_sleeper-fields :
    (th : ℕ → Thread) (head : Option ℕ) (t x : ℕ)
    → let th' = (insert_sleeper th head t).1 in
      ((th' x).wake_time ≡ (th x).wake_time)
      × ((th' x).state ≡ (th x).state)
      × ((th' x).priority ≡ (th x).priority)
      × ((th' x).prev ≡ (th x).prev)
unfolding insert_sleeper
insert_sleeper-fields th none t x = (ground arith, ground arith, ground arith, ground arith)
insert_sleeper-fields th (some y) t x = elim (Bool-cases (ltb (th t).wake_time (th y).wake_time)) [
  | inl e ↦ rw (e, insert_sleeper) (ground arith, ground arith, ground arith, ground arith)
  | inr e ↦ rw (e, insert_sleeper) (link_after-fields th _ t x)
]

insert_sleeper-Chain :
    (th : ℕ → Thread) (head : Option ℕ) (t : ℕ) (xs : List ℕ)
    → length xs ≤ max_threads
    → occurs t xs ≡ false
    → Distinct xs
    → Chain th head xs
    → let (head', th') = insert_sleeper th head t in
      Chain th' head' (insert (λ x. (th x).wake_time) t xs)
unfolding insert_sleeper
insert_sleeper-Chain th head t [] le o d c = rw c (refl, ground arith)
insert_sleeper-Chain th head t (y ∷ ys) le o d c =
    elim (Bool-cases (ltb (th t).wake_time (th y).wake_time)) [
      | inl e ↦
          rw (c.0, insert_sleeper, e)
            (
              refl,
              (
                ground arith,
                (Chain-frame th (set_next th t (some y)) (some y) (y ∷ ys)
                    (λ x h. let ne = ne_of_occurs x t (y ∷ ys) h o in ground arith) (refl, c.1)).1,
              ),
            )
      | inr e ↦
          rw (c.0, insert_sleeper, e)
            (refl, Chain-after th t max_threads y ys (omega arith) o d c.1)
    ]

module _ (s : Sched) (t : ℕ) (xs : List ℕ) (v : IsAsleep s xs) (few : length xs ≤ max_threads)
    (out : occurs t xs ≡ false) (lt : (s.threads t).priority < priority_levels) where
  abbrev th₀ : ℕ → Thread
  th₀ = set_next (set_state s.threads t sleeping) t none

  abbrev wake : ℕ → ℕ
  wake x = (s.threads x).wake_time

  th₀-fields :
      (x : ℕ)
      → ((th₀ x).wake_time ≡ wake x)
        × ((th₀ x).state ≡ (if t == x then sleeping else (s.threads x).state))
        × ((th₀ x).priority ≡ (s.threads x).priority)
        × ((th₀ x).next ≡ (if t == x then none else (s.threads x).next))
  unfolding set_next set_state
  th₀-fields x = (ground arith, ground arith, ground arith, ground arith)

  abbrev th' : ℕ → Thread
  th' = (insert_sleeper th₀ s.sleep_queue t).1

  same_wake : (λ x. (th₀ x).wake_time) ≡ wake
  same_wake = fun_ext λ x. (th₀-fields x).0

  end_wake : (λ x. (th' x).wake_time) ≡ wake
  end_wake = fun_ext λ x. (insert_sleeper-fields th₀ s.sleep_queue t x).0 ∙ (th₀-fields x).0

  chain' : Chain th' (insert_sleeper th₀ s.sleep_queue t).0 (insert wake t xs)
  chain' =
      subst (λ w. Chain th' (insert_sleeper th₀ s.sleep_queue t).0 (insert w t xs)) same_wake
        (insert_sleeper-Chain th₀ s.sleep_queue t xs few out v.distinct (
          Chain-frame s.threads th₀ s.sleep_queue xs
            (λ x h. let ne = ne_of_occurs x t xs h out in (th₀-fields x).3 ∙ ground arith) v.chain))

  asleep' : (x : ℕ) → occurs x (insert wake t xs) ≡ true → (th' x).state ≡ sleeping
  asleep' x o =
      (insert_sleeper-fields th₀ s.sleep_queue t x).1
      ∙ (th₀-fields x).1
      ∙ ground (arith, occurs-insert wake t x xs, v.asleep x)

  placed' : (x : ℕ) → occurs x (insert wake t xs) ≡ true → (th' x).priority < priority_levels
  placed' x o =
      rw ((insert_sleeper-fields th₀ s.sleep_queue t x).2, (th₀-fields x).2)
        (elim (ℕ_discrete t x) [
          | yes e ↦ subst (λ k. (s.threads k).priority < priority_levels) e lt
          | no ne ↦ v.placed x (ground (arith, occurs-insert wake t x xs))
        ])

  -- A thread that goes to sleep is put behind those that wake no later, and its state is SLEEPING:
  -- the queue stays in the order of the wake times, and the other sleepers keep their order.
  pub enqueue_sleep-IsAsleep : IsAsleep (enqueue_sleep s t) (insert wake t xs)
  unfolding enqueue_sleep
  enqueue_sleep-IsAsleep = record {
    chain = chain';
    distinct = Distinct-insert wake t xs v.distinct out;
    timed =
        subst (λ w. IsTimed w (insert wake t xs)) (sym end_wake) (IsTimed-insert wake t xs v.timed);
    asleep = asleep';
    placed = placed';
    counted = omega (arith, v.counted, length-insert wake t xs);
  }
