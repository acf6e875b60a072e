-- ===== src/Sched/Ready/Spec.antt =====
-- What the ready queues hold: for each priority a list of distinct threads, all of that priority
-- and in the state READY.
use cgos.Base.{
  ℕ, zero, suc, ◌+◌, ◌%◌, ◌^◌, ◌<◌, ◌≤◌, ◌≡◌, ◌≢◌, refl, sym, ap, subst, ◌∙◌, Bool, true, false,
  Option, none, List, [], ◌∷◌, arith, ◌==◌, ℕ_discrete, length,
}
use cgos.Sched.Thread.{Thread, ready, priority_levels}
use cgos.Sched.State.{Sched, update, points_to}
use cgos.Sched.Ready.Linked.{occurs, Distinct, Linked, Linked-last, Linked-frame}

-- The threads in the queues of the first `n` priorities.
unfoldable pub total : (ℕ → List ℕ) → ℕ → ℕ
total q zero = 0
total q (suc n) = total q n + length (q n)

total-update_of_le :
    (q : ℕ → List ℕ) (p : ℕ) (l : List ℕ) (n : ℕ) → n ≤ p → total (update q p l) n ≡ total q n
unfolding total
total-update_of_le q p l zero h = refl
total-update_of_le q p l (suc n) h = ground (arith, total-update_of_le q p l n (omega arith))

pub total-update :
    (q : ℕ → List ℕ) (p : ℕ) (l : List ℕ) (n : ℕ)
    → p < n
    → total (update q p l) n + length (q p) ≡ total q n + length l
unfolding total
total-update q p l zero h = absurd (omega arith)
total-update q p l (suc n) h = elim (ℕ_discrete p n) [
  | yes e ↦
      let same : (p == n) ≡ true = ground arith in
      let here : q p ≡ q n = ap q e in
      rw (total-update_of_le q p l n (omega arith), same, here) (omega arith)
  | no ne ↦ ground (arith, total-update q p l n (omega arith))
]

pub record IsQueued (s : Sched) (q : ℕ → List ℕ) : Type 0 where
  pub linked :
      (p : ℕ)
      → p < priority_levels
      → Linked s.threads none (s.ready_queue_heads p) (s.ready_queue_tails p) (q p)
  pub distinct : (p : ℕ) → p < priority_levels → Distinct (q p)
  pub level : (p x : ℕ) → p < priority_levels → occurs x (q p) ≡ true → (s.threads x).priority ≡ p
  pub waiting :
      (p x : ℕ) → p < priority_levels → occurs x (q p) ≡ true → (s.threads x).state ≡ ready
  pub counted : s.stats.threads_ready ≡ total q priority_levels % 2 ^ 32

-- Where a queue's tail points: nowhere, if it is empty, and to one of its threads else.
pub tail_of :
    (th : ℕ → Thread) (head tail : Option ℕ) (xs : List ℕ) (x : ℕ)
    → Linked th none head tail xs
    → points_to tail x ≡ true
    → occurs x xs ≡ true
tail_of th head tail [] x l e = absurd (let e' : false ≡ true = rw (l.1) at e in cc)
tail_of th head tail (y ∷ ys) x l e =
    let (z, f, o) = Linked-last th none head tail y ys l in
    let e' : (z == x) ≡ true = rw f at e in
    let same : z ≡ x = ground arith in subst (λ k. occurs k (y ∷ ys) ≡ true) same o

-- A queue's tail does not point to a thread outside of it.
pub tail_outside :
    (th : ℕ → Thread) (head tail : Option ℕ) (xs : List ℕ) (x : ℕ)
    → Linked th none head tail xs
    → occurs x xs ≡ false
    → points_to tail x ≡ false
tail_outside th head tail xs x l out = go (points_to tail x) refl
  where
    go : (b : Bool) → points_to tail x ≡ b → points_to tail x ≡ false
    go true e = absurd (let o = tail_of th head tail xs x l e in cc)
    go false e = e

-- A thread that is in no queue of its own priority is in none.
pub elsewhere :
    (s : Sched) (q : ℕ → List ℕ) (iq : IsQueued s q) (p x y : ℕ)
    → p < priority_levels
    → occurs y (q p) ≡ true
    → (s.threads x).priority ≢ p
    → y ≢ x
elsewhere s q iq p x y lt o ne e =
    ne (subst (λ k. (s.threads k).priority ≡ p) e (iq.level p y lt o))

-- No thread is in the queues of two priorities.
pub one_queue :
    (s : Sched) (q : ℕ → List ℕ) (iq : IsQueued s q) (p r x : ℕ)
    → p < priority_levels
    → r < priority_levels
    → p ≢ r
    → occurs x (q p) ≡ true
    → occurs x (q r) ≡ false
one_queue s q iq p r x lp lr ne o = go (occurs x (q r)) refl
  where
    go : (b : Bool) → occurs x (q r) ≡ b → occurs x (q r) ≡ false
    go true e = absurd (ne (sym (iq.level p x lp o) ∙ iq.level r x lr e))
    go false e = e

-- The queues read these fields of a block alone.
abbrev pub SameBlock : Thread → Thread → Type 0
SameBlock a b =
    (a.next ≡ b.next) × (a.prev ≡ b.prev) × (a.priority ≡ b.priority) × (a.state ≡ b.state)

-- Writes elsewhere leave the queues as they are.
pub IsQueued-frame :
    (s s' : Sched) (q : ℕ → List ℕ)
    → s'.ready_queue_heads ≡ s.ready_queue_heads
    → s'.ready_queue_tails ≡ s.ready_queue_tails
    → s'.stats.threads_ready ≡ s.stats.threads_ready
    → ((p x : ℕ)
        → p < priority_levels
        → occurs x (q p) ≡ true
        → SameBlock (s'.threads x) (s.threads x))
    → IsQueued s q
    → IsQueued s' q
IsQueued-frame s s' q eh et ec same iq = record {
  linked = λ p lt.
      rw (eh, et)
        (Linked-frame s.threads s'.threads none (s.ready_queue_heads p) (s.ready_queue_tails p)
          (q p) (λ x o. let b = same p x lt o in (b.0, b.1)) (iq.linked p lt));
  distinct = iq.distinct;
  level = λ p x lt o. (same p x lt o).2 ∙ iq.level p x lt o;
  waiting = λ p x lt o. (same p x lt o).3 ∙ iq.waiting p x lt o;
  counted = ec ∙ iq.counted;
}

-- A thread that is not READY is in no queue.
pub not_ready :
    (s : Sched) (q : ℕ → List ℕ) (iq : IsQueued s q) (p x : ℕ)
    → p < priority_levels
    → (s.threads x).state ≢ ready
    → occurs x (q p) ≡ false
not_ready s q iq p x lt ne = go (occurs x (q p)) refl
  where
    go : (b : Bool) → occurs x (q p) ≡ b → occurs x (q p) ≡ false
    go true e = absurd (ne (iq.waiting p x lt e))
    go false e = e
