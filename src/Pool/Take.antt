-- ===== src/Pool/Take.antt =====
-- Taking connections out of the pool's ring: the pop of a worker, and the drain at shutdown.
use mnet.Base.{
  ℕ, zero, suc, ◌+◌, ◌<◌, ◌≡◌, refl, sym, subst, inl, inr, ap, ◌∙◌, true, false, [], ◌∷◌, ◌++◌,
  Bool-cases, if◌then◌else◌, arith, length, length-append, get_or,
}
use native.Mathlib.Decide.{dec_lt}
use mnet.Pool.{
  Socket, Pool, queued, refused, push, Pop, got, finished, starves, take_head, pop, begin_shutdown,
  drain_loop, drain,
}
use mnet.Pool.Queue.{
  held, waiting, IsValid, held-of_pos, no_wrap, begin_shutdown-IsValid, length-held, Pushed,
  push-Pushed,
}

-- What a pop may answer: the oldest connection and the rest of the queue, also while the pool is
-- shutting down; the end, only when it is shutting down and empty; a wait, only when it is empty.
abbrev pub Popped : Pool → Pop → Type 0
Popped p (got c q) =
    IsValid q
    × (waiting p ≡ c ∷ waiting q)
    × (q.shutting_down ≡ p.shutting_down)
    × (q.running ≡ p.running)
    × (q.capacity ≡ p.capacity)
Popped p finished = (p.count ≡ 0) × (p.shutting_down ≡ true)
Popped p starves = (p.count ≡ 0) × (p.shutting_down ≡ false)

pub take_head-IsValid : (p : Pool) → IsValid p → 0 < p.count → IsValid (take_head p)
unfolding take_head
take_head-IsValid p v h = ground arith

pub waiting-take_head :
    (p : Pool)
    → IsValid p
    → 0 < p.count
    → waiting p ≡ get_or p.slots p.head 0 ∷ waiting (take_head p)
unfolding take_head
waiting-take_head p v h =
    let (tail, count, head) = no_wrap p v in
    rw head (held-of_pos p.slots p.capacity p.head p.count h)

pub pop_some : (p : Pool) → 0 < p.count → pop p ≡ got (get_or p.slots p.head 0) (take_head p)
unfolding pop
pop_some p h = ground arith

pub pop_empty : (p : Pool) → p.count ≡ 0 → pop p ≡ (if p.shutting_down then finished else starves)
unfolding pop
pop_empty p h = ground arith

-- `mnet_pool_pop` on a valid pool hands out the oldest connection and keeps the rest, in order, also
-- while the pool is shutting down; it ends a worker only when the pool is shutting down and empty,
-- and waits only when the pool is empty and not shutting down.
pub pop-Popped : (p : Pool) → IsValid p → Popped p (pop p)
pop-Popped p v = elim (dec_lt 0 p.count) [
  | yes h ↦ rw (pop_some p h) (
    take_head-IsValid p v h,
    waiting-take_head p v h,
    unfold take_head in refl,
    unfold take_head in refl,
    unfold take_head in refl,
  )
  | no h ↦
      let none_left : p.count ≡ 0 = omega arith in
      rw (pop_empty p none_left) (elim (Bool-cases p.shutting_down) [
        | inl down ↦
            subst (λ b. Popped p (if b then finished else starves)) (sym down) (none_left, down)
        | inr up ↦ subst (λ b. Popped p (if b then finished else starves)) (sym up) (none_left, up)
      ])
]

drain_round :
    (n : ℕ) (p : Pool)
    → 0 < p.count
    → drain_loop (suc n) p ≡ get_or p.slots p.head 0 ∷ drain_loop n (take_head p)
unfolding drain_loop
drain_round n p h = ground arith

pub drain_loop-waiting : (n : ℕ) (p : Pool) → IsValid p → n ≡ p.count → drain_loop n p ≡ waiting p
drain_loop-waiting zero p v e = unfold drain_loop in ap (λ k. held p.slots p.capacity p.head k) e
drain_loop-waiting (suc n) p v e =
    drain_round n p (omega arith)
    ∙ ap (λ l. get_or p.slots p.head 0 ∷ l)
        (drain_loop-waiting n (take_head p) (take_head-IsValid p v (omega arith))
          (unfold take_head in omega arith))
    ∙ sym (waiting-take_head p v (omega arith))

-- At shutdown `mnet_pool_shutdown` closes exactly the connections that still wait, the oldest first.
pub drain-waiting : (p : Pool) → IsValid p → drain (begin_shutdown p) ≡ waiting p
unfolding drain
drain-waiting p v =
    drain_loop-waiting (begin_shutdown p).count (begin_shutdown p) (begin_shutdown-IsValid p v) refl
    ∙ (unfold begin_shutdown in refl)

-- The answers of a push and a pop, inverted.
module _ (p q : Pool) (c : Socket) (v : IsValid p) where
  pub queued_facts :
      push p c ≡ queued q
      → IsValid q
        × (waiting q ≡ waiting p ++ c ∷ [])
        × (q.count ≡ p.count + 1)
        × (q.capacity ≡ p.capacity)
  queued_facts e =
      let f = subst (Pushed p c) e (push-Pushed p c v) in
      (
        f.0,
        f.1,
        omega (
          arith,
          ap length f.1,
          length-held q.slots q.capacity q.head q.count,
          length-held p.slots p.capacity p.head p.count,
          length-append (waiting p) (c ∷ []),
        ),
        f.6,
      )

  pub refused_facts :
      push p c ≡ refused q
      → IsValid q × (waiting q ≡ waiting p) × (q.count ≡ p.count) × (q.capacity ≡ p.capacity)
  refused_facts e =
      let f = subst (Pushed p c) e (push-Pushed p c v) in
      (
        f.0,
        f.1,
        omega (
          arith,
          ap length f.1,
          length-held q.slots q.capacity q.head q.count,
          length-held p.slots p.capacity p.head p.count,
        ),
        f.3,
      )

  pub got_facts :
      pop p ≡ got c q
      → IsValid q
        × (waiting p ≡ c ∷ waiting q)
        × (p.count ≡ q.count + 1)
        × (q.capacity ≡ p.capacity)
  got_facts e =
      let f = subst (Popped p) e (pop-Popped p v) in
      (
        f.0,
        f.1,
        omega (
          arith,
          ap length f.1,
          length-held q.slots q.capacity q.head q.count,
          length-held p.slots p.capacity p.head p.count,
        ),
        f.4,
      )
