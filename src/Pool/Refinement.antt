-- ===== src/Pool/Refinement.antt =====
-- The pool implements a bounded queue that is first in, first out: what any sequence of its operations
-- answers.
use mnet.Base.{
  ℕ, ◌<◌, ◌≡◌, refl, sym, ap, ◌∙◌, inl, inr, Bool, true, false, List, [], ◌∷◌, ◌++◌, arith, length,
  leb, if◌then◌else◌, Bool-cases,
}
use native.Mathlib.Decide.{dec_lt, ℕ_discrete}
use mnet.Pool.{
  Socket, Pool, Push, queued, refused, waits, push, Pop, got, finished, starves, pop, take_head,
  add_tail, begin_shutdown, drain,
}
use mnet.Pool.Queue.{
  waiting, length-held, IsValid, push_room, push_full, push_down, waiting-add_tail,
  add_tail-IsValid, begin_shutdown-IsValid,
}
use mnet.Pool.Take.{drain_loop-waiting, pop_some, pop_empty, waiting-take_head, take_head-IsValid}

-- An operation under the mutex: a push, a pop, mnet_pool_shutdown, and the end of `app->running`.
pub data Operation : Type 0 where
  offer : Socket → Operation
  fetch close halt : Operation

pub data Reply : Type 0 where
  accepted turned_away blocked : Reply
  handed : Socket → Reply
  ended starved noted : Reply

-- The abstract queue, the oldest connection first, and what the operations look at.
pub record Queue : Type 0 where
  pub items : List Socket
  pub bound : ℕ
  pub closing : Bool
  pub live : Bool

-- A full queue turns a connection away, and closes, only when the server has stopped.
abbrev pub offered : Queue → Socket → Reply × Queue
offered q c =
    if q.closing
    then (turned_away, q)
    else if leb q.bound (length q.items)
    then (if q.live then (blocked, q) else (turned_away, record q { closing = true }))
    else (accepted, record q { items = q.items ++ c ∷ [] })

abbrev pub fetched : List Socket → Queue → Reply × Queue
fetched [] q = (if q.closing then ended else starved, q)
fetched (c ∷ items) q = (handed c, record q { items = items })

-- What an operation promises.
abbrev pub answered : Operation → Queue → Reply × Queue
answered (offer c) q = offered q c
answered fetch q = fetched q.items q
answered close q = (noted, record q { closing = true })
answered halt q = (noted, record q { live = false })

abbrev pub pushed : Pool → Push → Reply × Pool
pushed p (queued q) = (accepted, q)
pushed p (refused q) = (turned_away, q)
pushed p waits = (blocked, p)

abbrev pub popped : Pool → Pop → Reply × Pool
popped p (got c q) = (handed c, q)
popped p finished = (ended, p)
popped p starves = (starved, p)

-- What the pool does.
abbrev pub perform : Operation → Pool → Reply × Pool
perform (offer c) p = pushed p (push p c)
perform fetch p = popped p (pop p)
perform close p = (noted, begin_shutdown p)
perform halt p = (noted, record p { running = false })

-- The replies of a sequence of operations, and the state behind them.
abbrev pub run : {S : Type 0} → (Operation → S → Reply × S) → List Operation → S → List Reply × S
run act [] s = ([], s)
run act (o ∷ os) s = ((act o s).0 ∷ (run act os (act o s).1).0, (run act os (act o s).1).1)

-- The ring forgotten: its connections in order.
abbrev pub abstracted : Pool → Queue
abstracted p = record {
  items = waiting p;
  bound = p.capacity;
  closing = p.shutting_down;
  live = p.running;
}

-- One operation of the pool is one of the queue.
abbrev Simulates : Operation → Pool → Type 0
Simulates o p =
    IsValid (perform o p).1
    × (answered o (abstracted p) ≡ ((perform o p).0, abstracted (perform o p).1))

offered_closing : (q : Queue) (c : Socket) → q.closing ≡ true → offered q c ≡ (turned_away, q)
offered_closing q c h = ground arith

offered_room :
    (q : Queue) (c : Socket)
    → q.closing ≡ false
    → length q.items < q.bound
    → offered q c ≡ (accepted, record q { items = q.items ++ c ∷ [] })
offered_room q c h room = ground arith

offered_full :
    (q : Queue) (c : Socket)
    → q.closing ≡ false
    → length q.items ≡ q.bound
    → offered q c ≡ (if q.live then (blocked, q) else (turned_away, record q { closing = true }))
offered_full q c h full = ground arith

length-waiting : (p : Pool) → length (waiting p) ≡ p.count
length-waiting p = length-held p.slots p.capacity p.head p.count

full-Simulates :
    (c : Socket) (p : Pool)
    → IsValid p
    → push p c ≡ (if p.running then waits else refused (begin_shutdown p))
    → offered (abstracted p) c ≡ (
        if p.running
        then (blocked, abstracted p)
        else (turned_away, record (abstracted p) { closing = true }))
    → Simulates (offer c) p
full-Simulates c p v e a = elim (Bool-cases p.running) [
  | inl runs ↦
      let e' : push p c ≡ waits =
        e ∙ ap (λ b. if b then waits else refused (begin_shutdown p)) runs in
      let a' : offered (abstracted p) c ≡ (blocked, abstracted p) =
        a
        ∙ ap
            (λ b.
              if b
              then (blocked, abstracted p)
              else (turned_away, record (abstracted p) { closing = true }))
            runs in
      rw e' (v, a')
  | inr stopped ↦
      let e' : push p c ≡ refused (begin_shutdown p) =
        e ∙ ap (λ b. if b then waits else refused (begin_shutdown p)) stopped in
      let a' : offered (abstracted p) c ≡ (turned_away, record (abstracted p) { closing = true }) =
        a
        ∙ ap
            (λ b.
              if b
              then (blocked, abstracted p)
              else (turned_away, record (abstracted p) { closing = true }))
            stopped in
      rw e' (begin_shutdown-IsValid p v, a' ∙ (unfold begin_shutdown in refl))
]

abstracted-add_tail :
    (p : Pool) (c : Socket)
    → IsValid p
    → p.count < p.capacity
    → abstracted (add_tail p c) ≡ record (abstracted p) { items = waiting p ++ c ∷ [] }
unfolding add_tail
abstracted-add_tail p c v room =
    ap
      (λ (l : List Socket). record {
        items = l;
        bound = p.capacity;
        closing = p.shutting_down;
        live = p.running;
      })
      (waiting-add_tail p c v room)

offer-Simulates : (c : Socket) (p : Pool) → IsValid p → Simulates (offer c) p
offer-Simulates c p v = elim (Bool-cases p.shutting_down) [
  | inl down ↦ rw (push_down p c down) (v, offered_closing (abstracted p) c down)
  | inr up ↦ elim (ℕ_discrete p.count p.capacity) [
    | yes full ↦
        full-Simulates c p v (push_full p c up full)
          (offered_full (abstracted p) c up (length-waiting p ∙ full))
    | no room ↦
        let below : p.count < p.capacity = omega arith in
        rw (push_room p c up room) (
          add_tail-IsValid p c v below,
          offered_room (abstracted p) c up (omega (arith, length-waiting p))
              ∙ ap (λ q. (accepted, q)) (sym (abstracted-add_tail p c v below)),
        )
  ]
]

fetched_none :
    (q : Queue) → length q.items ≡ 0 → fetched q.items q ≡ (if q.closing then ended else starved, q)
fetched_none q h = by_items q.items h
  where
    by_items :
        (l : List Socket) → length l ≡ 0 → fetched l q ≡ (if q.closing then ended else starved, q)
    by_items [] h' = refl
    by_items (c ∷ l) h' = absurd (omega arith)

fetch-Simulates : (p : Pool) → IsValid p → Simulates fetch p
fetch-Simulates p v = elim (dec_lt 0 p.count) [
  | yes h ↦
      rw (pop_some p h, waiting-take_head p v h) (take_head-IsValid p v h, unfold take_head in refl)
  | no h ↦
      let none_left : p.count ≡ 0 = omega arith in
      let answer = fetched_none (abstracted p) (length-waiting p ∙ none_left) in
      elim (Bool-cases p.shutting_down) [
        | inl down ↦
            let e : pop p ≡ finished =
              pop_empty p none_left ∙ ap (λ b. if b then finished else starves) down in
            rw e (v, answer ∙ ap (λ b. (if b then ended else starved, abstracted p)) down)
        | inr up ↦
            let e : pop p ≡ starves =
              pop_empty p none_left ∙ ap (λ b. if b then finished else starves) up in
            rw e (v, answer ∙ ap (λ b. (if b then ended else starved, abstracted p)) up)
      ]
]

Operation-Simulates : (o : Operation) (p : Pool) → IsValid p → Simulates o p
Operation-Simulates (offer c) p v = offer-Simulates c p v
Operation-Simulates fetch p v = fetch-Simulates p v
Operation-Simulates close p v = (begin_shutdown-IsValid p v, unfold begin_shutdown in refl)
Operation-Simulates halt p v = (
  record { allocated = v.allocated; small = v.small; head_in = v.head_in; count_in = v.count_in },
  refl,
)

run-Refines :
    (os : List Operation) (p : Pool)
    → IsValid p
    → IsValid (run perform os p).1
      × (run answered os (abstracted p) ≡ ((run perform os p).0, abstracted (run perform os p).1))
run-Refines [] p v = (v, refl)
run-Refines (o ∷ os) p v =
    let (valid, one) = Operation-Simulates o p v in
    let (valid', others) = run-Refines os (perform o p).1 valid in
    (
      valid',
      ap (λ (r : Reply × Queue). (r.0 ∷ (run answered os r.1).0, (run answered os r.1).1)) one
          ∙ ap (λ (r : List Reply × Queue). ((perform o p).0 ∷ r.0, r.1)) others,
    )

-- Whatever sequence of pushes, pops, a shutdown and the end of the server meets a valid pool, it answers
-- each as the queue that is bounded and first in, first out does, and the connections that the drain then
-- finds are those that the queue holds, in order.
pub run-Replies :
    (os : List Operation) (p : Pool)
    → IsValid p
    → ((run perform os p).0 ≡ (run answered os (abstracted p)).0)
      × (drain (run perform os p).1 ≡ (run answered os (abstracted p)).1.items)
unfolding drain
run-Replies os p v =
    let (valid, same) = run-Refines os p v in
    (
      sym (ap (λ r. r.0) same),
      drain_loop-waiting _ (run perform os p).1 valid refl ∙ sym (ap (λ r. r.1.items) same),
    )
