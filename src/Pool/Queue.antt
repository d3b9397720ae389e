-- ===== src/Pool/Queue.antt =====
-- The pool's ring of slots is a bounded first-in first-out queue.
use mnet.Base.{
  ℕ, zero, suc, ◌+◌, ◌-◌, ◌%◌, ◌^◌, ◌≤◌, ◌<◌, ◌≡◌, ◌≢◌, refl, sym, ap₂, subst, ◌⊎◌, inl, inr, ap,
  ◌∙◌, true, false, List, [], ◌∷◌, ◌++◌, Bool-cases, if◌then◌else◌, arith, length, length-set,
  get_or, set, get_or-set_self, get_or-set_ne,
}
use native.Mathlib.Nat.{mod-add-mod, mod-eq_of_lt, mod-eq-sub-mod, add-zero}
use native.Mathlib.Numerals.{add-one}
use native.Mathlib.Decide.{dec_lt, ℕ_discrete}
use mnet.Pool.{
  Socket, Pool, add_size, Push, queued, refused, waits, push, add_tail, begin_shutdown, initial,
  capacity_for,
}

-- The slots hold the capacity, the head is one of them, and no index wraps around.
pub record IsValid (p : Pool) : Type 0 where
  pub allocated : length p.slots ≡ p.capacity
  pub small : p.capacity ≤ 2 ^ 62
  pub head_in : p.head < p.capacity
  pub count_in : p.count ≤ p.capacity

pub initial-IsValid :
    (slots : List Socket) (max_connections : ℕ)
    → max_connections < 2 ^ 31
    → length slots ≡ capacity_for max_connections
    → IsValid (initial slots (capacity_for max_connections))
unfolding initial capacity_for
initial-IsValid slots m h e = ground arith

-- The n sockets in the slots from index h on, going round at the capacity.
abbrev pub held : List Socket → ℕ → ℕ → ℕ → List Socket
held slots cap h zero = []
held slots cap h (suc n) = get_or slots h 0 ∷ held slots cap ((h + 1) % cap) n

-- The connections that wait, the oldest first.
abbrev pub waiting : Pool → List Socket
waiting p = held p.slots p.capacity p.head p.count

pub length-held : (slots : List Socket) (cap h n : ℕ) → length (held slots cap h n) ≡ n
length-held slots cap h zero = refl
length-held slots cap h (suc n) = ap suc (length-held slots cap ((h + 1) % cap) n)

pub held-of_pos :
    (slots : List Socket) (cap h n : ℕ)
    → 0 < n
    → held slots cap h n ≡ get_or slots h 0 ∷ held slots cap ((h + 1) % cap) (n - 1)
held-of_pos slots cap h zero p = absurd (omega arith)
held-of_pos slots cap h (suc n) p = ap (λ k. held slots cap h (suc k)) (omega arith)

-- A position fewer than cap steps ahead is another position.
pub ahead-ne : (cap h k : ℕ) → h < cap → 0 < k → k < cap → (h + k) % cap ≢ h
ahead-ne cap h k hh pos hk = elim (dec_lt (h + k) cap) [
  | yes below ↦ omega (arith, mod-eq_of_lt below)
  | no above ↦ omega (
    arith,
    mod-eq-sub-mod {n = h + k} {m = cap} (omega arith),
    mod-eq_of_lt {n = h + k - cap} {m = cap} (omega arith),
  )
]

pub one_ahead : (cap h n : ℕ) → ((h + 1) % cap + n) % cap ≡ (h + suc n) % cap
one_ahead cap h n = rw mod-add-mod (ap (λ k. k % cap) (omega arith))

-- A write at the first free slot appends.
pub held-set :
    (slots : List Socket) (cap c n h i : ℕ)
    → length slots ≡ cap
    → h < cap
    → n < cap
    → i ≡ (h + n) % cap
    → held (set slots i c) cap h (suc n) ≡ held slots cap h n ++ c ∷ []
held-set slots cap c zero h i e hh hn at_end =
    rw (at_end, add-zero, mod-eq_of_lt hh, get_or-set_self slots h c 0 (omega arith))
held-set slots cap c (suc n) h i e hh hn at_end =
    ap₂ ◌∷◌ (get_or-set_ne slots c 0 (rw at_end (ahead-ne cap h (suc n) hh (omega arith) hn))) (
      held-set slots cap c n ((h + 1) % cap) i e (omega arith) (omega arith)
        (at_end ∙ sym (one_ahead cap h n)))

-- What a push may answer. It appends to the queue of a pool that has room and is not shutting down;
-- it refuses, with the queue as it was and the pool shutting down, when the pool was shutting down,
-- or was full and the server had stopped; it waits only on a full queue of a running server.
abbrev pub Pushed : Pool → Socket → Push → Type 0
Pushed p c (queued q) =
    IsValid q
    × (waiting q ≡ waiting p ++ c ∷ [])
    × (p.count < p.capacity)
    × (p.shutting_down ≡ false)
    × (q.shutting_down ≡ false)
    × (q.running ≡ p.running)
    × (q.capacity ≡ p.capacity)
Pushed p c (refused q) =
    IsValid q
    × (waiting q ≡ waiting p)
    × (q.shutting_down ≡ true)
    × (q.capacity ≡ p.capacity)
    × ((p.shutting_down ≡ true) ⊎ ((p.count ≡ p.capacity) × (p.running ≡ false)))
Pushed p c waits = (p.count ≡ p.capacity) × (p.shutting_down ≡ false) × (p.running ≡ true)

pub no_wrap :
    (p : Pool)
    → IsValid p
    → (add_size p.head p.count ≡ p.head + p.count)
      × (add_size p.count 1 ≡ p.count + 1)
      × (add_size p.head 1 ≡ p.head + 1)
no_wrap p v = omega arith

pub add_tail-IsValid :
    (p : Pool) (c : Socket) → IsValid p → p.count < p.capacity → IsValid (add_tail p c)
unfolding add_tail
add_tail-IsValid p c v room =
    ground (arith, length-set p.slots (add_size p.head p.count % p.capacity) c, no_wrap p v)

pub waiting-add_tail :
    (p : Pool) (c : Socket)
    → IsValid p
    → p.count < p.capacity
    → waiting (add_tail p c) ≡ waiting p ++ c ∷ []
unfolding add_tail
waiting-add_tail p c v room =
    let (tail, count, head) = no_wrap p v in
    rw (tail, count, add-one)
      (held-set p.slots p.capacity c p.count p.head _ v.allocated v.head_in room refl)

pub push_room :
    (p : Pool) (c : Socket)
    → p.shutting_down ≡ false
    → p.count ≢ p.capacity
    → push p c ≡ queued (add_tail p c)
unfolding push
push_room p c up room = ground arith

pub push_full :
    (p : Pool) (c : Socket)
    → p.shutting_down ≡ false
    → p.count ≡ p.capacity
    → push p c ≡ (if p.running then waits else refused (begin_shutdown p))
unfolding push begin_shutdown
push_full p c up full = ground arith

pub push_down : (p : Pool) (c : Socket) → p.shutting_down ≡ true → push p c ≡ refused p
unfolding push
push_down p c down = ground arith

pub begin_shutdown-IsValid : (p : Pool) → IsValid p → IsValid (begin_shutdown p)
unfolding begin_shutdown
begin_shutdown-IsValid p v = ground arith

full-Pushed :
    (p : Pool) (c : Socket)
    → IsValid p
    → p.shutting_down ≡ false
    → p.count ≡ p.capacity
    → Pushed p c (if p.running then waits else refused (begin_shutdown p))
full-Pushed p c v up full = elim (Bool-cases p.running) [
  | inl runs ↦
      subst (λ b. Pushed p c (if b then waits else refused (begin_shutdown p))) (sym runs)
        (full, up, runs)
  | inr stopped ↦
      subst (λ b. Pushed p c (if b then waits else refused (begin_shutdown p))) (sym stopped)
        (
          begin_shutdown-IsValid p v,
          unfold begin_shutdown in refl,
          unfold begin_shutdown in refl,
          unfold begin_shutdown in refl,
          inr (full, stopped),
        )
]

-- `mnet_pool_push` on a valid pool appends the client when there is room and the pool is not
-- shutting down, refuses it with the queue unchanged when the pool is shutting down, or is full
-- and the server has stopped, and waits only on a full queue of a running server.
pub push-Pushed : (p : Pool) (c : Socket) → IsValid p → Pushed p c (push p c)
push-Pushed p c v = elim (Bool-cases p.shutting_down) [
  | inl down ↦ rw (push_down p c down) (v, refl, down, refl, inl down)
  | inr up ↦ elim (ℕ_discrete p.count p.capacity) [
    | yes full ↦ rw (push_full p c up full) (full-Pushed p c v up full)
    | no room ↦ rw (push_room p c up room) (
        let below : p.count < p.capacity = omega arith in
        (
          add_tail-IsValid p c v below,
          waiting-add_tail p c v below,
          below,
          up,
          unfold add_tail in up,
          unfold add_tail in refl,
          unfold add_tail in refl,
        ))
  ]
]
