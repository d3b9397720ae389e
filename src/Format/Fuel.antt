-- ===== src/Format/Fuel.antt =====
-- src/mnet_response.c, `mnet_jsonfv`: the loop over the format ends.
use mnet.Base.{
  ℕ, zero, suc, ◌+◌, ◌*◌, ◌≤◌, ◌<◌, leb, ◌≢◌, Bool, List, [], ◌∷◌, Option, none, some, inl, inr,
  arith, ◌==◌, Bytes, length, Bool-cases,
}
use mnet.Format.{Directive, percent, lone, star, unended, cut, string, char, number, directive}
use mnet.Format.Buffer.{Buffer, make_room, put_byte}
use mnet.App.{ℤ}
use mnet.Format.Spec.{verdict}
use mnet.Format.Loop.{
  Arg, failed, undefined, unfinished, Round, stop, go, directive_step, step_in, step, resume,
  format_loop, jsonfv,
}
use mnet.Format.Moves.{Moves, string-Moves, cut-Moves, char-Moves, number-Moves}
use mnet.Format.Rest.{Leaves, directive-Leaves}

-- A round ends the loop with an outcome other than `unfinished`, or leaves at most n bytes, and a buffer
-- whose capacity is not 0.
abbrev Advances : {R : Type 0} → ℕ → Round R → Type 0
Advances n (stop o) = o ≢ unfinished
Advances n (go b f args) = (length f ≤ n) × (0 < b.capacity)

abbrev HasCapacity : Option Buffer → Type 0
HasCapacity none = Unit
HasCapacity (some b) = 0 < b.capacity

make_room-pos : (memory : ℕ → Bool) (b : Buffer) → 0 < b.capacity → HasCapacity (make_room memory b)
unfolding make_room
make_room-pos memory b pos = elim (Bool-cases (leb b.capacity (length b.text + 1))) [
  | inl full ↦
      rw full (elim (Bool-cases (memory (b.capacity * 2))) [
        | inl e ↦ rw e (omega arith)
        | inr e ↦ rw e tt
      ])
  | inr free ↦ rw free pos
]

failed-ne : failed ≢ unfinished
failed-ne = λ e. cc

undefined-ne : undefined ≢ unfinished
undefined-ne = λ e. cc

Moves-Advances :
    {R : Type 0} (b : Buffer) (f : Bytes) (n : ℕ)
    → length f ≤ n
    → 0 < b.capacity
    → (s : Round R) → Moves b f s
    → Advances n s
Moves-Advances b f n h pos (stop o) (inl e) = rw e failed-ne
Moves-Advances b f n h pos (stop o) (inr e) = rw e undefined-ne
Moves-Advances b f n h pos (go b' f' args) (e, inl same) = (rw e h, rw same pos)
Moves-Advances b f n h pos (go b' f' args) (e, inr (w, same, room)) = (rw e h, omega arith)

module _ {R : Type 0} (memory : ℕ → Bool) (print_int : Bytes → ℤ → Option Bytes)
    (print_real : Bytes → R → Option Bytes) where
  directive_step-Advances :
      (n : ℕ) (d : Directive) (b : Buffer) (args : List (Arg R))
      → 0 < b.capacity
      → Leaves n d
      → Advances n (directive_step memory print_int print_real d b args)
  unfolding directive_step
  directive_step-Advances n (percent f) b args pos h = (h, unfold put_byte in pos)
  directive_step-Advances n lone b args pos h = failed-ne
  directive_step-Advances n star b args pos h = failed-ne
  directive_step-Advances n unended b args pos h = failed-ne
  directive_step-Advances n (cut k f) b args pos h =
      Moves-Advances b f n h pos _ (cut-Moves memory print_int print_real b pos f k args)
  directive_step-Advances n (string f) b args pos h =
      Moves-Advances b f n h pos _ (string-Moves memory print_int print_real b pos f args)
  directive_step-Advances n (char f) b args pos h =
      Moves-Advances b f n h pos _ (char-Moves memory print_int print_real b pos f args)
  directive_step-Advances n (number body conv f) b args pos h =
      Moves-Advances b f n h pos _
        (number-Moves memory print_int print_real b pos f (verdict body conv) args)

  step-Advances :
      (b : Buffer) (c : ℕ) (f : Bytes) (args : List (Arg R))
      → 0 < b.capacity
      → Advances (length f) (step memory print_int print_real b c f args)
  unfolding step step_in
  step-Advances b c f args pos = roomy (make_room memory b) (make_room-pos memory b pos)
    where
      roomy :
          (o : Option Buffer)
          → HasCapacity o
          → Advances (length f) (step_in memory print_int print_real o c f args)
      roomy none pos' = failed-ne
      roomy (some b') pos' = elim (Bool-cases (c == b'%')) [
        | inl e ↦
            rw e
              (directive_step-Advances (length f) (directive f) b' args pos' (directive-Leaves f))
        | inr e ↦ rw e (omega arith, unfold put_byte in pos')
      ]

  loop-finished :
      (fuel : ℕ) (b : Buffer) (f : Bytes) (args : List (Arg R))
      → length f ≤ fuel
      → 0 < b.capacity
      → format_loop memory print_int print_real fuel b f args ≢ unfinished
  unfolding format_loop resume
  loop-finished fuel b [] args h pos = λ e. cc
  loop-finished zero b (c ∷ f) args h pos = absurd (omega arith)
  loop-finished (suc fuel) b (c ∷ f) args h pos =
      resumed (step memory print_int print_real b c f args) (step-Advances b c f args pos)
        (loop-finished fuel)
    where
      resumed :
          (s : Round R)
          → Advances (length f) s
          → ((b' : Buffer) (f' : Bytes) (args' : List (Arg R))
              → length f' ≤ fuel
              → 0 < b'.capacity
              → format_loop memory print_int print_real fuel b' f' args' ≢ unfinished)
          → resume memory print_int print_real (format_loop memory print_int print_real fuel) s
            ≢ unfinished
      resumed (stop o) a again = a
      resumed (go b' f' args') a again = again b' f' args' (omega arith) a.1

  -- Whatever allocations and snprintf answer, `mnet_jsonfv` ends: each round ends the loop over the format
  -- or passes at least one byte of it, and each loop that grows the buffer doubles its capacity until the
  -- text fits or an allocation fails.
  pub jsonfv-finished :
      (format : Option Bytes) (args : List (Arg R))
      → jsonfv memory print_int print_real format args ≢ unfinished
  unfolding jsonfv
  jsonfv-finished none args = failed-ne
  jsonfv-finished (some f) args = elim (Bool-cases (memory 256)) [
    | inl e ↦ rw e (loop-finished (length f) _ f args (omega arith) (omega arith))
    | inr e ↦ rw e failed-ne
  ]
