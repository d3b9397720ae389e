-- ===== src/Format/Room.antt =====
-- src/mnet_response.c, `mnet_jsonfv`: no write leaves the buffer.
use mnet.Base.{
  ℕ, zero, suc, ◌<◌, ◌+◌, ◌*◌, ◌≡◌, refl, subst, Bool, List, [], ◌∷◌, Option, none, some, ◌⊎◌, inl,
  inr, arith, ◌==◌, leb, Bytes, length, length-append, Bool-cases,
}
use mnet.Format.{Directive, percent, lone, star, unended, cut, string, char, number, directive}
use mnet.Format.Buffer.{Buffer, make_room, put_byte, IsRoomy}
use mnet.Format.Moves.{Moves, string-Moves, cut-Moves, char-Moves, number-Moves}
use mnet.App.{ℤ}
use mnet.Format.Spec.{verdict}
use mnet.Format.Loop.{
  Arg, failed, undefined, written, Round, stop, go, directive_step, step_in, step, resume,
  format_loop, jsonfv,
}

-- There is room for two bytes behind the text: the one that is copied, and the NUL.
abbrev HasSpare : Buffer → Type 0
HasSpare b = length b.text + 1 < b.capacity

abbrev Holds : (Buffer → Type 0) → Option Buffer → Type 0
Holds P none = Unit
Holds P (some b) = P b

make_room-HasSpare :
    (memory : ℕ → Bool) (b : Buffer) → IsRoomy b → Holds HasSpare (make_room memory b)
unfolding make_room
make_room-HasSpare memory b h = elim (Bool-cases (leb b.capacity (length b.text + 1))) [
  | inl full ↦
      rw full (elim (Bool-cases (memory (b.capacity * 2))) [
        | inl e ↦ rw e (omega arith)
        | inr e ↦ rw e tt
      ])
  | inr free ↦ rw free (ground arith)
]

put_byte-IsRoomy : (b : Buffer) (c : ℕ) → HasSpare b → IsRoomy (put_byte b c)
unfolding put_byte
put_byte-IsRoomy b c h = omega (arith, length-append b.text (c ∷ []))

-- After a round that goes on, the buffer has room again for the NUL; no round ends the loop with a text.
abbrev Keeps : {R : Type 0} → Round R → Type 0
Keeps (stop o) = (o ≡ failed) ⊎ (o ≡ undefined)
Keeps (go b f args) = IsRoomy b

Moves-Keeps :
    {R : Type 0} (b : Buffer) (f : Bytes) → IsRoomy b → (s : Round R) → Moves b f s → Keeps s
Moves-Keeps b f h (stop o) m = m
Moves-Keeps b f h (go b' f' args) (_, inl e) = rw e h
Moves-Keeps b f h (go b' f' args) (_, inr (w, e, room)) = room

module _ {R : Type 0} (memory : ℕ → Bool) (print_int : Bytes → ℤ → Option Bytes)
    (print_real : Bytes → R → Option Bytes) where
  directive_step-Keeps :
      (d : Directive) (b : Buffer) (args : List (Arg R))
      → HasSpare b
      → Keeps (directive_step memory print_int print_real d b args)
  unfolding directive_step
  directive_step-Keeps (percent f) b args h = put_byte-IsRoomy b b'%' h
  directive_step-Keeps lone b args h = inl refl
  directive_step-Keeps star b args h = inl refl
  directive_step-Keeps unended b args h = inl refl
  directive_step-Keeps (cut k f) b args h =
      Moves-Keeps b f (omega arith) _
        (cut-Moves memory print_int print_real b (omega arith) f k args)
  directive_step-Keeps (string f) b args h =
      Moves-Keeps b f (omega arith) _
        (string-Moves memory print_int print_real b (omega arith) f args)
  directive_step-Keeps (char f) b args h =
      Moves-Keeps b f (omega arith) _
        (char-Moves memory print_int print_real b (omega arith) f args)
  directive_step-Keeps (number body conv f) b args h =
      Moves-Keeps b f (omega arith) _
        (number-Moves memory print_int print_real b (omega arith) f (verdict body conv) args)

  step-Keeps :
      (b : Buffer) (c : ℕ) (f : Bytes) (args : List (Arg R))
      → IsRoomy b
      → Keeps (step memory print_int print_real b c f args)
  unfolding step step_in
  step-Keeps b c f args h = roomy (make_room memory b) (make_room-HasSpare memory b h)
    where
      roomy :
          (o : Option Buffer)
          → Holds HasSpare o
          → Keeps (step_in memory print_int print_real o c f args)
      roomy none spare = inl refl
      roomy (some b') spare = elim (Bool-cases (c == b'%')) [
        | inl e ↦ rw e (directive_step-Keeps (directive f) b' args spare)
        | inr e ↦ rw e (put_byte-IsRoomy b' c spare)
      ]

  -- The states that the loop comes through, from an empty buffer of 256 bytes.
  pub data Reached (format : Bytes) (given : List (Arg R))
      : Buffer → Bytes → List (Arg R) → Type 0 where
    start : Reached format given (record { text = []; capacity = 256 }) format given
    round :
        (b : Buffer) (c : ℕ) (f : Bytes) (args : List (Arg R)) {b' : Buffer} {f' : Bytes}
        {args' : List (Arg R)}
        → Reached format given b (c ∷ f) args
        → step memory print_int print_real b c f args ≡ go b' f' args'
        → Reached format given b' f' args'

  -- Wherever the loop over the format comes, the text is shorter than the buffer, so the NUL at its
  -- end is inside.
  pub Reached-IsRoomy :
      (format : Bytes) (given : List (Arg R)) {b : Buffer} {f : Bytes} {args : List (Arg R)}
      → Reached format given b f args
      → IsRoomy b
  Reached-IsRoomy format given start = omega arith
  Reached-IsRoomy format given (round b c f args before e) =
      subst Keeps e (step-Keeps b c f args (Reached-IsRoomy format given before))

  -- The loop came to the end of the format with the text w.
  abbrev Ended : Bytes → List (Arg R) → Bytes → Type 0
  Ended format given w =
      (b : Buffer) × (args : List (Arg R)) × Reached format given b [] args × (w ≡ b.text)

  loop-Ended :
      (format : Bytes) (given : List (Arg R)) (fuel : ℕ) (b : Buffer) (f : Bytes)
      (args : List (Arg R)) (w : Bytes)
      → Reached format given b f args
      → format_loop memory print_int print_real fuel b f args ≡ written w
      → Ended format given w
  unfolding format_loop resume
  loop-Ended format given fuel b [] args w r h = (b, args, r, cc)
  loop-Ended format given zero b (c ∷ f) args w r h = absurd (cc)
  loop-Ended format given (suc fuel) b (c ∷ f) args w r h =
      go_on (step memory print_int print_real b c f args) refl
        (step-Keeps b c f args (Reached-IsRoomy format given r)) h
        (λ b' f' args' r'. loop-Ended format given fuel b' f' args' w r')
    where
      go_on :
          (s : Round R)
          → step memory print_int print_real b c f args ≡ s
          → Keeps s
          → resume memory print_int print_real (format_loop memory print_int print_real fuel) s
            ≡ written w
          → ((b' : Buffer) (f' : Bytes) (args' : List (Arg R))
              → Reached format given b' f' args'
              → format_loop memory print_int print_real fuel b' f' args' ≡ written w
              → Ended format given w)
          → Ended format given w
      go_on (stop o) e (inl k) h' again = absurd (cc)
      go_on (stop o) e (inr k) h' again = absurd (cc)
      go_on (go b' f' args') e k h' again = again b' f' args' (round b c f args r e) h'

  -- A body that `mnet_jsonfv` returns is the text of a state that the loop comes to at the end of the
  -- format, and there it is shorter than the buffer, so the NUL behind it is inside.
  pub jsonfv-IsRoomy :
      (format : Bytes) (given : List (Arg R)) (w : Bytes)
      → jsonfv memory print_int print_real (some format) given ≡ written w
      → (b : Buffer) × (args : List (Arg R)) × Reached format given b [] args
        × (w ≡ b.text)
        × (length w < b.capacity)
  unfolding jsonfv
  jsonfv-IsRoomy format given w h = elim (Bool-cases (memory 256)) [
    | inl e ↦
        let (b, args, r, same) =
          loop-Ended format given (length format) (record { text = []; capacity = 256 }) format
            given w start (rw e at h) in
        (b, args, r, same, rw same (Reached-IsRoomy format given r))
    | inr e ↦ absurd (cc)
  ]
