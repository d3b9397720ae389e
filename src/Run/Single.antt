-- ===== src/Run/Single.antt =====
-- The single-threaded server never refuses a connection.
use mnet.Base.{ℕ, ◌≡◌, refl, ap, Bool, true, false, List, [], ◌∷◌, arith}
use mnet.Run.{
  Accept, connection, interrupted, broken, Action, serves, closes, stops, at_limit, admit,
  single_loop,
}

-- Every connection is served and closed, in order, until the server is stopped or an accept fails.
abbrev pub in_order : List (Bool × Accept) → List Action
in_order [] = []
in_order ((false, a) ∷ events) = stops ∷ []
in_order ((true, interrupted) ∷ events) = in_order events
in_order ((true, broken) ∷ events) = stops ∷ []
in_order ((true, connection c) ∷ events) = serves c ∷ closes c ∷ in_order events

at_limit-zero : (max : ℕ) → at_limit max 0 ≡ false
unfolding at_limit
at_limit-zero max = ground arith

-- With one worker every connection that is accepted is served and closed before the next is accepted,
-- until the server is stopped or an accept fails, whatever max_connections is: it never refuses any.
pub single_loop-in_order :
    (max : ℕ) (events : List (Bool × Accept)) → single_loop max 0 events ≡ in_order events
unfolding single_loop admit
single_loop-in_order max [] = refl
single_loop-in_order max ((false, a) ∷ events) = refl
single_loop-in_order max ((true, interrupted) ∷ events) = single_loop-in_order max events
single_loop-in_order max ((true, broken) ∷ events) = refl
single_loop-in_order max ((true, connection c) ∷ events) =
    rw (at_limit-zero max) (ap (λ l. serves c ∷ closes c ∷ l) (single_loop-in_order max events))
