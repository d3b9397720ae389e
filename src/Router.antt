-- ===== src/Router.antt =====
-- src/mnet_router.c: matching a request path against a route pattern and capturing parameters.
pub mod Grammar
pub mod Rounds
pub mod Sound
pub mod Complete
pub mod Cleanup
mod Tests
use mnet.Base.{
  ℕ, zero, suc, ◌+◌, Bool, List, [], ◌∷◌, ◌++◌, Option, none, some, ltb, ◌==◌, if◌then◌else◌, Bytes,
  span,
}
use mnet.Url.{hex_pair}

-- The inner loop that decodes a path parameter into `decoded[4096]`: `+` stays, and an escape that
-- is malformed or cut off is copied. The first argument is the room left, `sizeof(decoded) - 1 - di`.
-- (The router's own `hex_val` is the function `hex_value` of mnet_response.c.)
unfoldable pub decode_segment : ℕ → Bytes → Bytes
unfolding hex_pair
decode_segment zero s = []
decode_segment (suc room) (c ∷ h ∷ l ∷ s) =
    let copied = c ∷ decode_segment room (h ∷ l ∷ s) in
    let escaped : Bytes = elim (hex_pair h l) [
      | some v ↦ v ∷ decode_segment room s
      | none ↦ copied
    ] in
    if c == b'%' then escaped else copied
decode_segment (suc room) [] = []
decode_segment (suc room) (c ∷ s) = c ∷ decode_segment room s

abbrev pub decoded_room : ℕ
decoded_room = 4095

-- The result of `mnet_route_match`.
pub data Match : Type 0 where
  -- the return value n, and what stands in out_values[0 .. min(n, max_values))
  matched : ℕ → List Bytes → Match
  -- -1, after mnet_match_params_free(out_values, n); the values that were live then
  no_match : ℕ → List Bytes → Match
  -- -1 at once
  refused : Match

-- `if (request_path[rpos] == '/') rpos++;`
unfoldable pub skip_slash : Bytes → Bytes
skip_slash [] = []
skip_slash (d ∷ r) = if d == b'/' then r else d ∷ r

-- The test behind the loop, at the end of the pattern.
unfoldable pub pattern_end : Bytes → ℕ → List Bytes → Match
pattern_end [] n vs = matched n vs
pattern_end (d ∷ r) n vs = no_match n vs

-- `alloc n` says whether the allocation of the n-th value succeeds.
module _ (alloc : ℕ → Bool) (max_values : ℕ) where
  -- `if (n < max_values) { ... out_values[n] = value; } n++;`, and what follows.
  unfoldable pub capture : ℕ → List Bytes → Bytes → (List Bytes → Match) → Match
  capture n vs v next =
      if ltb n max_values
      then (if alloc n then next (vs ++ v ∷ []) else no_match (suc n) vs)
      else next vs

  -- `match_loop` is the loop at pattern + ppos and request_path + rpos; `skip_name` is the part of
  -- it that goes past the name of a parameter in the pattern.
  unfoldable mutual
    pub match_loop : Bytes → Bytes → ℕ → List Bytes → Match
    match_loop [] r n vs = pattern_end r n vs
    match_loop (c ∷ p) [] n vs = no_match n vs
    match_loop (c ∷ p) (d ∷ r) n vs =
        let literal = match_loop p r n vs in
        if c == b'*'
        then capture n vs (d ∷ r) (λ vs'. match_loop p [] (suc n) vs')
        else if c == b':'
        then (let (segment, rest) = span b'/' (d ∷ r) in
            capture n vs (decode_segment decoded_room segment)
              (λ vs'. skip_name p rest (suc n) vs'))
        else if c == d
        then literal
        else no_match n vs

    pub skip_name : Bytes → Bytes → ℕ → List Bytes → Match
    skip_name [] r n vs = pattern_end (skip_slash r) n vs
    skip_name (c ∷ p) r n vs =
        let past = match_loop p (skip_slash r) n vs in
        let more = skip_name p r n vs in if c == b'/' then past else more

  unfoldable pub route_match : Option Bytes → Option Bytes → Match
  route_match none r = refused
  route_match (some p) none = refused
  route_match (some []) (some r) = refused
  route_match (some (c ∷ p)) (some []) = refused
  route_match (some (c ∷ p)) (some (d ∷ r)) =
      if c == b'/'
      then (if d == b'/' then match_loop (c ∷ p) (d ∷ r) 0 [] else refused)
      else refused
