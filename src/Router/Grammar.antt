-- ===== src/Router/Grammar.antt =====
-- The route patterns as a grammar: which paths fit a pattern, and with which values.
use mnet.Base.{ℕ, ◌≡◌, ◌≢◌, refl, List, [], ◌∷◌, ◌++◌, Bytes, All, span, StartsAt, ==_ne}
use mnet.Router.{decode_segment, decoded_room, skip_slash}

-- What is left behind a name or a segment: nothing, or what follows a slash.
pub data Behind : Bytes → Bytes → Type 0 where
  nothing : Behind [] []
  slash : {c : ℕ} {s : Bytes} → c ≡ b'/' → Behind (c ∷ s) s

-- `Matches p r vs`: the path r fits the pattern p, and vs are the values of all its parameters.
-- A literal byte stands for itself, `:name` for one segment (decoded), and a final `*` for a rest
-- that is not empty. One slash behind a name or a segment is optional on either side.
pub data Matches : Bytes → Bytes → List Bytes → Type 0 where
  done : Matches [] [] []
  literal :
      {c d : ℕ} {p r : Bytes} {vs : List Bytes}
      → c ≢ b'*'
      → c ≢ b':'
      → d ≡ c
      → Matches p r vs
      → Matches (c ∷ p) (d ∷ r) vs
  wildcard : {c d : ℕ} {r : Bytes} → c ≡ b'*' → Matches (c ∷ []) (d ∷ r) ((d ∷ r) ∷ [])
  param :
      {c : ℕ} {pattern request ptail p rtail r value : Bytes} {vs : List Bytes}
      (name segment : Bytes)
      → c ≡ b':'
      → pattern ≡ name ++ ptail
      → All (λ x. x ≢ b'/') name
      → Behind ptail p
      → request ≢ []
      → request ≡ segment ++ rtail
      → All (λ x. x ≢ b'/') segment
      → Behind rtail r
      → value ≡ decode_segment decoded_room segment
      → Matches p r vs
      → Matches (c ∷ pattern) request (value ∷ vs)

pub Behind-skip_slash : (s : Bytes) → StartsAt b'/' s → Behind s (skip_slash s)
Behind-skip_slash [] h = unfold skip_slash in nothing
Behind-skip_slash (c ∷ s) h = unfold skip_slash in (rw h (slash refl))

pub skip_slash-Behind : {s r : Bytes} → Behind s r → skip_slash s ≡ r
unfolding skip_slash
skip_slash-Behind nothing = refl
skip_slash-Behind (slash e) = rw e

pub StartsAt-Behind : {s r : Bytes} → Behind s r → StartsAt b'/' s
StartsAt-Behind nothing = tt
StartsAt-Behind (slash e) = e

pub behind_slash : (c : ℕ) (p : Bytes) → c ≡ b'/' → skip_slash (span b'/' (c ∷ p)).1 ≡ p
unfolding span skip_slash
behind_slash c p e = rw e

pub behind_name :
    (c : ℕ) (p : Bytes) → c ≢ b'/' → skip_slash (span b'/' (c ∷ p)).1 ≡ skip_slash (span b'/' p).1
unfolding span
behind_name c p ne = rw (==_ne c b'/' ne)
