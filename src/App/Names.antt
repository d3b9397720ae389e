-- ===== src/App/Names.antt =====
-- The parameter names of a route against the values that a match captures.
use mnet.Base.{
  ℕ, suc, ◌≡◌, ◌≢◌, refl, Bool, List, [], ◌∷◌, ◌++◌, Option, none, some, arith, ==_ne, Bytes, All,
  length, sym, subst, ◌∙◌, ap,
}
use mnet.Router.Grammar.{Behind, nothing, slash, Matches, done, literal, wildcard, param}
use mnet.Router.{matched, route_match}
use mnet.Router.Sound.{route_match_sound}
use mnet.App.{name_of, register, names_from, in_name}

All-front : (xs ys : Bytes) → All (λ c. c ≢ b'.') (xs ++ ys) → All (λ c. c ≢ b'.') xs
All-front [] ys h = tt
All-front (x ∷ xs) ys h = (h.0, All-front xs ys h.1)

All-back : (xs ys : Bytes) → All (λ c. c ≢ b'.') (xs ++ ys) → All (λ c. c ≢ b'.') ys
All-back [] ys h = h
All-back (x ∷ xs) ys h = All-back xs ys h.1

All-Behind : {s p : Bytes} → Behind s p → All (λ c. c ≢ b'.') s → All (λ c. c ≢ b'.') p
All-Behind nothing h = h
All-Behind (slash e) h = h.1

module _ (alloc : ℕ → Bool) where
  register-some :
      (n : ℕ) (name : Bytes) (others : Option (List Bytes)) (names : List Bytes)
      → register alloc n name others ≡ some names
      → (rest : List Bytes) × (others ≡ some rest) × (length names ≡ suc (length rest))
  unfolding register
  register-some n name none names h = absurd (ground arith)
  register-some n name (some rest) names h = (rest, refl, ground arith)

  -- A name without dots ends at the slash or at the end.
  in_name_lem :
      (n : ℕ) (start name ptail p : Bytes) (names : List Bytes)
      → All (λ c. c ≢ b'.') name
      → All (λ c. c ≢ b'/') name
      → Behind ptail p
      → in_name alloc n start (name ++ ptail) ≡ some names
      → (rest : List Bytes) × (names_from alloc (suc n) p ≡ some rest)
        × (length names ≡ suc (length rest))
  unfolding in_name names_from
  in_name_lem n start [] ptail p names hd hs nothing h =
      register-some n (name_of n start) (some []) names h
  in_name_lem n start [] ptail p names hd hs (slash {c} e) h =
      register-some n (name_of n start) (names_from alloc (suc n) p) names (ground arith)
  in_name_lem n start (c ∷ name) ptail p names hd hs b h =
      in_name_lem n (start ++ c ∷ []) name ptail p names hd.1 hs.1 b (ground arith)

  names_from-literal :
      (n c : ℕ) (p : Bytes)
      → c ≢ b'*'
      → c ≢ b':'
      → names_from alloc n (c ∷ p) ≡ names_from alloc n p
  unfolding names_from
  names_from-literal n c p h1 h2 = rw (==_ne c b':' h2, ==_ne c b'*' h1) refl

  names_from-wildcard :
      (n c : ℕ) (p : Bytes)
      → c ≡ b'*'
      → names_from alloc n (c ∷ p) ≡ register alloc n (b'*' ∷ []) (some [])
  unfolding names_from
  names_from-wildcard n c p h = rw h refl

  names_from-param :
      (n c : ℕ) (p : Bytes) → c ≡ b':' → names_from alloc n (c ∷ p) ≡ in_name alloc n [] p
  unfolding names_from
  names_from-param n c p h = rw h refl

  names_lem :
      {p r : Bytes} {all : List Bytes} (n : ℕ) (names : List Bytes)
      → Matches p r all
      → All (λ c. c ≢ b'.') p
      → names_from alloc n p ≡ some names
      → length names ≡ length all
  unfolding names_from
  names_lem n [] done hd h = refl
  names_lem n (x ∷ names) done hd h = absurd (ground arith)
  names_lem n names (literal {c} {p = p} not_star not_colon e m) hd h =
      names_lem n names m hd.1 (sym (names_from-literal n c p not_star not_colon) ∙ h)
  names_lem n names (wildcard {c} e) hd h =
      let (rest, is_nil, count) =
        register-some n (b'*' ∷ []) (some []) names (sym (names_from-wildcard n c [] e) ∙ h) in
      only rest is_nil count
    where
      only :
          (rest : List Bytes)
          → some [] ≡ some rest
          → length names ≡ suc (length rest)
          → length names ≡ 1
      only [] e k = k
      only (x ∷ rest) e k = absurd (ground arith)
  names_lem n names
        (param {c} {pattern = pattern} {ptail = ptail} {p = p} name segment e1 e2 no_slash b1 ne e3
          no_slash' b2 e4 m)
        hd h =
      let dotless = subst (All (λ x. x ≢ b'.')) e2 hd.1 in
      let named : in_name alloc n [] (name ++ ptail) ≡ some names =
        ap (in_name alloc n []) (sym e2) ∙ sym (names_from-param n c pattern e1) ∙ h in
      let (rest, others, count) =
        in_name_lem n [] name ptail p names (All-front name ptail dotless) no_slash b1 named in
      count ∙ ap suc (names_lem (suc n) rest m (All-Behind b1 (All-back name ptail dotless)) others)

-- For a pattern without dots, a registered route has as many parameter names as a match of its pattern
-- reports values.
pub names_from-length :
    (alloc : ℕ → Bool) (memory : ℕ → Bool) (max n : ℕ) (pattern path : Bytes)
    (names values : List Bytes)
    → All (λ c. c ≢ b'.') pattern
    → names_from alloc 0 pattern ≡ some names
    → route_match memory max (some pattern) (some path) ≡ matched n values
    → length names ≡ n
names_from-length alloc memory max n pattern path names values hd registered h =
    let (all, fits, count, _) = route_match_sound memory max n pattern path values h in
    names_lem alloc 0 names fits hd registered ∙ sym count
