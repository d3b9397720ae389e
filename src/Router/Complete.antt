-- ===== src/Router/Complete.antt =====
-- Every path that fits a pattern is matched, when the allocations succeed.
use mnet.Base.{
  ℕ, suc, ◌+◌, ◌-◌, ◌≡◌, ◌≢◌, refl, ◌∙◌, ap, Bool, true, List, [], ◌∷◌, ◌++◌, append_assoc,
  append-nil, some, arith, Bytes, length, take, take-nil, All, span, span-of_parts, ltb, ltb→lt,
  Bool-cases, inl, inr,
}
use native.Mathlib.Nat.{sub-zero, zero-add}
use mnet.Router.{
  decode_segment, decoded_room, Match, matched, pattern_end, capture, match_loop, skip_name,
  route_match,
}
use mnet.Router.Grammar.{
  Matches, done, literal, wildcard, param, Behind, nothing, slash, skip_slash-Behind,
  StartsAt-Behind,
}
use mnet.Router.Rounds.{round_wildcard, round_param, round_literal, name_end, name_more}
use mnet.Router.Sound.{take_fits, take_over}

abbrev pub ok : ℕ → Bool
ok _ = true

module _ (max : ℕ) where
  -- What the loop answers at n values, of which vs are stored, when it finds the values `all`.
  abbrev Answer : ℕ → List Bytes → List Bytes → Match
  Answer n vs all = matched (n + length all) (vs ++ take (max - n) all)

  capture_complete :
      (n : ℕ) (vs : List Bytes) (v : Bytes) (all : List Bytes) (next : List Bytes → Match)
      → ((us : List Bytes) → next us ≡ Answer (suc n) us all)
      → capture ok max n vs v next ≡ Answer n vs (v ∷ all)
  unfolding capture
  capture_complete n vs v all next ih = elim (Bool-cases (ltb n max)) [
    | inl fits ↦ ground (
      arith,
      ih (vs ++ v ∷ []),
      take_fits max n v all (ltb→lt n max fits),
      append_assoc vs (v ∷ []) (take (max - suc n) all),
    )
    | inr over ↦ ground (arith, ih vs, take_over max n all (v ∷ all) over)
  ]

  name_at_end :
      (ptail p rtail r : Bytes) (n : ℕ) (us : List Bytes)
      → Behind ptail p
      → Behind rtail r
      → skip_name ok max ptail rtail n us ≡ match_loop ok max p r n us
  name_at_end _ _ rtail r n us nothing b' =
      unfold match_loop in ap (λ s. pattern_end s n us) (skip_slash-Behind b')
  name_at_end _ p rtail r n us (slash {c} e) b' =
      name_end ok max c p rtail n us e ∙ ap (λ s. match_loop ok max p s n us) (skip_slash-Behind b')

  skip_name_complete :
      (name ptail p rtail r : Bytes) (n : ℕ) (us : List Bytes)
      → All (λ x. x ≢ b'/') name
      → Behind ptail p
      → Behind rtail r
      → skip_name ok max (name ++ ptail) rtail n us ≡ match_loop ok max p r n us
  skip_name_complete [] ptail p rtail r n us h b b' = name_at_end ptail p rtail r n us b b'
  skip_name_complete (c ∷ name) ptail p rtail r n us h b b' =
      name_more ok max c (name ++ ptail) rtail n us h.0
      ∙ skip_name_complete name ptail p rtail r n us h.1 b b'

  param_complete :
      (c : ℕ) (pattern request : Bytes) (n : ℕ) (vs : List Bytes) (segment rtail value : Bytes)
      (all : List Bytes)
      → c ≡ b':'
      → request ≢ []
      → span b'/' request ≡ (segment, rtail)
      → value ≡ decode_segment decoded_room segment
      → ((us : List Bytes) → skip_name ok max pattern rtail (suc n) us ≡ Answer (suc n) us all)
      → match_loop ok max (c ∷ pattern) request n vs ≡ Answer n vs (value ∷ all)
  param_complete c pattern [] n vs segment rtail value all e ne cut v ih = absurd (ne refl)
  param_complete c pattern (d ∷ r) n vs segment rtail value all e ne cut v ih =
      rw (round_param ok max c d pattern r n vs e, cut, ← v)
        (capture_complete n vs value all (λ us. skip_name ok max pattern rtail (suc n) us) ih)

  done_complete : (n : ℕ) (vs : List Bytes) → match_loop ok max [] [] n vs ≡ Answer n vs []
  unfolding match_loop pattern_end
  done_complete n vs = ground (arith, take-nil {A = Bytes} (max - n), append-nil vs)

  match_loop_complete :
      {p r : Bytes} {all : List Bytes} (n : ℕ) (vs : List Bytes)
      → Matches p r all
      → match_loop ok max p r n vs ≡ Answer n vs all
  match_loop_complete n vs done = done_complete n vs
  match_loop_complete n vs (literal {c} {d} {p} {r} star colon e m) =
      round_literal ok max c d p r n vs star colon e ∙ match_loop_complete n vs m
  match_loop_complete n vs (wildcard {c} {d} {r} e) =
      round_wildcard ok max c d [] r n vs e
      ∙ capture_complete n vs (d ∷ r) [] (λ us. match_loop ok max [] [] (suc n) us)
          (λ us. done_complete (suc n) us)
  match_loop_complete n vs
        (param {c} {pattern} {request} {ptail} {p} {rtail} {r} {value} {vs = all} name segment e e1
          h1 b1 ne e2 h2 b2 v m) =
      param_complete c pattern request n vs segment rtail value all e ne
        (ap (span b'/') e2 ∙ span-of_parts b'/' segment rtail h2 (StartsAt-Behind b2)) v
        (λ us.
          ap (λ s. skip_name ok max s rtail (suc n) us) e1
          ∙ skip_name_complete name ptail p rtail r (suc n) us h1 b1 b2
          ∙ match_loop_complete (suc n) us m)

-- When the allocations succeed, every path that fits the pattern is matched: the count is the number
-- of parameters, even beyond max_values, and the first max_values of the values are stored.
pub route_match_complete :
    (max : ℕ) (pattern path : Bytes) (all : List Bytes)
    → Matches (b'/' ∷ pattern) (b'/' ∷ path) all
    → route_match ok max (some (b'/' ∷ pattern)) (some (b'/' ∷ path))
      ≡ matched (length all) (take max all)
unfolding route_match
route_match_complete max pattern path all m =
    match_loop_complete max 0 [] m ∙ rw (zero-add, sub-zero)
