-- ===== src/Router/Cleanup.antt =====
-- What a failed match releases: each value that was allocated, once.
use mnet.Base.{
  ℕ, suc, ◌≤◌, ◌<◌, min, ◌≡◌, ◌⊎◌, inl, inr, Bool, List, [], ◌∷◌, ◌++◌, Option, none, some, arith,
  Bytes, length, length-append, span, ltb, Bool-cases,
}
use native.Mathlib.Decide.{ℕ_discrete}
use native.Mathlib.Decide.{dec_lt}
use mnet.Router.{
  Match, no_match, skip_slash, pattern_end, capture, match_loop, skip_name, route_match,
}
use mnet.Router.Rounds.{
  round_wildcard, round_param, round_literal, round_mismatch, name_end, name_more,
}

module _ (alloc : ℕ → Bool) (max : ℕ) where
  -- The slots 0 .. k - 1 that are passed on hold the live values, and at most one NULL behind
  -- them; beyond max_values there are no slots.
  abbrev Freed : ℕ → List Bytes → Type 0
  Freed k us = (length us ≡ min k max) ⊎ ((k ≤ max) × (k ≡ suc (length us)))

  abbrev Frees : Match → Type 0
  Frees m = (k : ℕ) (us : List Bytes) → m ≡ no_match k us → Freed k us

  pattern_end-Frees :
      (r : Bytes) (n : ℕ) (vs : List Bytes) → length vs ≡ min n max → Frees (pattern_end r n vs)
  unfolding pattern_end
  pattern_end-Frees [] n vs inv k us h = absurd (cc)
  pattern_end-Frees (d ∷ r) n vs inv k us h = ground arith

  no_match-Frees : (n : ℕ) (vs : List Bytes) → length vs ≡ min n max → Frees (no_match n vs)
  no_match-Frees n vs inv k us h = ground arith

  capture-Frees :
      (n : ℕ) (vs : List Bytes) (v : Bytes) (next : List Bytes → Match)
      → length vs ≡ min n max
      → ((ws : List Bytes) → length ws ≡ min (suc n) max → Frees (next ws))
      → Frees (capture alloc max n vs v next)
  unfolding capture
  capture-Frees n vs v next inv ih k us h = elim (Bool-cases (ltb n max)) [
    | inl fits ↦ elim (Bool-cases (alloc n)) [
      | inl ok ↦
          ih (vs ++ v ∷ []) (ground (arith, length-append vs (v ∷ []))) k us (rw (fits, ok) at h)
      | inr bad ↦ ground arith
    ]
    | inr over ↦ ih vs (ground arith) k us (rw over at h)
  ]

  end-Frees :
      (r : Bytes) (n : ℕ) (vs : List Bytes)
      → length vs ≡ min n max
      → Frees (match_loop alloc max [] r n vs)
  unfolding match_loop
  end-Frees r n vs inv = pattern_end-Frees r n vs inv

  path_end-Frees :
      (c : ℕ) (p : Bytes) (n : ℕ) (vs : List Bytes)
      → length vs ≡ min n max
      → Frees (match_loop alloc max (c ∷ p) [] n vs)
  unfolding match_loop
  path_end-Frees c p n vs inv = no_match-Frees n vs inv

  name_end-Frees :
      (r : Bytes) (n : ℕ) (vs : List Bytes)
      → length vs ≡ min n max
      → Frees (skip_name alloc max [] r n vs)
  unfolding match_loop
  name_end-Frees r n vs inv = pattern_end-Frees (skip_slash r) n vs inv

  mutual
    match_loop-Frees :
        (p r : Bytes) (n : ℕ) (vs : List Bytes)
        → length vs ≡ min n max
        → Frees (match_loop alloc max p r n vs)
    match_loop-Frees [] r n vs inv = end-Frees r n vs inv
    match_loop-Frees (c ∷ p) [] n vs inv = path_end-Frees c p n vs inv
    match_loop-Frees (c ∷ p) (d ∷ r) n vs inv = elim (ℕ_discrete c b'*') [
      | yes star ↦
          rw (round_wildcard alloc max c d p r n vs star)
            (capture-Frees n vs (d ∷ r) _ inv (λ ws. match_loop-Frees p [] (suc n) ws))
      | no star ↦ elim (ℕ_discrete c b':') [
        | yes colon ↦
            rw (round_param alloc max c d p r n vs colon) (
              capture-Frees n vs _ _ inv (λ ws. skip_name-Frees p (span b'/' (d ∷ r)).1 (suc n) ws))
        | no colon ↦ elim (ℕ_discrete d c) [
          | yes e ↦
              rw (round_literal alloc max c d p r n vs star colon e) (match_loop-Frees p r n vs inv)
          | no ne ↦
              rw (round_mismatch alloc max c d p r n vs star colon ne) (no_match-Frees n vs inv)
        ]
      ]
    ]

    skip_name-Frees :
        (p r : Bytes) (n : ℕ) (vs : List Bytes)
        → length vs ≡ min n max
        → Frees (skip_name alloc max p r n vs)
    skip_name-Frees [] r n vs inv = name_end-Frees r n vs inv
    skip_name-Frees (c ∷ p) r n vs inv = elim (ℕ_discrete c b'/') [
      | yes e ↦ rw (name_end alloc max c p r n vs e) (match_loop-Frees p (skip_slash r) n vs inv)
      | no ne ↦ rw (name_more alloc max c p r n vs ne) (skip_name-Frees p r n vs inv)
    ]

enters_loop :
    (alloc : ℕ → Bool) (max c d k : ℕ) (p r : Bytes) (live : List Bytes)
    → route_match alloc max (some (c ∷ p)) (some (d ∷ r)) ≡ no_match k live
    → match_loop alloc max (c ∷ p) (d ∷ r) 0 [] ≡ no_match k live
unfolding route_match
enters_loop alloc max c d k p r live h = ground arith

by_count :
    (max k : ℕ) (live : List Bytes)
    → (length live ≡ min k max) ⊎ ((k ≤ max) × (k ≡ suc (length live)))
    → ((k ≤ max) × ((length live ≡ k) ⊎ (k ≡ suc (length live))))
      ⊎ ((max < k) × (length live ≡ max))
by_count max k live (inr (within, one)) = inl (within, inr one)
by_count max k live (inl e) = elim (dec_lt max k) [
  | yes beyond ↦ inr (beyond, omega arith)
  | no within ↦ inl (omega arith, inl (omega arith))
]

-- Whatever allocations fail, a failed match hands `mnet_match_params_free` a count k. While k is at most
-- max_values, the slots below k hold exactly the values that were allocated, or those and one NULL, so every
-- value is freed, once. When k is larger, all the max_values slots hold values, which are freed, and what
-- stands in the k - max_values places behind them is freed too, although it is no part of out_values.
pub route_match-frees :
    (alloc : ℕ → Bool) (max k : ℕ) (pattern path : Option Bytes) (live : List Bytes)
    → route_match alloc max pattern path ≡ no_match k live
    → ((k ≤ max) × ((length live ≡ k) ⊎ (k ≡ suc (length live))))
      ⊎ ((max < k) × (length live ≡ max))
route_match-frees alloc max k none r live h = absurd (unfold route_match in cc)
route_match-frees alloc max k (some p) none live h = absurd (unfold route_match in cc)
route_match-frees alloc max k (some []) (some r) live h = absurd (unfold route_match in cc)
route_match-frees alloc max k (some (c ∷ p)) (some []) live h = absurd (unfold route_match in cc)
route_match-frees alloc max k (some (c ∷ p)) (some (d ∷ r)) live h = by_count max k live (
    match_loop-Frees alloc max (c ∷ p) (d ∷ r) 0 [] (omega arith) k live
      (enters_loop alloc max c d k p r live h))
