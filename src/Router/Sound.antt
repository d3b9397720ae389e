-- ===== src/Router/Sound.antt =====
-- A match that is reported is a match of the grammar, with its values.
use mnet.Base.{
  ℕ, suc, ◌+◌, ◌-◌, ◌<◌, ◌≡◌, ◌≢◌, refl, sym, ap, ◌∙◌, Bool, List, [], ◌∷◌, ◌++◌, append_assoc,
  append-nil, some, arith, Bytes, length, take, take-nil, span, span-append, span-Lacks,
  span-StartsAt, ltb, ltb→lt, false, Bool-cases, inl, inr,
}
use native.Mathlib.Decide.{ℕ_discrete}
use native.Mathlib.Nat.{sub-zero}
use mnet.Router.{
  decode_segment, decoded_room, Match, matched, no_match, skip_slash, pattern_end, capture,
  match_loop, skip_name, route_match,
}
use mnet.Router.Grammar.{
  Matches, done, literal, wildcard, param, Behind-skip_slash, behind_slash, behind_name,
}
use mnet.Router.Rounds.{
  round_wildcard, round_param, round_literal, round_mismatch, name_end, name_more,
}

not_matched : (n m : ℕ) (vs ws : List Bytes) → no_match n vs ≡ matched m ws → ⊥
not_matched n m vs ws h = cc

-- How many of the values are stored, when one more value comes first.
pub take_fits :
    (max n : ℕ) (v : Bytes) (vs : List Bytes)
    → n < max
    → take (max - n) (v ∷ vs) ≡ v ∷ take (max - suc n) vs
take_fits max n v vs h =
    let e : max - n ≡ suc (max - suc n) = omega arith in ap (λ k. take k (v ∷ vs)) e

pub take_over :
    (max n : ℕ) (vs us : List Bytes) → ltb n max ≡ false → take (max - suc n) vs ≡ take (max - n) us
take_over max n vs us h =
    let e : max - suc n ≡ 0 = ground arith in
    let e' : max - n ≡ 0 = ground arith in ap (λ k. take k vs) e ∙ sym (ap (λ k. take k us) e')

wildcard_end :
    (c d : ℕ) (r : Bytes) (all : List Bytes)
    → c ≡ b'*'
    → Matches [] [] all
    → Matches (c ∷ []) (d ∷ r) ((d ∷ r) ∷ all)
wildcard_end c d r _ e done = wildcard e

module _ (alloc : ℕ → Bool) (max : ℕ) where
  -- From n values, of which vs are stored, the loop has gone on to m values, of which ws are stored.
  record Found (p r : Bytes) (n : ℕ) (vs : List Bytes) (m : ℕ) (ws : List Bytes) : Type 0 where
    all : List Bytes
    fits : Matches p r all
    count : m ≡ n + length all
    stored : ws ≡ vs ++ take (max - n) all

  Found-cons :
      (v : Bytes) (p r p' r' : Bytes) (n m : ℕ) (vs ws : List Bytes) (next : List Bytes → Match)
      → ((all : List Bytes) → Matches p r all → Matches p' r' (v ∷ all))
      → ((us : List Bytes) → next us ≡ matched m ws → Found p r (suc n) us m ws)
      → capture alloc max n vs v next ≡ matched m ws
      → Found p' r' n vs m ws
  unfolding capture
  Found-cons v p r p' r' n m vs ws next extend ih h = elim (Bool-cases (ltb n max)) [
    | inl fits ↦ elim (Bool-cases (alloc n)) [
      | inl ok ↦
          let f = ih (vs ++ v ∷ []) (rw (fits, ok) at h) in
          record {
            all = v ∷ f.all;
            fits = extend f.all f.fits;
            count = omega (arith, f.count);
            stored =
                rw (take_fits max n v f.all (ltb→lt n max fits))
                  (f.stored ∙ append_assoc vs (v ∷ []) _);
          }
      | inr bad ↦ absurd (cc (rw (fits, bad) at h))
    ]
    | inr over ↦
        let f = ih vs (rw over at h) in
        record {
          all = v ∷ f.all;
          fits = extend f.all f.fits;
          count = omega (arith, f.count);
          stored = f.stored ∙ ap (λ l. vs ++ l) (take_over max n f.all (v ∷ f.all) over);
        }
  ]

  pattern_end_sound :
      (r : Bytes) (n m : ℕ) (vs ws : List Bytes)
      → pattern_end r n vs ≡ matched m ws
      → Found [] r n vs m ws
  unfolding pattern_end
  pattern_end_sound [] n m vs ws h = record {
    all = [];
    fits = done;
    count = ground arith;
    stored = rw (take-nil (max - n), append-nil) (cc);
  }
  pattern_end_sound (d ∷ r) n m vs ws h = absurd (cc)

  -- The value of a parameter is the segment at hand, and the rest goes on behind its name.
  param_sound :
      (c d : ℕ) (pattern r : Bytes) (n m : ℕ) (vs ws : List Bytes)
      → ((us : List Bytes)
          → skip_name alloc max pattern (span b'/' (d ∷ r)).1 (suc n) us ≡ matched m ws
          → Found
              (skip_slash (span b'/' pattern).1)
              (skip_slash (span b'/' (d ∷ r)).1)
              (suc n)
              us
              m
              ws)
      → c ≡ b':'
      → capture alloc max n vs
          (decode_segment decoded_room (span b'/' (d ∷ r)).0)
          (λ us. skip_name alloc max pattern (span b'/' (d ∷ r)).1 (suc n) us)
        ≡ matched m ws
      → Found (c ∷ pattern) (d ∷ r) n vs m ws
  param_sound c d pattern r n m vs ws ih e h =
      Found-cons (decode_segment decoded_room (span b'/' (d ∷ r)).0) _ _ (c ∷ pattern) (d ∷ r) n m
        vs ws (λ us. skip_name alloc max pattern (span b'/' (d ∷ r)).1 (suc n) us)
        (λ all.
          param (span b'/' pattern).0 (span b'/' (d ∷ r)).0 e (sym (span-append b'/' pattern))
            (span-Lacks b'/' pattern) (Behind-skip_slash _ (span-StartsAt b'/' pattern)) (cc)
            (sym (span-append b'/' (d ∷ r))) (span-Lacks b'/' (d ∷ r))
            (Behind-skip_slash _ (span-StartsAt b'/' (d ∷ r))) refl)
        ih h

  wildcard_sound :
      (c d : ℕ) (p r : Bytes) (n m : ℕ) (vs ws : List Bytes)
      → c ≡ b'*'
      → capture alloc max n vs (d ∷ r) (λ us. match_loop alloc max p [] (suc n) us) ≡ matched m ws
      → Found (c ∷ p) (d ∷ r) n vs m ws
  wildcard_sound c d [] r n m vs ws e h =
      Found-cons (d ∷ r) [] [] (c ∷ []) (d ∷ r) n m vs ws (λ us. pattern_end [] (suc n) us)
        (λ all. wildcard_end c d r all e) (λ us. pattern_end_sound [] (suc n) m us ws)
        (unfold match_loop in h)
  wildcard_sound c d (x ∷ p) r n m vs ws e h = absurd (unfold match_loop capture in ground arith)

  literal_sound :
      (c d : ℕ) (p r : Bytes) (n m : ℕ) (vs ws : List Bytes)
      → c ≢ b'*'
      → c ≢ b':'
      → d ≡ c
      → Found p r n vs m ws
      → Found (c ∷ p) (d ∷ r) n vs m ws
  literal_sound c d p r n m vs ws star colon e f = record {
    all = f.all;
    fits = literal star colon e f.fits;
    count = f.count;
    stored = f.stored;
  }

  loop_end_sound :
      (r : Bytes) (n m : ℕ) (vs ws : List Bytes)
      → match_loop alloc max [] r n vs ≡ matched m ws
      → Found [] r n vs m ws
  unfolding match_loop
  loop_end_sound r n m vs ws h = pattern_end_sound r n m vs ws h

  path_end :
      (c : ℕ) (p : Bytes) (n m : ℕ) (vs ws : List Bytes)
      → match_loop alloc max (c ∷ p) [] n vs ≡ matched m ws
      → ⊥
  unfolding match_loop
  path_end c p n m vs ws h = not_matched n m vs ws h

  name_end_sound :
      (r : Bytes) (n m : ℕ) (vs ws : List Bytes)
      → skip_name alloc max [] r n vs ≡ matched m ws
      → Found (skip_slash (span b'/' []).1) (skip_slash r) n vs m ws
  unfolding match_loop span skip_slash
  name_end_sound r n m vs ws h = pattern_end_sound (skip_slash r) n m vs ws h

  mutual
    match_loop_sound :
        (p r : Bytes) (n m : ℕ) (vs ws : List Bytes)
        → match_loop alloc max p r n vs ≡ matched m ws
        → Found p r n vs m ws
    match_loop_sound [] r n m vs ws h = loop_end_sound r n m vs ws h
    match_loop_sound (c ∷ p) [] n m vs ws h = absurd (path_end c p n m vs ws h)
    match_loop_sound (c ∷ p) (d ∷ r) n m vs ws h = elim (ℕ_discrete c b'*') [
      | yes star ↦
          wildcard_sound c d p r n m vs ws star
            (rw (round_wildcard alloc max c d p r n vs star) at h)
      | no star ↦ elim (ℕ_discrete c b':') [
        | yes colon ↦
            param_sound c d p r n m vs ws
              (λ us. skip_name_sound p (span b'/' (d ∷ r)).1 (suc n) m us ws) colon
              (rw (round_param alloc max c d p r n vs colon) at h)
        | no colon ↦ elim (ℕ_discrete d c) [
          | yes e ↦ literal_sound c d p r n m vs ws star colon e (
              match_loop_sound p r n m vs ws
                (rw (round_literal alloc max c d p r n vs star colon e) at h))
          | no ne ↦ absurd (
              not_matched n m vs ws (rw (round_mismatch alloc max c d p r n vs star colon ne) at h))
        ]
      ]
    ]

    skip_name_sound :
        (p r : Bytes) (n m : ℕ) (vs ws : List Bytes)
        → skip_name alloc max p r n vs ≡ matched m ws
        → Found (skip_slash (span b'/' p).1) (skip_slash r) n vs m ws
    skip_name_sound [] r n m vs ws h = name_end_sound r n m vs ws h
    skip_name_sound (c ∷ p) r n m vs ws h = elim (ℕ_discrete c b'/') [
      | yes e ↦
          rw (behind_slash c p e) (
            match_loop_sound p (skip_slash r) n m vs ws (rw (name_end alloc max c p r n vs e) at h))
      | no ne ↦
          rw (behind_name c p ne)
            (skip_name_sound p r n m vs ws (rw (name_more alloc max c p r n vs ne) at h))
    ]

enters_loop :
    (alloc : ℕ → Bool) (max c d n : ℕ) (p r : Bytes) (values : List Bytes)
    → route_match alloc max (some (c ∷ p)) (some (d ∷ r)) ≡ matched n values
    → match_loop alloc max (c ∷ p) (d ∷ r) 0 [] ≡ matched n values
unfolding route_match
enters_loop alloc max c d n p r values h = ground arith

-- A match that `mnet_route_match` reports is one: path and pattern begin with a slash, the path fits
-- the pattern, the count is the number of the parameters, and the first max_values of their values
-- are stored, in order.
pub route_match_sound :
    (alloc : ℕ → Bool) (max n : ℕ) (pattern path : Bytes) (values : List Bytes)
    → route_match alloc max (some pattern) (some path) ≡ matched n values
    → (all : List Bytes) × Matches pattern path all × (n ≡ length all) × (values ≡ take max all)
route_match_sound alloc max n [] r values h = absurd (unfold route_match in cc)
route_match_sound alloc max n (c ∷ p) [] values h = absurd (unfold route_match in cc)
route_match_sound alloc max n (c ∷ p) (d ∷ r) values h =
    let f =
      match_loop_sound alloc max (c ∷ p) (d ∷ r) 0 n [] values
        (enters_loop alloc max c d n p r values h) in
    (f.all, f.fits, omega (arith, f.count), f.stored ∙ ap (λ k. take k f.all) (sub-zero max))
