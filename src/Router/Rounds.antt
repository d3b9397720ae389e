-- ===== src/Router/Rounds.antt =====
-- One round of the matching loop, by the byte of the pattern.
use mnet.Base.{ℕ, suc, ◌≡◌, ◌≢◌, sym, Bool, List, [], ◌∷◌, Bytes, span, ==_ne, ==_refl}
use mnet.Router.{decode_segment, decoded_room, no_match, skip_slash, capture, match_loop, skip_name}

module _ (alloc : ℕ → Bool) (max : ℕ) where
  pub round_wildcard :
      (c d : ℕ) (p r : Bytes) (n : ℕ) (vs : List Bytes)
      → c ≡ b'*'
      → match_loop alloc max (c ∷ p) (d ∷ r) n vs
        ≡ capture alloc max n vs (d ∷ r) (λ us. match_loop alloc max p [] (suc n) us)
  unfolding match_loop
  round_wildcard c d p r n vs e = rw e

  pub round_param :
      (c d : ℕ) (p r : Bytes) (n : ℕ) (vs : List Bytes)
      → c ≡ b':'
      → match_loop alloc max (c ∷ p) (d ∷ r) n vs
        ≡ capture alloc max n vs
            (decode_segment decoded_room (span b'/' (d ∷ r)).0)
            (λ us. skip_name alloc max p (span b'/' (d ∷ r)).1 (suc n) us)
  unfolding match_loop
  round_param c d p r n vs e = rw e

  pub round_literal :
      (c d : ℕ) (p r : Bytes) (n : ℕ) (vs : List Bytes)
      → c ≢ b'*'
      → c ≢ b':'
      → d ≡ c
      → match_loop alloc max (c ∷ p) (d ∷ r) n vs ≡ match_loop alloc max p r n vs
  unfolding match_loop
  round_literal c d p r n vs star colon e = rw (==_ne c b'*' star, ==_ne c b':' colon, e, ==_refl c)

  pub round_mismatch :
      (c d : ℕ) (p r : Bytes) (n : ℕ) (vs : List Bytes)
      → c ≢ b'*'
      → c ≢ b':'
      → d ≢ c
      → match_loop alloc max (c ∷ p) (d ∷ r) n vs ≡ no_match n vs
  unfolding match_loop
  round_mismatch c d p r n vs star colon ne =
      rw (==_ne c b'*' star, ==_ne c b':' colon, ==_ne c d (λ e. ne (sym e)))

  pub name_end :
      (c : ℕ) (p r : Bytes) (n : ℕ) (vs : List Bytes)
      → c ≡ b'/'
      → skip_name alloc max (c ∷ p) r n vs ≡ match_loop alloc max p (skip_slash r) n vs
  unfolding match_loop
  name_end c p r n vs e = rw e

  pub name_more :
      (c : ℕ) (p r : Bytes) (n : ℕ) (vs : List Bytes)
      → c ≢ b'/'
      → skip_name alloc max (c ∷ p) r n vs ≡ skip_name alloc max p r n vs
  unfolding match_loop
  name_more c p r n vs ne = rw (==_ne c b'/' ne)
