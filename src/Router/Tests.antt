-- ===== src/Router/Tests.antt =====
-- Runs of the router, and its theorems at concrete paths.
use mnet.Base.{
  ◌<◌, suc, ◌≡◌, ◌≤◌, ◌⊎◌, refl, List, [], ◌∷◌, some, arith, Bytes, codes, length, take, span,
}
use mnet.Router.{
  decode_segment, capture, pattern_end, skip_slash, matched, no_match, route_match, match_loop,
}
use mnet.Router.Grammar.{Matches, done, literal, param, nothing}
use mnet.Router.Sound.{route_match_sound}
use mnet.Router.Complete.{ok, route_match_complete}
use mnet.Router.Cleanup.{route_match-frees}

abbrev user_pattern : Bytes
user_pattern = codes "/u/:id"

match_user :
    route_match ok 16 (some user_pattern) (some (codes "/u/a%2Fb+c/"))
    ≡ matched 1 (codes "a/b+c" ∷ [])
unfolding route_match match_loop capture pattern_end skip_slash span decode_segment
match_user = refl

match_two :
    route_match ok 16 (some (codes "/:a/x/:b")) (some (codes "/1/x/2"))
    ≡ matched 2 (codes "1" ∷ codes "2" ∷ [])
unfolding route_match match_loop capture pattern_end skip_slash span decode_segment
match_two = refl

match_wildcard :
    route_match ok 16 (some (codes "/s/*")) (some (codes "/s/a/b")) ≡ matched 1 (codes "a/b" ∷ [])
unfolding route_match match_loop capture pattern_end skip_slash span
match_wildcard = refl

-- A wildcard does not match an empty rest.
wildcard_needs_rest : route_match ok 16 (some (codes "/s/*")) (some (codes "/s/")) ≡ no_match 0 []
unfolding route_match match_loop capture pattern_end skip_slash span
wildcard_needs_rest = refl

route_match_sound_example :
    (all : List Bytes) × Matches user_pattern (codes "/u/a%2Fb+c/") all
    × (1 ≡ length all)
    × ((codes "a/b+c" ∷ []) ≡ take 16 all)
route_match_sound_example =
    route_match_sound ok 16 1 user_pattern (codes "/u/a%2Fb+c/") (codes "a/b+c" ∷ []) match_user

user_seven : Matches user_pattern (codes "/u/7") (codes "7" ∷ [])
unfolding decode_segment
user_seven = literal (omega arith) (omega arith) refl (
    literal (omega arith) (omega arith) refl (
      literal (omega arith) (omega arith) refl (
        param (codes "id") (codes "7") refl refl (omega arith) nothing (cc) refl (omega arith)
          nothing refl done)))

-- With room for no value the match is still counted.
route_match_complete_example :
    route_match ok 0 (some user_pattern) (some (codes "/u/7")) ≡ matched 1 []
route_match_complete_example =
    route_match_complete 0 (codes "u/:id") (codes "u/7") (codes "7" ∷ []) user_seven

frees_one :
    route_match ok 16 (some user_pattern) (some (codes "/u/7/x")) ≡ no_match 1 (codes "7" ∷ [])
unfolding route_match match_loop capture pattern_end skip_slash span decode_segment
frees_one = refl

route_match-frees_example :
    ((1 ≤ 16) × ((length (codes "7" ∷ []) ≡ 1) ⊎ (1 ≡ suc (length (codes "7" ∷ [])))))
    ⊎ ((16 < 1) × (length (codes "7" ∷ []) ≡ 16))
route_match-frees_example =
    route_match-frees ok 16 1 (some user_pattern) (some (codes "/u/7/x")) (codes "7" ∷ []) frees_one
