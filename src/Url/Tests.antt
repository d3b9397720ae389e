-- ===== src/Url/Tests.antt =====
-- Runs of the decoder, and its theorem at a concrete text.
use mnet.Base.{◌<◌, ◌^◌, ◌≡◌, ◌↔◌, refl, [], some, none, codes, length}
use mnet.Url.{decode_ex, decode, returned}
use mnet.App.{pos}
use mnet.Url.Decoding.{Decodes, decode_ex_iff}

decodes_text : decode_ex (some (codes "a%2Fb+c")) 8 ≡ some (codes "a/b c")
unfolding decode_ex
decodes_text = refl

refused_texts :
    (decode_ex (some (codes "a%2")) 8 ≡ none)
    × (decode_ex (some (codes "%zz")) 8 ≡ none)
    × (decode_ex (some (codes "%00")) 8 ≡ none)
    × (decode_ex (some (codes "abc")) 3 ≡ none)
    × (decode 8 (some (codes "x%00y")) ≡ [])
unfolding decode_ex decode
refused_texts = (refl, refl, refl, refl, refl)

decode_ex_iff_example :
    ((decode_ex (some (codes "a%2Fb+c")) 8 ≡ some (codes "a/b c"))
      ↔ (Decodes (codes "a%2Fb+c") (codes "a/b c") × (length (codes "a/b c") < 8)))
    × (decode_ex (some (codes "a%2Fb+c")) 8 ≡ some (codes "a/b c")
        → length (codes "a/b c") < 2 ^ 31
        → returned (decode_ex (some (codes "a%2Fb+c")) 8) ≡ pos (length (codes "a/b c")))
decode_ex_iff_example = decode_ex_iff (codes "a%2Fb+c") (codes "a/b c") 8
