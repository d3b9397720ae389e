-- ===== src/Json/Tests.antt =====
-- Runs of the escape, and its theorems at concrete texts.
use mnet.Base.{◌≡◌, refl, [], ◌∷◌, ◌++◌, some, arith, codes}
use mnet.Json.{hex_digit, unicode_escape, piece, put, escape_loop, json_escape}
use mnet.Json.Reading.{read, text, read-json_escape}

escape_quote : json_escape 64 (some (codes "a\"b")) ≡ codes "a\\\"b"
unfolding json_escape escape_loop put piece
escape_quote = refl

escape_control : json_escape 64 (some (31 ∷ [])) ≡ codes "\\u001f"
unfolding json_escape escape_loop put piece unicode_escape hex_digit
escape_control = refl

-- An escape that does not fit is left out, and the bytes behind it are still written.
escape_gap : json_escape 3 (some (codes "a\"b")) ≡ codes "ab"
unfolding json_escape escape_loop put piece
escape_gap = refl

read-json_escape_example :
    read text (json_escape 19 (some (codes "a\"b")) ++ codes "\",") []
    ≡ some (codes "a\"b", codes ",")
read-json_escape_example = read-json_escape 19 (codes "a\"b") (codes ",") (omega arith)
