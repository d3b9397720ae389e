-- ===== src/Parse/Fields/Tests.antt =====
-- Runs of the field parsers, and their theorems at concrete texts.
use mnet.Base.{◌≡◌, refl, List, [], ◌∷◌, some, codes, tokens, cut_at, skip_while}
use mnet.Header.{name_valid}
use mnet.Url.{decode, decode_ex}
use mnet.Parse.Text.{is_blank}
use mnet.Parse.Fields.{
  Pair, occurrences, or_empty, decode_own, query_loop, parse_query_string, header_loop,
  parse_headers, cookie_loop, parse_cookies, is_space_byte,
}

abbrev pairs : List Pair
pairs = (codes "a b", codes "1") ∷ (codes "c", []) ∷ []

query_pairs : parse_query_string (codes "a+b=1&&c") ≡ some pairs
unfolding parse_query_string query_loop occurrences tokens cut_at or_empty decode_own decode
    decode_ex
query_pairs = refl

abbrev lines : List Pair
lines = (codes "Host", codes "h") ∷ []

-- The request line holds no colon here, and a line with a bad name is skipped.
header_lines : parse_headers (codes "GET / HTTP/1.1\r\nHost: h\r\nBad Name: x") ≡ some lines
unfolding parse_headers header_loop tokens cut_at skip_while is_blank name_valid
header_lines = refl

cookie_pairs :
    parse_cookies (codes "a=1; b= 2;c")
    ≡ (codes "a", codes "1") ∷ (codes "b", codes "2") ∷ (codes "c", []) ∷ []
unfolding parse_cookies cookie_loop occurrences tokens cut_at or_empty skip_while is_space_byte
cookie_pairs = refl
