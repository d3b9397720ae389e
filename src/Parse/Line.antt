-- ===== src/Parse/Line.antt =====
-- src/mnet_parse.c: the request line.
pub mod Bounds
pub mod Refused
use mnet.Base.{
  ℕ, zero, suc, Bool, true, ◌||◌, ◌&&◌, [], ◌∷◌, Option, none, some, leb, ◌==◌, if◌then◌else◌,
  ◌>>=◌, ◌>>◌, guard, Bytes, codes, str_eq, skip_while, take,
}
use mnet.Header.{has}
use mnet.Parse.Text.{c_str, header_end, lf}

-- `mnet_http_method_t`
pub data Method : Type 0 where
  get post put patch delete head options : Method

-- `mnet_parse_method`; none is (mnet_http_method_t)-1.
unfoldable pub parse_method : Bytes → Option Method
parse_method m =
    if str_eq m (codes "GET")
    then some get
    else if str_eq m (codes "POST")
    then some post
    else if str_eq m (codes "PUT")
    then some put
    else if str_eq m (codes "PATCH")
    then some patch
    else if str_eq m (codes "DELETE")
    then some delete
    else if str_eq m (codes "HEAD")
    then some head
    else if str_eq m (codes "OPTIONS")
    then some options
    else none

-- isspace in the C locale
unfoldable pub is_space : ℕ → Bool
is_space c = c == b' ' || (leb 9 c && leb c 13)

-- The longest run of at most n bytes that are no white space, and the rest.
unfoldable pub word : ℕ → Bytes → Bytes × Bytes
word zero s = ([], s)
word (suc n) [] = ([], [])
word (suc n) (c ∷ s) = let (w, rest) = word n s in if is_space c then ([], c ∷ s) else (c ∷ w, rest)

-- `%ns` of sscanf: white space (line ends too) is skipped, and a word of at least one byte is read.
unfoldable pub scan_word : ℕ → Bytes → Option (Bytes × Bytes)
scan_word n s =
    let (w, rest) = word n (skip_while is_space s) in
    elim w [ [] ↦ none | c ∷ t ↦ some (c ∷ t, rest) ]

-- `parse_raw_request`: the method and the target; none is -1.
unfoldable pub parse_raw_request : Bytes → Option (Bytes × Bytes)
parse_raw_request buffer = do
  (end, _) ← header_end buffer
  guard (has (take end buffer) lf)
  (method, rest) ← scan_word 15 (c_str buffer)
  (path, _) ← scan_word 2047 rest
  some (method, path)
