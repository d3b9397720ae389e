-- ===== src/Parse/Text.antt =====
-- What the parts of src/mnet_parse.c share: the C view of the buffer and the end of the headers.
use mnet.Base.{ℕ, Bool, ◌||◌, [], ◌∷◌, Option, none, some, ◌==◌, if◌then◌else◌, Bytes, find_sub}

abbrev pub cr : ℕ
cr = 13

abbrev pub lf : ℕ
lf = 10

abbrev pub tab : ℕ
tab = 9

-- The buffer as the string functions see it: up to the first NUL.
unfoldable pub c_str : Bytes → Bytes
c_str [] = []
c_str (c ∷ s) = let rest = c_str s in if c == 0 then [] else c ∷ rest

-- `sep ? sep : (sep2 ? sep2 : NULL)`: the offset of the blank line that ends the headers, and the
-- length of the separator. A "\r\n\r\n" anywhere goes before a "\n\n".
unfoldable pub header_end : Bytes → Option (ℕ × ℕ)
header_end buffer = elim (find_sub (cr ∷ lf ∷ cr ∷ lf ∷ []) (c_str buffer)) [
  | some i ↦ some (i, 4)
  | none ↦ elim (find_sub (lf ∷ lf ∷ []) (c_str buffer)) [ some i ↦ some (i, 2) | none ↦ none ]
]

-- `*p == ' ' || *p == '\t'`
unfoldable pub is_blank : ℕ → Bool
is_blank c = c == b' ' || c == tab
