-- ===== src/Parse/Line/Refused.antt =====
-- When the request line cannot be read, and when its method is not known.
use mnet.Base.{
  ℕ, zero, suc, ◌≤◌, ◌≡◌, ◌≢◌, ◌⊎◌, inl, inr, refl, sym, ap, subst, ◌∙◌, append-nil, Bool, true,
  false, List, [], ◌∷◌, ◌++◌, Option, none, some, ◌>>=◌, ◌>>◌, guard, arith, Bytes, codes, All,
  str_eq, skip_while, take, length, Bool-cases,
}
use mnet.Header.{has}
use mnet.Parse.Text.{c_str, header_end, lf}
use mnet.Parse.Line.{is_space, word, scan_word, parse_method, parse_raw_request}

-- The names of the methods.
abbrev pub method_names : List Bytes
method_names =
    codes "GET"
    ∷ codes "POST"
    ∷ codes "PUT"
    ∷ codes "PATCH"
    ∷ codes "DELETE"
    ∷ codes "HEAD"
    ∷ codes "OPTIONS"
    ∷ []

-- A method that is not known is none of the seven, letter by letter.
pub parse_method-none : (m : Bytes) → parse_method m ≡ none → All (λ t. m ≢ t) method_names
unfolding parse_method str_eq
parse_method-none m h = (
  λ e. cc (moved (codes "GET") e),
  (
    λ e. cc (moved (codes "POST") e),
    (
      λ e. cc (moved (codes "PUT") e),
      (
        λ e. cc (moved (codes "PATCH") e),
        (
          λ e. cc (moved (codes "DELETE") e),
          (λ e. cc (moved (codes "HEAD") e), (λ e. cc (moved (codes "OPTIONS") e), tt)),
        ),
      ),
    ),
  ),
)
  where
    moved : (t : Bytes) → m ≡ t → parse_method t ≡ none
    moved t e = subst (λ x. parse_method x ≡ none) e h

abbrev pub IsBlank : Bytes → Type 0
IsBlank = All (λ c. is_space c ≡ true)

-- At most one word stands in the text, as far as its first `limit` bytes tell: blanks, bytes that are none,
-- and blanks to the end.
pub record HasOneWord (limit : ℕ) (s : Bytes) : Type 0 where
  pub front : Bytes
  pub only : Bytes
  pub behind : Bytes
  pub split : s ≡ front ++ (only ++ behind)
  pub blank_front : IsBlank front
  pub short : length only ≤ limit
  pub solid : All (λ c. is_space c ≡ false) only
  pub blank_behind : IsBlank behind

-- No header ends here, its first line is not ended, or it has fewer than two words.
abbrev pub IsNoLine : Bytes → Type 0
IsNoLine buffer =
    (header_end buffer ≡ none)
    ⊎ ((i k : ℕ) × (header_end buffer ≡ some (i, k)) × (has (take i buffer) lf ≡ false))
    ⊎ HasOneWord 15 (c_str buffer)

leading : (s : Bytes) → (front : Bytes) × (s ≡ front ++ skip_while is_space s) × IsBlank front
unfolding skip_while
leading [] = ([], refl, tt)
leading (c ∷ s) = elim (Bool-cases (is_space c)) [
  | inl e ↦ let (front, split, are) = leading s in rw e (c ∷ front, ap (λ x. c ∷ x) split, (e, are))
  | inr e ↦ rw e ([], refl, tt)
]

-- The word in front of a text, and what follows it.
word-split :
    (n : ℕ) (s : Bytes)
    → (s ≡ (word n s).0 ++ (word n s).1)
      × (length (word n s).0 ≤ n)
      × All (λ c. is_space c ≡ false) (word n s).0
unfolding word
word-split zero s = (refl, omega arith, tt)
word-split (suc n) [] = (refl, omega arith, tt)
word-split (suc n) (c ∷ s) = elim (Bool-cases (is_space c)) [
  | inl e ↦ rw e (refl, omega arith, tt)
  | inr e ↦
      let (split, short, solid) = word-split n s in
      rw e (ap (λ x. c ∷ x) split, omega (arith, short), (e, solid))
]

skipped-none : (n : ℕ) (s : Bytes) → (word (suc n) (skip_while is_space s)).0 ≡ [] → IsBlank s
unfolding word skip_while
skipped-none n [] h = tt
skipped-none n (c ∷ s) h = elim (Bool-cases (is_space c)) [
  | inl e ↦ (e, skipped-none n s (rw e at h))
  | inr e ↦ let x = rw (e, e) at h in absurd (cc)
]

-- A word is not found only in blanks.
scan_word-none : (n : ℕ) (s : Bytes) → scan_word (suc n) s ≡ none → IsBlank s
unfolding scan_word
scan_word-none n s h = skipped-none n s (empty_word (word (suc n) (skip_while is_space s)) h)
  where
    empty_word :
        (t : Bytes × Bytes)
        → elim t.0 as (λ _. Option (Bytes × Bytes)) [ [] ↦ none | c ∷ w ↦ some (c ∷ w, t.1) ] ≡ none
        → t.0 ≡ []
    empty_word ([], rest) e = refl
    empty_word (c ∷ w, rest) e = absurd (cc)

-- A word that is found stands behind blanks, and the rest behind it.
scan_word-some :
    (n : ℕ) (s w rest : Bytes)
    → scan_word n s ≡ some (w, rest)
    → (front : Bytes) × (s ≡ front ++ (w ++ rest))
      × IsBlank front
      × (length w ≤ n)
      × All (λ c. is_space c ≡ false) w
unfolding scan_word
scan_word-some n s w rest h =
    let (front, split, are) = leading s in
    let (parts, short, solid) = word-split n (skip_while is_space s) in
    let (e0, e1) = same (word n (skip_while is_space s)) h in
    (
      front,
      split ∙ ap (λ x. front ++ x) (rw (← e0, ← e1) parts),
      are,
      rw (← e0) short,
      rw (← e0) solid,
    )
  where
    same :
        (t : Bytes × Bytes)
        → elim t.0 as (λ _. Option (Bytes × Bytes)) [ [] ↦ none | c ∷ v ↦ some (c ∷ v, t.1) ]
          ≡ some (w, rest)
        → (t.0 ≡ w) × (t.1 ≡ rest)
    same ([], r) e = absurd (cc)
    same (c ∷ v, r) e = (cc, cc)

abbrev and_path : Bytes → Bytes × Bytes → Option (Bytes × Bytes)
and_path m p = some (m, p.0)

abbrev two_words : Bytes → Option (Bytes × Bytes)
two_words s = scan_word 15 s >>= λ t. scan_word 2047 t.1 >>= and_path t.0

pub parse_raw_request-none : (buffer : Bytes) → parse_raw_request buffer ≡ none → IsNoLine buffer
unfolding parse_raw_request
parse_raw_request-none buffer h = by_end (header_end buffer) refl h
  where
    by_second :
        (m rest : Bytes)
        → scan_word 15 (c_str buffer) ≡ some (m, rest)
        → (o : Option (Bytes × Bytes)) → scan_word 2047 rest ≡ o
        → (o >>= and_path m) ≡ none
        → IsNoLine buffer
    by_second m rest e none e' x =
        let (front, split, are, short, solid) = scan_word-some 15 (c_str buffer) m rest e in
        inr (
          inr (record {
            front = front;
            only = m;
            behind = rest;
            split = split;
            blank_front = are;
            short = short;
            solid = solid;
            blank_behind = scan_word-none 2046 rest e';
          }))
    by_second m rest e (some p) e' x = absurd (cc)

    by_first :
        (o : Option (Bytes × Bytes))
        → scan_word 15 (c_str buffer) ≡ o
        → (o >>= λ t. scan_word 2047 t.1 >>= and_path t.0) ≡ none
        → IsNoLine buffer
    by_first none e x = inr (
        inr (record {
          front = c_str buffer;
          only = [];
          behind = [];
          split = sym (append-nil (c_str buffer));
          blank_front = scan_word-none 14 (c_str buffer) e;
          short = omega arith;
          solid = tt;
          blank_behind = tt;
        }))
    by_first (some (m, rest)) e x = by_second m rest e (scan_word 2047 rest) refl x

    by_lf :
        (b : Bool) (i k : ℕ)
        → header_end buffer ≡ some (i, k)
        → has (take i buffer) lf ≡ b
        → (guard b >> two_words (c_str buffer)) ≡ none
        → IsNoLine buffer
    by_lf false i k e e' x = inr (inl (i, k, e, e'))
    by_lf true i k e e' x = by_first (scan_word 15 (c_str buffer)) refl x

    by_end :
        (at : Option (ℕ × ℕ))
        → header_end buffer ≡ at
        → (at >>= λ t. guard (has (take t.0 buffer) lf) >> two_words (c_str buffer)) ≡ none
        → IsNoLine buffer
    by_end none e x = inl e
    by_end (some (i, k)) e x = by_lf (has (take i buffer) lf) i k e refl x
