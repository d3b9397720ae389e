-- ===== src/Parse/Line/Bounds.antt =====
-- The words of the request line fit the arrays that they are read into.
use mnet.Base.{
  ℕ, zero, suc, ◌≤◌, ◌<◌, ◌≡◌, ◌≢◌, false, [], ◌∷◌, some, arith, >>=-eq-some, guard, Bytes, length,
  All, take, skip_while,
}
use mnet.Header.{has}
use mnet.Parse.Text.{c_str, header_end, lf}
use mnet.Parse.Line.{is_space, word, scan_word, parse_raw_request}

word_bounds :
    (n : ℕ) (s : Bytes) → (length (word n s).0 ≤ n) × All (λ c. is_space c ≡ false) (word n s).0
unfolding word
word_bounds zero s = (omega arith, tt)
word_bounds (suc n) [] = (omega arith, tt)
word_bounds (suc n) (c ∷ s) = ground (arith, word_bounds n s)

scan_word_bounds :
    (n : ℕ) (s w rest : Bytes)
    → scan_word n s ≡ some (w, rest)
    → (w ≢ []) × (length w ≤ n) × All (λ c. is_space c ≡ false) w
unfolding scan_word
scan_word_bounds n s w rest h = ground (arith, word_bounds n (skip_while is_space s))

words_of :
    (buffer method path : Bytes)
    → parse_raw_request buffer ≡ some (method, path)
    → (rest tail : Bytes) × (scan_word 15 (c_str buffer) ≡ some (method, rest))
      × (scan_word 2047 rest ≡ some (path, tail))
unfolding parse_raw_request
words_of buffer method path h =
    let (found, _, after_end) = >>=-eq-some (header_end buffer) _ h in
    let (_, _, scans) = >>=-eq-some (guard (has (take found.0 buffer) lf)) _ after_end in
    let ((m, rest), first, after_method) = >>=-eq-some (scan_word 15 (c_str buffer)) _ scans in
    let ((p, tail), second, result) = >>=-eq-some (scan_word 2047 rest) _ after_method in
    (rest, tail, ground (arith, first, result), ground (arith, second, result))

-- The method and the target that `parse_raw_request` reads are not empty, hold no white space, and
-- fit `method[16]` and `path[2048]` with their NUL.
pub parse_raw_request_bounds :
    (buffer method path : Bytes)
    → parse_raw_request buffer ≡ some (method, path)
    → (method ≢ [])
      × (length method < 16)
      × All (λ c. is_space c ≡ false) method
      × (path ≢ [])
      × (length path < 2048)
      × All (λ c. is_space c ≡ false) path
parse_raw_request_bounds buffer method path h =
    let (rest, tail, m, p) = words_of buffer method path h in
    let (m_some, m_fits, m_plain) = scan_word_bounds 15 (c_str buffer) method rest m in
    let (p_some, p_fits, p_plain) = scan_word_bounds 2047 rest path tail p in
    (m_some, omega arith, m_plain, p_some, omega arith, p_plain)
