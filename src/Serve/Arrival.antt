-- ===== src/Serve/Arrival.antt =====
-- The request of the client, when it arrives in one piece, is read whole by the server.
use mnet.Base.{
  ℕ, suc, ◌≤◌, ◌≡◌, ◌≢◌, refl, sym, ap, ◌∙◌, Bool, true, false, [], ◌∷◌, ◌++◌, Option, none, some,
  arith, append_assoc, ltb, ltb→lt, subst, ==_ne, if◌then◌else◌, Bytes, codes, length, take-of_le,
  All, All-append, find_sub, starts_with, Bool-cases, inl, inr,
}
use mnet.Parse.Text.{c_str, header_end}
use mnet.Parse.Body.{data_ready}
use mnet.Connection.{blank_line, complete, is_found, took, fill_loop, read_headers}
use mnet.Client.{Address, call_request}

starts_with_refl : (p : Bytes) → starts_with p p ≡ true
unfolding starts_with
starts_with_refl [] = refl
starts_with_refl (c ∷ p) = ground (arith, starts_with_refl p)

-- A text stands in every text that it ends.
find_sub-end : (p x : Bytes) → p ≢ [] → (k : ℕ) × (find_sub p (x ++ p) ≡ some k)
unfolding find_sub
find_sub-end p (c ∷ x) h =
    let (k, e) = find_sub-end p x h in
    elim (Bool-cases (starts_with p (c ∷ (x ++ p)))) [
      | inl at ↦ (0, rw at refl)
      | inr later ↦ (suc k, rw (later, e) refl)
    ]
find_sub-end [] [] h = absurd (h refl)
find_sub-end (d ∷ p) [] h = (0, rw (starts_with_refl (d ∷ p)) refl)

c_str-whole : (s : Bytes) → All (λ c. c ≢ 0) s → c_str s ≡ s
unfolding c_str
c_str-whole [] h = refl
c_str-whole (c ∷ s) h = rw (==_ne c 0 h.0, c_str-whole s h.1) refl

complete-end : (x : Bytes) → All (λ c. c ≢ 0) (x ++ blank_line) → complete (x ++ blank_line) ≡ true
unfolding complete header_end is_found
complete-end x h =
    let (k, e) = find_sub-end blank_line x (λ no. cc) in
    by_first (find_sub blank_line (c_str (x ++ blank_line))) k
      (ap (find_sub blank_line) (c_str-whole (x ++ blank_line) h) ∙ e)
  where
    by_first :
        (o : Option ℕ) (k : ℕ)
        → o ≡ some k
        → is_found (elim o [
          | some i ↦ some (i, 4)
          | none ↦ elim (find_sub (10 ∷ 10 ∷ []) (c_str (x ++ blank_line))) [
            | some i ↦ some (i, 2)
            | none ↦ none
          ]
        ])
          ≡ true
    by_first none k e = absurd (cc)
    by_first (some i) k e = refl

read_headers-complete :
    (c : ℕ) (s : Bytes)
    → complete (c ∷ s) ≡ true
    → length (c ∷ s) ≤ 8191
    → read_headers [] (data_ready (c ∷ s) ∷ []) ≡ (c ∷ s, true)
unfolding read_headers fill_loop took
read_headers-complete c s h l = rw (take-of_le 8191 (c ∷ s) l, h) refl

-- The request up to the host, behind it, and whole.
abbrev up_to_host : Address → Bytes
up_to_host a = codes "GET " ++ a.path ++ codes " HTTP/1.1\r\nHost: " ++ a.host

abbrev behind_host : Bytes
behind_host = codes "\r\nUser-Agent: mnet/0.2.5\r\nAccept: */*\r\nConnection: close"

abbrev request_text : Address → Bytes
request_text a = (up_to_host a ++ behind_host) ++ blank_line

abbrev NoNul : Bytes → Type 0
NoNul s = All (λ c. c ≢ 0) s

append-NoNul : (s t : Bytes) → NoNul s → NoNul t → NoNul (s ++ t)
append-NoNul s t hs ht = All-append (λ c. c ≢ 0) s t hs ht

request_text-NoNul : (a : Address) → NoNul a.host → NoNul a.path → NoNul (request_text a)
request_text-NoNul a h p =
    let get = append-NoNul (codes "GET ") a.path (omega arith) p in
    let line =
      append-NoNul (codes "GET " ++ a.path) (codes " HTTP/1.1\r\nHost: ") get (omega arith) in
    let host = append-NoNul (codes "GET " ++ a.path ++ codes " HTTP/1.1\r\nHost: ") a.host line h in
    let fields = append-NoNul (up_to_host a) behind_host host (omega arith) in
    append-NoNul (up_to_host a ++ behind_host) blank_line fields (omega arith)

call_request-text :
    (a : Address)
    → call_request a ≡ (if ltb (length (request_text a)) 4096 then some (request_text a) else none)
unfolding call_request
call_request-text a =
    ap (λ (r : Bytes). if ltb (length r) 4096 then some r else none)
      (sym (append_assoc (up_to_host a) behind_host blank_line))

-- A request of the client to a host and path without NUL, as all C strings are, is read whole when it
-- arrives in one piece: it ends in a blank line and fits the buffer.
pub call_request-whole :
    (a : Address) (req : Bytes)
    → All (λ c. c ≢ 0) a.host
    → All (λ c. c ≢ 0) a.path
    → call_request a ≡ some req
    → read_headers [] (data_ready req ∷ []) ≡ (req, true)
call_request-whole a req h p e =
    by_size (ltb (length (request_text a)) 4096) refl (sym (call_request-text a) ∙ e)
  where
    by_size :
        (fits : Bool)
        → ltb (length (request_text a)) 4096 ≡ fits
        → (if fits then some (request_text a) else none) ≡ some req
        → read_headers [] (data_ready req ∷ []) ≡ (req, true)
    by_size false small e' = absurd (cc)
    by_size true small e' =
        let same : request_text a ≡ req = cc in
        let below = ltb→lt (length (request_text a)) 4096 small in
        subst (λ r. read_headers [] (data_ready r ∷ []) ≡ (r, true)) same
          (read_headers-complete _ _
            (complete-end (up_to_host a ++ behind_host) (request_text-NoNul a h p)) (omega arith))
