-- ===== src/Client.antt =====
-- src/mnet_client.c: the address in a URL, the request that is sent and the response that is read.
pub mod Reading
pub mod Bounds
mod Tests
use mnet.Base.{
  ℕ, zero, suc, ◌+◌, ◌-◌, ◌*◌, Bool, true, false, ◌&&◌, ◌||◌, List, [], ◌∷◌, ◌++◌, Option, none,
  some, ltb, leb, ◌==◌, if◌then◌else◌, Bytes, codes, length, take, drop, starts_with, cut_at,
  skip_while, ◌>>=◌,
}
use mnet.Limits.{max_body_size}
use mnet.Parse.Text.{cr, lf}
use mnet.Parse.Line.{is_space}
use mnet.Parse.Length.{is_digit}

-- `while (*p && !stop(*p)) p++`: what p passes, and what it stops at.
unfoldable pub pass : (ℕ → Bool) → Bytes → Bytes × Bytes
pass stop [] = ([], [])
pass stop (c ∷ s) =
    let (front, rest) = pass stop s in if stop c then ([], c ∷ s) else (c ∷ front, rest)

-- `*p == '/' || *p == '?' || *p == '#'`
unfoldable pub starts_path : ℕ → Bool
starts_path c = c == b'/' || (c == b'?' || c == b'#')

unfoldable pub ends_host : ℕ → Bool
ends_host c = c == b':' || starts_path c

unfoldable pub skip_scheme : Bytes → Bytes
skip_scheme url =
    if starts_with (codes "https://") url
    then drop 8 url
    else if starts_with (codes "http://") url
    then drop 7 url
    else url

-- The number of a run of digits behind n, and what stops the run.
unfoldable pub digits_value : ℕ → Bytes → ℕ × Bytes
digits_value n [] = (n, [])
digits_value n (c ∷ s) =
    let more = digits_value (n * 10 + (c - b'0')) s in if is_digit c then more else (n, c ∷ s)

unfoldable pub skip_plus : Bytes → Bytes
skip_plus [] = []
skip_plus (c ∷ s) = if c == b'+' then s else c ∷ s

-- `strtol` on the text of the port, when it ends exactly where the path begins: the value, or none. (A
-- minus sign gives no port either, since the value is not positive.)
unfoldable pub port_digits : Bytes → Option ℕ
port_digits [] = none
port_digits (c ∷ s) =
    let (n, rest) = digits_value 0 (c ∷ s) in
    if is_digit c then elim rest [ [] ↦ some n | _ ∷ _ ↦ none ] else none

unfoldable pub port_in_range : Option ℕ → ℕ
port_in_range none = 80
port_in_range (some n) = if ltb 0 n && ltb n 65536 then n else 80

unfoldable pub port_of : Bytes → ℕ
port_of text = port_in_range (port_digits (skip_plus (skip_while is_space text)))

-- Behind the host: the text of the port, if there is one, and the path.
unfoldable pub port_and_path : Bytes → Bytes × Bytes
port_and_path [] = ([], [])
port_and_path (c ∷ s) = let split = pass starts_path s in if c == b':' then split else ([], c ∷ s)

-- *host_out, *port_out and *path_out.
pub record Address : Type 0 where
  pub host : Bytes
  pub port : ℕ
  pub path : Bytes

unfoldable pub address : ℕ → ℕ → Bytes → Bytes → Option Address
address host_size path_size [] rest = none
address host_size path_size (c ∷ host) rest =
    let (port_text, path) = port_and_path rest in
    some (record {
      host = take (host_size - 1) (c ∷ host);
      port = port_of port_text;
      path = take (path_size - 1) path;
    })

-- `mnet_url_parse`, for outputs that are not NULL.
unfoldable pub url_parse : ℕ → ℕ → Option Bytes → Option Address
url_parse host_size path_size none = none
url_parse host_size path_size (some url) =
    let (host, rest) = pass ends_host (skip_scheme url) in address host_size path_size host rest

-- The request of `mnet_call`, sent only when it fits req[4096].
unfoldable pub call_request : Address → Option Bytes
call_request a =
    let req =
      codes "GET "
      ++ a.path
      ++ codes " HTTP/1.1\r\nHost: "
      ++ a.host
      ++ codes "\r\nUser-Agent: mnet/0.2.5\r\nAccept: */*\r\nConnection: close\r\n\r\n" in
    if ltb (length req) 4096 then some req else none

-- What `mnet_recv` does in one round: it delivers, is interrupted, meets the end, or fails.
pub data Receive : Type 0 where
  delivers : Bytes → Receive
  interrupted : Receive
  ended : Receive
  fails : Receive

-- `while (raw_len < cap)`, with raw[0..raw_len); none is the -1 behind it. The connection ends when the
-- events run out. (A delivery of no bytes is the end; one is at most sizeof(buf) = 8192 bytes.)
unfoldable pub receive_loop : ℕ → Bytes → List Receive → Option Bytes
receive_loop cap raw [] = some raw
receive_loop cap raw (fails ∷ events) = if ltb (length raw) cap then none else some raw
receive_loop cap raw (ended ∷ events) = some raw
receive_loop cap raw (interrupted ∷ events) =
    let more = receive_loop cap raw events in if ltb (length raw) cap then more else some raw
receive_loop cap raw (delivers [] ∷ events) = some raw
receive_loop cap raw (delivers (c ∷ b) ∷ events) =
    let more = receive_loop cap (raw ++ c ∷ b) events in
    if ltb (length raw) cap then more else some raw

-- `atoi`, of a text without a sign.
unfoldable pub atoi : Bytes → ℕ
atoi s = (digits_value 0 (skip_while is_space s)).0

-- `memchr(raw, ' ', raw_len)`, and the number behind it.
unfoldable pub number_behind : Option Bytes → ℕ
number_behind none = 0
number_behind (some s) = atoi s

unfoldable pub status_of : Bytes → ℕ
status_of raw =
    if leb 12 (length raw) && starts_with (codes "HTTP/") raw
    then number_behind (cut_at b' ' raw).1
    else 0

-- The loop for body_off: what stands behind the first blank line.
unfoldable pub behind_blank : Bytes → Bytes
behind_blank [] = []
behind_blank (c ∷ s) =
    let later = behind_blank s in
    if starts_with (cr ∷ lf ∷ cr ∷ lf ∷ []) (c ∷ s)
    then drop 4 (c ∷ s)
    else if starts_with (lf ∷ lf ∷ []) (c ∷ s)
    then drop 2 (c ∷ s)
    else later

-- Behind the loop: no response at all is -1.
unfoldable pub response_of : ℕ → Option Bytes → Option (ℕ × Bytes)
response_of max_body none = none
response_of max_body (some []) = none
response_of max_body (some (c ∷ raw)) =
    some (status_of (c ∷ raw), take max_body (behind_blank (c ∷ raw)))

-- `mnet_read_response`: *out_status and the body.
unfoldable pub read_response : ℕ → List Receive → Option (ℕ × Bytes)
read_response max_body events = response_of max_body (receive_loop (max_body + 8192) [] events)

-- What `mnet_call` makes of it: no body for an error status.
unfoldable pub call_result : Option (ℕ × Bytes) → Option Bytes
call_result none = none
call_result (some (status, body)) = if leb 400 status then none else some body

-- `mnet_call`, up to the last NULL: `connects` is mnet_socket_connect, and `exchange` what the socket does
-- with a request, none when it cannot be sent.
unfoldable pub mnet_call :
    (Address → Bool) → (Address → Bytes → Option (List Receive)) → Option Bytes → Option Bytes
mnet_call connects exchange url = url_parse 1024 2048 url >>= λ a.
    if connects a
    then (call_request a >>= λ req.
        exchange a req >>= λ events. call_result (read_response max_body_size events))
    else none

-- `mnet_call_async`: the calls of the callback, with the body or NULL.
unfoldable pub mnet_call_async :
    (Address → Bool)
    → (Address → Bytes → Option (List Receive))
    → Option Bytes
    → Bool
    → List (Option Bytes)
mnet_call_async connects exchange none callback = []
mnet_call_async connects exchange (some url) callback =
    if callback then mnet_call connects exchange (some url) ∷ [] else []
