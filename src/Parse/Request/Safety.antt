-- ===== src/Parse/Request/Safety.antt =====
-- What holds of every request that is accepted.
use mnet.Base.{
  ℕ, ◌+◌, ◌≤◌, ◌<◌, ◌≡◌, ◌≢◌, refl, sym, ap, ◌∙◌, Bool, List, [], ◌∷◌, ◌++◌, Option, none, some,
  arith, Bytes, All, cut_at, length, take, drop, subst, cut_at-Lacks, Option-cases, inl, inr,
}
use mnet.Limits.{max_headers, max_query}
use mnet.Parse.Text.{c_str, header_end}
use mnet.Parse.Line.{Method, parse_raw_request, parse_method}
use mnet.Parse.Line.Bounds.{parse_raw_request_bounds}
use mnet.Parse.Length.{content_length, length_is}
use mnet.Parse.Body.{Event, Body, no_body, body, read_full_body}
use mnet.Parse.Body.Exact.{delivered, read_full_body-exact}
use mnet.Parse.Fields.{Pair, parse_headers, parse_query_string}
use mnet.Parse.Fields.Bounds.{IsHeader, parse_headers_bounds, parse_query_string_bounds}
use mnet.Parse.Request.{
  Request, parsed, assemble, query_of, or_none, headers_of, with_headers, with_body, with_method,
  with_line, parse_request,
}

-- How an accepted request came about.
record Origin (max : ℕ) (buffer : Bytes) (events : List Event) (r : Request) : Type 0 where
  line : parse_raw_request buffer ≡ some (r.method_text, r.path)
  method : parse_method r.method_text ≡ some r.method
  content : read_full_body max buffer events ≡ body r.body_heap r.content
  headers : headers_of buffer (header_end buffer) ≡ some r.headers
  made : r ≡ assemble r.method_text r.method r.path r.body_heap r.content r.headers

parse_request-Origin :
    (max : ℕ) (buffer : Bytes) (events : List Event) (r : Request)
    → parse_request max buffer events ≡ parsed r
    → Origin max buffer events r
unfolding parse_request with_line with_method with_body with_headers assemble
parse_request-Origin max buffer events r h = at_line (parse_raw_request buffer) refl h
  where
    at_headers :
        (m : Bytes) (method : Method) (path : Bytes) (heap : Bool) (content : Bytes)
        (o : Option (List Pair))
        → parse_raw_request buffer ≡ some (m, path)
        → parse_method m ≡ some method
        → read_full_body max buffer events ≡ body heap content
        → headers_of buffer (header_end buffer) ≡ o
        → with_headers m method path heap content o ≡ parsed r
        → Origin max buffer events r
    at_headers m method path heap content none e e' e'' e3 p = absurd (cc)
    at_headers m method path heap content (some hs) e e' e'' e3 p =
        let made : assemble m method path heap content hs ≡ r = cc in
        subst (Origin max buffer events) made
          (record { line = e; method = e'; content = e''; headers = e3; made = refl })

    at_body :
        (m : Bytes) (method : Method) (path : Bytes) (b : Body)
        → parse_raw_request buffer ≡ some (m, path)
        → parse_method m ≡ some method
        → read_full_body max buffer events ≡ b
        → with_body buffer m method path b ≡ parsed r
        → Origin max buffer events r
    at_body m method path (no_body f) e e' e'' p = absurd (cc)
    at_body m method path (body heap content) e e' e'' p =
        at_headers m method path heap content (headers_of buffer (header_end buffer)) e e' e'' refl
          p

    at_method :
        (m path : Bytes) (o : Option Method)
        → parse_raw_request buffer ≡ some (m, path)
        → parse_method m ≡ o
        → with_method max buffer events m path o ≡ parsed r
        → Origin max buffer events r
    at_method m path none e e' p = absurd (cc)
    at_method m path (some method) e e' p =
        at_body m method path (read_full_body max buffer events) e e' refl p

    at_line :
        (o : Option (Bytes × Bytes))
        → parse_raw_request buffer ≡ o
        → with_line max buffer events o ≡ parsed r
        → Origin max buffer events r
    at_line none e p = absurd (cc)
    at_line (some (m, path)) e p = at_method m path (parse_method m) e refl p

-- The request as `parse_request` leaves it in `parsed_request_t`, within its limits.
pub record IsSafe (max : ℕ) (buffer : Bytes) (events : List Event) (r : Request) : Type 0 where
  -- method[16], path[2048] and path_only[2048] hold their texts and the NULs
  pub method_fits : length r.method_text < 16
  pub path_fits : length r.path < 2048
  pub path_only_fits : length r.path_only < 2048
  -- the path has no query behind it
  pub path_only_plain : All (λ c. c ≢ b'?') r.path_only
  pub method_known : parse_method r.method_text ≡ some r.method
  pub few_headers : length r.headers ≤ max_headers
  pub headers_valid : All IsHeader r.headers
  pub few_parameters : length r.query ≤ max_query
  pub body_within : length r.content ≤ max
  -- the body is what the headers announce, from behind them
  pub body_exact :
      (i k : ℕ) × (header_end buffer ≡ some (i, k))
      × (parse_headers (take i buffer) ≡ some r.headers)
      × (content_length max i (c_str buffer) ≡ length_is (length r.content))
      × (r.content ≡ take (length r.content) (drop (i + k) buffer ++ delivered events))

query_of-few : (qs : Option Bytes) → length (query_of qs) ≤ max_query
unfolding query_of or_none
query_of-few none = omega arith
query_of-few (some qs) = elim (Option-cases (parse_query_string qs)) [
  | inl e ↦ rw e (omega arith)
  | inr (ps, e) ↦ rw e (parse_query_string_bounds qs ps e).0
]

cut_at-le : (b : ℕ) (s : Bytes) → length (cut_at b s).0 ≤ length s
unfolding cut_at
cut_at-le b [] = omega arith
cut_at-le b (c ∷ s) = ground (arith, cut_at-le b s)

assemble-path :
    (m : Bytes) (method : Method) (path : Bytes) (heap : Bool) (content : Bytes) (hs : List Pair)
    → (assemble m method path heap content hs).path_only ≡ (cut_at b'?' path).0
unfolding assemble
assemble-path m method path heap content hs = refl

assemble-few :
    (m : Bytes) (method : Method) (path : Bytes) (heap : Bool) (content : Bytes) (hs : List Pair)
    → length (assemble m method path heap content hs).query ≤ max_query
unfolding assemble
assemble-few m method path heap content hs = query_of-few (cut_at b'?' path).1

-- Every request that `parse_request` accepts is safe: its texts fit their arrays, its method is known,
-- it has at most MNET_MAX_HEADERS headers (all with valid names, and taken from before the blank line
-- only) and MNET_MAX_QUERY parameters, and its body is exactly what Content-Length announces, within
-- the limit, from the bytes behind the headers.
pub parse_request-IsSafe :
    (max : ℕ) (buffer : Bytes) (events : List Event) (r : Request)
    → parse_request max buffer events ≡ parsed r
    → IsSafe max buffer events r
unfolding headers_of
parse_request-IsSafe max buffer events r h =
    let o = parse_request-Origin max buffer events r h in
    let (_, m_fits, _, _, p_fits, _) =
      parse_raw_request_bounds buffer r.method_text r.path o.line in
    let (i, k, e, l, within, whole) =
      read_full_body-exact max buffer r.content events r.body_heap o.content in
    let path_only : r.path_only ≡ (cut_at b'?' r.path).0 =
      ap (λ (x : Request). x.path_only) o.made
      ∙ assemble-path r.method_text r.method r.path r.body_heap r.content r.headers in
    let hs : parse_headers (take i buffer) ≡ some r.headers =
      subst (λ x. headers_of buffer x ≡ some r.headers) e o.headers in
    let (few, valid) = parse_headers_bounds (take i buffer) r.headers hs in
    record {
      method_fits = m_fits;
      path_fits = p_fits;
      path_only_fits = rw path_only (omega (arith, cut_at-le b'?' r.path));
      path_only_plain = rw path_only (cut_at-Lacks b'?' r.path);
      method_known = o.method;
      few_headers = few;
      headers_valid = valid;
      few_parameters =
          subst (λ (x : Request). length x.query ≤ max_query) (sym o.made)
            (assemble-few r.method_text r.method r.path r.body_heap r.content r.headers);
      body_within = within;
      body_exact = (i, k, e, hs, l, whole);
    }
