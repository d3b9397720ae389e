-- ===== src/Handlers/Welcome.antt =====
-- src/mnet_handlers.c, `welcome_response`. The clock and the first line of .git/HEAD are parameters.
use mnet.Base.{
  ℕ, zero, suc, ◌+◌, ◌-◌, Bool, true, false, not, ◌||◌, List, [], ◌∷◌, ◌++◌, Option, none, some,
  ◌==◌, if◌then◌else◌, Bytes, codes, length, take, drop, starts_with, cut_at, skip_while,
}
use mnet.App.{ℤ, pos, negsuc, App, decimal}
use mnet.Parse.Text.{is_blank}
use mnet.Response.{Response}
use mnet.Handlers.{text_response, status_response}

abbrev pub welcome_html : Bytes
welcome_html =
    codes
      "<!DOCTYPE html>\n<html>\n<head><title>mnet Server</title></head>\n<body>\n<h1>Congratulations!</h1>\n<p>You successfully started the mnet server.</p>\n<p>Go to <a href=\"https://github.com/mnet-web/mnet/blob/main/README.md\">\nREADME.md</a> for more information about MNET.</p>\n<p>Go to <a href=\"https://github.com/mnet-web/mnet/blob/main/docs/clib.md\">\nclib.md</a> for further setup.</p>\n<p>Development state: %s</p>\n<p>Reported https state: %s (display only, TLS is not implemented)</p>\n<p>Listening port: %d</p>\n<p>Debug mode: %s</p>\n<p>Worker count: %d</p>\n<p>Max connections: %d</p>\n<p>Timeout: %d seconds</p>\n<p>Keep-alive timeout: %d seconds</p>\n<p>Max body size: %zu bytes</p>\n<p>Routes defined: %zu</p>\n<p>Build time: %s</p>\n<p>Git commit: <code>%12s</code></p>\n</body>\n</html>"

-- `%d`
unfoldable pub decimal_int : ℤ → Bytes
decimal_int (pos n) = decimal n
decimal_int (negsuc n) = b'-' ∷ decimal (suc n)

-- What vsnprintf makes of one byte of a format with %s, %12s, %d and %zu, given the texts of the arguments
-- that are left: inside a specifier it looks for its last character, and outside a '%' begins one.
unfoldable pub fill_step : Bool → ℕ → List Bytes → Bytes × Bool × List Bytes
fill_step true c args = ([], not (c == b's' || (c == b'd' || c == b'u')), args)
fill_step false c [] = (c ∷ [], false, [])
fill_step false c (a ∷ args) = if c == b'%' then (a, true, args) else (c ∷ [], false, a ∷ args)

unfoldable pub fill : Bool → Bytes → List Bytes → Bytes
fill inside [] args = []
fill inside (c ∷ s) args =
    (fill_step inside c args).0 ++ fill (fill_step inside c args).1 s (fill_step inside c args).2

-- The n blanks in front of a text that is shorter than its field.
unfoldable pub blanks : ℕ → Bytes → Bytes
blanks zero s = s
blanks (suc n) s = b' ' ∷ blanks n s

-- `%12s`
unfoldable pub field_12 : Bytes → Bytes
field_12 s = blanks (12 - length s) s

-- commit_hash, from the line that fgets reads into line[256].
unfoldable pub commit_of : Option Bytes → Bytes
commit_of none = codes "unknown"
commit_of (some line) =
    let text = (cut_at 10 (take 255 line)).0 in
    if starts_with (codes "ref:") text
    then take 12 (skip_while is_blank (drop 4 text))
    else take 12 text

unfoldable pub true_or_false : Bool → Bytes
true_or_false b = if b then codes "true" else codes "false"

unfoldable pub https_state : Bool → Bytes
https_state b = if b then codes "https" else codes "http"

module _ {H M : Type 0} where
  unfoldable pub welcome_arguments : App H M → ℕ → Bytes → Option Bytes → List Bytes
  welcome_arguments app port time line =
      true_or_false app.dev
      ∷ https_state app.https
      ∷ decimal port
      ∷ true_or_false app.debug
      ∷ decimal app.workers
      ∷ decimal_int app.max_connections
      ∷ decimal_int app.timeout_seconds
      ∷ decimal_int app.keep_alive_timeout
      ∷ decimal app.max_body_size
      ∷ decimal (length app.routes)
      ∷ time
      ∷ field_12 (commit_of line)
      ∷ []

  -- total_len
  unfoldable pub welcome_size : App H M → ℕ
  welcome_size app =
      length welcome_html + length (true_or_false app.dev) + length (https_state app.https) + 512

  -- The page, or the error of `mnet_error` when there is no memory for it. snprintf writes at most
  -- total_len - 1 bytes.
  unfoldable pub welcome_response : Bool → App H M → ℕ → Bytes → Option Bytes → Response
  welcome_response memory app port time line =
      let page =
        take (welcome_size app - 1)
          (fill false welcome_html (welcome_arguments app port time line)) in
      if memory
      then text_response 200 (codes "text/html") page
      else status_response 500 (some (codes "internal server error"))
