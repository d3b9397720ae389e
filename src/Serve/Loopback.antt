-- ===== src/Serve/Loopback.antt =====
-- src/mnet_client.c against src/mnet_server.c: a call of the client that the server answers.
use mnet.Base.{
  ℕ, ◌≡◌, ◌≢◌, ◌≤◌, refl, ap, ◌∙◌, Bool, true, false, List, [], ◌∷◌, ◌++◌, map, none, some,
  append-nil, leb, ◌==◌, if◌then◌else◌, Bytes, All, length,
}
use mnet.Limits.{max_params, max_body_size}
use mnet.Parse.Line.{head}
use mnet.Parse.Body.{data_ready}
use mnet.Parse.Request.{Request, parsed, parse_request}
use mnet.Connection.{Turn, body_limit}
use mnet.App.{App}
use mnet.Dispatch.{method_number, dispatch}
use mnet.Response.{Response, content, send_response}
use mnet.Client.{Address, Receive, delivers, url_parse, call_request, call_result, mnet_call}
use mnet.Client.Reading.{send_response-ne}
use mnet.Serve.{Program, carry_out, serve}
use mnet.Serve.Arrival.{call_request-whole}
use mnet.Serve.EndToEnd.{serve-first, serve-read}

-- The network delivers what the server sends as the client is given it, one delivery for each `mnet_send`.
abbrev pub delivered : List (List Bytes) → List Receive
delivered [] = []
delivered (texts ∷ more) = map (λ t. delivers t) texts ++ delivered more

-- A connection on which the client's request arrives, whole, and then nothing.
abbrev pub request_turn : Bytes → Turn
request_turn req = record { header_events = data_ready req ∷ []; body_events = [] }

module _ {H M : Type 0} (program : Program H M) (app : App H M) (allocs : ℕ → ℕ → ℕ → Bool) where
  -- A call of the client, with a host and a path without NUL (as all C strings are), whose request is
  -- not HEAD and is accepted by the server, and is answered with a status other than 0, a body within the
  -- client's limit that is not chunked, and a header that can be sent: the caller gets the handler's body
  -- when the status is below 400, and NULL otherwise.
  pub mnet_call-serve :
      (url : Bytes) (a : Address) (req : Bytes) (r : Request) (response : Response) (b out : Bytes)
      → url_parse 1024 2048 (some url) ≡ some a
      → call_request a ≡ some req
      → All (λ c. c ≢ 0) a.host
      → All (λ c. c ≢ 0) a.path
      → parse_request (body_limit app.max_body_size) req [] ≡ parsed r
      → carry_out program (dispatch (allocs 0) max_params app r) ≡ response
      → response.status ≢ 0
      → (method_number r.method == method_number head) ≡ false
      → response.chunked ≡ false
      → content response.body response.body_length ≡ some b
      → send_response response false r.keep_alive ≡ out ∷ []
      → length b ≤ max_body_size
      → mnet_call
          (λ x. true)
          (λ x sent. some (delivered (serve program app allocs (request_turn sent ∷ []))))
          (some url)
        ≡ (if leb 400 response.status then none else some b)
  unfolding mnet_call call_result
  mnet_call-serve url a req r response b out address text host_text path_text accepted chosen
        has_status no_head plain has_body sent fits =
      let turn = request_turn req in
      let whole = call_request-whole a req host_text path_text text in
      let (more, first, alone) =
        serve-first program app allocs turn [] req r response b out whole accepted chosen has_status
          no_head plain has_body sent in
      let received =
        (serve-read program app allocs turn [] req r response b out whole accepted chosen has_status
          no_head plain has_body sent max_body_size (out ∷ [])
          (send_response-ne response r.keep_alive b out plain has_body sent, tt) (append-nil out)
          fits).1 in
      let only : serve program app allocs (turn ∷ []) ≡ (out ∷ []) ∷ [] =
        first ∙ ap (λ m. (out ∷ []) ∷ m) (alone refl) in
      rw (address, text, only, received) refl
