-- ===== src/Serve/EndToEnd.antt =====
-- From the bytes of a request, through the parser, the routes, a handler and the socket, to what a client reads.
use mnet.Base.{
  ℕ, ◌≡◌, ◌≢◌, ◌≤◌, refl, ap, ◌∙◌, Bool, true, false, List, [], ◌∷◌, map, none, some, ==_ne, ◌==◌,
  if◌then◌else◌, Bytes, length, All,
}
use mnet.Limits.{max_params}
use mnet.Parse.Line.{head}
use mnet.Parse.Request.{Request, parsed, parse_request}
use mnet.Connection.{
  Turn, Reply, answer, read_headers, next_buffer, body_limit, respond, go_on, or_empty_buffer,
  handle_client,
}
use mnet.App.{App}
use mnet.Dispatch.{method_number, dispatch}
use mnet.Response.{Response, content, send_response}
use mnet.Client.{delivers, read_response}
use mnet.Client.Reading.{joined, read_response-send_response}
use mnet.Serve.{Program, carry_out, response_texts, texts_of, all_texts, serve}

-- The first reply on a connection whose first request is read whole and accepted; the only one when
-- nothing else arrives.
handle_client-answer :
    (configured : ℕ) (turn : Turn) (turns : List Turn) (buffer : Bytes) (r : Request)
    → read_headers [] turn.header_events ≡ (buffer, true)
    → parse_request (body_limit configured) buffer turn.body_events ≡ parsed r
    → (more : List Reply) × (handle_client configured [] (turn ∷ turns) ≡ answer r ∷ more)
      × (turns ≡ [] → more ≡ [])
unfolding handle_client respond go_on
handle_client-answer configured turn turns buffer r whole accepted =
    rw (whole, accepted) (kept r.keep_alive)
  where
    kept :
        (k : Bool)
        → (more : List Reply) × (go_on (answer r) (if k then some (next_buffer buffer) else none) (
              handle_client configured
                (or_empty_buffer (if k then some (next_buffer buffer) else none))
                turns)
            ≡ answer r ∷ more)
          × (turns ≡ [] → more ≡ [])
    kept true = (
      handle_client configured (or_empty_buffer (some (next_buffer buffer))) turns,
      refl,
      λ e. rw e refl,
    )
    kept false = ([], refl, λ e. refl)

module _ {H M : Type 0} (program : Program H M) (app : App H M) (allocs : ℕ → ℕ → ℕ → Bool)
    (turn : Turn) (turns : List Turn) (buffer : Bytes) (r : Request) (response : Response)
    (b out : Bytes) (whole : read_headers [] turn.header_events ≡ (buffer, true))
    (accepted : parse_request (body_limit app.max_body_size) buffer turn.body_events ≡ parsed r)
    (chosen : carry_out program (dispatch (allocs 0) max_params app r) ≡ response)
    (has_status : response.status ≢ 0)
    (no_head : (method_number r.method == method_number head) ≡ false)
    (plain : response.chunked ≡ false)
    (has_body : content response.body response.body_length ≡ some b)
    (sent : send_response response false r.keep_alive ≡ out ∷ []) where
  pub serve-first :
      (more : List (List Bytes)) × (serve program app allocs (turn ∷ turns) ≡ (out ∷ []) ∷ more)
      × (turns ≡ [] → more ≡ [])
  unfolding serve all_texts texts_of response_texts
  serve-first =
      let (more, replied, alone) =
        handle_client-answer app.max_body_size turn turns buffer r whole accepted in
      let texts : response_texts app r response ≡ out ∷ [] =
        rw (==_ne response.status 0 has_status, no_head) sent in
      (
        all_texts program app allocs 1 more,
        ap (all_texts program app allocs 0) replied
            ∙ ap (λ x. response_texts app r x ∷ all_texts program app allocs 1 more) chosen
            ∙ ap (λ t. t ∷ all_texts program app allocs 1 more) texts,
        λ e. ap (all_texts program app allocs 1) (alone e),
      )

  -- A first request that is read whole and accepted, and is not a HEAD request, whose answer from the
  -- routes, middleware and handlers has a status, a body and a header that can be sent: the server sends
  -- one text for it, and a client that gets this text in any pieces reads that status and that body.
  pub serve-read :
      (max : ℕ) (pieces : List Bytes)
      → All (λ x. x ≢ []) pieces
      → joined pieces ≡ out
      → length b ≤ max
      → ((more : List (List Bytes)) × (serve program app allocs (turn ∷ turns) ≡ (out ∷ []) ∷ more))
        × (read_response max (map (λ x. delivers x) pieces) ≡ some (response.status, b))
  serve-read max pieces full arrives fits =
      let (more, first, alone) = serve-first in
      (
        (more, first),
        read_response-send_response max response r.keep_alive b out pieces plain has_body sent full
            arrives fits,
      )
