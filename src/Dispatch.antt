-- ===== src/Dispatch.antt =====
-- src/mnet_dispatch.c, `mnet_find_route` and `dispatch`: the choice of what answers a request.
pub mod First
pub mod Answers
mod Tests
use mnet.Base.{
  ℕ, suc, ◌+◌, Bool, true, false, ◌||◌, List, [], ◌∷◌, Option, none, some, ◌==◌, if◌then◌else◌,
  Bytes, codes, length, str_eq,
}
use mnet.Limits.{max_params}
use mnet.Parse.Line.{Method, get, post, put, patch, delete, head, options}
use mnet.Parse.Fields.{Pair}
use mnet.Parse.Request.{Request}
use mnet.Router.{Match, matched, no_match, refused, route_match}
use mnet.App.{Route, App}

-- The enumerators of `mnet_http_method_t`.
unfoldable pub method_number : Method → ℕ
method_number get = 0
method_number post = 1
method_number put = 2
method_number patch = 3
method_number delete = 4
method_number head = 5
method_number options = 6

-- The result of `mnet_find_route`: NULL, or a route with *out_count and the values stored.
pub data Found (H : Type 0) : Type 0 where
  nowhere : Found H
  found : Route H → ℕ → List Bytes → Found H

-- Behind `mnet_route_match` on a route: it, or what the other routes give.
unfoldable pub attempt : {H : Type 0} → Route H → Match → Found H → Found H
attempt r (matched n values) others = found r n values
attempt r (no_match n live) others = others
attempt r refused others = others

-- The loop over the routes, from the i-th; `alloc i` are the allocations for its match.
unfoldable pub find_loop :
    {H : Type 0} → (ℕ → ℕ → Bool) → ℕ → Method → Bytes → ℕ → List (Route H) → Found H
find_loop alloc max method path i [] = nowhere
find_loop alloc max method path i (r ∷ rs) =
    let others = find_loop alloc max method path (suc i) rs in
    if method_number r.method == method_number method
    then attempt r (route_match (alloc i) max (some r.path) (some path)) others
    else others

-- `if (method == MNET_HTTP_HEAD) return mnet_find_route(app, MNET_HTTP_GET, ...)`
unfoldable pub or_get : {H : Type 0} → Method → Found H → Found H → Found H
or_get method (found r n values) by_get = found r n values
or_get method nowhere by_get =
    if method_number method == method_number head then by_get else nowhere

-- `mnet_find_route`
unfoldable pub find_route :
    {H : Type 0} → (ℕ → ℕ → Bool) → ℕ → Method → Bytes → List (Route H) → Found H
find_route alloc max method path routes =
    or_get method (find_loop alloc max method path 0 routes)
      (find_loop alloc max get path (length routes) routes)

-- The request that a handler gets: what was parsed, and what the route adds.
pub record HandlerRequest : Type 0 where
  pub parsed : Request
  pub path_param_names : List Bytes
  pub path_param_values : List Bytes
  pub path_param_count : ℕ
  pub user_data : Option (Bytes × Bytes)

-- What `dispatch` answers with: the welcome page, `mnet_error(404, "not found")`, the not-found handler
-- on this method and path, an empty response, the middleware on a request and a handler, or a handler.
pub data Answer (H M : Type 0) : Type 0 where
  welcome : Answer H M
  plain_404 : Answer H M
  not_found_by : H → Bytes → Bytes → Answer H M
  empty : Answer H M
  through : M → HandlerRequest → H → Answer H M
  handled : H → HandlerRequest → Answer H M

unfoldable pub not_found_answer : {H M : Type 0} → Option H → Request → Answer H M
not_found_answer none parsed = empty
not_found_answer (some h) parsed = not_found_by h parsed.method_text parsed.path_only

unfoldable pub call : {H M : Type 0} → Option M → HandlerRequest → H → Answer H M
call none req handler = handled handler req
call (some m) req handler = through m req handler

unfoldable pub answer_route : {H M : Type 0} → App H M → Request → Found H → Answer H M
answer_route app parsed nowhere = not_found_answer app.not_found_handler parsed
answer_route app parsed (found r n values) =
    call app.middleware
      (record {
        parsed = parsed;
        path_param_names = r.param_names;
        path_param_values = values;
        path_param_count = n;
        user_data = r.user_data;
      })
      r.handler

-- `dispatch`
unfoldable pub dispatch : {H M : Type 0} → (ℕ → ℕ → Bool) → ℕ → App H M → Request → Answer H M
dispatch alloc max app parsed =
    let route = find_route alloc max parsed.method parsed.path_only app.routes in
    let page = parsed.path_only in
    if length app.routes == 0
    then (if str_eq page (codes "/") || str_eq page (codes "/index.html")
        then welcome
        else plain_404)
    else answer_route app parsed route
