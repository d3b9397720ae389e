-- ===== src/Dispatch/Answers.antt =====
-- What `dispatch` calls, and with what.
use mnet.Base.{
  ℕ, suc, ◌≡◌, ◌≢◌, ◌⊎◌, inl, inr, refl, Bool, true, false, ◌||◌, List, [], ◌∷◌, Option, none, some,
  arith, ◌==◌, ==_ne, Bytes, All, codes, str_eq, length, take, if◌then◌else◌, All-middle, subst,
  sym, ◌∙◌,
}
use mnet.Parse.Line.{Method, get, head}
use mnet.Parse.Request.{Request}
use mnet.Router.Complete.{ok}
use mnet.App.{Route, App, names_from}
use mnet.App.Names.{names_from-length}
use mnet.Dispatch.{
  Found, nowhere, found, find_route, HandlerRequest, Answer, welcome, plain_404, not_found_by,
  empty, through, handled, not_found_answer, call, answer_route, dispatch,
}
use mnet.Dispatch.First.{Serves, IsFirst, Selected, find_route-Selected, Fits-matched}

-- A route whose parameter names are those of a pattern without dots, or are NULL.
abbrev pub IsNamed : {H : Type 0} → Route H → Type 0
IsNamed r =
    (r.param_names ≡ [])
    ⊎ (All (λ c. c ≢ b'.') r.path × (names_from ok 0 r.path ≡ some r.param_names))

module _ {H M : Type 0} (max : ℕ) (app : App H M) (parsed : Request) where
  -- A call of a handler: it belongs to the first route that serves the path and the method, or for HEAD
  -- the method GET; the request is the parsed one, and its names, unless NULL, are as many as its
  -- parameters.
  pub record IsCall (handler : H) (req : HandlerRequest) : Type 0 where
    pub route : Route H
    pub method : Method
    pub by_method : (method ≡ parsed.method) ⊎ ((parsed.method ≡ head) × (method ≡ get))
    pub first :
        IsFirst max method parsed.path_only app.routes route req.path_param_count
          req.path_param_values
    pub its_handler : handler ≡ route.handler
    pub its_request : req.parsed ≡ parsed
    pub names_fit :
        (req.path_param_names ≡ []) ⊎ (length req.path_param_names ≡ req.path_param_count)

  -- No route serves the request, neither by its method nor, for HEAD, by GET.
  abbrev pub IsUnserved : Type 0
  IsUnserved =
      All (λ q. ¬ Serves parsed.method parsed.path_only q) app.routes
      × (parsed.method ≡ head → All (λ q. ¬ Serves get parsed.path_only q) app.routes)

  unfoldable pub Permitted : Answer H M → Type 0
  Permitted welcome = app.routes ≡ []
  Permitted plain_404 = app.routes ≡ []
  Permitted (not_found_by h method path) =
      (app.not_found_handler ≡ some h)
      × (method ≡ parsed.method_text)
      × (path ≡ parsed.path_only)
      × IsUnserved
  Permitted empty = (app.not_found_handler ≡ none) × IsUnserved
  Permitted (through m req h) = (app.middleware ≡ some m) × IsCall h req
  Permitted (handled h req) = (app.middleware ≡ none) × IsCall h req

  names_fit_lem :
      (r : Route H) (method : Method) (n : ℕ) (values : List Bytes)
      → All IsNamed app.routes
      → IsFirst max method parsed.path_only app.routes r n values
      → (r.param_names ≡ []) ⊎ (length r.param_names ≡ n)
  names_fit_lem r method n values named f =
      elim (All-middle IsNamed f.before r f.behind (subst (All IsNamed) f.there named)) [
        | inl e ↦ inl e
        | inr (dotless, names) ↦ inr (
            names_from-length ok ok max (length f.serves.values) r.path parsed.path_only
              r.param_names (take max f.serves.values) dotless names
              (Fits-matched max r.path parsed.path_only f.serves.values f.serves.fits)
            ∙ sym f.counted)
      ]

  call-Permitted :
      (o : Option M) (h : H) (req : HandlerRequest)
      → app.middleware ≡ o
      → IsCall h req
      → Permitted (call o req h)
  unfolding Permitted call
  call-Permitted none h req e c = (e, c)
  call-Permitted (some m) h req e c = (e, c)

  not_found-Permitted :
      (o : Option H)
      → app.not_found_handler ≡ o
      → IsUnserved
      → Permitted (not_found_answer o parsed)
  unfolding Permitted not_found_answer
  not_found-Permitted none e u = (e, u)
  not_found-Permitted (some h) e u = (e, refl, refl, u)

  answer_route-Permitted :
      (f : Found H)
      → All IsNamed app.routes
      → Selected max parsed.method parsed.path_only app.routes f
      → Permitted (answer_route app parsed f)
  unfolding answer_route Selected
  answer_route-Permitted nowhere named c = not_found-Permitted app.not_found_handler refl c
  answer_route-Permitted (found r n values) named (inl first) =
      call-Permitted app.middleware r.handler _ refl (record {
        route = r;
        method = parsed.method;
        by_method = inl refl;
        first = first;
        its_handler = refl;
        its_request = refl;
        names_fit = names_fit_lem r parsed.method n values named first;
      })
  answer_route-Permitted (found r n values) named (inr (is_head, unserved, first)) =
      call-Permitted app.middleware r.handler _ refl (record {
        route = r;
        method = get;
        by_method = inr (is_head, refl);
        first = first;
        its_handler = refl;
        its_request = refl;
        names_fit = names_fit_lem r get n values named first;
      })

  -- When the allocations succeed and the parameter names of every route are NULL or those of a pattern
  -- without dots, `dispatch` calls a handler only for the first route that serves the request (a GET route
  -- for HEAD at need), never past a middleware that is set, and with as many names as parameters unless
  -- the names are NULL; without such a route it calls the not-found handler, or answers empty when there
  -- is none; the welcome page and the plain 404 come only from an application without routes.
  pub dispatch-Permitted : All IsNamed app.routes → Permitted (dispatch (λ _. ok) max app parsed)
  unfolding dispatch Permitted
  dispatch-Permitted named =
      both app.routes refl
        (str_eq parsed.path_only (codes "/") || str_eq parsed.path_only (codes "/index.html"))
    where
      both :
          (rs : List (Route H))
          → app.routes ≡ rs
          → (is_root : Bool)
          → Permitted (
              if length rs == 0
              then (if is_root then welcome else plain_404)
              else answer_route app parsed
                  (find_route (λ _. ok) max parsed.method parsed.path_only app.routes))
      both [] e true = e
      both [] e false = e
      both (r ∷ rs) e is_root = rw (==_ne (suc (length rs)) 0 (omega arith)) (
          answer_route-Permitted
            (find_route (λ _. ok) max parsed.method parsed.path_only app.routes) named
            (find_route-Selected max parsed.method parsed.path_only app.routes))
