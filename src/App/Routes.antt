-- ===== src/App/Routes.antt =====
-- The state of the application under registration and configuration.
use mnet.Base.{
  ℕ, suc, ◌*◌, ◌≤◌, ◌<◌, ◌≡◌, ◌≢◌, ◌⊎◌, refl, Bool, true, false, List, [], ◌∷◌, ◌++◌, Option, none,
  some, arith, ◌==◌, Bytes, length, length-append, if◌then◌else◌, subst, ap,
}
use mnet.Limits.{max_workers, initial_route_capacity}
use mnet.Parse.Line.{Method}
use mnet.App.{
  ℤ, pos, negsuc, names_from, Route, App, Status, success, invalid, create, grow, append, add_named,
  add_grown, add_route, set_workers,
}

magnitude : ℤ → ℕ
magnitude (pos n) = n
magnitude (negsuc n) = suc n

module _ {H M : Type 0} where
  -- The routes fit their array, and the server has between 1 and 64 workers.
  pub record IsValid (app : App H M) : Type 0 where
    pub fits : length app.routes ≤ app.route_capacity
    pub some_worker : 1 ≤ app.workers
    pub few_workers : app.workers ≤ max_workers

  pub create-IsValid : IsValid (create {H = H} {M = M})
  unfolding create
  create-IsValid = record {
    fits = omega arith;
    some_worker = omega arith;
    few_workers = omega arith;
  }

  or_else : App H M → Option (App H M) → App H M
  or_else d none = d
  or_else d (some a) = a

  -- A growth leaves room for one more route and changes nothing else.
  pub grow_lem :
      (memory : Bool) (app grown : App H M)
      → IsValid app
      → grow memory app ≡ some grown
      → (length grown.routes < grown.route_capacity)
        × (grown.routes ≡ app.routes)
        × (grown.workers ≡ app.workers)
  unfolding grow or_else
  grow_lem memory app grown v h =
      let fits = v.fits in
      let nc = if app.route_capacity == 0 then initial_route_capacity else app.route_capacity * 2 in
      let enough : app.route_capacity < nc = ground arith in
      round (length app.routes == app.route_capacity) memory nc refl enough h
    where
      changed :
          (other : App H M)
          → length other.routes < other.route_capacity
          → other.routes ≡ app.routes
          → other.workers ≡ app.workers
          → some other ≡ some grown
          → (length grown.routes < grown.route_capacity)
            × (grown.routes ≡ app.routes)
            × (grown.workers ≡ app.workers)
      changed other h1 h2 h3 e =
          subst
            (λ x.
              (length x.routes < x.route_capacity)
              × (x.routes ≡ app.routes)
              × (x.workers ≡ app.workers))
            (ap (or_else app) e) (h1, h2, h3)

      round :
          (full memory : Bool) (nc : ℕ)
          → (length app.routes == app.route_capacity) ≡ full
          → app.route_capacity < nc
          → (if full
              then (if memory then some (record app { route_capacity = nc }) else none)
              else some app)
            ≡ some grown
          → (length grown.routes < grown.route_capacity)
            × (grown.routes ≡ app.routes)
            × (grown.workers ≡ app.workers)
      round false memory nc e k h = let fits = v.fits in changed app (ground arith) refl refl h
      round true false nc e k h = absurd (ground arith)
      round true true nc e k h =
          changed (record app { route_capacity = nc }) (ground arith) refl refl h

  pub append-IsValid :
      (app grown : App H M) (r : Route H)
      → IsValid app
      → (length grown.routes < grown.route_capacity)
        × (grown.routes ≡ app.routes)
        × (grown.workers ≡ app.workers)
      → IsValid (append grown r) × ((append grown r).routes ≡ app.routes ++ r ∷ [])
  unfolding append
  append-IsValid app grown r v (room, same, as_many) =
      let few = v.few_workers in
      let one = v.some_worker in
      (
        record {
          fits = omega (arith, length-append grown.routes (r ∷ []));
          some_worker = omega arith;
          few_workers = omega arith;
        },
        ap (λ rs. rs ++ r ∷ []) same,
      )

  pub grown-IsValid :
      (app grown : App H M)
      → IsValid app
      → (length grown.routes < grown.route_capacity)
        × (grown.routes ≡ app.routes)
        × (grown.workers ≡ app.workers)
      → IsValid grown
  grown-IsValid app grown v (room, same, as_many) =
      let few = v.few_workers in
      let one = v.some_worker in
      record { fits = omega arith; some_worker = omega arith; few_workers = omega arith }

  -- What a registration does: a route is appended, or the routes are as before.
  pub record Registered (alloc : ℕ → Bool) (method : Method) (path : Option Bytes)
      (handler : Option H) (app after : App H M) (status : Status) : Type 0 where
    pub valid : IsValid after
    pub on_success :
        status ≡ success
        → (r : Route H) × (after.routes ≡ app.routes ++ r ∷ [])
          × (r.method ≡ method)
          × (some r.path ≡ path)
          × (some r.handler ≡ handler)
          × (names_from alloc 0 r.path ≡ some r.param_names)
    pub on_failure : status ≢ success → after.routes ≡ app.routes
    pub on_null : (path ≡ none) ⊎ (handler ≡ none) → status ≡ invalid

  add_named-Registered :
      (alloc : ℕ → Bool) (app grown : App H M) (method : Method) (path : Bytes) (handler : H)
      (o : Option (List Bytes))
      → names_from alloc 0 path ≡ o
      → IsValid app
      → (length grown.routes < grown.route_capacity)
        × (grown.routes ≡ app.routes)
        × (grown.workers ≡ app.workers)
      → let (after, status) = add_named grown method path handler o in
        Registered alloc method (some path) (some handler) app after status
  unfolding add_named
  add_named-Registered alloc app grown method path handler none e v g = record {
    valid = grown-IsValid app grown v g;
    on_success = ground arith;
    on_failure = λ _. g.1;
    on_null = ground arith;
  }
  add_named-Registered alloc app grown method path handler (some names) e v g =
      let r : Route H = record {
        method = method;
        path = path;
        handler = handler;
        param_names = names;
        user_data = none;
        path_allocated = false;
      } in
      let (valid, appended) = append-IsValid app grown r v g in
      record {
        valid = valid;
        on_success = λ _. (r, appended, refl, refl, refl, e);
        on_failure = ground arith;
        on_null = ground arith;
      }

  add_grown-Registered :
      (memory : Bool) (alloc : ℕ → Bool) (app : App H M) (method : Method) (path : Bytes)
      (handler : H) (o : Option (App H M))
      → grow memory app ≡ o
      → IsValid app
      → let (after, status) = add_grown app alloc method path handler o in
        Registered alloc method (some path) (some handler) app after status
  unfolding add_grown
  add_grown-Registered memory alloc app method path handler none e v = record {
    valid = v;
    on_success = ground arith;
    on_failure = λ _. refl;
    on_null = ground arith;
  }
  add_grown-Registered memory alloc app method path handler (some grown) e v =
      add_named-Registered alloc app grown method path handler (names_from alloc 0 path) refl v
        (grow_lem memory app grown v e)

  -- On a valid application a registration leaves a valid one, whatever allocations fail. On success
  -- exactly one route is appended, with the given method, path and handler and the parameter names of its
  -- path; otherwise the routes are as before; a missing path or handler is refused as invalid.
  pub add_route-Registered :
      (memory : Bool) (alloc : ℕ → Bool) (app : App H M) (method : Method) (path : Option Bytes)
      (handler : Option H)
      → IsValid app
      → let (after, status) = add_route memory alloc app method path handler in
        Registered alloc method path handler app after status
  unfolding add_route
  add_route-Registered memory alloc app method none handler v = record {
    valid = v;
    on_success = ground arith;
    on_failure = λ _. refl;
    on_null = λ _. refl;
  }
  add_route-Registered memory alloc app method (some path) none v = record {
    valid = v;
    on_success = ground arith;
    on_failure = λ _. refl;
    on_null = λ _. refl;
  }
  add_route-Registered memory alloc app method (some path) (some handler) v =
      add_grown-Registered memory alloc app method path handler (grow memory app) refl v

  -- Whatever number is asked for, a valid application keeps between 1 and 64 workers, and the number
  -- itself when it is in these bounds.
  pub set_workers-IsValid :
      (app : App H M) (n : ℤ)
      → IsValid app
      → IsValid (set_workers app n)
        × ((k : ℕ) → n ≡ pos k → 1 ≤ k → k ≤ max_workers → (set_workers app n).workers ≡ k)
  unfolding set_workers magnitude
  set_workers-IsValid app (negsuc n) v =
      let fits = v.fits in
      (record { fits = fits; some_worker = omega arith; few_workers = omega arith }, ground arith)
  set_workers-IsValid app (pos n) v =
      let fits = v.fits in
      (
        record { fits = fits; some_worker = ground arith; few_workers = ground arith },
        λ k e h1 h2. let same : n ≡ k = ap magnitude e in ground arith,
      )
