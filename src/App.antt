-- ===== src/App.antt =====
-- src/mnet_app.c: the application's state, its configuration and the registration of routes.
pub mod Names
pub mod Routes
pub mod Mount
mod Tests
use mnet.Base.{
  ℕ, zero, suc, ◌+◌, ◌*◌, ◌/◌, ◌%◌, Bool, true, false, ◌&&◌, ◌||◌, List, [], ◌∷◌, ◌++◌, Option,
  none, some, ltb, ◌==◌, if◌then◌else◌, ◌>>=◌, Bytes, length, take,
}
use mnet.Limits.{
  max_workers, default_workers, default_timeout, default_keep_alive_timeout, initial_route_capacity,
}
use mnet.Parse.Line.{Method, get}

-- A C int: pos n is n, and negsuc n is -(n + 1).
pub data ℤ : Type 0 where
  pos : ℕ → ℤ
  negsuc : ℕ → ℤ

-- `%zu` of a number below the fuel: its decimal digits, in front of those in `tail`.
unfoldable pub digits_from : ℕ → ℕ → Bytes → Bytes
digits_from zero n tail = tail
digits_from (suc fuel) n tail =
    let more = digits_from fuel (n / 10) ((n % 10 + b'0') ∷ tail) in
    if ltb n 10 then (n + b'0') ∷ tail else more

unfoldable pub decimal : ℕ → Bytes
decimal n = digits_from (suc n) n []

-- The name of a parameter; an empty one is replaced by its number.
unfoldable pub name_of : ℕ → Bytes → Bytes
name_of n [] = b'_' ∷ decimal n
name_of n (c ∷ s) = c ∷ s

module _ (alloc : ℕ → Bool) where
  -- The n-th name is allocated and stored, and then the others; without memory, `goto fail`.
  unfoldable pub register : ℕ → Bytes → Option (List Bytes) → Option (List Bytes)
  register n name others = if alloc n then (others >>= λ names. some (name ∷ names)) else none

  -- The scan of the pattern for parameter names. `in_name` is past a ':', and `start` is the name so
  -- far; the '/' or '.' behind a name is neither ':' nor '*', so that the loop goes past it.
  unfoldable mutual
    pub names_from : ℕ → Bytes → Option (List Bytes)
    names_from n [] = some []
    names_from n (c ∷ p) =
        let named = in_name n [] p in
        let past = names_from n p in
        if c == b':' then named else if c == b'*' then register n (b'*' ∷ []) (some []) else past

    pub in_name : ℕ → Bytes → Bytes → Option (List Bytes)
    in_name n start [] = register n (name_of n start) (some [])
    in_name n start (c ∷ p) =
        let ended = register n (name_of n start) (names_from (suc n) p) in
        let longer = in_name n (start ++ c ∷ []) p in
        if c == b'/' || c == b'.' then ended else longer

-- `mnet_route_t`. An empty list of names is a NULL param_names; `owner` is what user_data points to
-- in the route of a static directory: its prefix and its path.
pub record Route (H : Type 0) : Type 0 where
  pub method : Method
  pub path : Bytes
  pub handler : H
  pub param_names : List Bytes
  pub user_data : Option (Bytes × Bytes)
  pub path_allocated : Bool

-- `struct mnet_app`, over the types of the handlers and of the middleware; the routes are routes[0..route_count).
pub record App (H M : Type 0) : Type 0 where
  pub routes : List (Route H)
  pub route_capacity : ℕ
  pub running : Bool
  pub port : ℕ
  pub active_connections : ℕ
  pub debug : Bool
  pub dev : Bool
  pub https : Bool
  pub not_found_handler : Option H
  pub middleware : Option M
  pub timeout_seconds : ℤ
  pub keep_alive_timeout : ℤ
  pub workers : ℕ
  pub max_connections : ℤ
  pub max_body_size : ℕ

-- What a registration returns.
pub data Status : Type 0 where
  success invalid out_of_memory : Status

-- `seconds == 0 ? default : seconds`
unfoldable pub default_if_zero : ℕ → ℤ → ℤ
default_if_zero d (pos n) = if n == 0 then pos d else pos n
default_if_zero d (negsuc n) = negsuc n

module _ {H M : Type 0} where
  -- `mnet_create`
  unfoldable pub create : App H M
  create = record {
    routes = [];
    route_capacity = 0;
    running = false;
    port = 0;
    active_connections = 0;
    debug = false;
    dev = false;
    https = false;
    not_found_handler = none;
    middleware = none;
    timeout_seconds = pos default_timeout;
    keep_alive_timeout = pos default_keep_alive_timeout;
    workers = default_workers;
    max_connections = pos 0;
    max_body_size = 0;
  }

  -- A full array grows to 8 routes, or to twice as many; `memory` says whether realloc succeeds.
  unfoldable pub grow : Bool → App H M → Option (App H M)
  grow memory app =
      let nc = if app.route_capacity == 0 then initial_route_capacity else app.route_capacity * 2 in
      if length app.routes == app.route_capacity
      then (if memory then some (record app { route_capacity = nc }) else none)
      else some app

  unfoldable pub append : App H M → Route H → App H M
  append app r = record app { routes = app.routes ++ r ∷ [] }

  -- Behind the growth of the array: the names of the route, and the route.
  unfoldable pub add_named : App H M → Method → Bytes → H → Option (List Bytes) → App H M × Status
  add_named app method path handler none = (app, out_of_memory)
  add_named app method path handler (some names) = (
    append app (record {
      method = method;
      path = path;
      handler = handler;
      param_names = names;
      user_data = none;
      path_allocated = false;
    }),
    success,
  )

  unfoldable pub add_grown :
      App H M → (ℕ → Bool) → Method → Bytes → H → Option (App H M) → App H M × Status
  add_grown app alloc method path handler none = (app, out_of_memory)
  add_grown app alloc method path handler (some grown) =
      add_named grown method path handler (names_from alloc 0 path)

  -- `mnet_add_route` (and `mnet_route`), for an app that is not NULL.
  unfoldable pub add_route :
      Bool → (ℕ → Bool) → App H M → Method → Option Bytes → Option H → App H M × Status
  add_route memory alloc app method none handler = (app, invalid)
  add_route memory alloc app method (some path) none = (app, invalid)
  add_route memory alloc app method (some path) (some handler) =
      add_grown app alloc method path handler (grow memory app)

  -- `mnet_set_workers`
  unfoldable pub set_workers : App H M → ℤ → App H M
  set_workers app (negsuc n) = record app { workers = 1 }
  set_workers app (pos n) = record app {
    workers = if n == 0 then default_workers else if ltb max_workers n then max_workers else n;
  }

  unfoldable pub set_timeout : App H M → ℤ → App H M
  set_timeout app seconds = record app { timeout_seconds = default_if_zero default_timeout seconds }

  unfoldable pub set_keep_alive_timeout : App H M → ℤ → App H M
  set_keep_alive_timeout app seconds = record app {
    keep_alive_timeout = default_if_zero default_keep_alive_timeout seconds;
  }

  unfoldable pub set_not_found_handler : App H M → Option H → App H M
  set_not_found_handler app handler = record app { not_found_handler = handler }

  unfoldable pub use_middleware : App H M → Option M → App H M
  use_middleware app handler = record app { middleware = handler }

  unfoldable pub set_max_connections : App H M → ℤ → App H M
  set_max_connections app n = record app { max_connections = n }

  unfoldable pub set_max_body_size : App H M → ℕ → App H M
  set_max_body_size app n = record app { max_body_size = n }

  unfoldable pub set_debug : App H M → Bool → App H M
  set_debug app enabled = record app { debug = enabled }

  unfoldable pub set_dev_mode : App H M → Bool → App H M
  set_dev_mode app enabled = record app { dev = enabled }

  unfoldable pub set_https : App H M → Bool → App H M
  set_https app enabled = record app { https = enabled }

  -- `mnet_static`: the pattern is cut to its buffer, and no parameter name is registered. `memory` is
  -- for the array, and `copies` for the other allocations.
  unfoldable pub static_grown : H → App H M → Bool → Bytes → Bytes → Option (App H M) → App H M
  static_grown handler app copies url_prefix fs_path none = app
  static_grown handler app copies url_prefix fs_path (some grown) =
      if copies
      then append grown (record {
        method = get;
        path = take 2047 (url_prefix ++ b'/' ∷ b'*' ∷ []);
        handler = handler;
        param_names = [];
        user_data = some (url_prefix, fs_path);
        path_allocated = true;
      })
      else grown

  unfoldable pub add_static : H → Bool → Bool → App H M → Option Bytes → Option Bytes → App H M
  add_static handler memory copies app none fs_path = app
  add_static handler memory copies app (some url_prefix) none = app
  add_static handler memory copies app (some url_prefix) (some fs_path) =
      static_grown handler app copies url_prefix fs_path (grow memory app)

  -- `mnet_stop`
  unfoldable pub stop : App H M → App H M
  stop app = record app { running = false }
