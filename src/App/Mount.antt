-- ===== src/App/Mount.antt =====
-- The route of a directory of static files, `mnet_static`.
use mnet.Base.{
  ◌≡◌, ◌⊎◌, inl, inr, refl, Bool, true, false, [], ◌∷◌, ◌++◌, Option, none, some, Bytes, codes,
  take,
}
use mnet.Parse.Line.{get}
use mnet.App.{Route, App, grow, static_grown, add_static}
use mnet.App.Routes.{IsValid, grow_lem, append-IsValid, grown-IsValid}

module _ {H M : Type 0} where
  abbrev pub Unchanged : App H M → App H M → Type 0
  Unchanged app after = after.routes ≡ app.routes

  -- The route of a static directory, behind the routes there were.
  pub record Mounted (handler : H) (url_prefix fs_path : Option Bytes) (app after : App H M)
      : Type 0 where
    pub route : Route H
    pub prefix : Bytes
    pub dir : Bytes
    pub given : (url_prefix ≡ some prefix) × (fs_path ≡ some dir)
    pub appended : after.routes ≡ app.routes ++ route ∷ []
    pub serves :
        (route.method ≡ get) × (route.handler ≡ handler) × (route.user_data ≡ some (prefix, dir))
    pub below : route.path ≡ take 2047 (prefix ++ codes "/*")

  static_grown-Mounted :
      (handler : H) (memory copies : Bool) (app : App H M) (prefix dir : Bytes)
      (o : Option (App H M))
      → grow memory app ≡ o
      → IsValid app
      → let after = static_grown handler app copies prefix dir o in
        IsValid after × (Unchanged app after ⊎ Mounted handler (some prefix) (some dir) app after)
  unfolding static_grown
  static_grown-Mounted handler memory copies app prefix dir none e v = (v, inl refl)
  static_grown-Mounted handler memory false app prefix dir (some grown) e v =
      let g = grow_lem memory app grown v e in (grown-IsValid app grown v g, inl g.1)
  static_grown-Mounted handler memory true app prefix dir (some grown) e v =
      let (valid, appended) = append-IsValid app grown _ v (grow_lem memory app grown v e) in
      (
        valid,
        inr (record {
          route = _;
          prefix = prefix;
          dir = dir;
          given = (refl, refl);
          appended = appended;
          serves = (refl, refl, refl);
          below = refl;
        }),
      )

  -- On a valid application `mnet_static` leaves a valid one, whatever allocations fail: the routes are as
  -- before, or one GET route is appended for everything below the prefix, its pattern cut to 2047 bytes.
  pub add_static-Mounted :
      (handler : H) (memory copies : Bool) (app : App H M) (url_prefix fs_path : Option Bytes)
      → IsValid app
      → let after = add_static handler memory copies app url_prefix fs_path in
        IsValid after × (Unchanged app after ⊎ Mounted handler url_prefix fs_path app after)
  unfolding add_static
  add_static-Mounted handler memory copies app none fs_path v = (v, inl refl)
  add_static-Mounted handler memory copies app (some prefix) none v = (v, inl refl)
  add_static-Mounted handler memory copies app (some prefix) (some dir) v =
      static_grown-Mounted handler memory copies app prefix dir (grow memory app) refl v
