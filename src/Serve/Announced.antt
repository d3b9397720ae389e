-- ===== src/Serve/Announced.antt =====
-- What the headers of a connection's responses say about the connection is what happens to it.
use mnet.Base.{◌≡◌, ◌⊎◌, Bool, true, false, List, [], ◌∷◌, ◌++◌, Bytes}
use mnet.Parse.Request.{Request}
use mnet.App.{App}
use mnet.Response.{Response, lines, connection}

-- Nothing could be sent, or the header that is sent has three lines and then the line that tells whether
-- the connection is kept.
abbrev pub Announces : Bool → List Bytes → Type 0
Announces keep sent =
    (sent ≡ [])
    ⊎ ((status size type rest : Bytes) × (others : List Bytes) × (sent
          ≡ (lines (status ∷ size ∷ type ∷ connection keep ∷ []) ++ rest) ∷ others))

-- Every response but the last says that the connection is kept.
abbrev pub Told : List (List Bytes) → Type 0
Told [] = Unit
Told (sent ∷ []) = Announces true sent ⊎ Announces false sent
Told (sent ∷ next ∷ more) = Announces true sent × Told (next ∷ more)
