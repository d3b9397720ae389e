-- ===== src/Header/Tests.antt =====
-- Runs of the header checks, and their theorems at concrete texts.
use mnet.Base.{◌≡◌, refl, true, false, [], some, codes}
use mnet.Header.{value_valid, name_loop, name_valid}

accepted_names :
    (name_valid (some (codes "Content-Type")) ≡ true)
    × (name_valid (some (codes "GET /a")) ≡ false)
    × (name_valid (some []) ≡ false)
    × (value_valid (some (codes "text/html")) ≡ true)
    × (value_valid (some (codes "a\r\nX: y")) ≡ false)
unfolding name_valid value_valid name_loop
accepted_names = (refl, refl, refl, refl, refl)
