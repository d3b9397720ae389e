-- ===== src/Sockets/Tests.antt =====
-- A machine with an address that is in use.
use mnet.Base.{◌≡◌, ◌+◌, ◌^◌, refl, true, false, [], ◌∷◌, none, some}
use mnet.Sockets.{Entry, closing, try_listen, listen_loop, tcp_listen, int_length, transfer_length}

abbrev in_use : Entry
in_use = record { descriptor = some 4; option_set = true; bound = false; listening = false }

abbrev free : Entry
free = record { descriptor = some 5; option_set = true; bound = true; listening = true }

abbrev no_family : Entry
no_family = record free { descriptor = none }

second_address : tcp_listen (some (in_use ∷ no_family ∷ free ∷ in_use ∷ [])) ≡ (some 5, 4 ∷ [])
unfolding tcp_listen listen_loop try_listen closing
second_address = refl

-- 4 GB and one byte are sent as one byte.
cut_length : transfer_length true (2 ^ 32 + 1) ≡ some 1
unfolding transfer_length int_length
cut_length = refl
