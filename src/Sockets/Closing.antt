-- ===== src/Sockets/Closing.antt =====
-- No descriptor is lost while a socket is set up.
use mnet.Base.{
  ℕ, ◌+◌, ◌-◌, ◌%◌, ◌^◌, ◌<◌, ◌≡◌, ◌↔◌, refl, ap, ◌∙◌, Bool, true, false, ◌&&◌, List, [], ◌∷◌,
  Option, none, some, arith, ltb, ltb→lt, ◌≤◌, Bool-cases, inl, inr,
}
use mnet.Pool.{Socket}
use mnet.Sockets.{
  Entry, closing, try_listen, listen_loop, tcp_listen, Peer, try_connect, connect_loop,
  socket_connect, int_length,
}

-- Addresses as descriptors and whether they can be used.
abbrev pub Candidates : Type 0
Candidates = List (Option Socket × Bool)

-- The first descriptor that can be used.
abbrev pub first_usable : Candidates → Option Socket
first_usable [] = none
first_usable ((none, ok) ∷ cs) = first_usable cs
first_usable ((some fd, true) ∷ cs) = some fd
first_usable ((some fd, false) ∷ cs) = first_usable cs

-- The descriptors that were made before it.
abbrev pub made_before : Candidates → List Socket
made_before [] = []
made_before ((none, ok) ∷ cs) = made_before cs
made_before ((some fd, true) ∷ cs) = []
made_before ((some fd, false) ∷ cs) = fd ∷ made_before cs

abbrev pub listeners : List Entry → Candidates
listeners [] = []
listeners (e ∷ es) = (e.descriptor, e.option_set && (e.bound && e.listening)) ∷ listeners es

abbrev pub peers_of : List Peer → Candidates
peers_of [] = []
peers_of (p ∷ ps) = (p.handle, p.connected) ∷ peers_of ps

try_listen-usable :
    (e : Entry) (d : Option Socket) (o b l : Bool) (cs : Candidates)
    → e.option_set ≡ o
    → e.bound ≡ b
    → e.listening ≡ l
    → try_listen e d (first_usable cs, made_before cs)
      ≡ (first_usable ((d, o && (b && l)) ∷ cs), made_before ((d, o && (b && l)) ∷ cs))
unfolding try_listen closing
try_listen-usable e none o b l cs h h' h'' = refl
try_listen-usable e (some fd) true true true cs h h' h'' = rw (h, h', h'') refl
try_listen-usable e (some fd) true true false cs h h' h'' = rw (h, h', h'') refl
try_listen-usable e (some fd) true false l cs h h' h'' = rw (h, h') refl
try_listen-usable e (some fd) false b l cs h h' h'' = rw h refl

-- `mnet_tcp_listen` returns the first of the sockets that it made which is bound and listens, and closes
-- exactly those that it made before, in order.
pub listen_loop-first :
    (es : List Entry)
    → tcp_listen (some es) ≡ (first_usable (listeners es), made_before (listeners es))
unfolding tcp_listen listen_loop
listen_loop-first [] = refl
listen_loop-first (e ∷ es) =
    ap (try_listen e e.descriptor) (listen_loop-first es)
    ∙ try_listen-usable e e.descriptor e.option_set e.bound e.listening (listeners es) refl refl
        refl

try_connect-usable :
    (ok : Bool) (d : Option Socket) (cs : Candidates)
    → try_connect ok d (first_usable cs, made_before cs)
      ≡ (first_usable ((d, ok) ∷ cs), made_before ((d, ok) ∷ cs))
unfolding try_connect closing
try_connect-usable ok none cs = refl
try_connect-usable true (some fd) cs = refl
try_connect-usable false (some fd) cs = refl

-- `mnet_socket_connect` likewise: the first socket that connects, with exactly those before it closed.
pub connect_loop-first :
    (ps : List Peer)
    → socket_connect (some ps) ≡ (first_usable (peers_of ps), made_before (peers_of ps))
unfolding socket_connect connect_loop
connect_loop-first [] = refl
connect_loop-first (p ∷ ps) =
    ap (try_connect p.connected p.handle) (connect_loop-first ps)
    ∙ try_connect-usable p.connected p.handle (peers_of ps)

-- Of the lengths below 2 ^ 63 the system gets the one that was asked for exactly when it is below 2 ^ 31.
pub int_length_iff : (n : ℕ) → n < 2 ^ 63 → (int_length n ≡ n) ↔ (n < 2 ^ 31)
unfolding int_length
int_length_iff n h = elim (Bool-cases (ltb (n % 2 ^ 32) (2 ^ 31))) [
  | inl e ↦ let below : n % 2 ^ 32 < 2 ^ 31 = ltb→lt (n % 2 ^ 32) (2 ^ 31) e in rw e (within below)
  | inr e ↦ let above : 2 ^ 31 ≤ n % 2 ^ 32 = ground arith in rw e (beyond above)
]
  where
    within : n % 2 ^ 32 < 2 ^ 31 → (n % 2 ^ 32 ≡ n) ↔ (n < 2 ^ 31)
    within below = (λ same. omega (arith, same, below), λ small. omega (arith, small))

    beyond : 2 ^ 31 ≤ n % 2 ^ 32 → (2 ^ 64 - 2 ^ 32 + n % 2 ^ 32 ≡ n) ↔ (n < 2 ^ 31)
    beyond above =
        (λ same. absurd (omega (arith, same, h)), λ small. absurd (omega (arith, small, above)))
