-- ===== src/Sockets.antt =====
-- src/mnet.c, and `mnet_socket_connect` of src/mnet_client.c. What the operating system answers is a
-- parameter: the addresses of getaddrinfo, and what each call makes of each of them.
pub mod Closing
mod Tests
use mnet.Base.{
  ℕ, ◌+◌, ◌-◌, ◌%◌, ◌^◌, Bool, true, false, not, ◌&&◌, List, [], ◌∷◌, Option, none, some, ltb, ◌==◌,
  if◌then◌else◌, Bytes,
}
use mnet.Pool.{Socket}

-- One address to listen on: the descriptor of socket(), and whether setsockopt, bind and listen succeed.
pub record Entry : Type 0 where
  pub descriptor : Option Socket
  pub option_set : Bool
  pub bound : Bool
  pub listening : Bool

-- `mnet_socket_close(fd); continue;`: what the other addresses give, and one more closed.
unfoldable pub closing : Socket → Option Socket × List Socket → Option Socket × List Socket
closing fd (server, closed) = (server, fd ∷ closed)

-- One round of the loop over the addresses, with what the other rounds do.
unfoldable pub try_listen :
    Entry → Option Socket → Option Socket × List Socket → Option Socket × List Socket
try_listen e none others = others
try_listen e (some fd) others =
    if not e.option_set
    then closing fd others
    else if not e.bound
    then closing fd others
    else if not e.listening
    then closing fd others
    else (some fd, [])

-- The socket that is returned, and the descriptors that are closed.
unfoldable pub listen_loop : List Entry → Option Socket × List Socket
listen_loop [] = (none, [])
listen_loop (e ∷ es) = try_listen e e.descriptor (listen_loop es)

-- `mnet_tcp_listen`; none for a backlog that is not positive, or a getaddrinfo that fails
unfoldable pub tcp_listen : Option (List Entry) → Option Socket × List Socket
tcp_listen none = (none, [])
tcp_listen (some entries) = listen_loop entries

-- One address to connect to.
pub record Peer : Type 0 where
  pub handle : Option Socket
  pub connected : Bool

unfoldable pub try_connect :
    Bool → Option Socket → Option Socket × List Socket → Option Socket × List Socket
try_connect connected none others = others
try_connect connected (some sock) others =
    if connected then (some sock, []) else closing sock others

unfoldable pub connect_loop : List Peer → Option Socket × List Socket
connect_loop [] = (none, [])
connect_loop (p ∷ ps) = try_connect p.connected p.handle (connect_loop ps)

-- `mnet_socket_connect`; none for a host that is NULL or not found
unfoldable pub socket_connect : Option (List Peer) → Option Socket × List Socket
socket_connect none = (none, [])
socket_connect (some peers) = connect_loop peers

-- `(int)length`, as the size_t that send and recv take.
unfoldable pub int_length : ℕ → ℕ
int_length n = if ltb (n % 2 ^ 32) (2 ^ 31) then n % 2 ^ 32 else 2 ^ 64 - 2 ^ 32 + n % 2 ^ 32

-- The check of `mnet_send` and `mnet_recv`: none is the -1 with EINVAL, and otherwise the length that the
-- call of the system gets. The flag says that the buffer is not NULL.
unfoldable pub transfer_length : Bool → ℕ → Option ℕ
transfer_length given n = if not given && not (n == 0) then none else some (int_length n)

-- `mnet_close`: the descriptors that are closed.
unfoldable pub mnet_close : Option Socket → List Socket
mnet_close none = []
mnet_close (some fd) = fd ∷ []
