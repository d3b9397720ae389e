-- ===== src/Client/Bounds.antt =====
-- The address that a URL gives.
use mnet.Base.{
  ℕ, zero, suc, ◌-◌, ◌≤◌, ◌<◌, ◌≡◌, ◌≢◌, false, Bool, [], ◌∷◌, Option, none, some, arith, Bytes,
  All, length, length-take, take, subst, ap,
}
use mnet.Client.{
  pass, ends_host, skip_scheme, port_in_range, port_of, port_and_path, Address, address, url_parse,
}

port_in_range-bounds : (o : Option ℕ) → (1 ≤ port_in_range o) × (port_in_range o < 65536)
unfolding port_in_range
port_in_range-bounds none = omega arith
port_in_range-bounds (some n) = ground arith

pass-front : (stop : ℕ → Bool) (s : Bytes) → All (λ c. stop c ≡ false) (pass stop s).0
unfolding pass
pass-front stop [] = tt
pass-front stop (c ∷ s) = ground (arith, pass-front stop s)

take-All : (P : ℕ → Type 0) (n : ℕ) (s : Bytes) → All P s → All P (take n s)
take-All P zero s h = tt
take-All P (suc n) [] h = tt
take-All P (suc n) (c ∷ s) h = (h.0, take-All P n s h.1)

-- An address within its buffers.
pub record IsAddress (host_size path_size : ℕ) (a : Address) : Type 0 where
  pub host_some : a.host ≢ []
  pub host_fits : length a.host < host_size
  pub host_plain : All (λ c. ends_host c ≡ false) a.host
  pub path_fits : length a.path < path_size
  pub port_some : 1 ≤ a.port
  pub port_fits : a.port < 65536

not_empty : (s : Bytes) → 1 ≤ length s → s ≢ []
not_empty [] h = absurd (omega arith)
not_empty (c ∷ s) h = ground arith

port_of-bounds : (text : Bytes) → (1 ≤ port_of text) × (port_of text < 65536)
unfolding port_of
port_of-bounds text = port_in_range-bounds _

or_else : Address → Option Address → Address
or_else d none = d
or_else d (some a) = a

address-IsAddress :
    (host_size path_size : ℕ) (host rest : Bytes) (a : Address)
    → 1 < host_size
    → 0 < path_size
    → All (λ c. ends_host c ≡ false) host
    → address host_size path_size host rest ≡ some a
    → IsAddress host_size path_size a
unfolding address or_else
address-IsAddress host_size path_size [] rest a h1 h2 hp e = absurd (ground arith)
address-IsAddress host_size path_size (c ∷ host) rest a h1 h2 hp e =
    let (port_text, path) = port_and_path rest in
    let host_length = length-take (host_size - 1) (c ∷ host) in
    let path_length = length-take (path_size - 1) path in
    let made : IsAddress host_size path_size (record {
      host = take (host_size - 1) (c ∷ host);
      port = port_of port_text;
      path = take (path_size - 1) path;
    }) =
      record {
        host_some = not_empty (take (host_size - 1) (c ∷ host)) (omega arith);
        host_fits = omega arith;
        host_plain = take-All (λ c. ends_host c ≡ false) (host_size - 1) (c ∷ host) hp;
        path_fits = omega arith;
        port_some = (port_of-bounds port_text).0;
        port_fits = (port_of-bounds port_text).1;
      } in
    subst (IsAddress host_size path_size) (ap (or_else a) e) made

-- An address that `mnet_url_parse` finds has a host that is not empty, holds none of `:/?#` and fits its
-- buffer with its NUL, a path that fits its buffer, and a port between 1 and 65535.
pub url_parse-IsAddress :
    (host_size path_size : ℕ) (url : Bytes) (a : Address)
    → 1 < host_size
    → 0 < path_size
    → url_parse host_size path_size (some url) ≡ some a
    → IsAddress host_size path_size a
unfolding url_parse
url_parse-IsAddress host_size path_size url a h1 h2 e =
    address-IsAddress host_size path_size (pass ends_host (skip_scheme url)).0
      (pass ends_host (skip_scheme url)).1 a h1 h2 (pass-front ends_host (skip_scheme url)) e
