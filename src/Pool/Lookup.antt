-- ===== src/Pool/Lookup.antt =====
-- The map of the pool: what an assignment changes, and what a call leaves idle where.
use asio_http.Base.{
  ◌+◌, ◌%◌, ◌^◌, ◌≢◌, true, List, [], ◌∷◌, if◌then◌else◌, str_eq_iff, ◌≡◌, refl, ◌↔◌, arith,
}
use asio_http.Request.{SslSettings}
use asio_http.Url.{Url}
use asio_http.Pool.{
  HostAndPort, HttpStack, PoolMap, ConnectionPool, key_eq, stacks_at, assign, host_of, create_stack,
  take_or_create, get_connection,
}

pub key_eq_iff : (a b : HostAndPort) → (key_eq a b ≡ true) ↔ (a ≡ b)
unfolding key_eq
key_eq_iff (a, p) (b, q) = ground (arith, str_eq_iff a b)

pub key_eq_refl : (a : HostAndPort) → key_eq a a ≡ true
key_eq_refl a = (key_eq_iff a a).1 refl

pub stacks_at-assign :
    (k j : HostAndPort) (stacks : List HttpStack) (map : PoolMap)
    → stacks_at j (assign k stacks map) ≡ (if key_eq k j then stacks else stacks_at j map)
unfolding stacks_at assign
stacks_at-assign k j stacks [] = refl
stacks_at-assign k j stacks ((i, old) ∷ map) =
    ground (arith, key_eq_iff i k, key_eq_iff k j, key_eq_iff i j, stacks_at-assign k j stacks map)

pub stacks_at-assign_self :
    (k : HostAndPort) (stacks : List HttpStack) (map : PoolMap)
    → stacks_at k (assign k stacks map) ≡ stacks
stacks_at-assign_self k stacks map = ground (arith, stacks_at-assign k k stacks map, key_eq_refl k)

pub stacks_at-assign_ne :
    (k j : HostAndPort) (stacks : List HttpStack) (map : PoolMap)
    → j ≢ k
    → stacks_at j (assign k stacks map) ≡ stacks_at j map
stacks_at-assign_ne k j stacks map h =
    ground (arith, stacks_at-assign k j stacks map, key_eq_iff k j)

-- The two ways to serve a url: its host has an idle connection, the one released last is handed
-- out and leaves the pool; or it has none, and a new one is made.
pub data Serves (pool : ConnectionPool) (url : Url) (ssl : SslSettings)
    : HttpStack × ConnectionPool → Type 0 where
  reused :
      (handle : HttpStack) (rest : List HttpStack)
      → stacks_at (host_of url) pool.pools ≡ handle ∷ rest
      → Serves pool url ssl (handle, record pool { pools = assign (host_of url) rest pool.pools })
  created :
      stacks_at (host_of url) pool.pools ≡ []
      → Serves pool url ssl (
        create_stack pool url ssl,
        record pool {
          pools = assign (host_of url) [] pool.pools;
          allocations = (pool.allocations + 1) % 2 ^ 64;
          next_address = pool.next_address + 1;
        },
      )

take_or_create-Serves :
    (pool : ConnectionPool) (url : Url) (ssl : SslSettings) (idle : List HttpStack)
    → stacks_at (host_of url) pool.pools ≡ idle
    → Serves pool url ssl (take_or_create pool url ssl idle)
unfolding take_or_create
take_or_create-Serves pool url ssl [] e = created e
take_or_create-Serves pool url ssl (top ∷ rest) e = reused top rest e

pub get_connection-Serves :
    (pool : ConnectionPool) (url : Url) (ssl : SslSettings)
    → Serves pool url ssl (get_connection pool url ssl)
unfolding get_connection
get_connection-Serves pool url ssl = take_or_create-Serves pool url ssl _ refl
