-- ===== src/Pool.antt =====
-- implementation/connection_pool.cpp: the idle connections of each host and port.
pub mod Lookup
pub mod Reuse
pub mod Ownership
pub mod Layers
mod Tests
use asio_http.Base.{
  ℕ, suc, ◌+◌, ◌%◌, ◌^◌, Bool, true, false, ◌&&◌, List, [], ◌∷◌, ◌==◌, if◌then◌else◌, Bytes, codes,
  str_eq,
}
use asio_http.Request.{SslSettings}
use asio_http.Url.{Url}

-- The transport layer of a stack. The tls one verifies the peer's name.
pub data Transport : Type 0 where
  tcp : Transport
  tls : Bytes → SslSettings → Transport

abbrev pub HostAndPort : Type 0
HostAndPort = Bytes × ℕ

-- A stack of protocol layers, as its handles see it. `address` is that of the object, which tells
-- it from every other stack.
pub record HttpStack : Type 0 where
  pub address : ℕ
  pub host_and_port : HostAndPort
  pub transport : Transport

-- `std::map<std::pair<std::string, std::uint16_t>, std::stack<http_stack>>`; the top of a stack is
-- the head of its list.
abbrev pub PoolMap : Type 0
PoolMap = List (HostAndPort × List HttpStack)

-- `allocations` is a uint64_t. `next_address` is the address of the next new object.
pub record ConnectionPool : Type 0 where
  pub pools : PoolMap
  pub allocations : ℕ
  pub next_address : ℕ

abbrev pub empty_pool : ConnectionPool
empty_pool = record { pools = []; allocations = 0; next_address = 0 }

unfoldable pub key_eq : HostAndPort → HostAndPort → Bool
key_eq a b = str_eq a.0 b.0 && a.1 == b.1

-- The value of `m_connection_pool[host]`; a host that is missing starts with an empty stack.
unfoldable pub stacks_at : HostAndPort → PoolMap → List HttpStack
stacks_at host [] = []
stacks_at host ((key, stacks) ∷ map) = if key_eq key host then stacks else stacks_at host map

-- The map after an assignment to `m_connection_pool[host]`.
unfoldable pub assign : HostAndPort → List HttpStack → PoolMap → PoolMap
assign host stacks [] = (host, stacks) ∷ []
assign host stacks ((key, old) ∷ map) =
    if key_eq key host then (key, stacks) ∷ map else (key, old) ∷ assign host stacks map

abbrev pub host_of : Url → HostAndPort
host_of u = (u.host, u.port)

abbrev pub create_stack : ConnectionPool → Url → SslSettings → HttpStack
create_stack pool url ssl = record {
  address = pool.next_address;
  host_and_port = host_of url;
  transport = if str_eq url.protocol (codes "https") then tls url.host ssl else tcp;
}

-- The handle, and the pool without it.
take_or_create : ConnectionPool → Url → SslSettings → List HttpStack → HttpStack × ConnectionPool
take_or_create pool url ssl [] = (
  create_stack pool url ssl,
  record pool {
    pools = assign (host_of url) [] pool.pools;
    allocations = (pool.allocations + 1) % 2 ^ 64;
    next_address = pool.next_address + 1;
  },
)
take_or_create pool url ssl (top ∷ rest) =
    (top, record pool { pools = assign (host_of url) rest pool.pools })

unfoldable pub get_connection : ConnectionPool → Url → SslSettings → HttpStack × ConnectionPool
unfolding take_or_create
get_connection pool url ssl = take_or_create pool url ssl (stacks_at (host_of url) pool.pools)

-- After an error the handle is dropped, and with it every idle connection of its host.
unfoldable pub release_connection : ConnectionPool → HttpStack → Bool → ConnectionPool
release_connection pool handle clean_up =
    let host = handle.host_and_port in
    record pool {
      pools = assign host (if clean_up then [] else handle ∷ stacks_at host pool.pools) pool.pools;
    }
