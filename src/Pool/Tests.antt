-- ===== src/Pool/Tests.antt =====
-- Connections that come back to the pool, and the layers of a new one.
use asio_http.Base.{ℕ, List, ◌∷◌, none, codes, [], ◌≡◌, ◌≢◌, refl, true, false}
use asio_http.Request.{no_ssl}
use asio_http.Url.{Url}
use asio_http.Pool.{
  HostAndPort, HttpStack, tcp, empty_pool, host_of, create_stack, stacks_at, get_connection,
  release_connection,
}
use asio_http.Pool.Layers.{allocate_layers}
use asio_http.Pool.Layers.Chain.{chain, allocate_layers-chain}
use asio_http.Pool.Reuse.{
  get_connection-release_connection, get_connection-release_connection_error,
}

abbrev plain : HttpStack
plain = record { address = 3; host_and_port = (codes "a", 8443); transport = tcp }

abbrev secure : Url
secure = record {
  protocol = codes "https";
  host = codes "a";
  path = codes "/";
  query = [];
  port = 8443;
}

-- A plain connection serves an https url of the same host and port.
get_connection-release_connection_example :
    let (handle, pool) = get_connection (release_connection empty_pool plain false) secure no_ssl in
    (handle ≡ plain)
    × (pool.next_address ≡ empty_pool.next_address)
    × ((host : HostAndPort) → stacks_at host pool.pools ≡ stacks_at host empty_pool.pools)
get_connection-release_connection_example =
    get_connection-release_connection empty_pool plain secure no_ssl refl

get_connection-release_connection_error_example :
    let released = release_connection empty_pool plain true in
    let (handle, pool) = get_connection released secure no_ssl in
    (handle ≡ create_stack empty_pool secure no_ssl)
    × ((host : HostAndPort)
        → host ≢ host_of secure
        → stacks_at host released.pools ≡ stacks_at host empty_pool.pools)
get_connection-release_connection_error_example =
    get_connection-release_connection_error empty_pool plain secure no_ssl refl

-- The four layers of a stack.
abbrev four : List ℕ
four = 10 ∷ 20 ∷ 30 ∷ 40 ∷ []

allocate_layers-chain_example : allocate_layers four ≡ chain none four
allocate_layers-chain_example = allocate_layers-chain four
