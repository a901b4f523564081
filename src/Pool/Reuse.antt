-- ===== src/Pool/Reuse.antt =====
-- Which connections come back for which urls.
use asio_http.Base.{true, false, [], ◌∷◌, ◌≡◌, ◌≢◌, arith}
use asio_http.Request.{SslSettings}
use asio_http.Url.{Url}
use asio_http.Pool.{
  HostAndPort, HttpStack, ConnectionPool, stacks_at, assign, host_of, create_stack, take_or_create,
  get_connection, release_connection,
}
use asio_http.Pool.Lookup.{key_eq_iff, stacks_at-assign, stacks_at-assign_self, stacks_at-assign_ne}

-- A connection released without an error serves the next request to its host and port, whatever
-- the protocol and the tls settings of that request are, and the idle connections are again those
-- before the release.
pub get_connection-release_connection :
    (pool : ConnectionPool) (handle : HttpStack) (url : Url) (ssl : SslSettings)
    → handle.host_and_port ≡ host_of url
    → let (handle', pool') = get_connection (release_connection pool handle false) url ssl in
      (handle' ≡ handle)
      × (pool'.next_address ≡ pool.next_address)
      × ((host : HostAndPort) → stacks_at host pool'.pools ≡ stacks_at host pool.pools)
unfolding get_connection release_connection
get_connection-release_connection pool handle url ssl e =
    let key = handle.host_and_port in
    let idle = stacks_at key pool.pools in
    let released = assign key (handle ∷ idle) pool.pools in
    let top : stacks_at (host_of url) released ≡ handle ∷ idle =
      rw (← e) (stacks_at-assign_self key (handle ∷ idle) pool.pools) in
    (
      ground (arith, top),
      ground (arith, top),
      λ host.
          rw (top, take_or_create, ← e)
            (ground (
              arith,
              stacks_at-assign key host idle released,
              stacks_at-assign key host (handle ∷ idle) pool.pools,
              key_eq_iff key host,
            )),
    )

-- After an error no connection of that host is reused: the next request to it gets a new one. The
-- idle connections of all other hosts stay.
pub get_connection-release_connection_error :
    (pool : ConnectionPool) (handle : HttpStack) (url : Url) (ssl : SslSettings)
    → handle.host_and_port ≡ host_of url
    → let released = release_connection pool handle true in
      let (handle', pool') = get_connection released url ssl in
      (handle' ≡ create_stack pool url ssl)
      × ((host : HostAndPort)
          → host ≢ host_of url
          → stacks_at host released.pools ≡ stacks_at host pool.pools)
unfolding get_connection release_connection
get_connection-release_connection_error pool handle url ssl e =
    let key = handle.host_and_port in
    let none_left : stacks_at (host_of url) (assign key [] pool.pools) ≡ [] =
      rw (← e) (stacks_at-assign_self key [] pool.pools) in
    (ground (arith, none_left), λ host ne. stacks_at-assign_ne key host [] pool.pools (rw e ne))
