-- ===== src/Pool/Ownership.antt =====
-- How often a stack lies idle in the pool.
use asio_http.Base.{
  ℕ, ◌+◌, ◌≤◌, Bool, true, false, List, [], ◌∷◌, ◌==◌, ◌≡◌, refl, arith, ◌⊎◌, inl, inr, Bool-cases,
  count_by, count_by-cons, count_by-nil, one_if,
}
use asio_http.Request.{SslSettings}
use asio_http.Url.{Url}
use asio_http.Pool.{
  HostAndPort, HttpStack, PoolMap, ConnectionPool, key_eq, stacks_at, assign, host_of,
  get_connection, release_connection,
}
use asio_http.Pool.Lookup.{Serves, reused, created, get_connection-Serves}

-- The places of the list that hold the stack of this address.
abbrev pub holds : ℕ → List HttpStack → ℕ
holds address = count_by λ s. s.address == address

-- The places of the map that hold it.
abbrev pub idle_in : ℕ → PoolMap → ℕ
idle_in address [] = 0
idle_in address ((key, stacks) ∷ map) = holds address stacks + idle_in address map

-- An assignment to one host puts the new stacks in the place of the old ones.
pub idle_in-assign :
    (address : ℕ) (host : HostAndPort) (stacks : List HttpStack) (map : PoolMap)
    → idle_in address (assign host stacks map) + holds address (stacks_at host map)
      ≡ idle_in address map + holds address stacks
unfolding assign stacks_at
idle_in-assign a host stacks [] = omega (arith, count_by-nil (λ (s : HttpStack). s.address == a))
idle_in-assign a host stacks ((key, old) ∷ map) = elim (Bool-cases (key_eq key host)) [
  | inl same ↦ rw same (omega arith)
  | inr other ↦ rw other (omega (arith, idle_in-assign a host stacks map))
]

-- The handle that is handed out was idle or is new, and the pool holds all its other stacks still.
pub get_connection-idle_in :
    (pool : ConnectionPool) (url : Url) (ssl : SslSettings) (address : ℕ)
    → let (handle, pool') = get_connection pool url ssl in
      ((idle_in address pool'.pools + one_if (handle.address == address)
          ≡ idle_in address pool.pools)
        × (pool'.next_address ≡ pool.next_address))
      ⊎ ((idle_in address pool'.pools ≡ idle_in address pool.pools)
          × (handle.address ≡ pool.next_address)
          × (pool'.next_address ≡ pool.next_address + 1))
get_connection-idle_in pool url ssl address =
    go (get_connection pool url ssl).0 (get_connection pool url ssl).1
      (get_connection-Serves pool url ssl)
  where
    go :
        (handle : HttpStack) (pool' : ConnectionPool)
        → Serves pool url ssl (handle, pool')
        → ((idle_in address pool'.pools + one_if (handle.address == address)
              ≡ idle_in address pool.pools)
            × (pool'.next_address ≡ pool.next_address))
          ⊎ ((idle_in address pool'.pools ≡ idle_in address pool.pools)
              × (handle.address ≡ pool.next_address)
              × (pool'.next_address ≡ pool.next_address + 1))
    go h p (reused handle rest e) =
        let moved = rw e at (idle_in-assign address (host_of url) rest pool.pools) in
        inl (
          omega (arith, moved, count_by-cons (λ (s : HttpStack). s.address == address) handle rest),
          refl,
        )
    go h p (created e) =
        let moved = rw e at (idle_in-assign address (host_of url) [] pool.pools) in
        inr (omega (arith, moved), refl, refl)

pub release_connection-idle_in :
    (pool : ConnectionPool) (handle : HttpStack) (clean_up : Bool) (address : ℕ)
    → idle_in address (release_connection pool handle clean_up).pools
      ≤ idle_in address pool.pools + one_if (handle.address == address)
unfolding release_connection
release_connection-idle_in pool handle true address = omega (
  arith,
  idle_in-assign address handle.host_and_port [] pool.pools,
  count_by-nil (λ (s : HttpStack). s.address == address),
)
release_connection-idle_in pool handle false address =
    let idle = stacks_at handle.host_and_port pool.pools in
    omega (
      arith,
      idle_in-assign address handle.host_and_port (handle ∷ idle) pool.pools,
      count_by-cons (λ (s : HttpStack). s.address == address) handle idle,
    )

pub release_connection-next_address :
    (pool : ConnectionPool) (handle : HttpStack) (clean_up : Bool)
    → (release_connection pool handle clean_up).next_address ≡ pool.next_address
unfolding release_connection
release_connection-next_address pool handle clean_up = refl
