-- ===== src/Manager/Steps/Thrown.antt =====
-- What a task that throws leaves behind.
use asio_http.Base.{
  ◌==◌, [], count_by-nil, ℕ, ◌+◌, ◌≤◌, false, true, List, ◌∷◌, Option, Bytes, ◌≡◌, refl, ap, arith,
  count_by, count_by-cons, one_if, not, thrown, Exception, Bool,
}
use asio_http.Errors.{ErrorCode, is_error}
use asio_http.Pool.{HttpStack, ConnectionPool, stacks_at, release_connection}
use asio_http.Pool.Ownership.{idle_in, idle_in-assign}
use asio_http.Request.{HttpResultData, HttpClientSettings}
use asio_http.Manager.{
  Task, on_request_completed_task, execute_request_task, cancel_requests_task,
  execute_waiting_requests_task, RequestManager, run_task, left_behind,
}
use asio_http.Manager.Steps.{Reach}
use asio_http.Manager.Steps.Ownership.{idle, used, completes}
use asio_http.Manager.Steps.Invariant.{Reach-Inv}

-- A connection that is released without an error is once more in the pool.
kept_idle :
    (pool : ConnectionPool) (handle : HttpStack)
    → idle_in handle.address (release_connection pool handle false).pools
      ≡ idle_in handle.address pool.pools + one_if (handle.address == handle.address)
unfolding release_connection
kept_idle pool handle =
    let idle = stacks_at handle.host_and_port pool.pools in
    omega (
      arith,
      idle_in-assign handle.address handle.host_and_port (handle ∷ idle) pool.pools,
      count_by-cons (λ (s : HttpStack). s.address == handle.address) handle idle,
    )

dropped_idle :
    (pool : ConnectionPool) (handle : HttpStack)
    → idle_in handle.address (release_connection pool handle true).pools
      ≤ idle_in handle.address pool.pools
unfolding release_connection
dropped_idle pool handle = omega (
  arith,
  idle_in-assign handle.address handle.host_and_port [] pool.pools,
  count_by-nil (λ (s : HttpStack). s.address == handle.address),
)

released_idle :
    (pool : ConnectionPool) (handle : HttpStack) (clean_up : Bool)
    → idle_in handle.address pool.pools ≡ 0
    → idle_in handle.address (release_connection pool handle clean_up).pools ≡ one_if (not clean_up)
released_idle pool handle true h = omega (arith, dropped_idle pool handle, h)
released_idle pool handle false h = ground (arith, kept_idle pool handle, h)

module _ (cast : Bytes → Option ℕ) (settings : HttpClientSettings) {m : RequestManager}
    (r : Reach cast settings m) where
  -- A task that throws is a completion, whose connection still has its request afterwards; without an error
  -- code the connection lies in the pool as well, and may be handed out to another request.
  left_behind-used-idle :
      (task : Task) (rest : List Task) (e : Exception)
      → m.strand ≡ task ∷ rest
      → run_task cast (record m { strand = rest }) task ≡ thrown e
      → (result : HttpResultData) × (handle : HttpStack) × (ec : ErrorCode) × (task
          ≡ on_request_completed_task result handle ec)
        × (used handle.address (left_behind m task) ≡ 1)
        × (idle handle.address (left_behind m task) ≡ one_if (not (is_error ec)))
  unfolding left_behind run_task
  left_behind-used-idle (execute_request_task request) rest e next throws = cc throws
  left_behind-used-idle (cancel_requests_task token) rest e next throws = cc throws
  left_behind-used-idle execute_waiting_requests_task rest e next throws = cc throws
  left_behind-used-idle (on_request_completed_task result handle ec) rest e next throws =
      let owns = (Reach-Inv cast settings r).owns in
      let posted = ap (count_by (completes handle.address)) next in
      let first =
        count_by-cons (completes handle.address) (on_request_completed_task result handle ec)
          rest in
      (
        result,
        handle,
        ec,
        refl,
        ground (arith, owns.one_place handle.address, owns.matched handle.address, posted, first),
        released_idle m.connection_pool handle (is_error ec)
            (ground (arith, owns.one_place handle.address, posted, first)),
      )
