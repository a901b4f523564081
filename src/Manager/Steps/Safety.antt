-- ===== src/Manager/Steps/Safety.antt =====
-- What the invariant says of the running requests, the waiting ones and their connections.
use asio_http.Base.{
  ℕ, ◌+◌, ◌≤◌, ◌<◌, false, List, [], ◌∷◌, ◌++◌, Option, some, Bytes, ◌≡◌, refl, ap, arith, All,
  count_by, count_by-cons, ◌⊎◌, inl, inr, Option-cases,
}
use asio_http.Errors.{ErrorCode}
use asio_http.Pool.{HttpStack, get_connection}
use asio_http.Request.{HttpResultData, HttpClientSettings}
use asio_http.Manager.Requests.{Node, Split, is_active, has_connection, find_connection}
use asio_http.Manager.Requests.Order.{IsBelow}
use asio_http.Manager.Requests.Places.{find_split-count_by}
use asio_http.Manager.{
  Task, on_request_completed_task, RequestManager, start_async, start, execute_waiting_requests,
}
use asio_http.Manager.Steps.{Reach}
use asio_http.Manager.Steps.Capacity.{active, waits, wakeups}
use asio_http.Manager.Steps.Completion.{execute_waiting_requests_cases}
use asio_http.Manager.Steps.Ownership.{idle, used, completes}
use asio_http.Manager.Steps.WellFormed.{IsWellNode}
use asio_http.Manager.Steps.Invariant.{Reach-Inv}
use asio_http.Manager.Steps.Settings.{Reach-settings}

module _ (cast : Bytes → Option ℕ) (settings : HttpClientSettings) {m : RequestManager}
    (r : Reach cast settings m) where
  -- In every reachable state at most as many requests are in progress as the settings allow.
  pub active-le-max_parallel_requests : active m ≤ settings.max_parallel_requests
  active-le-max_parallel_requests =
      rw (ap (λ (s : HttpClientSettings). s.max_parallel_requests) (Reach-settings settings cast r))
        at (Reach-Inv cast settings r).capacity.limit

  -- In every state that is reached without a task that throws, a connection serves at most one request,
  -- and none while it is idle in the pool.
  pub used-idle-le-one : (address : ℕ) → used address m + idle address m ≤ 1
  used-idle-le-one a =
      let o = (Reach-Inv cast settings r).owns in omega (arith, o.one_place a, o.matched a)

  -- In every reachable state, if a request waits and another one may run, a task that looks for
  -- waiting requests is on the strand.
  pub waits-wakeups : 0 < waits m → active m < settings.max_parallel_requests → 0 < wakeups m
  waits-wakeups some_wait room = omega (
    arith,
    (Reach-Inv cast settings r).capacity.wake,
    ap (λ (s : HttpClientSettings). s.max_parallel_requests) (Reach-settings settings cast r),
  )

  -- In every reachable state each request has a connection exactly if it is in progress, and has
  -- been retried at most as often as the settings allow.
  pub requests-IsWellNode : All (IsWellNode settings.max_attempts) m.requests
  requests-IsWellNode =
      rw (ap (λ (s : HttpClientSettings). s.max_attempts) (Reach-settings settings cast r)) at
        (Reach-Inv cast settings r).well.nodes

  -- When a completion is next on the strand of a reachable state, the request that it belongs to is
  -- found by its connection.
  pub completion-finds :
      (result : HttpResultData) (handle : HttpStack) (ec : ErrorCode) (rest : List Task)
      → m.strand ≡ on_request_completed_task result handle ec ∷ rest
      → (s : Split) × (find_connection handle m.requests ≡ some s)
  completion-finds result handle ec rest e =
      elim (Option-cases (find_connection handle m.requests)) [
        | inl gone ↦ absurd (
            ground (
              arith,
              find_split-count_by (has_connection handle.address) m.requests gone,
              (Reach-Inv cast settings r).owns.matched handle.address,
              ap (count_by (completes handle.address)) e,
              count_by-cons (completes handle.address) (on_request_completed_task result handle ec)
                  rest,
            ))
        | inr found ↦ found
      ]

  -- In every reachable state `execute_waiting_requests` leaves the started requests as they are, or
  -- starts one whose state and creation time come first among all requests there are.
  pub execute_waiting_requests-first :
      ((execute_waiting_requests m).effects ≡ m.effects)
      ⊎ ((first : Node) × (others : List Node) × (handle : HttpStack) × (m.requests
            ≡ first ∷ others)
          × (is_active first ≡ false)
          × All (IsBelow first) others
          × ((execute_waiting_requests m).effects
              ≡ m.effects ++ (start_async handle first.http_request ∷ [])))
  execute_waiting_requests-first =
      execute_waiting_requests_cases
        (λ n.
          (n.effects ≡ m.effects)
          ⊎ ((first : Node) × (others : List Node) × (handle : HttpStack) × (m.requests
                ≡ first ∷ others)
              × (is_active first ≡ false)
              × All (IsBelow first) others
              × (n.effects ≡ m.effects ++ (start_async handle first.http_request ∷ []))))
        m (inl refl)
        (λ first others e waits _. inr (
          first,
          others,
          (get_connection m.connection_pool first.http_request.url
              first.http_request.certificates).0,
          e,
          waits,
          (rw e at (Reach-Inv cast settings r).capacity.sorted).0,
          unfold start in refl,
        ))
