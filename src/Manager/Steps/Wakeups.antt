-- ===== src/Manager/Steps/Wakeups.antt =====
-- Every operation of the manager keeps the limit and the wakeups.
use asio_http.Base.{
  ℕ, ◌+◌, ◌-◌, ◌≤◌, ◌%◌, ◌^◌, min, false, List, [], ◌∷◌, ◌++◌, Option, none, Bytes, ◌≡◌, refl, ap,
  arith, inl, inr, Option-cases, count_by, count_by-append, count_by-cons, count_by-nil, one_if,
}
use asio_http.Errors.{operation_aborted}
use asio_http.Request.{HttpRequest}
use asio_http.Manager.Requests.{Node, RequestData, waiting_retry, is_active, rank, Split, find_node}
use asio_http.Manager.Requests.Order.{insert_node-IsSorted, relocate-IsSorted, erase-IsSorted}
use asio_http.Manager.Requests.Places.{
  whole, count_by-insert_node, count_by-relocate, count_by-whole, find_split_lem,
}
use asio_http.Manager.{
  Task, execute_waiting_requests_task, RequestManager, HttpRequestResult, error_result,
  execute_waiting_requests, execute_request, handle_completed_request, cancel_split, cancel_request,
  cancel_each, cancel_requests, cancelled_nodes, new_or_old, retry,
}
use asio_http.Manager.Steps.Capacity.{
  is_wakeup, is_waiting, wakeups, Capacity, execute_first-Capacity,
}

pub execute_waiting_requests-Capacity :
    (m : RequestManager) → Capacity 1 m → Capacity 0 (execute_waiting_requests m)
unfolding execute_waiting_requests
execute_waiting_requests-Capacity m c = execute_first-Capacity m m.requests refl c

pub execute_request-Capacity :
    (m : RequestManager) (r : RequestData)
    → is_active (record { id = m.next_id; request = r }) ≡ false
    → Capacity 0 m
    → Capacity 0 (execute_request m r)
unfolding execute_request
execute_request-Capacity m r idle c =
    let x : Node = record { id = m.next_id; request = r } in
    execute_waiting_requests-Capacity _ (record {
      limit = ground (arith, c.limit, count_by-insert_node is_active x m.requests, idle);
      wake = ground (
        arith,
        c.wake,
        count_by-insert_node is_active x m.requests,
        count_by-insert_node is_waiting x m.requests,
        idle,
      );
      sorted = insert_node-IsSorted x m.requests c.sorted;
    })

wakeups-post :
    (tasks : List Task) (t : Task)
    → count_by is_wakeup (tasks ++ (t ∷ [])) ≡ count_by is_wakeup tasks + one_if (is_wakeup t)
wakeups-post tasks t = omega (
  arith,
  count_by-append is_wakeup tasks (t ∷ []),
  count_by-cons is_wakeup t [],
  count_by-nil is_wakeup,
)

module _ (k : ℕ) (m : RequestManager) (s : Split) (e : m.requests ≡ whole s)
    (c : Capacity k m) where
  limit_parts :
      one_if (is_active s.found) + count_by is_active s.before + count_by is_active s.after
      ≤ m.settings.max_parallel_requests
  limit_parts = omega (arith, count_by-whole is_active s, ap (count_by is_active) e, c.limit)

  wake_parts :
      min
        (one_if (is_waiting s.found) + count_by is_waiting s.before + count_by is_waiting s.after)
        (m.settings.max_parallel_requests
          - (one_if (is_active s.found) + count_by is_active s.before + count_by is_active s.after))
      ≤ wakeups m + k
  wake_parts = omega (
    arith,
    count_by-whole is_active s,
    count_by-whole is_waiting s,
    ap (count_by is_active) e,
    ap (count_by is_waiting) e,
    c.wake,
  )

  pub handle_completed_request-Capacity :
      (r : HttpRequestResult) → Capacity k (handle_completed_request m s r)
  unfolding handle_completed_request
  handle_completed_request-Capacity r = record {
    limit = omega (arith, limit_parts, count_by-append is_active s.before s.after);
    wake = ground (
      arith,
      wake_parts,
      limit_parts,
      count_by-append is_active s.before s.after,
      count_by-append is_waiting s.before s.after,
      wakeups-post m.strand execute_waiting_requests_task,
    );
    sorted = erase-IsSorted s.before s.found s.after (rw e at c.sorted);
  }

  pub cancel_split-Capacity : Capacity k (cancel_split m s)
  unfolding cancel_split
  cancel_split-Capacity = elim (Option-cases s.found.connection) [
    | inl idle ↦
        rw (idle, cancel_split) (handle_completed_request-Capacity (error_result operation_aborted))
    | inr (h, running) ↦
        rw (running, cancel_split) (record { limit = c.limit; wake = c.wake; sorted = c.sorted })
  ]

  pub retry-Capacity : (new : Option HttpRequest) → Capacity k (retry m s new)
  unfolding retry
  retry-Capacity new =
      let x : Node = record (s.found) {
        request = record (s.found.request) {
          http_request = new_or_old new s.found.http_request;
          connection = none;
          request_state = waiting_retry;
          retries = (s.found.retries + 1) % 2 ^ 32;
        };
      } in
      let idle : is_active x ≡ false = unfold is_active rank in refl in
      record {
        limit = ground (arith, limit_parts, count_by-relocate is_active s.before x s.after, idle);
        wake = ground (
          arith,
          wake_parts,
          limit_parts,
          count_by-relocate is_active s.before x s.after,
          count_by-relocate is_waiting s.before x s.after,
          wakeups-post m.strand execute_waiting_requests_task,
          idle,
        );
        sorted =
            relocate-IsSorted s.before x s.after
              (erase-IsSorted s.before s.found s.after (rw e at c.sorted));
      }

pub cancel_request-Capacity :
    (k : ℕ) (m : RequestManager) (n : Node) → Capacity k m → Capacity k (cancel_request m n)
unfolding cancel_request
cancel_request-Capacity k m n c = elim (Option-cases (find_node n.id m.requests)) [
  | inl gone ↦ rw (gone, cancel_request) c
  | inr (s, found) ↦
      rw (found, cancel_request)
        (cancel_split-Capacity k m s (find_split_lem _ m.requests s found).0 c)
]

pub cancel_each-Capacity :
    (k : ℕ) (m : RequestManager) (ns : List Node) → Capacity k m → Capacity k (cancel_each m ns)
unfolding cancel_each
cancel_each-Capacity k m [] c = c
cancel_each-Capacity k m (n ∷ ns) c =
    cancel_each-Capacity k (cancel_request m n) ns (cancel_request-Capacity k m n c)

pub cancel_requests-Capacity :
    (k : ℕ) (m : RequestManager) (token : Bytes)
    → Capacity k m
    → Capacity k (cancel_requests m token)
unfolding cancel_requests
cancel_requests-Capacity k m token c = cancel_each-Capacity k m (cancelled_nodes token m.requests) c
