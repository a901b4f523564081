-- ===== src/Manager/Steps/Ownership.antt =====
-- Each connection is in one place: idle in the pool, running, or on its way back in a task; and it
-- belongs to one request while it is not idle.
use asio_http.Base.{
  ℕ, ◌+◌, ◌≤◌, Bool, true, false, List, [], ◌∷◌, ◌++◌, ◌==◌, Option, Bytes, ◌≡◌, refl, ap, arith,
  inl, inr, Option-cases, count_by, count_by-append, count_by-cons, count_by-nil, one_if,
}
use asio_http.Errors.{ErrorCode, operation_aborted, is_error}
use asio_http.Pool.{HttpStack, get_connection}
use asio_http.Pool.Ownership.{
  holds, idle_in, get_connection-idle_in, release_connection-idle_in,
  release_connection-next_address,
}
use asio_http.Request.{HttpRequest}
use asio_http.Manager.Requests.{Node, RequestData, is_active, has_connection, Split}
use asio_http.Manager.Requests.Places.{
  whole, count_by-insert_node, count_by-relocate, count_by-whole, find_split_lem,
}
use asio_http.Manager.{
  Task, on_request_completed_task, execute_waiting_requests_task, RequestManager, HttpRequestResult,
  error_result, start, execute_waiting_requests, execute_request, handle_completed_request,
  cancel_split, cancel_requests, cancelled_nodes, retry,
}
use asio_http.Manager.Steps.Capacity.{started}
use asio_http.Manager.Steps.Completion.{execute_waiting_requests_cases, cancel_each_cases, released}
use asio_http.Manager.Steps.WellFormed.{
  IsWellNode, IsNew, IsWellFormed, inserted, inserted-IsWellFormed,
}

abbrev pub completes : ℕ → Task → Bool
completes address (on_request_completed_task result handle ec) = handle.address == address
completes address _ = false

abbrev pub idle : ℕ → RequestManager → ℕ
idle address m = idle_in address m.connection_pool.pools

abbrev pub posted : ℕ → RequestManager → ℕ
posted address m = count_by (completes address) m.strand

abbrev pub used : ℕ → RequestManager → ℕ
used address m = count_by (has_connection address) m.requests

abbrev pub none_held : ℕ → ℕ
none_held address = 0

-- `held` counts the connections that the task in execution holds, and `due` those whose requests
-- it still has to look at.
pub record Owns (held due : ℕ → ℕ) (m : RequestManager) : Type 0 where
  pub one_place : (a : ℕ) → idle a m + (holds a m.running + (posted a m + held a)) ≤ 1
  pub unborn :
      (a : ℕ)
      → m.connection_pool.next_address ≤ a
      → idle a m + (holds a m.running + (posted a m + held a)) ≡ 0
  pub matched : (a : ℕ) → used a m ≡ holds a m.running + (posted a m + due a)

unconnected :
    (max : ℕ) (n : Node) (a : ℕ)
    → IsWellNode max n
    → is_active n ≡ false
    → has_connection a n ≡ false
unconnected max n a w idle = elim (Option-cases n.connection) [
  | inl none_ ↦ rw none_
  | inr (s, one) ↦ ground (arith, w.connected, one)
]

pub start-Owns :
    (m : RequestManager) (first : Node) (others : List Node)
    → m.requests ≡ first ∷ others
    → is_active first ≡ false
    → IsWellFormed m
    → Owns none_held none_held m
    → Owns none_held none_held (start m first others)
unfolding start
start-Owns m first others e waits w o =
    let got =
      get_connection m.connection_pool first.http_request.url first.http_request.certificates in
    let handle = got.0 in
    let well = (rw e at w.nodes).0 in
    let moved =
      get_connection-idle_in m.connection_pool first.http_request.url
        first.http_request.certificates in
    let ran = λ (a : ℕ). count_by-cons (λ (s : HttpStack). s.address == a) handle m.running in
    record {
      one_place = λ a. ground (arith, moved a, o.one_place a, o.unborn a, ran a);
      unborn = λ a new. ground (arith, moved a, o.unborn a, ran a);
      matched = λ a. ground (
        arith,
        rw e at (o.matched a),
        ran a,
        count_by-relocate (has_connection a) [] (started handle first) others,
        count_by-cons (has_connection a) first others,
        count_by-nil (has_connection a),
        unconnected m.settings.max_attempts first a well waits,
      );
    }

pub execute_waiting_requests-Owns :
    (m : RequestManager)
    → IsWellFormed m
    → Owns none_held none_held m
    → Owns none_held none_held (execute_waiting_requests m)
execute_waiting_requests-Owns m w o =
    execute_waiting_requests_cases (Owns none_held none_held) m o
      (λ first others e waits _. start-Owns m first others e waits w o)

pub execute_request-Owns :
    (m : RequestManager) (r : RequestData)
    → IsNew r
    → IsWellFormed m
    → Owns none_held none_held m
    → Owns none_held none_held (execute_request m r)
unfolding execute_request
execute_request-Owns m r new w o =
    let x : Node = record { id = m.next_id; request = r } in
    execute_waiting_requests-Owns (inserted m r) (inserted-IsWellFormed m r new w) (record {
      one_place = o.one_place;
      unborn = o.unborn;
      matched = λ a. ground (
        arith,
        o.matched a,
        count_by-insert_node (has_connection a) x m.requests,
        new.unconnected,
      );
    })

posted-wakeup :
    (a : ℕ) (tasks : List Task)
    → count_by (completes a) (tasks ++ (execute_waiting_requests_task ∷ []))
      ≡ count_by (completes a) tasks
posted-wakeup a tasks = omega (
  arith,
  count_by-append (completes a) tasks (execute_waiting_requests_task ∷ []),
  count_by-cons (completes a) execute_waiting_requests_task [],
  count_by-nil (completes a),
)

module _ (held due due' : ℕ → ℕ) (m : RequestManager) (s : Split) (e : m.requests ≡ whole s)
    (o : Owns held due m)
    (paid : (a : ℕ) → due a ≡ one_if (has_connection a s.found) + due' a) where
  used_parts :
      (a : ℕ)
      → count_by (has_connection a) s.before + count_by (has_connection a) s.after
        ≡ holds a m.running + (posted a m + due' a)
  used_parts a = omega (
    arith,
    count_by-whole (has_connection a) s,
    ap (count_by (has_connection a)) e,
    o.matched a,
    paid a,
  )

  pub handle_completed_request-Owns :
      (r : HttpRequestResult) → Owns held due' (handle_completed_request m s r)
  unfolding handle_completed_request
  handle_completed_request-Owns r = record {
    one_place = λ a. omega (arith, o.one_place a, posted-wakeup a m.strand);
    unborn = λ a new. omega (arith, o.unborn a new, posted-wakeup a m.strand);
    matched = λ a. omega (
      arith,
      used_parts a,
      posted-wakeup a m.strand,
      count_by-append (has_connection a) s.before s.after,
    );
  }

  pub retry-Owns : (new : Option HttpRequest) → Owns held due' (retry m s new)
  unfolding retry
  retry-Owns new = record {
    one_place = λ a. omega (arith, o.one_place a, posted-wakeup a m.strand);
    unborn = λ a fresh. omega (arith, o.unborn a fresh, posted-wakeup a m.strand);
    matched = λ a. omega (
      arith,
      used_parts a,
      posted-wakeup a m.strand,
      count_by-relocate (has_connection a) s.before _ s.after,
    );
  }

pub cancel_split-Owns :
    (m : RequestManager) (s : Split)
    → m.requests ≡ whole s
    → Owns none_held none_held m
    → Owns none_held none_held (cancel_split m s)
unfolding cancel_split
cancel_split-Owns m s e o = elim (Option-cases s.found.connection) [
  | inl idle_ ↦
      rw (idle_, cancel_split)
        (handle_completed_request-Owns none_held none_held none_held m s e o (λ a. rw idle_ refl)
          (error_result operation_aborted))
  | inr (h, running) ↦
      rw (running, cancel_split)
        (record { one_place = o.one_place; unborn = o.unborn; matched = o.matched })
]

pub cancel_requests-Owns :
    (m : RequestManager) (token : Bytes)
    → Owns none_held none_held m
    → Owns none_held none_held (cancel_requests m token)
unfolding cancel_requests
cancel_requests-Owns m token =
    cancel_each_cases (Owns none_held none_held)
      (λ m s n found o. cancel_split-Owns m s (find_split_lem _ m.requests s found).0 o) m
      (cancelled_nodes token m.requests)

-- The handle goes to the pool or is dropped; the request that it served is still to be found.
pub released-Owns :
    (m : RequestManager) (handle : HttpStack) (ec : ErrorCode)
    → Owns (λ a. one_if (handle.address == a)) (λ a. one_if (handle.address == a)) m
    → Owns none_held (λ a. one_if (handle.address == a)) (released m handle ec)
released-Owns m handle ec o =
    let freed = release_connection-idle_in m.connection_pool handle (is_error ec) in
    let same = release_connection-next_address m.connection_pool handle (is_error ec) in
    record {
      one_place = λ a. omega (arith, o.one_place a, freed a);
      unborn = λ a new. omega (arith, o.unborn a (rw same at new), freed a);
      matched = o.matched;
    }

-- A node with this connection pays what is due for the handle.
pub found-due :
    (handle : HttpStack) (n : Node)
    → has_connection handle.address n ≡ true
    → (a : ℕ) → one_if (handle.address == a) ≡ one_if (has_connection a n) + 0
found-due handle n h a = elim (Option-cases n.connection) [
  | inl none_ ↦ ground arith
  | inr (s, one) ↦ ground arith
]
