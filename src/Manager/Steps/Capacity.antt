-- ===== src/Manager/Steps/Capacity.antt =====
-- The limit on parallel requests, and the tasks that make waiting requests start.
use asio_http.Base.{
  ℕ, ◌+◌, ◌-◌, ◌≤◌, ◌<◌, min, Bool, true, false, not, ◌&&◌, List, [], ◌∷◌, some, ltb, ◌≡◌, refl,
  arith, inl, inr, Bool-cases, ltb→lt, count_by, count_by-cons, count_by-nil,
}
use asio_http.Pool.{HttpStack, get_connection}
use asio_http.Manager.Requests.{Node, in_progress, is_active, rank}
use asio_http.Manager.Requests.Order.{IsSorted, relocate-IsSorted, first_active}
use asio_http.Manager.Requests.Places.{count_by-relocate}
use asio_http.Manager.{Task, execute_waiting_requests_task, RequestManager, start, execute_first}

abbrev pub is_wakeup : Task → Bool
is_wakeup execute_waiting_requests_task = true
is_wakeup _ = false

abbrev pub is_waiting : Node → Bool
is_waiting n = not (is_active n)

abbrev pub active : RequestManager → ℕ
active m = count_by is_active m.requests

abbrev pub waits : RequestManager → ℕ
waits m = count_by is_waiting m.requests

abbrev pub wakeups : RequestManager → ℕ
wakeups m = count_by is_wakeup m.strand

-- `slack` wakeups have been taken off the strand and are not yet executed.
pub record Capacity (slack : ℕ) (m : RequestManager) : Type 0 where
  pub limit : active m ≤ m.settings.max_parallel_requests
  pub wake : min (waits m) (m.settings.max_parallel_requests - active m) ≤ wakeups m + slack
  pub sorted : IsSorted m.requests

-- The node of a request that is started.
abbrev pub started : HttpStack → Node → Node
started handle n = record n {
  request = record (n.request) { connection = some handle; request_state = in_progress };
}

pub started-active : (handle : HttpStack) (n : Node) → is_active (started handle n) ≡ true
unfolding is_active rank
started-active handle n = refl

pub start-Capacity :
    (m : RequestManager) (first : Node) (others : List Node)
    → m.requests ≡ first ∷ others
    → is_active first ≡ false
    → active m < m.settings.max_parallel_requests
    → Capacity 1 m
    → Capacity 0 (start m first others)
unfolding start
start-Capacity m first others e idle room c =
    let handle =
      (get_connection m.connection_pool first.http_request.url first.http_request.certificates).0 in
    let x = started handle first in
    let old = rw e at c.wake in
    let room' = rw e at room in
    let active_now = count_by-relocate is_active [] x others in
    let waits_now = count_by-relocate is_waiting [] x others in
    record {
      limit = ground (
        arith,
        active_now,
        waits_now,
        old,
        room',
        idle,
        started-active handle first,
        count_by-cons is_active first others,
        count_by-cons is_waiting first others,
        count_by-nil is_active,
        count_by-nil is_waiting,
      );
      wake = ground (
        arith,
        active_now,
        waits_now,
        old,
        room',
        idle,
        started-active handle first,
        count_by-cons is_active first others,
        count_by-cons is_waiting first others,
        count_by-nil is_active,
        count_by-nil is_waiting,
      );
      sorted = relocate-IsSorted [] x others (rw e at c.sorted).1;
    }

pub and-false : (b : Bool) → (b && false) ≡ false
and-false true = refl
and-false false = refl

first_waits :
    (first : Node) (others : List Node)
    → IsSorted (first ∷ others)
    → is_active first ≡ true
    → count_by is_waiting (first ∷ others) ≡ 0
unfolding count_by
first_waits first others s h = ground (arith, first_active first others s.0 h)

pub execute_first-Capacity :
    (m : RequestManager) (nodes : List Node)
    → m.requests ≡ nodes
    → Capacity 1 m
    → Capacity 0 (execute_first m nodes)
unfolding execute_first
execute_first-Capacity m [] e c = record {
  limit = c.limit;
  wake = rw e (omega (arith, count_by-nil is_waiting));
  sorted = c.sorted;
}
execute_first-Capacity m (first ∷ others) e c = elim (Bool-cases (is_active first)) [
  | inl running ↦
      let none_wait = first_waits first others (rw e at c.sorted) running in
      rw (running, and-false)
        (record { limit = c.limit; wake = rw e (omega (arith, none_wait)); sorted = c.sorted })
  | inr idle ↦ elim (Bool-cases (ltb (active m) m.settings.max_parallel_requests)) [
    | inl room ↦ rw (idle, room) (start-Capacity m first others e idle (ltb→lt _ _ room) c)
    | inr full ↦
        rw (idle, full) (record { limit = c.limit; wake = ground arith; sorted = c.sorted })
  ]
]
