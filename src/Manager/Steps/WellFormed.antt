-- ===== src/Manager/Steps/WellFormed.antt =====
-- Exactly the running requests have a connection, no request has been retried more often than the
-- settings allow, and what is posted is new.
use asio_http.Base.{
  ℕ, ◌+◌, ◌≤◌, ◌<◌, Bool, true, false, List, [], ◌∷◌, ◌++◌, Option, none, some, Bytes, ◌≡◌, refl,
  sym, arith, inl, inr, Option-cases, All,
}
use asio_http.Errors.{operation_aborted}
use asio_http.Pool.{get_connection}
use asio_http.Request.{HttpRequest}
use asio_http.Manager.Requests.{Node, RequestData, waiting, is_active, rank, insert_node, Split}
use asio_http.Manager.Requests.Places.{
  whole, find_split_lem, All-append, All-split, All-insert_node, All-relocate,
}
use asio_http.Manager.{
  Task, execute_request_task, execute_waiting_requests_task, RequestManager, HttpRequestResult,
  error_result, start, execute_waiting_requests, execute_request, handle_completed_request,
  cancel_split, cancel_requests, cancelled_nodes, retry,
}
use asio_http.Manager.Steps.Capacity.{started, started-active}
use asio_http.Manager.Steps.Completion.{execute_waiting_requests_cases, cancel_each_cases}

abbrev pub has_some {ℓ} : {A : Type ℓ} → Option A → Bool
has_some none = false
has_some (some a) = true

pub record IsWellNode (max_attempts : ℕ) (n : Node) : Type 0 where
  pub connected : has_some n.connection ≡ is_active n
  pub attempts : n.retries ≤ max_attempts

pub record IsNew (r : RequestData) : Type 0 where
  pub state : r.request_state ≡ waiting
  pub unconnected : r.connection ≡ none
  pub untried : r.retries ≡ 0

abbrev pub IsNewTask : Task → Type 0
IsNewTask (execute_request_task r) = IsNew r
IsNewTask _ = Unit

pub record IsWellFormed (m : RequestManager) : Type 0 where
  pub nodes : All (IsWellNode m.settings.max_attempts) m.requests
  pub tasks : All IsNewTask m.strand

pub All-tasks :
    (tasks : List Task) (t : Task)
    → All IsNewTask tasks
    → IsNewTask t
    → All IsNewTask (tasks ++ (t ∷ []))
All-tasks [] t h k = (k, tt)
All-tasks (u ∷ tasks) t h k = (h.0, All-tasks tasks t h.1 k)

pub start-IsWellFormed :
    (m : RequestManager) (first : Node) (others : List Node)
    → m.requests ≡ first ∷ others
    → IsWellFormed m
    → IsWellFormed (start m first others)
unfolding start
start-IsWellFormed m first others e w =
    let all = rw e at w.nodes in
    let handle =
      (get_connection m.connection_pool first.http_request.url first.http_request.certificates).0 in
    record {
      nodes =
          All-relocate (IsWellNode m.settings.max_attempts) [] (started handle first) others tt
            (record { connected = sym (started-active handle first); attempts = all.0.attempts })
            all.1;
      tasks = w.tasks;
    }

pub execute_waiting_requests-IsWellFormed :
    (m : RequestManager) → IsWellFormed m → IsWellFormed (execute_waiting_requests m)
execute_waiting_requests-IsWellFormed m w =
    execute_waiting_requests_cases IsWellFormed m w
      (λ first others e _ _. start-IsWellFormed m first others e w)

pub IsNew-idle :
    (id : ℕ) (r : RequestData) → IsNew r → is_active (record { id = id; request = r }) ≡ false
unfolding is_active rank
IsNew-idle id r n = rw n.state

-- The manager with the request that `execute_request` inserts.
abbrev pub inserted : RequestManager → RequestData → RequestManager
inserted m r = record m {
  requests = insert_node (record { id = m.next_id; request = r }) m.requests;
  next_id = m.next_id + 1;
}

pub inserted-IsWellFormed :
    (m : RequestManager) (r : RequestData) → IsNew r → IsWellFormed m → IsWellFormed (inserted m r)
inserted-IsWellFormed m r new w =
    let x : Node = record { id = m.next_id; request = r } in
    record {
      nodes =
          All-insert_node (IsWellNode m.settings.max_attempts) x m.requests
            (record {
              connected = ground (arith, IsNew-idle m.next_id r new, new.unconnected);
              attempts = omega (arith, new.untried);
            })
            w.nodes;
      tasks = w.tasks;
    }

pub execute_request-IsWellFormed :
    (m : RequestManager) (r : RequestData)
    → IsNew r
    → IsWellFormed m
    → IsWellFormed (execute_request m r)
unfolding execute_request
execute_request-IsWellFormed m r new w =
    execute_waiting_requests-IsWellFormed (inserted m r) (inserted-IsWellFormed m r new w)

module _ (m : RequestManager) (s : Split) (e : m.requests ≡ whole s) (w : IsWellFormed m) where
  abbrev Well : Node → Type 0
  Well = IsWellNode m.settings.max_attempts

  around : All Well s.before × All Well s.after
  around = let parts = All-split Well s.before _ (rw e at w.nodes) in (parts.0, parts.1.1)

  pub handle_completed_request-IsWellFormed :
      (r : HttpRequestResult) → IsWellFormed (handle_completed_request m s r)
  unfolding handle_completed_request
  handle_completed_request-IsWellFormed r = record {
    nodes = All-append Well s.before s.after around.0 around.1;
    tasks = All-tasks m.strand execute_waiting_requests_task w.tasks tt;
  }

  pub cancel_split-IsWellFormed : IsWellFormed (cancel_split m s)
  unfolding cancel_split
  cancel_split-IsWellFormed = elim (Option-cases s.found.connection) [
    | inl idle ↦
        rw (idle, cancel_split)
          (handle_completed_request-IsWellFormed (error_result operation_aborted))
    | inr (h, running) ↦ rw (running, cancel_split) (record { nodes = w.nodes; tasks = w.tasks })
  ]

  pub retry-IsWellFormed :
      (new : Option HttpRequest)
      → s.found.retries < m.settings.max_attempts
      → IsWellFormed (retry m s new)
  unfolding retry
  retry-IsWellFormed new below = record {
    nodes =
        All-relocate Well s.before _ s.after around.0
          (record { connected = unfold is_active rank in refl; attempts = omega arith }) around.1;
    tasks = All-tasks m.strand execute_waiting_requests_task w.tasks tt;
  }

pub cancel_requests-IsWellFormed :
    (m : RequestManager) (token : Bytes) → IsWellFormed m → IsWellFormed (cancel_requests m token)
unfolding cancel_requests
cancel_requests-IsWellFormed m token =
    cancel_each_cases IsWellFormed
      (λ m s n found w. cancel_split-IsWellFormed m s (find_split_lem _ m.requests s found).0 w) m
      (cancelled_nodes token m.requests)
