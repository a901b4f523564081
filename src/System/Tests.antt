-- ===== src/System/Tests.antt =====
-- A request that is submitted, taken up by the manager and posted to its connection.
use asio_http.Base.{
  ℕ, ◌+◌, ◌≤◌, ◌≡◌, refl, Option, none, [], ◌∷◌, Bytes, codes, returned, one_if, drop, length,
  count_by, str_eq,
}
use asio_http.Request.{HttpClientSettings}
use asio_http.Pool.{get_connection, stacks_at, assign}
use asio_http.Pool.Ownership.{holds}
use asio_http.Manager.{
  RequestManager, Task, execute_request_task, execute_request, post, request_manager, run_task,
  execute_waiting_requests,
}
use asio_http.Manager.Requests.{request_data, insert_node, key_le, rank, is_active, relocate}
use asio_http.Manager.Steps.{Reach as ManagerReach}
use asio_http.Compression.Samples.{copying}
use asio_http.Stack.{Stack}
use asio_http.Stack.Start.{react}
use asio_http.Stack.Kept.{callbacks}
use asio_http.Stack.Samples.{taking, request}
use asio_http.System.{
  System, start_posted, is_start_posted, event, cleared, hand_out, system, Reach, start, later,
  submit, run,
}
use asio_http.System.Handover.{starts_in}
use asio_http.System.Reactions.{owes}
use asio_http.System.Refinement.{manager-Reach, running-starts_in, posted-returns}

abbrev no_cast : Bytes → Option ℕ
no_cast digits = none

abbrev one_at_a_time : HttpClientSettings
one_at_a_time = record { max_parallel_requests = 1; max_attempts = 5 }

abbrev initial : System ℕ
initial = system no_cast copying taking one_at_a_time (λ a. (codes "a", 80)) (λ a. 0)

abbrev task : Task
task = execute_request_task (request_data request 7 0 (codes "t") 10)

abbrev submitted : System ℕ
submitted = record initial { manager = post initial.manager task }

abbrev taken_up : RequestManager
taken_up = execute_request initial.manager (request_data request 7 0 (codes "t") 10)

abbrev handed_out : System ℕ
handed_out =
    hand_out (drop (length submitted.manager.effects) taken_up.effects)
      (record submitted { manager = taken_up })

-- What this run computes with.
evaluated : Unit {0}
unfolding request_manager run_task execute_request execute_waiting_requests insert_node key_le rank
    count_by is_active get_connection stacks_at assign str_eq relocate request_data hand_out
evaluated = tt

handed_out-Reach : Reach no_cast copying taking one_at_a_time handed_out
unfolding evaluated
handed_out-Reach =
    later
      (later (start (λ a. (codes "a", 80)) (λ a. 0)) (submit initial request 7 0 (codes "t") 10))
      (run submitted taken_up task [] refl refl)

manager-Reach_example : ManagerReach no_cast one_at_a_time handed_out.manager
manager-Reach_example = manager-Reach no_cast one_at_a_time copying taking handed_out-Reach

running-starts_in_example :
    (holds 0 handed_out.manager.running
      ≡ starts_in (handed_out.mailboxes 0) + owes (handed_out.stacks 0))
    × (starts_in (handed_out.mailboxes 0) + owes (handed_out.stacks 0) ≤ 1)
running-starts_in_example =
    running-starts_in no_cast one_at_a_time copying taking handed_out-Reach 0

one_posted : handed_out.mailboxes 0 ≡ start_posted request ∷ []
unfolding evaluated
one_posted = refl

posted-returns_example :
    (t : Stack ℕ) × (react copying taking
        (event 0 (start_posted request))
        (cleared (handed_out.stacks 0))
      ≡ returned t)
    × (callbacks t + owes t
        ≡ owes (handed_out.stacks 0) + one_if (is_start_posted (start_posted request)))
posted-returns_example =
    posted-returns no_cast one_at_a_time copying taking handed_out-Reach 0 (start_posted request) []
      one_posted
