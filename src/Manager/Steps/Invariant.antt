-- ===== src/Manager/Steps/Invariant.antt =====
-- What holds in every state that the manager reaches, and so between any two tasks.
use asio_http.Base.{
  returned-injective, ℕ, ◌+◌, false, List, ◌∷◌, ◌++◌, ◌==◌, Option, Bytes, ◌≡◌, refl, ap, arith,
  count_by, count_by-append, count_by-cons, count_by-post, one_if, returned,
}
use mathlib.Core.Path.{subst}
use asio_http.Errors.{ErrorCode}
use asio_http.Pool.{HttpStack}
use asio_http.Pool.Ownership.{holds}
use asio_http.Request.{HttpResultData, HttpClientSettings}
use asio_http.Manager.Requests.{request_data, has_connection}
use asio_http.Manager.Requests.Places.{find_split_lem, find_split-count_by}
use asio_http.Manager.{
  Task, execute_request_task, cancel_requests_task, on_request_completed_task,
  execute_waiting_requests_task, RequestManager, request_manager, post, create_request_result,
  on_request_completed, run_task,
}
use asio_http.Manager.Steps.{Step, submit, cancel, complete, run, Reach, start, later}
use asio_http.Manager.Steps.Capacity.{Capacity, is_wakeup}
use asio_http.Manager.Steps.Wakeups.{
  execute_waiting_requests-Capacity, execute_request-Capacity, cancel_requests-Capacity,
  handle_completed_request-Capacity, retry-Capacity,
}
use asio_http.Manager.Steps.WellFormed.{
  IsWellFormed, IsNewTask, IsNew-idle, All-tasks, execute_waiting_requests-IsWellFormed,
  execute_request-IsWellFormed, cancel_requests-IsWellFormed, handle_completed_request-IsWellFormed,
  retry-IsWellFormed,
}
use asio_http.Manager.Steps.Ownership.{
  Owns, none_held, completes, execute_waiting_requests-Owns, execute_request-Owns,
  cancel_requests-Owns, handle_completed_request-Owns, retry-Owns, released-Owns, found-due,
}
use asio_http.Manager.Steps.Completion.{released, on_request_completed_cases}

pub record Inv (m : RequestManager) : Type 0 where
  pub capacity : Capacity 0 m
  pub well : IsWellFormed m
  pub owns : Owns none_held none_held m

request_manager-Inv : (settings : HttpClientSettings) → Inv (request_manager settings)
unfolding request_manager count_by
request_manager-Inv settings = record {
  capacity = record { limit = omega arith; wake = omega arith; sorted = tt };
  well = record { nodes = tt; tasks = tt };
  owns = record { one_place = λ a. omega arith; unborn = λ a h. refl; matched = λ a. refl };
}

-- A task that is posted and that is no completion changes none of the counts.
post-Inv :
    (m : RequestManager) (t : Task)
    → is_wakeup t ≡ false
    → ((a : ℕ) → completes a t ≡ false)
    → IsNewTask t
    → Inv m
    → Inv (post m t)
post-Inv m t quiet none_completed new i = record {
  capacity = record {
    limit = i.capacity.limit;
    wake = ground (arith, i.capacity.wake, count_by-post is_wakeup m.strand t, quiet);
    sorted = i.capacity.sorted;
  };
  well = record { nodes = i.well.nodes; tasks = All-tasks m.strand t i.well.tasks new };
  owns = record {
    one_place = λ a.
        ground
          (arith, i.owns.one_place a, count_by-post (completes a) m.strand t, none_completed a);
    unborn = λ a new.
        ground
          (arith, i.owns.unborn a new, count_by-post (completes a) m.strand t, none_completed a);
    matched = λ a.
        ground (arith, i.owns.matched a, count_by-post (completes a) m.strand t, none_completed a);
  };
}

-- A connection calls back: it leaves the running ones for a task.
complete-Inv :
    (m : RequestManager) (before after : List HttpStack) (handle : HttpStack)
    (result : HttpResultData) (ec : ErrorCode)
    → m.running ≡ before ++ (handle ∷ after)
    → Inv m
    → Inv
        (post (record m { running = before ++ after }) (on_request_completed_task result handle ec))
complete-Inv m before after handle result ec e i =
    let t = on_request_completed_task result handle ec in
    let moved : (a : ℕ)
        → holds a (before ++ after) + one_if (handle.address == a) ≡ holds a m.running =
      λ a. omega (
        arith,
        ap (holds a) e,
        count_by-append (λ (s : HttpStack). s.address == a) before after,
        count_by-append (λ (s : HttpStack). s.address == a) before (handle ∷ after),
        count_by-cons (λ (s : HttpStack). s.address == a) handle after,
      ) in
    record {
      capacity = record {
        limit = i.capacity.limit;
        wake = omega (arith, i.capacity.wake, count_by-post is_wakeup m.strand t);
        sorted = i.capacity.sorted;
      };
      well = record { nodes = i.well.nodes; tasks = All-tasks m.strand t i.well.tasks tt };
      owns = record {
        one_place =
            λ a. omega (arith, moved a, i.owns.one_place a, count_by-post (completes a) m.strand t);
        unborn = λ a new.
            omega (arith, moved a, i.owns.unborn a new, count_by-post (completes a) m.strand t);
        matched =
            λ a. omega (arith, moved a, i.owns.matched a, count_by-post (completes a) m.strand t);
      };
    }

-- The first task is taken off the strand, to be executed.
abbrev taken : RequestManager → List Task → RequestManager
taken m rest = record m { strand = rest }

on_request_completed-Inv :
    (cast : Bytes → Option ℕ) (m n : RequestManager) (result : HttpResultData) (handle : HttpStack)
    (ec : ErrorCode)
    → Capacity 0 m
    → IsWellFormed m
    → Owns (λ a. one_if (handle.address == a)) (λ a. one_if (handle.address == a)) m
    → on_request_completed cast m result handle ec ≡ returned n
    → Inv n
on_request_completed-Inv cast m n result handle ec c w o =
    let c' : Capacity 0 (released m handle ec) = record {
      limit = c.limit;
      wake = c.wake;
      sorted = c.sorted;
    } in
    let w' : IsWellFormed (released m handle ec) = record { nodes = w.nodes; tasks = w.tasks } in
    let o' = released-Owns m handle ec o in
    on_request_completed_cases cast m result handle ec Inv n
      (λ gone. absurd (
        ground (
          arith,
          find_split-count_by (has_connection handle.address) m.requests gone,
          o.matched handle.address,
        )))
      (λ s new found below.
        let (e, hit) = find_split_lem (has_connection handle.address) m.requests s found in
        record {
          capacity = retry-Capacity 0 _ s e c' new;
          well = retry-IsWellFormed _ s e w' new below;
          owns = retry-Owns none_held _ none_held _ s e o' (found-due handle s.found hit) new;
        })
      (λ s found.
        let (e, hit) = find_split_lem (has_connection handle.address) m.requests s found in
        let r = create_request_result result ec in
        record {
          capacity = handle_completed_request-Capacity 0 _ s e c' r;
          well = handle_completed_request-IsWellFormed _ s e w' r;
          owns =
              handle_completed_request-Owns none_held _ none_held _ s e o'
                (found-due handle s.found hit) r;
        })

module _ (m : RequestManager) (task : Task) (rest : List Task) (e : m.strand ≡ task ∷ rest)
    (i : Inv m) where
  taken-Capacity : Capacity (one_if (is_wakeup task)) (taken m rest)
  taken-Capacity = record {
    limit = i.capacity.limit;
    wake =
        omega
          (arith, i.capacity.wake, ap (count_by is_wakeup) e, count_by-cons is_wakeup task rest);
    sorted = i.capacity.sorted;
  }

  taken-IsWellFormed : IsNewTask task × IsWellFormed (taken m rest)
  taken-IsWellFormed =
      let tasks = rw e at i.well.tasks in
      (tasks.0, record { nodes = i.well.nodes; tasks = tasks.1 })

  taken-Owns :
      (held : ℕ → ℕ)
      → ((a : ℕ) → one_if (completes a task) ≡ held a)
      → Owns held held (taken m rest)
  taken-Owns held h = record {
    one_place = λ a. omega (arith, h a, i.owns.one_place a, counts a);
    unborn = λ a new. omega (arith, h a, i.owns.unborn a new, counts a);
    matched = λ a. omega (arith, h a, i.owns.matched a, counts a);
  }
    where
      counts :
          (a : ℕ)
          → count_by (completes a) m.strand
            ≡ one_if (completes a task) + count_by (completes a) rest
      counts a = omega (arith, ap (count_by (completes a)) e, count_by-cons (completes a) task rest)

run_task-Inv :
    (cast : Bytes → Option ℕ) (m n : RequestManager) (task : Task) (rest : List Task)
    → m.strand ≡ task ∷ rest
    → Inv m
    → run_task cast (taken m rest) task ≡ returned n
    → Inv n
unfolding run_task
run_task-Inv cast m n (execute_request_task r) rest e i h =
    let (new, w) = taken-IsWellFormed m _ rest e i in
    let o = taken-Owns m _ rest e i none_held (λ a. refl) in
    subst Inv (returned-injective h) (record {
      capacity =
          execute_request-Capacity (taken m rest) r (IsNew-idle m.next_id r new)
            (taken-Capacity m _ rest e i);
      well = execute_request-IsWellFormed (taken m rest) r new w;
      owns = execute_request-Owns (taken m rest) r new w o;
    })
run_task-Inv cast m n (cancel_requests_task token) rest e i h =
    subst Inv (returned-injective h) (record {
      capacity = cancel_requests-Capacity 0 (taken m rest) token (taken-Capacity m _ rest e i);
      well = cancel_requests-IsWellFormed (taken m rest) token (taken-IsWellFormed m _ rest e i).1;
      owns =
          cancel_requests-Owns (taken m rest) token (taken-Owns m _ rest e i none_held (λ a. refl));
    })
run_task-Inv cast m n (on_request_completed_task result handle ec) rest e i h =
    on_request_completed-Inv cast (taken m rest) n result handle ec (taken-Capacity m _ rest e i)
      (taken-IsWellFormed m _ rest e i).1 (taken-Owns m _ rest e i _ (λ a. refl)) h
run_task-Inv cast m n execute_waiting_requests_task rest e i h =
    let w = (taken-IsWellFormed m _ rest e i).1 in
    let o = taken-Owns m _ rest e i none_held (λ a. refl) in
    subst Inv (returned-injective h) (record {
      capacity = execute_waiting_requests-Capacity (taken m rest) (taken-Capacity m _ rest e i);
      well = execute_waiting_requests-IsWellFormed (taken m rest) w;
      owns = execute_waiting_requests-Owns (taken m rest) w o;
    })

Step-Inv : (cast : Bytes → Option ℕ) {m n : RequestManager} → Step cast m n → Inv m → Inv n
unfolding request_data
Step-Inv cast (submit m request handler executor token now) i =
    post-Inv m _ refl (λ a. refl) (record { state = refl; unconnected = refl; untried = refl }) i
Step-Inv cast (cancel m token) i = post-Inv m _ refl (λ a. refl) tt i
Step-Inv cast (complete m before after handle result ec e) i =
    complete-Inv m before after handle result ec e i
Step-Inv cast (run m n task rest e h) i = run_task-Inv cast m n task rest e i h

-- Every state that the manager reaches is within its limits, well formed, and owns its connections.
pub Reach-Inv :
    (cast : Bytes → Option ℕ) (settings : HttpClientSettings) {m : RequestManager}
    → Reach cast settings m
    → Inv m
Reach-Inv cast settings start = request_manager-Inv settings
Reach-Inv cast settings (later r s) = Step-Inv cast s (Reach-Inv cast settings r)
