-- ===== src/Manager/Steps/Settings.antt =====
-- No step changes the settings.
use mathlib.Core.Path.{subst}
use asio_http.Base.{
  returned-injective, ℕ, Option, Bytes, ◌≡◌, refl, inl, inr, Option-cases, returned,
}
use asio_http.Request.{HttpClientSettings}
use asio_http.Manager.Requests.{Split}
use asio_http.Manager.{
  Task, execute_request_task, cancel_requests_task, on_request_completed_task,
  execute_waiting_requests_task, RequestManager, request_manager, start, execute_waiting_requests,
  execute_request, handle_completed_request, cancel_split, cancel_requests, cancelled_nodes, retry,
  run_task,
}
use asio_http.Manager.Steps.{Step, submit, cancel, complete, run, Reach, start as initially, later}
use asio_http.Manager.Steps.Completion.{
  execute_waiting_requests_cases, cancel_each_cases, on_request_completed_cases,
}

module _ (settings : HttpClientSettings) where
  abbrev Keeps : RequestManager → Type 0
  Keeps m = m.settings ≡ settings

  execute_waiting_requests-Keeps :
      (m : RequestManager) → Keeps m → Keeps (execute_waiting_requests m)
  unfolding start
  execute_waiting_requests-Keeps m k = execute_waiting_requests_cases Keeps m k (λ _ _ _ _ _. k)

  cancel_split-Keeps : (m : RequestManager) (s : Split) → Keeps m → Keeps (cancel_split m s)
  unfolding cancel_split handle_completed_request
  cancel_split-Keeps m s k = elim (Option-cases s.found.connection) [
    | inl idle ↦ rw (idle, cancel_split) k
    | inr (h, running) ↦ rw (running, cancel_split) k
  ]

  run_task-Keeps :
      (cast : Bytes → Option ℕ) (m n : RequestManager) (task : Task)
      → Keeps m
      → run_task cast m task ≡ returned n
      → Keeps n
  unfolding run_task execute_request cancel_requests handle_completed_request retry
  run_task-Keeps cast m n (execute_request_task r) k h =
      subst Keeps (returned-injective h) (execute_waiting_requests-Keeps _ k)
  run_task-Keeps cast m n (cancel_requests_task token) k h = subst Keeps (returned-injective h) (
      cancel_each_cases Keeps (λ m s _ _ k. cancel_split-Keeps m s k) m
        (cancelled_nodes token m.requests) k)
  run_task-Keeps cast m n (on_request_completed_task result handle ec) k h =
      on_request_completed_cases cast m result handle ec Keeps n (λ _. k) (λ _ _ _ _. k) (λ _ _. k)
        h
  run_task-Keeps cast m n execute_waiting_requests_task k h =
      subst Keeps (returned-injective h) (execute_waiting_requests-Keeps m k)

  Step-Keeps : (cast : Bytes → Option ℕ) {m n : RequestManager} → Step cast m n → Keeps m → Keeps n
  Step-Keeps cast (submit m _ _ _ _ _) k = k
  Step-Keeps cast (cancel m token) k = k
  Step-Keeps cast (complete m _ _ _ _ _ _) k = k
  Step-Keeps cast (run m n task rest e h) k = run_task-Keeps cast _ n task k h

  pub Reach-settings :
      (cast : Bytes → Option ℕ) {m : RequestManager} → Reach cast settings m → m.settings ≡ settings
  unfolding request_manager
  Reach-settings cast initially = refl
  Reach-settings cast (later r s) = Step-Keeps cast s (Reach-settings cast r)
