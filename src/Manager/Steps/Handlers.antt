-- ===== src/Manager/Steps/Handlers.antt =====
-- Every request that is submitted has its handler called once, and no handler is called otherwise.
use mathlib.Core.Path.{subst}
use asio_http.Base.{
  returned-injective, ℕ, ◌+◌, Bool, false, [], ◌∷◌, ◌==◌, Option, List, Bytes, ◌≡◌, refl, ap, ◌∙◌,
  arith, inl, inr, Option-cases, count_by, count_by-append, count_by-cons, count_by-nil,
  count_by-post, one_if, returned,
}
use asio_http.Errors.{operation_aborted}
use asio_http.Pool.{get_connection}
use asio_http.Request.{HttpRequest, HttpClientSettings}
use asio_http.Manager.Requests.{Node, request_data, Split}
use asio_http.Manager.Requests.Places.{
  whole, count_by-insert_node, count_by-relocate, count_by-whole, find_split_lem,
}
use asio_http.Manager.{
  Task, execute_request_task, cancel_requests_task, on_request_completed_task,
  execute_waiting_requests_task, RequestManager, HttpRequestResult, Effect, invoke_handler,
  start_async, cancel_async, error_result, request_manager, start, execute_waiting_requests,
  execute_request, handle_completed_request, cancel_split, cancel_requests, cancelled_nodes, retry,
  run_task,
}
use asio_http.Manager.Steps.{Step, submit, cancel, complete, run, Reach, start as initially, later}
use asio_http.Manager.Steps.Capacity.{started}
use asio_http.Manager.Steps.Completion.{
  execute_waiting_requests_cases, cancel_each_cases, on_request_completed_cases, released,
}
use asio_http.Manager.Steps.WellFormed.{inserted}

module _ (handler : ℕ) where
  abbrev pub names : Node → Bool
  names n = n.completion_handler == handler

  abbrev pub asks : Task → Bool
  asks (execute_request_task r) = r.completion_handler == handler
  asks _ = false

  abbrev pub invokes : Effect → Bool
  invokes (invoke_handler h executor result) = h == handler
  invokes _ = false

  -- The requests with this handler that are on their way to the manager or kept by it, and the
  -- calls of the handler.
  abbrev pub total : RequestManager → ℕ
  total m = count_by names m.requests + (count_by asks m.strand + count_by invokes m.effects)

  start-total :
      (m : RequestManager) (first : Node) (others : List Node)
      → m.requests ≡ first ∷ others
      → total (start m first others) ≡ total m
  unfolding start
  start-total m first others e =
      let got =
        get_connection m.connection_pool first.http_request.url first.http_request.certificates in
      omega (
        arith,
        ap (count_by names) e,
        count_by-cons names first others,
        count_by-nil names,
        count_by-relocate names [] (started got.0 first) others,
        count_by-post invokes m.effects (start_async got.0 first.http_request),
      )

  execute_waiting_requests-total :
      (m : RequestManager) → total (execute_waiting_requests m) ≡ total m
  execute_waiting_requests-total m =
      execute_waiting_requests_cases (λ n. total n ≡ total m) m refl
        (λ first others e _ _. start-total m first others e)

  handle_completed_request-total :
      (m : RequestManager) (s : Split) (r : HttpRequestResult)
      → m.requests ≡ whole s
      → total (handle_completed_request m s r) ≡ total m
  unfolding handle_completed_request
  handle_completed_request-total m s r e = omega (
    arith,
    ap (count_by names) e,
    count_by-whole names s,
    count_by-append names s.before s.after,
    count_by-post asks m.strand execute_waiting_requests_task,
    count_by-post invokes m.effects
        (invoke_handler s.found.completion_handler s.found.completion_executor r),
  )

  retry-total :
      (m : RequestManager) (s : Split) (new : Option HttpRequest)
      → m.requests ≡ whole s
      → total (retry m s new) ≡ total m
  unfolding retry
  retry-total m s new e = omega (
    arith,
    ap (count_by names) e,
    count_by-whole names s,
    count_by-relocate names s.before _ s.after,
    count_by-post asks m.strand execute_waiting_requests_task,
  )

  cancel_split-total :
      (m : RequestManager) (s : Split) → m.requests ≡ whole s → total (cancel_split m s) ≡ total m
  unfolding cancel_split
  cancel_split-total m s e = elim (Option-cases s.found.connection) [
    | inl idle ↦
        rw (idle, cancel_split)
          (handle_completed_request-total m s (error_result operation_aborted) e)
    | inr (h, running) ↦
        rw (running, cancel_split) (omega (arith, count_by-post invokes m.effects (cancel_async h)))
  ]

  run_task-total :
      (cast : Bytes → Option ℕ) (m n : RequestManager) (task : Task)
      → run_task cast m task ≡ returned n
      → total n ≡ total m + one_if (asks task)
  unfolding run_task execute_request cancel_requests
  run_task-total cast m n (execute_request_task r) h =
      subst (λ n. total n ≡ total m + one_if (asks (execute_request_task r))) (returned-injective h)
        (omega (
          arith,
          execute_waiting_requests-total (inserted m r),
          count_by-insert_node names (record { id = m.next_id; request = r }) m.requests,
        ))
  run_task-total cast m n (cancel_requests_task token) h =
      subst (λ n. total n ≡ total m + 0) (returned-injective h)
        (omega (
          arith,
          cancel_each_cases (λ k. total k ≡ total m)
              (λ k s _ found same.
                cancel_split-total k s (find_split_lem _ k.requests s found).0 ∙ same)
              m (cancelled_nodes token m.requests) refl,
        ))
  run_task-total cast m n (on_request_completed_task result handle ec) h =
      on_request_completed_cases cast m result handle ec (λ k. total k ≡ total m + 0) n
        (λ _. omega arith)
        (λ s new found _.
          omega (
            arith,
            retry-total (released m handle ec) s new (find_split_lem _ m.requests s found).0,
          ))
        (λ s found. omega (
          arith,
          handle_completed_request-total (released m handle ec) s _
              (find_split_lem _ m.requests s found).0,
        ))
        h
  run_task-total cast m n execute_waiting_requests_task h =
      subst (λ n. total n ≡ total m + 0) (returned-injective h)
        (omega (arith, execute_waiting_requests-total m))

  -- The submissions with this handler in a step, and in a history.
  abbrev pub submitted_in : {cast : Bytes → Option ℕ} {m n : RequestManager} → Step cast m n → ℕ
  submitted_in (submit m request h executor token now) = one_if (h == handler)
  submitted_in (cancel m token) = 0
  submitted_in (complete m before after handle result ec e) = 0
  submitted_in (run m n task rest e h) = 0

  unfoldable pub submissions :
      {cast : Bytes → Option ℕ} {settings : HttpClientSettings} {m : RequestManager}
      → Reach cast settings m
      → ℕ
  submissions initially = 0
  submissions (later r s) = submissions r + submitted_in s

  Step-total :
      {cast : Bytes → Option ℕ} {m n : RequestManager} (s : Step cast m n)
      → total n ≡ total m + submitted_in s
  unfolding request_data
  Step-total (submit m request h executor token now) = ground (
    arith,
    count_by-post asks m.strand (execute_request_task (request_data request h executor token now)),
  )
  Step-total (cancel m token) =
      ground (arith, count_by-post asks m.strand (cancel_requests_task token))
  Step-total (complete m before after handle result ec e) =
      ground (arith, count_by-post asks m.strand (on_request_completed_task result handle ec))
  Step-total {cast} (run m n task rest e h) =
      omega
        (arith, run_task-total cast _ n task h, ap (count_by asks) e, count_by-cons asks task rest)

  -- In every history, as many requests were submitted with a handler as it has been called, plus
  -- those of its requests that are on their way to the manager or kept by it.
  pub submissions-total :
      {cast : Bytes → Option ℕ} {settings : HttpClientSettings} {m : RequestManager}
      (r : Reach cast settings m)
      → submissions r
        ≡ count_by invokes m.effects + (count_by asks m.strand + count_by names m.requests)
  unfolding submissions request_manager count_by
  submissions-total initially = refl
  submissions-total (later r s) = omega (arith, submissions-total r, Step-total s)
