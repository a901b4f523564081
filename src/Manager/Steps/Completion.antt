-- ===== src/Manager/Steps/Completion.antt =====
-- The ways in which `execute_waiting_requests` and `on_request_completed` can return, for every
-- statement about their results.
use asio_http.Base.{
  returned-injective, ℕ, ◌<◌, false, not, ◌&&◌, List, [], ◌∷◌, count_by, Option, none, some, ltb,
  Bytes, ◌≡◌, refl, arith, inl, inr, Bool-cases, Option-cases, returned, >>=-eq-returned,
}
use mathlib.Core.Path.{subst}
use asio_http.Errors.{ErrorCode, is_error}
use asio_http.ErrorHandling.{process_errors}
use asio_http.Pool.{HttpStack, release_connection}
use asio_http.Request.{HttpRequest, HttpResultData}
use asio_http.Manager.Requests.{Node, Split, is_active, find_node, find_connection}
use asio_http.Manager.{
  RequestManager, create_request_result, handle_completed_request, retry, complete_split,
  on_request_completed, start, execute_first, execute_waiting_requests, cancel_split,
  cancel_request, cancel_each,
}

module _ {κ} (P : RequestManager → Type κ) (m : RequestManager) where
  execute_first_cases :
      (nodes : List Node)
      → m.requests ≡ nodes
      → P m
      → ((first : Node) (others : List Node)
          → m.requests ≡ first ∷ others
          → is_active first ≡ false
          → count_by is_active m.requests < m.settings.max_parallel_requests
          → P (start m first others))
      → P (execute_first m nodes)
  unfolding execute_first
  execute_first_cases [] e stay go = stay
  execute_first_cases (first ∷ others) e stay go =
      let room = ltb (count_by is_active m.requests) m.settings.max_parallel_requests in
      elim (Bool-cases (room && not (is_active first))) [
        | inl starts ↦ rw starts (go first others e (ground arith) (ground arith))
        | inr waits ↦ rw waits stay
      ]

  -- The first request is started, or nothing changes.
  pub execute_waiting_requests_cases :
      P m
      → ((first : Node) (others : List Node)
          → m.requests ≡ first ∷ others
          → is_active first ≡ false
          → count_by is_active m.requests < m.settings.max_parallel_requests
          → P (start m first others))
      → P (execute_waiting_requests m)
  unfolding execute_waiting_requests
  execute_waiting_requests_cases = execute_first_cases m.requests refl

module _ {κ} (P : RequestManager → Type κ) where
  -- What holds of a manager from which a node's request was cancelled, if it holds before and
  -- after each call, holds after all of them.
  pub cancel_each_cases :
      ((m : RequestManager) (s : Split) (n : Node)
        → find_node n.id m.requests ≡ some s
        → P m
        → P (cancel_split m s))
      → (m : RequestManager) (ns : List Node) → P m
      → P (cancel_each m ns)
  unfolding cancel_each cancel_request
  cancel_each_cases keep m [] h = h
  cancel_each_cases keep m (n ∷ ns) h =
      cancel_each_cases keep (cancel_request m n) ns
        (cancel_request_cases m n h (λ s found. keep m s n found h))
    where
      cancel_request_cases :
          (m : RequestManager) (n : Node)
          → P m
          → ((s : Split) → find_node n.id m.requests ≡ some s → P (cancel_split m s))
          → P (cancel_request m n)
      cancel_request_cases m n h k = elim (Option-cases (find_node n.id m.requests)) [
        | inl gone ↦ rw (gone, cancel_request) h
        | inr (s, found) ↦ rw (found, cancel_request) (k s found)
      ]

abbrev pub released : RequestManager → HttpStack → ErrorCode → RequestManager
released m handle ec = record m {
  connection_pool = release_connection m.connection_pool handle (is_error ec);
}

module _ {κ} (cast : Bytes → Option ℕ) (m : RequestManager) (result : HttpResultData)
    (handle : HttpStack) (ec : ErrorCode) (P : RequestManager → Type κ) where
  complete_split_cases :
      (s : Split) (n : RequestManager)
      → ((new : Option HttpRequest)
          → (s.found.retries < m.settings.max_attempts)
          → P (retry (released m handle ec) s new))
      → P (handle_completed_request (released m handle ec) s (create_request_result result ec))
      → complete_split cast (released m handle ec) s result ec ≡ returned n
      → P n
  unfolding complete_split
  complete_split_cases s n again final e =
      let (decision, decided, rest) = >>=-eq-returned (process_errors cast ec result) _ e in
      elim (Bool-cases (decision.0 && ltb s.found.retries m.settings.max_attempts)) [
        | inl more ↦
            subst P (returned-injective (rw more at rest)) (again decision.1 (ground arith))
        | inr done ↦ subst P (returned-injective (rw done at rest)) final
      ]

  -- The request of the handle is not there, is tried again or is completed.
  pub on_request_completed_cases :
      (n : RequestManager)
      → (find_connection handle m.requests ≡ none → P (released m handle ec))
      → ((s : Split) (new : Option HttpRequest)
          → find_connection handle m.requests ≡ some s
          → (s.found.retries < m.settings.max_attempts)
          → P (retry (released m handle ec) s new))
      → ((s : Split)
          → find_connection handle m.requests ≡ some s
          → P (handle_completed_request (released m handle ec) s (create_request_result result ec)))
      → on_request_completed cast m result handle ec ≡ returned n
      → P n
  unfolding on_request_completed
  on_request_completed_cases n missing again final e =
      elim (Option-cases (find_connection handle m.requests)) [
        | inl gone ↦
            subst P (returned-injective (rw (gone, on_request_completed) at e)) (missing gone)
        | inr (s, found) ↦
            complete_split_cases s n (λ new. again s new found) (final s found)
              (rw (found, on_request_completed) at e)
      ]
