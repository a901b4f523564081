-- ===== src/Manager/Steps/Effects.antt =====
-- What a task adds to the effects of the manager, and that the connections it starts are those it
-- waits for.
use mathlib.Core.Path.{subst}
use asio_http.Base.{
  returned-injective, ℕ, ◌+◌, Bool, false, List, [], ◌∷◌, ◌++◌, ◌==◌, Option, Bytes, ◌≡◌, refl, ap,
  sym, ◌∙◌, arith, inl, inr, Option-cases, append-nil, append_assoc, count_by, count_by-append,
  count_by-cons, count_by-nil, one_if, returned,
}
use asio_http.Errors.{operation_aborted}
use asio_http.Pool.{HttpStack, get_connection}
use asio_http.Pool.Ownership.{holds}
use asio_http.Manager.Requests.{Node, Split}
use asio_http.Manager.{
  Task, execute_request_task, cancel_requests_task, on_request_completed_task,
  execute_waiting_requests_task, RequestManager, Effect, invoke_handler, start_async, cancel_async,
  start, execute_waiting_requests, execute_request, handle_completed_request, cancel_split,
  cancel_requests, cancelled_nodes, retry, run_task, emit, error_result,
}
use asio_http.Manager.Steps.Completion.{
  execute_waiting_requests_cases, cancel_each_cases, on_request_completed_cases,
}
use asio_http.Manager.Steps.WellFormed.{inserted}

-- The effect starts the connection of this address.
abbrev pub starts : ℕ → Effect → Bool
starts address (start_async handle request) = handle.address == address
starts address _ = false

-- The connections that effects start, the last first.
abbrev pub started_by : List Effect → List HttpStack
started_by [] = []
started_by (start_async handle request ∷ effects) = started_by effects ++ (handle ∷ [])
started_by (invoke_handler handler executor result ∷ effects) = started_by effects
started_by (cancel_async handle ∷ effects) = started_by effects

started_by-append :
    (new more : List Effect) → started_by (new ++ more) ≡ started_by more ++ started_by new
started_by-append [] more = sym (append-nil (started_by more))
started_by-append (start_async handle request ∷ new) more =
    ap (λ l. l ++ (handle ∷ [])) (started_by-append new more)
    ∙ append_assoc (started_by more) (started_by new) (handle ∷ [])
started_by-append (invoke_handler handler executor result ∷ new) more = started_by-append new more
started_by-append (cancel_async handle ∷ new) more = started_by-append new more

-- From `m` to `n` some effects were added, and the connections they start are now waited for.
pub record Grown (m n : RequestManager) : Type 0 where
  pub new : List Effect
  pub appended : n.effects ≡ m.effects ++ new
  pub waited : (a : ℕ) → holds a n.running ≡ holds a m.running + count_by (starts a) new
  pub added : n.running ≡ started_by new ++ m.running

Grown-same : (m n : RequestManager) → n.effects ≡ m.effects → n.running ≡ m.running → Grown m n
Grown-same m n e r = record {
  new = [];
  appended = e ∙ sym (append-nil m.effects);
  waited = λ a. omega (arith, ap (holds a) r, count_by-nil (starts a));
  added = r;
}

Grown-more : (m k n : RequestManager) → Grown m k → Grown k n → Grown m n
Grown-more m k n g f = record {
  new = g.new ++ f.new;
  appended = f.appended ∙ (ap (λ x. x ++ f.new) g.appended ∙ append_assoc m.effects g.new f.new);
  waited = λ a. omega (arith, g.waited a, f.waited a, count_by-append (starts a) g.new f.new);
  added =
      f.added
      ∙ (ap (λ l. started_by f.new ++ l) g.added
          ∙ (sym (append_assoc (started_by f.new) (started_by g.new) m.running)
              ∙ ap (λ l. l ++ m.running) (sym (started_by-append g.new f.new))));
}

start-Grown :
    (m : RequestManager) (first : Node) (others : List Node) → Grown m (start m first others)
unfolding start
start-Grown m first others =
    let got =
      get_connection m.connection_pool first.http_request.url first.http_request.certificates in
    record {
      new = start_async got.0 first.http_request ∷ [];
      appended = refl;
      waited = λ a. omega (
        arith,
        count_by-cons (λ (s : HttpStack). s.address == a) got.0 m.running,
        count_by-cons (starts a) (start_async got.0 first.http_request) [],
        count_by-nil (starts a),
      );
      added = refl;
    }

execute_waiting_requests-Grown : (m : RequestManager) → Grown m (execute_waiting_requests m)
execute_waiting_requests-Grown m =
    execute_waiting_requests_cases (Grown m) m (Grown-same m m refl refl)
      (λ first others _ _ _. start-Grown m first others)

-- One effect that starts nothing.
Grown-quiet :
    (m n : RequestManager) (effect : Effect)
    → ((a : ℕ) → starts a effect ≡ false)
    → started_by (effect ∷ []) ≡ []
    → n.effects ≡ m.effects ++ (effect ∷ [])
    → n.running ≡ m.running
    → Grown m n
Grown-quiet m n effect quiet nothing e r = record {
  new = effect ∷ [];
  appended = e;
  waited = λ a. omega (
    arith,
    ap (holds a) r,
    ap one_if (quiet a),
    count_by-cons (starts a) effect [],
    count_by-nil (starts a),
  );
  added = r ∙ ap (λ l. l ++ m.running) (sym nothing);
}

cancel_split-Grown : (m : RequestManager) (s : Split) → Grown m (cancel_split m s)
unfolding cancel_split handle_completed_request
cancel_split-Grown m s = elim (Option-cases s.found.connection) [
  | inl idle ↦
      rw (cancel_split, idle)
        (Grown-quiet m (handle_completed_request m s (error_result operation_aborted)) _ (λ a. refl)
          refl refl refl)
  | inr (h, running) ↦
      rw (cancel_split, running)
        (Grown-quiet m (emit m (cancel_async h)) (cancel_async h) (λ a. refl) refl refl refl)
]

pub run_task-Grown :
    (cast : Bytes → Option ℕ) (m n : RequestManager) (task : Task)
    → run_task cast m task ≡ returned n
    → Grown m n
unfolding run_task execute_request cancel_requests retry handle_completed_request
run_task-Grown cast m n (execute_request_task r) h = subst (Grown m) (returned-injective h) (
    Grown-more m (inserted m r) _ (Grown-same m _ refl refl)
      (execute_waiting_requests-Grown (inserted m r)))
run_task-Grown cast m n (cancel_requests_task token) h = subst (Grown m) (returned-injective h) (
    cancel_each_cases (Grown m)
      (λ k s _ found grown. Grown-more m k _ grown (cancel_split-Grown k s)) m
      (cancelled_nodes token m.requests) (Grown-same m m refl refl))
run_task-Grown cast m n (on_request_completed_task result handle ec) h =
    on_request_completed_cases cast m result handle ec (Grown m) n (λ _. Grown-same m _ refl refl)
      (λ s new found _. Grown-same m _ refl refl)
      (λ s found.
        Grown-quiet m _ (invoke_handler s.found.completion_handler s.found.completion_executor _)
          (λ a. refl) refl refl refl)
      h
run_task-Grown cast m n execute_waiting_requests_task h =
    subst (Grown m) (returned-injective h) (execute_waiting_requests-Grown m)
