-- ===== src/System.antt =====
-- The manager together with its connections: what implementation/request_manager.cpp has a connection do
-- is posted to the strand of that connection, and what a connection calls back is posted to the
-- strand of the manager.
pub mod Handover
pub mod Reactions
pub mod Refinement
mod Tests
use asio_http.Base.{
  ℕ, ◌+◌, Bool, true, false, Option, none, some, List, [], ◌∷◌, ◌++◌, ◌==◌, if◌then◌else◌, Bytes,
  drop, length, ◌≡◌, Outcome, returned,
}
use asio_http.Errors.{ErrorCode}
use asio_http.Pool.{HttpStack, HostAndPort, tcp}
use asio_http.Request.{HttpRequest, HttpResultData, HttpClientSettings}
use asio_http.Compression.{Zlib}
use asio_http.Manager.{
  RequestManager, Task, execute_request_task, cancel_requests_task, on_request_completed_task,
  Effect, invoke_handler, start_async, cancel_async, request_manager, post, run_task,
}
use asio_http.Manager.Requests.{request_data}
use asio_http.Stack.{Stack, HttpParser, Call, callback}
use asio_http.Stack.Start.{Event, new_stack, started, cancelled, react}
use asio_http.Stack.Kept.{IsReady}

-- What the manager posts to the strand of a connection.
pub data Posted : Type 0 where
  start_posted : HttpRequest → Posted
  cancel_posted : Posted

abbrev pub is_start_posted : Posted → Bool
is_start_posted (start_posted request) = true
is_start_posted cancel_posted = false

-- The event that it is there, on the connection of this address. The callback holds the handle of the
-- connection, and is named by the address.
abbrev pub event : ℕ → Posted → Event
event address (start_posted request) = started request address
event address cancel_posted = cancelled

-- What comes from the socket or the timer.
abbrev pub is_outside : Event → Bool
is_outside (started request k) = false
is_outside cancelled = false
is_outside _ = true

abbrev pub update {ℓ} : {A : Type ℓ} → ℕ → A → (ℕ → A) → ℕ → A
update address value f other = if other == address then value else f other

-- The manager, and by its address each connection, with what is posted to it and not yet executed, and
-- the handle that the callback it was last given has captured.
pub record System (P : Type 0) : Type 0 where
  pub manager : RequestManager
  pub stacks : ℕ → Stack P
  pub mailboxes : ℕ → List Posted
  pub handles : ℕ → HttpStack

module _ {P : Type 0} where
  abbrev pub post_to : ℕ → Posted → System P → System P
  post_to address p s = record s {
    mailboxes = update address (s.mailboxes address ++ (p ∷ [])) s.mailboxes;
  }

  -- `start_async` and `cancel_async` of http_content.h post to the strand of their connection. The callback
  -- that goes with a start has captured the handle.
  unfoldable pub hand_out : List Effect → System P → System P
  hand_out [] s = s
  hand_out (invoke_handler handler executor result ∷ effects) s = hand_out effects s
  hand_out (start_async handle request ∷ effects) s = hand_out effects (
      post_to handle.address (start_posted request)
        (record s { handles = update handle.address handle s.handles }))
  hand_out (cancel_async handle ∷ effects) s =
      hand_out effects (post_to handle.address cancel_posted s)

-- `on_request_completed_async` of the manager, which its callback calls with the handle that it captured.
unfoldable pub on_request_completed_async :
    HttpResultData → HttpStack → ErrorCode → RequestManager → RequestManager
on_request_completed_async result handle ec m = post m (on_request_completed_task result handle ec)

-- The connections of a list but for the first with an address.
unfoldable pub without : ℕ → List HttpStack → List HttpStack
without address [] = []
without address (handle ∷ running) =
    let others = without address running in
    if handle.address == address then running else handle ∷ others

-- The callbacks among the calls of a connection, of which each calls `on_request_completed_async` with the
-- captured handle. The list `running` of the manager, which no code looks at, then has the connection
-- once less.
unfoldable pub call_back : ℕ → HttpStack → List Call → RequestManager → RequestManager
unfolding on_request_completed_async without
call_back address handle [] m = m
call_back address handle (callback k result ec ∷ calls) m =
    call_back address handle calls (
      on_request_completed_async result handle ec
        (record m { running = without address m.running }))
call_back address handle (_ ∷ calls) m = call_back address handle calls m

module _ {P : Type 0} where
  -- A connection has reacted to an event, and made the calls in its log.
  unfoldable pub hand_back : ℕ → Stack P → System P → System P
  unfolding call_back
  hand_back address t s = record s {
    manager = call_back address (s.handles address) t.log s.manager;
    stacks = update address t s.stacks;
  }

  -- A connection before it reacts: its log is kept for one event.
  abbrev pub cleared : Stack P → Stack P
  cleared s = record s { log = [] }

module _ (cast : Bytes → Option ℕ) (z : Zlib) (h : HttpParser) where
  pub data Step : System (h.State) → System (h.State) → Type 0 where
    -- `execute_request_async`
    submit :
        (s : System (h.State)) (request : HttpRequest) (handler executor : ℕ) (token : Bytes)
        (now : ℕ)
        → Step s (record s {
          manager =
              post s.manager
                (execute_request_task (request_data request handler executor token now));
        })
    -- `cancel_requests_async`
    cancel :
        (s : System (h.State)) (token : Bytes)
        → Step s (record s { manager = post s.manager (cancel_requests_task token) })
    -- the manager executes the task in front of its strand, and its new effects are handed out
    run :
        (s : System (h.State)) (n : RequestManager) (task : Task) (rest : List Task)
        → s.manager.strand ≡ task ∷ rest
        → run_task cast (record (s.manager) { strand = rest }) task ≡ returned n
        → Step s (hand_out (drop (length s.manager.effects) n.effects) (record s { manager = n }))
    -- a connection executes what was posted to it first
    deliver :
        (s : System (h.State)) (address : ℕ) (p : Posted) (rest : List Posted) (t : Stack (h.State))
        → s.mailboxes address ≡ p ∷ rest
        → react z h (event address p) (cleared (s.stacks address)) ≡ returned t
        → Step s (hand_back address t (record s { mailboxes = update address rest s.mailboxes }))
    -- the socket or the timer of a connection that was started completes
    outside :
        (s : System (h.State)) (address : ℕ) (e : Event) (t : Stack (h.State))
        → is_outside e ≡ true
        → IsReady (s.stacks address)
        → react z h e (cleared (s.stacks address)) ≡ returned t
        → Step s (hand_back address t s)

  -- `hosts` tells for which host the connection of an address is made, and `garbage` what its status
  -- code is before it is set.
  abbrev pub system :
      HttpClientSettings → (hosts : ℕ → HostAndPort) (garbage : ℕ → ℕ) → System (h.State)
  system settings hosts garbage = record {
    manager = request_manager settings;
    stacks = λ address. new_stack h (garbage address) (hosts address);
    mailboxes = λ address. [];
    handles =
        λ address. record { address = address; host_and_port = hosts address; transport = tcp };
  }

  pub data Reach (settings : HttpClientSettings) : System (h.State) → Type 0 where
    start :
        (hosts : ℕ → HostAndPort) (garbage : ℕ → ℕ) → Reach settings (system settings hosts garbage)
    later : {s t : System (h.State)} → Reach settings s → Step s t → Reach settings t
