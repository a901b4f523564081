-- ===== src/Manager/Requests.antt =====
-- internal/request_data.h and the container of internal/request_manager.h, a multi_index_container
-- with three ordered indices. Its nodes are kept in the order of index_state; index_connection and
-- index_cancellation are computed from them.
pub mod Order
pub mod Places
pub mod Tokens
use asio_http.Base.{
  ℕ, ◌+◌, Bool, true, false, not, ◌&&◌, ◌||◌, List, [], ◌∷◌, ◌++◌, map, Option, none, some, ltb,
  leb, ◌==◌, if◌then◌else◌, Bytes, str_eq, is_empty, count_by,
}
use asio_http.Request.{HttpRequest}
use asio_http.Pool.{HttpStack}

pub data RequestState : Type 0 where
  waiting_retry waiting in_progress : RequestState

-- The values of the enumeration.
unfoldable pub rank : RequestState → ℕ
rank waiting_retry = 0
rank waiting = 1
rank in_progress = 2

-- Handlers and executors are named by numbers.
pub record RequestData : Type 0 where
  pub request_state : RequestState
  pub connection : Option HttpStack
  pub http_request : HttpRequest
  pub completion_handler : ℕ
  pub completion_executor : ℕ
  pub cancellation_token : Bytes
  pub creation_time : ℕ
  pub retries : ℕ

-- The constructor; the last argument is the value of the clock.
unfoldable pub request_data : HttpRequest → ℕ → ℕ → Bytes → ℕ → RequestData
request_data request handler executor token now = record {
  request_state = waiting;
  connection = none;
  http_request = request;
  completion_handler = handler;
  completion_executor = executor;
  cancellation_token = token;
  creation_time = now;
  retries = 0;
}

-- A node of the container; iterators point to it, whatever its place. Identities grow, so they
-- also order the nodes by their insertion.
pub record Node : Type 0 where
  pub id : ℕ
  pub request : RequestData
  pub open request use *

unfoldable pub is_active : Node → Bool
is_active n = rank n.request_state == 2

-- The composite key of index_state: state, then creation time.
unfoldable pub key_le : Node → Node → Bool
key_le a b =
    let ra = rank a.request_state in
    let rb = rank b.request_state in ltb ra rb || (ra == rb && leb a.creation_time b.creation_time)

-- `insert` puts a node behind those with an equal key.
unfoldable pub insert_node : Node → List Node → List Node
insert_node x [] = x ∷ []
insert_node x (y ∷ ys) = if key_le y x then y ∷ insert_node x ys else x ∷ y ∷ ys

abbrev pub last_le : List Node → Node → Bool
last_le [] x = true
last_le (y ∷ []) x = key_le y x
last_le (y ∷ z ∷ ys) x = last_le (z ∷ ys) x

abbrev pub le_head : Node → List Node → Bool
le_head x [] = true
le_head x (y ∷ ys) = key_le x y

-- `modify`: a node whose new key still fits between its neighbours stays there, and else it is
-- taken out and inserted again.
unfoldable pub relocate : List Node → Node → List Node → List Node
relocate before x after =
    if last_le before x && le_head x after
    then before ++ (x ∷ after)
    else insert_node x (before ++ after)

-- A place in the container.
pub record Split : Type 0 where
  pub before : List Node
  pub found : Node
  pub after : List Node

-- The first node that passes the test.
unfoldable pub find_split : (Node → Bool) → List Node → Option Split
find_split p [] = none
find_split p (x ∷ xs) =
    if p x
    then some (record { before = []; found = x; after = xs })
    else elim (find_split p xs) [ none ↦ none | some s ↦ some (record s { before = x ∷ s.before }) ]

abbrev pub is_at : ℕ → Option HttpStack → Bool
is_at address none = false
is_at address (some s) = s.address == address

-- `m_connection == handle`: handles are compared by the address of their stack.
abbrev pub has_connection : ℕ → Node → Bool
has_connection address n = is_at address n.connection

-- `find` in index_connection.
abbrev pub find_connection : HttpStack → List Node → Option Split
find_connection handle = find_split (has_connection handle.address)

-- The node an iterator points to.
abbrev pub find_node : ℕ → List Node → Option Split
find_node id = find_split λ n. n.id == id

-- `operator<` of std::string.
unfoldable pub token_lt : Bytes → Bytes → Bool
token_lt [] [] = false
token_lt [] (y ∷ b) = true
token_lt (x ∷ a) [] = false
token_lt (x ∷ a) (y ∷ b) = ltb x y || (x == y && token_lt a b)

-- The order of index_cancellation.
abbrev pub token_before : Node → Node → Bool
token_before a b =
    token_lt a.cancellation_token b.cancellation_token
    || (str_eq a.cancellation_token b.cancellation_token && ltb a.id b.id)

unfoldable pub insert_by_token : Node → List Node → List Node
insert_by_token x [] = x ∷ []
insert_by_token x (y ∷ ys) = if token_before x y then x ∷ y ∷ ys else y ∷ insert_by_token x ys

-- index_cancellation, from its begin to its end.
unfoldable pub by_token : List Node → List Node
by_token [] = []
by_token (x ∷ xs) = insert_by_token x (by_token xs)

-- The nodes from the iterator of `find(token)` on, to the end of index_cancellation.
unfoldable pub from_token : Bytes → List Node → List Node
from_token token [] = []
from_token token (x ∷ xs) =
    if str_eq x.cancellation_token token then x ∷ xs else from_token token xs
