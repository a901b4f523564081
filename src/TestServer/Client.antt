-- ===== src/TestServer/Client.antt =====
-- test_server.h: the state of a `web_client`, and what it reads from a request.
pub mod Resources
use asio_http.Base.{
  crlf, ℕ, zero, suc, ◌+◌, ◌-◌, ◌*◌, ◌%◌, ◌^◌, Bool, true, false, Option, none, some, List, [], ◌∷◌,
  ◌++◌, ltb, leb, ◌==◌, ◌&&◌, ◌||◌, if◌then◌else◌, Bytes, codes, str_eq, is_empty, length, take,
  drop, Outcome, returned, thrown, ◌>>=◌, null_dereference, out_of_bounds,
}
use mathlib.Core.Option
use asio_http.TestServer.Search.{mystrnstr, find_string_ic, search, same_case}
use asio_http.TestServer.Resource.{decode}

-- What a client asks of its socket and its timer. A write is of the whole write buffer.
pub data Asked : Type 0 where
  reading writing closed timer_set timer_cancelled : Asked

-- `wire` are the bytes that the socket took.
pub record WebClient : Type 0 where
  pub request_buffer : Bytes
  pub response_buffer : Bytes
  pub output_buffer : Bytes
  pub write_buffer : Bytes
  pub http_head : Bytes
  pub header_size : ℕ
  pub content_size : ℕ
  pub requested_range : ℕ
  pub headers : List (Bytes × Bytes)
  pub can_close : Bool
  pub close_connection : Bool
  pub asked : List Asked
  pub wire : Bytes

abbrev pub web_client : WebClient
web_client = record {
  request_buffer = [];
  response_buffer = [];
  output_buffer = [];
  write_buffer = [];
  http_head = [];
  header_size = 0;
  content_size = 0;
  requested_range = 0;
  headers = [];
  can_close = false;
  close_connection = false;
  asked = [];
  wire = [];
}

abbrev pub ask : Asked → WebClient → WebClient
ask a c = record c { asked = c.asked ++ (a ∷ []) }

-- The place of a pointer into memory.
abbrev pub offset : (memory pointer : Bytes) → ℕ
offset memory pointer = length memory - length pointer

-- `m_headers.find`
unfoldable pub find_entry : List (Bytes × Bytes) → Bytes → Option Bytes
find_entry [] name = none
find_entry ((key, value) ∷ entries) name =
    if str_eq key name then some value else find_entry entries name

-- The value after the name of a header: from `it_begin + header.length()` to `it_end`.
unfoldable pub value_of : (found header : Bytes) → Bytes
unfolding search
value_of found header =
    let it_end = search same_case found crlf in
    take (length found - length it_end - length header) (drop (length header) found)

-- A header that is not kept yet is looked for in the head, and kept if it is there.
unfoldable pub fetch_header : Bytes → WebClient → Bytes × WebClient
unfolding find_string_ic value_of
fetch_header name c =
    let header = name ++ codes ": " in
    let it_begin = find_string_ic c.http_head header in
    let value = value_of it_begin header in
    if is_empty it_begin then ([], c) else (value, record c { headers = (name, value) ∷ c.headers })

unfoldable pub get_header : Bytes → WebClient → Bytes × WebClient
unfolding find_entry fetch_header
get_header name c = elim (find_entry c.headers name) [
  | some value ↦ (value, c)
  | none ↦ fetch_header name c
]

-- `strstr` for one blank: the text in front of it, up to a byte 0.
unfoldable pub before_blank : (memory : Bytes) → Outcome (Option Bytes)
before_blank [] = thrown out_of_bounds
before_blank (c ∷ memory) =
    let further = before_blank memory in
    if c == 32
    then returned (some [])
    else if c == 0
    then returned none
    else further >>= λ text. returned (Option.map (◌∷◌ c) text)

-- Where the path ends: a null `tmp2`, or one behind `tmp3`, gives way to `tmp3`.
abbrev pub path_end : (tmp2 : Option Bytes) → (tmp3 : Bytes) → Bytes
path_end none tmp3 = tmp3
path_end (some tmp2) tmp3 = if ltb (length tmp2) (length tmp3) then tmp3 else tmp2

-- The text between two pointers, if the second is not null.
abbrev pub between : (tmp1 : Bytes) → (tmp2 tmp3 : Option Bytes) → Option Bytes
between tmp1 tmp2 none = none
between tmp1 tmp2 (some tmp3) = some (take (length tmp1 - length (path_end tmp2 tmp3)) tmp1)

abbrev pub decode_or_empty : ℕ → Option Bytes → Bytes
decode_or_empty ii none = []
decode_or_empty ii (some src) = decode 0 ii src

-- From `tmp1` on the source looks in `size - (begin - tmp1)` bytes, which is the size and the offset
-- of `tmp1`. A null `tmp1` is dereferenced.
unfoldable pub resource_text : (size : ℕ) → (memory : Bytes) → Option Bytes → Outcome (Option Bytes)
resource_text size memory none = thrown null_dereference
resource_text size memory (some tmp1) =
    let len = (size + offset memory tmp1) % 2 ^ 64 in
    mystrnstr tmp1 (codes "?") len >>= λ tmp2.
    mystrnstr tmp1 (codes " HTTP") len >>= λ tmp3. returned (between tmp1 tmp2 tmp3)

-- What lies in memory behind the request buffer is `beyond`.
module _ (beyond : Bytes) where
  unfoldable pub get_method : WebClient → Outcome Bytes
  unfolding before_blank
  get_method c = before_blank (c.request_buffer ++ beyond) >>= λ found.
      returned (elim found [ none ↦ [] | some text ↦ text ])

  -- `ii` is the value of the variable that is not initialised.
  unfoldable pub get_request_resource : (ii : ℕ) → WebClient → Outcome Bytes
  unfolding resource_text mystrnstr decode
  get_request_resource ii c =
      mystrnstr (c.request_buffer ++ beyond) (codes "/") (length c.request_buffer) >>= λ tmp1.
      resource_text (length c.request_buffer) (c.request_buffer ++ beyond) tmp1 >>= λ src.
      returned (decode_or_empty ii src)

  unfoldable pub get_post_data : WebClient → Outcome Bytes
  unfolding mystrnstr
  get_post_data c =
      mystrnstr (c.request_buffer ++ beyond) (crlf ++ crlf) (length c.request_buffer) >>= λ begin.
      elim begin [
        | none ↦ thrown null_dereference
        | some begin ↦
            let start = offset (c.request_buffer ++ beyond) begin + 4 in
            if ltb (length c.request_buffer) start
            then thrown out_of_bounds
            else returned (drop start c.request_buffer)
      ]
