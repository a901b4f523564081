-- ===== src/TestServer/Tests.antt =====
-- A request that was read, its resource, and the reply to it.
use asio_http.Base.{
  ℕ, zero, suc, ◌≡◌, ◌≢◌, refl, Bool, List, [], ◌∷◌, Bytes, codes, returned, arith, ◌==◌, str_eq,
}
use asio_http.TestServer.Search.{
  mystrnstr, starts_with, search, find_string_ic, same_letter, toupper,
}
use asio_http.TestServer.Search.First.{Finds, mystrnstr-Finds}
use asio_http.TestServer.Resource.{decode, is_space}
use asio_http.TestServer.Resource.RoundTrip.{percent_encode, decode-percent_encode}
use asio_http.TestServer.Client.{
  WebClient, web_client, get_request_resource, get_header, fetch_header, value_of, find_entry,
}
use asio_http.TestServer.Client.Resources.{get_request_resource-path}
use asio_http.TestServer.Reply.{client_data_cleanup}
use asio_http.TestServer.Handlers.{note_content_size, stol, stol_digits, digits_value}
use asio_http.TestServer.Handlers.Kept.{note_content_size-kept}

abbrev text : Bytes
text = codes "abcabd"

mystrnstr-Finds_example : Finds 4 (codes "abd") text (mystrnstr text (codes "abd") 6)
mystrnstr-Finds_example =
    mystrnstr-Finds text (codes "abd") 6 (omega arith) (omega arith) (omega arith) (omega arith)

abbrev letters_only : ℕ → Bool
letters_only c = c == b'a'

decode-percent_encode_example :
    decode 0 7 (percent_encode letters_only (codes "a b%")) ≡ codes "a b%"
decode-percent_encode_example =
    decode-percent_encode letters_only (codes "a b%") 7 refl (omega arith)

-- A request without a question mark, and four bytes behind the buffer.
abbrev asking : WebClient
asking = record web_client { request_buffer = codes "GET /a%20b HTTP/1.1" }

-- The same request with a query needs no memory behind the buffer.
abbrev asking_more : WebClient
asking_more = record web_client { request_buffer = codes "GET /a%20b?q=1 HTTP/1.1" }

resource_of_query : get_request_resource [] 0 asking_more ≡ returned (codes "/a b")
unfolding decode
resource_of_query =
    get_request_resource-path asking_more (codes "GET ") (codes "a%20b") (codes "?q=1")
      (codes "/1.1") [] 0 refl (ground arith) (ground arith) refl (ground arith) (omega arith)

abbrev replying : WebClient
replying = record web_client { response_buffer = codes "some body" }

abbrev ones : ℕ → List ℕ
ones zero = []
ones (suc n) = 0 ∷ ones n

abbrev many : List ℕ
many = ones 7200

-- Two requests of one connection: the second has a body of five bytes.
abbrev first_head : WebClient
first_head = record web_client { http_head = codes "Content-Length: 3" }

abbrev sized : WebClient
sized = record first_head { headers = (codes "Content-Length", codes "3") ∷ []; content_size = 3 }

abbrev second_head : WebClient
second_head = record web_client {
  headers = (codes "Content-Length", codes "3") ∷ [];
  http_head = codes "Content-Length: 5";
}

first_noted : note_content_size first_head ≡ returned sized
unfolding note_content_size get_header fetch_header value_of find_entry find_string_ic search
    starts_with same_letter toupper stol stol_digits digits_value is_space str_eq
first_noted = refl

not_zero : sized.content_size ≢ 0
not_zero e = omega (arith, e)

note_content_size-kept_example :
    note_content_size second_head ≡ returned (record second_head { content_size = 3 })
unfolding client_data_cleanup
note_content_size-kept_example =
    note_content_size-kept first_head sized second_head refl first_noted not_zero refl refl
