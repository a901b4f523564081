-- ===== src/TestServer/Handlers/Kept.antt =====
-- The headers that a client keeps from one request to the next.
use asio_http.Base.{
  returned-injective, ℕ, ◌≡◌, ◌≢◌, refl, ap, sym, ◌∙◌, inl, inr, true, false, none, some, [], ◌++◌,
  Bytes, codes, is_empty, ◌==◌, arith, str_eq_refl, Bool-cases, Option-cases, Outcome, returned,
  ◌>>=◌, >>=-eq-returned,
}
use asio_http.TestServer.Client.{WebClient, get_header, find_entry, fetch_header}
use asio_http.TestServer.Search.{find_string_ic}
use asio_http.TestServer.Reply.{client_data_cleanup}
use asio_http.TestServer.Handlers.{note_content_size, stol}

get_header_kept :
    (name value : Bytes) (e : WebClient)
    → find_entry e.headers name ≡ some value
    → get_header name e ≡ (value, e)
unfolding get_header
get_header_kept name value e there = rw (get_header, there) refl

get_header_fetched :
    (name : Bytes) (e : WebClient)
    → find_entry e.headers name ≡ none
    → get_header name e ≡ fetch_header name e
unfolding get_header
get_header_fetched name e missing = rw (get_header, missing) refl

nothing_fetched :
    (name : Bytes) (c : WebClient)
    → is_empty (find_string_ic c.http_head (name ++ codes ": ")) ≡ true
    → fetch_header name c ≡ ([], c)
unfolding fetch_header
nothing_fetched name c nowhere = rw nowhere refl

not_found_clash :
    {A : Type 0} (name : Bytes) (c : WebClient)
    → is_empty (find_string_ic c.http_head (name ++ codes ": ")) ≡ true
    → is_empty (fetch_header name c).0 ≡ false
    → A
not_found_clash name c nowhere some_value =
    let e : true ≡ false =
      sym (ap (λ p. is_empty p.0) (nothing_fetched name c nowhere)) ∙ some_value in
    cc

fetch_header-find_entry :
    (name : Bytes) (c : WebClient)
    → is_empty (fetch_header name c).0 ≡ false
    → find_entry (fetch_header name c).1.headers name ≡ some (fetch_header name c).0
unfolding fetch_header find_entry
fetch_header-find_entry name c some_value =
    elim (Bool-cases (is_empty (find_string_ic c.http_head (name ++ codes ": ")))) [
      | inl nowhere ↦ not_found_clash name c nowhere some_value
      | inr there ↦ rw (there, str_eq_refl name) refl
    ]

-- A value that is not empty stands in the map afterwards.
get_header-find_entry :
    (name : Bytes) (c : WebClient)
    → is_empty (get_header name c).0 ≡ false
    → find_entry (get_header name c).1.headers name ≡ some (get_header name c).0
get_header-find_entry name c = elim (Option-cases (find_entry c.headers name)) [
  | inl missing ↦ rw (get_header_fetched name c missing) (fetch_header-find_entry name c)
  | inr (value, there) ↦ rw (get_header_kept name value c there) (λ e. there)
]

-- Looking for a header changes only the map.
get_header-content_size :
    (name : Bytes) (c : WebClient) → (get_header name c).1.content_size ≡ c.content_size
unfolding get_header fetch_header
get_header-content_size name c = elim (Option-cases (find_entry c.headers name)) [
  | inl missing ↦ elim (Bool-cases (is_empty (find_string_ic c.http_head (name ++ codes ": ")))) [
    | inl nowhere ↦ rw (get_header_fetched name c missing, nothing_fetched name c nowhere) refl
    | inr there ↦ rw (get_header_fetched name c missing, fetch_header, there) refl
  ]
  | inr (value, there) ↦ rw (get_header_kept name value c there) refl
]

abbrev length_name : Bytes
length_name = codes "Content-Length"

abbrev parsed : Bytes → WebClient → Outcome WebClient
parsed value after = stol value >>= λ size. returned (record after { content_size = size })

zero_size : (n : ℕ) → n ≡ 0 → (n == 0) ≡ true
zero_size n e = ground (arith, e)

note_empty :
    (c : WebClient)
    → c.content_size ≡ 0
    → is_empty (get_header length_name c).0 ≡ true
    → note_content_size c ≡ returned (get_header length_name c).1
unfolding note_content_size
note_empty c none_yet nothing = rw (zero_size c.content_size none_yet, nothing) refl

note_parsed :
    (c : WebClient)
    → c.content_size ≡ 0
    → is_empty (get_header length_name c).0 ≡ false
    → note_content_size c ≡ parsed (get_header length_name c).0 (get_header length_name c).1
unfolding note_content_size
note_parsed c none_yet some_value = rw (zero_size c.content_size none_yet, some_value) refl

-- Once a request had a Content-Length that is not 0, every later request of the connection is given the
-- same size: a client that was cleaned up keeps the header, whatever the head of the new request says.
pub note_content_size-kept :
    (c d e : WebClient)
    → c.content_size ≡ 0
    → note_content_size c ≡ returned d
    → d.content_size ≢ 0
    → e.headers ≡ (client_data_cleanup d).headers
    → e.content_size ≡ 0
    → note_content_size e ≡ returned (record e { content_size = d.content_size })
unfolding client_data_cleanup
note_content_size-kept c d e none_yet noted sized kept none_now =
    let found = get_header length_name c in
    elim (Bool-cases (is_empty found.0)) [
      | inl nothing ↦
          let same = returned-injective (sym (note_empty c none_yet nothing) ∙ noted) in
          elim (sized (
            sym (ap (λ (w : WebClient). w.content_size) same)
            ∙ (get_header-content_size length_name c ∙ none_yet))) [ ]
      | inr some_value ↦
          let (size, value, made) =
            >>=-eq-returned (stol found.0) (λ n. returned (record (found.1) { content_size = n }))
              (sym (note_parsed c none_yet some_value) ∙ noted) in
          let same = returned-injective made in
          let there =
            ap (λ h. find_entry h length_name) (kept ∙ sym (ap (λ (w : WebClient). w.headers) same))
            ∙ get_header-find_entry length_name c some_value in
          let again = get_header_kept length_name found.0 e there in
          note_parsed e none_now (ap (λ p. is_empty p.0) again ∙ some_value)
          ∙ (ap (λ p. parsed p.0 p.1) again
              ∙ (ap (λ (o : Outcome ℕ). o >>= λ n. returned (record e { content_size = n })) value
                  ∙ ap (λ (w : WebClient). returned (record e { content_size = w.content_size }))
                      same))
    ]
