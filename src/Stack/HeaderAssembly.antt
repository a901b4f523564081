-- ===== src/Stack/HeaderAssembly.antt =====
-- That the headers of a response do not depend on the pieces in which the parser hands them over, with
-- on_header_field, on_header_value and on_headers_complete of http_client_connection.h.
use asio_http.Base.{
  ℕ, ◌≡◌, ◌∙◌, refl, ap, inl, inr, Bool, true, false, List, [], ◌∷◌, ◌++◌, Bytes, if◌then◌else◌,
  All, map, Outcome, returned, thrown, ◌>>=◌,
}
use asio_http.Headers.{HeaderList}
use asio_http.Compression.{Zlib}
use asio_http.Stack.{
  Stack, RequestBuffers, ParserEvent, on_status, on_body, on_message_complete, on_header_field,
  on_header_value, on_headers_complete, Parse, called,
}
use asio_http.Stack.Encoding
use asio_http.Stack.Connection.{
  push_current_header, headers_complete, call_back, run_parser, with_buffers, is_head,
}
use asio_http.Stack.Pieces.{
  Pieces, IsHandedOver, field_events, value_events, header_events, entry, after, at, Settled,
  headers-Settled,
}

-- A parser that calls back for each of a list of events, whatever it is answered.
abbrev pub parse_events : {P : Type 0} → List ParserEvent → Parse P → Parse P
parse_events [] p = p
parse_events (e ∷ es) p = called e (λ _. parse_events es p)

abbrev is_header : ParserEvent → Bool
is_header (on_header_field x) = true
is_header (on_header_value x) = true
is_header _ = false

All-append :
    (es fs : List ParserEvent)
    → All (λ e. is_header e ≡ true) es
    → All (λ e. is_header e ≡ true) fs
    → All (λ e. is_header e ≡ true) (es ++ fs)
All-append [] fs h k = k
All-append (e ∷ es) fs (f, h) k = (f, All-append es fs h k)

field_events-All : (xs : List Bytes) → All (λ e. is_header e ≡ true) (field_events xs)
field_events-All [] = tt
field_events-All (x ∷ xs) = (refl, field_events-All xs)

value_events-All : (xs : List Bytes) → All (λ e. is_header e ≡ true) (value_events xs)
value_events-All [] = tt
value_events-All (x ∷ xs) = (refl, value_events-All xs)

header_events-All : (ps : List Pieces) → All (λ e. is_header e ≡ true) (header_events ps)
header_events-All [] = tt
header_events-All (p ∷ ps) =
    All-append (field_events p.name) _ (field_events-All p.name)
      (All-append (value_events p.value) _ (value_events-All p.value) (header_events-All ps))

run_parser-after :
    {P : Type 0} (z : Zlib) (es : List ParserEvent) (p : Parse P) (s : Stack P)
    → All (λ e. is_header e ≡ true) es
    → run_parser z (parse_events es p) s
      ≡ run_parser z p (with_buffers (after es s.connection.current_request) s)
unfolding run_parser call_back
run_parser-after z [] p s h = refl
run_parser-after z (on_header_field x ∷ es) p s (_, h) = run_parser-after z es p _ h
run_parser-after z (on_header_value x ∷ es) p s (_, h) = run_parser-after z es p _ h
run_parser-after z (on_status x ∷ es) p s (f, h) = cc
run_parser-after z (on_body x ∷ es) p s (f, h) = cc
run_parser-after z (on_headers_complete x ∷ es) p s (f, h) = cc
run_parser-after z (on_message_complete x ∷ es) p s (f, h) = cc

headers_complete-Settled :
    {P : Type 0} (z : Zlib) (status_code : ℕ) (s : Stack P) (b t : RequestBuffers)
    (all : HeaderList)
    → Settled b all t
    → headers_complete z status_code (with_buffers t s) ≡ (
        Encoding.on_headers status_code all (with_buffers (at b all [] []) s) >>= λ u.
        returned (if is_head b.http_method then 1 else 0, u))
unfolding headers_complete push_current_header
headers_complete-Settled z status_code s b t all (inl e) = rw e refl
headers_complete-Settled z status_code s b t all (inr (headers, name, value, full, _, e, whole)) =
    rw (e, full, whole) refl

>>=-pair :
    {A B C : Type 0} (m : Outcome A) (c : B) (k : B × A → Outcome C)
    → ((m >>= λ a. returned (c, a)) >>= k) ≡ (m >>= λ a. k (c, a))
>>=-pair (returned a) c k = refl
>>=-pair (thrown e) c k = refl

-- When the parser hands over the headers of a response in any pieces, none of them empty but for a
-- value that is empty as a whole, to a request whose current header is empty, and then ends the
-- headers, the layer above gets all the headers in order, each with its whole name and its whole value
-- without blanks at the end, and the parser goes on with 1, no body, for a HEAD request and 0
-- otherwise.
pub run_parser-headers :
    {P : Type 0} (z : Zlib) (ps : List Pieces) (status_code : ℕ) (resume : ℕ → Parse P)
    (s : Stack P)
    → s.connection.current_request.current_header ≡ ([], [])
    → All IsHandedOver ps
    → run_parser z
        (parse_events (header_events ps) (called (on_headers_complete status_code) resume))
        s
      ≡ (Encoding.on_headers status_code (s.connection.current_request.headers ++ map entry ps) (
            with_buffers
              (record (s.connection.current_request) {
                headers = s.connection.current_request.headers ++ map entry ps;
                current_header = ([], []);
              })
              s)
          >>= λ t.
              run_parser z
                (resume (if is_head s.connection.current_request.http_method then 1 else 0))
                t)
unfolding run_parser call_back
run_parser-headers z ps status_code resume s fresh handed =
    let b = s.connection.current_request in
    let (t, settled, reaches) =
      headers-Settled b b b.headers ps (inl (ap (λ c. record b { current_header = c }) fresh))
        handed in
    run_parser-after z (header_events ps) (called (on_headers_complete status_code) resume) s
      (header_events-All ps)
    ∙ (ap
          (λ u. headers_complete z status_code (with_buffers u s) >>= λ r.
            run_parser z (resume r.0) r.1)
          reaches
        ∙ (ap (λ m. m >>= λ r. run_parser z (resume r.0) r.1)
              (headers_complete-Settled z status_code s b t (b.headers ++ map entry ps) settled)
            ∙ >>=-pair
                (Encoding.on_headers status_code (b.headers ++ map entry ps)
                  (with_buffers (at b (b.headers ++ map entry ps) [] []) s))
                (if is_head b.http_method then 1 else 0) (λ r. run_parser z (resume r.0) r.1)))
