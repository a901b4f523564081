-- ===== src/Stack/Tests.antt =====
-- One exchange on a connection, with a parser that takes each piece of input for a whole response.
use asio_http.Base.{
  ℕ, suc, ◌+◌, ◌≡◌, ◌⊎◌, inl, inr, refl, true, false, none, some, List, [], ◌∷◌, ◌++◌, map, codes,
  length, returned, ◌>>=◌, if◌then◌else◌,
}
use asio_http.Request.{post}
use asio_http.Errors.{success}
use asio_http.Compression.Samples.{copying}
use asio_http.Body.{DataSource}
use asio_http.Body.Chunks.{concat, left}
use asio_http.Stack.{Stack, Parse, called, finished, on_headers_complete, empty_result, read, write}
use asio_http.Stack.Samples.{taking, home, request}
use asio_http.Stack.Encoding
use asio_http.Stack.Connection.{new_buffers, run_parser, with_buffers, is_head}
use asio_http.Stack.Start.{Event, started, connected, written, received, cancelled, react_all}
use asio_http.Stack.Kept.{callbacks, is_some}
use asio_http.Stack.Callbacks.{react_all-once}
use asio_http.Stack.Pieces.{Pieces, header_events, entry}
use asio_http.Stack.HeaderAssembly.{parse_events, run_parser-headers}
use asio_http.Stack.Writing.{chunks, write_all, write_all-body}

abbrev source : DataSource
source = record {
  stream = record { content = codes "abc"; position = 0; is_good = true };
  size = 3;
  encoding_headers = [];
}

abbrev fresh : Stack ℕ
fresh = record {
  content = record {
    request = none;
    completed_request_callback = none;
    result = empty_result;
    body_sink = none;
    body_source = some source;
    host = (codes "a", 80);
  };
  connection = record {
    current_request = new_buffers post [] home;
    parser = 0;
    not_reusable = false;
  };
  is_open = false;
  log = [];
}

abbrev exchange : List Event
exchange =
    connected success true
    ∷ (written success ∷ (written success ∷ (received (codes "x") success ∷ (cancelled ∷ []))))

react_all-once_example :
    (t : Stack ℕ) × (react_all copying taking (started request 7 ∷ exchange) fresh ≡ returned t)
    × (((t.content.completed_request_callback ≡ none) × (callbacks t ≡ callbacks fresh + 1))
        ⊎ ((is_some t.content.completed_request_callback ≡ true) × (callbacks t ≡ callbacks fresh)))
react_all-once_example =
    react_all-once copying taking request 7 exchange fresh
      (refl, (refl, (refl, (refl, (refl, tt)))))

abbrev pieces : List Pieces
pieces =
    record { name = codes "Ho" ∷ (codes "st" ∷ []); value = codes "a" ∷ (codes "b " ∷ []) }
    ∷ (record { name = codes "X" ∷ []; value = [] ∷ [] } ∷ [])

abbrev all_parsed : ℕ → Parse ℕ
all_parsed code = finished code 0

run_parser-headers_example :
    run_parser copying
      (parse_events (header_events pieces) (called (on_headers_complete 200) all_parsed))
      fresh
    ≡ (Encoding.on_headers 200 (map entry pieces) (
          with_buffers
            (record (new_buffers post [] home) {
              headers = map entry pieces;
              current_header = ([], []);
            })
            fresh)
        >>= λ t. run_parser copying (all_parsed (if is_head post then 1 else 0)) t)
run_parser-headers_example =
    run_parser-headers copying pieces 200 all_parsed fresh refl (
      (refl, (refl, (refl, tt)), inr (refl, (refl, (refl, tt)))),
      ((refl, (refl, tt), inl refl), tt),
    )

write_all-body_example :
    ((t : Stack ℕ) × (write_all copying (suc (length (chunks source))) fresh ≡ returned t)
      × (t.log ≡ map write (chunks source) ++ (read ∷ [])))
    × (concat (chunks source) ≡ left source)
write_all-body_example = write_all-body copying fresh source refl
