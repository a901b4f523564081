-- ===== src/Socket/Tests.antt =====
-- Three endpoints, of which the second accepts.
use asio_http.Base.{
  arith, ℕ, ◌≡◌, ◌+◌, true, codes, count_by, returned, List, some, [], ◌∷◌, ◌==◌, if◌then◌else◌,
}
use asio_http.Errors.{ErrorCode, success, eof}
use asio_http.Socket.{on_connected, connect_handler, ssl_connect_handler, connect_all}
use asio_http.Socket.Device.{
  SocketEvent, connect_called, write_called, completes, Socket, happen_all, generic_stream,
}
use asio_http.Socket.Kinds.{Kind, answers, awaits, asks}
use asio_http.Socket.Answers.{happen_all-answers}
use asio_http.Socket.Attempts.{Tries, ssl_outcome, connect_all-Tries_each}

abbrev attempt : ℕ → ErrorCode
attempt n = if n == 2 then success else eof

abbrev others : List ℕ
others = 2 ∷ (3 ∷ [])

connect_all-Tries_each_example :
    ((tried : List ℕ) × (ec : ErrorCode) × Tries attempt (1 ∷ others) tried ec
      × (connect_all connect_handler attempt 3 1 others ≡ some (tried, on_connected ec)))
    × ((tried : List ℕ) × (ec : ErrorCode) × Tries attempt (1 ∷ others) tried ec
        × (connect_all ssl_connect_handler attempt 3 1 others ≡ some (tried, ssl_outcome ec)))
connect_all-Tries_each_example = connect_all-Tries_each attempt 1 others

-- A tls socket connects at its second endpoint, shakes hands and writes.
abbrev history : List (SocketEvent ℕ)
history =
    connect_called (codes "a") (codes "443")
    ∷ completes 0 success (1 ∷ others) []
    ∷ completes 0 eof others []
    ∷ completes 0 success others []
    ∷ completes 0 success others []
    ∷ write_called (codes "x")
    ∷ []

happen_all-answers_example :
    (t : Socket ℕ) × (happen_all true history generic_stream ≡ returned t)
    × ((k : Kind)
        → count_by (answers k) t.told + count_by (awaits k) t.pending ≡ count_by (asks k) history)
happen_all-answers_example = happen_all-answers true history (ground arith)
