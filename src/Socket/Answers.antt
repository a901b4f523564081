-- ===== src/Socket/Answers.antt =====
-- That the layer above is told once of each call it makes of a socket.
use asio_http.Base.{
  returned-injective, ℕ, zero, suc, ◌+◌, ◌≡◌, refl, ap, sym, ◌∙◌, inl, inr, Bool, true, false,
  Option, none, some, List, [], ◌∷◌, Bytes, is_empty, All, count_by, count_by-post, count_by-cons,
  count_by-nil, one_if, Outcome, returned, arith, Bool-cases, Option-cases, ◌>>=◌,
}
use asio_http.Errors.{ErrorCode, is_error}
use asio_http.Socket.{
  Action, on_connected, async_connect, async_handshake, resolve_handler, handshake_handler,
}
use asio_http.Socket.Device.{
  Socket, generic_stream, Pending, resolving, connecting, handshaking, writing, reading, Told,
  told_connected, told_written, told_read, SocketEvent, connect_called, write_called, read_called,
  close_called, completes, pend, tell, connect, write, read, close, act, write_handler,
  read_handler, handle_pending, pick, behind_first, handle_picked, happen, happen_all,
}
use asio_http.Socket.Kinds.{
  Kind, connects, asks, awaits, answers, IsDocumented, is_connects, same_told, same_handshake,
  same_attempt, same_resolution, same_write, same_read, asks-completes, asks_close, asks_connect,
  asks_write, asks_read,
}

behind_first-some :
    {E : Type 0} (x o : Pending E) (others : List (Pending E))
    (p : Option (Pending E × List (Pending E)))
    → behind_first x p ≡ some (o, others)
    → (left : List (Pending E)) × (p ≡ some (o, left)) × (others ≡ x ∷ left)
behind_first-some x o others none e = cc
behind_first-some x o others (some (found, left)) e = (left, cc, cc)

module _ {E : Type 0} (k : Kind) where
  abbrev pub balance : Socket E → ℕ
  balance s = count_by (answers k) s.told + count_by (awaits k) s.pending

  balance-pend :
      (o : Pending E) (s : Socket E) → balance (pend o s) ≡ balance s + one_if (awaits k o)
  balance-pend o s = omega (arith, count_by-post (awaits k) s.pending o)

  balance-tell : (t : Told) (s : Socket E) → balance (tell t s) ≡ balance s + one_if (answers k t)
  balance-tell t s = omega (arith, count_by-post (answers k) s.told t)

  pick-awaits :
      (place : ℕ) (pending others : List (Pending E)) (o : Pending E)
      → pick place pending ≡ some (o, others)
      → count_by (awaits k) pending ≡ one_if (awaits k o) + count_by (awaits k) others
  unfolding pick
  pick-awaits place [] others o e = cc
  pick-awaits zero (x ∷ pending) others o e = ground (arith, e, count_by-cons (awaits k) x pending)
  pick-awaits (suc place) (x ∷ pending) others o e =
      let (left, picked, rest) = behind_first-some x o others (pick place pending) e in
      omega (
        arith,
        pick-awaits place pending left o picked,
        ap (count_by (awaits k)) rest,
        count_by-cons (awaits k) x pending,
        count_by-cons (awaits k) x left,
      )

  -- Whatever a handler of a connection does last, the call is answered or awaited.
  act-balance :
      (a : Action E) (s : Socket E) → balance (act a s) ≡ balance s + one_if (is_connects k)
  unfolding act
  act-balance (on_connected ec) s =
      omega (arith, balance-tell (told_connected ec) s, ap one_if (same_told k ec))
  act-balance (async_connect ep it) s =
      omega (arith, balance-pend (connecting it) s, ap one_if (same_attempt k it))
  act-balance async_handshake s =
      omega (arith, balance-pend handshaking s, ap one_if (same_handshake E k))

  -- That a call returns a socket with one answer or pending operation more for an operation.
  abbrev Answered : Bool → Socket E → Outcome (Socket E) → Type 0
  Answered more s o = (t : Socket E) × (o ≡ returned t) × (balance t ≡ balance s + one_if more)

  resolve_handler-Answered :
      (ec : ErrorCode) (it : List E) (s : Socket E)
      → (is_empty it ≡ true → is_error ec ≡ true)
      → Answered (is_connects k) s (resolve_handler ec it >>= λ a. returned (act a s))
  unfolding resolve_handler
  resolve_handler-Answered ec [] s documented =
      rw (documented refl) (_, refl, act-balance (on_connected ec) s)
  resolve_handler-Answered ec (ep ∷ it) s documented = elim (Bool-cases (is_error ec)) [
    | inl failed ↦ rw failed (_, refl, act-balance (on_connected ec) s)
    | inr found ↦ rw found (_, refl, act-balance (async_connect ep it) s)
  ]

  handle_pending-Answered :
      (ssl : Bool) (o : Pending E) (ec : ErrorCode) (it : List E) (bytes : Bytes) (s : Socket E)
      → (is_empty it ≡ true → is_error ec ≡ true)
      → Answered (awaits k o) s (handle_pending ssl o ec it bytes s)
  unfolding handle_pending write_handler read_handler
  handle_pending-Answered ssl (resolving host port) ec it bytes s documented =
      rw (same_resolution E k host port) (resolve_handler-Answered ec it s documented)
  handle_pending-Answered ssl (connecting left) ec it bytes s documented =
      rw (same_attempt k left) (_, refl, act-balance _ s)
  handle_pending-Answered ssl handshaking ec it bytes s documented =
      rw (same_handshake E k) (_, refl, act-balance (handshake_handler ec) s)
  handle_pending-Answered ssl writing ec it bytes s documented = (
    _,
    refl,
    balance-tell (told_written ec) s ∙ ap (λ b. balance s + one_if b) (same_write E k ec),
  )
  handle_pending-Answered ssl reading ec it bytes s documented = (
    _,
    refl,
    balance-tell (told_read _ ec) s ∙ ap (λ b. balance s + one_if b) (same_read E k ec _),
  )

  completes-Answered :
      (ssl : Bool) (place : ℕ) (ec : ErrorCode) (it : List E) (bytes : Bytes) (s : Socket E)
      → (is_empty it ≡ true → is_error ec ≡ true)
      → Answered false s (handle_picked ssl (pick place s.pending) ec it bytes s)
  completes-Answered ssl place ec it bytes s documented =
      elim (Option-cases (pick place s.pending)) [
        | inl nothing ↦ rw nothing (s, refl, omega arith)
        | inr ((o, others), picked) ↦
            let (t, returns, more) =
              handle_pending-Answered ssl o ec it bytes (record s { pending = others })
                documented in
            rw picked (t, returns, omega (arith, more, pick-awaits place s.pending others o picked))
      ]

  close-balance : (s : Socket E) → balance (close s) ≡ balance s
  unfolding close
  close-balance s = elim (Bool-cases s.is_open) [
    | inl opened ↦ rw opened refl
    | inr shut ↦ rw shut refl
  ]

  happen-Answered :
      (ssl : Bool) (e : SocketEvent E) (s : Socket E)
      → IsDocumented e
      → Answered (asks k e) s (happen ssl e s)
  unfolding happen connect write read
  happen-Answered ssl (connect_called host port) s documented =
      rw (asks_connect E k host port) (_, refl, balance-pend (resolving host port) s)
  happen-Answered ssl (write_called bytes) s documented =
      rw (asks_write E k bytes) (_, refl, balance-pend writing (record s { write_buffer = bytes }))
  happen-Answered ssl read_called s documented =
      rw (asks_read E k) (_, refl, balance-pend reading s)
  happen-Answered ssl close_called s documented =
      rw (asks_close E k) (_, refl, omega (arith, close-balance s))
  happen-Answered ssl (completes place ec it bytes) s documented =
      rw (asks-completes k place ec it bytes)
        (completes-Answered ssl place ec it bytes s documented)

happen_all-balance :
    {E : Type 0} (ssl : Bool) (events : List (SocketEvent E)) (s : Socket E)
    → All IsDocumented events
    → (t : Socket E) × (happen_all ssl events s ≡ returned t)
      × ((k : Kind) → balance k t ≡ balance k s + count_by (asks k) events)
unfolding happen_all
happen_all-balance ssl [] s documented = (s, refl, λ k. omega (arith, count_by-nil (asks k)))
happen_all-balance ssl (e ∷ events) s (documented, others) =
    let (t, returns, more) = happen-Answered connects ssl e s documented in
    let (u, end, counts) = happen_all-balance ssl events t others in
    (
      u,
      rw returns end,
      λ k.
          let (t2, returns2, more2) = happen-Answered k ssl e s documented in
          omega (
            arith,
            counts k,
            more2,
            ap (balance k) (returned-injective (sym returns2 ∙ returns)),
            count_by-cons (asks k) e events,
          ),
    )

-- Whatever the layer above calls of a new socket and asio completes, in any order and with any errors, as long
-- as a resolver that succeeds has found an endpoint, no handler fails; and the calls to connect, to
-- write and to read are each as many as the answers to the layer above and the operations still
-- pending for such a call together, of a plain and of a tls socket.
pub happen_all-answers :
    {E : Type 0} (ssl : Bool) (events : List (SocketEvent E))
    → All IsDocumented events
    → (t : Socket E) × (happen_all ssl events generic_stream ≡ returned t)
      × ((k : Kind)
          → count_by (answers k) t.told + count_by (awaits k) t.pending ≡ count_by (asks k) events)
happen_all-answers ssl events documented =
    let (t, returns, counts) = happen_all-balance ssl events generic_stream documented in
    (t, returns, λ k. omega (arith, counts k, count_by-nil (answers k), count_by-nil (awaits k)))
