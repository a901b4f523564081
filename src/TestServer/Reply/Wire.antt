-- ===== src/TestServer/Reply/Wire.antt =====
-- That a reply reaches the socket whole and in order, and that the client then reads again.
use asio_http.Base.{
  ℕ, suc, ◌+◌, ◌≤◌, ◌<◌, ◌≡◌, refl, ap, sym, ◌∙◌, ◌⊎◌, inl, inr, true, false, not, ◌&&◌,
  if◌then◌else◌, List, [], ◌∷◌, ◌++◌, Bytes, is_empty, length, take, drop, append-nil, append_assoc,
  take-append-drop, length-drop, arith, Bool-cases,
}
use asio_http.Errors.{ErrorCode, success}
use asio_http.TestServer.Client.{WebClient, Asked, ask, writing, reading, timer_cancelled}
use asio_http.TestServer.Reply.{client_send, client_data_cleanup, start_reading, write_client}
use asio_http.TestServer.Reply.Writing.{
  queued, IsMoving, client_send-queued, send_keeps, send_ends, send_swaps,
}

-- How many bytes the socket is still to take.
abbrev pub left : WebClient → ℕ
left c = length c.write_buffer + length c.output_buffer

abbrev taken : ℕ → WebClient → WebClient
taken size c = record c {
  wire = c.wire ++ take size c.write_buffer;
  write_buffer = drop size c.write_buffer;
}

write_more :
    (e : ErrorCode) (size : ℕ) (c : WebClient)
    → is_empty (drop size c.write_buffer) ≡ false
    → write_client e size c ≡ ask writing (taken size c)
unfolding write_client
write_more e size c some_left = rw some_left refl

write_sends :
    (e : ErrorCode) (size : ℕ) (c : WebClient)
    → is_empty (drop size c.write_buffer) ≡ true
    → write_client e size c ≡ client_send (taken size c)
unfolding write_client
write_sends e size c nothing = rw nothing refl

not_nil : (xs : Bytes) {A : Type 0} → is_empty xs ≡ false → xs ≡ [] → A
not_nil [] e n = cc
not_nil (x ∷ xs) e n = cc

taken-queued :
    (a w out : Bytes) (size : ℕ) → (a ++ take size w) ++ (drop size w ++ out) ≡ a ++ (w ++ out)
taken-queued a w out size =
    append_assoc a (take size w) (drop size w ++ out)
    ∙ ap (◌++◌ a) (
        sym (append_assoc (take size w) (drop size w) out)
        ∙ ap (λ t. t ++ out) (take-append-drop size w))

-- What the socket takes moves from the buffers to the wire.
write_client-queued :
    (e : ErrorCode) (size : ℕ) (c : WebClient)
    → (queued (write_client e size c) ≡ queued c) × IsMoving (write_client e size c)
write_client-queued e size c =
    let same = taken-queued c.wire c.write_buffer c.output_buffer size in
    elim (Bool-cases (is_empty (drop size c.write_buffer))) [
      | inl nothing ↦
          let (kept, moving) = client_send-queued (taken size c) (inl nothing) in
          rw (write_sends e size c nothing) (kept ∙ same, moving)
      | inr more ↦ rw (write_more e size c more) (same, not_nil (drop size c.write_buffer) more)
    ]

client_send-left : (c : WebClient) → left (client_send c) ≤ left c
unfolding client_data_cleanup start_reading
client_send-left c = elim (Bool-cases (is_empty c.write_buffer && not (is_empty c.output_buffer))) [
  | inl waiting ↦ rw (send_swaps c waiting) (omega arith)
  | inr rests ↦ elim (Bool-cases c.can_close) [
    | inl ends ↦ elim (Bool-cases c.close_connection) [
      | inl closes ↦ rw (send_ends c rests ends, closes) (omega arith)
      | inr stays ↦ rw (send_ends c rests ends, stays) (omega arith)
    ]
    | inr goes_on ↦ rw (send_keeps c rests goes_on) (omega arith)
  ]
]

some_byte : (xs : Bytes) → is_empty xs ≡ false → 0 < length xs
some_byte [] e = cc
some_byte (x ∷ xs) e = omega arith

write_client-left :
    (e : ErrorCode) (n : ℕ) (c : WebClient)
    → is_empty c.write_buffer ≡ false
    → left (write_client e (suc n) c) < left c
write_client-left e n c some_left = elim (Bool-cases (is_empty (drop (suc n) c.write_buffer))) [
  | inl nothing ↦ rw (write_sends e (suc n) c nothing) (
      omega (
        arith,
        client_send-left (taken (suc n) c),
        length-drop (suc n) c.write_buffer,
        some_byte c.write_buffer some_left,
      ))
  | inr more ↦
      rw (write_more e (suc n) c more)
        (omega (arith, length-drop (suc n) c.write_buffer, some_byte c.write_buffer some_left))
]

-- The socket completes one write after the other, of the bytes in front; each takes at least one.
unfoldable pub drain : (sizes : List ℕ) → WebClient → WebClient
unfolding write_client
drain [] c = c
drain (n ∷ sizes) c =
    let rest = drain sizes (write_client success (suc n) c) in
    if is_empty c.write_buffer then c else rest

all_written : (a w out : Bytes) → w ≡ [] → out ≡ [] → a ≡ a ++ (w ++ out)
all_written a w out h k = rw (h, k) (sym (append-nil a))

no_bytes : (xs : Bytes) → length xs ≤ 0 → is_empty xs ≡ true
no_bytes [] h = refl
no_bytes (x ∷ xs) h = ground (arith, h)

-- After a reply: a write is under way, or all is written and the client cleaned up, and reading.
abbrev pub IsCleaned : WebClient → Type 0
IsCleaned c =
    (c.write_buffer ≡ [])
    × (c.request_buffer ≡ [])
    × (c.response_buffer ≡ [])
    × (c.header_size ≡ 0)
    × ((before : List Asked) × (c.asked ≡ before ++ (reading ∷ [])))

abbrev pub IsReplying : WebClient → Type 0
IsReplying c =
    ((c.can_close ≡ true) × (c.close_connection ≡ false) × (is_empty c.write_buffer ≡ false))
    ⊎ IsCleaned c

client_send-IsReplying :
    (c : WebClient)
    → c.can_close ≡ true
    → c.close_connection ≡ false
    → is_empty c.write_buffer ≡ true
    → IsReplying (client_send c)
unfolding client_data_cleanup start_reading
client_send-IsReplying c ends stays idle =
    elim (Bool-cases (is_empty c.write_buffer && not (is_empty c.output_buffer))) [
      | inl waiting ↦ rw (send_swaps c waiting) (inl (ends, stays, ground (arith, waiting, idle)))
      | inr rests ↦
          rw (send_ends c rests ends, stays)
            (inr (refl, refl, refl, refl, (c.asked ++ (timer_cancelled ∷ []), refl)))
    ]

write_client-IsReplying :
    (e : ErrorCode) (n : ℕ) (c : WebClient)
    → is_empty c.write_buffer ≡ false
    → IsReplying c
    → IsReplying (write_client e (suc n) c)
write_client-IsReplying e n c some_left (inl (ends, stays, busy)) =
    elim (Bool-cases (is_empty (drop (suc n) c.write_buffer))) [
      | inl nothing ↦
          rw (write_sends e (suc n) c nothing)
            (client_send-IsReplying (taken (suc n) c) ends stays nothing)
      | inr more ↦ rw (write_more e (suc n) c more) (inl (ends, stays, more))
    ]
write_client-IsReplying e n c some_left (inr cleaned) = not_nil c.write_buffer some_left cleaned.0

-- A client with nothing to write is cleaned up.
drained :
    (c : WebClient)
    → is_empty c.write_buffer ≡ true
    → IsMoving c
    → IsReplying c
    → (c.wire ≡ queued c) × IsCleaned c
drained c idle moving (inl (ends, stays, busy)) = cc
drained c idle moving (inr cleaned) =
    (all_written c.wire c.write_buffer c.output_buffer cleaned.0 (moving cleaned.0), cleaned)

nothing_left : (c : WebClient) → left c ≤ 0 → is_empty c.write_buffer ≡ true
nothing_left c h = no_bytes c.write_buffer (omega (arith, h))

pub drain-queued :
    (sizes : List ℕ) (c : WebClient)
    → IsMoving c
    → IsReplying c
    → left c ≤ length sizes
    → ((drain sizes c).wire ≡ queued c) × IsCleaned (drain sizes c)
unfolding drain
drain-queued [] c moving h enough = drained c (nothing_left c enough) moving h
drain-queued (n ∷ sizes) c moving h enough = elim (Bool-cases (is_empty c.write_buffer)) [
  | inl idle ↦ rw idle (drained c idle moving h)
  | inr busy ↦
      let next = write_client success (suc n) c in
      let (kept, goes_on) = write_client-queued success (suc n) c in
      let (wire, cleaned) =
        drain-queued sizes next goes_on (write_client-IsReplying success n c busy h)
          (omega (arith, write_client-left success n c busy, enough)) in
      rw busy (wire ∙ kept, cleaned)
]
