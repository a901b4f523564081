-- ===== src/Stack/Callbacks.antt =====
-- That every request that is started on a stack is called back exactly once, whatever happens, and
-- that no handler meets a body that is not there.
use asio_http.Base.{
  ℕ, ◌+◌, ◌≡◌, ◌∙◌, refl, ap, ◌⊎◌, inl, inr, Bool, true, false, not, ◌&&◌, ◌||◌, Option, none, some,
  List, [], ◌∷◌, ◌++◌, Bytes, arith, Bool-cases, is_empty, length, All, returned, count_by, one_if,
  count_by-post, ◌==◌,
}
use asio_http.Request.{HttpRequest}
use asio_http.Errors.{ErrorCode, is_error, make_error_code}
use asio_http.Compression.{Zlib}
use asio_http.Stack.{Stack, HttpParser, Call, read}
use asio_http.Stack.Encoding
use asio_http.Stack.Content
use asio_http.Stack.Connection.{on_read, send_headers, write_headers, is_done, after_parser}
use asio_http.Stack.Start.{
  Event, react, react_all, start, started, cancelled, connected, written, timer_fired, received,
  encode_headers,
}
use asio_http.Stack.Kept.{
  is_callback, is_some, callbacks, balance, IsReady, Kept, and_then, if_Kept, post_call-Kept,
  complete_request-Kept, run_parser-Kept, on_write-Kept, on_connected-Kept, on_timer-Kept,
  cancel-Kept,
}

-- An event that is the start of a request.
abbrev pub is_start : Event → Bool
is_start (started request k) = true
is_start _ = false

module _ (z : Zlib) (h : HttpParser) where
  after_parser-Kept :
      (bytes : Bytes) (ec : ErrorCode) (nsize : ℕ) (s : Stack (h.State))
      → IsReady s
      → Kept (λ t. t) s (after_parser z h bytes ec nsize s)
  unfolding after_parser Encoding.on_error Content.on_error
  after_parser-Kept bytes ec nsize s ready =
      if_Kept (λ t. t) s (not (is_done s.connection.current_request.state))
        (if_Kept (λ t. t) s (not (nsize == length bytes) && not (is_empty bytes))
          (complete_request-Kept z (make_error_code (h.errno s.connection.parser)) s ready)
          (if_Kept (λ t. t) s (not (is_error ec)) (post_call-Kept read s refl ready)
            (complete_request-Kept z ec s ready)))
        (s, refl, refl, ready)

  on_read-Kept :
      (bytes : Bytes) (ec : ErrorCode) (s : Stack (h.State))
      → IsReady s
      → Kept (λ t. t) s (on_read z h bytes ec s)
  unfolding on_read
  on_read-Kept bytes ec s ready =
      let c = s.connection in
      let t : Stack (h.State) = record s {
        connection = record c { not_reusable = is_error ec || c.not_reusable };
      } in
      and_then (λ r. r.1) (λ t. t) t _ _
        (if_Kept (λ r. r.1) t (not (is_empty bytes) && not (is_done c.current_request.state))
          (run_parser-Kept z (h.execute c.parser bytes) t ready) ((0, t), refl, refl, ready))
        (λ r ready. after_parser-Kept bytes ec r.0 r.1 ready)

  pub react-Kept :
      (e : Event) (s : Stack (h.State))
      → is_start e ≡ false
      → IsReady s
      → Kept (λ t. t) s (react z h e s)
  unfolding react
  react-Kept (started request k) s f ready = elim (impossible f) [ ]
    where
      impossible : true ≡ false → ⊥
      impossible f = cc
  react-Kept cancelled s f ready = cancel-Kept z s ready
  react-Kept (connected ec open_) s f ready =
      on_connected-Kept z ec (record s { is_open = open_ }) ready
  react-Kept (written ec) s f ready = on_write-Kept z ec s ready
  react-Kept (timer_fired ec) s f ready = on_timer-Kept z ec s ready
  react-Kept (received bytes ec) s f ready = on_read-Kept bytes ec s ready

  react_all-Kept :
      (events : List Event) (s : Stack (h.State))
      → All (λ e. is_start e ≡ false) events
      → IsReady s
      → Kept (λ t. t) s (react_all z h events s)
  unfolding react_all
  react_all-Kept [] s none_start ready = (s, refl, refl, ready)
  react_all-Kept (e ∷ events) s (f, none_start) ready =
      and_then (λ t. t) (λ t. t) s _ _ (react-Kept e s f ready)
        (λ t ready. react_all-Kept events t none_start ready)

  two_posts :
      (log : List Call) (a b : Call)
      → is_callback a ≡ false
      → is_callback b ≡ false
      → count_by is_callback ((log ++ (a ∷ [])) ++ (b ∷ [])) ≡ count_by is_callback log
  two_posts log a b f g = omega (
    arith,
    ap one_if f,
    ap one_if g,
    count_by-post is_callback log a,
    count_by-post is_callback (log ++ (a ∷ [])) b,
  )

  pub start-Owed :
      (request : HttpRequest) (k : ℕ) (s : Stack (h.State))
      → IsReady (start z request k s) × (balance (start z request k s) ≡ callbacks s + 1)
  unfolding start encode_headers write_headers send_headers
  start-Owed request k s = elim (Bool-cases s.is_open) [
    | inl e ↦ rw e ((refl, refl), ap (λ n. n + 1) (two_posts s.log _ _ refl refl))
    | inr e ↦ rw e ((refl, refl), ap (λ n. n + 1) (two_posts s.log _ _ refl refl))
  ]

  settled :
      (o : Option ℕ) {c n : ℕ}
      → c + one_if (is_some o) ≡ n + 1
      → ((o ≡ none) × (c ≡ n + 1)) ⊎ ((is_some o ≡ true) × (c ≡ n))
  settled none h = inl (refl, omega (arith, h))
  settled (some k) h = inr (refl, omega (arith, h))

  -- When a request is started and then any events follow that start nothing more, no handler
  -- fails, and since then either exactly one callback has been made and none is owed, or none has been
  -- made and one is owed.
  pub react_all-once :
      (request : HttpRequest) (k : ℕ) (events : List Event) (s : Stack (h.State))
      → All (λ e. is_start e ≡ false) events
      → (t : Stack (h.State)) × (react_all z h (started request k ∷ events) s ≡ returned t)
        × (((t.content.completed_request_callback ≡ none) × (callbacks t ≡ callbacks s + 1))
            ⊎ ((is_some t.content.completed_request_callback ≡ true) × (callbacks t ≡ callbacks s)))
  unfolding react_all react
  react_all-once request k events s none_start =
      let (ready, owed) = start-Owed request k s in
      let (t, returns, kept, still) =
        react_all-Kept events (start z request k s) none_start ready in
      (t, returns, settled t.content.completed_request_callback (kept ∙ owed))
