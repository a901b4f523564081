-- ===== src/Stack/Kept.antt =====
-- That the handlers of the layers return, and make no callback that was not owed.
use asio_http.Base.{
  ℕ, ◌+◌, ◌≡◌, ◌∙◌, refl, ap, inl, inr, Bool, true, false, not, Option, none, some, [], ◌∷◌, ◌++◌,
  Bytes, arith, Bool-cases, Option-cases, if◌then◌else◌, is_empty, Outcome, returned, ◌>>=◌,
  count_by, one_if, count_by-post,
}
use asio_http.Headers.{HeaderList}
use asio_http.Errors.{ErrorCode, is_error}
use asio_http.Compression.{Zlib}
use asio_http.Stack.{
  Stack, Parse, called, finished, Call, callback, cancel_timer, read, write, shutdown_and_close,
  post_call, ParserEvent, on_status, on_header_field, on_header_value, on_body, on_headers_complete,
  on_message_complete,
}
use asio_http.Stack.Encoding
use asio_http.Stack.Content
use asio_http.Stack.Connection.{
  on_write, on_connected, run_parser, call_back, headers_complete, response_complete,
  push_current_header, with_buffers, send_headers, write_size,
}
use asio_http.Stack.Start.{close, cancel}

abbrev pub is_callback : Call → Bool
is_callback (callback k result ec) = true
is_callback _ = false

abbrev pub is_some {ℓ} : {A : Type ℓ} → Option A → Bool
is_some none = false
is_some (some a) = true

absurd {ℓ} : {A : Type ℓ} {o : Option A} → is_some o ≡ true → o ≡ none → ⊥
absurd h e = cc

present {ℓ κ} : {A : Type ℓ} {B : Type κ} {o : Option A} → is_some o ≡ true → o ≡ none → B
present h e = elim (absurd h e) [ ]

module _ {P : Type 0} where
  abbrev pub callbacks : Stack P → ℕ
  callbacks s = count_by is_callback s.log

  -- The callbacks made, and the one that is owed.
  abbrev pub balance : Stack P → ℕ
  balance s = callbacks s + one_if (is_some s.content.completed_request_callback)

  -- There is a body to read and one to write.
  abbrev pub IsReady : Stack P → Type 0
  IsReady s = (is_some s.content.body_sink ≡ true) × (is_some s.content.body_source ≡ true)

  -- The call returns, and owes and made as many callbacks as before.
  abbrev pub Kept {ℓ} : {A : Type ℓ} → (A → Stack P) → Stack P → Outcome A → Type ℓ
  Kept {A = A} after s m =
      (a : A) × (m ≡ returned a) × (balance (after a) ≡ balance s) × IsReady (after a)

  pub and_then {ℓ κ} :
      {A : Type ℓ} {B : Type κ} (f : A → Stack P) (g : B → Stack P) (s : Stack P) (m : Outcome A)
      (k : A → Outcome B)
      → Kept f s m
      → ((a : A) → IsReady (f a) → Kept g (f a) (k a))
      → Kept g s (m >>= k)
  and_then f g s m k (a, m_returns, m_balance, m_ready) rest =
      let (b, k_returns, k_balance, ready) = rest a m_ready in
      (b, ap (λ m. m >>= k) m_returns ∙ k_returns, k_balance ∙ m_balance, ready)

  pub complete_request-Kept :
      (z : Zlib) (ec : ErrorCode) (s : Stack P)
      → IsReady s
      → Kept (λ t. t) s (Content.complete_request z ec s)
  unfolding Content.complete_request
  complete_request-Kept z ec s (sink, source) =
      elim (Option-cases s.content.completed_request_callback) [
        | inl e ↦ rw e (_, refl, refl, (sink, source))
        | inr (k, e) ↦ elim (Option-cases s.content.body_sink) [
          | inl n ↦ present sink n
          | inr (b, i) ↦
              rw (e, i)
                (
                  _,
                  refl,
                  omega (
                    arith,
                    count_by-post is_callback s.log cancel_timer,
                    count_by-post is_callback (s.log ++ (cancel_timer ∷ [])) _,
                  ),
                  (refl, source),
                )
        ]
      ]

  get_body_data-Kept :
      (n : ℕ) (s : Stack P) → IsReady s → Kept (λ r. r.1) s (Content.get_body_data n s)
  unfolding Content.get_body_data
  get_body_data-Kept n s (sink, source) = elim (Option-cases s.content.body_source) [
    | inl e ↦ present source e
    | inr (b, e) ↦ rw e (_, refl, refl, (sink, refl))
  ]

  on_headers-Kept :
      (status_code : ℕ) (headers : HeaderList) (s : Stack P)
      → IsReady s
      → Kept (λ t. t) s (Content.on_headers status_code headers s)
  unfolding Content.on_headers
  on_headers-Kept status_code headers s (sink, source) = elim (Option-cases s.content.body_sink) [
    | inl e ↦ present sink e
    | inr (b, e) ↦ rw e (_, refl, refl, (refl, source))
  ]

  on_body-Kept : (at : Bytes) (s : Stack P) → IsReady s → Kept (λ t. t) s (Content.on_body at s)
  unfolding Content.on_body
  on_body-Kept at s (sink, source) = elim (Option-cases s.content.body_sink) [
    | inl e ↦ present sink e
    | inr (b, e) ↦ rw e (_, refl, refl, (refl, source))
  ]

  call_back-Kept :
      (z : Zlib) (event : ParserEvent) (s : Stack P)
      → IsReady s
      → Kept (λ r. r.1) s (call_back z event s)
  unfolding call_back headers_complete response_complete Encoding.on_headers Encoding.on_body
      Encoding.message_complete Content.message_complete
  call_back-Kept z (on_status at) s ready = (_, refl, refl, ready)
  call_back-Kept z (on_header_field at) s ready = (_, refl, refl, ready)
  call_back-Kept z (on_header_value at) s ready = (_, refl, refl, ready)
  call_back-Kept z (on_body at) s ready =
      and_then (λ t. t) (λ r. r.1) s _ _ (on_body-Kept at s ready)
        (λ t ready. (_, refl, refl, ready))
  call_back-Kept z (on_headers_complete status_code) s ready =
      let b = s.connection.current_request in
      let pushed = if is_empty b.current_header.0 then b else push_current_header b in
      and_then (λ t. t) (λ r. r.1) (with_buffers pushed s) _ _
        (on_headers-Kept status_code pushed.headers (with_buffers pushed s) ready)
        (λ t ready. (_, refl, refl, ready))
  call_back-Kept z (on_message_complete should_keep_alive) s ready =
      and_then (λ t. t) (λ r. r.1) s _ _ (complete_request-Kept z _ _ ready)
        (λ t ready. (_, refl, refl, ready))

  pub run_parser-Kept :
      (z : Zlib) (p : Parse P) (s : Stack P) → IsReady s → Kept (λ r. r.1) s (run_parser z p s)
  unfolding run_parser
  run_parser-Kept z (finished nsize p) s ready = (_, refl, refl, ready)
  run_parser-Kept z (called event resume) s ready =
      and_then (λ r. r.1) (λ r. r.1) s _ _ (call_back-Kept z event s ready)
        (λ r ready. run_parser-Kept z (resume r.0) r.1 ready)

  pub post_call-Kept :
      (call : Call) (s : Stack P)
      → is_callback call ≡ false
      → IsReady s
      → Kept (λ t. t) s (returned (post_call call s))
  post_call-Kept call s h ready =
      (_, refl, omega (arith, ap one_if h, count_by-post is_callback s.log call), ready)

  pub if_Kept {ℓ} :
      {A : Type ℓ} (f : A → Stack P) (s : Stack P) (b : Bool) {m n : Outcome A}
      → Kept f s m
      → Kept f s n
      → Kept f s (if b then m else n)
  if_Kept f s true p q = p
  if_Kept f s false p q = q

  either_post-Kept :
      (s : Stack P) (b : Bool) (bytes : Bytes)
      → IsReady s
      → Kept (λ t. t) s (returned (if b then post_call read s else post_call (write bytes) s))
  either_post-Kept s true bytes ready = post_call-Kept read s refl ready
  either_post-Kept s false bytes ready = post_call-Kept (write bytes) s refl ready

  pub on_write-Kept :
      (z : Zlib) (ec : ErrorCode) (s : Stack P) → IsReady s → Kept (λ t. t) s (on_write z ec s)
  unfolding on_write Encoding.on_error Encoding.get_body_data Content.on_error
  on_write-Kept z ec s ready =
      and_then (λ t. t) (λ t. t) s _ _
        (if_Kept (λ t. t) s (is_error ec) (complete_request-Kept z ec s ready)
          (s, refl, refl, ready))
        (λ t ready.
          and_then (λ r. r.1) (λ t. t) t _ _ (get_body_data-Kept write_size t ready)
            (λ r ready. either_post-Kept r.1 (is_empty r.0) r.0 ready))

  send_headers-Kept : (s : Stack P) → IsReady s → Kept (λ t. t) s (returned (send_headers s))
  unfolding send_headers
  send_headers-Kept s ready = post_call-Kept _ s refl ready

  pub on_connected-Kept :
      (z : Zlib) (ec : ErrorCode) (s : Stack P) → IsReady s → Kept (λ t. t) s (on_connected z ec s)
  unfolding on_connected Encoding.on_error Content.on_error
  on_connected-Kept z ec s ready =
      if_Kept (λ t. t) s (not (is_error ec)) (send_headers-Kept s ready)
        (complete_request-Kept z ec s ready)

  pub on_timer-Kept :
      (z : Zlib) (ec : ErrorCode) (s : Stack P)
      → IsReady s
      → Kept (λ t. t) s (Content.on_timer z ec s)
  unfolding Content.on_timer
  on_timer-Kept z ec s ready =
      if_Kept (λ t. t) s (is_error ec) (s, refl, refl, ready) (complete_request-Kept z _ s ready)

  close-Kept : (s : Stack P) → IsReady s → Kept (λ t. t) s (returned (close s))
  unfolding close
  close-Kept s ready = elim (Bool-cases s.is_open) [
    | inl e ↦ rw e (post_call-Kept shutdown_and_close (record s { is_open = false }) refl ready)
    | inr e ↦ rw e (_, refl, refl, ready)
  ]

  pub cancel-Kept : (z : Zlib) (s : Stack P) → IsReady s → Kept (λ t. t) s (cancel z s)
  unfolding cancel
  cancel-Kept z s ready =
      and_then (λ t. t) (λ t. t) s _ _ (complete_request-Kept z _ s ready) close-Kept
