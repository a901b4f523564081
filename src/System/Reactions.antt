-- ===== src/System/Reactions.antt =====
-- How a connection reacts to what is posted to it and to what comes from outside.
use mathlib.Core.Path.{subst}
use asio_http.Base.{
  returned-injective, ℕ, ◌+◌, true, false, Option, none, some, if◌then◌else◌, ◌≡◌, refl, ap, sym,
  ◌∙◌, arith, inl, inr, Bool-cases, count_by-nil, count_by-post, one_if, returned,
}
use asio_http.Request.{HttpRequest}
use asio_http.Compression.{Zlib}
use asio_http.Stack.{Stack, HttpParser, HttpContent, shutdown_and_close}
use asio_http.Stack.Start.{
  Event, react, started, cancelled, connected, written, timer_fired, received, cancel, close,
}
use asio_http.Stack.Content.{complete_request}
use asio_http.Stack.Kept.{IsReady, is_some, callbacks, is_callback}
use asio_http.Stack.Callbacks.{react-Kept, start-Owed, is_start}
use asio_http.System.{
  Posted, start_posted, cancel_posted, is_start_posted, event, is_outside, cleared,
}

-- A stack owes a callback.
abbrev pub owes : {P : Type 0} → Stack P → ℕ
owes s = one_if (is_some s.content.completed_request_callback)

module _ (z : Zlib) (h : HttpParser) where
  -- What a reaction to an event that is posted or comes from outside leaves: it returns, the callbacks
  -- made and owed are those owed before, and one more after a start, and a callback that is owed finds
  -- its body.
  abbrev pub Reacts : ℕ → Event → Stack (h.State) → Type 0
  Reacts due e s =
      (t : Stack (h.State)) × (react z h e (cleared s) ≡ returned t)
      × (callbacks t + owes t ≡ due)
      × (is_some t.content.completed_request_callback ≡ true → IsReady t)

  start-Reacts :
      (request : HttpRequest) (k : ℕ) (s : Stack (h.State)) → Reacts 1 (started request k) s
  unfolding react
  start-Reacts request k s =
      let (ready, owed) = start-Owed z h request k (cleared s) in
      (_, refl, omega (arith, owed, count_by-nil is_callback), λ _. ready)

  pub ready-Reacts :
      (e : Event) (s : Stack (h.State)) → is_start e ≡ false → IsReady s → Reacts (owes s) e s
  ready-Reacts e s quiet ready =
      let (t, returns, kept, still) = react-Kept z h e (cleared s) quiet ready in
      (t, returns, omega (arith, kept, count_by-nil is_callback), λ _. still)

  pub idle-none : {A : Type 0} (o : Option A) → is_some o ≡ false → o ≡ none
  idle-none none idle = refl
  idle-none (some a) idle = cc

  -- A callback that is owed finds its body.
  abbrev pub Prepared : HttpContent → Type 0
  Prepared c =
      is_some c.completed_request_callback ≡ true
      → (is_some c.body_sink ≡ true) × (is_some c.body_source ≡ true)

  close-callbacks :
      (s : Stack (h.State)) → (callbacks (close s) ≡ callbacks s) × ((close s).content ≡ s.content)
  unfolding close
  close-callbacks s = elim (Bool-cases s.is_open) [
    | inl e ↦ rw e (omega (arith, count_by-post is_callback s.log shutdown_and_close), refl)
    | inr e ↦ rw e (refl, refl)
  ]

  cancel-idle :
      (s : Stack (h.State))
      → s.content.completed_request_callback ≡ none
      → react z h cancelled s ≡ returned (close s)
  unfolding react cancel complete_request close
  cancel-idle s idle = rw idle refl

  cancel-Reacts :
      (s : Stack (h.State))
      → (is_some s.content.completed_request_callback ≡ true → IsReady s)
      → Reacts (owes s) cancelled s
  cancel-Reacts s ready = elim (Bool-cases (is_some s.content.completed_request_callback)) [
    | inl owed ↦ ready-Reacts cancelled s refl (ready owed)
    | inr idle ↦
        let (same_callbacks, same_content) = close-callbacks (cleared s) in
        (
          close (cleared s),
          cancel-idle (cleared s) (idle-none _ idle),
          omega (
            arith,
            same_callbacks,
            count_by-nil is_callback,
            ap (λ (c : HttpContent). one_if (is_some c.completed_request_callback)) same_content,
          ),
          subst Prepared (sym same_content) ready,
        )
  ]

  pub reacted :
      (due : ℕ) (e : Event) (s t : Stack (h.State))
      → Reacts due e s
      → react z h e (cleared s) ≡ returned t
      → (callbacks t + owes t ≡ due) × Prepared t.content
  reacted due e s t (u, returns, counted, prepared) h =
      subst (λ u. (callbacks u + owes u ≡ due) × Prepared u.content)
        (returned-injective (sym returns ∙ h)) (counted, prepared)

  pub posted-Reacts :
      (a : ℕ) (p : Posted) (s : Stack (h.State))
      → Prepared s.content
      → Reacts (if is_start_posted p then 1 else owes s) (event a p) s
  posted-Reacts a (start_posted request) s prepared = start-Reacts request a s
  posted-Reacts a cancel_posted s prepared = cancel-Reacts s prepared

  pub quiet_outside : (e : Event) → is_outside e ≡ true → is_start e ≡ false
  quiet_outside (started request k) o = cc
  quiet_outside cancelled o = refl
  quiet_outside (connected ec open_) o = refl
  quiet_outside (written ec) o = refl
  quiet_outside (timer_fired ec) o = refl
  quiet_outside (received bytes ec) o = refl
