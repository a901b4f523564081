-- ===== src/System/Handover.antt =====
-- What the callbacks of a connection do to the manager, and what the manager's effects do to the
-- connections.
use asio_http.Base.{
  All, sym, ◌∙◌, append_assoc, ℕ, ◌+◌, ◌≤◌, true, false, Option, List, [], ◌∷◌, ◌++◌, ◌==◌,
  if◌then◌else◌, Bytes, ◌≡◌, refl, ap, arith, inl, inr, Bool-cases, count_by, count_by-append,
  count_by-cons, count_by-nil, count_by-post, one_if, ==_iff,
}
use asio_http.Errors.{ErrorCode}
use asio_http.Pool.{HttpStack}
use asio_http.Pool.Ownership.{holds}
use asio_http.Request.{HttpResultData, HttpClientSettings}
use asio_http.Manager.{RequestManager, Effect, invoke_handler, start_async, cancel_async}
use asio_http.Manager.Steps.{Reach, later, complete}
use mathlib.Core.Path.{subst}
use asio_http.Manager.Steps.Effects.{starts, started_by}
use asio_http.Stack.{
  Call, callback, connect, write, read, shutdown_and_close, cancel_timer, start_timer,
}
use asio_http.Stack.Kept.{is_callback}
use asio_http.System.{
  System, Posted, start_posted, cancel_posted, is_start_posted, post_to, hand_out, update, without,
  on_request_completed_async, call_back,
}

-- The handles that a function on addresses tells.
abbrev pub IsTold : (ℕ → HttpStack) → HttpStack → Type 0
IsTold f handle = f handle.address ≡ handle

not_here :
    (a : ℕ) (s : HttpStack) (running : List HttpStack)
    → (s.address == a) ≡ false
    → 1 ≤ holds a (s ∷ running)
    → 1 ≤ holds a running
not_here a s running other h =
    omega (arith, h, ap one_if other, count_by-cons (λ (s : HttpStack). s.address == a) s running)

-- What is taken out stood there, and is what the function tells.
without_lem :
    (f : ℕ → HttpStack) (a : ℕ) (running : List HttpStack)
    → 1 ≤ holds a running
    → All (IsTold f) running
    → (before : List HttpStack) × (after : List HttpStack) × (running ≡ before ++ (f a ∷ after))
      × (without a running ≡ before ++ after)
      × (((f a).address == a) ≡ true)
      × All (IsTold f) (before ++ after)
unfolding without
without_lem f a [] h told = elim (impossible h) [ ]
  where
    impossible : 1 ≤ holds a [] → ⊥
    impossible h = omega (arith, h, count_by-nil (λ (s : HttpStack). s.address == a))
without_lem f a (s ∷ running) h (this, told) = elim (Bool-cases (s.address == a)) [
  | inl here ↦
      let same : f a ≡ s = ap f (sym ((==_iff s.address a).0 here)) ∙ this in
      rw here ([], running, ap (λ x. x ∷ running) (sym same), refl, rw same here, told)
  | inr other ↦
      let (before, after, e, gone, found, others) =
        without_lem f a running (not_here a s running other h) told in
      rw other (s ∷ before, after, ap (◌∷◌ s) e, ap (◌∷◌ s) gone, found, (this, others))
]

same_place : (x a b : ℕ) → (x == a) ≡ true → one_if (x == b) ≡ (if b == a then 1 else 0)
same_place x a b same = ground arith

module _ (cast : Bytes → Option ℕ) (settings : HttpClientSettings) where
  -- The manager is reachable, waits for so many callbacks less of this connection, and for what the function
  -- tells.
  abbrev pub Answered : (ℕ → HttpStack) → ℕ → ℕ → RequestManager → RequestManager → Type 0
  Answered f a n m k =
      Reach cast settings k
      × ((b : ℕ) → holds b k.running + (if b == a then n else 0) ≡ holds b m.running)
      × All (IsTold f) k.running

  module _ (f : ℕ → HttpStack) (a : ℕ) where
    -- The manager after a callback of the connection.
    abbrev called_back : HttpResultData → ErrorCode → RequestManager → RequestManager
    called_back result ec m =
        on_request_completed_async result (f a) ec (record m { running = without a m.running })

    on_request_completed_async-Answered :
        (result : HttpResultData) (ec : ErrorCode) (m : RequestManager)
        → Reach cast settings m
        → All (IsTold f) m.running
        → 1 ≤ holds a m.running
        → Answered f a 1 m (called_back result ec m)
    unfolding on_request_completed_async
    on_request_completed_async-Answered result ec m r told waits =
        let (before, after, e, gone, same, others) = without_lem f a m.running waits told in
        rw gone (
          later r (complete m before after (f a) result ec e),
          (λ b. omega (
            arith,
            ap (holds b) e,
            same_place (f a).address a b same,
            count_by-append (λ (s : HttpStack). s.address == b) before (f a ∷ after),
            count_by-append (λ (s : HttpStack). s.address == b) before after,
            count_by-cons (λ (s : HttpStack). s.address == b) (f a) after,
          )),
          others,
        )

    -- A call that is no callback.
    quiet : (m k : RequestManager) (n : ℕ) → Answered f a n m k → Answered f a (0 + n) m k
    quiet m k n (r, answered, told) = (r, (λ b. ground (arith, answered b)), told)

    pub call_back-Answered :
        (calls : List Call) (m : RequestManager)
        → Reach cast settings m
        → All (IsTold f) m.running
        → count_by is_callback calls ≤ holds a m.running
        → Answered f a (count_by is_callback calls) m (call_back a (f a) calls m)
    unfolding call_back count_by
    call_back-Answered [] m r told h = (r, (λ b. ground arith), told)
    call_back-Answered (callback k result ec ∷ calls) m r told h =
        let (first, once, told_once) =
          on_request_completed_async-Answered result ec m r told (omega (arith, h)) in
        let (reach, others, still) =
          call_back-Answered calls (called_back result ec m) first told_once
            (ground (arith, h, once a)) in
        (reach, (λ b. ground (arith, once b, others b)), still)
    call_back-Answered (connect host port ∷ calls) m r told h =
        quiet m _ (count_by is_callback calls)
          (call_back-Answered calls m r told (omega (arith, h)))
    call_back-Answered (write bytes ∷ calls) m r told h =
        quiet m _ (count_by is_callback calls)
          (call_back-Answered calls m r told (omega (arith, h)))
    call_back-Answered (read ∷ calls) m r told h =
        quiet m _ (count_by is_callback calls)
          (call_back-Answered calls m r told (omega (arith, h)))
    call_back-Answered (shutdown_and_close ∷ calls) m r told h =
        quiet m _ (count_by is_callback calls)
          (call_back-Answered calls m r told (omega (arith, h)))
    call_back-Answered (cancel_timer ∷ calls) m r told h =
        quiet m _ (count_by is_callback calls)
          (call_back-Answered calls m r told (omega (arith, h)))
    call_back-Answered (start_timer n ∷ calls) m r told h =
        quiet m _ (count_by is_callback calls)
          (call_back-Answered calls m r told (omega (arith, h)))

-- The starts that are posted to a connection.
abbrev pub starts_in : List Posted → ℕ
starts_in posted = count_by is_start_posted posted

module _ {P : Type 0} where
  -- Handing out effects changes only the mailboxes, by the connections that are started.
  abbrev pub HandedOut : List Effect → System P → System P → Type 0
  HandedOut effects s t =
      (t.manager ≡ s.manager)
      × (t.stacks ≡ s.stacks)
      × ((a : ℕ)
          → starts_in (t.mailboxes a) ≡ starts_in (s.mailboxes a) + count_by (starts a) effects)

  post_to-starts_in :
      (address : ℕ) (p : Posted) (s : System P) (a : ℕ)
      → starts_in ((post_to address p s).mailboxes a)
        ≡ starts_in (s.mailboxes a) + (if address == a then one_if (is_start_posted p) else 0)
  post_to-starts_in address p s a = elim (Bool-cases (a == address)) [
    | inl same ↦
        let equal = (==_iff a address).0 same in
        rw same (
          ground (
            arith,
            same,
            count_by-post is_start_posted (s.mailboxes address) p,
            ap (λ x. starts_in (s.mailboxes x)) equal,
          ))
    | inr other ↦ rw other (ground (arith, other))
  ]

  pub hand_out-HandedOut :
      (effects : List Effect) (s : System P) → HandedOut effects s (hand_out effects s)
  unfolding hand_out
  hand_out-HandedOut [] s = (refl, refl, λ a. omega (arith, count_by-nil (starts a)))
  hand_out-HandedOut (invoke_handler handler executor result ∷ effects) s =
      let (m, k, b) = hand_out-HandedOut effects s in
      (
        m,
        k,
        λ a.
            omega (
              arith,
              b a,
              count_by-cons (starts a) (invoke_handler handler executor result) effects,
            ),
      )
  hand_out-HandedOut (start_async handle request ∷ effects) s =
      let (m, k, b) = hand_out-HandedOut effects (
        post_to handle.address (start_posted request)
          (record s { handles = update handle.address handle s.handles })) in
      (
        m,
        k,
        λ a. ground (
          arith,
          b a,
          post_to-starts_in handle.address (start_posted request) s a,
          count_by-cons (starts a) (start_async handle request) effects,
        ),
      )
  hand_out-HandedOut (cancel_async handle ∷ effects) s =
      let (m, k, b) = hand_out-HandedOut effects (post_to handle.address cancel_posted s) in
      (
        m,
        k,
        λ a. ground (
          arith,
          b a,
          post_to-starts_in handle.address cancel_posted s a,
          count_by-cons (starts a) (cancel_async handle) effects,
        ),
      )

-- The handle that a start captures, next to those that are waited for.
update-IsTold :
    (f : ℕ → HttpStack) (handle : HttpStack) (running : List HttpStack)
    → holds handle.address running ≡ 0
    → All (IsTold f) running
    → All (IsTold (update handle.address handle f)) running
update-IsTold f handle [] h told = tt
update-IsTold f handle (s ∷ running) h (this, told) =
    let counted = count_by-cons (λ (s : HttpStack). s.address == handle.address) s running in
    (
      elim (Bool-cases (s.address == handle.address)) [
        | inl same ↦ elim (impossible counted same) [ ]
        | inr other ↦ rw other this
      ],
      update-IsTold f handle running (omega (arith, h, counted)) told,
    )
  where
    impossible :
        holds handle.address (s ∷ running)
          ≡ one_if (s.address == handle.address) + holds handle.address running
        → (s.address == handle.address) ≡ true
        → ⊥
    impossible counted same = omega (arith, h, counted, ap one_if same)

same_address : (a : ℕ) → (a == a) ≡ true
same_address a = ground arith

module _ {P : Type 0} where
  -- What is handed out leaves the handle of every connection that is waited for with its callback.
  pub hand_out-IsTold :
      (effects : List Effect) (s : System P) (running : List HttpStack)
      → ((a : ℕ) → count_by (starts a) effects + holds a running ≤ 1)
      → All (IsTold s.handles) running
      → All (IsTold (hand_out effects s).handles) (started_by effects ++ running)
  unfolding hand_out
  hand_out-IsTold [] s running once told = told
  hand_out-IsTold (invoke_handler handler executor result ∷ effects) s running once told =
      hand_out-IsTold effects s running
        (λ a. omega (
          arith,
          once a,
          count_by-cons (starts a) (invoke_handler handler executor result) effects,
        ))
        told
  hand_out-IsTold (cancel_async handle ∷ effects) s running once told =
      hand_out-IsTold effects (post_to handle.address cancel_posted s) running
        (λ a. omega (arith, once a, count_by-cons (starts a) (cancel_async handle) effects)) told
  hand_out-IsTold (start_async handle request ∷ effects) s running once told =
      let counted = λ (a : ℕ). count_by-cons (starts a) (start_async handle request) effects in
      let after =
        post_to handle.address (start_posted request)
          (record s { handles = update handle.address handle s.handles }) in
      subst (All (IsTold (hand_out effects after).handles))
        (sym (append_assoc (started_by effects) (handle ∷ []) running))
        (hand_out-IsTold effects after (handle ∷ running)
          (λ a. omega (
            arith,
            once a,
            counted a,
            count_by-cons (λ (s : HttpStack). s.address == a) handle running,
          ))
          (
            rw (same_address handle.address) refl,
            update-IsTold s.handles handle running
                (omega (
                  arith,
                  once handle.address,
                  counted handle.address,
                  ap one_if (same_address handle.address),
                ))
                told,
          ))
