-- ===== src/Completion/Promises.antt =====
-- That the promise of a request is set once, by the one call of its handler.
use asio_http.Base.{
  ℕ, suc, ◌+◌, ◌≡◌, refl, ◌⊎◌, inl, inr, true, Option, none, some, List, [], ◌∷◌, ◌==◌, Bytes,
  arith, Bool-cases, count_by, returned,
}
use native.Mathlib.Decide.{dec_lt}
use asio_http.Request.{HttpClientSettings}
use asio_http.Manager.{
  HttpRequestResult, RequestManager, Effect, invoke_handler, start_async, cancel_async,
}
use asio_http.Manager.Steps.{Reach}
use asio_http.Manager.Steps.Handlers.{invokes, asks, names, submissions, submissions-total}
use asio_http.Completion.{Promise, set_value, dispatch}

impossible : {a b : ℕ} → a ≡ suc b → a ≡ 0 → ⊥
impossible one nothing = omega (arith, one, nothing)

-- A call of this handler counts.
counts_call :
    (handler k executor : ℕ) (result : HttpRequestResult) (effects : List Effect)
    → (k == handler) ≡ true
    → count_by (invokes handler) (invoke_handler k executor result ∷ effects)
      ≡ suc (count_by (invokes handler) effects)
unfolding count_by
counts_call handler k executor result effects this = ground (arith, this)

-- Calls that are none of this handler leave its promise.
dispatch-none :
    (handler : ℕ) (effects : List Effect) (p : Promise)
    → count_by (invokes handler) effects ≡ 0
    → dispatch handler effects p ≡ returned p
unfolding dispatch count_by
dispatch-none handler [] p h = refl
dispatch-none handler (start_async handle request ∷ effects) p h =
    dispatch-none handler effects p (omega (arith, h))
dispatch-none handler (cancel_async handle ∷ effects) p h =
    dispatch-none handler effects p (omega (arith, h))
dispatch-none handler (invoke_handler k executor result ∷ effects) p h =
    elim (Bool-cases (k == handler)) [
      | inl this ↦ elim (impossible (counts_call handler k executor result effects this) h) [ ]
      | inr other ↦ rw other (dispatch-none handler effects p (ground (arith, h, other)))
    ]

dispatch-once :
    (handler : ℕ) (effects : List Effect)
    → count_by (invokes handler) effects ≡ 1
    → (result : HttpRequestResult) × (dispatch handler effects none ≡ returned (some result))
unfolding dispatch count_by set_value
dispatch-once handler [] h = ground (arith, h)
dispatch-once handler (start_async handle request ∷ effects) h =
    dispatch-once handler effects (omega (arith, h))
dispatch-once handler (cancel_async handle ∷ effects) h =
    dispatch-once handler effects (omega (arith, h))
dispatch-once handler (invoke_handler k executor result ∷ effects) h =
    elim (Bool-cases (k == handler)) [
      | inl this ↦
          rw this (result, dispatch-none handler effects (some result) (ground (arith, h, this)))
      | inr other ↦ rw other (dispatch-once handler effects (ground (arith, h, other)))
    ]

-- In every reachable state of the manager, if one request was submitted with a handler that sets a
-- promise, the calls of the handler so far do not throw, and the promise has a result exactly if the
-- request is neither on its way to the manager nor kept by it.
pub dispatch-submissions :
    (cast : Bytes → Option ℕ) (settings : HttpClientSettings) {m : RequestManager}
    (r : Reach cast settings m) (handler : ℕ)
    → submissions handler r ≡ 1
    → ((dispatch handler m.effects none ≡ returned none)
        × (count_by (asks handler) m.strand + count_by (names handler) m.requests ≡ 1))
      ⊎ ((result : HttpRequestResult) × (dispatch handler m.effects none ≡ returned (some result))
          × (count_by (asks handler) m.strand + count_by (names handler) m.requests ≡ 0))
dispatch-submissions cast settings {m} r handler once =
    let total = submissions-total handler r in
    elim (dec_lt 0 (count_by (invokes handler) m.effects)) [
      | yes called ↦
          let (result, dispatched) = dispatch-once handler m.effects (omega (arith, total, once)) in
          inr (result, dispatched, omega (arith, total, once))
      | no uncalled ↦ inl (
        dispatch-none handler m.effects none (omega (arith, uncalled)),
        omega (arith, total, once, uncalled),
      )
    ]
