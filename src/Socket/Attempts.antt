-- ===== src/Socket/Attempts.antt =====
-- That the endpoints of a host are tried in order up to the first that accepts.
use asio_http.Base.{
  suc, ◌≡◌, ◌∙◌, refl, ap, inl, inr, true, false, some, List, [], ◌∷◌, Bool-cases, if◌then◌else◌,
  length,
}
use asio_http.Errors.{ErrorCode, is_error}
use asio_http.Socket.{
  Action, on_connected, async_connect, async_handshake, connect_handler, ssl_connect_handler,
  connect_all, after_attempt, prepend,
}

-- What trying endpoints in order comes to, up to the first that accepts: those tried, and the outcome
-- of the last of them.
pub data Tries {E : Type 0} (attempt : E → ErrorCode) : List E → List E → ErrorCode → Type 0 where
  accepted :
      {ep : E} {eps : List E}
      → is_error (attempt ep) ≡ false
      → Tries attempt (ep ∷ eps) (ep ∷ []) (attempt ep)
  exhausted :
      {ep : E} → is_error (attempt ep) ≡ true → Tries attempt (ep ∷ []) (ep ∷ []) (attempt ep)
  refused :
      {ep : E} {eps tried : List E} {ec : ErrorCode}
      → is_error (attempt ep) ≡ true
      → Tries attempt eps tried ec
      → Tries attempt (ep ∷ eps) (ep ∷ tried) ec

module _ {E : Type 0} (ec : ErrorCode) where
  connect_handler-refused :
      (next : E) (it : List E)
      → is_error ec ≡ true
      → connect_handler ec (next ∷ it) ≡ async_connect next it
  unfolding connect_handler
  connect_handler-refused next it e = rw e refl

  connect_handler-accepted :
      (it : List E) → is_error ec ≡ false → connect_handler ec it ≡ on_connected ec
  unfolding connect_handler
  connect_handler-accepted [] e = refl
  connect_handler-accepted (next ∷ it) e = rw e refl

  ssl_connect_handler-refused :
      (next : E) (it : List E)
      → is_error ec ≡ true
      → ssl_connect_handler ec (next ∷ it) ≡ async_connect next it
  unfolding ssl_connect_handler
  ssl_connect_handler-refused next it e = rw e refl

  ssl_connect_handler-accepted :
      (it : List E) → is_error ec ≡ false → ssl_connect_handler ec it ≡ async_handshake
  unfolding ssl_connect_handler
  ssl_connect_handler-accepted [] e = rw e refl
  ssl_connect_handler-accepted (next ∷ it) e = rw e refl

module _ {E : Type 0} (ec : ErrorCode) where
  ssl_connect_handler-exhausted :
      is_error ec ≡ true → ssl_connect_handler {E = E} ec [] ≡ on_connected ec
  unfolding ssl_connect_handler
  ssl_connect_handler-exhausted e = rw e refl

  -- What a tls socket makes of the last outcome.
  abbrev pub ssl_outcome : Action E
  ssl_outcome = if is_error ec then on_connected ec else async_handshake

  ssl_outcome_refused : is_error ec ≡ true → on_connected ec ≡ ssl_outcome
  ssl_outcome_refused e = rw e refl

  ssl_outcome_accepted : is_error ec ≡ false → async_handshake ≡ ssl_outcome
  ssl_outcome_accepted e = rw e refl

module _ {E : Type 0} (attempt : E → ErrorCode) where
  -- From the first endpoint on, with fuel for every other, the attempts of a plain socket end: the
  -- endpoints are tried in order up to the first that accepts, and the layer above is told the outcome
  -- of the last attempt.
  connect_all-Tries :
      (ep : E) (it : List E)
      → (tried : List E) × (ec : ErrorCode) × Tries attempt (ep ∷ it) tried ec
        × (connect_all connect_handler attempt (suc (length it)) ep it
            ≡ some (tried, on_connected ec))
  unfolding connect_all connect_handler
  connect_all-Tries ep [] = elim (Bool-cases (is_error (attempt ep))) [
    | inl e ↦ (ep ∷ [], attempt ep, exhausted e, refl)
    | inr e ↦ (ep ∷ [], attempt ep, accepted e, refl)
  ]
  connect_all-Tries ep (next ∷ it) =
      let (tried, ec, tries, equal) = connect_all-Tries next it in
      let again = connect_all connect_handler attempt (suc (length it)) in
      elim (Bool-cases (is_error (attempt ep))) [
        | inl e ↦ (
          ep ∷ tried,
          ec,
          refused e tries,
          ap (after_attempt again ep) (connect_handler-refused (attempt ep) next it e)
              ∙ ap (prepend ep) equal,
        )
        | inr e ↦ (
          ep ∷ [],
          attempt ep,
          accepted e,
          ap (after_attempt again ep) (connect_handler-accepted (attempt ep) (next ∷ it) e),
        )
      ]

  -- From the first endpoint on, with fuel for every other, the attempts of a tls socket end: the
  -- endpoints are tried in order up to the first that accepts; with that one the handshake begins, and
  -- if none accepts, the layer above is told the outcome of the last attempt.
  connect_all-Tries_ssl :
      (ep : E) (it : List E)
      → (tried : List E) × (ec : ErrorCode) × Tries attempt (ep ∷ it) tried ec
        × (connect_all ssl_connect_handler attempt (suc (length it)) ep it
            ≡ some (tried, ssl_outcome ec))
  unfolding connect_all ssl_connect_handler
  connect_all-Tries_ssl ep [] =
      let again = connect_all ssl_connect_handler attempt 0 in
      elim (Bool-cases (is_error (attempt ep))) [
        | inl e ↦ (
          ep ∷ [],
          attempt ep,
          exhausted e,
          ap (after_attempt again ep) (ssl_connect_handler-exhausted (attempt ep) e)
              ∙ ap (λ a. some (ep ∷ [], a)) (ssl_outcome_refused (attempt ep) e),
        )
        | inr e ↦ (
          ep ∷ [],
          attempt ep,
          accepted e,
          ap (after_attempt again ep) (ssl_connect_handler-accepted (attempt ep) [] e)
              ∙ ap (λ a. some (ep ∷ [], a)) (ssl_outcome_accepted (attempt ep) e),
        )
      ]
  connect_all-Tries_ssl ep (next ∷ it) =
      let (tried, ec, tries, equal) = connect_all-Tries_ssl next it in
      let again = connect_all ssl_connect_handler attempt (suc (length it)) in
      elim (Bool-cases (is_error (attempt ep))) [
        | inl e ↦ (
          ep ∷ tried,
          ec,
          refused e tries,
          ap (after_attempt again ep) (ssl_connect_handler-refused (attempt ep) next it e)
              ∙ ap (prepend ep) equal,
        )
        | inr e ↦ (
          ep ∷ [],
          attempt ep,
          accepted e,
          ap (after_attempt again ep) (ssl_connect_handler-accepted (attempt ep) (next ∷ it) e)
              ∙ ap (λ a. some (ep ∷ [], a)) (ssl_outcome_accepted (attempt ep) e),
        )
      ]

  -- From the first endpoint on, with fuel for every other, the attempts of a plain and of a tls socket end:
  -- the endpoints are tried in order up to the first that accepts. Of a plain socket the layer above is
  -- told the outcome of the last attempt; a tls socket begins the handshake if the last endpoint
  -- accepted, and else the layer above is told the outcome.
  pub connect_all-Tries_each :
      (ep : E) (it : List E)
      → ((tried : List E) × (ec : ErrorCode) × Tries attempt (ep ∷ it) tried ec
          × (connect_all connect_handler attempt (suc (length it)) ep it
              ≡ some (tried, on_connected ec)))
        × ((tried : List E) × (ec : ErrorCode) × Tries attempt (ep ∷ it) tried ec
            × (connect_all ssl_connect_handler attempt (suc (length it)) ep it
                ≡ some (tried, ssl_outcome ec)))
  connect_all-Tries_each ep it = (connect_all-Tries ep it, connect_all-Tries_ssl ep it)
