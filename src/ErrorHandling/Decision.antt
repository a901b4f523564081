-- ===== src/ErrorHandling/Decision.antt =====
-- The decision about a request that came back, case by case.
use asio_http.Base.{
  ℕ, Bool, true, false, ◌&&◌, [], Option, none, some, Bytes, codes, is_empty, ◌≡◌, refl, ap, ◌∷◌,
  ◌≢◌, ◌⊎◌, inl, inr, arith, Bool-cases, Outcome, returned, thrown, Exception,
}
use asio_http.Headers.{get_header}
use asio_http.Url.{Url}
use asio_http.Url.Parse.{get_url_components}
use asio_http.Request.{HttpRequest, HttpResultData}
use asio_http.Errors.{ErrorCode, success, broken_pipe, connection_reset, eof, http_parser, is_error}
use asio_http.ErrorHandling.{is_retriable, is_redirection, follow, process_errors}

-- The server closed the connection under the request, or the parser met its end too early.
abbrev pub IsClosed : ErrorCode → Type 0
IsClosed ec = (ec ≡ broken_pipe) ⊎ (ec ≡ connection_reset) ⊎ (ec ≡ eof) ⊎ (ec ≡ http_parser 11)

-- Which answer belongs to an error code and a result that holds its request.
pub data Decides (cast : Bytes → Option ℕ) (ec : ErrorCode) (result : HttpResultData)
    (request : HttpRequest) : Outcome (Bool × Option HttpRequest) → Type 0 where
  again : IsClosed ec → Decides cast ec result request (returned (true, none))
  final :
      ¬ IsClosed ec
      → (is_redirection result.status_code ≡ false)
        ⊎ (get_header result.headers (codes "Location") ≡ [])
      → Decides cast ec result request (returned (false, none))
  redirected :
      (target : Url)
      → ¬ IsClosed ec
      → is_redirection result.status_code ≡ true
      → get_url_components cast (get_header result.headers (codes "Location")) ≡ returned target
      → Decides cast ec result request (returned (true, some (record request { url = target })))
  refused :
      (e : Exception)
      → ¬ IsClosed ec
      → is_redirection result.status_code ≡ true
      → get_header result.headers (codes "Location") ≢ []
      → get_url_components cast (get_header result.headers (codes "Location")) ≡ thrown e
      → Decides cast ec result request (thrown e)

test-IsClosed : (ec : ErrorCode) → (is_error ec && is_retriable ec) ≡ true → IsClosed ec
unfolding is_error is_retriable
test-IsClosed success h = ground arith
test-IsClosed other h = ground arith

IsClosed-test : (ec : ErrorCode) → IsClosed ec → (is_error ec && is_retriable ec) ≡ true
unfolding is_error is_retriable
IsClosed-test success h = ground arith
IsClosed-test other h = ground arith

Outcome-cases {ℓ} :
    {A : Type ℓ} (o : Outcome A) → ((a : A) × (o ≡ returned a)) ⊎ ((e : Exception) × (o ≡ thrown e))
Outcome-cases (returned a) = inl (a, refl)
Outcome-cases (thrown e) = inr (e, refl)

is_empty_eq : (s : Bytes) → is_empty s ≡ true → s ≡ []
is_empty_eq [] h = refl
is_empty_eq (c ∷ s) h = cc

is_empty_ne : (s : Bytes) → is_empty s ≡ false → s ≢ []
is_empty_ne s h e = cc (ap is_empty e)

module _ (cast : Bytes → Option ℕ) (ec : ErrorCode) (result : HttpResultData)
    (request : HttpRequest) where
  follow-Decides :
      ¬ IsClosed ec
      → is_redirection result.status_code ≡ true
      → result.request ≡ some request
      → Decides cast ec result request (follow cast result)
  unfolding follow
  follow-Decides open_ redirection e =
      let location = get_header result.headers (codes "Location") in
      elim (Bool-cases (is_empty location)) [
        | inl nowhere ↦ rw (e, nowhere) (final open_ (inr (is_empty_eq location nowhere)))
        | inr somewhere ↦ elim (Outcome-cases (get_url_components cast location)) [
          | inl (target, found) ↦
              rw (e, somewhere, found) (redirected target open_ redirection found)
          | inr (x, bad) ↦
              rw (e, somewhere, bad)
                (refused x open_ redirection (is_empty_ne location somewhere) bad)
        ]
      ]

  -- The answer to a result is, in this order: the same request again if the server closed the
  -- connection; a final one if the status is no redirection or no location is given; the request
  -- at the url of the location, with nothing else changed; or the exception of that url's parser.
  pub process_errors-Decides :
      result.request ≡ some request → Decides cast ec result request (process_errors cast ec result)
  unfolding process_errors
  process_errors-Decides e = elim (Bool-cases (is_error ec && is_retriable ec)) [
    | inl closed ↦ rw closed (again (test-IsClosed ec closed))
    | inr not_closed ↦
        let open_ : ¬ IsClosed ec = λ h. cc (IsClosed-test ec h, not_closed) in
        elim (Bool-cases (is_redirection result.status_code)) [
          | inl redirection ↦ rw (not_closed, redirection) (follow-Decides open_ redirection e)
          | inr answer ↦ rw (not_closed, answer) (final open_ (inl answer))
        ]
  ]
