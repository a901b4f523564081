-- ===== src/Manager/Cancellation.antt =====
-- Which requests `cancel_requests` visits.
use asio_http.Base.{
  ◌<◌, Bool, false, List, [], Bytes, is_empty, if◌then◌else◌, ◌≡◌, ◌∙◌, arith, count_by,
}
use asio_http.Manager.Requests.{Node, by_token}
use asio_http.Manager.Requests.Tokens.{
  has_token, reaches, by_token-IsTokenSorted, count_by-by_token, from_token-reaches, from_token-nil,
}
use asio_http.Manager.{cancelled_nodes}

-- The empty token visits every request once.
pub cancelled_nodes-empty :
    (p : Node → Bool) (nodes : List Node) → count_by p (cancelled_nodes [] nodes) ≡ count_by p nodes
unfolding cancelled_nodes
cancelled_nodes-empty p nodes = count_by-by_token p nodes

-- A token that no request has visits none. If some request has the token, all requests whose
-- tokens are not less in the order of std::string are visited, those with a greater token too.
pub cancelled_nodes-token :
    (token : Bytes) (nodes : List Node)
    → is_empty token ≡ false
    → (count_by (has_token token) nodes ≡ 0 → cancelled_nodes token nodes ≡ [])
      × ((p : Node → Bool)
          → 0 < count_by (has_token token) nodes
          → count_by p (cancelled_nodes token nodes) ≡ count_by (reaches token p) nodes)
unfolding cancelled_nodes
cancelled_nodes-token token nodes e =
    let same = count_by-by_token (has_token token) nodes in
    (
      λ gone. rw e (from_token-nil token (by_token nodes) (same ∙ gone)),
      λ p some_has.
          rw (e, if◌then◌else◌)
            (from_token-reaches token p (by_token nodes) (by_token-IsTokenSorted nodes)
                (omega (arith, same))
              ∙ count_by-by_token (reaches token p) nodes),
    )
