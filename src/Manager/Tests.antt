-- ===== src/Manager/Tests.antt =====
-- Cancellation by token.
use asio_http.Base.{◌<◌, Bool, true, List, [], ◌∷◌, codes, ◌≡◌, refl, count_by}
use asio_http.Request.{HttpRequest, HttpMethod, CompressionPolicy, no_ssl, default_timeout_msec}
use asio_http.Manager.Requests.{Node, request_data}
use asio_http.Manager.Requests.Tokens.{has_token, reaches}
use asio_http.Manager.{cancelled_nodes}
use asio_http.Manager.Cancellation.{cancelled_nodes-empty, cancelled_nodes-token}

abbrev page : HttpRequest
page = record {
  http_method = HttpMethod.get;
  url = record {
    protocol = codes "http";
    host = codes "a";
    path = codes "/";
    query = [];
    port = 80;
  };
  timeout_msec = default_timeout_msec;
  certificates = no_ssl;
  http_headers = [];
  post_data = [];
  compression_policy = CompressionPolicy.never;
}

abbrev three : List Node
three =
    record { id = 0; request = request_data page 1 0 (codes "b") 0 }
    ∷ record { id = 1; request = request_data page 2 0 (codes "a") 1 }
    ∷ record { id = 2; request = request_data page 3 0 (codes "c") 2 }
    ∷ []

abbrev every_node : Node → Bool
every_node n = true

cancelled_nodes-empty_example :
    count_by every_node (cancelled_nodes [] three) ≡ count_by every_node three
cancelled_nodes-empty_example = cancelled_nodes-empty every_node three

-- The token "b" visits the requests with "b" and with "c".
cancelled_nodes-token_example :
    (count_by (has_token (codes "b")) three ≡ 0 → cancelled_nodes (codes "b") three ≡ [])
    × ((p : Node → Bool)
        → 0 < count_by (has_token (codes "b")) three
        → count_by p (cancelled_nodes (codes "b") three) ≡ count_by (reaches (codes "b") p) three)
cancelled_nodes-token_example = cancelled_nodes-token (codes "b") three refl
