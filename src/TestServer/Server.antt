-- ===== src/TestServer/Server.antt =====
-- test_server.h: the `web_server`, which makes a client for each connection that it accepts.
use asio_http.Base.{ℕ, suc, List, [], ◌∷◌, ◌++◌}
use asio_http.Errors.{ErrorCode}
use asio_http.TestServer.Client.{WebClient, web_client}
use asio_http.TestServer.Reply.{start_reading}

-- How many times the acceptor was asked for a connection, and the clients, which live in their handlers.
pub record WebServer : Type 0 where
  pub accepts : ℕ
  pub clients : List WebClient

unfoldable pub start_accept : WebServer → WebServer
start_accept s = record s { accepts = suc s.accepts }

unfoldable pub web_server : WebServer
unfolding start_accept
web_server = start_accept (record { accepts = 0; clients = [] })

-- The error is not looked at.
unfoldable pub handle_accept : ErrorCode → WebServer → WebServer
unfolding start_accept start_reading
handle_accept error_code s =
    start_accept (record s { clients = s.clients ++ (start_reading web_client ∷ []) })
