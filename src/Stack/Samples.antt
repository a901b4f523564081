-- ===== src/Stack/Samples.antt =====
-- A parser that takes each piece of input for a whole response, and a request, for the tests.
use asio_http.Base.{ℕ, true, [], codes, length}
use asio_http.Url.{Url, protocol_http}
use asio_http.Request.{HttpRequest, post, never, no_ssl}
use asio_http.Stack.{
  HttpParser, called, finished, on_headers_complete, on_body, on_message_complete,
}

abbrev pub taking : HttpParser
taking = record {
  State = ℕ;
  init = 0;
  execute = λ p bytes. called (on_headers_complete 200) (λ _.
      called (on_body bytes)
        (λ _. called (on_message_complete true) (λ _. finished (length bytes) p)));
  errno = λ p. p;
}

abbrev pub home : Url
home = record {
  protocol = protocol_http;
  host = codes "a";
  path = codes "/";
  query = [];
  port = 80;
}

abbrev pub request : HttpRequest
request = record {
  http_method = post;
  url = home;
  timeout_msec = 1000;
  certificates = no_ssl;
  http_headers = [];
  post_data = codes "abc";
  compression_policy = never;
}
