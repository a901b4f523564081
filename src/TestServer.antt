-- ===== src/TestServer.antt =====
-- test_server/interface/asio_http/test_server/test_server.h: the server that the tests talk to.
pub mod Search
pub mod Resource
pub mod Client
pub mod Reply
pub mod Handlers
pub mod Server
mod Tests
