-- ===== src/Lib.antt =====
-- asio_http: a client library for http on boost asio, modelled and verified.
--
-- The program. A client (interface/asio_http/http_client.h) posts requests to a request manager on a
-- strand. The manager keeps every request in a container with three indices, starts the first one by
-- state and age while fewer than the limit are in progress, and gives it a connection of the pool. A
-- connection is a tuple of layers: http_content on top, which holds the request in progress, a
-- pass-through layer encoding, the exchange http_client_connection, which drives http_parser, and a
-- socket. When a response or an error comes back, the manager returns the connection, and either
-- completes the request or retries it, on another url after a redirection.
--
-- Which file models which part (paths from the root of the repository, where internal/ is
-- implementation/interface/asio_http/internal/):
--   Base            the shared names, tests on numbers, lists, bytes, counting, calls that may throw
--   Headers         interface/asio_http/http_request_result.h: iequals, get_header
--   Url             interface/asio_http/url.h, implementation/url.cpp: Match is the regular expression
--                   by its greedy choices, Parse is get_url_components, Shape the expression as a
--                   decomposition, Decimal the printing of a number
--   Request         http_request.h, http_client_settings.h, and http_result_data of http_content.h
--   Errors          boost::system::error_code and error.h
--   ErrorHandling   implementation/http_error_handling.cpp: process_errors, create_redirection
--   Pool            implementation/connection_pool.cpp: get_connection, create_stack,
--                   release_connection; the map from host and port to stacks of idle connections;
--                   Layers is allocate_layers and connect_layers, which join the layers of a stack
--   Manager         implementation/request_manager.cpp and internal/request_data.h: the container,
--                   every task of the strand; Requests is the ordered list, Steps the step relation of
--                   the strand with its environment
--   Compression     implementation/compression.cpp: compress, decompress_gzip, decompress_deflate
--   Body            implementation/data_source.cpp and data_sink.cpp
--   Stack           the layers of one connection: Content is internal/http_content.h called from below,
--                   Encoding is internal/encoding.h, Connection is internal/http_client_connection.h,
--                   Start has start and cancel of http_content.h, close, and the reaction to an event
--   Socket          internal/socket.h: the handlers by which a plain and a tls socket connect; Device is a
--                   socket with all its operations, Kinds and Answers which calls are answered
--   Sharing         internal/tuple_ptr.h: the counts of a control block, and the pointers to it;
--                   Comparisons has the operators on two pointers
--   System          the manager with its connections, each of which runs the code of Stack on a strand of
--                   its own: Handover is what they post to each other, Reactions how a connection
--                   reacts, Refinement that the whole refines the steps of the manager
--   Client          interface/asio_http/http_client.h and implementation/http_client.cpp; RoundTrip is what
--                   the calls post
--   Completion      interface/asio_http/coro_handler.h, future_handler.h and
--                   implementation/completion_handler_invoker.cpp: what resumes a coroutine and what sets a
--                   promise
--   TestServer      test_server/interface/asio_http/test_server/test_server.h: Search has the searches in
--                   memory, Resource the decoding of a path, Client the state of a web_client and what it
--                   takes from a request, Reply what it writes, Handlers what is called with bytes read,
--                   Server the acceptor
--
-- State and operations. A struct is a record with the fields of the source without the prefix m_, and
-- an operation is a function from the state to the new state, under the name it has in the source.
-- A call that may throw, or that dereferences a pointer that may be null, returns an Outcome. Calls
-- that leave the model are entries of a log: the effects of the manager, and the calls of a stack on
-- its socket, timer and callback. The container of requests is one list in the order of its index by
-- state and time; the other two indices are searched in it. Posted work is the list `strand` of the
-- manager, and the step relation lets the environment submit, run and complete in any order. A text
-- is a list of bytes.
--
-- The manager has two environments. In Manager/Steps a connection is whatever calls back once for each
-- start; in System each connection is a stack of layers that reacts to what is posted to it and to its
-- socket and timer, and its callbacks are the tasks of the manager. A connection is known by its address.
-- The memory that a web_client reads is the list of bytes that can be read from a pointer on, with the
-- bytes behind its buffer as a parameter; a read beyond them throws.
--
-- What lies outside is a parameter: boost::lexical_cast, zlib, http_parser, the allocator of addresses,
-- and the handlers that a test gives to its server. One call of http_parser_execute is a tree of callbacks, on whose results it goes on, so
-- it may call back in any order. Zlib is a record of its calls; what is assumed of it, that it writes no
-- more than its buffer and returns Z_OK only while it makes progress, is the record IsProgressing.
--
-- Integers are natural numbers with their wrap-around written out where the source computes with them:
-- the allocations (64 bits), the retries (32 bits), the sizes of data_sink (32 bits), avail_in of zlib (32 bits) and the size of the
-- buffer of decompress_deflate (64 bits).
--
-- Fuel. The loop of compress and decompress_gzip has fuel for one more call than may return Z_OK. The
-- loop of decompress_deflate has 64 rounds, which double its size past 2^64. Printing has one round for
-- each digit of the widest value: five for a port, twenty for a size. The attempts of a socket have one for each endpoint. All other loops are structural.
--
-- Not modelled: what asio and its tls context do, the interleavings of several threads in
-- internal/tuple_ptr.h (outside Sharing a shared pointer is null or not), the templates of
-- connection_pool.cpp that compute the types of a stack, the coroutine that awaits (a number stands
-- for it), logging, the statistics of a result, and what a manager does after one of its tasks threw. Only
-- `process_errors` throws there, for a redirection to a location that is no url; its exception leaves
-- `run_task` as a value, `left_behind` is the state of the manager then, which Manager/Steps/Thrown
-- describes, and the states called reachable are those before which no task threw. The parser and loguru are third-party code, and the
-- tests are not part of the library.
mod Base
pub mod Headers
pub mod Url
pub mod Request
pub mod Errors
pub mod ErrorHandling
pub mod Pool
pub mod Manager
pub mod Compression
pub mod Body
pub mod Stack
pub mod Sharing
pub mod Socket
pub mod System
pub mod Client
pub mod Completion
pub mod TestServer
