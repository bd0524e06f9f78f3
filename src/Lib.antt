-- ===== src/Lib.antt =====
-- market-bridge is a proxy: it accepts HTTP and HTTPS connections, answers /health itself, limits the
-- rate of requests and sends the others to one upstream server over TLS. The library models its code
-- under src/, file by file.
--
-- The parts and how they interact. main.cpp (Main) has the command line read (common/app.h: Args), which
-- loads the JSON file (config/config_json.cpp, config/config_json.h, common/config.h: Config) and puts
-- the arguments over it; then it runs the server (server.h, server.cpp: Server). The server prints the
-- table of startup-table.cpp (StartupTable), accepts connections, and makes a session of each
-- (http-session.h, http-session.cpp: Session), which reads a request (utils/http-helper.h: Http), asks
-- the rate limiter (tocken-bucket.cpp, common/rate-limiter.h: TokenBucket, Server/Limiter) and answers,
-- or sends a request of its own to the upstream and hands the response on.
--
-- How state and code correspond.
--   Base          shared notation, lists, texts, decimal numbers, std::map, exceptions, integers.
--                 A text is the list of its bytes.
--   Http          HttpRequest, HttpResponse, their to_string, parse_request, generate_http_response and
--                 OutgoingSession::generate_request (Http/Message, Http/Parse). A stream is what is left
--                 of it. Http/Delimiter has what asio's async_read_until documents of the read of a
--                 header (IsReadUntil): the bytes up to the delimiter's first end.
--   TokenBucket   the record of the class; allow, reset and refill take the time of the clock in
--                 nanoseconds. The arithmetic of double is the parameter Double; the laws that bounds
--                 need are IsOrdered, and rates are counted in the instance `exact`.
--   Config        the readers in the result type of Base/Result, over a parameter JsonLibrary for
--                 nlohmann::json and Spdlog for the levels. The file system is a function. What writes
--                 through a reference, merge_json_config with its sections and load_json_config,
--                 returns what the reference denotes afterwards beside how the call ended (Done), so
--                 that a merge that throws leaves what it has written.
--   Args          process_arguments behind cxxopts, which is the parameter Parser. Args/Layers says of
--                 each field what the arguments make of it.
--   Session       the members of HTTPSession and OutgoingSession as one record. Its coroutines run on one
--                 strand; each wait is an `Op` in `pending`, a handler is a function on the record from
--                 one wait to the next (Session/Handlers), and Session/Steps lets any outstanding
--                 operation complete with any result, or the server call stop. `sent` and `forwarded`
--                 keep what was handed to the two sockets. A response counts as handed over when its
--                 write begins on an open socket. Of the client's side of TLS it keeps what
--                 init_tls_context and init_ssl have set.
--   Server        the registry under its mutex and schedule_shutdown as steps of threads
--                 (Server/Registry, Server/Shutdown), the loop of listener over its rounds
--                 (Server/Listener), the dispatch and the once-only TLS set-up (Server/Tls), its body
--                 init_ssl_context over the calls of OpenSSL (Server/TlsSetup), and the way from a
--                 connection over handshake_session.cpp to a started session (Server/Intake).
--                 Server/Handshake has the sessions of handshake_session.h with the server's side of them.
--                 Server/Schedule is schedule_shutdown as one call; Server/Loop has what keeps
--                 io_.run() busy besides the sessions: the listeners, the handler of the signals and
--                 close_acceptors, each step what one thread does before another can see it.
--   System        the server together with all its HTTP sessions, which share the limiter: a session is
--                 launched, an operation of any session completes at a time of the clock, the flag is
--                 set, stop is called. on_request's call of the limiter is made there for the session
--                 (asks_limiter); a session by itself leaves the verdict open.
--   Run           Server::run as a whole: the event loop, the dispatches and handshakes on the way from a
--                 connection to a session, the sessions of System, and stop_sessions between the flag
--                 and close_acceptors, as one step relation over the functions of the parts.
--   Logger, Main  init_logger on Linux over the record Host of what the environment, the file system and
--                 spdlog's factories answer; main, with the run of the server as a parameter.
--   Examples      tests at concrete inputs, with small libraries for JSON and levels.
--
-- Bounds and fuel. A port is a 16-bit, a limit a 32-bit integer; the casts of read_port and read_uint32
-- keep their wrap-around, as does the 64-bit counter of session identifiers. The header loop runs on the
-- number of bytes left as fuel; each round reads a byte at least. All other loops are structural. A
-- session's run is bounded by ranks of its operations (Session/Termination), the event loop's by what is
-- left at each listener, the signals and the shutdown (Server/Loop/Ends), and the run of the whole
-- server by both together (Run/Potential).
--
-- Not modelled: sockets, TLS and timers themselves (their results are chosen by the environment), the
-- log's texts and pattern, show_usage and ssl_info_callback, which only print; the branches of
-- init_logger and init_tls_context for other systems than Linux; is_http_status_ok, UrlEntry and shutdown_socket, which
-- nothing uses. Exceptions that a handler of a session throws into its detached coroutine are modelled
-- for the handshake with the upstream only, and set_default_verify_paths for the one that its caller
-- catches; socket.close() and the setters of the upstream stream's verification are taken to return.
pub mod Base
pub mod Http
pub mod TokenBucket
pub mod Config
pub mod Args
pub mod Session
pub mod Server
pub mod System
pub mod Run
pub mod StartupTable
pub mod Logger
pub mod Main
pub mod Examples
