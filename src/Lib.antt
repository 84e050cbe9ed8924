-- ===== src/Lib.antt =====
-- A library for messages over TCP, and its verification. Clients send requests, publish messages and
-- subscribe to types; a server accepts connections, hands packages to its handlers and sends what it
-- publishes to the sessions that subscribed; a build with MSGBUS relays between clients.
--
-- The parts, and the files of this library that model them:
--   * Package: asio/internal/Package.h, the packed header, packages and error codes. An `int` or a
--     `short` is its bit pattern, and a packed header is 20 bytes.
--   * Buffer: asio/internal/Buffer.h and Buffer.cpp, a byte vector with a read and a write index. Every
--     method is a function of the state. A read outside of the vector is the result `overrun`, and
--     `Exec` is the type of such results. The release build is modelled, in which the assertions
--     do nothing.
--   * ProtoHelp: asio/internal/ProtoHelp.cpp, `encode` and `decode`. The messages, their registry and
--     zlib are third-party code: they are the fields of the record `Platform`, and `IsLawful` says what
--     is relied on. Platform.Sample is a concrete platform that satisfies it.
--   * SessionRoom: asio/internal/Session.cpp, who is there and who is subscribed to what.
--   * Session: asio/internal/Session.cpp, one connection of the server. Its read handler decodes what has
--     arrived and hands it on, its write deque holds one write under way.
--   * RequestMessage: asio/internal/AsioClient.cpp, the requests of a client that wait for a response.
--   * Handler: asio/internal/AsioClient.h, the handlers of publications and deliveries of a client.
--   * AsioClient: asio/internal/AsioClient.cpp. AsioClient posts, writes, reads and answers;
--     AsioClient.Connection connects, closes, subscribes and beats, and has all that can happen to a
--     client as one step; AsioClient.Waiting has the calls that block, `sendMessage` and
--     `waitConnected`. MsgClient: the facade asio/msgclient.cpp, and `BusStub` of asio/msgbus.cpp, over it.
--   * ThreadPool: asio/internal/ThreadPool.h, the bounded queue. ThreadPool.Steps is the step relation of
--     its threads and callers.
--   * TaskManager: asio/internal/TaskManager.cpp, which thread handles a package.
--   * AsioServer: asio/internal/AsioServer.cpp. AsioServer has the handler of subscription requests;
--     AsioServer.Server is the whole server as one state (its sessions by their ids, its room, its tasks
--     and the state of the service's methods), AsioServer.Server.Tasks what its tasks do, and
--     AsioServer.Server.Events all that can happen to it, one handler or one call at a time.
--   * MsgBus: asio/msgbus.cpp, the relay of a build with MSGBUS.
--   * Exchange: a client and a server together, with the network between them: a function that cuts the
--     bytes of a write into the pieces in which they are read.
--   * BaseHandler: server/main.cpp, the methods of the example server, on threads that run at once.
--     Connector: connector/Connector.cpp, what the dialog keeps, with its widgets as lists and strings.
--   * Strutil: asio/tool/strutil.cpp, the helpers on strings: splitting, joining, replacing, searching,
--     numbers. Util: asio/tool/util.cpp, how sizes and times are printed. A `std::string` is a list of bytes, and `npos`
--     is its number.
--   * Prelude: lists, tests, association lists and machine words, shared by all.
-- A session, a client and a server meet in the bytes of ProtoHelp; the server's TaskManager calls the
-- handlers of AsioServer, which call the SessionRoom, which calls the sessions.
--
-- What runs under one lock, or in one handler of an io_service, is one function. What it starts (a read,
-- a write, a posted handler, a timer) is kept in the state, and its end is an event, so an interleaving
-- is a list of events. The clock is an argument, and callbacks are values that are listed with their
-- arguments when they are called.
--
-- Fuel: `goto_flag` and `decode` have a round for each byte that is held and one more, which is enough
-- as each round takes a byte at least; the loop of the read handlers has as many rounds, as each
-- package takes bytes.
--
-- `waitConnected` has a round for each 100 milliseconds of its limit and two more, which is enough as each
-- round costs 100 milliseconds; the loops of Strutil have a round for each byte of the string and one more.
--
-- Not modelled: the generated code of asio/proto and of the Qt tools; logging, the clock, sleeping,
-- reading files and the memory of the process in asio/tool, which are input and output; the threads
-- themselves, the destructors and the `main` functions; the set-up of the widgets in connector.
pub mod Prelude
pub mod Package
pub mod Platform
pub mod Strutil
pub mod Buffer
pub mod ProtoHelp
pub mod SessionRoom
pub mod Session
pub mod RequestMessage
pub mod Handler
pub mod AsioClient
pub mod ThreadPool
pub mod TaskManager
pub mod MsgBus
pub mod AsioServer
pub mod Exchange
pub mod MsgClient
pub mod BaseHandler
pub mod Connector
pub mod Util
