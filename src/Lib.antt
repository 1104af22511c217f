-- ===== src/Lib.antt =====
-- FlowDriver is a desktop client for REST, WebSocket, ZeroMQ and gRPC. A RequestManager
-- (src/models/request_manager.cpp, include/models/request_manager.hpp) stands behind the user
-- interface: it owns one handler per protocol, starts and cancels requests, polls the future of a REST
-- request with a timer, passes the signals of the handlers on, and takes the headers of the
-- authentication from an AuthModel. The handlers do the exchanges over Boost, libzmq and gRPC.
--
-- The files, and the code that they model:
--   Types     include/core/types.hpp and error.hpp: headers, configurations, results, errors.
--   Protocol  src/core/protocol_handler.cpp: validateConfig of the base class of the handlers.
--   Url       src/core/rest_handler.cpp, parseUrl. Url/Grammar and Url/Shape: what it answers.
--   Rest      src/core/rest_handler.cpp, executeAsync: Rest/Defs the request, the network and the
--             exchange, Rest/Context the SSL context and cancel, Rest/Exchange how an exchange ends.
--   Auth      Auth/Manager: src/core/auth_manager.cpp. Auth/Model: src/models/auth_model.cpp and its
--             header. Auth/Agreement: the two against each other, and clear.
--   Zeromq    src/core/zeromq_handler.cpp and its header. Zeromq/Defs: the state, libzmq and the
--             exceptions; Socket: the calls of libzmq; Configure: close, configure and the options;
--             Execute: execute and sendMessage; Receive: the rounds of the polling thread; Threads:
--             the calling thread and the polling thread, whose accesses to what they share
--             interleave; Settings: the options of a socket by the calls made. The other children
--             hold the theorems.
--   WebSocket src/core/websocket_handler.cpp and its header. WebSocket/Defs: the state, Boost and the
--             exceptions; Connect: connect, doRead, close; Exchange: execute, the callbacks and the
--             reads that end. Opening, Ends, Runs, Told and Plain hold the theorems.
--   Grpc      src/core/grpc_handler.cpp and its header. Grpc/Defs: the state, Protocol Buffers and gRPC;
--             Services: descriptors, channel and metadata; Execute: execute and executeMethod;
--             Serialize: serializeRequest and deserializeResponse. Lookup, Dangling and Calls hold
--             the theorems.
--   Manager   src/models/request_manager.cpp and its header. Manager/Defs: the state, the signals and
--             the surroundings; Protocols: the constructor, initializeProtocolHandler and
--             setCurrentProtocol; Notices: the signals of the WebSocket handler; Requests: REST and
--             WebSocket; Messages: ZeroMQ and the export; Export: saveResponseToFile; GrpcCalls:
--             gRPC; Steps: all calls and events as one step. The other children hold the theorems:
--             Leaving and Stepping carry a property of the handlers over every event, for Polling,
--             Progress and Session.
--   Models    src/models/headers_model.cpp, query_model.cpp, body_model.cpp and response_model.cpp
--             with their headers. Models/View: what a view of Qt does with the signals; Shown and
--             ShownQuery hold the theorems.
--   Benchmark src/testing/benchmark_engine.cpp with its headers: the validation, the workers and the
--             counts. Benchmark/Bounds: the bounds of the counts.
--   Display   a REST request from the manager's call over the exchange to the response model, which
--             qml/main.qml connects to the manager.
--   Base      what the modules share. Tests: the theorems at concrete inputs.
--
-- A method is a function with the name of the method in small letters (setCurrentProtocol is
-- set_current_protocol); the state of its object is a record, with the fields that the code has. A
-- signal that is emitted is put in front of the record's list of signals. A text is the list of its
-- bytes in UTF-8, so that the conversions between QString and std::string change nothing (for valid
-- texts). Log output and waiting have no counterpart.
--
-- Code that is not part of the repository is a parameter: libzmq is a record of functions from the
-- calls made so far to its answer, so that every behaviour over time is allowed; Protocol Buffers,
-- gRPC, Boost.Asio and Boost.Beast, the base64 encoders, nlohmann::json, Qt's JSON, texts and
-- numbers, and the exceptions of constructors and of std::async are functions or records of them
-- too. An exception of libzmq, an Error and a use of a null or a dangling pointer are outcomes.
-- Handlers have the number of their allocation for an address, and a descriptor of Protocol Buffers
-- stands with the importer that owns it, so that a dangling pointer is seen.
--
-- Fuel: only the loop that reads the frames of a message has fuel, the number of its rounds. A message
-- has finitely many frames, and Zeromq.Replies.EndsWithin says that the fuel covers them, or the
-- message is given with at most as many frames as the fuel; then running out of fuel does not occur.
-- The loop of the polling thread goes over the answers of zmq::poll that come, any list of them.
--
-- Interleavings: what threads share is changed by single steps, and a list of turns says whose step is
-- next; a statement for every list holds for every interleaving. Counters of 64 bits wrap around.
--
-- A request in flight has the number of the handler that executes it. A handler that is destroyed
-- under it leaves a state in which that number is not the REST handler's (Parts.runs_on in Manager):
-- what the thread of std::async then does is undefined and has no model, so that what is said of the
-- answers of such a future holds where the thread got to its end all the same.
--
-- Not modelled: the future that executeAsync makes of an exchange, but for its answers to checkRequest
-- and the wait of a dropped one; the time between an emission of the polling thread and its queued
-- delivery, at which m_currentRole is read: a round of the thread stands at the delivery; a wait of
-- WebSocketHandler::close for the peer; the system_error that starting a polling thread may throw, an
-- exception of libzmq in the test for more frames, and one of Boost.Beast while the fields of a REST
-- request are set; the messages that several threads have under way in one handler at
-- once; the clock and the requests per second of a benchmark, which is not part of the build; log
-- output.
pub mod Base
pub mod Types
pub mod Protocol
pub mod Url
pub mod Rest
pub mod Auth
pub mod Zeromq
pub mod WebSocket
pub mod Grpc
pub mod Manager
pub mod Models
pub mod Benchmark
pub mod Display
pub mod Tests
