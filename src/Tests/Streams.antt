-- ===== src/Tests/Streams.antt =====
-- src/core/websocket_handler.cpp with a server that answers.
use flowdriver.Base.{
  ◌≡◌, ◌≢◌, ◌⊎◌, refl, Text, codes, List, [], ◌∷◌, none, some, true, false, All, is_empty,
}
use flowdriver.Types.{RequestConfig, default_config, default_result}
use flowdriver.WebSocket.Defs.{
  Uri, Net, Handler, init, Outcome, ok, throws, misused, Notice, connected, message_received,
  starts_read, reads, writes,
}
use flowdriver.WebSocket.Connect.{connect}
use flowdriver.WebSocket.Exchange.{Completion, message, execute, payload}
use flowdriver.WebSocket.Ends.{Connects, Fails, connect-Ends}
use flowdriver.WebSocket.Runs.{Event, connects, completes, after, run, Undisturbed, run-execute}
use flowdriver.WebSocket.Told.{IsTold, run-IsTold}

-- Every URL is read as that of one server.
abbrev pub serving : Net
serving = record {
  parse_uri = λ url. some (record {
    scheme = codes "wss";
    host = codes "h";
    port = none;
    path = [];
    query = codes "a=1";
  });
  attempt = λ calls. none;
  found = λ calls. true;
  message = λ calls. codes "hi";
}

abbrev secure_socket : RequestConfig
secure_socket = record default_config { url = codes "wss://h?a=1" }

abbrev greeted : List Event
greeted = connects secure_socket ∷ completes (message (codes "hi")) ∷ []

connects_secure : (connect serving secure_socket init).1.notices ≡ connected ∷ []
unfolding connect flowdriver.WebSocket.Connect.try_connect flowdriver.Base.◌==◌
    flowdriver.WebSocket.Defs.call flowdriver.WebSocket.Connect.open_stream
    flowdriver.WebSocket.Connect.open_secure
connects_secure = refl

greeted_notices :
    (run serving greeted init).notices ≡ message_received (codes "hi") ∷ connected ∷ []
unfolding run after flowdriver.WebSocket.Exchange.on_read connect
    flowdriver.WebSocket.Connect.try_connect flowdriver.Base.◌==◌ flowdriver.WebSocket.Defs.call
    flowdriver.WebSocket.Connect.open_stream flowdriver.WebSocket.Connect.open_secure
greeted_notices = refl

-- An execute behind a connect reads a stream that is being read.
executes_misused :
    (execute serving secure_socket (connect serving secure_socket init).1).0 ≡ misused
unfolding execute connect flowdriver.WebSocket.Connect.try_connect flowdriver.Base.◌==◌
    flowdriver.WebSocket.Defs.call flowdriver.WebSocket.Connect.open_stream
    flowdriver.WebSocket.Connect.open_secure flowdriver.WebSocket.Exchange.exchange
    flowdriver.WebSocket.Exchange.read
executes_misused = refl

-- An empty body is sent as one zero byte.
payload_nil : payload [] ≡ 0 ∷ []
unfolding payload
payload_nil = refl

connect-Ends_example :
    ((connect serving secure_socket init).0 ≡ ok tt)
    × (Connects serving init secure_socket (connect serving secure_socket init).1
        ⊎ Fails init (connect serving secure_socket init).1)
connect-Ends_example = connect-Ends serving init secure_socket

run-execute_example :
    (execute serving secure_socket (run serving greeted init)).0 ≢ ok default_result
unfolding Undisturbed
run-execute_example = run-execute serving greeted (tt, (tt, tt)) secure_socket default_result

run-IsTold_example : All (IsTold (run serving greeted init)) (run serving greeted init).notices
run-IsTold_example = run-IsTold serving greeted
