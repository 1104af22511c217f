-- ===== src/Tests/Managers.antt =====
-- src/models/request_manager.cpp, from the constructor on.
use flowdriver.Base.{Text, codes, List, [], ◌∷◌, none, some, Bool, true, false, not, ◌≡◌, ◌↔◌, refl}
use flowdriver.Types.{default_result}
use flowdriver.Zeromq.Defs.{Role, req_rep, init as zmq_init}
use flowdriver.Zeromq.Configure.{available_roles}
use flowdriver.Zeromq.Roles.{listed}
use flowdriver.Manager.Defs.{World, Manager, Run, done, crashes}
use flowdriver.Manager.Protocols.{init}
use flowdriver.Manager.Requests.{
  execute_request, cancel_request, check_request, completes, validate_rest_request,
}
use flowdriver.Manager.Messages.{connect_zmq}
use flowdriver.Manager.Steps.{
  Reachable, starts, steps, step, request, protocol_chosen, is_sound, is_due,
}
use flowdriver.Manager.Invariant.{Reachable-is_sound}
use flowdriver.Manager.Cancelling.{
  Returns, StillAnswers, cancel_request-StillAnswers, check_request-settles, is_ready,
}
use flowdriver.Manager.Starting.{asked, RequestEnds, execute_request-RequestEnds}
use flowdriver.Manager.Connecting.{connect_zmq-crashes_iff}
use flowdriver.Manager.Validation.{IsHttp, contains, valid_methods, validate_rest_request-none_iff}
use flowdriver.Manager.Defs.{pending}
use flowdriver.Manager.Protocols.{set_current_protocol}
use flowdriver.Tests.Sockets.{lively}
use flowdriver.Tests.Calls.{echo}
use flowdriver.Tests.Streams.{serving as reachable_server}
use flowdriver.WebSocket.Defs.{init as blank_socket}
use flowdriver.Manager.Requests.{connect_web_socket}
use flowdriver.Manager.Linking.{Links, is_socket_url, connect_web_socket-Links}

-- Nothing fails.
abbrev pub world : World
world = record {
  zmq = lively;
  grpc = echo;
  base64 = λ t. t;
  constructs = λ n. none;
  launches = λ c. none;
  websocket = reachable_server;
}

abbrev pub left : Run → Manager
left (done m) = m
left _ = init world

abbrev pub started : Manager
started = left (step world (request (codes "GET") (codes "http://h/") [] []) (init world))

abbrev messaging : Manager
messaging = left (step world (protocol_chosen (codes "ZeroMQ")) (init world))

pub started-Reachable : Reachable started
unfolding step execute_request init flowdriver.Manager.Protocols.initialize
    flowdriver.Manager.Protocols.construct flowdriver.Manager.Defs.protocol_name
    flowdriver.Base.◌==◌ flowdriver.Manager.Protocols.release_handlers validate_rest_request
    flowdriver.Base.starts_with flowdriver.Manager.Requests.is_valid_method
    flowdriver.Manager.Requests.start_request flowdriver.Manager.Protocols.set_current_protocol
started-Reachable =
    steps world (request (codes "GET") (codes "http://h/") [] []) (starts world) refl

Reachable-is_sound_example : is_sound started ≡ true
Reachable-is_sound_example = Reachable-is_sound started-Reachable

cancel_request-StillAnswers_example :
    Returns (StillAnswers default_result) (cancel_request world started)
unfolding step execute_request init flowdriver.Manager.Protocols.initialize
    flowdriver.Manager.Protocols.construct flowdriver.Manager.Defs.protocol_name
    flowdriver.Base.◌==◌ flowdriver.Manager.Protocols.release_handlers validate_rest_request
    flowdriver.Base.starts_with flowdriver.Manager.Requests.is_valid_method
    flowdriver.Manager.Requests.start_request flowdriver.Manager.Protocols.set_current_protocol
cancel_request-StillAnswers_example =
    cancel_request-StillAnswers world started-Reachable refl default_result

check_request-settles_example :
    (is_due started.timers ≡ true)
    × ((check_request (completes default_result) started).is_loading
        ≡ not (is_ready (completes default_result)))
unfolding step execute_request init flowdriver.Manager.Protocols.initialize
    flowdriver.Manager.Protocols.construct flowdriver.Manager.Defs.protocol_name
    flowdriver.Base.◌==◌ flowdriver.Manager.Protocols.release_handlers validate_rest_request
    flowdriver.Base.starts_with flowdriver.Manager.Requests.is_valid_method
    flowdriver.Manager.Requests.start_request flowdriver.Manager.Protocols.set_current_protocol
check_request-settles_example =
    check_request-settles started-Reachable refl (completes default_result)

execute_request-RequestEnds_example :
    RequestEnds
      (asked (codes "PUT") (codes "https://h") [] (codes "b") world (init world))
      world
      (init world)
      (execute_request world (codes "PUT") (codes "https://h") [] (codes "b") (init world))
unfolding init flowdriver.Manager.Protocols.initialize flowdriver.Manager.Protocols.construct
    flowdriver.Manager.Defs.protocol_name flowdriver.Base.◌==◌
    flowdriver.Manager.Protocols.release_handlers validate_rest_request flowdriver.Base.starts_with
    flowdriver.Manager.Requests.is_valid_method
execute_request-RequestEnds_example =
    execute_request-RequestEnds world (codes "PUT") (codes "https://h") [] (codes "b") (init world)
      refl refl

connect_zmq-crashes_iff_example :
    (connect_zmq world (codes "tcp://h:1") (codes "REQ-REP") (codes "PULLER") messaging ≡ crashes)
    ↔ (listed Role.puller (available_roles req_rep) ≡ false)
unfolding step flowdriver.Manager.Protocols.set_current_protocol flowdriver.Base.◌==◌ init
    flowdriver.Manager.Protocols.initialize flowdriver.Manager.Protocols.construct
    flowdriver.Manager.Defs.protocol_name flowdriver.Manager.Protocols.release_handlers
    flowdriver.Manager.Protocols.switch_protocol flowdriver.Manager.Messages.convert_pattern
    flowdriver.Manager.Messages.convert_role
connect_zmq-crashes_iff_example =
    connect_zmq-crashes_iff world (codes "tcp://h:1") (codes "REQ-REP") (codes "PULLER") messaging 1
      zmq_init req_rep Role.puller refl refl refl

validate_rest_request-none_iff_example :
    (validate_rest_request (codes "GET") (codes "ftp://h") ≡ none)
    ↔ (IsHttp (codes "ftp://h") × (contains (codes "GET") valid_methods ≡ true))
validate_rest_request-none_iff_example =
    validate_rest_request-none_iff (codes "GET") (codes "ftp://h")

abbrev pub socketing : Manager
socketing = left (step world (protocol_chosen (codes "WebSocket")) (init world))

pub socketing-Reachable : Reachable socketing
unfolding step
socketing-Reachable = steps world (protocol_chosen (codes "WebSocket")) (starts world) refl

connect_web_socket-Links_example :
    Links world
      (codes "wss://h?a=1")
      1
      blank_socket
      socketing
      (connect_web_socket world (codes "wss://h?a=1") socketing)
unfolding step set_current_protocol flowdriver.Base.◌==◌ init
    flowdriver.Manager.Protocols.initialize flowdriver.Manager.Protocols.construct
    flowdriver.Manager.Defs.protocol_name flowdriver.Manager.Protocols.release_handlers
    flowdriver.Manager.Protocols.switch_protocol is_socket_url flowdriver.Base.starts_with
connect_web_socket-Links_example =
    connect_web_socket-Links world (codes "wss://h?a=1") socketing-Reachable 1 blank_socket refl
      refl
