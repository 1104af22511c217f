-- ===== src/Tests/Pollings.antt =====
-- src/models/request_manager.cpp: a manager whose ZeroMQ handler polls, and is then left.
use flowdriver.Base.{codes, Text, List, [], ◌∷◌, ◌++◌, map, true, ◌≡◌, refl}
use flowdriver.Zeromq.Defs.{Handler, readable, idle, Role, pub_sub, init as zmq_init}
use flowdriver.Zeromq.Configure.{configure}
use flowdriver.Zeromq.Receive.{poll_round, poll_loop}
use flowdriver.Zeromq.Rounds.{receipts}
use flowdriver.Manager.Delivering.{responses}
use flowdriver.Manager.Showing.{Runs-shows}
use flowdriver.Tests.Sockets.{lively}
use flowdriver.Manager.Progress.{step-Runs}
use flowdriver.Manager.Defs.{Manager, done, message}
use flowdriver.Manager.Protocols.{init, keep_zmq}
use flowdriver.Manager.Steps.{step, protocol_chosen, zmq_endpoint}
use flowdriver.Manager.Parts.{runs_on}
use flowdriver.Manager.Polling.{Runs, starts, steps}
use flowdriver.Tests.Managers.{world, left}

abbrev messaging : Manager
messaging = left (step world (protocol_chosen (codes "ZeroMQ")) (init world))

abbrev subscribing : Manager
subscribing = left (
    step world (zmq_endpoint (codes "tcp://h:5555") (codes "PUB-SUB") (codes "SUBSCRIBER"))
      messaging)

messaging-Runs : Runs messaging
unfolding step init flowdriver.Manager.Protocols.initialize flowdriver.Manager.Protocols.construct
    flowdriver.Manager.Defs.protocol_name flowdriver.Base.◌==◌
    flowdriver.Manager.Protocols.release_handlers flowdriver.Manager.Protocols.set_current_protocol
    flowdriver.Manager.Protocols.switch_protocol
messaging-Runs = steps world (protocol_chosen (codes "ZeroMQ")) (starts world) refl

subscribing-Runs : Runs subscribing
unfolding step init flowdriver.Manager.Protocols.initialize flowdriver.Manager.Protocols.construct
    flowdriver.Manager.Defs.protocol_name flowdriver.Base.◌==◌
    flowdriver.Manager.Protocols.release_handlers flowdriver.Manager.Protocols.set_current_protocol
    flowdriver.Manager.Protocols.switch_protocol flowdriver.Manager.Messages.connect_zmq
    flowdriver.Manager.Messages.convert_pattern flowdriver.Manager.Messages.convert_role configure
    flowdriver.Zeromq.Configure.close flowdriver.Zeromq.Configure.stop_polling
    flowdriver.Zeromq.Configure.set_connection_status flowdriver.Zeromq.Configure.open_socket
    flowdriver.Zeromq.Configure.configure_socket flowdriver.Zeromq.Configure.setup_pub_sub
    flowdriver.Zeromq.Configure.set_common_socket_options
    flowdriver.Zeromq.Configure.set_all_options flowdriver.Zeromq.Configure.attach
    flowdriver.Zeromq.Configure.start_polling flowdriver.Zeromq.Configure.bind_endpoint
    flowdriver.Zeromq.Configure.wildcard_from flowdriver.Zeromq.Configure.wildcard
    flowdriver.Zeromq.Socket.create flowdriver.Zeromq.Socket.call flowdriver.Zeromq.Socket.attempt
    flowdriver.Zeromq.Socket.set_options flowdriver.Zeromq.Socket.log
    flowdriver.Zeromq.Configure.subscribe_to flowdriver.Manager.Protocols.forwarded
    flowdriver.Manager.Protocols.receives
subscribing-Runs =
    steps world (zmq_endpoint (codes "tcp://h:5555") (codes "PUB-SUB") (codes "SUBSCRIBER"))
      messaging-Runs refl

abbrev subscriber : Handler
subscriber = record (configure lively pub_sub Role.subscriber (codes "tcp://h:5555") zmq_init).1 {
  signals = [];
}

abbrev informed : Manager
informed = keep_zmq 1 (poll_round lively 1 readable subscriber).1 subscribing

abbrev left_behind : Manager
left_behind = left (step world (protocol_chosen (codes "REST")) informed)

step-Runs_example :
    (m : Manager) × (step world
        (zmq_endpoint (codes "tcp://h:5555") (codes "PUB-SUB") (codes "SUBSCRIBER"))
        messaging
      ≡ done m)
    × Runs m
    × (runs_on m.current_request m.rest ≡ true)
unfolding flowdriver.Manager.Progress.is_safe flowdriver.Manager.Returning.fits
    flowdriver.Manager.Messages.convert_pattern flowdriver.Manager.Messages.convert_role
    flowdriver.Base.◌==◌ step flowdriver.Manager.Protocols.set_current_protocol init
    flowdriver.Manager.Protocols.initialize flowdriver.Manager.Protocols.construct
    flowdriver.Manager.Defs.protocol_name flowdriver.Manager.Protocols.release_handlers
    flowdriver.Manager.Protocols.switch_protocol
step-Runs_example =
    step-Runs world (zmq_endpoint (codes "tcp://h:5555") (codes "PUB-SUB") (codes "SUBSCRIBER"))
      messaging-Runs refl refl

Runs-shows_example :
    let h' = (poll_loop world.zmq 1 (readable ∷ idle ∷ readable ∷ []) subscriber).1 in
    (delivery : List Text) × (receipts world.zmq h'.calls
      ≡ delivery ++ receipts world.zmq subscriber.calls)
    × (responses (keep_zmq 1 h' subscribing).signals
        ≡ map message delivery ++ responses subscribing.signals)
unfolding step init flowdriver.Manager.Protocols.initialize flowdriver.Manager.Protocols.construct
    flowdriver.Manager.Defs.protocol_name flowdriver.Base.◌==◌
    flowdriver.Manager.Protocols.release_handlers flowdriver.Manager.Protocols.set_current_protocol
    flowdriver.Manager.Protocols.switch_protocol flowdriver.Manager.Messages.connect_zmq
    flowdriver.Manager.Messages.convert_pattern flowdriver.Manager.Messages.convert_role configure
    flowdriver.Zeromq.Configure.close flowdriver.Zeromq.Configure.stop_polling
    flowdriver.Zeromq.Configure.set_connection_status flowdriver.Zeromq.Configure.open_socket
    flowdriver.Zeromq.Configure.configure_socket flowdriver.Zeromq.Configure.setup_pub_sub
    flowdriver.Zeromq.Configure.set_common_socket_options
    flowdriver.Zeromq.Configure.set_all_options flowdriver.Zeromq.Configure.attach
    flowdriver.Zeromq.Configure.start_polling flowdriver.Zeromq.Configure.bind_endpoint
    flowdriver.Zeromq.Configure.wildcard_from flowdriver.Zeromq.Configure.wildcard
    flowdriver.Zeromq.Socket.create flowdriver.Zeromq.Socket.call flowdriver.Zeromq.Socket.attempt
    flowdriver.Zeromq.Socket.set_options flowdriver.Zeromq.Socket.log
    flowdriver.Zeromq.Configure.subscribe_to flowdriver.Manager.Protocols.forwarded
    flowdriver.Manager.Protocols.receives
Runs-shows_example =
    Runs-shows world 1 (readable ∷ idle ∷ readable ∷ []) 1 subscriber subscribing-Runs refl refl
      (λ e. cc) refl
