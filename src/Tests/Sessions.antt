-- ===== src/Tests/Sessions.antt =====
-- src/models/request_manager.cpp: a session, from ZeroMQ to a REST request that is cancelled.
use flowdriver.Base.{codes, List, [], ◌∷◌, true, ◌≡◌, refl}
use flowdriver.Manager.Defs.{World}
use flowdriver.Manager.Protocols.{init}
use flowdriver.Manager.Steps.{Event, protocol_chosen, zmq_endpoint, zmq_request, request, cancelled}
use flowdriver.Manager.Staffed.{IsCalm}
use flowdriver.Manager.Session.{run, IsOrderly, run-IsOrderly}
use flowdriver.Tests.Managers.{world}

abbrev events : List (World × Event)
events =
    (world, protocol_chosen (codes "ZeroMQ"))
    ∷ (world, zmq_endpoint (codes "tcp://h:5555") (codes "PUB-SUB") (codes "PUBLISHER"))
    ∷ (world, zmq_request [] [] (codes "PUBLISHER") (codes "news"))
    ∷ (world, request (codes "GET") (codes "http://h/") [] [])
    ∷ (world, cancelled)
    ∷ []

abbrev calm : IsCalm world × (true ≡ true)
calm = (λ n. refl, refl)

run-IsOrderly_example : IsOrderly (run events (init world))
unfolding flowdriver.Manager.Session.is_calm flowdriver.Manager.Returning.fits
    flowdriver.Manager.Messages.convert_pattern flowdriver.Manager.Messages.convert_role
    flowdriver.Base.◌==◌ flowdriver.Manager.Session.lets_finish_all
    flowdriver.Manager.Serving.lets_finish flowdriver.Manager.Protocols.init
    flowdriver.Manager.Protocols.initialize flowdriver.Manager.Protocols.construct
    flowdriver.Manager.Defs.protocol_name flowdriver.Manager.Protocols.release_handlers
    flowdriver.Manager.Steps.is_pending flowdriver.Manager.Steps.step
    flowdriver.Manager.Messages.connect_zmq flowdriver.Manager.Protocols.set_current_protocol
    flowdriver.Manager.Protocols.switch_protocol flowdriver.Zeromq.Configure.configure
    flowdriver.Zeromq.Configure.close flowdriver.Zeromq.Configure.stop_polling
    flowdriver.Zeromq.Configure.set_connection_status flowdriver.Zeromq.Configure.open_socket
    flowdriver.Zeromq.Configure.configure_socket flowdriver.Zeromq.Execute.create_result
    flowdriver.Manager.Requests.validate_rest_request flowdriver.Base.starts_with
    flowdriver.Manager.Requests.is_valid_method flowdriver.Manager.Requests.start_request
    flowdriver.Manager.Requests.cancel_request flowdriver.Manager.Requests.cancel_handler
    flowdriver.Zeromq.Configure.setup_pub_sub flowdriver.Zeromq.Configure.set_common_socket_options
    flowdriver.Zeromq.Configure.set_all_options flowdriver.Zeromq.Configure.attach
    flowdriver.Zeromq.Configure.start_polling flowdriver.Zeromq.Socket.create
    flowdriver.Zeromq.Socket.set_options flowdriver.Zeromq.Execute.publish
    flowdriver.Zeromq.Execute.dispatch flowdriver.Zeromq.Execute.execute
    flowdriver.Zeromq.Socket.send flowdriver.Manager.Requests.execute_request
    flowdriver.Manager.Messages.execute_zmq_request
run-IsOrderly_example =
    run-IsOrderly world events (λ n. refl) (calm, (calm, (calm, (calm, (calm, tt))))) refl
