-- ===== src/Tests/Links.antt =====
-- src/models/request_manager.cpp with a WebSocket that was opened.
use flowdriver.Base.{
  ℕ, Text, codes, Option, none, some, ◌≡◌, ◌↔◌, ◌==◌, ◌||◌, not, refl, [], ◌∷◌, true,
}
use flowdriver.WebSocket.Defs.{Handler, init, writes}
use flowdriver.WebSocket.Exchange.{payload}
use flowdriver.Manager.Defs.{Manager}
use flowdriver.Manager.Requests.{send_web_socket_message, connect_web_socket}
use flowdriver.Manager.Steps.{Reachable, steps, step, socket_url}
use flowdriver.Manager.Listening.{Reachable-Runs, Listens, connect_web_socket-Listens}
use flowdriver.Manager.Linking.{is_socket_url}
use flowdriver.Manager.Parts.{runs_on}
use flowdriver.Manager.Steps.{is_pending}
use flowdriver.Manager.Orphans.{set_current_protocol-runs_on_iff}
use flowdriver.Manager.Protocols.{set_current_protocol}
use flowdriver.Manager.Sending.{SendEnds, send_web_socket_message-SendEnds}
use flowdriver.Tests.Managers.{
  world, left, socketing, socketing-Reachable, started, started-Reachable,
}

abbrev linked : Manager
linked = left (step world (socket_url (codes "wss://h")) socketing)

abbrev handler_of : Option (ℕ × Handler) → Handler
handler_of none = init
handler_of (some (id, h)) = h

linked-Reachable : Reachable linked
unfolding step
linked-Reachable = steps world (socket_url (codes "wss://h")) socketing-Reachable refl

send_web_socket_message-SendEnds_example :
    SendEnds
      (codes "hello")
      (world.websocket.attempt
        (writes true (payload (codes "hello")) ∷ (handler_of linked.ws).calls))
      linked
      (send_web_socket_message world (codes "hello") linked)
unfolding step flowdriver.Manager.Requests.connect_web_socket
    flowdriver.Manager.Protocols.set_current_protocol flowdriver.Base.◌==◌
    flowdriver.Manager.Protocols.init flowdriver.Manager.Protocols.initialize
    flowdriver.Manager.Protocols.construct flowdriver.Manager.Defs.protocol_name
    flowdriver.Manager.Protocols.release_handlers flowdriver.Manager.Protocols.switch_protocol
    flowdriver.Manager.Notices.told flowdriver.Manager.Notices.on_notice
    flowdriver.Manager.Notices.on_web_socket_connected flowdriver.WebSocket.Connect.connect
    flowdriver.WebSocket.Connect.try_connect flowdriver.WebSocket.Connect.open_stream
    flowdriver.WebSocket.Connect.open_secure flowdriver.WebSocket.Connect.do_read
    flowdriver.WebSocket.Connect.port_of flowdriver.WebSocket.Connect.target_of
    flowdriver.WebSocket.Defs.call flowdriver.Base.starts_with
    flowdriver.Manager.Requests.auth_headers
send_web_socket_message-SendEnds_example =
    send_web_socket_message-SendEnds world (codes "hello") 1 (handler_of linked.ws) true
      linked-Reachable refl refl refl refl refl refl

connect_web_socket-Listens_example :
    Listens
      (codes "a" ∷ codes "b" ∷ [])
      world
      (codes "wss://h")
      1
      init
      socketing
      (connect_web_socket world (codes "wss://h") socketing)
unfolding step set_current_protocol flowdriver.Base.◌==◌ flowdriver.Manager.Protocols.init
    flowdriver.Manager.Protocols.initialize flowdriver.Manager.Protocols.construct
    flowdriver.Manager.Defs.protocol_name flowdriver.Manager.Protocols.release_handlers
    flowdriver.Manager.Protocols.switch_protocol is_socket_url flowdriver.Base.starts_with
connect_web_socket-Listens_example =
    connect_web_socket-Listens world (codes "wss://h") (codes "a" ∷ codes "b" ∷ [])
      socketing-Reachable 1 init refl refl

set_current_protocol-runs_on_iff_example :
    (let m' = set_current_protocol world (codes "gRPC") started in
      runs_on m'.current_request m'.rest ≡ true)
    ↔ (((started.current_protocol == codes "gRPC") || not (is_pending started.current_request))
        ≡ true)
unfolding step flowdriver.Manager.Requests.execute_request flowdriver.Manager.Protocols.init
    flowdriver.Manager.Protocols.initialize flowdriver.Manager.Protocols.construct
    flowdriver.Manager.Defs.protocol_name ◌==◌ flowdriver.Manager.Protocols.release_handlers
    flowdriver.Manager.Requests.validate_rest_request flowdriver.Base.starts_with
    flowdriver.Manager.Requests.is_valid_method flowdriver.Manager.Requests.start_request
    set_current_protocol
set_current_protocol-runs_on_iff_example =
    set_current_protocol-runs_on_iff world (codes "gRPC") (Reachable-Runs started-Reachable) refl
