-- ===== src/Tests/Choices.antt =====
-- src/models/request_manager.cpp with a gRPC handler.
use flowdriver.Base.{ℕ, Text, codes, [], ◌∷◌, none, some, true, false, ◌≡◌, ◌≢◌, refl, arith}
use flowdriver.Grpc.Defs.{init as new_handler}
use flowdriver.Manager.Defs.{World, Manager, done, crashes}
use flowdriver.Manager.Protocols.{init, set_current_protocol}
use flowdriver.Manager.GrpcCalls.{
  execute_grpc_request, set_grpc_method, set_grpc_service, set_grpc_endpoint, set_grpc_use_ssl,
  load_grpc_proto_file,
}
use flowdriver.Manager.Calling.{CallEnds, execute_grpc_request-CallEnds}
use flowdriver.Manager.Selecting.{IsSelected, IsChosen, load_grpc_proto_file-IsSelected}
use flowdriver.Manager.Stale.{load_grpc_proto_file-crashes}
use flowdriver.Manager.Forgotten.{Forgets, set_current_protocol-Forgets}
use flowdriver.Tests.Calls.{echo, calling, file, greeter, say, file-IsProto}
use flowdriver.Tests.Managers.{world}

abbrev decimal : ℕ → Text
decimal n = codes "5"

-- Every .proto file is that of the package demo.
abbrev importing : World
importing = record world { grpc = record echo { import = λ path. some (file (codes "demo")) } }

abbrev selected : Manager
selected = record (init world) {
  grpc = some (7, calling);
  current_grpc_service = codes "demo.Greeter";
  current_grpc_method = codes "Say";
}

abbrev unselected : Manager
unselected = record selected {
  grpc = some (7, record calling { current_method = none });
  current_grpc_method = [];
}

execute_grpc_request-CallEnds_example :
    CallEnds world decimal [] selected (execute_grpc_request world decimal [] selected)
execute_grpc_request-CallEnds_example = execute_grpc_request-CallEnds world decimal [] selected

load_grpc_proto_file-crashes_example :
    let m = load_grpc_proto_file importing (codes "demo.proto") selected in
    (set_grpc_service (codes "demo.Greeter") m ≡ m)
    × (set_grpc_method (codes "Say") m ≡ done m)
    × (execute_grpc_request importing decimal [] m ≡ crashes)
unfolding init flowdriver.Manager.Protocols.initialize flowdriver.Manager.Protocols.construct
    flowdriver.Manager.Defs.protocol_name flowdriver.Base.◌==◌
    flowdriver.Manager.Protocols.release_handlers
load_grpc_proto_file-crashes_example =
    load_grpc_proto_file-crashes importing decimal (codes "demo.proto") [] 7 calling selected say
      (file (codes "demo")) (greeter (codes "demo")) [] refl refl refl refl refl refl refl

set_current_protocol-Forgets_example :
    let m = set_current_protocol world (codes "gRPC") (init world) in
    Forgets (init world) m
    × (set_grpc_endpoint (init world).grpc_endpoint m ≡ m)
    × (set_grpc_use_ssl (init world).grpc_use_ssl m ≡ m)
    × (set_grpc_method (init world).current_grpc_method m ≡ done m)
unfolding flowdriver.Base.◌==◌ init flowdriver.Manager.Protocols.initialize
    flowdriver.Manager.Protocols.construct flowdriver.Manager.Defs.protocol_name
    flowdriver.Manager.Protocols.release_handlers
set_current_protocol-Forgets_example = set_current_protocol-Forgets world (init world) refl

abbrev blank : Manager
blank = record (init world) { grpc = some (7, new_handler) }

load_grpc_proto_file-IsSelected_example :
    let m = load_grpc_proto_file importing (codes "demo.proto") blank in
    IsSelected (greeter (codes "demo")) (file (codes "demo")) blank m
    × (m' : Manager) × (set_grpc_method (codes "Say") m ≡ done m')
    × IsChosen (greeter (codes "demo")) say m'.grpc
    × (execute_grpc_request importing decimal [] m' ≢ crashes)
unfolding flowdriver.Base.◌==◌ init flowdriver.Manager.Protocols.initialize
    flowdriver.Manager.Protocols.construct flowdriver.Manager.Defs.protocol_name
    flowdriver.Manager.Protocols.release_handlers
load_grpc_proto_file-IsSelected_example =
    load_grpc_proto_file-IsSelected importing decimal (codes "demo.proto") (codes "Say") [] 7
      new_handler blank (file (codes "demo")) (greeter (codes "demo")) [] say refl refl
      (file-IsProto (codes "demo")) (ground arith) refl refl refl refl
