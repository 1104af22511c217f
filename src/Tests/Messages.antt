-- ===== src/Tests/Messages.antt =====
-- src/models/request_manager.cpp with a ZeroMQ handler.
use flowdriver.Base.{codes, [], some}
use flowdriver.Types.{default_config}
use flowdriver.Zeromq.Defs.{req_rep, Role, SocketType}
use flowdriver.Manager.Defs.{Manager}
use flowdriver.Manager.Protocols.{init}
use flowdriver.Manager.Messages.{execute_zmq_request}
use flowdriver.Manager.Messaging.{RequestEnds, execute_zmq_request-RequestEnds}
use flowdriver.Tests.Sockets.{opened}
use flowdriver.Tests.Managers.{world}

abbrev requesting : Manager
requesting = record (init world) { zmq = some (7, opened SocketType.req req_rep Role.requester) }

execute_zmq_request-RequestEnds_example :
    let config = record default_config { method = []; url = []; body = codes "ping" } in
    RequestEnds world config
      (codes "REQUESTER")
      requesting
      requesting.zmq
      (execute_zmq_request world [] [] (codes "REQUESTER") (codes "ping") requesting)
execute_zmq_request-RequestEnds_example =
    execute_zmq_request-RequestEnds world [] [] (codes "REQUESTER") (codes "ping") requesting
