-- ===== src/Tests/Deliveries.antt =====
-- src/core/zeromq_handler.cpp: the polling thread over its rounds, and two ends that talk.
use flowdriver.Base.{List, [], ◌∷◌, some, true, ◌≡◌, refl}
use flowdriver.Zeromq.Defs.{
  Handler, init, ok, Role, req_rep, SocketType, readable, idle, PollAnswer,
}
use flowdriver.Zeromq.Receive.{poll_loop}
use flowdriver.Zeromq.Rounds.{Delivered, messages, receipts}
use flowdriver.Zeromq.Delivery.{poll_loop-Delivered}
use flowdriver.Manager.Defs.{Manager}
use flowdriver.Manager.Protocols.{init as manager_init}
use flowdriver.Tests.Sockets.{lively, opened}
use flowdriver.Tests.Managers.{world}

abbrev replying : Handler
replying = record (opened SocketType.rep req_rep Role.replier) { running = true }

abbrev answers : List PollAnswer
answers = readable ∷ idle ∷ readable ∷ []

abbrev showing : Manager
showing = record (manager_init world) { zmq = some (7, init) }

poll_loop-Delivered_example :
    ((poll_loop lively 0 answers replying).0 ≡ ok tt)
    × Delivered lively 2 replying (poll_loop lively 0 answers replying).1
unfolding flowdriver.Zeromq.Rounds.readables
poll_loop-Delivered_example =
    poll_loop-Delivered lively 0 answers replying SocketType.rep refl (λ e. cc) refl
