-- ===== src/Manager/Showing.antt =====
-- src/models/request_manager.cpp: what the polling thread of any manager receives is shown.
use flowdriver.Base.{ℕ, Text, List, ◌++◌, map, some, true, ◌≡◌, ◌≢◌, ◌∙◌, sym, inl, inr}
use flowdriver.Zeromq.Defs.{Handler, PollAnswer, dealer_router}
use flowdriver.Zeromq.Receive.{poll_loop}
use flowdriver.Zeromq.Rounds.{receipts}
use flowdriver.Zeromq.Invariant.{IsPolling, IsSound}
use flowdriver.Zeromq.Roles.{socket_type}
use flowdriver.Manager.Defs.{World, Manager, message}
use flowdriver.Manager.Protocols.{receives, keep_zmq}
use flowdriver.Manager.Parts.{parts}
use flowdriver.Manager.Polling.{Runs, Runs-IsTidy, served_lem}
use flowdriver.Manager.Delivering.{responses, poll_loop-shows}

polling_lem : (h : Handler) → IsSound h → h.poll_thread ≡ true → IsPolling h
polling_lem h (inl p) e = p
polling_lem h (inr p) e = let x = sym p.no_thread ∙ e in cc

-- In any manager that events and rounds of the polling thread lead to from the constructor, whose
-- ZeroMQ handler has a polling thread and another pattern than DEALER-ROUTER, and which shows a role
-- whose messages are shown: over any answers of zmq::poll, the messages that libzmq gives to the
-- thread are the responses that the display is given: each once, in the order of their receipt, and
-- no others.
pub Runs-shows :
    (w : World)
    → (fuel : ℕ) → (answers : List PollAnswer) → (id : ℕ) → (h : Handler) → {m : Manager} → Runs m
    → m.zmq ≡ some (id, h)
    → h.poll_thread ≡ true
    → h.pattern ≢ dealer_router
    → receives m.current_role ≡ true
    → let h' = (poll_loop w.zmq fuel answers h).1 in
      (delivery : List Text) × (receipts w.zmq h'.calls ≡ delivery ++ receipts w.zmq h.calls)
      × (responses (keep_zmq id h' m).signals ≡ map message delivery ++ responses m.signals)
Runs-shows w fuel answers id h {m} r q t n v =
    let s = served_lem id h (parts m) q (Runs-IsTidy r) in
    let p = polling_lem h s.0 t in
    poll_loop-shows w fuel answers id h (socket_type h.role) m p.has_socket n p.is_running s.1 v
