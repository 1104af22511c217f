-- ===== src/Zeromq/Socket.antt =====
-- The calls of libzmq that zeromq_handler.cpp makes, each logged and answered by the environment.
use flowdriver.Base.{List, [], ◌∷◌, Option, none, some, Bool, true, false, Text}
use flowdriver.Zeromq.Defs.{
  Zmq, ZmqError, Handler, Call, SockOpt, SocketType, creates, sets, sends, receives, SendAnswer,
  RecvAnswer, sent, would_block, received, nothing, ok, throws, crash, zmq_error, M, ◌>>◌, return,
  modify,
}

unfoldable pub log : Handler → Call → Handler
log h c = record h { calls = c ∷ h.calls }

abbrev attempted : Option ZmqError → M (Unit {0})
attempted none h = (ok tt, h)
attempted (some e) h = (throws (zmq_error e), h)

abbrev send_answered : SendAnswer → M Bool
send_answered sent h = (ok true, h)
send_answered would_block h = (ok false, h)
send_answered (SendAnswer.failed e) h = (throws (zmq_error e), h)

abbrev recv_answered : RecvAnswer → M (Option Text)
recv_answered (received m) h = (ok (some m), h)
recv_answered nothing h = (ok none, h)
recv_answered (RecvAnswer.failed e) h = (throws (zmq_error e), h)

-- A member of a null m_socket is a crash.
abbrev guarded : {A : Type 0} → Option SocketType → M A → M A
guarded none m h = (crash, h)
guarded (some k) m h = m h

module _ (z : Zmq) where
  unfoldable pub attempt : Call → M (Unit {0})
  unfolding log
  attempt c h = attempted (z.attempt (c ∷ h.calls)) (log h c)

  -- `m_socket = std::make_unique<zmq::socket_t>(m_context, kind)`
  unfoldable pub create : SocketType → M (Unit {0})
  unfolding attempt
  create k = do attempt (creates k); modify λ h. record h { socket = some k }

  -- `m_socket->bind(…)` and the other calls that return nothing.
  unfoldable pub call : Call → M (Unit {0})
  unfolding attempt
  call c h = guarded h.socket (attempt c) h

  unfoldable pub set_options : List SockOpt → M (Unit {0})
  unfolding call
  set_options [] = return tt
  set_options (o ∷ os) = do call (sets o); set_options os

  -- `m_socket->send(message, flags).has_value()`
  unfoldable pub send : Text → Bool → M Bool
  unfolding log
  send m more h =
      guarded h.socket
        (λ h'. send_answered (z.send (sends m more ∷ h.calls)) (log h' (sends m more))) h

  -- `m_socket->recv(message, flags)`
  unfoldable pub recv : Bool → M (Option Text)
  unfolding log
  recv wait h =
      guarded h.socket
        (λ h'. recv_answered (z.recv (receives wait ∷ h.calls)) (log h' (receives wait))) h
