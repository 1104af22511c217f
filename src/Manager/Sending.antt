-- ===== src/Manager/Sending.antt =====
-- src/models/request_manager.cpp: sendWebSocketMessage with the handler of
-- src/core/websocket_handler.cpp.
use flowdriver.Base.{ℕ, Text, [], ◌∷◌, Option, none, some, Bool, true, ◌≡◌, arith}
use flowdriver.Types.{default_config}
use flowdriver.Rest.Defs.{Failure}
use flowdriver.WebSocket.Defs.{Handler, writes, call}
use flowdriver.WebSocket.Exchange.{execute, exchange, read, payload}
use flowdriver.Manager.Defs.{World, Manager, Run, done, crashes, message_sent}
use flowdriver.Manager.Notices.{told}
use flowdriver.Manager.Requests.{send_web_socket_message}
use flowdriver.Manager.Steps.{Reachable}
use flowdriver.Manager.Linking.{IsOpen, silent_lem}
use flowdriver.Manager.Invariant.{Reachable-is_sound}

-- By what the network answers to the write: a read is misused after a write that went out, and the
-- message is signalled as sent after one that failed.
unfoldable pub SendEnds : Text → Option Failure → Manager → Run → Type 0
SendEnds t none m crashes = Unit
SendEnds t (some f) m (done m') =
    (m'.signals ≡ message_sent t ∷ m.signals)
    × (m'.last_response ≡ m.last_response)
    × (m'.is_connected ≡ true)
    × IsOpen m'.ws
SendEnds _ _ _ _ = ⊥

send_lem :
    (w : World)
    → (t : Text) → (id : ℕ) → (h : Handler) → (m : Manager) → (secure : Bool)
    → m.is_connected ≡ true
    → m.handler ≡ some id
    → m.ws ≡ some (id, h)
    → h.stream ≡ some secure
    → h.reading ≡ true
    → h.notices ≡ []
    → w.launches (record default_config { body = t }) ≡ none
    → SendEnds t
        (w.websocket.attempt (writes secure (payload t) ∷ h.calls))
        m
        (send_web_socket_message w t m)
unfolding SendEnds send_web_socket_message execute exchange read call told
send_lem w t id h m secure c k s o r n l = ground arith

-- Where a reachable manager is connected and its current handler is the WebSocket handler, with an
-- open stream whose read is pending, as connectWebSocket leaves it: if the write of a message goes
-- out, sendWebSocketMessage reads a stream that is being read; if the write fails, the manager
-- signals the message as sent all the same, tells no error, keeps its last response and stays
-- connected.
pub send_web_socket_message-SendEnds :
    (w : World)
    → (t : Text) → (id : ℕ) → (h : Handler) → {m : Manager} → (secure : Bool) → Reachable m
    → m.is_connected ≡ true
    → m.handler ≡ some id
    → m.ws ≡ some (id, h)
    → h.stream ≡ some secure
    → h.reading ≡ true
    → w.launches (record default_config { body = t }) ≡ none
    → SendEnds t
        (w.websocket.attempt (writes secure (payload t) ∷ h.calls))
        m
        (send_web_socket_message w t m)
send_web_socket_message-SendEnds w t id h {m} secure r c k s o p l =
    send_lem w t id h m secure c k s o p (silent_lem m id h (Reachable-is_sound r) s) l
