-- ===== src/Manager/Notices.antt =====
-- src/models/request_manager.cpp: what the manager does with the signals of its WebSocket handler.
use flowdriver.Base.{ℕ, List, [], ◌∷◌, Option, none, some, true, false}
use flowdriver.WebSocket.Defs.{
  Handler, Notice, connected as socket_connected, disconnected as socket_disconnected,
  message_received, error_occurred, message_handed, error_handed,
}
use flowdriver.WebSocket.Connect
use flowdriver.Manager.Defs.{
  Manager, message, emit, response_received, connection_status_changed, connected, disconnected,
}

unfoldable pub on_web_socket_connected : Manager → Manager
on_web_socket_connected m =
    emit connected (emit connection_status_changed (record m { is_connected = true }))

unfoldable pub on_web_socket_disconnected : Manager → Manager
on_web_socket_disconnected m =
    emit disconnected (emit connection_status_changed (record m { is_connected = false }))

-- The signal errorOccurred of the handler is not connected to anything, and the manager sets no
-- callbacks.
unfoldable pub on_notice : Notice → Manager → Manager
on_notice socket_connected m = on_web_socket_connected m
on_notice socket_disconnected m = on_web_socket_disconnected m
on_notice (message_received t) m = emit (response_received (message t)) m
on_notice (error_occurred t) m = m
on_notice (message_handed t) m = m
on_notice (error_handed e) m = m

-- The notices, the latest one first.
unfoldable pub told : List Notice → Manager → Manager
told [] m = m
told (x ∷ xs) m = on_notice x (told xs m)

-- The WebSocket handler after a call, its signals passed on.
abbrev pub keep_ws : ℕ → Handler → Manager → Manager
keep_ws id h m = told h.notices (record m { ws = some (id, record h { notices = [] }) })

-- m_wsHandler->cancel(), which tells nothing.
abbrev pub cancel_ws : Option (ℕ × Handler) → Manager → Manager
cancel_ws none m = m
cancel_ws (some (id, h)) m = record m { ws = some (id, (Connect.cancel h).1) }

-- A read of the handler ends, or one of a stream that is gone.
abbrev pub on_socket : (Handler → Handler) → Option (ℕ × Handler) → Manager → Manager
on_socket f none m = m
on_socket f (some (id, h)) m = keep_ws id (f h) m
