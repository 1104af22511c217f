-- ===== src/WebSocket/Plain.antt =====
-- src/core/websocket_handler.cpp: only setMessageHandler sets the callback for messages.
use flowdriver.Base.{◌≡◌, Text, inl, inr, arith}
use flowdriver.Types.{RequestConfig}
use flowdriver.WebSocket.Defs.{Net, Handler, call}
use flowdriver.WebSocket.Connect.{connect, cancel, close, do_read}
use flowdriver.WebSocket.Exchange.{
  Completion, message, failed, on_read, on_aborted, execute, exchange, read,
}
use flowdriver.WebSocket.Ends.{connect-Ends}

pub connect_lem :
    (n : Net)
    → (c : RequestConfig) → (h : Handler) → (connect n c h).1.custom_messages ≡ h.custom_messages
connect_lem n c h = elim (connect-Ends n h c).1 [ inl (u, a, o) ↦ o.4.0 | inr f ↦ f.4.0 ]

pub execute_lem :
    (n : Net)
    → (c : RequestConfig) → (h : Handler) → (execute n c h).1.custom_messages ≡ h.custom_messages
unfolding execute exchange read call
execute_lem n c h = ground arith

pub cancel_lem : (h : Handler) → (cancel h).1.custom_messages ≡ h.custom_messages
unfolding cancel close
cancel_lem h = ground arith

pub on_read_lem :
    (c : Completion) → (h : Handler) → (on_read c h).custom_messages ≡ h.custom_messages
unfolding on_read do_read
on_read_lem (message t) h = ground arith
on_read_lem (failed t) h = ground arith

pub on_aborted_lem :
    (t : Text) → (h : Handler) → (on_aborted t h).custom_messages ≡ h.custom_messages
unfolding on_aborted
on_aborted_lem t h = ground arith
