-- ===== src/Manager/Disconnecting.antt =====
-- src/models/request_manager.cpp: disconnect, and the requests behind it.
use flowdriver.Base.{
  ℕ, Text, codes, [], ◌∷◌, Option, none, some, false, ◌≡◌, refl, subst, sym, arith,
}
use flowdriver.Types.{RequestConfig}
use flowdriver.Zeromq.Defs.{Handler}
use flowdriver.Zeromq.Closed.{close-IsClosed}
use flowdriver.Zeromq.Execute
use flowdriver.Manager.Defs.{World, Manager, Run, done, complain, message_sent, error_occurred}
use flowdriver.Manager.Notices.{cancel_ws}
use flowdriver.Manager.Protocols.{cancel_zmq, forwarded}
use flowdriver.Manager.Requests.{disconnect, send_web_socket_message}
use flowdriver.Manager.Messages.{execute_zmq_request, execute_with}

-- The ZeroMQ handler is the one with this address; it has no socket and no polling thread, and its
-- signals were passed on.
abbrev pub IsShut : ℕ → Option (ℕ × Handler) → Type 0
IsShut id none = ⊥
IsShut id (some (k, h)) =
    (k ≡ id) × (h.socket ≡ none) × (h.running ≡ false) × (h.poll_thread ≡ false) × (h.signals ≡ [])

-- A request that cannot be sent: it is signalled as sent, and then its error.
unfoldable pub IsUnsent : Text → Manager → Run → Type 0
IsUnsent body m (done m') =
    (m'.signals ≡ error_occurred (codes "Socket not initialized") ∷ message_sent body ∷ m.signals)
    × (m'.zmq ≡ m.zmq)
IsUnsent body m r = ⊥

cancel_zmq_lem :
    (w : World)
    → (id : ℕ) → (h : Handler) → (m : Manager) → IsShut id (cancel_zmq w (some (id, h)) m).zmq
cancel_zmq_lem w id h m =
    let c = (close-IsClosed w.zmq h).1 in (refl, c.no_socket, c.not_running, c.no_thread, refl)

shut_lem :
    (w : World)
    → (config : RequestConfig) → (role : Text) → (id : ℕ) → (o : Option (ℕ × Handler))
    → (m : Manager) → m.zmq ≡ o
    → IsShut id o
    → IsUnsent config.body m (execute_with w config role o m)
unfolding IsUnsent Execute.execute forwarded
shut_lem w config role id none m q s = absurd s
shut_lem w config role id (some (k, h)) m q (e, f, r, t, n) = ground arith

disconnect_lem :
    (w : World)
    → (id : ℕ) → (h : Handler) → (m : Manager) → m.zmq ≡ some (id, h)
    → IsShut id (disconnect w m).zmq
unfolding disconnect
disconnect_lem w id h m q =
    subst (λ o. IsShut id (cancel_zmq w o (cancel_ws m.ws m)).zmq) (sym q)
      (cancel_zmq_lem w id h (cancel_ws m.ws m))

refused_lem :
    (w : World)
    → (t : Text) → (m : Manager) → m.is_connected ≡ false
    → send_web_socket_message w t m ≡ done (complain (codes "Not connected") m)
unfolding send_web_socket_message
refused_lem w t m e = ground arith

-- After disconnect of a manager with a ZeroMQ handler, this has neither a socket nor a polling
-- thread, and the manager is not connected. A message for a WebSocket is refused with an error,
-- whatever its stream; a ZeroMQ request fails with an error, behind a signal that its body was
-- sent.
pub disconnect-IsShut :
    (w : World)
    → (id : ℕ) → (h : Handler) → (m : Manager) → (t method endpoint role body : Text)
    → m.zmq ≡ some (id, h)
    → let m' = disconnect w m in
      (m'.is_connected ≡ false)
      × IsShut id m'.zmq
      × (send_web_socket_message w t m' ≡ done (complain (codes "Not connected") m'))
      × IsUnsent body m' (execute_zmq_request w method endpoint role body m')
unfolding execute_zmq_request disconnect
disconnect-IsShut w id h m t method endpoint role body q =
    let m' = disconnect w m in
    let s = disconnect_lem w id h m q in
    (refl, s, refused_lem w t m' refl, shut_lem w _ role id m'.zmq m' refl s)
