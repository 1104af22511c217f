-- ===== src/Manager/Tidy.antt =====
-- src/models/request_manager.cpp: where a polling thread may run, for every manager.
use flowdriver.Base.{ℕ, [], Option, none, some, false, ◌≡◌, refl, inl, inr, ◌⊎◌, All}
use flowdriver.Zeromq.Defs.{Handler}
use flowdriver.Zeromq.Configure
use flowdriver.Zeromq.Closed.{close-IsClosed}
use flowdriver.Zeromq.Invariant.{IsSound, close-IsSound}
use flowdriver.Manager.Defs.{World, Manager, rest, web_socket, zeromq, protocol_name}
use flowdriver.Manager.Protocols.{cancel_zmq}
use flowdriver.Manager.Parts.{Parts, parts}

-- A handler whose destructor has run: no thread, and no socket.
pub record IsDestroyed (h : Handler) : Type 0 where
  pub not_running : h.running ≡ false
  pub no_thread : h.poll_thread ≡ false
  pub no_socket : h.socket ≡ none

abbrev pub IsServed : Option (ℕ × Handler) → Type 0
IsServed none = Unit
IsServed (some (id, h)) = IsSound h × (h.signals ≡ [])

-- The handler of ZeroMQ polls or is stopped, with its signals passed on, the handlers are there
-- only under their protocols, that of WebSocket without a callback, and the ZeroMQ handlers before
-- are destroyed.
pub record IsTidy (p : Parts) : Type 0 where
  pub is_served : IsServed p.zmq
  pub is_zeromq : (p.zmq ≡ none) ⊎ (protocol_name p.current_protocol ≡ zeromq)
  pub is_rest : (p.has_rest ≡ false) ⊎ (protocol_name p.current_protocol ≡ rest)
  pub is_web_socket :
      (p.web_socket ≡ none)
      ⊎ ((p.web_socket ≡ some false) × (protocol_name p.current_protocol ≡ web_socket))
  pub are_destroyed : All IsDestroyed p.retired

-- Where no handler of the three is left.
pub record IsLeft (p : Parts) : Type 0 where
  pub no_zmq : p.zmq ≡ none
  pub no_rest : p.has_rest ≡ false
  pub no_web_socket : p.web_socket ≡ none
  pub left_destroyed : All IsDestroyed p.retired

-- What reset leaves of a handler.
pub close-IsDestroyed :
    (w : World) → (h : Handler) → IsDestroyed (record (Configure.close w.zmq h).1 { signals = [] })
close-IsDestroyed w h =
    let c = (close-IsClosed w.zmq h).1 in
    record { not_running = c.not_running; no_thread = c.no_thread; no_socket = c.no_socket }

-- The signals of a handler do not matter.
told-IsSound : (h : Handler) → IsSound h → IsSound (record h { signals = [] })
told-IsSound h (inl p) = inl (record {
  is_running = p.is_running;
  has_thread = p.has_thread;
  is_connected = p.is_connected;
  is_available = p.is_available;
  has_socket = p.has_socket;
})
told-IsSound h (inr p) =
    inr (record { not_running = p.not_running; no_thread = p.no_thread; unusable = p.unusable })

-- A call of the handler that leaves it sound.
pub keep-IsTidy :
    (id : ℕ)
    → (g h : Handler) → (p : Parts) → p.zmq ≡ some (id, g)
    → IsSound h
    → IsTidy p
    → IsTidy (record p { zmq = some (id, record h { signals = [] }) })
keep-IsTidy id g h p q s t = record {
  is_served = (told-IsSound h s, refl);
  is_zeromq = elim t.is_zeromq [ inl e ↦ cc | inr e ↦ inr e ];
  is_rest = t.is_rest;
  is_web_socket = t.is_web_socket;
  are_destroyed = t.are_destroyed;
}

pub cancel_zmq-IsTidy :
    (w : World)
    → (o : Option (ℕ × Handler)) → (m : Manager) → m.zmq ≡ o
    → IsTidy (parts m)
    → IsTidy (parts (cancel_zmq w o m))
cancel_zmq-IsTidy w none m q t = t
cancel_zmq-IsTidy w (some (id, h)) m q t = keep-IsTidy id h _ (parts m) q (close-IsSound w.zmq h) t
