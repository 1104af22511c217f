-- ===== src/Zeromq/Closed.antt =====
-- Closing a handler: src/core/zeromq_handler.cpp, close.
use flowdriver.Base.{◌≡◌, refl, none, some, false, inl, inr, arith, Option-cases}
use flowdriver.Zeromq.Defs.{
  SocketType, Zmq, Handler, Outcome, ok, throws, crash, out_of_fuel, absorb,
}
use flowdriver.Zeromq.Socket.{call}
use flowdriver.Zeromq.Configure.{close, close_socket, release_socket, stop_polling}
use flowdriver.Zeromq.Effects.{Setup, setup, Holds, Runs}

-- What close leaves: no socket and no polling thread, and else the set-up of before.
pub record IsClosed (before after : Handler) : Type 0 where
  pub no_socket : after.socket ≡ none
  pub not_running : after.running ≡ false
  pub no_thread : after.poll_thread ≡ false
  pub same_status : after.status ≡ before.status
  pub same_pattern : after.pattern ≡ before.pattern
  pub same_role : after.role ≡ before.role
  pub same_endpoint : after.endpoint ≡ before.endpoint

absorb_lem :
    (s : Setup) (k : SocketType) (o : Outcome (Unit {0})) (h : Handler)
    → Runs s k o h
    → ((absorb o h).0 ≡ ok tt) × (setup (absorb o h).1 ≡ s)
absorb_lem s k (ok a) h r = (refl, r.0)
absorb_lem s k (throws x) h r = (refl, r.1)
absorb_lem s k crash h r = absurd r
absorb_lem s k out_of_fuel h r = absurd r

abbrev without_socket : Handler → Handler
without_socket h = record h { socket = none }

module _ (z : Zmq) where
  release_socket-Runs :
      (s : Setup) (k : SocketType) (h : Handler)
      → Holds s k h
      → Runs s k (release_socket z h).0 (release_socket z h).1
  unfolding release_socket call
  release_socket-Runs s k h p = ground arith

  close_socket_lem :
      (k : SocketType) (h : Handler)
      → h.socket ≡ some k
      → ((close_socket z h).0 ≡ ok tt)
        × (setup (close_socket z h).1 ≡ setup h)
        × ((close_socket z h).1.socket ≡ none)
  unfolding close_socket
  close_socket_lem k h e = ground (
    arith,
    absorb_lem (setup h) k (release_socket z h).0 (release_socket z h).1
        (release_socket-Runs (setup h) k h (refl, e)),
  )

  -- Whatever libzmq answers, close returns and leaves neither a socket nor a polling thread; the
  -- status, the pattern, the role and the endpoint stay.
  pub close-IsClosed : (h : Handler) → ((close z h).0 ≡ ok tt) × IsClosed h (close z h).1
  unfolding close stop_polling
  close-IsClosed h = elim (Option-cases h.socket) [
    | inl e ↦ rw (e, close) (ground arith)
    | inr (k, e) ↦
        rw (e, close)
          (ground (arith, close_socket_lem k (record h { running = false; poll_thread = false }) e))
  ]
