-- ===== src/Manager/Receiving.antt =====
-- src/models/request_manager.cpp: connectZMQ, and then what the polling thread receives.
use flowdriver.Base.{
  ℕ, Text, List, ◌++◌, map, some, true, ◌≡◌, ◌≢◌, refl, ◌∙◌, [], sym, Bool-cases, inl, inr, arith,
}
use flowdriver.Zeromq.Defs.{
  Handler, Pattern, Role, PollAnswer, dealer_router, Outcome, ok, throws, crash, out_of_fuel,
}
use flowdriver.Zeromq.Configure.{configure, available_roles}
use flowdriver.Zeromq.Receive.{poll_loop}
use flowdriver.Zeromq.Rounds.{receipts}
use flowdriver.Zeromq.Effects.{Ends}
use flowdriver.Zeromq.Roles.{listed, Available, socket_type}
use flowdriver.Zeromq.Configured.{configure-Ends, configure-eq-crash_iff, IsConfigured, IsRefused}
use flowdriver.Manager.Defs.{World, Manager, done, message}
use flowdriver.Manager.Protocols.{receives, keep_zmq}
use flowdriver.Manager.Messages.{connect_zmq, convert_pattern, convert_role, established}
use flowdriver.Manager.Delivering.{responses, poll_loop-shows}

configured_lem :
    (p : Pattern)
    → (r : Role) → (e : Text) → (o : Outcome (Unit {0})) → (h : Handler)
    → Ends (λ _. IsConfigured p r e) (IsRefused p r e) o h
    → o ≡ ok tt
    → IsConfigured p r e h
configured_lem p r e (ok a) h c q = c
configured_lem p r e (throws x) h c q = cc
configured_lem p r e crash h c q = absurd c
configured_lem p r e out_of_fuel h c q = absurd c

-- The manager after a successful configure.
abbrev linked : World → Pattern → Role → Text → Text → ℕ → Handler → Manager → Manager
linked w p r endpoint role id h m =
    established role (keep_zmq id (configure w.zmq p r endpoint h).1 m)

connect_lem :
    (w : World)
    → (endpoint pattern role : Text) → (p : Pattern) → (r : Role) → (id : ℕ) → (h : Handler)
    → (m : Manager) → m.zmq ≡ some (id, h)
    → convert_pattern pattern ≡ some p
    → convert_role role ≡ some r
    → (configure w.zmq p r endpoint h).0 ≡ ok tt
    → connect_zmq w endpoint pattern role m ≡ done (linked w p r endpoint role id h m)
unfolding connect_zmq
connect_lem w endpoint pattern role p r id h m q a b c = ground arith

available_lem :
    (w : World)
    → (p : Pattern) → (r : Role) → (endpoint : Text) → (h : Handler)
    → (configure w.zmq p r endpoint h).0 ≡ ok tt
    → Available p r
available_lem w p r endpoint h c = elim (Bool-cases (listed r (available_roles p))) [
  | inl a ↦ a
  | inr a ↦ let x = (configure-eq-crash_iff w.zmq p r endpoint h).1 a in cc
]

-- connectZMQ with the words of a pattern other than DEALER-ROUTER and of a role whose messages are
-- shown, where configure of the ZeroMQ handler succeeds: it returns, with the configured handler,
-- and what libzmq then gives to the polling thread, over any answers of zmq::poll, is what the
-- display is given as responses: each message once, in the order of their receipt, and no others.
pub connect_zmq-shows :
    (w : World)
    → (endpoint pattern role : Text) → (p : Pattern) → (r : Role) → (id : ℕ) → (h : Handler)
    → (m : Manager) → (fuel : ℕ) → (answers : List PollAnswer) → m.zmq ≡ some (id, h)
    → convert_pattern pattern ≡ some p
    → convert_role role ≡ some r
    → p ≢ dealer_router
    → receives role ≡ true
    → (configure w.zmq p r endpoint h).0 ≡ ok tt
    → let h' = record (configure w.zmq p r endpoint h).1 { signals = [] } in
      let g = (poll_loop w.zmq fuel answers h').1 in
      (m' : Manager) × (connect_zmq w endpoint pattern role m ≡ done m')
      × (m'.zmq ≡ some (id, h'))
      × (delivery : List Text) × (receipts w.zmq g.calls ≡ delivery ++ receipts w.zmq h'.calls)
      × (responses (keep_zmq id g m').signals ≡ map message delivery ++ responses m'.signals)
connect_zmq-shows w endpoint pattern role p r id h m fuel answers q a b n v c =
    let made =
      configured_lem p r endpoint _ _
        (configure-Ends w.zmq p r endpoint h (available_lem w p r endpoint h c)) c in
    let m' = linked w p r endpoint role id h m in
    let h' = record (configure w.zmq p r endpoint h).1 { signals = [] } in
    let (delivery, got, shown) =
      poll_loop-shows w fuel answers id h' (socket_type r) m' made.has_socket
        (λ e. n (sym made.has_pattern ∙ e)) made.is_running refl v in
    (m', connect_lem w endpoint pattern role p r id h m q a b c, refl, delivery, got, shown)
