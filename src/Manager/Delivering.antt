-- ===== src/Manager/Delivering.antt =====
-- src/models/request_manager.cpp: how the messages of the polling thread reach the display.
use flowdriver.Base.{
  ℕ, Text, List, [], ◌∷◌, ◌++◌, map, some, true, ◌≡◌, ◌≢◌, refl, ap, ◌∙◌, if◌then◌else◌, append-nil,
}
use flowdriver.Zeromq.Defs.{
  Handler, SocketType, PollAnswer, dealer_router, Signal as ZmqSignal, message_received,
  connection_status_changed as zmq_status_changed, error_occurred as zmq_error_occurred,
}
use flowdriver.Zeromq.Receive.{poll_loop}
use flowdriver.Zeromq.Rounds.{messages, receipts}
use flowdriver.Zeromq.Delivery.{poll_loop-Delivered}
use flowdriver.Manager.Defs.{World, Manager, Response, Signal, message, response_received}
use flowdriver.Manager.Protocols.{receives, forwarded, keep_zmq}

-- The responses that the display was given, the latest first.
unfoldable pub responses : List Signal → List Response
responses [] = []
responses (response_received r ∷ ss) = r ∷ responses ss
responses (_ ∷ ss) = responses ss

responses-append : (ss ts : List Signal) → responses (ss ++ ts) ≡ responses ss ++ responses ts
unfolding responses
responses-append [] ts = refl
responses-append (response_received r ∷ ss) ts = ap (λ rs. r ∷ rs) (responses-append ss ts)
responses-append (s ∷ ss) ts = responses-append ss ts

responses-forwarded :
    (role : Text)
    → (ss : List ZmqSignal) → receives role ≡ true
    → responses (forwarded role ss) ≡ map message (messages ss)
unfolding responses forwarded messages
responses-forwarded role [] e = refl
responses-forwarded role (message_received t ∷ ss) e =
    simp (e, if◌then◌else◌) (ap (λ rs. message t ∷ rs) (responses-forwarded role ss e))
responses-forwarded role (zmq_error_occurred t ∷ ss) e = responses-forwarded role ss e
responses-forwarded role (zmq_status_changed ∷ ss) e = responses-forwarded role ss e

-- The ZeroMQ handler of the manager polls, with its earlier signals passed on, and the role that
-- the manager shows is one whose messages are shown. Then, over any answers of zmq::poll, the
-- messages that libzmq gives to the thread are the responses that the display is given: each once,
-- in the order of their receipt, and no others.
pub poll_loop-shows :
    (w : World)
    → (fuel : ℕ) → (answers : List PollAnswer) → (id : ℕ) → (h : Handler) → (k : SocketType)
    → (m : Manager) → h.socket ≡ some k
    → h.pattern ≢ dealer_router
    → h.running ≡ true
    → h.signals ≡ []
    → receives m.current_role ≡ true
    → let h' = (poll_loop w.zmq fuel answers h).1 in
      (delivery : List Text) × (receipts w.zmq h'.calls ≡ delivery ++ receipts w.zmq h.calls)
      × (responses (keep_zmq id h' m).signals ≡ map message delivery ++ responses m.signals)
unfolding messages
poll_loop-shows w fuel answers id h k m f p n s e =
    let d = (poll_loop-Delivered w.zmq fuel answers h k f p n).1 in
    let h' = (poll_loop w.zmq fuel answers h).1 in
    let told : messages h'.signals ≡ d.delivery =
      d.signalled ∙ (ap (λ ss. d.delivery ++ messages ss) s ∙ append-nil d.delivery) in
    (
      d.delivery,
      d.received,
      responses-append (forwarded m.current_role h'.signals) m.signals
          ∙ ap (λ rs. rs ++ responses m.signals)
              (responses-forwarded m.current_role h'.signals e ∙ ap (map message) told),
    )
