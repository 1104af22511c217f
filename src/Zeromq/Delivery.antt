-- ===== src/Zeromq/Delivery.antt =====
-- Every round of the polling thread, and with them its loop, delivers what it receives.
use Prim.Native.Nat.{ℕ}
use flowdriver.Base.{
  ◌≡◌, ◌≢◌, refl, ◌∙◌, Text, some, true, false, List, [], ◌∷◌, inl, inr, arith, Bool-cases,
  if◌then◌else◌, ap, sym, subst,
}
use flowdriver.Zeromq.Defs.{
  Pattern, Role, SocketType, Zmq, ZmqError, Handler, ok, receives, req_rep, received, PollAnswer,
  readable, idle, dealer_router, push_pull, pub_sub, error_occurred,
}
use flowdriver.Zeromq.Socket.{send, recv, log}
use flowdriver.Zeromq.Receive.{
  process_incoming_message, reply_to, handle_req_rep_message, handle_pub_sub_message,
  handle_push_pull_message, handle_message, poll_answered, poll_round, poll_loop,
}
use flowdriver.Zeromq.Effects.{Setup}
use flowdriver.Zeromq.Rounds.{
  messages, listens, heard, readables, none-Delivered, Delivered, Delivered-trans, idle-Delivered,
}
use flowdriver.Zeromq.Reads.{Read, Unread, Silent, reading_lem}

module _ (z : Zmq) where
  pub replier-Read :
      (fuel : ℕ) (h : Handler) (k : SocketType) (m : Text)
      → h.socket ≡ some k
      → h.pattern ≡ req_rep
      → h.role ≡ Role.replier
      → z.recv (receives true ∷ h.calls) ≡ received m
      → Read z m h (poll_round z fuel readable h)
  unfolding poll_round poll_answered handle_message handle_req_rep_message reply_to send recv log
      messages
  replier-Read fuel h k m f p r e = ground arith

  replier-Unread :
      (fuel : ℕ) (h : Handler) (k : SocketType)
      → h.socket ≡ some k
      → h.pattern ≡ req_rep
      → h.role ≡ Role.replier
      → Silent z h
      → Unread z h (poll_round z fuel readable h)
  unfolding poll_round poll_answered handle_message handle_req_rep_message reply_to send recv log
      messages
  replier-Unread fuel h k f p r e = ground arith

  subscriber-Read :
      (fuel : ℕ) (h : Handler) (k : SocketType) (m : Text)
      → h.socket ≡ some k
      → h.pattern ≡ pub_sub
      → h.role ≡ Role.subscriber
      → z.recv (receives true ∷ h.calls) ≡ received m
      → Read z m h (poll_round z fuel readable h)
  unfolding poll_round poll_answered handle_message handle_pub_sub_message recv log messages
  subscriber-Read fuel h k m f p r e = ground arith

  subscriber-Unread :
      (fuel : ℕ) (h : Handler) (k : SocketType)
      → h.socket ≡ some k
      → h.pattern ≡ pub_sub
      → h.role ≡ Role.subscriber
      → Silent z h
      → Unread z h (poll_round z fuel readable h)
  unfolding poll_round poll_answered handle_message handle_pub_sub_message recv log messages
  subscriber-Unread fuel h k f p r e = ground arith

  puller-Read :
      (fuel : ℕ) (h : Handler) (k : SocketType) (m : Text)
      → h.socket ≡ some k
      → h.pattern ≡ push_pull
      → h.role ≡ Role.puller
      → z.recv (receives true ∷ h.calls) ≡ received m
      → Read z m h (poll_round z fuel readable h)
  unfolding poll_round poll_answered handle_message handle_push_pull_message
      process_incoming_message recv log messages
  puller-Read fuel h k m f p r e = ground arith

  puller-Unread :
      (fuel : ℕ) (h : Handler) (k : SocketType)
      → h.socket ≡ some k
      → h.pattern ≡ push_pull
      → h.role ≡ Role.puller
      → Silent z h
      → Unread z h (poll_round z fuel readable h)
  unfolding poll_round poll_answered handle_message handle_push_pull_message
      process_incoming_message recv log messages
  puller-Unread fuel h k f p r e = ground arith

  deaf_round :
      (fuel : ℕ) (h : Handler) (k : SocketType)
      → h.socket ≡ some k
      → h.pattern ≢ dealer_router
      → listens h.pattern h.role ≡ false
      → poll_round z fuel readable h ≡ (ok tt, h)
  unfolding poll_round poll_answered handle_message handle_req_rep_message handle_pub_sub_message
      handle_push_pull_message
  deaf_round fuel h k f p r = ground arith

  listening_round :
      (fuel : ℕ) (p : Pattern) (r : Role) (h : Handler) (k : SocketType)
      → h.socket ≡ some k
      → h.pattern ≡ p
      → h.role ≡ r
      → listens p r ≡ true
      → let s = poll_round z fuel readable h in (s.0 ≡ ok tt) × Delivered z 1 h s.1
  listening_round fuel req_rep Role.replier h k f p r l =
      reading_lem z h _ (λ m. replier-Read fuel h k m f p r) (replier-Unread fuel h k f p r)
  listening_round fuel pub_sub Role.subscriber h k f p r l =
      reading_lem z h _ (λ m. subscriber-Read fuel h k m f p r) (subscriber-Unread fuel h k f p r)
  listening_round fuel push_pull Role.puller h k f p r l =
      reading_lem z h _ (λ m. puller-Read fuel h k m f p r) (puller-Unread fuel h k f p r)
  listening_round fuel p r h k f q s l = cc

  idle_round :
      (fuel : ℕ) (h : Handler) (k : SocketType)
      → h.socket ≡ some k
      → poll_round z fuel idle h ≡ (ok tt, h)
  unfolding poll_round poll_answered
  idle_round fuel h k f = ground arith

  failed_round :
      (fuel : ℕ) (e : ZmqError) (h : Handler) (k : SocketType)
      → h.socket ≡ some k
      → poll_round z fuel (PollAnswer.failed e) h
        ≡ (ok tt, record h { signals = error_occurred e.what ∷ h.signals })
  unfolding poll_round poll_answered
  failed_round fuel e h k f = ground arith

  round_lem :
      (fuel : ℕ) (a : PollAnswer) (h : Handler) (k : SocketType)
      → h.socket ≡ some k
      → h.pattern ≢ dealer_router
      → let s = poll_round z fuel a h in
        (s.0 ≡ ok tt) × Delivered z (heard a (listens h.pattern h.role)) h s.1
  unfolding messages
  round_lem fuel idle h k f p = rw (idle_round fuel h k f) (refl, idle-Delivered z h)
  round_lem fuel (PollAnswer.failed e) h k f p =
      rw (failed_round fuel e h k f)
        (refl, none-Delivered z 0 h _ (refl, refl, refl, omega arith) (refl, refl))
  round_lem fuel readable h k f p = elim (Bool-cases (listens h.pattern h.role)) [
    | inl l ↦ rw l (listening_round fuel _ _ h k f refl refl l)
    | inr l ↦ rw (deaf_round fuel h k f p l, l) (refl, idle-Delivered z h)
  ]

  step_lem :
      (fuel : ℕ) (a : PollAnswer) (answers : List PollAnswer) (h : Handler) (k : SocketType)
      → h.socket ≡ some k
      → h.running ≡ true
      → (poll_round z fuel a h).0 ≡ ok tt
      → poll_loop z fuel (a ∷ answers) h ≡ poll_loop z fuel answers (poll_round z fuel a h).1
  unfolding poll_loop
  step_lem fuel a answers h k f n e = simp (n, f, if◌then◌else◌) (rw e refl)

  -- The polling thread of a handler with a socket, of another pattern than DEALER-ROUTER: over any
  -- answers of zmq::poll, and whatever libzmq gives, its loop returns. A replier, a subscriber and
  -- a puller of its pattern try to receive once in each round that is readable, and the other roles
  -- never. Each message that libzmq gives is signalled once, in the order of their receipt, and
  -- nothing else is signalled as a message; a replier sends for each of them, in this order, "Reply
  -- to: " with the message, and the thread sends nothing else. The set-up and the socket stay.
  pub poll_loop-Delivered :
      (fuel : ℕ) (answers : List PollAnswer) (h : Handler) (k : SocketType)
      → h.socket ≡ some k
      → h.pattern ≢ dealer_router
      → h.running ≡ true
      → let r = poll_loop z fuel answers h in
        (r.0 ≡ ok tt) × Delivered z (readables (listens h.pattern h.role) answers) h r.1
  unfolding readables poll_loop
  poll_loop-Delivered fuel [] h k f p n = (refl, idle-Delivered z h)
  poll_loop-Delivered fuel (a ∷ answers) h k f p n =
      let (done, d) = round_lem fuel a h k f p in
      let h' = (poll_round z fuel a h).1 in
      let same = ap (λ (s : Setup). listens s.pattern s.role) d.kept.0 in
      let (returned, e) =
        poll_loop-Delivered fuel answers h' k (d.kept.1 ∙ f)
          (λ q. p (sym (ap (λ (s : Setup). s.pattern) d.kept.0) ∙ q))
          (ap (λ (s : Setup). s.running) d.kept.0 ∙ n) in
      rw (step_lem fuel a answers h k f n done) (
        returned,
        Delivered-trans z _ _ h h' _ d (
            subst (λ l. Delivered z (readables l answers) h' (poll_loop z fuel answers h').1) same
              e),
      )
