-- ===== src/Zeromq/Replies.antt =====
-- What a round of the polling thread does.
use Prim.Native.Nat.{ℕ, zero, suc}
use flowdriver.Base.{
  ◌≡◌, ◌≢◌, refl, ◌∙◌, Text, some, Bool, true, false, List, [], ◌∷◌, ◌⊎◌, inl, inr, arith, ◌++◌,
  codes, Option-cases, if◌then◌else◌, nat_eq,
}
use flowdriver.Zeromq.Defs.{
  Pattern, Role, SocketType, Call, Zmq, ZmqError, Handler, zmq_error, error, Outcome, ok, throws,
  crash, out_of_fuel, Signal, sends, receives, message_received, req_rep, sent, received, nothing,
  RecvAnswer, SendAnswer, PollAnswer, readable, idle, rescue, dealer_router, push_pull, return,
  emit, error_occurred,
}
use flowdriver.Zeromq.Socket.{send, recv, log}
use flowdriver.Zeromq.Receive.{
  process_incoming_message, reply_to, handle_req_rep_message, handle_pub_sub_message,
  handle_push_pull_message, read_frames, answer_client, handle_frames, handle_dealer_router_message,
  handle_message, poll_answered, poll_round,
}
use flowdriver.Zeromq.Effects.{Kept, Ends, Ends-bind, IsZmq}

abbrev EndsAfter : RecvAnswer → Bool → Type 0 → Type 0
EndsAfter (received m) true T = T
EndsAfter _ _ T = Unit

pub RecvAnswer-cases :
    (a : RecvAnswer)
    → ((m : Text) × (a ≡ received m))
      ⊎ ((a ≡ nothing) ⊎ ((e : ZmqError) × (a ≡ RecvAnswer.failed e)))
RecvAnswer-cases (received m) = inl (m, refl)
RecvAnswer-cases nothing = inr (inl refl)
RecvAnswer-cases (RecvAnswer.failed e) = inr (inr (e, refl))

abbrev failure : SendAnswer → List Signal → List Signal
failure (SendAnswer.failed e) ss = error_occurred e.what ∷ ss
failure _ ss = ss

module _ (z : Zmq) where
  -- The frames that wait end within `n` rounds: by a frame with no other behind it, by no frame, or
  -- by an error.
  abbrev pub EndsWithin : List Call → ℕ → Type 0
  EndsWithin calls zero = ⊥
  EndsWithin calls (suc n) =
      EndsAfter (z.recv (receives false ∷ calls)) (z.more (receives false ∷ calls))
        (EndsWithin (receives false ∷ calls) n)

  read_frames-Ends :
      (n : ℕ) (frames : List Text) (b h : Handler) (k : SocketType)
      → h.socket ≡ some k
      → Kept b h
      → EndsWithin h.calls n
      → Ends
          (λ _. Kept b)
          (λ x h'. IsZmq x × Kept b h')
          (read_frames z n frames h).0
          (read_frames z n frames h).1
  unfolding read_frames recv log
  read_frames-Ends zero frames b h k f q w = absurd w
  read_frames-Ends (suc n) frames b h k f q w =
      elim (RecvAnswer-cases (z.recv (receives false ∷ h.calls))) [
        | inl (m, e) ↦ ground (
          arith,
          read_frames-Ends n (frames ++ m ∷ []) b (record h { calls = receives false ∷ h.calls }) k
              f q,
        )
        | inr e ↦ ground arith
      ]

  -- The handlers keep the set-up and the socket.
  abbrev Quiet : Handler → Outcome (Unit {0}) → Handler → Type 0
  Quiet b = Ends (λ _. Kept b) (λ x h'. IsZmq x × Kept b h')

  pub handle_frames-Quiet :
      (r : Role) (frames : List Text) (b h : Handler) (k : SocketType)
      → h.socket ≡ some k
      → Kept b h
      → Quiet b (handle_frames z r frames h).0 (handle_frames z r frames h).1
  unfolding handle_frames answer_client send log
  handle_frames-Quiet Role.router (sender ∷ message ∷ rest) b h k f q = ground arith
  handle_frames-Quiet Role.router (sender ∷ []) b h k f q = q
  handle_frames-Quiet Role.router [] b h k f q = q
  handle_frames-Quiet Role.dealer (message ∷ rest) b h k f q = q
  handle_frames-Quiet r frames b h k f q = q

  process-Quiet :
      (sender message : Text) (b h : Handler)
      → Kept b h
      → Quiet b
          (process_incoming_message sender message h).0
          (process_incoming_message sender message h).1
  unfolding process_incoming_message
  process-Quiet sender message b h q = ground arith

  would_block_or_signal-Quiet :
      (b : Handler) (o : Outcome (Unit {0})) (h : Handler)
      → Quiet b o h
      → let g =
          λ (e : ZmqError). if nat_eq e.num 11 then return tt else emit (error_occurred e.what) in
        Quiet b (rescue o g h).0 (rescue o g h).1
  would_block_or_signal-Quiet b (ok a) h q = q
  would_block_or_signal-Quiet b (throws (zmq_error e)) h q = ground arith
  would_block_or_signal-Quiet b (throws (error e)) h q = q
  would_block_or_signal-Quiet b crash h q = q
  would_block_or_signal-Quiet b out_of_fuel h q = q

  -- A message of several frames.
  frames-Quiet :
      (fuel : ℕ) (r : Role) (h : Handler) (k : SocketType)
      → h.socket ≡ some k
      → EndsWithin h.calls fuel
      → Quiet h
          (handle_dealer_router_message z fuel r h).0
          (handle_dealer_router_message z fuel r h).1
  unfolding handle_dealer_router_message
  frames-Quiet fuel r h k f w = would_block_or_signal-Quiet h _ _ (
      Ends-bind (λ _. Kept h) (λ _. Kept h) (λ x h'. IsZmq x × Kept h h') (read_frames z fuel [])
        (handle_frames z r) h (read_frames-Ends fuel [] h h k f (refl, refl) w)
        (λ frames h' q. handle_frames-Quiet r frames h h' k (q.1 ∙ f) q))

  one_frame-Quiet :
      (fuel : ℕ) (p : Pattern) (r : Role) (h : Handler) (k : SocketType)
      → h.socket ≡ some k
      → EndsWithin h.calls fuel
      → Quiet h (handle_message z fuel p r h).0 (handle_message z fuel p r h).1
  unfolding handle_message handle_req_rep_message reply_to handle_pub_sub_message
      handle_push_pull_message send recv log
  one_frame-Quiet fuel dealer_router r h k f w = frames-Quiet fuel r h k f w
  one_frame-Quiet fuel p Role.replier h k f w = ground arith
  one_frame-Quiet fuel p Role.subscriber h k f w = ground arith
  one_frame-Quiet fuel push_pull Role.puller h k f w =
      elim (RecvAnswer-cases (z.recv (receives true ∷ h.calls))) [
        | inl (m, e) ↦ ground (
          arith,
          process-Quiet [] m h (record h { calls = receives true ∷ h.calls }) (refl, refl),
        )
        | inr e ↦ ground arith
      ]
  one_frame-Quiet fuel p r h k f w = ground arith

  poll_answered-Quiet :
      (fuel : ℕ) (a : PollAnswer) (h : Handler) (k : SocketType)
      → h.socket ≡ some k
      → EndsWithin h.calls fuel
      → Quiet h (poll_answered z fuel a h).0 (poll_answered z fuel a h).1
  unfolding poll_answered
  poll_answered-Quiet fuel idle h k f w = (refl, refl)
  poll_answered-Quiet fuel readable h k f w = one_frame-Quiet fuel h.pattern h.role h k f w
  poll_answered-Quiet fuel (PollAnswer.failed e) h k f w = (tt, (refl, refl))

  pub poll_round_lem :
      (fuel : ℕ) (a : PollAnswer) (h : Handler) (k : SocketType)
      → h.socket ≡ some k
      → poll_round z fuel a h
        ≡ (let r = poll_answered z fuel a h in rescue r.0 (λ e. emit (error_occurred e.what)) r.1)
  unfolding poll_round
  poll_round_lem fuel a h k f = simp (f, poll_round)

  signalled :
      (o : Outcome (Unit {0})) (h b : Handler)
      → Quiet b o h
      → let r = rescue o (λ e. emit (error_occurred e.what)) h in (r.0 ≡ ok tt) × Kept b r.1
  signalled (ok a) h b q = (refl, q)
  signalled (throws (zmq_error e)) h b q = (refl, q.1)
  signalled (throws (error e)) h b q = absurd q.0
  signalled crash h b q = absurd q
  signalled out_of_fuel h b q = absurd q

  -- A round of the polling thread, with fuel for the frames that wait, always returns: no answer of
  -- libzmq ends the thread or crashes it, and the status, the settings, the flag that the thread
  -- runs and the socket stay.
  pub poll_round_returns :
      (fuel : ℕ) (a : PollAnswer) (h : Handler)
      → EndsWithin h.calls fuel
      → ((poll_round z fuel a h).0 ≡ ok tt) × Kept h (poll_round z fuel a h).1
  unfolding poll_round
  poll_round_returns fuel a h w = elim (Option-cases h.socket) [
    | inl f ↦ ground arith
    | inr (k, f) ↦
        rw (poll_round_lem fuel a h k f) (signalled _ _ h (poll_answered-Quiet fuel a h k f w))
  ]

  -- A replier answers every message that it receives: it signals the message and sends
  -- "Reply to: " with the message, as one frame, right after the receipt; a failed send is
  -- signalled too.
  pub replier_answers :
      (fuel : ℕ) (m : Text) (h : Handler)
      → h.socket ≡ some SocketType.rep
      → h.pattern ≡ req_rep
      → h.role ≡ Role.replier
      → z.recv (receives true ∷ h.calls) ≡ received m
      → let calls = sends (codes "Reply to: " ++ m) false ∷ receives true ∷ h.calls in
        ((poll_round z fuel readable h).1.calls ≡ calls)
        × ((poll_round z fuel readable h).1.signals
            ≡ failure (z.send calls) (message_received m ∷ h.signals))
  unfolding poll_round poll_answered handle_message handle_req_rep_message reply_to send recv log
  replier_answers fuel m h f p r e = ground arith

  -- A router that receives a client's identity and a message remembers the identity and
  -- sends "Response to: " with the message behind that identity, to that client.
  pub router_answers :
      (n : ℕ) (sender m : Text) (h : Handler)
      → h.socket ≡ some SocketType.router
      → h.pattern ≡ dealer_router
      → h.role ≡ Role.router
      → sender ≢ []
      → z.recv (receives false ∷ h.calls) ≡ received sender
      → z.more (receives false ∷ h.calls) ≡ true
      → z.recv (receives false ∷ receives false ∷ h.calls) ≡ received m
      → z.more (receives false ∷ receives false ∷ h.calls) ≡ false
      → z.send (sends sender true ∷ receives false ∷ receives false ∷ h.calls) ≡ sent
      → ((poll_round z (suc (suc n)) readable h).1.calls
          ≡ sends (codes "Response to: " ++ m) false
            ∷ sends sender true
            ∷ receives false
            ∷ receives false
            ∷ h.calls)
        × ((poll_round z (suc (suc n)) readable h).1.identity ≡ sender)
  unfolding poll_round poll_answered handle_message handle_dealer_router_message read_frames
      handle_frames answer_client send recv log
  router_answers n sender m h f p r ne e1 m1 e2 m2 s1 = ground arith
