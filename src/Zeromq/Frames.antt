-- ===== src/Zeromq/Frames.antt =====
-- A round of the polling thread of a dealer or a router, for a message of any number of frames.
use Prim.Native.Nat.{ℕ, zero, suc, ◌≤◌}
use flowdriver.Base.{
  ◌≡◌, refl, ◌∙◌, ap, sym, subst, Text, some, true, false, List, [], ◌∷◌, arith, ◌++◌, append_assoc,
  codes, if◌then◌else◌, is_empty, length, nat_eq,
}
use flowdriver.Zeromq.Defs.{
  Role, SocketType, Call, Zmq, Handler, Outcome, ok, sends, receives, received, SendAnswer,
  readable, dealer_router, throws, zmq_error, error, crash, out_of_fuel, rescue, emit,
  error_occurred, return,
}
use flowdriver.Zeromq.Socket.{send, recv, log}
use flowdriver.Zeromq.Receive.{
  read_frames, answer_client, handle_frames, handle_dealer_router_message, handle_message,
  poll_answered, poll_round,
}
use flowdriver.Zeromq.Effects.{Kept, Ends, IsZmq}
use flowdriver.Zeromq.Replies.{handle_frames-Quiet, poll_round_lem}
use flowdriver.Zeromq.Rounds.{messages}

-- The message that a role shows of the frames.
abbrev pub shown : Role → List Text → List Text
shown Role.router (sender ∷ message ∷ rest) = message ∷ []
shown Role.dealer (message ∷ rest) = message ∷ []
shown _ _ = []

-- The calls after the frames were read.
unfoldable pub after_frames : List Text → List Call → List Call
after_frames [] calls = calls
after_frames (f ∷ fs) calls = after_frames fs (receives false ∷ calls)

-- The identity that the handler then has.
abbrev pub identity_after : Role → List Text → Text → Text
identity_after Role.router (sender ∷ message ∷ rest) identity = sender
identity_after _ _ identity = identity

-- The response goes out behind the identity, unless that is refused with an error.
abbrev responses : SendAnswer → Text → Text → List Call
responses (SendAnswer.failed e) sender message = sends sender true ∷ []
responses _ sender message = sends (codes "Response to: " ++ message) false ∷ sends sender true ∷ []

module _ (z : Zmq) where
  -- libzmq gives these frames of one message, and no error.
  unfoldable pub Comes : List Call → List Text → Type 0
  Comes calls [] = ⊥
  Comes calls (m ∷ []) =
      (z.recv (receives false ∷ calls) ≡ received m) × (z.more (receives false ∷ calls) ≡ false)
  Comes calls (m ∷ n ∷ fs) =
      (z.recv (receives false ∷ calls) ≡ received m)
      × (z.more (receives false ∷ calls) ≡ true)
      × Comes (receives false ∷ calls) (n ∷ fs)

  -- What a role sends for the frames, after the calls so far.
  abbrev pub answer_frames : Role → List Text → List Call → List Call
  answer_frames Role.router (sender ∷ message ∷ rest) calls =
      if is_empty sender then [] else responses (z.send (sends sender true ∷ calls)) sender message
  answer_frames _ _ calls = []

  read_frames_lem :
      (fuel : ℕ) (acc fs : List Text) (h : Handler) (k : SocketType)
      → h.socket ≡ some k
      → Comes h.calls fs
      → length fs ≤ fuel
      → read_frames z fuel acc h ≡ (ok (acc ++ fs), record h { calls = after_frames fs h.calls })
  unfolding read_frames recv log after_frames Comes
  read_frames_lem fuel acc [] h k f c l = absurd c
  read_frames_lem zero acc (m ∷ fs) h k f c l = absurd (omega arith)
  read_frames_lem (suc n) acc (m ∷ []) h k f c l = ground arith
  read_frames_lem (suc n) acc (m ∷ g ∷ fs) h k f c l = ground (
    arith,
    read_frames_lem n (acc ++ m ∷ []) (g ∷ fs) (record h { calls = receives false ∷ h.calls }) k f
        c.2 (omega arith),
    append_assoc acc (m ∷ []) (g ∷ fs),
  )

  handle_frames_lem :
      (r : Role) (fs : List Text) (h : Handler) (k : SocketType)
      → h.socket ≡ some k
      → let o = handle_frames z r fs h in
        (o.1.calls ≡ answer_frames r fs h.calls ++ h.calls)
        × (messages o.1.signals ≡ shown r fs ++ messages h.signals)
        × (o.1.identity ≡ identity_after r fs h.identity)
  unfolding handle_frames answer_client send log messages
  handle_frames_lem Role.router (sender ∷ message ∷ rest) h k f = ground arith
  handle_frames_lem Role.router (sender ∷ []) h k f = ground arith
  handle_frames_lem Role.router [] h k f = ground arith
  handle_frames_lem Role.dealer (message ∷ rest) h k f = ground arith
  handle_frames_lem r fs h k f = ground arith

  -- An error of libzmq is told, or nothing if it is EAGAIN.
  told_lem :
      (b : Handler) (o : Outcome (Unit {0})) (h : Handler)
      → Ends (λ _. Kept b) (λ x k. IsZmq x × Kept b k) o h
      → let r =
          rescue o (λ e. if nat_eq e.num 11 then return tt else emit (error_occurred e.what)) h in
        (r.0 ≡ ok tt)
        × (r.1.calls ≡ h.calls)
        × (messages r.1.signals ≡ messages h.signals)
        × (r.1.identity ≡ h.identity)
  unfolding messages
  told_lem b (ok a) h q = (refl, refl, refl, refl)
  told_lem b (throws (zmq_error e)) h q = ground arith
  told_lem b (throws (error e)) h q = absurd q.0
  told_lem b crash h q = absurd q
  told_lem b out_of_fuel h q = absurd q

  -- What a round leaves for the frames.
  abbrev pub Handled : Role → List Text → Handler → Outcome (Unit {0}) × Handler → Type 0
  Handled r fs h o =
      let calls = after_frames fs h.calls in
      (o.0 ≡ ok tt)
      × (o.1.calls ≡ answer_frames r fs calls ++ calls)
      × (messages o.1.signals ≡ shown r fs ++ messages h.signals)
      × (o.1.identity ≡ identity_after r fs h.identity)

  message_lem :
      (fuel : ℕ) (r : Role) (fs : List Text) (h : Handler) (k : SocketType)
      → h.socket ≡ some k
      → Comes h.calls fs
      → length fs ≤ fuel
      → Handled r fs h (handle_dealer_router_message z fuel r h)
  unfolding handle_dealer_router_message
  message_lem fuel r fs h k f c l =
      let h' = record h { calls = after_frames fs h.calls } in
      let q = handle_frames-Quiet z r fs h' h' k f (refl, refl) in
      let o = handle_frames z r fs h' in
      let t = told_lem h' o.0 o.1 q in
      let e = handle_frames_lem r fs h' k f in
      rw (read_frames_lem fuel [] fs h k f c l) (t.0, t.1 ∙ e.0, t.2 ∙ e.1, t.3 ∙ e.2)

  signals_lem :
      (r : Outcome (Unit {0}) × Handler)
      → r.0 ≡ ok tt
      → rescue r.0 (λ e. emit (error_occurred e.what)) r.1 ≡ r
  signals_lem r e = ground arith

  frames_lem :
      (fuel : ℕ) (h : Handler) (k : SocketType)
      → h.socket ≡ some k
      → h.pattern ≡ dealer_router
      → (handle_dealer_router_message z fuel h.role h).0 ≡ ok tt
      → poll_round z fuel readable h ≡ handle_dealer_router_message z fuel h.role h
  unfolding poll_answered handle_message
  frames_lem fuel h k f p e =
      poll_round_lem z fuel readable h k f
      ∙ (ap
            (λ p.
              (let r = handle_message z fuel p h.role h in
                rescue r.0 (λ e. emit (error_occurred e.what)) r.1))
            p
          ∙ signals_lem (handle_dealer_router_message z fuel h.role h) e)

  -- A message of any number of frames waits for a handler of the pattern DEALER-ROUTER with a
  -- socket, and the fuel covers them. The round reads them all and returns. A router, where there
  -- are two frames or more, shows the second, keeps the first as the identity of the client and, if
  -- that is not empty, sends it and then, unless that is refused with an error, "Response to: "
  -- with the second frame; a dealer shows the first frame and sends nothing; all other frames are
  -- dropped.
  pub poll_round-Handled :
      (fuel : ℕ) (fs : List Text) (h : Handler) (k : SocketType)
      → h.socket ≡ some k
      → h.pattern ≡ dealer_router
      → Comes h.calls fs
      → length fs ≤ fuel
      → Handled h.role fs h (poll_round z fuel readable h)
  poll_round-Handled fuel fs h k f p c l =
      let m = message_lem fuel h.role fs h k f c l in
      subst (Handled h.role fs h) (sym (frames_lem fuel h k f p m.0)) m
