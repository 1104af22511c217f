-- ===== src/Zeromq/Conversation.antt =====
-- A requester and a replier: execute of the one and a round of the polling thread of the other.
use flowdriver.Base.{ℕ, ap, ◌≡◌, ◌∙◌, Text, some, codes, List, ◌∷◌, ◌++◌, true, false, arith}
use flowdriver.Types.{RequestConfig}
use flowdriver.Zeromq.Defs.{
  Role, SocketType, Zmq, Handler, ok, sends, receives, received, sent, readable, req_rep,
}
use flowdriver.Zeromq.Socket.{send, recv, log}
use flowdriver.Zeromq.Execute.{execute, dispatch, request, await_reply, create_result}
use flowdriver.Zeromq.Receive.{poll_round}
use flowdriver.Zeromq.Rounds.{messages, sent_frames}
use flowdriver.Zeromq.Reads.{answer_calls}
use flowdriver.Zeromq.Delivery.{replier-Read}

-- With an open socket of the role, of the pattern REQ-REP.
abbrev pub Plays : Role → Handler → Type 0
Plays r h = ((k : SocketType) × (h.socket ≡ some k)) × (h.pattern ≡ req_rep) × (h.role ≡ r)

execute_lem :
    (z : Zmq) (config : RequestConfig) (h : Handler) (reply : Text)
    → Plays Role.requester h
    → z.send (sends config.body false ∷ h.calls) ≡ sent
    → z.recv (receives true ∷ sends config.body false ∷ h.calls) ≡ received reply
    → let r = execute z config h in
      (r.0 ≡ ok (create_result reply true))
      × (messages r.1.signals ≡ config.body ∷ messages h.signals)
unfolding execute dispatch request await_reply send recv log messages
execute_lem z config h reply ((k, f), p, r) s e = ground arith

-- The replier got the request and sent the reply as its last frame.
replied_lem :
    (z : Zmq) (fuel : ℕ) (m : Text) (h : Handler)
    → Plays Role.replier h
    → z.recv (receives true ∷ h.calls) ≡ received m
    → let r = poll_round z fuel readable h in
      (messages r.1.signals ≡ m ∷ messages h.signals)
      × (sent_frames r.1.calls ≡ (codes "Reply to: " ++ m) ∷ sent_frames h.calls)
unfolding sent_frames
replied_lem z fuel m h ((k, f), p, r) e =
    let d = replier-Read z fuel h k m f p r e in
    (
      d.2,
      ap sent_frames d.1
          ∙ ap (λ (r : Role). sent_frames (answer_calls r m ++ receives true ∷ h.calls)) r,
    )

-- A requester and a replier, each with its own libzmq, where the request goes out and is what the
-- replier receives, and what the requester then receives is the last frame that the replier has
-- sent after its round. Then execute returns the result whose body is "Reply to: " with the body
-- of the request, and each end has signalled the body of the request once.
pub execute-converses :
    (z w : Zmq) (config : RequestConfig) (h g : Handler) (fuel : ℕ)
    → Plays Role.requester h
    → Plays Role.replier g
    → z.send (sends config.body false ∷ h.calls) ≡ sent
    → w.recv (receives true ∷ g.calls) ≡ received config.body
    → let round = poll_round w fuel readable g in
      ((frame : Text) (earlier : List Text)
        → sent_frames round.1.calls ≡ frame ∷ earlier
        → z.recv (receives true ∷ sends config.body false ∷ h.calls) ≡ received frame)
      → let r = execute z config h in
        let round = poll_round w fuel readable g in
        (r.0 ≡ ok (create_result (codes "Reply to: " ++ config.body) true))
        × (messages r.1.signals ≡ config.body ∷ messages h.signals)
        × (messages round.1.signals ≡ config.body ∷ messages g.signals)
execute-converses z w config h g fuel p q s e d =
    let (told, sent_one) = replied_lem w fuel config.body g q e in
    let (result, shown) = execute_lem z config h _ p s (d _ _ sent_one) in (result, shown, told)
