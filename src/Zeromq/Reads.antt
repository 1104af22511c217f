-- ===== src/Zeromq/Reads.antt =====
-- A round of the polling thread that reads one frame.
use Prim.Native.Nat.{suc}
use flowdriver.Base.{
  ◌≡◌, refl, ◌∙◌, Text, Bool, true, false, List, [], ◌∷◌, ◌⊎◌, inl, inr, arith, ◌++◌, codes, ap,
}
use flowdriver.Zeromq.Defs.{
  Role, Call, Zmq, ZmqError, Handler, Outcome, ok, sends, receives, received, nothing, RecvAnswer,
}
use flowdriver.Zeromq.Effects.{setup}
use flowdriver.Zeromq.Replies.{RecvAnswer-cases}
use flowdriver.Zeromq.Rounds.{
  messages, receipt, receipts, sent_frames, tries, replies, Delivered, one-Delivered,
  none-Delivered,
}

-- The answer that a role sends for a message.
abbrev pub answer_calls : Role → Text → List Call
answer_calls Role.replier m = sends (codes "Reply to: " ++ m) false ∷ []
answer_calls _ m = []

sent_frames-answer_calls :
    (r : Role) (m : Text) (wait : Bool) (cs : List Call)
    → sent_frames (answer_calls r m ++ receives wait ∷ cs) ≡ replies r (m ∷ []) ++ sent_frames cs
unfolding sent_frames replies
sent_frames-answer_calls Role.replier m wait cs = refl
sent_frames-answer_calls r m wait cs = refl

tries-answer_calls :
    (r : Role) (m : Text) (wait : Bool) (cs : List Call)
    → tries (answer_calls r m ++ receives wait ∷ cs) ≡ suc (tries cs)
unfolding tries
tries-answer_calls Role.replier m wait cs = refl
tries-answer_calls r m wait cs = refl

module _ (z : Zmq) where
  -- After a round that read a message.
  abbrev pub Read : Text → Handler → Outcome (Unit {0}) × Handler → Type 0
  Read m h r =
      (r.0 ≡ ok tt)
      × (r.1.calls ≡ answer_calls h.role m ++ receives true ∷ h.calls)
      × (messages r.1.signals ≡ m ∷ messages h.signals)
      × (setup r.1 ≡ setup h)
      × (r.1.socket ≡ h.socket)

  -- libzmq gives no message.
  abbrev pub Silent : Handler → Type 0
  Silent h =
      (z.recv (receives true ∷ h.calls) ≡ nothing)
      ⊎ ((e : ZmqError) × (z.recv (receives true ∷ h.calls) ≡ RecvAnswer.failed e))

  -- After a round that got no message.
  abbrev pub Unread : Handler → Outcome (Unit {0}) × Handler → Type 0
  Unread h r =
      (r.0 ≡ ok tt)
      × (r.1.calls ≡ receives true ∷ h.calls)
      × (messages r.1.signals ≡ messages h.signals)
      × (setup r.1 ≡ setup h)
      × (r.1.socket ≡ h.socket)

  silent_lem : (h : Handler) → Silent h → receipts z (receives true ∷ h.calls) ≡ receipts z h.calls
  unfolding receipts
  silent_lem h (inl e) = ap (λ a. receipt a (receipts z h.calls)) e
  silent_lem h (inr (x, e)) = ap (λ a. receipt a (receipts z h.calls)) e

  pub Unread-Delivered :
      (h : Handler) (r : Outcome (Unit {0}) × Handler)
      → Silent h
      → Unread h r
      → (r.0 ≡ ok tt) × Delivered z 1 h r.1
  unfolding receipts sent_frames tries
  Unread-Delivered h r g (o, c, s, k, f) = (
    o,
    none-Delivered z 1 h r.1
        (ap (receipts z) c ∙ silent_lem h g, s, ap sent_frames c, ap tries c ∙ omega arith) (k, f),
  )

  receipts-answer_calls :
      (r : Role) (m : Text) (cs : List Call)
      → z.recv (receives true ∷ cs) ≡ received m
      → receipts z (answer_calls r m ++ receives true ∷ cs) ≡ m ∷ receipts z cs
  unfolding receipts
  receipts-answer_calls Role.replier m cs e = ap (λ a. receipt a (receipts z cs)) e
  receipts-answer_calls r m cs e = ap (λ a. receipt a (receipts z cs)) e

  Read-Delivered :
      (m : Text) (h : Handler) (r : Outcome (Unit {0}) × Handler)
      → z.recv (receives true ∷ h.calls) ≡ received m
      → Read m h r
      → (r.0 ≡ ok tt) × Delivered z 1 h r.1
  Read-Delivered m h r e (o, c, s, k, f) = (
    o,
    one-Delivered z m h r.1
        (
          ap (receipts z) c ∙ receipts-answer_calls h.role m h.calls e,
          s,
          ap sent_frames c ∙ sent_frames-answer_calls h.role m true h.calls,
          ap tries c ∙ tries-answer_calls h.role m true h.calls,
        )
        (k, f),
  )

  -- A round that reads delivers, by what libzmq gives.
  pub reading_lem :
      (h : Handler) (r : Outcome (Unit {0}) × Handler)
      → ((m : Text) → z.recv (receives true ∷ h.calls) ≡ received m → Read m h r)
      → (Silent h → Unread h r)
      → (r.0 ≡ ok tt) × Delivered z 1 h r.1
  reading_lem h r f g = elim (RecvAnswer-cases (z.recv (receives true ∷ h.calls))) [
    | inl (m, e) ↦ Read-Delivered m h r e (f m e)
    | inr e ↦ Unread-Delivered h r e (g e)
  ]
