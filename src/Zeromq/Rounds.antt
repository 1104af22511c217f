-- ===== src/Zeromq/Rounds.antt =====
-- What the polling thread delivers over its rounds.
use Prim.Native.Nat.{ℕ, suc, ◌+◌}
use flowdriver.Base.{
  ◌≡◌, refl, ◌∙◌, Text, Bool, true, false, List, [], ◌∷◌, arith, ◌++◌, codes, map, ap, sym, subst,
  map-append, append_assoc,
}
use flowdriver.Zeromq.Defs.{
  Pattern, Role, Call, Zmq, Handler, Signal, sends, receives, message_received, req_rep, received,
  RecvAnswer, PollAnswer, readable, push_pull, pub_sub,
}
use flowdriver.Zeromq.Effects.{Kept}

-- The messages that were signalled, the latest first.
unfoldable pub messages : List Signal → List Text
messages [] = []
messages (message_received t ∷ ss) = t ∷ messages ss
messages (_ ∷ ss) = messages ss

abbrev pub receipt : RecvAnswer → List Text → List Text
receipt (received m) ms = m ∷ ms
receipt _ ms = ms

-- The frames that the socket sent, the latest first.
unfoldable pub sent_frames : List Call → List Text
sent_frames [] = []
sent_frames (sends m more ∷ cs) = m ∷ sent_frames cs
sent_frames (_ ∷ cs) = sent_frames cs

-- The receipts that were tried.
unfoldable pub tries : List Call → ℕ
tries [] = 0
tries (receives wait ∷ cs) = suc (tries cs)
tries (_ ∷ cs) = tries cs

-- The roles whose thread receives, of the patterns with messages of one frame.
abbrev pub listens : Pattern → Role → Bool
listens req_rep Role.replier = true
listens pub_sub Role.subscriber = true
listens push_pull Role.puller = true
listens _ _ = false

-- The rounds in which a message is read.
abbrev pub heard : PollAnswer → Bool → ℕ
heard readable true = 1
heard a listening = 0

unfoldable pub readables : Bool → List PollAnswer → ℕ
readables listening [] = 0
readables listening (a ∷ answers) = heard a listening + readables listening answers

-- What a replier sends for messages.
unfoldable pub replies : Role → List Text → List Text
replies Role.replier ms = map (λ m. codes "Reply to: " ++ m) ms
replies _ ms = []

replies-append :
    (r : Role) (ms ns : List Text) → replies r (ms ++ ns) ≡ replies r ms ++ replies r ns
unfolding replies
replies-append Role.replier ms ns = map-append _ ms ns
replies-append r ms ns = refl

append_lem : (a b t : List Text) {x y : List Text} → x ≡ a ++ y → y ≡ b ++ t → x ≡ (a ++ b) ++ t
append_lem a b t e f = e ∙ (ap (λ y. a ++ y) f ∙ sym (append_assoc a b t))

module _ (z : Zmq) where
  -- The messages that libzmq gave, the latest first.
  unfoldable pub receipts : List Call → List Text
  receipts [] = []
  receipts (receives wait ∷ cs) = receipt (z.recv (receives wait ∷ cs)) (receipts cs)
  receipts (_ ∷ cs) = receipts cs

  -- The messages `ms` were received, signalled and, by a replier, answered, each once and in this
  -- order; `n` receipts were tried.
  pub record Delivered (n : ℕ) (h h' : Handler) : Type 0 where
    pub delivery : List Text
    pub received : receipts h'.calls ≡ delivery ++ receipts h.calls
    pub signalled : messages h'.signals ≡ delivery ++ messages h.signals
    pub answered : sent_frames h'.calls ≡ replies h.role delivery ++ sent_frames h.calls
    pub tried : tries h'.calls ≡ n + tries h.calls
    pub kept : Kept h h'

  pub idle-Delivered : (h : Handler) → Delivered 0 h h
  unfolding replies
  idle-Delivered h = record {
    delivery = [];
    received = refl;
    signalled = refl;
    answered = ground arith;
    tried = omega arith;
    kept = (refl, refl);
  }

  pub Delivered-trans :
      (n k : ℕ) (h h' h'' : Handler)
      → Delivered n h h'
      → Delivered k h' h''
      → Delivered (n + k) h h''
  Delivered-trans n k h h' h'' d e = record {
    delivery = e.delivery ++ d.delivery;
    received = append_lem e.delivery d.delivery _ e.received d.received;
    signalled = append_lem e.delivery d.delivery _ e.signalled d.signalled;
    answered =
        subst (λ ms. sent_frames h''.calls ≡ ms ++ sent_frames h.calls)
          (sym (replies-append h.role e.delivery d.delivery))
          (append_lem (replies h.role e.delivery) (replies h.role d.delivery) _
            (subst (λ r. sent_frames h''.calls ≡ replies r e.delivery ++ sent_frames h'.calls)
              (ap (λ s. s.role) d.kept.0) e.answered)
            d.answered);
    tried = omega (arith, e.tried, d.tried);
    kept = (e.kept.0 ∙ d.kept.0, e.kept.1 ∙ d.kept.1);
  }

  pub one-Delivered :
      (m : Text) (h h' : Handler)
      → (receipts h'.calls ≡ m ∷ receipts h.calls)
        × (messages h'.signals ≡ m ∷ messages h.signals)
        × (sent_frames h'.calls ≡ replies h.role (m ∷ []) ++ sent_frames h.calls)
        × (tries h'.calls ≡ suc (tries h.calls))
      → Kept h h'
      → Delivered 1 h h'
  one-Delivered m h h' (r, s, a, t) k = record {
    delivery = m ∷ [];
    received = r;
    signalled = s;
    answered = a;
    tried = omega (arith, t);
    kept = k;
  }

  pub none-Delivered :
      (n : ℕ) (h h' : Handler)
      → (receipts h'.calls ≡ receipts h.calls)
        × (messages h'.signals ≡ messages h.signals)
        × (sent_frames h'.calls ≡ sent_frames h.calls)
        × (tries h'.calls ≡ n + tries h.calls)
      → Kept h h'
      → Delivered n h h'
  unfolding replies
  none-Delivered n h h' (r, s, a, t) k = record {
    delivery = [];
    received = r;
    signalled = s;
    answered = a ∙ ground arith;
    tried = t;
    kept = k;
  }
