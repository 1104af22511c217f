-- ===== src/Manager/Reading.antt =====
-- src/models/request_manager.cpp: how the messages of the WebSocket reach the display.
use flowdriver.Base.{
  ℕ, Text, List, [], ◌∷◌, Option, some, none, Bool, true, false, ◌≡◌, refl, ◌∙◌, ap, sym, subst,
  arith,
}
use flowdriver.WebSocket.Defs.{Handler, message_received, starts_read}
use flowdriver.WebSocket.Connect.{do_read}
use flowdriver.WebSocket.Exchange.{on_read, message as read_message}
use flowdriver.Manager.Defs.{Manager, Response, message}
use flowdriver.Manager.Notices.{told, on_notice, on_socket, keep_ws}
use flowdriver.Manager.Delivering.{responses}

-- The stream is open and read, no callback was set, and every signal was passed on.
abbrev pub IsListening : Option (ℕ × Handler) → Type 0
IsListening none = ⊥
IsListening (some (id, h)) =
    ((secure : Bool) × (h.stream ≡ some secure))
    × (h.reading ≡ true)
    × (h.custom_messages ≡ false)
    × (h.notices ≡ [])

-- The reads of the stream complete with these messages, the first one first.
unfoldable pub arrive : List Text → Manager → Manager
arrive [] m = m
arrive (t ∷ ts) m = arrive ts (on_socket (on_read (read_message t)) m.ws m)

-- The responses after the messages, the latest first.
unfoldable pub shown_after : List Text → List Response → List Response
shown_after [] rs = rs
shown_after (t ∷ ts) rs = shown_after ts (message t ∷ rs)

-- A read that completes with a message tells it, and the next read is started.
on_read_lem :
    (t : Text)
    → (id : ℕ) → (h : Handler) → (secure : Bool) → h.stream ≡ some secure
    → h.reading ≡ true
    → h.custom_messages ≡ false
    → h.notices ≡ []
    → on_read (read_message t) h
      ≡ record h { notices = message_received t ∷ []; calls = starts_read secure ∷ h.calls }
unfolding on_read do_read
on_read_lem t id h secure s r c n = ground arith

-- The manager after a message.
abbrev Shows : Text → Manager → Manager → Type 0
Shows t m m' =
    IsListening m'.ws
    × (responses m'.signals ≡ message t ∷ responses m.signals)
    × (m'.is_connected ≡ m.is_connected)

read_lem :
    (t : Text)
    → (id : ℕ) → (h : Handler) → (m : Manager) → IsListening (some (id, h))
    → Shows t m (keep_ws id (on_read (read_message t) h) m)
unfolding told on_notice responses
read_lem t id h m ((secure, s), r, c, n) =
    subst (λ k. Shows t m (keep_ws id k m)) (sym (on_read_lem t id h secure s r c n))
      (((secure, s), r, c, refl), refl, refl)

on_socket_lem :
    (t : Text)
    → (o : Option (ℕ × Handler)) → (m : Manager) → IsListening o
    → Shows t m (on_socket (on_read (read_message t)) o m)
on_socket_lem t none m l = absurd l
on_socket_lem t (some (id, h)) m l = read_lem t id h m l

shown_lem :
    (ts : List Text)
    → (m : Manager) → (rs : List Response) → IsListening m.ws
    → responses m.signals ≡ rs
    → IsListening (arrive ts m).ws
      × (responses (arrive ts m).signals ≡ shown_after ts rs)
      × ((arrive ts m).is_connected ≡ m.is_connected)
unfolding arrive shown_after
shown_lem [] m rs l e = (l, e, refl)
shown_lem (t ∷ ts) m rs l e =
    let s = on_socket_lem t m.ws m l in
    let q = shown_lem ts _ (message t ∷ rs) s.0 (s.1 ∙ ap (λ rs. message t ∷ rs) e) in
    (q.0, q.1, q.2 ∙ s.2)

-- While the stream of the WebSocket handler is open and no callback was set, the messages with
-- which its reads complete are the responses that the display is given: each once, in their order,
-- and no others; the manager stays connected as it was, and the stream is being read again.
pub arrive-shows :
    (ts : List Text)
    → (m : Manager) → IsListening m.ws
    → IsListening (arrive ts m).ws
      × (responses (arrive ts m).signals ≡ shown_after ts (responses m.signals))
      × ((arrive ts m).is_connected ≡ m.is_connected)
arrive-shows ts m l = shown_lem ts m _ l refl
