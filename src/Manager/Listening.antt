-- ===== src/Manager/Listening.antt =====
-- src/models/request_manager.cpp: from connectWebSocket to the messages on the display.
use flowdriver.Base.{
  ℕ, Text, List, Option, none, some, Bool, false, true, ◌≡◌, ◌⊎◌, refl, sym, subst, ◌∙◌, ap, inl,
  inr,
}
use flowdriver.WebSocket.Defs.{Handler}
use flowdriver.Manager.Defs.{World, Manager}
use flowdriver.Manager.Requests.{connect_web_socket}
use flowdriver.Manager.Delivering.{responses}
use flowdriver.Manager.Steps.{Reachable, step, socket_url, starts, steps}
use flowdriver.Manager.Invariant.{Reachable-is_sound}
use flowdriver.Manager.Parts.{callbacks}
use flowdriver.Manager.Polling as Polling
use flowdriver.Manager.Linking.{
  Links, IsLinked, IsUnlinked, IsOpen, is_socket_url, silent_lem, connect_web_socket-Links,
}
use flowdriver.Manager.Reading.{IsListening, arrive, shown_after, arrive-shows}

-- Without rounds of a polling thread.
pub Reachable-Runs : {m : Manager} → Reachable m → Polling.Runs m
Reachable-Runs (starts w) = Polling.starts w
Reachable-Runs (steps w e r q) = Polling.steps w e (Reachable-Runs r) q

custom_lem :
    {P : Type 0}
    → (b : Bool) → (o : Option Bool) → o ≡ some b
    → (o ≡ none) ⊎ ((o ≡ some false) × P)
    → b ≡ false
custom_lem b o q (inl e) = cc
custom_lem b o q (inr (e, p)) = cc

listening_lem :
    {m : Manager} → Reachable m → (o : Option (ℕ × Handler)) → m.ws ≡ o → IsOpen o → IsListening o
listening_lem r none q i = absurd i
listening_lem {m} r (some (id, h)) q (e, p) =
    let t = Polling.Runs-IsTidy (Reachable-Runs r) in
    (
      e,
      p,
      custom_lem h.custom_messages _ (ap callbacks q) t.is_web_socket,
      silent_lem m id h (Reachable-is_sound r) q,
    )

module _ (ts : List Text) (w : World) (url : Text) (id : ℕ) (h : Handler) where
  -- After a call that opened the connection, whatever messages the reads of the stream complete with:
  -- the display is given each of them once and in their order, and no others, and the manager stays
  -- connected. Or the connection failed.
  unfoldable pub Listens : Manager → Manager → Type 0
  Listens m m' =
      (IsLinked w url id h m m'
        × (responses (arrive ts m').signals ≡ shown_after ts (responses m.signals))
        × ((arrive ts m').is_connected ≡ true))
      ⊎ IsUnlinked w url id h m m'

  open_lem : (m m' : Manager) → IsLinked w url id h m m' → IsOpen m'.ws
  open_lem m m' ((u, x, o), e) = subst IsOpen (ap (λ n. n.ws) (sym e)) ((_, o.0), o.1)

  listens_lem : (m : Manager) → {m' : Manager} → Reachable m' → Links w url id h m m' → Listens m m'
  unfolding Listens responses
  listens_lem m {m'} r (inl l) =
      let a = arrive-shows ts m' (listening_lem r m'.ws refl (open_lem m m' l)) in
      inl (
        l,
        a.1 ∙ ap (λ n. shown_after ts (responses n.signals)) l.1,
        a.2 ∙ ap (λ n. n.is_connected) l.1,
      )
  listens_lem m r (inr f) = inr f

-- From connectWebSocket to the display. Where a reachable manager has a WebSocket handler and the
-- URL begins with ws:// or wss://, either connectWebSocket opened the stream of the accepted URL and
-- leaves the manager connected and tells so; then, whatever messages the reads of the stream
-- complete with, they are the responses that the display is given: each once, in their order, and no
-- others, and the manager stays connected. Or the handler's connect failed, with the stream that was
-- there and errorOccurred: then the manager tells nothing at all, and is connected or not as it was.
-- Nothing else of the manager is changed by connectWebSocket.
pub connect_web_socket-Listens :
    (w : World)
    → (url : Text) → (ts : List Text) → {m : Manager} → Reachable m
    → (id : ℕ) → (h : Handler) → m.ws ≡ some (id, h)
    → is_socket_url url ≡ true
    → Listens ts w url id h m (connect_web_socket w url m)
unfolding step
connect_web_socket-Listens w url ts {m} r id h q u =
    listens_lem ts w url id h m (steps w (socket_url url) r refl)
      (connect_web_socket-Links w url r id h q u)
