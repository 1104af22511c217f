-- ===== src/Manager/Linking.antt =====
-- src/models/request_manager.cpp: connectWebSocket with the handler of
-- src/core/websocket_handler.cpp.
use flowdriver.Base.{
  ℕ, Text, codes, List, [], ◌∷◌, Option, none, some, Bool, true, false, not, ◌&&◌, ◌||◌,
  starts_with, if◌then◌else◌, ◌≡◌, ◌⊎◌, refl, sym, ap, subst, ◌∙◌, inl, inr, arith,
}
use flowdriver.Types.{RequestConfig, default_config}
use flowdriver.WebSocket.Defs.{
  Handler, Notice, connected as socket_connected, error_occurred as socket_failed,
}
use flowdriver.WebSocket.Connect
use flowdriver.WebSocket.Ends.{connect-Ends, Connects, Fails}
use flowdriver.Manager.Defs.{World, Manager, connected, connection_status_changed}
use flowdriver.Manager.Notices.{on_notice, told, keep_ws, on_web_socket_connected}
use flowdriver.Manager.Steps.{Reachable, is_sound, is_kept, is_owned, waits}
use flowdriver.Manager.Invariant.{Reachable-is_sound}
use flowdriver.Manager.Requests.{
  connect_with, connect_by, socket_outcome, connect_web_socket, with_auth,
}
use flowdriver.Manager.Starting.{answered, answered_lem}

-- A stream of the handler is open, and its read is pending.
abbrev pub IsOpen : Option (ℕ × Handler) → Type 0
IsOpen none = ⊥
IsOpen (some (id, h)) = ((secure : Bool) × (h.stream ≡ some secure)) × (h.reading ≡ true)

-- The configuration of a connection: the URL, and the headers of the authentication.
abbrev pub asked : World → Text → Manager → RequestConfig
asked w url m = record default_config { url = url; headers = answered w.base64 m.auth_model }

module _ (w : World) (url : Text) (id : ℕ) (h : Handler) where
  -- The handler after its connect, its signals passed on.
  abbrev pub after : Manager → Handler
  after m = record (Connect.connect w.websocket (asked w url m) h).1 { notices = [] }

  -- The connection was opened: the manager is connected and tells so, and nothing else changes.
  abbrev pub IsLinked : Manager → Manager → Type 0
  IsLinked m m' =
      Connects w.websocket h (asked w url m) (Connect.connect w.websocket (asked w url m) h).1
      × (m' ≡ record m {
        ws = some (id, after m);
        is_connected = true;
        signals = connected ∷ connection_status_changed ∷ m.signals;
      })

  -- The connection failed, with an error of the handler: the manager changes in nothing else.
  abbrev pub IsUnlinked : Manager → Manager → Type 0
  IsUnlinked m m' =
      Fails h (Connect.connect w.websocket (asked w url m) h).1
      × (m' ≡ record m { ws = some (id, after m) })

  abbrev pub Links : Manager → Manager → Type 0
  Links m m' = IsLinked m m' ⊎ IsUnlinked m m'

keep_lem :
    (id : ℕ)
    → (k : Handler) → (m : Manager) → (xs : List Notice) → k.notices ≡ xs
    → keep_ws id k m ≡ told xs (record m { ws = some (id, record k { notices = [] }) })
keep_lem id k m xs e = ap (λ ys. told ys (record m { ws = some (id, record k { notices = [] }) })) e

linked_lem :
    (id : ℕ)
    → (k : Handler) → (m : Manager) → k.notices ≡ socket_connected ∷ []
    → keep_ws id k m ≡ record m {
      ws = some (id, record k { notices = [] });
      is_connected = true;
      signals = connected ∷ connection_status_changed ∷ m.signals;
    }
unfolding told on_notice on_web_socket_connected
linked_lem id k m e = keep_lem id k m _ e ∙ refl

failed_lem :
    (id : ℕ)
    → (k : Handler) → (m : Manager) → (t : Text) → k.notices ≡ socket_failed t ∷ []
    → keep_ws id k m ≡ record m { ws = some (id, record k { notices = [] }) }
unfolding told on_notice
failed_lem id k m t e = keep_lem id k m _ e ∙ refl

connect_lem :
    (w : World)
    → (url : Text) → (id : ℕ) → (h : Handler) → (m : Manager) → h.notices ≡ []
    → Links w url id h m (keep_ws id (Connect.connect w.websocket (asked w url m) h).1 m)
connect_lem w url id h m e = elim (connect-Ends w.websocket h (asked w url m)).1 [
  | inl (u, x, o) ↦ inl ((u, x, o), linked_lem id _ m (o.3 ∙ ap (◌∷◌ socket_connected) e))
  | inr f ↦ inr (f, failed_lem id _ m f.3.0 (f.3.1 ∙ ap (◌∷◌ (socket_failed f.3.0)) e))
]

connect_by_lem :
    (w : World)
    → (url : Text) → (id : ℕ) → (h : Handler) → (m : Manager) → h.notices ≡ []
    → Links w url id h m (connect_by w (asked w url m) id h m)
connect_by_lem w url id h m e =
    let r = Connect.connect w.websocket (asked w url m) h in
    subst (λ o. Links w url id h m (socket_outcome o (keep_ws id r.1 m)))
      (sym (connect-Ends w.websocket h (asked w url m)).0) (connect_lem w url id h m e)

given_lem :
    (w : World)
    → (url : Text) → (m : Manager)
    → with_auth w m.auth_model (record default_config { url = url }) ≡ asked w url m
given_lem w url m = rw (answered_lem w m.auth_model) refl

-- The URL begins like that of a WebSocket server.
unfoldable pub is_socket_url : Text → Bool
is_socket_url url = starts_with url (codes "ws://") || starts_with url (codes "wss://")

de_morgan : (a b : Bool) → (a || b) ≡ true → (not a && not b) ≡ false
de_morgan a b e = ground arith

with_lem :
    (w : World)
    → (url : Text) → (id : ℕ) → (h : Handler) → (m : Manager) → h.notices ≡ []
    → is_socket_url url ≡ true
    → Links w url id h m (connect_with w url (some (id, h)) m)
unfolding is_socket_url
with_lem w url id h m e u =
    rw (de_morgan _ _ u, if◌then◌else◌)
      (subst (λ c. Links w url id h m (connect_by w c id h m)) (sym (given_lem w url m))
        (connect_by_lem w url id h m e))

pub silent_lem :
    (m : Manager)
    → (id : ℕ) → (h : Handler) → is_sound m ≡ true
    → m.ws ≡ some (id, h)
    → h.notices ≡ []
unfolding is_sound is_kept is_owned waits
silent_lem m id h e q = ground arith

-- Where a reachable manager has a WebSocket handler and the URL begins with ws:// or wss://,
-- connectWebSocket connects the handler with the URL and the headers of the authentication. Either
-- that opened the stream of the accepted URL, whose read is pending: then the manager is connected
-- and tells so. Or that failed: the handler has the stream that was there and emitted errorOccurred,
-- and the manager tells nothing at all, no error either, and is connected or not as it was. Nothing
-- else of the manager changes.
pub connect_web_socket-Links :
    (w : World)
    → (url : Text) → {m : Manager} → Reachable m
    → (id : ℕ) → (h : Handler) → m.ws ≡ some (id, h)
    → is_socket_url url ≡ true
    → Links w url id h m (connect_web_socket w url m)
unfolding connect_web_socket
connect_web_socket-Links w url {m} r id h q u =
    subst (λ o. Links w url id h m (connect_with w url o m)) (sym q)
      (with_lem w url id h m (silent_lem m id h (Reachable-is_sound r) q) u)
