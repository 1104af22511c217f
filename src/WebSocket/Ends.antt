-- ===== src/WebSocket/Ends.antt =====
-- src/core/websocket_handler.cpp: how a connect ends.
use flowdriver.Base.{
  ◌≡◌, refl, ap, ◌⊎◌, inl, inr, Text, codes, ◌∷◌, some, true, not, ◌||◌, ◌==◌, is_empty,
}
use flowdriver.Types.{RequestConfig}
use flowdriver.WebSocket.Defs.{
  Uri, Net, Handler, Outcome, ok, throws, misused, ◌>>◌, notify, connected, error_occurred,
}
use flowdriver.WebSocket.Connect.{try_connect, connect, do_read, error_of, report, is_secure}
use flowdriver.WebSocket.Opening.{
  Holds, and_then-Holds, Callbacks, Same, Opens, do_read_lem, demand-Holds, parsed-Holds,
  resolve-Holds, Installed, open_stream-Holds,
}

module _ (n : Net) (h : Handler) where
  -- The URL is one of a WebSocket server.
  abbrev pub Accepts : RequestConfig → Uri → Type 0
  Accepts config u =
      (n.parse_uri config.url ≡ some u)
      × ((u.scheme == codes "ws" || u.scheme == codes "wss") ≡ true)
      × (not (is_empty u.host) ≡ true)

  abbrev pub Connects : RequestConfig → Handler → Type 0
  Connects config k = (u : Uri) × Accepts config u × Opens (is_secure u) h k

  read-Opens :
      (config : RequestConfig)
      → (u : Uri) → Accepts config u
      → (k : Handler) → Installed n h (is_secure u) k
      → Holds
          ((do_read >> notify connected) k).0
          ((do_read >> notify connected) k).1
          (λ _. Connects config)
          (Same h)
  unfolding Holds
  read-Opens config u a k e =
      rw (do_read_lem k _ e.0) (u, a, (e.0, refl, e.2, ap (◌∷◌ connected) e.3, e.4))

  try_connect-Holds :
      (config : RequestConfig)
      → Holds (try_connect n config h).0 (try_connect n config h).1 (λ _. Connects config) (Same h)
  unfolding try_connect
  try_connect-Holds config =
      and_then-Holds (Same h) _ _ _ _ _
        (parsed-Holds n h _ h (refl, refl, refl, refl, (refl, refl)))
        λ u k1 e1. and_then-Holds (Same h) _ _ _ _ _ (demand-Holds n h _ _ _ k1 e1.1) λ _ k2 e2.
          and_then-Holds (Same h) _ _ _ _ _ (demand-Holds n h _ _ _ k2 e2.1) λ _ k3 e3.
            and_then-Holds (Same h) _ _ _ _ _ (resolve-Holds n h _ _ k3 e3.1) λ _ k4 e4.
              and_then-Holds (Same h) _ _ _ _ _ (open_stream-Holds n h u _ k4 e4)
                λ _ k5 e5. read-Opens config u (e1.0, e2.0, e3.0) k5 e5

-- The stream is the one that was there, and only an error was told.
abbrev pub Fails : Handler → Handler → Type 0
Fails h k =
    (k.stream ≡ h.stream)
    × (k.reading ≡ h.reading)
    × (k.aborted ≡ h.aborted)
    × ((t : Text) × (k.notices ≡ error_occurred t ∷ h.notices))
    × Callbacks h k

module _ (n : Net) (h : Handler) where
  report-Ends :
      (config : RequestConfig)
      → (o : Outcome (Unit {0})) → (k : Handler) → Holds o k (λ _. Connects n h config) (Same h)
      → ((report o k).0 ≡ ok tt) × (Connects n h config (report o k).1 ⊎ Fails h (report o k).1)
  unfolding Holds
  report-Ends config (ok a) k e = (refl, inl e)
  report-Ends config (throws x) k e = (
    refl,
    inr (e.0, e.1, e.2, ((error_of x).what, ap (◌∷◌ (error_occurred (error_of x).what)) e.3), e.4),
  )
  report-Ends config misused k e = absurd e

  -- WebSocketHandler::connect returns, whatever the network answers. Either it opened the stream of
  -- an accepted URL (one that parses, of scheme ws or wss and with a host), which is encrypted
  -- exactly for wss: then a read of it is pending and connected() was emitted. Or the stream is the
  -- one that was there, no read was started or given up, and errorOccurred was emitted, and nothing
  -- else.
  pub connect-Ends :
      (config : RequestConfig)
      → ((connect n config h).0 ≡ ok tt)
        × (Connects n h config (connect n config h).1 ⊎ Fails h (connect n config h).1)
  unfolding connect
  connect-Ends config = report-Ends config _ _ (try_connect-Holds n h config)
