-- ===== src/WebSocket/Runs.antt =====
-- src/core/websocket_handler.cpp: the handler over any sequence of calls and of completed reads.
use flowdriver.Base.{
  ◌≡◌, ◌≢◌, refl, ◌∙◌, inl, inr, ◌⊎◌, Text, List, [], ◌∷◌, none, true, All, arith,
}
use flowdriver.Types.{RequestConfig, RequestResult}
use flowdriver.WebSocket.Defs.{Net, Handler, init, ok, call}
use flowdriver.WebSocket.Connect.{connect, cancel, close, do_read}
use flowdriver.WebSocket.Exchange.{
  Completion, message, failed, on_read, on_aborted, execute, exchange, read, set_message_handler,
  set_error_handler,
}
use flowdriver.WebSocket.Ends.{connect-Ends}

pub data Event : Type 0 where
  connects executes : RequestConfig → Event
  cancels sets_message_handler sets_error_handler : Event
  completes : Completion → Event
  aborts : Text → Event

unfoldable pub after : Net → Event → Handler → Handler
after n (connects config) h = (connect n config h).1
after n (executes config) h = (execute n config h).1
after n cancels h = (cancel h).1
after n sets_message_handler h = set_message_handler h
after n sets_error_handler h = set_error_handler h
after n (completes c) h = on_read c h
after n (aborts t) h = on_aborted t h

-- The handler after the events, the first one first.
unfoldable pub run : Net → List Event → Handler → Handler
run n [] h = h
run n (e ∷ es) h = run n es (after n e h)

-- No read ends with an error.
unfoldable pub Undisturbed : Event → Type 0
Undisturbed (completes (failed t)) = ⊥
Undisturbed _ = Unit

-- A stream that is there is being read.
abbrev IsWatched : Handler → Type 0
IsWatched h = (h.stream ≡ none) ⊎ (h.reading ≡ true)

module _ (n : Net) where
  connect-IsWatched :
      (config : RequestConfig) → (h : Handler) → IsWatched h → IsWatched (connect n config h).1
  connect-IsWatched config h w = elim (connect-Ends n h config).1 [
    | inl (u, a, o) ↦ inr o.1
    | inr f ↦ elim w [ inl e ↦ inl (f.0 ∙ e) | inr e ↦ inr (f.1 ∙ e) ]
  ]

  execute-Kept :
      (config : RequestConfig)
      → (h : Handler)
      → ((execute n config h).1.stream ≡ h.stream) × ((execute n config h).1.reading ≡ h.reading)
  unfolding execute exchange read call
  execute-Kept config h = ground arith

  execute-IsWatched :
      (config : RequestConfig) → (h : Handler) → IsWatched h → IsWatched (execute n config h).1
  execute-IsWatched config h w =
      let (e, f) = execute-Kept config h in elim w [ inl q ↦ inl (e ∙ q) | inr q ↦ inr (f ∙ q) ]

  close-IsWatched : (h : Handler) → IsWatched h → IsWatched (close h).1
  unfolding close
  close-IsWatched h w = ground arith

  on_read-IsWatched : (t : Text) → (h : Handler) → IsWatched h → IsWatched (on_read (message t) h)
  unfolding on_read do_read
  on_read-IsWatched t h w = ground arith

  on_aborted-Kept :
      (t : Text)
      → (h : Handler)
      → ((on_aborted t h).stream ≡ h.stream) × ((on_aborted t h).reading ≡ h.reading)
  unfolding on_aborted
  on_aborted-Kept t h = ground arith

  after-IsWatched :
      (e : Event) → Undisturbed e → (h : Handler) → IsWatched h → IsWatched (after n e h)
  unfolding after Undisturbed cancel set_message_handler set_error_handler
  after-IsWatched (connects config) u h w = connect-IsWatched config h w
  after-IsWatched (executes config) u h w = execute-IsWatched config h w
  after-IsWatched cancels u h w = close-IsWatched h w
  after-IsWatched sets_message_handler u h w = w
  after-IsWatched sets_error_handler u h w = w
  after-IsWatched (completes (message t)) u h w = on_read-IsWatched t h w
  after-IsWatched (completes (failed t)) u h w = absurd u
  after-IsWatched (aborts t) u h w =
      let (e, f) = on_aborted-Kept t h in elim w [ inl q ↦ inl (e ∙ q) | inr q ↦ inr (f ∙ q) ]

  run-IsWatched :
      (es : List Event) → All Undisturbed es → (h : Handler) → IsWatched h → IsWatched (run n es h)
  unfolding run
  run-IsWatched [] u h w = w
  run-IsWatched (e ∷ es) u h w = run-IsWatched es u.1 (after n e h) (after-IsWatched e u.0 h w)

  execute_watched :
      (config : RequestConfig)
      → (h : Handler) → IsWatched h
      → (r : RequestResult) → (execute n config h).0 ≢ ok r
  unfolding execute exchange read call
  execute_watched config h w r = ground arith

  -- However the handler was called before, execute returns no result, unless an earlier read ended
  -- with an error: it throws, or it reads the stream while the read that connect started is
  -- pending.
  pub run-execute :
      (es : List Event)
      → All Undisturbed es
      → (config : RequestConfig) → (r : RequestResult) → (execute n config (run n es init)).0 ≢ ok r
  run-execute es u config r =
      execute_watched config (run n es init) (run-IsWatched es u init (inl refl)) r
