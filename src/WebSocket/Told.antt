-- ===== src/WebSocket/Told.antt =====
-- src/core/websocket_handler.cpp: what the handler tells over any sequence of calls and completions.
use flowdriver.Base.{
  ◌≡◌, ℕ, zero, suc, refl, sym, subst, ◌∙◌, ◌⊎◌, inl, inr, if◌then◌else◌, Bool-cases, Text, List,
  [], ◌∷◌, true, false, All, arith,
}
use flowdriver.Types.{RequestConfig}
use flowdriver.WebSocket.Defs.{
  Net, Handler, init, call, Notice, connected, disconnected, message_received, message_handed,
  error_occurred, error_handed,
}
use flowdriver.WebSocket.Connect.{connect, cancel, close, do_read}
use flowdriver.WebSocket.Exchange.{
  Completion, message, handed, error_told, dropped, network_error, failed, on_read, on_aborted,
  execute, exchange, read, set_message_handler, set_error_handler,
}
use flowdriver.WebSocket.Ends.{connect-Ends}
use flowdriver.WebSocket.Opening.{Callbacks}
use flowdriver.WebSocket.Runs.{
  Event, connects, executes, cancels, sets_message_handler, sets_error_handler, completes, aborts,
  after, run,
}

-- What a handler tells with the callbacks that it has.
unfoldable pub IsTold : Handler → Notice → Type 0
IsTold h connected = Unit
IsTold h disconnected = ⊥
IsTold h (message_received t) = Unit
IsTold h (error_occurred t) = Unit
IsTold h (message_handed t) = h.custom_messages ≡ true
IsTold h (error_handed x) = h.error_handler ≡ true

-- Callbacks that are set are never taken back.
abbrev Keeps : Handler → Handler → Type 0
Keeps h k =
    (h.custom_messages ≡ true → k.custom_messages ≡ true)
    × (h.error_handler ≡ true → k.error_handler ≡ true)

Callbacks-Keeps : (h k : Handler) → Callbacks h k → Keeps h k
Callbacks-Keeps h k e = (λ q. e.0 ∙ q, λ q. e.1 ∙ q)

module _ (h k : Handler) (e : Keeps h k) where
  IsTold-Keeps : (x : Notice) → IsTold h x → IsTold k x
  unfolding IsTold
  IsTold-Keeps connected t = tt
  IsTold-Keeps disconnected t = t
  IsTold-Keeps (message_received s) t = tt
  IsTold-Keeps (error_occurred s) t = tt
  IsTold-Keeps (message_handed s) t = e.0 t
  IsTold-Keeps (error_handed s) t = e.1 t

  All-Keeps : (xs : List Notice) → All (IsTold h) xs → All (IsTold k) xs
  All-Keeps [] a = tt
  All-Keeps (x ∷ xs) a = (IsTold-Keeps x a.0, All-Keeps xs a.1)

-- Either nothing was told, or one notice was.
abbrev Tells : Handler → Handler → Type 0
Tells h k =
    Keeps h k
    × ((k.notices ≡ h.notices) ⊎ ((x : Notice) × IsTold k x × (k.notices ≡ x ∷ h.notices)))

Tells-All : (h k : Handler) → Tells h k → All (IsTold h) h.notices → All (IsTold k) k.notices
Tells-All h k (e, inl q) a = subst (All (IsTold k)) (sym q) (All-Keeps h k e h.notices a)
Tells-All h k (e, inr (x, t, q)) a = subst (All (IsTold k)) (sym q) (t, All-Keeps h k e h.notices a)

connect-Tells :
    (n : Net) → (config : RequestConfig) → (h : Handler) → Tells h (connect n config h).1
unfolding IsTold
connect-Tells n config h = elim (connect-Ends n h config).1 [
  | inl (u, a, o) ↦ (Callbacks-Keeps h (connect n config h).1 o.4, inr (connected, tt, o.3))
  | inr f ↦ (Callbacks-Keeps h (connect n config h).1 f.4, inr (error_occurred f.3.0, tt, f.3.1))
]

execute-Silent :
    (n : Net)
    → (config : RequestConfig) → (h : Handler)
    → Callbacks h (execute n config h).1 × ((execute n config h).1.notices ≡ h.notices)
unfolding execute exchange read call
execute-Silent n config h = ground arith

close-Silent : (h : Handler) → Callbacks h (close h).1 × ((close h).1.notices ≡ h.notices)
unfolding close
close-Silent h = ground arith

do_read-Silent : (h : Handler) → Callbacks h (do_read h).1 × ((do_read h).1.notices ≡ h.notices)
unfolding do_read
do_read-Silent h = ground arith

handed-Tells : (t : Text) → (h : Handler) → Tells h (handed t h)
unfolding IsTold
handed-Tells t h = elim (Bool-cases h.custom_messages) [
  | inl q ↦ simp (q, if◌then◌else◌) ((λ e. e, λ e. e), inr (message_handed t, refl, refl))
  | inr q ↦ simp (q, if◌then◌else◌) ((λ e. e, λ e. e), inr (message_received t, tt, refl))
]

error_told-Tells : (t : Text) → (h : Handler) → Tells h (error_told t h)
unfolding IsTold
error_told-Tells t h = elim (Bool-cases h.error_handler) [
  | inl q ↦
      simp (q, if◌then◌else◌) ((λ e. e, λ e. e), inr (error_handed (network_error t), refl, refl))
  | inr q ↦ simp (q, if◌then◌else◌) ((λ e. e, λ e. e), inl refl)
]

Silent-Tells : (h k j : Handler) → Tells h k → Callbacks k j × (j.notices ≡ k.notices) → Tells h j
Silent-Tells h k j (e, inl q) (c, f) = ((λ a. c.0 ∙ e.0 a, λ a. c.1 ∙ e.1 a), inl (f ∙ q))
Silent-Tells h k j (e, inr (x, t, q)) (c, f) = (
  (λ a. c.0 ∙ e.0 a, λ a. c.1 ∙ e.1 a),
  inr (x, IsTold-Keeps k j (Callbacks-Keeps k j c) x t, f ∙ q),
)

read_on-Tells : (t : Text) → (h : Handler) → Tells h (do_read (handed t h)).1
read_on-Tells t h = Silent-Tells h (handed t h) _ (handed-Tells t h) (do_read-Silent (handed t h))

on_read-Tells : (c : Completion) → (h : Handler) → Tells h (on_read c h)
unfolding on_read
on_read-Tells (message t) h = elim (Bool-cases h.reading) [
  | inl q ↦ rw (q, if◌then◌else◌) (read_on-Tells t (record h { reading = false }))
  | inr q ↦ rw (q, if◌then◌else◌) ((λ e. e, λ e. e), inl refl)
]
on_read-Tells (failed t) h = elim (Bool-cases h.reading) [
  | inl q ↦ rw (q, if◌then◌else◌) (error_told-Tells t (record h { reading = false }))
  | inr q ↦ rw (q, if◌then◌else◌) ((λ e. e, λ e. e), inl refl)
]

dropped-Tells : (t : Text) → (k : ℕ) → (h : Handler) → Tells h (dropped t k h)
dropped-Tells t zero h = ((λ e. e, λ e. e), inl refl)
dropped-Tells t (suc k) h = error_told-Tells t (record h { aborted = k })

on_aborted-Tells : (t : Text) → (h : Handler) → Tells h (on_aborted t h)
unfolding on_aborted
on_aborted-Tells t h = dropped-Tells t h.aborted h

after-Tells : (n : Net) → (e : Event) → (h : Handler) → Tells h (after n e h)
unfolding after cancel set_message_handler set_error_handler
after-Tells n (connects config) h = connect-Tells n config h
after-Tells n (executes config) h =
    let (e, f) = execute-Silent n config h in (Callbacks-Keeps h (execute n config h).1 e, inl f)
after-Tells n cancels h = let (e, f) = close-Silent h in (Callbacks-Keeps h (close h).1 e, inl f)
after-Tells n sets_message_handler h = ((λ _. refl, λ q. q), inl refl)
after-Tells n sets_error_handler h = ((λ q. q, λ _. refl), inl refl)
after-Tells n (completes c) h = on_read-Tells c h
after-Tells n (aborts t) h = on_aborted-Tells t h

run-Tells :
    (n : Net)
    → (es : List Event) → (h : Handler) → All (IsTold h) h.notices
    → All (IsTold (run n es h)) (run n es h).notices
unfolding run
run-Tells n [] h a = a
run-Tells n (e ∷ es) h a = run-Tells n es (after n e h) (Tells-All _ _ (after-Tells n e h) a)

-- Whatever is called and however the reads complete, disconnected() is never emitted, and an error
-- of a read is told only by a handler whose setErrorHandler was called.
pub run-IsTold :
    (n : Net) → (es : List Event) → All (IsTold (run n es init)) (run n es init).notices
run-IsTold n es = run-Tells n es init tt
