-- ===== src/Manager/Sockets.antt =====
-- src/models/request_manager.cpp: what the calls and the signals of the WebSocket handler leave of
-- a manager.
use flowdriver.Base.{
  ℕ, Text, List, [], ◌∷◌, Option, none, some, Bool, true, not, ◌&&◌, nat_eq, if◌then◌else◌, ◌≡◌,
  refl, inl, inr, Bool-cases, starts_with, codes, arith,
}
use flowdriver.Types.{RequestResult}
use flowdriver.WebSocket.Defs.{Handler, Notice, Outcome, ok, throws, misused}
use flowdriver.Manager.Defs.{World, Manager, Future}
use flowdriver.Manager.Notices.{
  on_notice, told, keep_ws, on_socket, on_web_socket_connected, on_web_socket_disconnected,
}
use flowdriver.Manager.Requests.{
  connect_with, socket_outcome, connect_web_socket, send_by, sent_by, socket_sent,
  send_web_socket_message,
}
use flowdriver.Manager.Steps.{is_owned, waits, is_kept, is_sound, is_awaited}
use flowdriver.Manager.Sound
use flowdriver.Manager.Kept.{sound_after}

module _ (a : Bool → ℕ → Future → Bool) where
  on_notice_lem :
      (x : Notice) → (m : Manager) → is_kept a m ≡ true → is_kept a (on_notice x m) ≡ true
  unfolding on_notice on_web_socket_connected on_web_socket_disconnected is_kept is_owned waits
  on_notice_lem x m e = ground arith

  told_lem : (xs : List Notice) → (m : Manager) → is_kept a m ≡ true → is_kept a (told xs m) ≡ true
  unfolding told
  told_lem [] m e = e
  told_lem (x ∷ xs) m e = on_notice_lem x (told xs m) (told_lem xs m e)

  with_ws_lem :
      (id : ℕ)
      → (h k : Handler) → (m : Manager) → m.ws ≡ some (id, h)
      → is_kept a m ≡ true
      → is_kept a (record m { ws = some (id, record k { notices = [] }) }) ≡ true
  unfolding is_kept is_owned waits
  with_ws_lem id h k m q e = ground arith

  keep_ws_lem :
      (id : ℕ)
      → (h k : Handler) → (m : Manager) → m.ws ≡ some (id, h)
      → is_kept a m ≡ true
      → is_kept a (keep_ws id k m) ≡ true
  keep_ws_lem id h k m q e = told_lem k.notices _ (with_ws_lem id h k m q e)

  on_socket_lem :
      (f : Handler → Handler)
      → (o : Option (ℕ × Handler)) → (m : Manager) → m.ws ≡ o
      → is_kept a m ≡ true
      → is_kept a (on_socket f o m) ≡ true
  on_socket_lem f none m q e = e
  on_socket_lem f (some (id, h)) m q e = keep_ws_lem id h (f h) m q e

  outcome_lem :
      (o : Outcome (Unit {0}))
      → (m : Manager) → is_kept a m ≡ true
      → is_kept a (socket_outcome o m) ≡ true
  outcome_lem (ok x) m e = e
  outcome_lem (throws x) m e = Sound.emit_lem a _ m e
  outcome_lem misused m e = e

  connect_with_lem :
      (w : World)
      → (url : Text) → (o : Option (ℕ × Handler)) → (m : Manager) → m.ws ≡ o
      → is_kept a m ≡ true
      → is_kept a (connect_with w url o m) ≡ true
  connect_with_lem w url none m q e = Sound.emit_lem a _ m e
  connect_with_lem w url (some (id, h)) m q e =
      elim (Bool-cases
        (not (starts_with url (codes "ws://")) && not (starts_with url (codes "wss://")))) [
          | inl b ↦ rw (b, if◌then◌else◌) (Sound.emit_lem a _ m e)
          | inr b ↦ rw (b, if◌then◌else◌) (outcome_lem _ _ (keep_ws_lem id h _ m q e))
        ]

pub connect_web_socket_lem :
    (w : World)
    → (url : Text) → (m : Manager) → is_sound m ≡ true
    → is_sound (connect_web_socket w url m) ≡ true
unfolding connect_web_socket is_sound
connect_web_socket_lem w url m e = connect_with_lem is_awaited w url m.ws m refl e

pub socket_lem :
    (f : Handler → Handler)
    → (m : Manager) → is_sound m ≡ true
    → is_sound (on_socket f m.ws m) ≡ true
unfolding is_sound
socket_lem f m e = on_socket_lem is_awaited f m.ws m refl e

socket_sent_lem :
    (t : Text)
    → (o : Outcome RequestResult) → (m : Manager) → is_sound m ≡ true
    → sound_after (socket_sent t o m) ≡ true
unfolding is_sound sound_after
socket_sent_lem t (ok r) m e = Sound.emit_lem is_awaited _ m e
socket_sent_lem t (throws x) m e = Sound.emit_lem is_awaited _ m e
socket_sent_lem t misused m e = refl

sent_by_lem :
    (w : World)
    → (o : Option Text) → (t : Text) → (id : ℕ) → (h : Handler) → (m : Manager)
    → m.ws ≡ some (id, h)
    → is_sound m ≡ true
    → sound_after (sent_by w o t id h m) ≡ true
unfolding sound_after is_sound
sent_by_lem w none t id h m q e = socket_sent_lem t _ _ (keep_ws_lem is_awaited id h _ m q e)
sent_by_lem w (some x) t id h m q e = refl

send_by_lem :
    (w : World)
    → (t : Text) → (k : Option ℕ) → (o : Option (ℕ × Handler)) → (m : Manager) → m.ws ≡ o
    → is_sound m ≡ true
    → sound_after (send_by w t k o m) ≡ true
unfolding sound_after
send_by_lem w t none o m q e = e
send_by_lem w t (some k) none m q e = e
send_by_lem w t (some k) (some (id, h)) m q e = elim (Bool-cases (nat_eq id k)) [
  | inl b ↦ rw (b, if◌then◌else◌) (sent_by_lem w _ t id h m q e)
  | inr b ↦ rw (b, if◌then◌else◌) e
]

pub send_web_socket_message_lem :
    (w : World)
    → (t : Text) → (m : Manager) → is_sound m ≡ true
    → sound_after (send_web_socket_message w t m) ≡ true
unfolding send_web_socket_message sound_after is_sound
send_web_socket_message_lem w t m e = elim (Bool-cases (not m.is_connected)) [
  | inl b ↦ rw (b, if◌then◌else◌) (Sound.emit_lem is_awaited _ m e)
  | inr b ↦ rw (b, if◌then◌else◌) (send_by_lem w t m.handler m.ws m refl e)
]
