-- ===== src/Manager/Polling.antt =====
-- src/models/request_manager.cpp: where polling threads run, over any events.
use flowdriver.Base.{ℕ, some, Bool, true, ◌≡◌, subst}
use flowdriver.Zeromq.Defs.{Handler, PollAnswer}
use flowdriver.Zeromq.Receive.{poll_round}
use flowdriver.Zeromq.Replies.{EndsWithin, poll_round_returns}
use flowdriver.Zeromq.Invariant.{Kept-IsSound, executed_lem, configure-IsSound, close-IsSound}
use flowdriver.Zeromq.Requests.{execute-Ends}
use flowdriver.Zeromq.Execute
use flowdriver.Manager.Defs.{World, Manager, done}
use flowdriver.Manager.Protocols.{init, keep_zmq}
use flowdriver.Manager.Steps.{Event, step}
use flowdriver.Manager.Parts.{Parts, parts}
use flowdriver.Manager.Tidy.{IsTidy, IsServed, keep-IsTidy}
use flowdriver.Manager.Switching.{set_current_protocol-IsTidy, init-IsTidy}
use flowdriver.Manager.Stepping.{step_lem, after_lem}
use flowdriver.Manager.Leaving.{IsKept, IsHandled}

pub served_lem :
    (id : ℕ)
    → (h : Handler) → (p : Parts) → p.zmq ≡ some (id, h)
    → IsTidy p
    → IsServed (some (id, h))
served_lem id h p q t = subst IsServed q t.is_served

IsTidy-IsHandled : (w : World) → IsHandled w IsTidy
IsTidy-IsHandled w = record {
  closes = λ id h p q t. keep-IsTidy id h _ p q (close-IsSound w.zmq h) t;
  executes = λ c id h p q t.
      let k = (Execute.execute w.zmq c h).1 in
      keep-IsTidy id h k p q
        (Kept-IsSound h k (executed_lem h _ k (execute-Ends w.zmq c h)) (served_lem id h p q t).0)
        t;
  configures = λ a r e id h p q n t. keep-IsTidy id h _ p q (configure-IsSound w.zmq a r e h n) t;
}

started-IsTidy : (b : Bool) → (p : Parts) → IsTidy p → IsTidy (record p { is_backed = b })
started-IsTidy b p t = record {
  is_served = t.is_served;
  is_zeromq = t.is_zeromq;
  is_rest = t.is_rest;
  is_web_socket = t.is_web_socket;
  are_destroyed = t.are_destroyed;
}

IsTidy-IsKept : (w : World) → IsKept w IsTidy
IsTidy-IsKept w = record {
  switches = set_current_protocol-IsTidy w;
  starts = started-IsTidy;
  handled = IsTidy-IsHandled w;
}

-- The managers that the constructor, events and rounds of the polling thread lead to; a round has
-- the fuel for the frames that wait.
pub data Runs : Manager → Type 0 where
  starts : (w : World) → Runs (init w)
  steps : {m m' : Manager} (w : World) (e : Event) → Runs m → step w e m ≡ done m' → Runs m'
  polls :
      {m : Manager} (w : World) (fuel : ℕ) (a : PollAnswer) (id : ℕ) (h : Handler)
      → Runs m
      → m.zmq ≡ some (id, h)
      → h.poll_thread ≡ true
      → EndsWithin w.zmq h.calls fuel
      → Runs (keep_zmq id (poll_round w.zmq fuel a h).1 m)

pub Runs-IsTidy : {m : Manager} → Runs m → IsTidy (parts m)
Runs-IsTidy (starts w) = init-IsTidy w
Runs-IsTidy (steps w x r q) =
    after_lem w IsTidy _ q (step_lem w IsTidy (IsTidy-IsKept w) x _ (Runs-IsTidy r))
Runs-IsTidy (polls {m} w fuel a id h r q p e) =
    let t = Runs-IsTidy r in
    let k = (poll_round w.zmq fuel a h).1 in
    let s =
      Kept-IsSound h k (poll_round_returns w.zmq fuel a h e).1 (served_lem id h (parts m) q t).0 in
    keep-IsTidy id h k (parts m) q s t
