-- ===== src/Tests/Sockets.antt =====
-- src/core/zeromq_handler.cpp with a libzmq that answers.
use flowdriver.Base.{
  ℕ, Text, codes, [], ◌∷◌, none, some, true, false, ◌≡◌, ◌≢◌, ◌↔◌, refl, length, nat_eq,
  if◌then◌else◌, arith,
}
use flowdriver.Types.{RequestConfig, default_config}
use flowdriver.Zeromq.Defs.{
  Zmq, Handler, init, ok, Pattern, Role, req_rep, pub_sub, dealer_router, SocketType, sent,
  received, readable,
}
use flowdriver.Zeromq.Configure.{configure, close, bind_endpoint, available_roles}
use flowdriver.Zeromq.Configured.{configure-eq-crash_iff, IsConfigured, IsRefused}
use flowdriver.Zeromq.Effects.{Ends, Kept}
use flowdriver.Zeromq.Settings.{view}
use flowdriver.Zeromq.Effective.{IsTuned, configure-IsTuned}
use flowdriver.Zeromq.Invariant.{
  Reachable, starts, configures, executes, IsSound, Reachable-IsSound,
}
use flowdriver.Zeromq.Frames.{Handled, poll_round-Handled}
use flowdriver.Zeromq.Execute.{execute, create_result}
use flowdriver.Zeromq.Receive.{poll_round}
use flowdriver.Zeromq.Replies.{poll_round_returns}
use flowdriver.Zeromq.Requests.{execute-IsDone, IsDone}

-- Every send goes out, and the frames "client" and "hello" come, in turn.
abbrev frame : ℕ → Text
frame n = if nat_eq n 1 then codes "client" else codes "hello"

abbrev pub lively : Zmq
lively = record {
  attempt = λ _. none;
  send = λ _. sent;
  recv = λ calls. received (frame (length calls));
  more = λ calls. nat_eq (length calls) 1;
  random = λ _. codes "7";
}

abbrev endpoint : Text
endpoint = codes "tcp://localhost:5555"

abbrev pub opened : SocketType → Pattern → Role → Handler
opened k p r = record init { socket = some k; pattern = p; role = r }

abbrev pub ping : RequestConfig
ping = record default_config { body = codes "ping" }

configure-IsTuned_example :
    Ends
      (λ _ k.
        IsConfigured pub_sub Role.publisher endpoint k × IsTuned pub_sub Role.publisher (view k))
      (IsRefused pub_sub Role.publisher endpoint)
      (configure lively pub_sub Role.publisher endpoint init).0
      (configure lively pub_sub Role.publisher endpoint init).1
configure-IsTuned_example = configure-IsTuned lively pub_sub Role.publisher endpoint init refl

bind_endpoint_ipc : bind_endpoint (codes "ipc://tmp") ≡ codes "ipc://tmp"
unfolding bind_endpoint flowdriver.Zeromq.Configure.wildcard_from flowdriver.Base.find_text
    flowdriver.Base.starts_with flowdriver.Zeromq.Configure.wildcard flowdriver.Base.find_from
    flowdriver.Base.find
bind_endpoint_ipc = refl

execute-IsDone_example :
    ((opened SocketType.req req_rep Role.requester).socket ≢ none)
    × IsDone lively req_rep Role.requester
        (codes "ping")
        (opened SocketType.req req_rep Role.requester)
        (create_result (codes "hello") true)
        (execute lively ping (opened SocketType.req req_rep Role.requester)).1
unfolding execute flowdriver.Zeromq.Execute.dispatch flowdriver.Zeromq.Execute.request
    flowdriver.Zeromq.Socket.send flowdriver.Zeromq.Execute.await_reply
    flowdriver.Zeromq.Socket.recv
execute-IsDone_example =
    execute-IsDone lively ping (opened SocketType.req req_rep Role.requester)
      (create_result (codes "hello") true) refl

poll_round_returns_example :
    ((poll_round lively 2 readable (opened SocketType.router dealer_router Role.router)).0 ≡ ok tt)
    × Kept
        (opened SocketType.router dealer_router Role.router)
        (poll_round lively 2 readable (opened SocketType.router dealer_router Role.router)).1
poll_round_returns_example =
    poll_round_returns lively 2 readable (opened SocketType.router dealer_router Role.router) tt

publishing-Reachable : Reachable lively (configure lively pub_sub Role.publisher endpoint init).1
publishing-Reachable =
    configures pub_sub Role.publisher endpoint starts
      (λ e. let f = (configure-eq-crash_iff lively pub_sub Role.publisher endpoint init).0 e in cc)

Reachable-IsSound_example :
    IsSound (execute lively ping (configure lively pub_sub Role.publisher endpoint init).1).1
Reachable-IsSound_example = Reachable-IsSound lively (executes ping publishing-Reachable)

abbrev routing : Handler
routing = opened SocketType.router dealer_router Role.router

poll_round-Handled_example :
    Handled lively Role.router
      (codes "client" ∷ codes "hello" ∷ [])
      routing
      (poll_round lively 2 readable routing)
unfolding flowdriver.Zeromq.Frames.Comes
poll_round-Handled_example =
    poll_round-Handled lively 2 (codes "client" ∷ codes "hello" ∷ []) routing SocketType.router refl
      refl (refl, refl, (refl, refl)) (omega arith)
