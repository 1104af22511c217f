-- ===== src/Zeromq/Configure.antt =====
-- src/core/zeromq_handler.cpp: close, configure and what they call; the polling thread's start and
-- stop. Sleeping and the debug output are left out.
use flowdriver.Base.{
  ℕ, map, List, [], ◌∷◌, ◌++◌, Option, none, some, Bool, true, false, Text, codes, ◌+◌, ℤ, pos,
  find_text, find_from, take, drop, if◌then◌else◌,
}
use flowdriver.Types.{ErrorCode}
use flowdriver.Zeromq.Defs.{
  Pattern, Role, ConnectionStatus, SocketType, SockOpt, Call, Zmq, Handler, Outcome, M, ◌>>=◌, ◌>>◌,
  return, throw, get, modify, catch_zmq, catch_all, req_rep, pub_sub, push_pull, dealer_router,
  requester, replier, publisher, subscriber, pusher, puller, disconnected, connected, linger,
  routing_id, rcvtimeo, sndtimeo, immediate, rcvhwm, sndhwm, reconnect_ivl, subscribes, raw, binds,
  connects, unbinds, disconnects, closes, sets, connection_status_changed,
}
use flowdriver.Zeromq.Socket.{create, call, set_options}

abbrev status_eq : ConnectionStatus → ConnectionStatus → Bool
status_eq ConnectionStatus.disconnected ConnectionStatus.disconnected = true
status_eq ConnectionStatus.connecting ConnectionStatus.connecting = true
status_eq ConnectionStatus.connected ConnectionStatus.connected = true
status_eq ConnectionStatus.error ConnectionStatus.error = true
status_eq _ _ = false

unfoldable pub set_connection_status : ConnectionStatus → M (Unit {0})
set_connection_status s h =
    if status_eq h.status s
    then (Outcome.ok tt, h)
    else (Outcome.ok tt, record h { status = s; signals = connection_status_changed ∷ h.signals })

-- The roles whose socket binds: the test that close and configure repeat.
abbrev pub binding : Role → Bool
binding Role.publisher = true
binding Role.puller = true
binding Role.replier = true
binding Role.router = true
binding _ = false

-- `getAvailableRoles`
abbrev pub available_roles : Pattern → List Role
available_roles req_rep = requester ∷ replier ∷ []
available_roles pub_sub = publisher ∷ subscriber ∷ []
available_roles push_pull = pusher ∷ puller ∷ []
available_roles dealer_router = Role.dealer ∷ Role.router ∷ []

-- The endpoint with its host replaced by a wildcard: `scheme://host:port` to `scheme://*:port`.
unfoldable pub wildcard : Text → ℕ → Option ℕ → Text
wildcard e start none = e
wildcard e start (some colon) = take start e ++ b'*' ∷ drop colon e

unfoldable pub wildcard_from : Text → Option ℕ → Text
wildcard_from e none = e
wildcard_from e (some slashes) = wildcard e (slashes + 2) (find_from b':' (slashes + 2) e)

unfoldable pub bind_endpoint : Text → Text
bind_endpoint e = wildcard_from e (find_text (codes "//") e)

-- Joining the thread and its failure have no effect on the state.
unfoldable pub stop_polling : M (Unit {0})
stop_polling = modify λ h. record h { running = false; poll_thread = false }

unfoldable pub start_polling : M (Unit {0})
start_polling = do
  stop_polling
  modify λ h. elim h.socket [ none ↦ h | some k ↦ record h { running = true; poll_thread = true } ]

abbrev pub common_options : ℤ → List SockOpt
common_options t =
    rcvtimeo t
    ∷ sndtimeo t
    ∷ immediate 1
    ∷ rcvhwm 1000
    ∷ sndhwm 1000
    ∷ linger 0
    ∷ reconnect_ivl 100
    ∷ []

-- The timeout of the REQ-REP pattern; it stays when another pattern is configured.
abbrev pub pattern_timeout : Pattern → ℤ → ℤ
pattern_timeout req_rep t = pos 30000
pattern_timeout _ t = t

abbrev widen_timeout : Handler → Handler
widen_timeout h = record h { timeout = pattern_timeout h.pattern h.timeout }

abbrev is_subscriber : Role → Bool
is_subscriber subscriber = true
is_subscriber _ = false

-- The call that attaches the socket: a binding role binds, another connects.
abbrev pub attachment : Role → Text → Call
attachment role endpoint =
    if binding role then binds (bind_endpoint endpoint) else connects endpoint

abbrev attach_failure : Role → Text
attach_failure role = if binding role then codes "Failed to bind: " else codes "Failed to connect: "

module _ (z : Zmq) where
  -- The body of the `try` of close.
  unfoldable pub release_socket : M (Unit {0})
  release_socket = do
    call z (sets (linger 0))
    h ← get
    if binding h.role
        then catch_zmq (call z (unbinds h.endpoint)) (λ e. return tt)
        else catch_zmq (call z (disconnects h.endpoint)) (λ e. return tt)
    call z closes

  unfoldable pub close_socket : M (Unit {0})
  close_socket = do catch_all release_socket; modify λ h. record h { socket = none }

  unfoldable pub close : M (Unit {0})
  close = do stop_polling; h ← get; elim h.socket [ none ↦ return tt | some k ↦ close_socket ]

  unfoldable pub set_all_options : M (Unit {0})
  set_all_options = do modify widen_timeout; h ← get; set_options z (common_options h.timeout)

  unfoldable pub set_common_socket_options : M (Unit {0})
  set_common_socket_options = do
    h ← get
    elim h.socket [ none ↦ return tt | some k ↦ set_all_options ]

  unfoldable pub setup_req_rep : Role → M (Unit {0})
  setup_req_rep requester = create z SocketType.req
  setup_req_rep replier = create z SocketType.rep
  setup_req_rep _ = return tt

  unfoldable pub setup_pub_sub : Role → M (Unit {0})
  setup_pub_sub publisher = do
    create z SocketType.publish
    set_common_socket_options
    set_options z (linger 1000 ∷ [])
  setup_pub_sub subscriber = do
    create z SocketType.subscribe
    set_common_socket_options
    set_options z (subscribes [] ∷ rcvtimeo (pos 5000) ∷ [])
  setup_pub_sub _ = return tt

  unfoldable pub setup_push_pull : Role → M (Unit {0})
  setup_push_pull pusher = create z SocketType.push
  setup_push_pull puller = create z SocketType.pull
  setup_push_pull _ = return tt

  -- The generator of the dealer's name draws once.
  unfoldable pub setup_dealer_router : Role → M (Unit {0})
  setup_dealer_router Role.dealer = do
    create z SocketType.dealer
    modify λ h. record h {
      dealer_id = codes "DEALER-" ++ z.random h.calls;
      identity = codes "DEALER-" ++ z.random h.calls;
    }
    h ← get
    set_options z (
        routing_id h.dealer_id
        ∷ linger 0
        ∷ reconnect_ivl 1000
        ∷ rcvtimeo h.timeout
        ∷ sndtimeo h.timeout
        ∷ [])
  setup_dealer_router Role.router = do
    create z SocketType.router
    h ← get
    set_options z (linger 0 ∷ rcvtimeo h.timeout ∷ sndtimeo h.timeout ∷ [])
    modify λ h'. record h' { identity = codes "Client" }
  setup_dealer_router _ = return tt

  -- The set-ups of three patterns read the role from m_role, which configure has set to `role`.
  unfoldable pub configure_socket : Pattern → Role → M (Unit {0})
  configure_socket push_pull role = setup_push_pull role
  configure_socket req_rep role = setup_req_rep role
  configure_socket pub_sub role = setup_pub_sub role
  configure_socket dealer_router role = setup_dealer_router role

  -- Bind or connect; a failure is turned into an Error.
  unfoldable pub attach : Role → Text → M (Unit {0})
  attach role endpoint =
      catch_zmq (call z (attachment role endpoint))
        (λ e. throw (record { code = ErrorCode.zmq_error; what = attach_failure role ++ e.what }))

  -- The body of the `try` of configure.
  unfoldable pub open_socket : Pattern → Role → Text → M (Unit {0})
  open_socket pattern role endpoint = do
    configure_socket pattern role
    set_common_socket_options
    attach role endpoint
    start_polling
    set_connection_status connected

  unfoldable pub configure : Pattern → Role → Text → M (Unit {0})
  configure p r e = do
    close
    set_connection_status disconnected
    modify λ h. record h { pattern = p; role = r; endpoint = e }
    catch_zmq (open_socket p r e) (λ x. do
      set_connection_status ConnectionStatus.error
      throw (record { code = ErrorCode.zmq_error; what = x.what }))

  unfoldable pub set_timeout : ℤ → M (Unit {0})
  set_timeout t = do
    modify λ h. record h { timeout = t }
    h ← get
    elim h.socket [ none ↦ return tt | some k ↦ set_options z (rcvtimeo t ∷ sndtimeo t ∷ []) ]

  unfoldable pub subscribe_to : List Text → M (Unit {0})
  subscribe_to [] = set_options z (subscribes [] ∷ [])
  subscribe_to (t ∷ ts) = set_options z (map subscribes (t ∷ ts))

  unfoldable pub subscribe : List Text → M (Unit {0})
  subscribe topics h = elim h.socket [
    | none ↦ return tt h
    | some k ↦ if is_subscriber h.role then subscribe_to topics h else return tt h
  ]

  -- setOption, without the catch of an error.
  unfoldable pub set_option : ℕ → Text → M (Unit {0})
  set_option option value h = elim h.socket [
    | none ↦ return tt h
    | some k ↦ call z (sets (raw option value)) h
  ]
