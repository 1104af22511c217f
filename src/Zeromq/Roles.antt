-- ===== src/Zeromq/Roles.antt =====
-- The sockets of the patterns' roles: what configureSocket does.
use flowdriver.Base.{pos, codes, ◌≡◌, some, Bool, true, false, List, [], ◌∷◌, if◌then◌else◌}
use flowdriver.Zeromq.Defs.{
  Pattern, Role, SocketType, SockOpt, Zmq, Handler, M, ◌>>◌, modify, linger, subscribes, rcvtimeo,
  sndtimeo, req_rep, pub_sub, push_pull, dealer_router,
}
use flowdriver.Zeromq.Socket.{create, set_options}
use flowdriver.Zeromq.Configure.{
  available_roles, common_options, pattern_timeout, set_all_options, set_common_socket_options,
  setup_req_rep, setup_pub_sub, setup_push_pull, setup_dealer_router, configure_socket,
}
use flowdriver.Zeromq.Effects.{
  Setup, setup, Ends-bind, IsZmq, Holds, Runs, create-Runs, set_options-Runs,
}

-- The roles of getAvailableRoles, as a test.
abbrev role_eq : Role → Role → Bool
role_eq Role.requester Role.requester = true
role_eq Role.replier Role.replier = true
role_eq Role.publisher Role.publisher = true
role_eq Role.subscriber Role.subscriber = true
role_eq Role.pusher Role.pusher = true
role_eq Role.puller Role.puller = true
role_eq Role.dealer Role.dealer = true
role_eq Role.router Role.router = true
role_eq _ _ = false

abbrev pub listed : Role → List Role → Bool
listed r [] = false
listed r (q ∷ qs) = if role_eq q r then true else listed r qs

-- The role is one of the pattern's available roles.
abbrev pub Available : Pattern → Role → Type 0
Available p r = listed r (available_roles p) ≡ true

abbrev pub socket_type : Role → SocketType
socket_type Role.requester = SocketType.req
socket_type Role.replier = SocketType.rep
socket_type Role.publisher = SocketType.publish
socket_type Role.subscriber = SocketType.subscribe
socket_type Role.pusher = SocketType.push
socket_type Role.puller = SocketType.pull
socket_type Role.dealer = SocketType.dealer
socket_type Role.router = SocketType.router

module _ (z : Zmq) where
  set_all_options-Runs :
      (s : Setup) (k : SocketType) (h : Handler)
      → Holds s k h
      → Runs s k (set_all_options z h).0 (set_all_options z h).1
  unfolding set_all_options
  set_all_options-Runs s k h p =
      set_options-Runs z (common_options (pattern_timeout h.pattern h.timeout)) s k
        (record h { timeout = pattern_timeout h.pattern h.timeout }) p

  pub set_common_lem :
      (k : SocketType) (h : Handler)
      → h.socket ≡ some k
      → set_common_socket_options z h ≡ set_all_options z h
  unfolding set_common_socket_options
  set_common_lem k h f = simp (f, set_common_socket_options)

  pub common-Runs :
      (s : Setup) (k : SocketType) (h : Handler)
      → Holds s k h
      → Runs s k (set_common_socket_options z h).0 (set_common_socket_options z h).1
  common-Runs s k h p = rw (set_common_lem k h p.1) (set_all_options-Runs s k h p)

  -- A sequence of two calls on the socket.
  then-Runs :
      (s : Setup) (k : SocketType) (m : M (Unit {0})) (m' : M (Unit {0})) (h : Handler)
      → Runs s k (m h).0 (m h).1
      → ((h' : Handler) → Holds s k h' → Runs s k (m' h').0 (m' h').1)
      → Runs s k ((m >> m') h).0 ((m >> m') h).1
  then-Runs s k m m' h p q =
      Ends-bind (λ _. Holds s k) (λ _. Holds s k) (λ x h'. IsZmq x × (setup h' ≡ s)) m (λ _. m') h p
        (λ _ h' r. q h' r)

  create_with_options :
      (k : SocketType) (os : List SockOpt) (s : Setup) (h : Handler)
      → setup h ≡ s
      → let r = (create z k >> (set_common_socket_options z >> set_options z os)) h in
        Runs s k r.0 r.1
  create_with_options k os s h e =
      then-Runs s k (create z k) (set_common_socket_options z >> set_options z os) h
        (create-Runs z k s h e)
        (λ h1 p1.
          then-Runs s k (set_common_socket_options z) (set_options z os) h1 (common-Runs s k h1 p1)
            (λ h2 p2. set_options-Runs z os s k h2 p2))

  pub configure_socket-Runs :
      (s : Setup) (p : Pattern) (r : Role) (h : Handler)
      → Available p r
      → setup h ≡ s
      → Runs s (socket_type r) (configure_socket z p r h).0 (configure_socket z p r h).1
  unfolding configure_socket setup_req_rep setup_push_pull setup_pub_sub setup_dealer_router
  configure_socket-Runs s req_rep Role.requester h a e = create-Runs z _ s h e
  configure_socket-Runs s req_rep Role.replier h a e = create-Runs z _ s h e
  configure_socket-Runs s push_pull Role.pusher h a e = create-Runs z _ s h e
  configure_socket-Runs s push_pull Role.puller h a e = create-Runs z _ s h e
  configure_socket-Runs s pub_sub Role.publisher h a e =
      create_with_options SocketType.publish (linger 1000 ∷ []) s h e
  configure_socket-Runs s pub_sub Role.subscriber h a e =
      create_with_options SocketType.subscribe (subscribes [] ∷ rcvtimeo (pos 5000) ∷ []) s h e
  configure_socket-Runs s dealer_router Role.dealer h a e =
      Ends-bind (λ _. Holds s SocketType.dealer) (λ _. Holds s SocketType.dealer)
        (λ x h'. IsZmq x × (setup h' ≡ s)) (create z SocketType.dealer) _ h
        (create-Runs z SocketType.dealer s h e)
        (λ _ h' q. set_options-Runs z _ s SocketType.dealer _ q)
  configure_socket-Runs s dealer_router Role.router h a e =
      Ends-bind (λ _. Holds s SocketType.router) (λ _. Holds s SocketType.router)
        (λ x h'. IsZmq x × (setup h' ≡ s)) (create z SocketType.router) _ h
        (create-Runs z SocketType.router s h e)
        (λ _ h' q.
          then-Runs s SocketType.router
            (set_options z (linger 0 ∷ rcvtimeo h'.timeout ∷ sndtimeo h'.timeout ∷ []))
            (modify λ h''. record h'' { identity = codes "Client" }) h'
            (set_options-Runs z _ s SocketType.router h' q) (λ h'' r. r))
  configure_socket-Runs s p r h a e = cc
