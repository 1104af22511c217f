-- ===== src/Zeromq/Made.antt =====
-- src/core/zeromq_handler.cpp: the options of a socket that configureSocket has made.
use flowdriver.Base.{pos, Text, List, [], ◌∷◌, ◌++◌, Option, none, some, ◌≡◌, refl, ap, codes}
use flowdriver.Zeromq.Defs.{
  Pattern, Role, SocketType, SockOpt, Zmq, Handler, ◌>>◌, linger, routing_id, reconnect_ivl,
  rcvtimeo, sndtimeo, subscribes, req_rep, pub_sub, push_pull, dealer_router,
}
use flowdriver.Zeromq.Socket.{create, set_options}
use flowdriver.Zeromq.Configure.{
  configure_socket, common_options, pattern_timeout, set_common_socket_options, set_all_options,
  setup_req_rep, setup_pub_sub, setup_push_pull, setup_dealer_router,
}
use flowdriver.Zeromq.Roles.{Available, socket_type, set_common_lem}
use flowdriver.Zeromq.Settings.{
  set, set_all, View, view, Leaves, bind-Leaves, with_options, create-Leaves, set_options-Leaves,
}

-- A subscriber has the one topic that every message has, the empty text.
abbrev pub topics_of : Role → List Text
topics_of Role.subscriber = [] ∷ []
topics_of _ = []

-- A dealer has its name.
abbrev pub routing_of : Role → Text → Option Text
routing_of Role.dealer name = some name
routing_of _ name = none

-- The socket of type `k`, with topics and a routing id.
abbrev pub IsMade : SocketType → Pattern → List Text → (Text → Option Text) → View → Type 0
IsMade k p ts f v =
    (v.socket ≡ some k)
    × (v.pattern ≡ p)
    × (v.effective.topics ≡ ts)
    × (v.effective.routing ≡ f v.dealer_id)

abbrev pub IsReady : Pattern → Role → View → Type 0
IsReady p r = IsMade (socket_type r) p (topics_of r) (routing_of r)

abbrev pub with_common : View → View
with_common v = record v {
  effective = set_all (common_options (pattern_timeout v.pattern v.timeout)) v.effective;
  timeout = pattern_timeout v.pattern v.timeout;
}

module _ (z : Zmq) where
  pub common-Leaves :
      (Q : View → Type 0) (k : SocketType) (h : Handler)
      → h.socket ≡ some k
      → Q (with_common (view h))
      → Leaves Q (set_common_socket_options z h).0 (set_common_socket_options z h).1
  unfolding set_all_options
  common-Leaves Q k h q x = rw (set_common_lem z k h q) (
      set_options-Leaves z Q (common_options (pattern_timeout h.pattern h.timeout))
        (record h { timeout = pattern_timeout h.pattern h.timeout }) x)

  -- A socket that is made, with options behind the common ones.
  optioned-Leaves :
      (k : SocketType) (p : Pattern) (os : List SockOpt) (Q : View → Type 0) (h : Handler)
      → h.pattern ≡ p
      → ((v : View) → IsMade k p [] (λ _. none) v → Q (with_options os v))
      → let r = (create z k >> (set_common_socket_options z >> set_options z os)) h in
        Leaves Q r.0 r.1
  unfolding set_all set
  optioned-Leaves k p os Q h e n =
      let P = IsMade k p [] (λ _. none) in
      bind-Leaves P Q (create z k) (λ _. set_common_socket_options z >> set_options z os) h
        (create-Leaves z P k h (refl, e, refl, refl))
        (λ _ h1 x.
          bind-Leaves P Q (set_common_socket_options z) (λ _. set_options z os) h1
            (common-Leaves P k h1 x.0 x) (λ _ h2 y. set_options-Leaves z Q os h2 (n (view h2) y)))

  pub socket-Leaves :
      (p : Pattern) (r : Role) (h : Handler)
      → Available p r
      → h.pattern ≡ p
      → Leaves (IsReady p r) (configure_socket z p r h).0 (configure_socket z p r h).1
  unfolding configure_socket setup_req_rep setup_push_pull setup_pub_sub setup_dealer_router set_all
      set
  socket-Leaves req_rep Role.requester h a e =
      create-Leaves z (IsReady req_rep Role.requester) SocketType.req h (refl, e, refl, refl)
  socket-Leaves req_rep Role.replier h a e =
      create-Leaves z (IsReady req_rep Role.replier) SocketType.rep h (refl, e, refl, refl)
  socket-Leaves push_pull Role.pusher h a e =
      create-Leaves z (IsReady push_pull Role.pusher) SocketType.push h (refl, e, refl, refl)
  socket-Leaves push_pull Role.puller h a e =
      create-Leaves z (IsReady push_pull Role.puller) SocketType.pull h (refl, e, refl, refl)
  socket-Leaves pub_sub Role.publisher h a e =
      optioned-Leaves SocketType.publish pub_sub (linger 1000 ∷ []) (IsReady pub_sub Role.publisher)
        h e (λ v x. x)
  socket-Leaves pub_sub Role.subscriber h a e =
      optioned-Leaves SocketType.subscribe pub_sub (subscribes [] ∷ rcvtimeo (pos 5000) ∷ [])
        (IsReady pub_sub Role.subscriber) h e (λ v x. (x.0, x.1, ap (λ ts. [] ∷ ts) x.2, x.3))
  socket-Leaves dealer_router Role.dealer h a e =
      bind-Leaves (IsMade SocketType.dealer dealer_router [] (λ _. none))
        (IsReady dealer_router Role.dealer) (create z SocketType.dealer) _ h
        (create-Leaves z (IsMade SocketType.dealer dealer_router [] (λ _. none)) SocketType.dealer h
          (refl, e, refl, refl))
        (λ _ k x.
          let name = codes "DEALER-" ++ z.random k.calls in
          let Q = IsReady dealer_router Role.dealer in
          set_options-Leaves z Q
            (routing_id name
              ∷ linger 0
              ∷ reconnect_ivl 1000
              ∷ rcvtimeo k.timeout
              ∷ sndtimeo k.timeout
              ∷ [])
            (record k { dealer_id = name; identity = name }) (x.0, x.1, x.2, refl))
  socket-Leaves dealer_router Role.router h a e =
      bind-Leaves (IsMade SocketType.router dealer_router [] (λ _. none))
        (IsReady dealer_router Role.router) (create z SocketType.router) _ h
        (create-Leaves z (IsMade SocketType.router dealer_router [] (λ _. none)) SocketType.router h
          (refl, e, refl, refl))
        (λ _ k x.
          bind-Leaves (IsMade SocketType.router dealer_router [] (λ _. none))
            (IsReady dealer_router Role.router)
            (set_options z (linger 0 ∷ rcvtimeo k.timeout ∷ sndtimeo k.timeout ∷ [])) _ k
            (set_options-Leaves z (IsMade SocketType.router dealer_router [] (λ _. none)) _ k x)
            (λ _ l y. y))
  socket-Leaves p r h a e = cc
  -- bind and connect change no option, and so do the start of the thread and the status.
