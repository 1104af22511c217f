-- ===== src/Zeromq/Receive.antt =====
-- src/core/zeromq_handler.cpp: one round of the polling thread and the handlers of messages.
use Prim.Native.Nat.{ℕ, zero, suc, ◌+◌, ◌%◌, ◌^◌}
use flowdriver.Base.{
  List, [], ◌∷◌, ◌++◌, none, some, Bool, true, false, ◌&&◌, not, Text, codes, ◌==◌, if◌then◌else◌,
  is_empty, length, nat_eq,
}
use flowdriver.Zeromq.Defs.{
  Pattern, Role, Zmq, Handler, M, Outcome, Exception, out_of_fuel, PollAnswer, idle, readable,
  ◌>>=◌, ◌>>◌, return, get, modify, emit, catch_zmq, message_received, error_occurred, req_rep,
  pub_sub, push_pull, dealer_router,
}
use flowdriver.Zeromq.Socket.{send, recv}

-- `m_routerQueues[identity].push(message)`; the keys are kept in the order of their first message.
unfoldable pub push_message : Text → Text → List (Text × List Text) → List (Text × List Text)
push_message k m [] = (k, m ∷ []) ∷ []
push_message k m ((j, ms) ∷ qs) =
    if j == k then (j, ms ++ m ∷ []) ∷ qs else (j, ms) ∷ push_message k m qs

abbrev is_router : Role → Bool
is_router Role.router = true
is_router _ = false

abbrev is_req_rep : Pattern → Bool
is_req_rep req_rep = true
is_req_rep _ = false

-- The counters are 64 bits wide.
abbrev count_message : Text → Handler → Handler
count_message m h = record h {
  messages_received = (h.messages_received + 1) % 2 ^ 64;
  bytes_received = (h.bytes_received + length m) % 2 ^ 64;
}

-- For a router that was told the sender's identity.
abbrev queue_message : Text → Text → Handler → Handler
queue_message sender m h =
    if is_router h.role && not (is_empty sender)
    then record h { identity = sender; router_queues = push_message sender m h.router_queues }
    else h

unfoldable pub process_incoming_message : Text → Text → M (Unit {0})
process_incoming_message sender message = do
  modify (count_message message)
  modify (queue_message sender message)
  h ← get
  if is_req_rep h.pattern then return tt else emit (message_received message)

-- The rounds of a loop have run out.
abbrev pub exhausted : {A : Type 0} → M A
exhausted h = (out_of_fuel, h)

module _ (z : Zmq) where
  unfoldable pub reply_to : Text → M (Unit {0})
  reply_to message = do
    emit (message_received message)
    _ ← send z (codes "Reply to: " ++ message) false
    return tt

  unfoldable pub handle_req_rep_message : Role → M (Unit {0})
  handle_req_rep_message Role.replier = do
    message ← recv z true
    elim message [ none ↦ return tt | some m ↦ reply_to m ]
  handle_req_rep_message _ = return tt

  unfoldable pub handle_pub_sub_message : Role → M (Unit {0})
  handle_pub_sub_message Role.subscriber = do
    message ← recv z true
    elim message [ none ↦ return tt | some m ↦ emit (message_received m) ]
  handle_pub_sub_message _ = return tt

  unfoldable pub handle_push_pull_message : Role → M (Unit {0})
  handle_push_pull_message Role.puller = do
    message ← recv z true
    elim message [ none ↦ return tt | some m ↦ process_incoming_message [] m ]
  handle_push_pull_message _ = return tt

  -- The loop that reads the frames of a message, without waiting, over the rounds left.
  unfoldable pub read_frames : ℕ → List Text → M (List Text)
  read_frames zero frames = exhausted
  read_frames (suc n) frames = do
    message ← recv z false
    elim message [
      | none ↦ return frames
      | some m ↦ λ h. elim (z.more h.calls) [
        | true ↦ read_frames n (frames ++ m ∷ []) h
        | false ↦ (Outcome.ok (frames ++ m ∷ []), h)
      ]
    ]

  -- The router answers a message that comes with an identity; failed sends are ignored.
  unfoldable pub answer_client : Text → Text → M (Unit {0})
  answer_client sender message = do
    modify λ h. record h { identity = sender }
    emit (message_received message)
    if is_empty sender then return tt else (do
      _ ← send z sender true
      _ ← send z (codes "Response to: " ++ message) false
      return tt)

  unfoldable pub handle_frames : Role → List Text → M (Unit {0})
  handle_frames Role.router (sender ∷ message ∷ rest) = answer_client sender message
  handle_frames Role.dealer (message ∷ rest) = emit (message_received message)
  handle_frames _ _ = return tt

  -- EAGAIN is 11, its value on Linux.
  unfoldable pub handle_dealer_router_message : ℕ → Role → M (Unit {0})
  handle_dealer_router_message fuel role =
      catch_zmq (do frames ← read_frames fuel []; handle_frames role frames)
        (λ e. if nat_eq e.num 11 then return tt else emit (error_occurred e.what))

  unfoldable pub handle_message : ℕ → Pattern → Role → M (Unit {0})
  handle_message fuel req_rep role = handle_req_rep_message role
  handle_message fuel pub_sub role = handle_pub_sub_message role
  handle_message fuel push_pull role = handle_push_pull_message role
  handle_message fuel dealer_router role = handle_dealer_router_message fuel role

  -- What a round of the loop of startPolling does with the answer of zmq::poll.
  unfoldable pub poll_answered : ℕ → PollAnswer → M (Unit {0})
  poll_answered fuel idle = return tt
  poll_answered fuel readable = do h ← get; handle_message fuel h.pattern h.role
  poll_answered fuel (PollAnswer.failed e) = λ h. (Outcome.throws (Exception.zmq_error e), h)

  -- A round of the loop, while m_running; without a socket the thread ends.
  unfoldable pub poll_round : ℕ → PollAnswer → M (Unit {0})
  poll_round fuel answer h = elim h.socket [
    | none ↦ return tt h
    | some k ↦ catch_zmq (poll_answered fuel answer) (λ e. emit (error_occurred e.what)) h
  ]

  -- The loop of startPolling over the answers of zmq::poll that come: it ends when m_running is
  -- false or the socket is null.
  unfoldable pub poll_loop : ℕ → List PollAnswer → M (Unit {0})
  poll_loop fuel [] h = return tt h
  poll_loop fuel (a ∷ answers) h =
      if h.running
      then elim h.socket [
        | none ↦ return tt h
        | some k ↦ (poll_round fuel a >>= λ _. poll_loop fuel answers) h
      ]
      else return tt h
