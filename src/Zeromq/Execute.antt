-- ===== src/Zeromq/Execute.antt =====
-- src/core/zeromq_handler.cpp, execute and sendMessage; createResult of its header.
use flowdriver.Base.{
  Option, none, some, Bool, true, false, Text, codes, if◌then◌else◌, is_empty, length,
}
use flowdriver.Types.{ErrorCode, RequestConfig, RequestResult, default_result, default_metrics}
use flowdriver.Zeromq.Defs.{
  Pattern, Role, Zmq, Handler, M, ◌>>=◌, ◌>>◌, return, throw, get, modify, emit, catch_zmq,
  message_received, req_rep,
}
use flowdriver.Zeromq.Socket.{send, recv}

unfoldable pub create_result : Text → Bool → RequestResult
create_result body success = record default_result {
  status_code = if success then 200 else 500;
  body = body;
  metrics = record default_metrics { bytes_received = length body };
}

abbrev fail : {A : Type 0} → ErrorCode → Text → M A
fail c t = throw (record { code = c; what = t })

-- A send that did not go out is an error.
abbrev expect_sent : Bool → Text → M (Unit {0})
expect_sent true t = return tt
expect_sent false t = fail ErrorCode.zmq_error t

-- The dealer answers with its own text where no response came.
abbrev reply_or : Text → Option Text → RequestResult
reply_or body none = create_result body true
reply_or body (some reply) = create_result reply true

-- The default identity, if none is set.
abbrev default_identity : Handler → Handler
default_identity h = if is_empty h.identity then record h { identity = codes "Game" } else h

module _ (z : Zmq) where
  unfoldable pub publish : Text → M RequestResult
  publish body = do
    done ← send z body false
    expect_sent done (codes "Failed to publish message")
    emit (message_received body)
    return (create_result body true)

  unfoldable pub deal : Text → M RequestResult
  deal body = do
    done ← send z body false
    expect_sent done (codes "Failed to send message")
    emit (message_received body)
    reply ← recv z true
    return (reply_or body reply)

  unfoldable pub route : Text → M RequestResult
  route body = do
    modify default_identity
    h ← get
    addressed ← send z h.identity true
    expect_sent addressed (codes "Failed to send identity frame")
    done ← send z body false
    expect_sent done (codes "Failed to send message")
    emit (message_received body)
    return (create_result body true)

  unfoldable pub await_reply : M RequestResult
  await_reply = do
    reply ← recv z true
    elim reply [
      | none ↦ fail ErrorCode.timeout (codes "No reply received")
      | some text ↦ return (create_result text true)
    ]

  -- `waits` is `m_pattern == Pattern::REQ_REP && m_role == Role::REQUESTER`.
  unfoldable pub request : Bool → Text → M RequestResult
  request waits body = do
    done ← send z body false
    expect_sent done (codes "Failed to send message")
    emit (message_received body)
    if waits then await_reply else return (create_result body true)

  unfoldable pub dispatch : Pattern → Role → Text → M RequestResult
  dispatch p Role.subscriber body =
      fail ErrorCode.zmq_error (codes "Subscribers cannot send messages")
  dispatch p Role.publisher body = publish body
  dispatch p Role.dealer body = deal body
  dispatch p Role.router body = route body
  dispatch req_rep Role.requester body = request true body
  dispatch _ _ body = request false body

  unfoldable pub execute : RequestConfig → M RequestResult
  execute config h = elim h.socket [
    | none ↦ fail ErrorCode.zmq_error (codes "Socket not initialized") h
    | some k ↦
        catch_zmq (dispatch h.pattern h.role config.body) (λ e. fail ErrorCode.zmq_error e.what) h
  ]

  -- An error of libzmq is a failed send; the flag ZMQ_SNDMORE says that a frame follows.
  unfoldable pub send_message : Text → Bool → M Bool
  send_message message more h = elim h.socket [
    | none ↦ return false h
    | some k ↦ catch_zmq (send z message more) (λ e. return false) h
  ]
