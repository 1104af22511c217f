-- ===== src/WebSocket/Exchange.antt =====
-- src/core/websocket_handler.cpp: execute, the completions of doRead's reads, and the callbacks.
use flowdriver.Base.{
  ℕ, zero, suc, Text, codes, [], ◌∷◌, none, some, Bool, true, false, is_empty, if◌then◌else◌,
}
use flowdriver.Types.{Error, ErrorCode, RequestConfig, RequestResult, default_result}
use flowdriver.Rest.Defs.{system_error}
use flowdriver.WebSocket.Defs.{
  writes, reads, Net, Handler, Outcome, throws, misused, error, failure, M, ◌>>=◌, ◌>>◌, return,
  throw, call, message_received, message_handed, error_handed,
}
use flowdriver.WebSocket.Connect.{do_read}

abbrev pub network_error : Text → Error
network_error t = record { code = ErrorCode.network_error; what = t }

-- What the catch of execute makes of an exception.
abbrev caught : {A : Type 0} → Outcome A → M A
caught (throws (failure (system_error what))) = throw (error (network_error what))
caught o = λ h. (o, h)

-- The bytes of a message: a body, or else the array of the literal "", its final zero included.
unfoldable pub payload : Text → Text
payload body = if is_empty body then 0 ∷ [] else body

module _ (n : Net) where
  -- A read waits for a message; no other read may be pending.
  unfoldable pub read : Bool → M Text
  read secure h =
      if h.reading
      then (misused, h)
      else (do call n (reads secure); λ h. (Outcome.ok (n.message h.calls), h)) h

  unfoldable pub exchange : Bool → Text → M RequestResult
  exchange secure body = do
    call n (writes secure (payload body))
    text ← read secure
    return (record default_result { status_code = 200; body = text })

  unfoldable pub execute : RequestConfig → M RequestResult
  execute config h = elim h.stream [
    | none ↦ throw (error (network_error (codes "WebSocket not connected"))) h
    | some secure ↦ (let r = exchange secure config.body h in caught r.0 r.1)
  ]

-- The message callback: the signal, or what setMessageHandler put in its place.
abbrev pub handed : Text → Handler → Handler
handed t h = record h {
  notices = (if h.custom_messages then message_handed t else message_received t) ∷ h.notices;
}

abbrev pub error_told : Text → Handler → Handler
error_told t h =
    if h.error_handler then record h { notices = error_handed (network_error t) ∷ h.notices } else h

-- How an async_read completes.
pub data Completion : Type 0 where
  message failed : Text → Completion

abbrev completed : Completion → Handler → Handler
completed (message t) h = (do_read (handed t h)).1
completed (failed t) h = error_told t h

-- The read of the stream completes; a new one is started after a message.
unfoldable pub on_read : Completion → Handler → Handler
unfolding do_read
on_read c h = if h.reading then completed c (record h { reading = false }) else h

-- A read of a destroyed stream ends, with an error.
abbrev pub dropped : Text → ℕ → Handler → Handler
dropped t zero h = h
dropped t (suc k) h = error_told t (record h { aborted = k })

unfoldable pub on_aborted : Text → Handler → Handler
on_aborted t h = dropped t h.aborted h

unfoldable pub set_message_handler : Handler → Handler
set_message_handler h = record h { custom_messages = true }

unfoldable pub set_error_handler : Handler → Handler
set_error_handler h = record h { error_handler = true }
