-- ===== src/WebSocket/Connect.antt =====
-- src/core/websocket_handler.cpp: connect, doRead and close.
use flowdriver.Base.{
  ℕ, suc, Text, codes, List, ◌∷◌, ◌++◌, Option, none, some, Bool, true, false, not, ◌||◌, ◌==◌,
  is_empty, if◌then◌else◌,
}
use flowdriver.Types.{Header, Error, ErrorCode, RequestConfig}
use flowdriver.Rest.Defs.{system_error, exception}
use flowdriver.WebSocket.Defs.{
  Uri, resolves, sets_server_name, connects, tls_handshakes, handshakes, starts_read, closes, Net,
  Handler, Outcome, ok, throws, Exception, error, failure, M, ◌>>=◌, ◌>>◌, return, throw, modify,
  notify, note, call, connected, error_occurred,
}

abbrev fail : {A : Type 0} → ErrorCode → Text → M A
fail c t = throw (error (record { code = c; what = t }))

abbrev pub is_secure : Uri → Bool
is_secure u = u.scheme == codes "wss"

-- The port given, or else the scheme's.
unfoldable pub port_of : Uri → Text
port_of u = elim u.port [ none ↦ if is_secure u then codes "443" else codes "80" | some p ↦ p ]

unfoldable pub target_of : Uri → Text
target_of u = if is_empty u.path then codes "/" else u.path

-- `if (!condition) throw Error(…)`
abbrev pub demand : Bool → ErrorCode → Text → M (Unit {0})
demand true c t = return tt
demand false c t = fail c t

abbrev pub parsed : Option Uri → M Uri
parsed none = fail ErrorCode.invalid_config (codes "Invalid WebSocket URL format")
parsed (some u) = return u

-- A pending read of a stream that is destroyed.
abbrev pub abandon : Handler → ℕ
abandon h = if h.reading then suc h.aborted else h.aborted

-- ws_ = std::move(ws): the old stream is destroyed, and its pending read ends with an error.
abbrev pub install : Bool → M (Unit {0})
install secure = modify λ h. record h { stream = some secure; reading = false; aborted = abandon h }

-- doRead
unfoldable pub do_read : M (Unit {0})
do_read h = elim h.stream [
  | none ↦ (ok tt, h)
  | some secure ↦ (ok tt, record h { reading = true; calls = starts_read secure ∷ h.calls })
]

-- The error of a handshake with an error code.
abbrev pub handshake_failed : Outcome (Unit {0}) → M (Unit {0})
handshake_failed (throws (failure (system_error m))) =
    fail ErrorCode.network_error (codes "WebSocket handshake failed: " ++ m)
handshake_failed o = λ h. (o, h)

module _ (n : Net) where
  -- The resolver's answer may be empty, too.
  abbrev pub resolve : Text → Text → M (Unit {0})
  resolve host port = do
    call n (resolves host port)
    λ h. demand (n.found h.calls) ErrorCode.network_error (codes "Failed to resolve host") h

  unfoldable pub open_secure : Text → Text → List Header → M (Unit {0})
  open_secure host target headers = do
    note (sets_server_name host)
    call n connects
    call n tls_handshakes
    call n (
        handshakes true host target (
          record { name = codes "User-Agent"; value = codes "FlowDriver WebSocket Client" }
          ∷ headers))
    install true

  unfoldable pub open_plain : Text → Text → List Header → M (Unit {0})
  open_plain host target headers = do
    call n connects
    λ h.
        (let r =
            call n
              (handshakes false host target (
                record { name = codes "User-Agent"; value = codes "FlowDriver WebSocket Client" }
                ∷ headers))
              h in
          handshake_failed r.0 r.1)
    install false

  -- The stream of the URL, opened.
  unfoldable pub open_stream : Uri → List Header → M (Unit {0})
  open_stream u headers =
      if is_secure u
      then open_secure u.host (target_of u) headers
      else open_plain u.host (target_of u) headers

  unfoldable pub try_connect : RequestConfig → M (Unit {0})
  unfolding do_read
  try_connect config = do
    u ← parsed (n.parse_uri config.url)
    demand (u.scheme == codes "ws" || u.scheme == codes "wss") ErrorCode.invalid_config
        (codes "URL must start with ws:// or wss://")
    demand (not (is_empty u.host)) ErrorCode.invalid_config (codes "Invalid host in WebSocket URL")
    resolve u.host (port_of u)
    open_stream u config.headers
    do_read
    notify connected

-- What connect of Impl makes of an exception.
unfoldable pub error_of : Exception → Error
error_of (failure (system_error what)) = record {
  code = ErrorCode.network_error;
  what = codes "Connection failed: " ++ what;
}
error_of (failure (exception what)) = record {
  code = ErrorCode.unknown;
  what = codes "Unexpected error: " ++ what;
}
error_of (error e) = e

abbrev pub report : Outcome (Unit {0}) → M (Unit {0})
report (throws x) = notify (error_occurred ((error_of x).what))
report o = λ h. (o, h)

-- WebSocketHandler::connect, which rethrows nothing.
unfoldable pub connect : Net → RequestConfig → M (Unit {0})
connect n config h = let r = try_connect n config h in report r.0 r.1

-- The close of the stream, whose error is ignored; ws_ keeps the stream.
unfoldable pub close : M (Unit {0})
close h = elim h.stream [
  | none ↦ (ok tt, h)
  | some secure ↦ (ok tt, record h { calls = closes secure ∷ h.calls })
]

-- WebSocketHandler::cancel
unfoldable pub cancel : M (Unit {0})
cancel = close
