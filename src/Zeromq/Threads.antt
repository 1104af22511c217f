-- ===== src/Zeromq/Threads.antt =====
-- src/core/zeromq_handler.cpp: the thread that calls a ZeroMQHandler and the thread of
-- startPolling, whose steps interleave. A step is an access to what the two share: m_running,
-- m_pollThread and m_socket.
use flowdriver.Base.{List, [], ◌∷◌, Option, none, some, Bool, true, false, ℕ, suc, if◌then◌else◌}

-- What follows when close is done.
pub data Goal : Type 0 where
  closing configuring : Goal

-- Where the calling thread is: outside the handler, in execute, in stopPolling of close, at the
-- rest of close, or in configure: behind close, behind configureSocket, and in startPolling with
-- its own stopPolling. `crashed` is a call of a member of the null m_socket.
pub data Caller : Type 0 where
  outside executing : Caller
  stops joins releases : Goal → Caller
  creates opens stops_again joins_again starts crashed : Caller

-- Where the polling thread is: it tests m_running, or tests m_socket, or is in a call on the
-- socket. `absent` is a null m_pollThread, `ended` a thread that nobody joined yet, `faulty` a call
-- on a socket that is not there.
pub data Poller : Type 0 where
  absent testing checking using ended faulty : Poller

-- `socket` is the number of the socket that m_socket owns, `made` counts those that were made.
pub record Threads : Type 0 where
  pub caller : Caller
  pub poller : Poller
  pub running : Bool
  pub socket : Option ℕ
  pub made : ℕ

-- The constructor.
abbrev pub init : Threads
init = record { caller = outside; poller = absent; running = false; socket = none; made = 0 }

-- How configure goes on: its calls of libzmq go through, one of them throws, or no case for the role
-- makes a socket.
pub data Way : Type 0 where
  goes fails skips : Way

-- Whose turn it is: a call begins, the calling thread goes on, or the polling thread does, where
-- `again` says that a round makes another call on the socket.
pub data Turn : Type 0 where
  closes configures executes : Turn
  calls : Way → Turn
  polls : Bool → Turn

-- m_pollThread->join() of a thread that is there returns when it has ended.
abbrev joined : Caller → Threads → Threads
joined next t = elim t.poller [
  | absent ↦ record t { caller = next }
  | ended ↦ record t { caller = next; poller = absent }
  | _ ↦ t
]

-- m_socket.reset()
abbrev released : Goal → Threads → Threads
released closing t = record t { caller = outside; socket = none }
released configuring t = record t { caller = creates; socket = none }

abbrev created : Way → Threads → Threads
created goes t = record t { caller = opens; socket = some t.made; made = suc t.made }
created fails t = record t { caller = outside }
created skips t = record t { caller = opens }

abbrev attached : Way → Caller
attached goes = stops_again
attached _ = outside

-- bind or connect, with the socket's options before it; an exception leaves configure.
abbrev opened : Way → Threads → Threads
opened way t = elim t.socket [
  | none ↦ record t { caller = crashed }
  | some k ↦ record t { caller = attached way }
]

-- The rest of startPolling.
abbrev started : Threads → Threads
started t = elim t.socket [
  | none ↦ record t { caller = outside }
  | some k ↦ record t { caller = outside; running = true; poller = testing }
]

unfoldable pub call_step : Caller → Way → Threads → Threads
call_step outside way t = t
call_step crashed way t = t
call_step executing way t = record t { caller = outside }
call_step (stops goal) way t = record t { caller = joins goal; running = false }
call_step (joins goal) way t = joined (releases goal) t
call_step (releases goal) way t = released goal t
call_step creates way t = created way t
call_step opens way t = opened way t
call_step stops_again way t = record t { caller = joins_again; running = false }
call_step joins_again way t = joined starts t
call_step starts way t = started t

unfoldable pub poll_step : Poller → Bool → Threads → Threads
poll_step testing again t = record t { poller = if t.running then checking else ended }
poll_step checking again t = elim t.socket [
  | none ↦ record t { poller = ended }
  | some k ↦ record t { poller = using }
]
poll_step using again t = elim t.socket [
  | none ↦ record t { poller = faulty }
  | some k ↦ record t { poller = if again then using else testing }
]
poll_step _ again t = t

-- A call begins only outside another one.
abbrev pub begun : Caller → Caller → Caller
begun next outside = next
begun next now = now

unfoldable pub step : Turn → Threads → Threads
step closes t = record t { caller = begun (stops closing) t.caller }
step configures t = record t { caller = begun (stops configuring) t.caller }
step executes t = record t { caller = begun executing t.caller }
step (calls way) t = call_step t.caller way t
step (polls again) t = poll_step t.poller again t

-- The threads after the turns, the first one first.
unfoldable pub run : List Turn → Threads → Threads
run [] t = t
run (turn ∷ turns) t = run turns (step turn t)
