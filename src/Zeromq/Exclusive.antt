-- ===== src/Zeromq/Exclusive.antt =====
-- src/core/zeromq_handler.cpp: the socket and the polling thread under any interleaving.
use flowdriver.Base.{◌≡◌, ◌≢◌, refl, List, [], ◌∷◌, none, Bool, true, false, arith}
use flowdriver.Zeromq.Threads.{
  Goal, Caller, Poller, Threads, Turn, Way, begun, init, step, call_step, poll_step, run, closing,
  configuring, executing, stops, joins, releases, creates, opens, stops_again, joins_again, starts,
  crashed, absent, testing, checking, using, faulty, closes, configures, executes, calls, polls,
}

-- The caller is between the end of the polling thread and the start of the next one.
unfoldable pub is_alone : Caller → Bool
is_alone (releases goal) = true
is_alone creates = true
is_alone opens = true
is_alone stops_again = true
is_alone joins_again = true
is_alone starts = true
is_alone crashed = true
is_alone _ = false

-- The polling thread is in its loop, past the test of m_socket, or in a call on it.
unfoldable pub is_polling : Poller → Bool
is_polling testing = true
is_polling checking = true
is_polling using = true
is_polling _ = false

-- The caller waits for the polling thread.
unfoldable pub is_joining : Caller → Bool
is_joining (joins goal) = true
is_joining _ = false

-- A caller that replaces the socket has no polling thread beside it; a polling thread in its loop
-- has a socket; and it never calls a socket that is not there.
abbrev pub IsExclusive : Threads → Type 0
IsExclusive t =
    (is_alone t.caller ≡ true → t.poller ≡ absent)
    × (is_polling t.poller ≡ true → t.socket ≢ none)
    × (t.poller ≢ faulty)
    × (is_joining t.caller ≡ true → t.running ≡ false)

begin-IsExclusive :
    (next : Caller)
    → is_alone next ≡ false
    → is_joining next ≡ false
    → (t : Threads) → IsExclusive t
    → IsExclusive (record t { caller = begun next t.caller })
unfolding is_alone is_polling is_joining
begin-IsExclusive next a j t e = ground arith

call_step-IsExclusive :
    (way : Way) → (t : Threads) → IsExclusive t → IsExclusive (call_step t.caller way t)
unfolding call_step is_alone is_polling is_joining
call_step-IsExclusive way t e = ground arith

poll_step-IsExclusive :
    (again : Bool) → (t : Threads) → IsExclusive t → IsExclusive (poll_step t.poller again t)
unfolding poll_step is_alone is_polling is_joining
poll_step-IsExclusive again t e = ground arith

step-IsExclusive : (turn : Turn) → (t : Threads) → IsExclusive t → IsExclusive (step turn t)
unfolding step is_alone is_joining
step-IsExclusive closes t e = begin-IsExclusive (stops closing) refl refl t e
step-IsExclusive configures t e = begin-IsExclusive (stops configuring) refl refl t e
step-IsExclusive executes t e = begin-IsExclusive executing refl refl t e
step-IsExclusive (calls way) t e = call_step-IsExclusive way t e
step-IsExclusive (polls again) t e = poll_step-IsExclusive again t e

steps-IsExclusive : (turns : List Turn) → (t : Threads) → IsExclusive t → IsExclusive (run turns t)
unfolding run
steps-IsExclusive [] t e = e
steps-IsExclusive (turn ∷ turns) t e =
    steps-IsExclusive turns (step turn t) (step-IsExclusive turn t e)

init-IsExclusive : IsExclusive init
unfolding is_alone is_polling is_joining
init-IsExclusive = (λ e. cc, λ e. cc, λ e. cc, λ e. cc)

-- However the steps of the calling thread and of the polling thread interleave: while close and
-- configure end, make, bind or connect a socket, or start a polling thread, no other polling thread
-- is there; a polling thread in its loop has a socket and never calls one that is not there; and a
-- caller that waits for the thread has cleared m_running.
pub run-IsExclusive : (turns : List Turn) → IsExclusive (run turns init)
run-IsExclusive turns = steps-IsExclusive turns init init-IsExclusive

-- The rest of a round, the test of m_running and the join.
abbrev pub last_round : Way → List Turn
last_round way = polls false ∷ polls false ∷ polls false ∷ calls way ∷ []

joined_lem :
    (goal : Goal)
    → (way : Way) → (t : Threads) → IsExclusive t
    → t.caller ≡ joins goal
    → ((run (last_round way) t).caller ≡ releases goal) × ((run (last_round way) t).poller ≡ absent)
unfolding run step call_step poll_step is_alone is_polling is_joining
joined_lem goal way t e c = ground arith

-- A close that waits for the polling thread gets on, however it came to wait: when the thread's
-- calls return, three steps of it are enough for the join, and the caller goes on alone.
pub run-joins :
    (turns : List Turn)
    → (goal : Goal) → (way : Way) → (run turns init).caller ≡ joins goal
    → ((run (last_round way) (run turns init)).caller ≡ releases goal)
      × ((run (last_round way) (run turns init)).poller ≡ absent)
run-joins turns goal way c = joined_lem goal way (run turns init) (run-IsExclusive turns) c
