-- ===== src/Tests/Interleavings.antt =====
-- src/core/zeromq_handler.cpp: interleavings of the calling thread and the polling thread.
use flowdriver.Base.{◌≡◌, refl, List, [], ◌∷◌, ◌++◌, false}
use flowdriver.Zeromq.Threads.{
  Turn, init, run, step, call_step, poll_step, configures, closes, executes, calls, polls, goes,
  executing, using,
}
use flowdriver.Zeromq.Exclusive.{IsExclusive, run-IsExclusive}

-- A configure that succeeds, and a polling thread that waits for a message.
abbrev configured : List Turn
configured =
    configures
    ∷ calls goes
    ∷ calls goes
    ∷ calls goes
    ∷ calls goes
    ∷ calls goes
    ∷ calls goes
    ∷ calls goes
    ∷ calls goes
    ∷ polls false
    ∷ polls false
    ∷ []

-- An execute uses the socket while the polling thread does.
execute_beside_poll :
    ((run (configured ++ executes ∷ []) init).caller ≡ executing)
    × ((run (configured ++ executes ∷ []) init).poller ≡ using)
unfolding run step poll_step call_step
execute_beside_poll = (refl, refl)

abbrev closing_down : List Turn
closing_down = configured ++ closes ∷ calls goes ∷ []

run-IsExclusive_example : IsExclusive (run closing_down init)
run-IsExclusive_example = run-IsExclusive closing_down
