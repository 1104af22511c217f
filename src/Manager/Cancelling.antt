-- ===== src/Manager/Cancelling.antt =====
-- src/models/request_manager.cpp: cancelRequest and checkRequest.
use flowdriver.Base.{◌∷◌, Bool, true, false, not, none, some, ◌≡◌, arith, ◌⊎◌}
use flowdriver.Types.{RequestResult}
use flowdriver.Manager.Defs.{
  World, Manager, Run, done, loading_changed, response_received, convert_result,
}
use flowdriver.Manager.Requests.{
  cancel_request, cancel_handler, check_request, Answer, not_ready, completes,
}
use flowdriver.Manager.Steps.{
  Reachable, is_due, is_owned, is_awaited, is_pending, is_sound, is_kept, waits,
}
use flowdriver.Manager.Invariant.{Reachable-is_sound}

-- A request that was cancelled, or that there was no handler to cancel.
abbrev pub IsCancelled : Manager → Manager → Type 0
IsCancelled m m' =
    ((m'.is_loading ≡ false) ⊎ (m.handler ≡ none))
    × (m'.current_request ≡ m.current_request)
    × (m'.timers ≡ m.timers)

-- The operation returns, and what it leaves has the property.
unfoldable pub Returns : (Manager → Type 0) → Run → Type 0
Returns p (done m) = p m
Returns p _ = ⊥

pub cancel_sound_lem :
    (w : World) → (m : Manager) → is_sound m ≡ true → Returns (IsCancelled m) (cancel_request w m)
unfolding Returns cancel_request cancel_handler is_sound is_kept is_owned waits
cancel_sound_lem w m e = ground arith

unfoldable pub is_ready : Answer → Bool
is_ready not_ready = false
is_ready _ = true

settle_lem :
    (a : Answer)
    → (m : Manager) → is_sound m ≡ true
    → m.is_loading ≡ true
    → (is_due m.timers ≡ true) × ((check_request a m).is_loading ≡ not (is_ready a))
unfolding check_request is_ready is_sound is_kept is_owned waits is_awaited is_pending is_due
settle_lem a m e l = ground arith

-- After the cancellation, a check of the ready future gives its response.
abbrev pub StillAnswers : RequestResult → Manager → Type 0
StillAnswers r m =
    ((check_request (completes r) m).signals
      ≡ loading_changed ∷ response_received (convert_result r) ∷ m.signals)
    × ((check_request (completes r) m).last_response ≡ some (convert_result r))
    × (is_due m.timers ≡ true)

still_lem :
    (w : World)
    → (r : RequestResult) → (m : Manager) → is_sound m ≡ true
    → m.is_loading ≡ true
    → Returns (StillAnswers r) (cancel_request w m)
unfolding Returns cancel_request cancel_handler check_request is_sound is_kept is_owned waits
    is_awaited is_pending is_due
still_lem w r m e l = ground arith

-- In a reachable manager, cancelRequest never uses a dangling handler: it returns. Then the manager
-- is not loading, or there was no handler; the future and the timers stay as they were.
pub cancel_request-IsCancelled :
    (w : World) → {m : Manager} → Reachable m → Returns (IsCancelled m) (cancel_request w m)
cancel_request-IsCancelled w {m} r = cancel_sound_lem w m (Reachable-is_sound r)

-- Where a reachable manager is loading, after cancelRequest a check is still due, and when the
-- future is ready then, its response is shown and kept as the last one all the same.
pub cancel_request-StillAnswers :
    (w : World)
    → {m : Manager} → Reachable m
    → m.is_loading ≡ true
    → (r : RequestResult) → Returns (StillAnswers r) (cancel_request w m)
cancel_request-StillAnswers w {m} s l r = still_lem w r m (Reachable-is_sound s) l

-- While a reachable manager is loading, a check is due; the check leaves it not loading where the
-- future is ready, with a result or an exception, and loading where it is not.
pub check_request-settles :
    {m : Manager}
    → Reachable m
    → m.is_loading ≡ true
    → (a : Answer) → (is_due m.timers ≡ true) × ((check_request a m).is_loading ≡ not (is_ready a))
check_request-settles {m} s l a = settle_lem a m (Reachable-is_sound s) l
