-- ===== src/Display.antt =====
-- A REST request from the user's call to the display: src/models/request_manager.cpp with the
-- exchange of src/core/rest_handler.cpp and the ResponseModel that qml/main.qml connects to it.
use flowdriver.Base.{
  ◌≡◌, refl, ap, subst, inl, inr, ℕ, pos, Text, codes, List, [], ◌∷◌, ◌++◌, Option, none, some,
  true, false, arith,
}
use flowdriver.Types.{Header, RequestConfig, RequestResult}
use flowdriver.Rest.Defs.{Net, Outcome, ok, throws, execute}
use flowdriver.Rest.Exchange.{Concludes, execute-Concludes}
use flowdriver.Models.Response.{
  ResponseModel, ResponseMap, Qt, init, update_response, get_time, time_text, microseconds,
}
use flowdriver.Manager.Defs.{
  World, Manager, Response, Signal, Run, done, Future, invalid, pending, loading_changed,
  response_received, error_occurred, convert_result,
}
use flowdriver.Manager.Requests.{
  Answer, completes, raises, check_request, execute_request, validate_rest_request,
}
use flowdriver.Manager.Starting.{asked, RequestEnds, RunsOn, execute_request-RequestEnds}

-- The entries of a response of the manager: it never has a time.
abbrev pub map_of : Response → ResponseMap
map_of r = record {
  status_code = some (pos r.status_code);
  body = some r.body;
  headers = r.headers;
  error = r.error;
  time = none;
}

-- Both handlers of the signal update the model.
abbrev pub received : Signal → ResponseModel → ResponseModel
received (response_received r) m = update_response (map_of r) (update_response (map_of r) m)
received _ m = m

-- The model after the signals, the latest one first.
unfoldable pub displayed : List Signal → ResponseModel
displayed [] = init
displayed (s ∷ ss) = received s (displayed ss)

-- What the future of an exchange answers when it is ready.
abbrev pub answer_of : Outcome → Answer
answer_of (ok r) = completes r
answer_of (throws e) = raises e.what

received_time_lem :
    (s : Signal)
    → (m : ResponseModel) → m.response_time ≡ pos 0
    → (received s m).response_time ≡ pos 0
unfolding update_response
received_time_lem s m e = ground arith

time_lem : (ss : List Signal) → (displayed ss).response_time ≡ pos 0
unfolding displayed
time_lem [] = refl
time_lem (s ∷ ss) = received_time_lem s (displayed ss) (time_lem ss)

-- What is displayed is the response; its time is not known.
abbrev pub Displays : RequestResult → ResponseModel → Type 0
Displays r m =
    (m.status_code ≡ pos r.status_code)
    × (m.body ≡ r.body)
    × (m.headers ≡ r.headers)
    × (m.error ≡ r.error)
    × ((qt : Qt) → get_time qt m ≡ qt.number (pos 0) ++ microseconds)

-- The request is over: its response is displayed and kept as the last one, or the signal of its
-- error is emitted and the display stays.
abbrev pub Delivers : Outcome → Manager → Manager → Type 0
Delivers (ok r) m m' =
    Displays r (displayed m'.signals) × (m'.last_response ≡ some (convert_result r))
Delivers (throws e) m m' =
    (m'.signals ≡ loading_changed ∷ error_occurred (codes "Error: " ++ e.what) ∷ m.signals)
    × (displayed m'.signals ≡ displayed m.signals)

-- The exchange ended as the network made it, and the check of it delivers that.
abbrev pub Ended : Net → RequestConfig → Manager → Type 0
Ended n config m =
    ((check_request (answer_of (execute n config).0) m).is_loading ≡ false)
    × ((check_request (answer_of (execute n config).0) m).current_request ≡ invalid)
    × Delivers (execute n config).0 m (check_request (answer_of (execute n config).0) m)
    × Concludes n config (execute n config).0 (execute n config).1

check_lem :
    (o : Outcome)
    → (id : ℕ) → (config : RequestConfig) → (m : Manager) → m.current_request ≡ pending id config
    → ((check_request (answer_of o) m).is_loading ≡ false)
      × ((check_request (answer_of o) m).current_request ≡ invalid)
      × Delivers o m (check_request (answer_of o) m)
unfolding check_request displayed update_response get_time
check_lem (ok r) id config m e =
    simp e
      (refl, refl, ((refl, refl, refl, refl, λ qt. ap (time_text qt) (time_lem m.signals)), refl))
check_lem (throws x) id config m e = simp e (refl, refl, (refl, refl))

runs_lem :
    (config : RequestConfig)
    → (o : Option ℕ) → (f : Future) → RunsOn config o f
    → (id : ℕ) × (f ≡ pending id config)
runs_lem config none f h = absurd h
runs_lem config (some id) f h = (id, h)

-- What RequestEnds says of a run that returned and is loading.
loading_lem :
    (config : RequestConfig)
    → (w : World) → (m m' : Manager) → (run : Run) → run ≡ done m'
    → RequestEnds config w m run
    → m'.is_loading ≡ true
    → (id : ℕ) × (m'.current_request ≡ pending id config)
unfolding RequestEnds
loading_lem config w m m' run e h l = elim (subst (RequestEnds config w m) e h) [
  | inl s ↦ runs_lem config m'.rest m'.current_request s.1.2
  | inr i ↦ absurd (ground arith)
]

-- A REST request from the user's call to the display. The manager is not loading, the method and
-- the URL are valid, and executeRequest returns with the request in flight. Over any network, the
-- exchange with the given headers and those of the authentication ends; and the check that finds it
-- ended leaves the manager not loading and without a future. Where the exchange returned a result,
-- that is the response to the calls of its plan, and then its code, body and headers are displayed,
-- no error, and the time 0; where it threw, the error is told and the display stays.
pub execute_request-Delivers :
    (w : World)
    → (n : Net) → (method url : Text) → (headers : List Header) → (body : Text) → (m m' : Manager)
    → m.is_loading ≡ false
    → validate_rest_request method url ≡ none
    → execute_request w method url headers body m ≡ done m'
    → m'.is_loading ≡ true
    → Ended n (asked method url headers body w m) m'
execute_request-Delivers w n method url headers body m m' l v e k =
    let config = asked method url headers body w m in
    let (id, f) =
      loading_lem config w m m' _ e (execute_request-RequestEnds w method url headers body m l v)
        k in
    let c = check_lem (execute n config).0 id config m' f in
    (c.0, c.1, c.2, execute-Concludes n config)
