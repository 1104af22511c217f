-- ===== src/Rest/Exchange.antt =====
-- src/core/rest_handler.cpp: the calls that a request makes and how it ends.
use flowdriver.Base.{
  Text, List, [], ◌∷◌, ◌++◌, Option, none, some, Bool, true, false, ◌≡◌, refl, ap, ◌∙◌, sym, subst,
  not, All, append_assoc, Option-cases, inl, inr,
}
use flowdriver.Types.{RequestConfig}
use flowdriver.Url.{parse_url}
use flowdriver.Rest.Defs.{
  writes, reads, handshakes, connects, sets_server_name, Net, Call, resolves, Request, Failure,
  Outcome, ok, throws, is_https, request_of, calls_of, perform, error_of, result_of, shut,
  concluded, execute,
}

-- The calls in turn, the latest first, on top of the earlier ones.
abbrev pub made_of : List Call → List Call → List Call
made_of [] made = made
made_of (c ∷ cs) made = made_of cs (c ∷ made)

-- All the calls were made, or the latest one of those that were made threw.
abbrev pub Performs : Net → List Call → Option Failure → List Call → Type 0
Performs n all none made = made ≡ all
Performs n all (some f) made =
    (n.attempt made ≡ some f) × ((missing : List Call) × (all ≡ missing ++ made))

made_of_lem : (cs made : List Call) → (missing : List Call) × (made_of cs made ≡ missing ++ made)
made_of_lem [] made = ([], refl)
made_of_lem (c ∷ cs) made =
    let (m, e) = made_of_lem cs (c ∷ made) in (m ++ c ∷ [], e ∙ sym (append_assoc m (c ∷ []) made))

perform-Performs :
    (n : Net)
    → (cs made : List Call)
    → Performs n (made_of cs made) (perform n cs made).0 (perform n cs made).1
unfolding perform
perform-Performs n [] made = refl
perform-Performs n (c ∷ cs) made = elim (Option-cases (n.attempt (c ∷ made))) [
  | inl e ↦ rw (e, perform) (perform-Performs n cs (c ∷ made))
  | inr (f, e) ↦ rw (e, perform) (e, made_of_lem cs (c ∷ made))
]

-- The calls of a request up to the response, the latest first.
abbrev pub plan_for : Bool → Text → Text → Request → List Call
plan_for true host port req =
    reads true
    ∷ writes true req
    ∷ handshakes
    ∷ connects
    ∷ sets_server_name host
    ∷ resolves host port
    ∷ []
plan_for false host port req = reads false ∷ writes false req ∷ connects ∷ resolves host port ∷ []

abbrev pub plan : RequestConfig → List Call
plan config =
    plan_for (is_https config.url) (parse_url config.url).0 (parse_url config.url).1
      (request_of config)

made_of-calls_of :
    (b : Bool)
    → (host port : Text) → (req : Request)
    → made_of (resolves host port ∷ calls_of b host req) [] ≡ plan_for b host port req
unfolding calls_of
made_of-calls_of true host port req = refl
made_of-calls_of false host port req = refl

abbrev pub Concludes : Net → RequestConfig → Outcome → List Call → Type 0
Concludes n config (ok r) made =
    (made ≡ shut (is_https config.url) (plan config)) × (r ≡ result_of (n.response (plan config)))
Concludes n config (throws e) made =
    (f : Failure) × (n.attempt made ≡ some f)
    × (e ≡ error_of f)
    × ((missing : List Call) × (plan config ≡ missing ++ made))

concluded_lem :
    (n : Net)
    → (config : RequestConfig) → (o : Option Failure) → (made : List Call)
    → Performs n (plan config) o made
    → Concludes n config
        (concluded n (is_https config.url) o made).0
        (concluded n (is_https config.url) o made).1
concluded_lem n config none made e =
    (ap (shut (is_https config.url)) e, ap (λ d. result_of (n.response d)) e)
concluded_lem n config (some f) made (e, m) = (f, e, refl, m)

abbrev performed : Net → RequestConfig → Option Failure × List Call
performed n config =
    perform n
      (resolves (parse_url config.url).0 (parse_url config.url).1
        ∷ calls_of (is_https config.url) (parse_url config.url).0 (request_of config))
      []

-- Whatever the network does, a request returns or throws an Error. Where it returns, it made
-- exactly the calls of its plan (resolve, connect, write, read; for an https URL also the server
-- name, the handshake and at last the shutdown, and it wrote and read on the encrypted stream), and
-- the result is that of the response. Where it throws, the calls made are those of the plan up to
-- one that threw, which is the latest, and the Error is that of its exception.
pub execute-Concludes :
    (n : Net)
    → (config : RequestConfig) → Concludes n config (execute n config).0 (execute n config).1
unfolding execute
execute-Concludes n config = concluded_lem n config _ _ (
    subst (λ all. Performs n all (performed n config).0 (performed n config).1)
      (made_of-calls_of (is_https config.url) (parse_url config.url).0 (parse_url config.url).1
        (request_of config))
      (perform-Performs n _ []))

-- A call that writes or reads in the clear.
unfoldable pub is_clear : Call → Bool
is_clear (writes secure req) = not secure
is_clear (reads secure) = not secure
is_clear _ = false

abbrev pub IsEncrypted : Call → Type 0
IsEncrypted c = is_clear c ≡ false

perform-All :
    (n : Net)
    → (cs made : List Call) → All IsEncrypted cs
    → All IsEncrypted made
    → All IsEncrypted (perform n cs made).1
unfolding perform
perform-All n [] made a b = b
perform-All n (c ∷ cs) made a b = elim (Option-cases (n.attempt (c ∷ made))) [
  | inl e ↦ rw (e, perform) (perform-All n cs (c ∷ made) a.1 (a.0, b))
  | inr (f, e) ↦ rw (e, perform) (a.0, b)
]

calls_of-All : (host : Text) → (req : Request) → All IsEncrypted (calls_of true host req)
unfolding calls_of is_clear
calls_of-All host req = (refl, (refl, (refl, (refl, (refl, tt)))))

concluded-All :
    (n : Net)
    → (secure : Bool) → (o : Option Failure) → (made : List Call) → All IsEncrypted made
    → All IsEncrypted (concluded n secure o made).1
unfolding is_clear
concluded-All n true none made a = (refl, a)
concluded-All n false none made a = a
concluded-All n secure (some f) made a = a

-- For an https URL, no call of a request writes or reads in the clear, however the request ends.
pub execute-IsEncrypted :
    (n : Net)
    → (config : RequestConfig) → is_https config.url ≡ true
    → All IsEncrypted (execute n config).1
unfolding execute is_clear
execute-IsEncrypted n config e = concluded-All n _ _ _ (
    perform-All n _ []
      (
        refl,
        subst (λ b. All IsEncrypted (calls_of b (parse_url config.url).0 (request_of config)))
            (sym e) (calls_of-All _ _),
      )
      tt)
