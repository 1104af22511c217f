-- ===== src/WebSocket/Opening.antt =====
-- src/core/websocket_handler.cpp: the steps of a connect, up to the open stream.
use flowdriver.Base.{
  ◌≡◌, refl, inl, inr, Text, codes, List, ◌∷◌, Option, none, some, Bool, true, false, if◌then◌else◌,
  Bool-cases, Option-cases, arith,
}
use flowdriver.Types.{Header, ErrorCode}
use flowdriver.Rest.Defs.{system_error, exception}
use flowdriver.WebSocket.Defs.{
  Uri, Call, starts_read, Net, Handler, Outcome, ok, throws, misused, error, failure, M, and_then,
  call, connected,
}
use flowdriver.WebSocket.Connect.{
  demand, parsed, resolve, install, abandon, handshake_failed, open_secure, open_plain, open_stream,
  do_read, is_secure,
}

-- The value and the handler fulfil P where a step returns, and the handler fulfils Q where it
-- throws; no stream is misused.
unfoldable pub Holds :
    {A : Type 0} → Outcome A → Handler → (A → Handler → Type 0) → (Handler → Type 0) → Type 0
Holds (ok a) h P Q = P a h
Holds (throws x) h P Q = Q h
Holds misused h P Q = ⊥

module _ (Q : Handler → Type 0) where
  pub and_then-Holds :
      {A B : Type 0} (P : A → Handler → Type 0) (R : B → Handler → Type 0) (o : Outcome A)
      (h : Handler) (f : A → M B)
      → Holds o h P Q
      → ((a : A) → (k : Handler) → P a k → Holds (f a k).0 (f a k).1 R Q)
      → Holds (and_then o f h).0 (and_then o f h).1 R Q
  unfolding Holds
  and_then-Holds P R (ok a) h f e next = next a h e
  and_then-Holds P R (throws x) h f e next = e
  and_then-Holds P R misused h f e next = e

-- The callbacks are those of an earlier handler.
abbrev pub Callbacks : Handler → Handler → Type 0
Callbacks h k = (k.custom_messages ≡ h.custom_messages) × (k.error_handler ≡ h.error_handler)

-- The stream and what was told are those of an earlier handler.
abbrev pub Same : Handler → Handler → Type 0
Same h k =
    (k.stream ≡ h.stream)
    × (k.reading ≡ h.reading)
    × (k.aborted ≡ h.aborted)
    × (k.notices ≡ h.notices)
    × Callbacks h k

-- The stream is a new one, it is being read, and the connection was told.
abbrev pub Opens : Bool → Handler → Handler → Type 0
Opens secure h k =
    (k.stream ≡ some secure)
    × (k.reading ≡ true)
    × (k.aborted ≡ abandon h)
    × (k.notices ≡ connected ∷ h.notices)
    × Callbacks h k

pub do_read_lem :
    (k : Handler)
    → (secure : Bool) → k.stream ≡ some secure
    → do_read k ≡ (ok tt, record k { reading = true; calls = starts_read secure ∷ k.calls })
unfolding do_read
do_read_lem k secure e = ground arith

module _ (n : Net) (h : Handler) where
  call-Holds :
      (c : Call) (k : Handler)
      → Same h k
      → Holds (call n c k).0 (call n c k).1 (λ _ j. Same h j) (Same h)
  unfolding call Holds
  call-Holds c k e = elim (Option-cases (n.attempt (c ∷ k.calls))) [
    | inl q ↦ rw q e
    | inr (f, q) ↦ rw q e
  ]

  pub demand-Holds :
      (b : Bool)
      → (c : _) → (t : Text) → (k : Handler) → Same h k
      → Holds (demand b c t k).0 (demand b c t k).1 (λ _ j. (b ≡ true) × Same h j) (Same h)
  unfolding Holds
  demand-Holds true c t k e = (refl, e)
  demand-Holds false c t k e = e

  pub parsed-Holds :
      (o : Option Uri)
      → (k : Handler) → Same h k
      → Holds (parsed o k).0 (parsed o k).1 (λ u j. (o ≡ some u) × Same h j) (Same h)
  unfolding Holds
  parsed-Holds none k e = e
  parsed-Holds (some u) k e = (refl, e)

  -- The step that throws nothing but what its calls throw.
  found_lem :
      (k : Handler)
      → Same h k
      → Holds
          (demand (n.found k.calls) ErrorCode.network_error (codes "Failed to resolve host") k).0
          (demand (n.found k.calls) ErrorCode.network_error (codes "Failed to resolve host") k).1
          (λ _ j. Same h j)
          (Same h)
  unfolding Holds
  found_lem k e = elim (Bool-cases (n.found k.calls)) [ inl q ↦ rw q e | inr q ↦ rw q e ]

  pub resolve-Holds :
      (host port : Text)
      → (k : Handler) → Same h k
      → Holds (resolve n host port k).0 (resolve n host port k).1 (λ _ j. Same h j) (Same h)
  resolve-Holds host port k e =
      and_then-Holds (Same h) _ _ _ _ _ (call-Holds _ k e) (λ _ j q. found_lem j q)

  -- The stream is a new one that nobody reads yet.
  abbrev pub Installed : Bool → Handler → Type 0
  Installed secure k =
      (k.stream ≡ some secure)
      × (k.reading ≡ false)
      × (k.aborted ≡ abandon h)
      × (k.notices ≡ h.notices)
      × Callbacks h k

  install-Installed :
      (secure : Bool)
      → (k : Handler) → Same h k
      → Holds (install secure k).0 (install secure k).1 (λ _. Installed secure) (Same h)
  unfolding Holds
  install-Installed secure k e = (refl, refl, rw (e.1, e.2) refl, e.3, e.4)

  open_secure-Holds :
      (host target : Text)
      → (headers : List Header) → (k : Handler) → Same h k
      → Holds
          (open_secure n host target headers k).0
          (open_secure n host target headers k).1
          (λ _. Installed true)
          (Same h)
  unfolding open_secure
  open_secure-Holds host target headers k e =
      and_then-Holds (Same h) _ _ _ _ _ (call-Holds _ _ e) λ _ k1 e1.
        and_then-Holds (Same h) _ _ _ _ _ (call-Holds _ k1 e1) λ _ k2 e2.
          and_then-Holds (Same h) _ _ _ _ _ (call-Holds _ k2 e2)
            λ _ k3 e3. install-Installed true k3 e3

  handshake_failed-Holds :
      (o : Outcome (Unit {0}))
      → (k : Handler) → Holds o k (λ _ j. Same h j) (Same h)
      → Holds (handshake_failed o k).0 (handshake_failed o k).1 (λ _ j. Same h j) (Same h)
  unfolding Holds
  handshake_failed-Holds (ok a) k e = e
  handshake_failed-Holds (throws (failure (system_error t))) k e = e
  handshake_failed-Holds (throws (failure (exception t))) k e = e
  handshake_failed-Holds (throws (error x)) k e = e
  handshake_failed-Holds misused k e = e

  open_plain-Holds :
      (host target : Text)
      → (headers : List Header) → (k : Handler) → Same h k
      → Holds
          (open_plain n host target headers k).0
          (open_plain n host target headers k).1
          (λ _. Installed false)
          (Same h)
  unfolding open_plain
  open_plain-Holds host target headers k e =
      and_then-Holds (Same h) _ _ _ _ _ (call-Holds _ _ e) λ _ k1 e1.
        and_then-Holds (Same h) _ _ _ _ _ (handshake_failed-Holds _ _ (call-Holds _ k1 e1))
          λ _ k2 e2. install-Installed false k2 e2

  pub open_stream-Holds :
      (u : Uri)
      → (headers : List Header) → (k : Handler) → Same h k
      → Holds
          (open_stream n u headers k).0
          (open_stream n u headers k).1
          (λ _. Installed (is_secure u))
          (Same h)
  unfolding open_stream
  open_stream-Holds u headers k e = elim (Bool-cases (is_secure u)) [
    | inl q ↦ rw (q, if◌then◌else◌) (open_secure-Holds _ _ headers k e)
    | inr q ↦ rw (q, if◌then◌else◌) (open_plain-Holds _ _ headers k e)
  ]
