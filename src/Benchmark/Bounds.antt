-- ===== src/Benchmark/Bounds.antt =====
-- src/testing/benchmark_engine.cpp: the counts of a benchmark.
use flowdriver.Base.{
  ◌≡◌, refl, sym, subst, ap, ◌∙◌, inl, inr, ℕ, zero, suc, ◌+◌, ◌%◌, ◌^◌, ◌≤◌, ◌<◌, List, [], ◌∷◌,
  Option, none, some, false, length, get_elem?, set, length-set, if◌then◌else◌, Bool-cases, leb,
  ltb, ◌&&◌, Option-cases, arith,
}
use flowdriver.Benchmark.{
  BenchmarkConfig, Worker, testing, executing, ended, Engine, Answer, returns, throws_error,
  throws_other, count_success, count_error, Turn, moves, stops, stop, counted, answered, work, step,
  run, create_workers, users, started, launch, validate_config, BenchmarkResult, result_of,
}

-- The requests that have not ended.
unfoldable pub in_flight : List Worker → ℕ
in_flight [] = 0
in_flight (executing ∷ ws) = suc (in_flight ws)
in_flight (testing ∷ ws) = in_flight ws
in_flight (ended ∷ ws) = in_flight ws

in_flight-length : (ws : List Worker) → in_flight ws ≤ length ws
unfolding in_flight
in_flight-length [] = omega arith
in_flight-length (executing ∷ ws) = omega (arith, in_flight-length ws)
in_flight-length (testing ∷ ws) = omega (arith, in_flight-length ws)
in_flight-length (ended ∷ ws) = omega (arith, in_flight-length ws)

in_flight-executing :
    (ws : List Worker)
    → (i : ℕ) → get_elem? ws i ≡ some executing
    → in_flight ws ≡ suc (in_flight (set ws i testing))
unfolding in_flight
in_flight-executing [] i e = cc
in_flight-executing (w ∷ ws) zero e = ground arith
in_flight-executing (w ∷ ws) (suc i) e = ground (arith, in_flight-executing ws i e)

in_flight-testing :
    (ws : List Worker)
    → (i : ℕ) → get_elem? ws i ≡ some testing
    → in_flight (set ws i ended) ≡ in_flight ws
unfolding in_flight
in_flight-testing [] i e = refl
in_flight-testing (w ∷ ws) zero e = ground arith
in_flight-testing (w ∷ ws) (suc i) e = ground (arith, in_flight-testing ws i e)

-- The requests that ended.
abbrev pub total : Engine → ℕ
total e = e.success_count + e.error_count

abbrev pub settled : Engine → ℕ
settled e = total e + in_flight e.workers

-- After the stop, and while the counters do not overflow.
abbrev IsStopped : Engine → Type 0
IsStopped e = (e.is_running ≡ false) × (settled e < 2 ^ 64)

-- Nothing is counted that was not in flight.
abbrev Conserves : Engine → Engine → Type 0
Conserves e e' = (e'.is_running ≡ false) × (settled e' ≡ settled e) × (total e ≤ total e')

-- One more, where the counters do not overflow.
next_lem :
    (a b k k' : ℕ)
    → a + b + k < 2 ^ 64
    → k ≡ suc k'
    → ((a + 1) % 2 ^ 64 + b + k' ≡ a + b + k) × (a + b ≤ (a + 1) % 2 ^ 64 + b)
next_lem a b k k' h e = (omega arith, omega arith)

next_error_lem :
    (a b k k' : ℕ)
    → a + b + k < 2 ^ 64
    → k ≡ suc k'
    → (a + (b + 1) % 2 ^ 64 + k' ≡ a + b + k) × (a + b ≤ a + (b + 1) % 2 ^ 64)
next_error_lem a b k k' h e = (omega arith, omega arith)

module _ (i : ℕ) (e : Engine) (s : IsStopped e) (g : get_elem? e.workers i ≡ some executing) where
  success-Conserves : Conserves e (count_success (record e { workers = set e.workers i testing }))
  success-Conserves =
      let n = next_lem _ _ _ _ s.1 (in_flight-executing e.workers i g) in (s.0, n.0, n.1)

  error-Conserves : Conserves e (count_error (record e { workers = set e.workers i testing }))
  error-Conserves =
      let n = next_error_lem _ _ _ _ s.1 (in_flight-executing e.workers i g) in (s.0, n.0, n.1)

  answered-Conserves : (a : Answer) → Conserves e (answered i a e)
  unfolding answered counted
  answered-Conserves (returns code) = elim (Bool-cases (leb 200 code && ltb code 300)) [
    | inl q ↦ rw (q, if◌then◌else◌) success-Conserves
    | inr q ↦ rw (q, if◌then◌else◌) error-Conserves
  ]
  answered-Conserves throws_error = error-Conserves
  answered-Conserves throws_other = (s.0, refl, omega arith)

work-Conserves :
    (i : ℕ)
    → (a : Answer) → (e : Engine) → IsStopped e
    → (o : Option Worker) → get_elem? e.workers i ≡ o
    → Conserves e (work i a o e)
unfolding work
work-Conserves i a e s none g = (s.0, refl, omega arith)
work-Conserves i a e s (some ended) g = (s.0, refl, omega arith)
work-Conserves i a e s (some executing) g = answered-Conserves i e s g a
work-Conserves i a e s (some testing) g =
    simp (s.0, if◌then◌else◌)
      (refl, ap (◌+◌ (total e)) (in_flight-testing e.workers i g), omega arith)

step-Conserves : (t : Turn) → (e : Engine) → IsStopped e → Conserves e (step t e)
unfolding step stop
step-Conserves stops e s = (refl, refl, omega arith)
step-Conserves (moves i a) e s = elim (Bool-cases e.terminated) [
  | inl q ↦ simp (q, if◌then◌else◌) (s.0, refl, omega arith)
  | inr q ↦ simp (q, if◌then◌else◌) (work-Conserves i a e s _ refl)
]

run-Conserves : (ts : List Turn) → (e : Engine) → IsStopped e → Conserves e (run ts e)
unfolding run
run-Conserves [] e s = (s.0, refl, omega arith)
run-Conserves (t ∷ ts) e s =
    let c = step-Conserves t e s in
    let d = run-Conserves ts (step t e) (c.0, omega arith) in (d.0, d.1 ∙ c.1, omega arith)

answered-length :
    (i : ℕ) → (a : Answer) → (e : Engine) → length (answered i a e).workers ≡ length e.workers
unfolding answered counted
answered-length i (returns code) e = elim (Bool-cases (leb 200 code && ltb code 300)) [
  | inl q ↦ rw (q, if◌then◌else◌) (length-set e.workers i testing)
  | inr q ↦ rw (q, if◌then◌else◌) (length-set e.workers i testing)
]
answered-length i throws_error e = length-set e.workers i testing
answered-length i throws_other e = refl

work-length :
    (i : ℕ)
    → (a : Answer) → (e : Engine) → (o : Option Worker)
    → length (work i a o e).workers ≡ length e.workers
unfolding work
work-length i a e none = refl
work-length i a e (some ended) = refl
work-length i a e (some executing) = answered-length i a e
work-length i a e (some testing) = length-set e.workers i _

step-length : (t : Turn) → (e : Engine) → length (step t e).workers ≡ length e.workers
unfolding step stop
step-length stops e = refl
step-length (moves i a) e = elim (Bool-cases e.terminated) [
  | inl q ↦ simp (q, if◌then◌else◌) refl
  | inr q ↦ simp (q, if◌then◌else◌) (work-length i a e _)
]

run-length : (ts : List Turn) → (e : Engine) → length (run ts e).workers ≡ length e.workers
unfolding run
run-length [] e = refl
run-length (t ∷ ts) e = run-length ts (step t e) ∙ step-length t e

create_workers-length : (n : ℕ) → length (create_workers n) ≡ n
unfolding create_workers
create_workers-length zero = refl
create_workers-length (suc n) = ap suc (create_workers-length n)

-- The workers of a benchmark are as many as its users.
engine-length :
    (config : BenchmarkConfig)
    → (ts : List Turn) → length (run ts (started config)).workers ≡ users config.concurrent_users
unfolding started
engine-length config ts = run-length ts _ ∙ create_workers-length _

-- The counts add up, and lie between two bounds.
abbrev pub Within : ℕ → ℕ → BenchmarkResult → Type 0
Within low high r =
    (r.total_requests ≡ r.successful_requests + r.failed_requests)
    × (low ≤ r.total_requests)
    × (r.total_requests ≤ high)

bounded_lem :
    (low high : ℕ)
    → (e : Engine) → total e < 2 ^ 64
    → low ≤ total e
    → total e ≤ high
    → Within low high (result_of e)
unfolding result_of
bounded_lem low high e h l k = (omega arith, omega arith, omega arith)

launch-started :
    (config : BenchmarkConfig) → (e : Engine) → launch config ≡ inr e → e ≡ started config
unfolding launch
launch-started config e h = elim (Option-cases (validate_config config)) [
  | inl q ↦ let p : inr (started config) ≡ inr e = simp q at h in cc
  | inr (x, q) ↦ let p : inl x ≡ inr e = simp q at h in cc
]

started_lem :
    (config : BenchmarkConfig)
    → (before after : List Turn) → settled (run before (started config)) < 2 ^ 64
    → Within
        (total (run before (started config)))
        (total (run before (started config)) + users config.concurrent_users)
        (result_of (run after (stop (run before (started config)))))
unfolding stop
started_lem config before after h =
    let e = run before (started config) in
    let c = run-Conserves after (record e { is_running = false }) (refl, h) in
    bounded_lem _ _ _ (omega arith) c.2
      (omega (arith, c.1, in_flight-length e.workers, engine-length config before))

-- Let a benchmark of a valid configuration start, let its workers and its stop interleave in any
-- way, and let each request end in any way. Where the requests counted and in flight at the stop
-- are fewer than 2 ^ 64, the result's total is the sum of its successful and its failed requests;
-- it is at least what was counted at the stop, and at most one more for each user.
pub run-Within :
    (config : BenchmarkConfig)
    → (e : Engine) → launch config ≡ inr e
    → (before after : List Turn) → settled (run before e) < 2 ^ 64
    → Within
        (total (run before e))
        (total (run before e) + users config.concurrent_users)
        (result_of (run after (stop (run before e))))
run-Within config e h before after =
    subst
      (λ e.
        settled (run before e) < 2 ^ 64
        → Within (total (run before e)) (total (run before e) + users config.concurrent_users)
            (result_of (run after (stop (run before e)))))
      (sym (launch-started config e h)) (started_lem config before after)
