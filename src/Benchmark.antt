-- ===== src/Benchmark.antt =====
-- src/testing/benchmark_engine.cpp, include/testing/benchmark_engine.hpp and benchmark_config.hpp:
-- the workers of a benchmark, whose steps interleave with each other and with stop. (The
-- implementation's m_handler is the header's handler_.)
use flowdriver.Base.{
  ℕ, zero, suc, ◌+◌, ◌%◌, ◌^◌, ℤ, pos, negsuc, Text, codes, List, [], ◌∷◌, Option, none, some, Bool,
  true, false, ◌&&◌, leb, ltb, is_empty, length, get_elem?, set, if◌then◌else◌, ◌⊎◌, inl, inr,
}
use flowdriver.Types.{RequestConfig, Error, ErrorCode}
pub mod Bounds

-- The duration is in seconds.
pub record BenchmarkConfig : Type 0 where
  pub request : RequestConfig
  pub concurrent_users : ℤ
  pub duration : ℤ

-- `n <= 0`
abbrev pub not_positive : ℤ → Bool
not_positive (pos zero) = true
not_positive (pos (suc n)) = false
not_positive (negsuc n) = true

abbrev invalid_config : Text → Error
invalid_config what = record { code = ErrorCode.invalid_config; what = what }

-- The Error that validateConfig throws, if any.
unfoldable pub validate_config : BenchmarkConfig → Option Error
validate_config config =
    if not_positive config.concurrent_users
    then some (invalid_config (codes "Concurrent users must be greater than 0"))
    else if not_positive config.duration
    then some (invalid_config (codes "Duration must be greater than 0"))
    else if is_empty config.request.url
    then some (invalid_config (codes "Request URL cannot be empty"))
    else none

-- Where a worker is: at the test of is_running_, in the handler's execute, or behind the loop.
pub data Worker : Type 0 where
  testing executing ended : Worker

-- `terminated` says that an exception left a thread, which ends the program. The counters have 64
-- bits.
pub record Engine : Type 0 where
  pub is_running : Bool
  pub workers : List Worker
  pub success_count : ℕ
  pub error_count : ℕ
  pub terminated : Bool

-- What an execute ends with: a result of a status code, an Error, or another exception.
pub data Answer : Type 0 where
  returns : ℕ → Answer
  throws_error throws_other : Answer

pub data Turn : Type 0 where
  moves : ℕ → Answer → Turn
  stops : Turn

unfoldable pub stop : Engine → Engine
stop e = record e { is_running = false }

abbrev pub count_success : Engine → Engine
count_success e = record e { success_count = (e.success_count + 1) % 2 ^ 64 }

abbrev pub count_error : Engine → Engine
count_error e = record e { error_count = (e.error_count + 1) % 2 ^ 64 }

unfoldable pub counted : Answer → Engine → Engine
counted (returns code) e = if leb 200 code && ltb code 300 then count_success e else count_error e
counted throws_error e = count_error e
counted throws_other e = e

-- An execute ends, and the worker is at its loop's test again.
unfoldable pub answered : ℕ → Answer → Engine → Engine
answered i throws_other e = record e { terminated = true }
answered i a e = counted a (record e { workers = set e.workers i testing })

unfoldable pub work : ℕ → Answer → Option Worker → Engine → Engine
work i a (some testing) e = record e {
  workers = set e.workers i (if e.is_running then executing else ended);
}
work i a (some executing) e = answered i a e
work i a _ e = e

unfoldable pub step : Turn → Engine → Engine
step (moves i a) e = if e.terminated then e else work i a (get_elem? e.workers i) e
step stops e = stop e

-- The engine after the turns, the first one first.
unfoldable pub run : List Turn → Engine → Engine
run [] e = e
run (t ∷ ts) e = run ts (step t e)

-- `n` threads are created.
unfoldable pub create_workers : ℕ → List Worker
create_workers zero = []
create_workers (suc n) = testing ∷ create_workers n

abbrev pub users : ℤ → ℕ
users (pos n) = n
users (negsuc n) = 0

unfoldable pub started : BenchmarkConfig → Engine
started config = record {
  is_running = true;
  workers = create_workers (users config.concurrent_users);
  success_count = 0;
  error_count = 0;
  terminated = false;
}

abbrev validated : Option Error → BenchmarkConfig → Error ⊎ Engine
validated none config = inr (started config)
validated (some e) config = inl e

-- The start of a benchmark, or the Error of its configuration.
unfoldable pub launch : BenchmarkConfig → Error ⊎ Engine
launch config = validated (validate_config config) config

-- The counts of a result, when the workers are joined.
pub record BenchmarkResult : Type 0 where
  pub total_requests : ℕ
  pub successful_requests : ℕ
  pub failed_requests : ℕ

unfoldable pub result_of : Engine → BenchmarkResult
result_of e = record {
  total_requests = (e.success_count + e.error_count) % 2 ^ 64;
  successful_requests = e.success_count;
  failed_requests = e.error_count;
}
