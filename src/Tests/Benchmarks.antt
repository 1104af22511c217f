-- ===== src/Tests/Benchmarks.antt =====
-- src/testing/benchmark_engine.cpp with two workers.
use flowdriver.Base.{◌≡◌, refl, ◌+◌, codes, List, [], ◌∷◌, some, pos, negsuc, arith}
use flowdriver.Types.{default_config, ErrorCode}
use flowdriver.Benchmark.{
  BenchmarkConfig, Turn, moves, stop, returns, throws_error, launch, started, run, result_of,
  validate_config, users, step, work, answered, counted, create_workers,
}
use flowdriver.Benchmark.Bounds.{Within, total, in_flight, run-Within}

abbrev two_users : BenchmarkConfig
two_users = record {
  request = record default_config { url = codes "http://h/" };
  concurrent_users = pos 2;
  duration = pos 1;
}

abbrev under_way : List Turn
under_way =
    moves 0 throws_error ∷ moves 1 throws_error ∷ moves 0 (returns 204) ∷ moves 0 throws_error ∷ []

abbrev winding_up : List Turn
winding_up =
    moves 0 (returns 404) ∷ moves 1 throws_error ∷ moves 0 throws_error ∷ moves 1 throws_error ∷ []

no_users :
    validate_config (record two_users { concurrent_users = negsuc 0 })
    ≡ some (record {
      code = ErrorCode.invalid_config;
      what = codes "Concurrent users must be greater than 0";
    })
unfolding validate_config
no_users = refl

counted_requests :
    result_of (run winding_up (stop (run under_way (started two_users))))
    ≡ record { total_requests = 3; successful_requests = 1; failed_requests = 2 }
unfolding result_of run step stop started work create_workers answered counted
counted_requests = refl

run-Within_example :
    Within
      (total (run under_way (started two_users)))
      (total (run under_way (started two_users)) + users two_users.concurrent_users)
      (result_of (run winding_up (stop (run under_way (started two_users)))))
unfolding launch validate_config run step started work create_workers answered counted in_flight
run-Within_example =
    run-Within two_users (started two_users) refl under_way winding_up (omega arith)
