-- ===== src/Api/Tests.antt =====
-- The request limits at concrete inputs.
use mlai_trade.Common.{ℕ, ◌≤◌, ◌≡◌, refl, true, [], ◌∷◌, arith}
use mlai_trade.Api.{
  Counters, Streams, ApiLimitConfig, Traffic, acquire_api_request_guard, check_api_rate_limit,
  accepted,
}
use mlai_trade.Api.Counter.{
  starting, loaded, inside, turn, Threads, IsReached, start, step, number_inside, IsReached_bound,
  IsWithin, IsAnswer, acquire_api_request_guard-IsAnswer,
}
use mlai_trade.Api.Rate.{retry_after_suffices}

-- Two threads load the counter before either adds to it.
abbrev two_loaded : Threads
two_loaded = record { counter = 0; phases = loaded 0 ∷ loaded 0 ∷ [] }

abbrev one_inside : Threads
one_inside = record { counter = 1; phases = inside ∷ loaded 0 ∷ [] }

one_inside-IsReached : IsReached 1 one_inside
unfolding turn
one_inside-IsReached = step 0 [] (loaded 0) (loaded 0 ∷ []) (
    step 0 (loaded 0 ∷ []) starting []
      (step 0 [] starting (starting ∷ []) (start (starting ∷ starting ∷ []) (refl, (refl, tt)))))

IsReached_bound_example : (1 ≡ number_inside (inside ∷ loaded 0 ∷ [])) × (1 ≤ 1)
IsReached_bound_example = IsReached_bound 1 one_inside one_inside-IsReached

abbrev limits : ApiLimitConfig
limits = record {
  rate_limit_per_minute = 2;
  max_concurrent_requests = 4;
  max_concurrent_long_requests = 1;
  overload_retry_after_seconds = 5;
}

abbrev one_long : Counters
one_long = record { active_requests = 1; active_long_requests = 1; rejected_requests = 0 }

one_long-IsWithin : IsWithin limits one_long
one_long-IsWithin = record { active = omega arith; long = omega arith }

acquire_api_request_guard-IsAnswer_example :
    IsAnswer limits true one_long
      (acquire_api_request_guard one_long limits true).counters
      (acquire_api_request_guard one_long limits true).admission
acquire_api_request_guard-IsAnswer_example =
    acquire_api_request_guard-IsAnswer limits true one_long one_long-IsWithin

-- A window that began at 100, after so many requests.
abbrev window : ℕ → Traffic
window count = record {
  total_requests = 7;
  rejected_requests = 1;
  rate = record { window_start = 100; count = count };
}

retry_after_suffices_example :
    (check_api_rate_limit (check_api_rate_limit (window 2) limits 130).traffic limits 160).answer
    ≡ accepted
unfolding check_api_rate_limit
retry_after_suffices_example =
    retry_after_suffices (window 2) limits 130 160 30 (omega arith) (omega arith) refl (omega arith)

abbrev two_streams : Streams
two_streams = record {
  realtime_active_streams = 2;
  realtime_total_streams = 5;
  rejected_requests = 0;
}
