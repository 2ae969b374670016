-- ===== src/Api.antt =====
-- The request limits of src/api.rs: the counters behind its guards and the rate window.
pub mod Counter
pub mod Rate
mod Tests
use mlai_trade.Common.{
  ℕ, suc, ◌+◌, ◌-◌, Bool, true, false, not, ◌&&◌, if◌then◌else◌, leb, max, List, [], ◌∷◌,
}

-- The counters of `ApiRuntimeState` that the guards change.
pub record Counters : Type 0 where
  pub active_requests : ℕ
  pub active_long_requests : ℕ
  pub rejected_requests : ℕ

pub record ApiLimitConfig : Type 0 where
  pub rate_limit_per_minute : ℕ
  pub max_concurrent_requests : ℕ
  pub max_concurrent_long_requests : ℕ
  pub overload_retry_after_seconds : ℕ

-- `try_increment_counter` when no other thread comes between; Api/Counter has the threads.
pub record Increment : Type 0 where
  pub entered : Bool
  pub counter : ℕ

abbrev pub try_increment_counter : ℕ → ℕ → Increment
try_increment_counter counter limit =
    if leb limit counter
    then record { entered = false; counter = counter }
    else record { entered = true; counter = suc counter }

-- The guard, or the error's code with its retry-after seconds.
pub data Admission : Type 0 where
  admitted : Bool → Admission
  max_concurrent_requests_exceeded : ℕ → Admission
  max_concurrent_long_requests_exceeded : ℕ → Admission

pub record Admitted : Type 0 where
  pub admission : Admission
  pub counters : Counters

-- The second test, behind the increment of the first counter.
unfoldable pub acquire_long : Counters → ApiLimitConfig → Bool → Admitted
acquire_long c limits long_request =
    let long = try_increment_counter c.active_long_requests limits.max_concurrent_long_requests in
    if long_request
    then if long.entered
      then record {
        admission = admitted long_request;
        counters = record c { active_long_requests = long.counter };
      }
      else record {
        admission = max_concurrent_long_requests_exceeded limits.overload_retry_after_seconds;
        counters = record c {
          rejected_requests = suc c.rejected_requests;
          active_requests = c.active_requests - 1;
        };
      }
    else record { admission = admitted long_request; counters = c }

unfoldable pub acquire_api_request_guard : Counters → ApiLimitConfig → Bool → Admitted
unfolding acquire_long
acquire_api_request_guard c limits long_request =
    let active = try_increment_counter c.active_requests limits.max_concurrent_requests in
    if active.entered
    then acquire_long (record c { active_requests = active.counter }) limits long_request
    else record {
      admission = max_concurrent_requests_exceeded limits.overload_retry_after_seconds;
      counters = record c { rejected_requests = suc c.rejected_requests };
    }

-- The guard's `drop`.
unfoldable pub drop_guard : Bool → Counters → Counters
drop_guard long_request c = record {
  active_requests = c.active_requests - 1;
  active_long_requests =
      if long_request then c.active_long_requests - 1 else c.active_long_requests;
  rejected_requests = c.rejected_requests;
}

-- The counters of the realtime streams, and the guard's `try_new` and `drop`.
pub record Streams : Type 0 where
  pub realtime_active_streams : ℕ
  pub realtime_total_streams : ℕ
  pub rejected_requests : ℕ

-- `DEF_REALTIME_MAX_ACTIVE_STREAMS`
abbrev pub max_active_streams : ℕ
max_active_streams = 16

pub record Opened : Type 0 where
  pub opened : Bool
  pub streams : Streams

unfoldable pub try_new_stream : Streams → Opened
try_new_stream s =
    let active = try_increment_counter s.realtime_active_streams max_active_streams in
    if active.entered
    then record {
      opened = true;
      streams = record {
        realtime_active_streams = active.counter;
        realtime_total_streams = suc s.realtime_total_streams;
        rejected_requests = s.rejected_requests;
      };
    }
    else record {
      opened = false;
      streams = record s { rejected_requests = suc s.rejected_requests };
    }

unfoldable pub drop_stream : Streams → Streams
drop_stream s = record s { realtime_active_streams = s.realtime_active_streams - 1 }

-- The rate window; times are seconds.
pub record ApiRateState : Type 0 where
  pub window_start : ℕ
  pub count : ℕ

pub data RateAnswer : Type 0 where
  accepted : RateAnswer
  rate_limit_exceeded : ℕ → RateAnswer

-- The fields of `ApiRuntimeState` that the rate check changes.
pub record Traffic : Type 0 where
  pub total_requests : ℕ
  pub rejected_requests : ℕ
  pub rate : ApiRateState

pub record Rated : Type 0 where
  pub answer : RateAnswer
  pub traffic : Traffic

abbrev pub rolled : ApiRateState → ℕ → ApiRateState
rolled rate now =
    if leb 60 (now - rate.window_start) then record { window_start = now; count = 0 } else rate

-- The elapsed time is read before the window is rolled.
unfoldable pub check_api_rate_limit : Traffic → ApiLimitConfig → ℕ → Rated
check_api_rate_limit t limits now =
    if leb limits.rate_limit_per_minute (rolled t.rate now).count
    then record {
      answer = rate_limit_exceeded (max (60 - (now - t.rate.window_start)) 1);
      traffic = record {
        total_requests = suc t.total_requests;
        rejected_requests = suc t.rejected_requests;
        rate = rolled t.rate now;
      };
    }
    else record {
      answer = accepted;
      traffic = record {
        total_requests = suc t.total_requests;
        rejected_requests = t.rejected_requests;
        rate = record (rolled t.rate now) { count = suc (rolled t.rate now).count };
      };
    }
