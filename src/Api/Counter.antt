-- ===== src/Api/Counter.antt =====
-- src/api.rs: `try_increment_counter` under interleaved threads, and the guard that uses it.
use mlai_trade.Common.{
  max, inl, inr, ℕ, suc, ◌+◌, ◌↔◌, ◌-◌, ◌≤◌, ◌<◌, ◌≡◌, refl, Bool, true, false, if◌then◌else◌, leb,
  ◌==◌, List, [], ◌∷◌, ◌++◌, arith, All, Bool-cases,
}
use mlai_trade.Api.{
  Counters, ApiLimitConfig, Admission, admitted, max_concurrent_requests_exceeded,
  max_concurrent_long_requests_exceeded, acquire_long, acquire_api_request_guard, drop_guard,
  Streams, Opened, max_active_streams, try_new_stream, drop_stream,
}

-- Where a thread stands: before the load, behind it, inside with the counter taken, refused, and
-- behind the guard's drop.
pub data Phase : Type 0 where
  starting : Phase
  loaded : ℕ → Phase
  inside : Phase
  refused : Phase
  left : Phase

pub record Shared : Type 0 where
  pub counter : ℕ
  pub phase : Phase

-- The next atomic access of one thread to the counter; a failed exchange loops.
unfoldable pub turn : ℕ → ℕ → Phase → Shared
turn limit counter starting = record { counter = counter; phase = loaded counter }
turn limit counter (loaded current) =
    if leb limit current
    then record { counter = counter; phase = refused }
    else if counter == current
    then record { counter = suc counter; phase = inside }
    else record { counter = counter; phase = starting }
turn limit counter inside = record { counter = counter - 1; phase = left }
turn limit counter refused = record { counter = counter; phase = refused }
turn limit counter left = record { counter = counter; phase = left }

pub record Threads : Type 0 where
  pub counter : ℕ
  pub phases : List Phase

abbrev join : List Phase → List Phase → Shared → Threads
join before after s = record { counter = s.counter; phases = before ++ (s.phase ∷ after) }

-- The states that are reached when threads take turns in any order.
pub data IsReached (limit : ℕ) : Threads → Type 0 where
  start :
      (phases : List Phase)
      → All (λ p. p ≡ starting) phases
      → IsReached limit (record { counter = 0; phases = phases })
  step :
      (counter : ℕ) (before : List Phase) (p : Phase) (after : List Phase)
      → IsReached limit (record { counter = counter; phases = before ++ (p ∷ after) })
      → IsReached limit (join before after (turn limit counter p))

abbrev is_inside : Phase → ℕ
is_inside inside = 1
is_inside starting = 0
is_inside (loaded c) = 0
is_inside refused = 0
is_inside left = 0

abbrev pub number_inside : List Phase → ℕ
number_inside [] = 0
number_inside (p ∷ ps) = is_inside p + number_inside ps

number_inside-append :
    (ps qs : List Phase) → number_inside (ps ++ qs) ≡ number_inside ps + number_inside qs
number_inside-append [] qs = omega arith
number_inside-append (p ∷ ps) qs = omega (arith, number_inside-append ps qs)

number_inside-start : (ps : List Phase) → All (λ p. p ≡ starting) ps → number_inside ps ≡ 0
number_inside-start [] h = refl
number_inside-start (p ∷ ps) (e, h) = rw e (omega (arith, number_inside-start ps h))

-- The turn changes the counter as it changes the number inside, and stays below the limit.
turn_counter :
    (limit counter others : ℕ) (p : Phase)
    → counter ≡ is_inside p + others
    → counter ≤ limit
    → ((turn limit counter p).counter ≡ is_inside (turn limit counter p).phase + others)
      × ((turn limit counter p).counter ≤ limit)
unfolding turn
turn_counter limit counter others starting e h = (e, h)
turn_counter limit counter others (loaded current) e h = ground arith
turn_counter limit counter others inside e h = (omega arith, omega arith)
turn_counter limit counter others refused e h = (e, h)
turn_counter limit counter others left e h = (e, h)

-- Whatever the order of the threads' accesses, the counter is the number of threads inside and never
-- above the limit.
pub IsReached_bound :
    (limit : ℕ) (s : Threads)
    → IsReached limit s
    → (s.counter ≡ number_inside s.phases) × (s.counter ≤ limit)
IsReached_bound limit s (start phases h) = (rw (number_inside-start phases h) refl, omega arith)
IsReached_bound limit s (step counter before p after r) =
    let (e, h) = IsReached_bound limit _ r in
    let others = number_inside before + number_inside after in
    let turned =
      turn_counter limit counter others p
        (omega (arith, e, number_inside-append before (p ∷ after))) h in
    (
      omega (arith, turned.0, number_inside-append before ((turn limit counter p).phase ∷ after)),
      turned.1,
    )

-- The counters are within their limits.
pub record IsWithin (limits : ApiLimitConfig) (c : Counters) : Type 0 where
  pub active : c.active_requests ≤ limits.max_concurrent_requests
  pub long : c.active_long_requests ≤ limits.max_concurrent_long_requests

-- What a request finds: admitted counters that the guard's drop gives back, or the counters as they
-- were with one rejection more, and the limit that refused it.
abbrev pub IsAnswer : ApiLimitConfig → Bool → Counters → Counters → Admission → Type 0
IsAnswer limits long before after (admitted l) =
    (l ≡ long) × (drop_guard long after ≡ before) × IsWithin limits after
IsAnswer limits long before after (max_concurrent_requests_exceeded n) =
    (limits.max_concurrent_requests ≤ before.active_requests)
    × (after ≡ record before { rejected_requests = suc before.rejected_requests })
IsAnswer limits long before after (max_concurrent_long_requests_exceeded n) =
    (long ≡ true)
    × (limits.max_concurrent_long_requests ≤ before.active_long_requests)
    × (after ≡ record before { rejected_requests = suc before.rejected_requests })

suc-sub : (n : ℕ) → suc n - 1 ≡ n
suc-sub n = omega arith

acquire_long-IsAnswer :
    (limits : ApiLimitConfig) (long : Bool) (c : Counters)
    → IsWithin limits c
    → c.active_requests < limits.max_concurrent_requests
    → IsAnswer limits long c
        (acquire_long (record c { active_requests = suc c.active_requests }) limits long).counters
        (acquire_long (record c { active_requests = suc c.active_requests }) limits long).admission
unfolding acquire_long drop_guard
acquire_long-IsAnswer limits false c h free =
    (refl, rw (suc-sub c.active_requests) refl, record { active = omega arith; long = h.long })
acquire_long-IsAnswer limits true c h free =
    elim (Bool-cases (leb limits.max_concurrent_long_requests c.active_long_requests)) [
      | inl full ↦ rw full (refl, ground arith, rw (suc-sub c.active_requests) refl)
      | inr open_long ↦
          let k : c.active_long_requests < limits.max_concurrent_long_requests = ground arith in
          rw open_long (
            refl,
            rw (suc-sub c.active_requests, suc-sub c.active_long_requests) refl,
            record { active = omega arith; long = omega arith },
          )
    ]

-- From counters within their limits, an admitted request has counters within the limits, which its
-- guard's drop gives back; a refused one finds the limit reached and changes only the rejections.
pub acquire_api_request_guard-IsAnswer :
    (limits : ApiLimitConfig) (long : Bool) (c : Counters)
    → IsWithin limits c
    → IsAnswer limits long c
        (acquire_api_request_guard c limits long).counters
        (acquire_api_request_guard c limits long).admission
unfolding acquire_api_request_guard drop_guard
acquire_api_request_guard-IsAnswer limits long c h =
    elim (Bool-cases (leb limits.max_concurrent_requests c.active_requests)) [
      | inl full ↦ rw full (ground arith, refl)
      | inr free ↦ rw free (acquire_long-IsAnswer limits long c h (ground arith))
    ]

-- What a stream's opening and its guard's drop leave of the streams before.
pub record IsStreamRoundTrip (before : Streams) (o : Opened) : Type 0 where
  pub opens : (o.opened ≡ true) ↔ (before.realtime_active_streams < max_active_streams)
  pub bound :
      o.streams.realtime_active_streams ≤ max max_active_streams before.realtime_active_streams
  pub given_back :
      (if o.opened then drop_stream o.streams else o.streams).realtime_active_streams
      ≡ before.realtime_active_streams
  pub counted :
      o.streams.realtime_total_streams + o.streams.rejected_requests
      ≡ suc (before.realtime_total_streams + before.rejected_requests)

-- A stream opens exactly below the limit and takes the counter no higher than that or than it was, its
-- guard's drop gives the counter back, and every try is counted once, as a stream or as a rejection.
try_new_stream-IsStreamRoundTrip : (s : Streams) → IsStreamRoundTrip s (try_new_stream s)
unfolding try_new_stream drop_stream
try_new_stream-IsStreamRoundTrip s =
    elim (Bool-cases (leb max_active_streams s.realtime_active_streams)) [
      | inl full ↦ rw full (record {
        opens = ground arith;
        bound = omega arith;
        given_back = refl;
        counted = omega arith;
      })
      | inr free ↦ rw free (record {
        opens = ground arith;
        bound = ground arith;
        given_back = suc-sub s.realtime_active_streams;
        counted = omega arith;
      })
    ]
