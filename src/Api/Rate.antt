-- ===== src/Api/Rate.antt =====
-- src/api.rs `check_api_rate_limit` over a sequence of requests.
use mlai_trade.Common.{
  ℕ, suc, ◌+◌, ◌-◌, ◌≤◌, ◌<◌, ◌≡◌, refl, sym, subst, inl, inr, true, false, leb, min, max, List, [],
  ◌∷◌, arith, All, Bool-cases, length,
}
use mlai_trade.Api.{
  ApiLimitConfig, RateAnswer, accepted, rate_limit_exceeded, Traffic, check_api_rate_limit,
}

-- The requests at these times, in turn: what is left, and how many were accepted.
abbrev pub traffic_after : Traffic → ApiLimitConfig → List ℕ → Traffic
traffic_after t limits [] = t
traffic_after t limits (now ∷ times) =
    traffic_after (check_api_rate_limit t limits now).traffic limits times

abbrev is_accepted : RateAnswer → ℕ
is_accepted accepted = 1
is_accepted (rate_limit_exceeded n) = 0

abbrev pub number_accepted : Traffic → ApiLimitConfig → List ℕ → ℕ
number_accepted t limits [] = 0
number_accepted t limits (now ∷ times) =
    let r = check_api_rate_limit t limits now in
    is_accepted r.answer + number_accepted r.traffic limits times

-- A request in a window that is not over.
check_in_window :
    (t : Traffic) (limits : ApiLimitConfig) (now : ℕ)
    → now < t.rate.window_start + 60
    → t.rate.count ≤ limits.rate_limit_per_minute
    → let r = check_api_rate_limit t limits now in
      (r.traffic.rate.window_start ≡ t.rate.window_start)
      × (r.traffic.rate.count ≡ t.rate.count + is_accepted r.answer)
      × (is_accepted r.answer ≡ min 1 (limits.rate_limit_per_minute - t.rate.count))
      × (r.traffic.rejected_requests + is_accepted r.answer ≡ suc t.rejected_requests)
unfolding check_api_rate_limit
check_in_window t limits now h k = ground arith

-- Of the requests in a window that is not over, exactly as many are accepted as the limit leaves, and
-- the others are counted as rejected.
number_accepted_in_window :
    (t : Traffic) (limits : ApiLimitConfig) (times : List ℕ)
    → All (λ now. now < t.rate.window_start + 60) times
    → t.rate.count ≤ limits.rate_limit_per_minute
    → (number_accepted t limits times
        ≡ min (length times) (limits.rate_limit_per_minute - t.rate.count))
      × ((traffic_after t limits times).rejected_requests + number_accepted t limits times
          ≡ t.rejected_requests + length times)
number_accepted_in_window t limits [] h k = (omega arith, omega arith)
number_accepted_in_window t limits (now ∷ times) (h, hs) k =
    let r = check_api_rate_limit t limits now in
    let (same_start, count, one, rejected) = check_in_window t limits now h k in
    let later = subst (λ (start : ℕ). All (λ s. s < start + 60) times) (sym same_start) hs in
    let rest = number_accepted_in_window r.traffic limits times later (omega arith) in
    (omega (arith, rest.0), omega (arith, rest.1))

-- A refusal under a limit above zero stands in a full window that is not over.
refused_in_window :
    (t : Traffic) (limits : ApiLimitConfig) (now n : ℕ)
    → 0 < limits.rate_limit_per_minute
    → (check_api_rate_limit t limits now).answer ≡ rate_limit_exceeded n
    → ((check_api_rate_limit t limits now).traffic.rate ≡ t.rate)
      × (n ≡ max (60 - (now - t.rate.window_start)) 1)
unfolding check_api_rate_limit
refused_in_window t limits now n h e = elim (Bool-cases (leb 60 (now - t.rate.window_start))) [
  | inl over ↦ absurd (let e' = rw over at e in ground arith)
  | inr within ↦
      let e' = rw within at e in
      elim (Bool-cases (leb limits.rate_limit_per_minute t.rate.count)) [
        | inl full ↦ let e'' = rw full at e' in rw (within, full) (refl, ground arith)
        | inr free ↦ absurd (let e'' = rw free at e' in ground arith)
      ]
]

after_window :
    (t : Traffic) (limits : ApiLimitConfig) (later : ℕ)
    → 0 < limits.rate_limit_per_minute
    → 60 ≤ later - t.rate.window_start
    → (check_api_rate_limit t limits later).answer ≡ accepted
unfolding check_api_rate_limit
after_window t limits later h k =
    let over : leb 60 (later - t.rate.window_start) ≡ true = ground arith in
    let free : leb limits.rate_limit_per_minute 0 ≡ false = ground arith in rw over (rw free refl)

-- With a limit above zero and a window that has begun, a refused client that waits for the seconds it
-- was told is accepted, if no other request comes between.
pub retry_after_suffices :
    (t : Traffic) (limits : ApiLimitConfig) (now later n : ℕ)
    → 0 < limits.rate_limit_per_minute
    → t.rate.window_start ≤ now
    → (check_api_rate_limit t limits now).answer ≡ rate_limit_exceeded n
    → now + n ≤ later
    → (check_api_rate_limit (check_api_rate_limit t limits now).traffic limits later).answer
      ≡ accepted
retry_after_suffices t limits now later n h begun e k =
    let (same, wait) = refused_in_window t limits now n h e in
    after_window (check_api_rate_limit t limits now).traffic limits later h (rw same (omega arith))
