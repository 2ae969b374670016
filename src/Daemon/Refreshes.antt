-- ===== src/Daemon/Refreshes.antt =====
-- The daily refreshes over the rounds of src/daemon.rs: once a date, and no attempt within an hour.
use mlai_trade.Common.{
  ℕ, ◌≡◌, refl, ap, ◌∙◌, ◌⊎◌, inl, inr, false, ◌&&◌, Option, none, some, List, [], ◌∷◌, arith,
  Bool-cases, Option-cases,
}
use mlai_trade.Calendar.{Dates}
use mlai_trade.Schedule.{RefreshConfig, is_date, MarketGuardrail, daily_refresh_due}
use mlai_trade.Schedule.Refresh.{due_date}
use mlai_trade.Daemon.{
  Maintenance, completed, lock_busy, maintenance_error, Round, DaemonState, later_than, has_elapsed,
  trade_part, cache_part, run_daily_maintenance, after_maintenance, attempt, daily_part, run_rounds,
}
use mlai_trade.Daemon.History.{
  Spaced, Decreasing, IsOrdered, History, later-History, add-Spaced, add-Decreasing,
}

module _ (dates : Dates) (config : RefreshConfig) where
  attempt-History :
      (r : Round) (due : Option ℕ) (s : DaemonState)
      → ((due ≡ none) ⊎ ((due ≡ some r.today) × (is_date s.stamp r.today ≡ false)))
      → History r.today s
      → History r.today (attempt dates config r due s)
  attempt-History r none s h hist = hist
  attempt-History r (some date) s (inl e) hist = absurd (ground (arith, e))
  attempt-History r (some date) s (inr (e, fresh)) hist =
      let today : date ≡ r.today = ground (arith, e) in
      elim (Bool-cases (has_elapsed 3600 r.now s.last_daily)) [
        | inl elapsed ↦
            rw (today, elapsed)
              (behind (run_daily_maintenance r.commands)
                (add-Spaced r.now s.attempts s.last_daily hist.last_attempt elapsed hist.spaced))
        | inr waiting ↦ rw waiting hist
      ]
    where
      behind :
          (m : Maintenance)
          → Spaced (r.now ∷ s.attempts)
          → History r.today (
              after_maintenance r.today m
                (record s { last_daily = some r.now; attempts = r.now ∷ s.attempts }))
      behind completed spaced = record {
        last_attempt = refl;
        spaced = spaced;
        once =
            add-Decreasing r.today s.refreshed s.stamp hist.stamped fresh hist.not_later hist.once;
        not_later = (omega arith, hist.not_later);
        stamped = inr refl;
      }
      behind lock_busy spaced = record {
        last_attempt = refl;
        spaced = spaced;
        once = hist.once;
        not_later = hist.not_later;
        stamped = hist.stamped;
      }
      behind maintenance_error spaced = record {
        last_attempt = refl;
        spaced = spaced;
        once = hist.once;
        not_later = hist.not_later;
        stamped = hist.stamped;
      }

  due-cases :
      (stamp : Option ℕ) (today time : ℕ)
      → (daily_refresh_due dates config stamp today time ≡ none)
        ⊎ ((daily_refresh_due dates config stamp today time ≡ some today)
            × (is_date stamp today ≡ false))
  due-cases stamp today time =
      elim (Option-cases (daily_refresh_due dates config stamp today time)) [
        | inl not_due ↦ inl not_due
        | inr (date, due) ↦
            let (same, fresh) = due_date dates config stamp today time date due in
            inr (due ∙ ap some same, fresh)
      ]

-- The history does not read the other variables.
other-History :
    (date : ℕ) (s : DaemonState) (backoff pause cache : Option ℕ) (cycles : List ℕ)
    → History date s
    → History date (record s {
      backoff_date = backoff;
      pause_until = pause;
      last_cache = cache;
      cycles = cycles;
    })
other-History date s backoff pause cache cycles hist = record {
  last_attempt = hist.last_attempt;
  spaced = hist.spaced;
  once = hist.once;
  not_later = hist.not_later;
  stamped = hist.stamped;
}

cache_part-History :
    (date : ℕ) (r : Round) (s : DaemonState) → History date s → History date (cache_part r s)
unfolding cache_part
cache_part-History date r s hist =
    elim (Bool-cases (r.cache_enabled && has_elapsed r.cache_interval r.now s.last_cache)) [
      | inl due ↦
          rw (cache_part, due)
            (other-History date s s.backoff_date s.pause_until (some r.now) s.cycles hist)
      | inr not_due ↦ rw (cache_part, not_due) hist
    ]

module _ (dates : Dates) (to_utc : ℕ → ℕ → Option ℕ) (market : MarketGuardrail)
    (config : RefreshConfig) where
  trade_part-History :
      (date : ℕ) (r : Round) (s : DaemonState)
      → History date s
      → History date (trade_part dates to_utc market r s)
  unfolding trade_part
  trade_part-History date r s hist = elim (Bool-cases (later_than r.now s.pause_until)) [
    | inl paused ↦ rw (trade_part, paused) hist
    | inr awake ↦ elim (Bool-cases (is_date s.backoff_date r.market_date)) [
      | inl off ↦
          rw (trade_part, awake, off)
            (other-History date s s.backoff_date none s.last_cache s.cycles hist)
      | inr trading ↦
          rw (trade_part, awake, trading)
            (other-History date s _ _ s.last_cache (r.market_date ∷ s.cycles) hist)
    ]
  ]

  body-History :
      (r : Round) (s : DaemonState)
      → History r.today s
      → History r.today
          (daily_part dates config r (cache_part r (trade_part dates to_utc market r s)))
  unfolding daily_part
  body-History r s hist =
      let before = cache_part r (trade_part dates to_utc market r s) in
      attempt-History dates config r (daily_refresh_due dates config before.stamp r.today r.time)
        before (due-cases dates config before.stamp r.today r.time)
        (cache_part-History r.today r (trade_part dates to_utc market r s)
          (trade_part-History r.today r s hist))

  run_rounds-History :
      (rounds : List Round) (date : ℕ) (s : DaemonState)
      → IsOrdered date rounds
      → History date s
      → (last : ℕ) × History last (run_rounds dates to_utc market config rounds s)
  unfolding run_rounds
  run_rounds-History [] date s ordered hist = (date, hist)
  run_rounds-History (r ∷ rounds) date s (h, ordered) hist =
      let today = later-History date r.today s h hist in
      elim (Bool-cases r.config_valid) [
        | inl valid ↦ elim (Bool-cases r.daemon_enabled) [
          | inl enabled ↦
              rw (run_rounds, valid, enabled)
                (run_rounds-History rounds r.today _ ordered (body-History r s today))
          | inr disabled ↦ rw (run_rounds, valid, disabled) (r.today, today)
        ]
        | inr invalid ↦ rw (run_rounds, invalid) (run_rounds-History rounds r.today s ordered today)
      ]

  -- From a start without attempts, with any stamp on disk, and dates that never go back: the daily refresh
  -- completes at most once for each date, and its attempts start an hour or more apart.
  pub run_rounds-once :
      (rounds : List Round) (date : ℕ) (s : DaemonState)
      → IsOrdered date rounds
      → s.attempts ≡ []
      → s.refreshed ≡ []
      → s.last_daily ≡ none
      → Decreasing (run_rounds dates to_utc market config rounds s).refreshed
        × Spaced (run_rounds dates to_utc market config rounds s).attempts
  run_rounds-once rounds date s ordered no_attempt no_refresh no_last =
      let start : History date s = record {
        last_attempt = rw (no_attempt, no_last) refl;
        spaced = rw no_attempt tt;
        once = rw no_refresh tt;
        not_later = rw no_refresh tt;
        stamped = inl no_refresh;
      } in
      let (last, hist) = run_rounds-History rounds date s ordered start in (hist.once, hist.spaced)
