-- ===== src/Daemon/History.antt =====
-- What the daily refreshes of src/daemon.rs leave behind: their attempts and their dates.
use mlai_trade.Common.{
  ℕ, ◌+◌, ◌≤◌, ◌<◌, ◌≡◌, sym, ◌⊎◌, inl, inr, true, false, Option, none, some, List, [], ◌∷◌, arith,
  All,
}
use mlai_trade.Schedule.{is_date}
use mlai_trade.Daemon.{Round, DaemonState, has_elapsed}

-- Each attempt is an hour or more behind the one before it.
abbrev pub Spaced : List ℕ → Type 0
Spaced [] = Unit
Spaced (a ∷ []) = Unit
Spaced (a ∷ b ∷ attempts) = (b + 3600 ≤ a) × Spaced (b ∷ attempts)

-- Each date is behind all before it.
abbrev pub Decreasing : List ℕ → Type 0
Decreasing [] = Unit
Decreasing (d ∷ dates) = All (λ (earlier : ℕ). earlier < d) dates × Decreasing dates

abbrev pub first_of : List ℕ → Option ℕ
first_of [] = none
first_of (d ∷ dates) = some d

-- The rounds' dates do not go back behind `date`.
abbrev pub IsOrdered : ℕ → List Round → Type 0
IsOrdered date [] = Unit
IsOrdered date (r ∷ rounds) = (date ≤ r.today) × IsOrdered r.today rounds

-- What the refreshes so far satisfy on a date.
pub record History (date : ℕ) (s : DaemonState) : Type 0 where
  pub last_attempt : first_of s.attempts ≡ s.last_daily
  pub spaced : Spaced s.attempts
  pub once : Decreasing s.refreshed
  pub not_later : All (λ (d : ℕ). d ≤ date) s.refreshed
  pub stamped : (s.refreshed ≡ []) ⊎ (first_of s.refreshed ≡ s.stamp)

later_date :
    (d e : ℕ) (dates : List ℕ) → d ≤ e → All (λ (x : ℕ). x ≤ d) dates → All (λ (x : ℕ). x ≤ e) dates
later_date d e [] h all = tt
later_date d e (x ∷ dates) h (p, all) = (omega arith, later_date d e dates h all)

strictly_later :
    (d e : ℕ) (dates : List ℕ) → d < e → All (λ (x : ℕ). x < d) dates → All (λ (x : ℕ). x < e) dates
strictly_later d e [] h all = tt
strictly_later d e (x ∷ dates) h (p, all) = (omega arith, strictly_later d e dates h all)

pub later-History : (d e : ℕ) (s : DaemonState) → d ≤ e → History d s → History e s
later-History d e s h hist = record {
  last_attempt = hist.last_attempt;
  spaced = hist.spaced;
  once = hist.once;
  not_later = later_date d e s.refreshed h hist.not_later;
  stamped = hist.stamped;
}

pub add-Spaced :
    (now : ℕ) (attempts : List ℕ) (last : Option ℕ)
    → first_of attempts ≡ last
    → has_elapsed 3600 now last ≡ true
    → Spaced attempts
    → Spaced (now ∷ attempts)
add-Spaced now [] last e h spaced = tt
add-Spaced now (a ∷ attempts) last e h spaced =
    let h' = h in (ground (arith, rw (sym e) at h'), spaced)

pub add-Decreasing :
    (date : ℕ) (dates : List ℕ) (stamp : Option ℕ)
    → (dates ≡ []) ⊎ (first_of dates ≡ stamp)
    → is_date stamp date ≡ false
    → All (λ (d : ℕ). d ≤ date) dates
    → Decreasing dates
    → Decreasing (date ∷ dates)
add-Decreasing date [] stamp first fresh all once = (tt, tt)
add-Decreasing date (d ∷ dates) stamp (inl e) fresh all once = absurd (ground (arith, e))
add-Decreasing date (d ∷ dates) stamp (inr e) fresh (p, all) (below, once) =
    let fresh' = fresh in
    let smaller : d < date = ground (arith, rw (sym e) at fresh') in
    ((smaller, strictly_later d date dates smaller below), (below, once))
