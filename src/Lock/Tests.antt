-- ===== src/Lock/Tests.antt =====
-- Runs of the update lock, and the theorems at concrete inputs.
use mlai_trade.Common.{ℕ, ◌≡◌, refl, true, false, ◌||◌, none, some, List, [], ◌∷◌, arith, ◌==◌, All}
use mlai_trade.Lock.{
  UpdateLockInfo, json, Machine, Host, UpdateLockGuard, Acquired, ok, acquire, release, own_info,
  stale_removed, acquired,
}
use mlai_trade.Lock.Sequence.{boot, mutual_exclusion}
use mlai_trade.Lock.System.{
  Weather, Op, spawn, kill, acquire_op, release_op, release_with, Holds, ReadsLock, NamesPid, run,
  step,
}
use mlai_trade.Lock.Race.{Shared, Reach, idle, holding, race_both_hold}

abbrev info_of : ℕ → UpdateLockInfo
info_of p = record {
  pid = p;
  source = "cli";
  operation = "daily";
  command = [];
  started_at_utc = "t";
  runtime_home = "home";
}

-- Process 7 calls; process 9 is alive, and no other.
abbrev seven : Host
seven = record {
  pid = 7;
  now = "t";
  home = "home";
  alive = λ p. p == 9;
  read_ok = true;
  remove_ok = true;
  create_ok = true;
  write_ok = true;
}

abbrev left_by : ℕ → Machine
left_by p = record { lock_file = some (json (info_of p)); lock_held = false; log = [] }

abbrev cleared : Machine
cleared = record { lock_file = none; lock_held = false; log = [] }

-- A stale lock is taken over, and released with its file.
take_over :
    let (r, m) = acquire seven "api" "daily" [] (left_by 3) in
    (r
      ≡ ok (record {
        info = own_info seven "api" "daily" [];
        finished = false;
        signal_watcher = false;
      }))
    × (m.log ≡ acquired (own_info seven "api" "daily" []) ∷ stale_removed (info_of 3) ∷ [])
unfolding acquire own_info
take_over = (refl, refl)

abbrev seven_guard : UpdateLockGuard
seven_guard = record { info = info_of 7; finished = false; signal_watcher = true }

abbrev taken : Acquired × Machine
taken = acquire seven "cli" "daily" [] cleared

abbrev held : Machine
held = record (left_by 7) { lock_held = true }

abbrev fair : Weather
fair = record {
  now = "t";
  home = "home";
  read_ok = true;
  remove_ok = true;
  create_ok = true;
  write_ok = true;
}

-- Process 1 dies with the lock, process 2 takes it over, its child 4 is let through, and process 3 is
-- refused.
abbrev takeover : List Op
takeover =
    spawn 1 none
    ∷ acquire_op 1 fair "cli" "daily" []
    ∷ kill 1
    ∷ spawn 2 none
    ∷ acquire_op 2 fair "cli" "daily" []
    ∷ spawn 3 none
    ∷ spawn 4 (some 2)
    ∷ acquire_op 4 fair "cli" "daily" []
    ∷ acquire_op 3 fair "api" "train" []
    ∷ []

takeover-ReadsLock : All ReadsLock takeover
takeover-ReadsLock = (tt, (refl, (tt, (tt, (refl, (tt, (tt, (refl, (refl, tt)))))))))

two-Holds : Holds (run (boot none) takeover) 2
unfolding run step acquire own_info
two-Holds = (refl, refl)

mutual_exclusion_example : (◌≡◌ {A = ℕ} 2 2) × NamesPid (run (boot none) takeover).lock_file 2
mutual_exclusion_example = mutual_exclusion none takeover 2 2 takeover-ReadsLock two-Holds two-Holds

-- A read that fails makes a lock that is held be removed, and a second process holds it.
abbrev unreadable : List Op
unreadable =
    spawn 1 none
    ∷ acquire_op 1 fair "cli" "daily" []
    ∷ spawn 2 none
    ∷ acquire_op 2 (record fair { read_ok = false }) "cli" "daily" []
    ∷ []

both_hold : Holds (run (boot none) unreadable) 1 × Holds (run (boot none) unreadable) 2
unfolding run step acquire own_info
both_hold = ((refl, refl), (refl, refl))

-- A child that outlives its holder's release still passes `acquire`, on a finished guard.
abbrev outlived : List Op
outlived =
    spawn 1 none
    ∷ acquire_op 1 fair "cli" "daily" []
    ∷ spawn 2 (some 1)
    ∷ release_op 1 fair "ok"
    ∷ []

child_passes :
    ((run (boot none) outlived).lock_file ≡ none)
    × (((run (boot none) outlived).process 2).lock_held ≡ true)
unfolding run step release_with acquire release own_info
child_passes = (refl, refl)

abbrev waiting : Shared
waiting = record { lock_file = some (json (info_of 3)); position = λ p. idle }

race_both_hold_example :
    (t : Shared) × Reach (λ p. p == 7 || p == 8) info_of waiting t
    × (t.position 7 ≡ holding)
    × (t.position 8 ≡ holding)
race_both_hold_example =
    race_both_hold (λ p. p == 7 || p == 8) info_of 7 8 (info_of 3) waiting (omega arith) refl refl
      refl refl refl refl
