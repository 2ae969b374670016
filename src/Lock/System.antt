-- ===== src/Lock/System.antt =====
-- Processes that call src/update_lock.rs one whole call after the other, in any order, with kills
-- in between. Every process has its own environment variable and guard; the file is shared.
use mlai_trade.Common.{
  ℕ, ◌≡◌, Bool, true, false, Option, none, some, List, [], ◌∷◌, String, ◌==◌, if◌then◌else◌,
  is_some, ◌&&◌,
}
use mlai_trade.Lock.{
  LockFile, json, garbage, Machine, Host, UpdateLockGuard, Acquired, ok, busy, acquire, release,
}

-- What one process keeps: whether it runs, its environment variable, and its guard.
pub record Process : Type 0 where
  pub alive : Bool
  pub lock_held : Bool
  pub guard : Option UpdateLockGuard

pub record System : Type 0 where
  pub lock_file : Option LockFile
  pub process : ℕ → Process

-- The faults and texts that one call meets.
pub record Weather : Type 0 where
  pub now : String
  pub home : String
  pub read_ok : Bool
  pub remove_ok : Bool
  pub create_ok : Bool
  pub write_ok : Bool

-- A process starts, perhaps as the child of another, is killed without running its guard's drop, or makes
-- a call.
pub data Op : Type 0 where
  spawn : ℕ → Option ℕ → Op
  kill : ℕ → Op
  acquire_op : ℕ → Weather → String → String → List String → Op
  release_op : ℕ → Weather → String → Op

abbrev pub host : ℕ → Weather → System → Host
host p w s = record {
  pid = p;
  now = w.now;
  home = w.home;
  alive = λ q. (s.process q).alive;
  read_ok = w.read_ok;
  remove_ok = w.remove_ok;
  create_ok = w.create_ok;
  write_ok = w.write_ok;
}

abbrev pub machine : ℕ → System → Machine
machine p s = record { lock_file = s.lock_file; lock_held = (s.process p).lock_held; log = [] }

-- The process table with one entry replaced.
abbrev pub update : (ℕ → Process) → ℕ → Process → ℕ → Process
update f p v q = if q == p then v else f q

-- The guard that the process keeps: a nested, finished guard is dropped without effect.
abbrev pub keep_guard : Acquired → Option UpdateLockGuard → Option UpdateLockGuard
keep_guard (ok g) old = if g.finished then old else some g
keep_guard (busy i) old = old

abbrev pub started : Bool → Process
started lock_held = record { alive = true; lock_held = lock_held; guard = none }

-- A child inherits the environment variable of its parent.
abbrev pub inherited : System → Option ℕ → Bool
inherited s none = false
inherited s (some parent) = (s.process parent).alive && (s.process parent).lock_held

abbrev pub dead : Process
dead = record { alive = false; lock_held = false; guard = none }

-- A release through the guard that the process keeps, if it keeps one.
unfoldable pub release_with : System → ℕ → Weather → String → Option UpdateLockGuard → System
release_with s p w status none = s
release_with s p w status (some g) =
    if (s.process p).alive
    then (let (g', m) = release (host p w s) status g (machine p s) in
        record {
          lock_file = m.lock_file;
          process =
              update s.process p (record { alive = true; lock_held = m.lock_held; guard = none });
        })
    else s

unfoldable pub step : System → Op → System
step s (spawn p parent) =
    if (s.process p).alive
    then s
    else record s { process = update s.process p (started (inherited s parent)) }
step s (kill p) = record s { process = update s.process p dead }
step s (acquire_op p w source operation command) =
    if (s.process p).alive
    then (let (r, m) = acquire (host p w s) source operation command (machine p s) in
        record {
          lock_file = m.lock_file;
          process = update s.process p (record {
            alive = true;
            lock_held = m.lock_held;
            guard = keep_guard r (s.process p).guard;
          });
        })
    else s
step s (release_op p w status) = release_with s p w status (s.process p).guard

unfoldable pub run : System → List Op → System
run s [] = s
run s (op ∷ ops) = run (step s op) ops

-- The process runs and has the guard of the lock. (A child of it may have the environment variable too, and
-- `acquire` then hands out finished guards, which are not kept.)
abbrev pub Holds : System → ℕ → Type 0
Holds s p = ((s.process p).alive ≡ true) × (is_some (s.process p).guard ≡ true)

-- The reads of an acquire succeed.
abbrev pub ReadsLock : Op → Type 0
ReadsLock (spawn p parent) = Unit
ReadsLock (kill p) = Unit
ReadsLock (acquire_op p w source operation command) = w.read_ok ≡ true
ReadsLock (release_op p w status) = Unit

-- The file names the pid.
abbrev pub NamesPid : Option LockFile → ℕ → Type 0
NamesPid none p = ⊥
NamesPid (some garbage) p = ⊥
NamesPid (some (json info)) p = info.pid ≡ p

abbrev pub GuardOf : Option UpdateLockGuard → ℕ → Type 0
GuardOf none p = Unit
GuardOf (some g) p = (g.info.pid ≡ p) × (g.finished ≡ false)
