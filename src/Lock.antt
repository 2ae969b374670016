-- ===== src/Lock.antt =====
-- The update lock of src/update_lock.rs: a JSON file that reserves the long data and ML refresh
-- jobs. One call of `acquire` or `release` here runs with nothing else touching the file; the
-- interleavings of several processes are in Lock/Race.antt.
pub mod Guard
pub mod System
pub mod Sequence
pub mod Race
mod Tests
use text.Mathlib.Text.{◌==◌ as str_eq}
use mlai_trade.Common.{
  ℕ, Bool, true, false, ◌&&◌, Option, none, some, List, [], ◌∷◌, String, ◌==◌, if◌then◌else◌,
}

pub record UpdateLockInfo : Type 0 where
  pub pid : ℕ
  pub source : String
  pub operation : String
  pub command : List String
  pub started_at_utc : String
  pub runtime_home : String

-- The content of the lock file: what `serde_json` reads back, or text that it does not.
pub data LockFile : Type 0 where
  json : UpdateLockInfo → LockFile
  garbage : LockFile

-- The lifecycle events that are logged.
pub data LockEvent : Type 0 where
  acquired : UpdateLockInfo → LockEvent
  released : UpdateLockInfo → String → LockEvent
  stale_removed : UpdateLockInfo → LockEvent
  cancelled : UpdateLockInfo → LockEvent

-- The lock file, the environment variable `MLAI_TRADE_UPDATE_LOCK_HELD` of the calling process,
-- and the log, newest event first.
pub record Machine : Type 0 where
  pub lock_file : Option LockFile
  pub lock_held : Bool
  pub log : List LockEvent

-- What one call finds outside: its own pid, the time and the runtime home, which pids are alive,
-- and whether reading, removing, creating and writing the file succeed.
pub record Host : Type 0 where
  pub pid : ℕ
  pub now : String
  pub home : String
  pub alive : ℕ → Bool
  pub read_ok : Bool
  pub remove_ok : Bool
  pub create_ok : Bool
  pub write_ok : Bool

-- `signal_watcher_done` is kept as whether there is a watcher.
pub record UpdateLockGuard : Type 0 where
  pub info : UpdateLockInfo
  pub finished : Bool
  pub signal_watcher : Bool

pub data Acquired : Type 0 where
  ok : UpdateLockGuard → Acquired
  busy : UpdateLockInfo → Acquired

-- `io::Result<bool>` of `remove_stale_lock`.
pub data Stale : Type 0 where
  removed kept failed : Stale

-- What a text that was read says.
abbrev pub parse_lock : Option LockFile → Option UpdateLockInfo
parse_lock none = none
parse_lock (some (json info)) = some info
parse_lock (some garbage) = none

-- A read that fails looks like a file that holds no lock.
unfoldable pub read_lock : Bool → Option LockFile → Option UpdateLockInfo
read_lock read_ok file = if read_ok then parse_lock file else none

-- The information that is reported where the file cannot be read.
unfoldable pub unknown_info : String → Host → UpdateLockInfo
unknown_info operation h = record {
  pid = 0;
  source = "unknown";
  operation = operation;
  command = [];
  started_at_utc = "unknown";
  runtime_home = h.home;
}

unfoldable pub busy_from : Host → Machine → Acquired
unfolding read_lock unknown_info
busy_from h m = elim (read_lock h.read_ok m.lock_file) [
  | none ↦ busy (unknown_info "unknown" h)
  | some info ↦ busy info
]

unfoldable pub own_info : Host → String → String → List String → UpdateLockInfo
own_info h source operation command = record {
  pid = h.pid;
  source = source;
  operation = operation;
  command = command;
  started_at_utc = h.now;
  runtime_home = h.home;
}

-- A lock that cannot be read is removed, whoever holds it; one whose process is read and alive is kept.
unfoldable pub remove_stale_lock : Host → Machine → Stale × Machine
unfolding read_lock
remove_stale_lock h m = elim (read_lock h.read_ok m.lock_file) [
  | none ↦ if h.remove_ok then (removed, record m { lock_file = none }) else (failed, m)
  | some info ↦
      if h.alive info.pid
      then (kept, m)
      else (if h.remove_ok
          then (removed, record m { lock_file = none; log = stale_removed info ∷ m.log })
          else (failed, m))
]

-- From `create_new` on: the file appears, is written, and the process marks itself as the owner.
unfoldable pub create_lock : Host → UpdateLockInfo → Machine → Acquired × Machine
unfolding busy_from unknown_info
create_lock h info m = elim m.lock_file [
  | some file ↦ (busy_from h m, m)
  | none ↦
      if h.create_ok
      then (if h.write_ok
          then (
            ok (record {
              info = info;
              finished = false;
              signal_watcher = str_eq info.source "cli";
            }),
            record m {
              lock_file = some (json info);
              lock_held = true;
              log = acquired info ∷ m.log;
            },
          )
          else (
            busy (unknown_info "lock write failed" h),
            record m { lock_file = if h.remove_ok then none else some garbage },
          ))
      else (busy_from h m, m)
]

-- `if path.exists()`: a present lock is first removed if it is stale, else the slot is busy.
unfoldable pub acquire_unheld : Host → UpdateLockInfo → Machine → Acquired × Machine
unfolding remove_stale_lock create_lock busy_from
acquire_unheld h info m = elim m.lock_file [
  | none ↦ create_lock h info m
  | some _ ↦
      let (result, m') = remove_stale_lock h m in
      elim result [
        | removed ↦ create_lock h info m'
        | kept ↦ (busy_from h m', m')
        | failed ↦ (busy_from h m', m')
      ]
]

-- A process that holds the lock gets a guard that is already finished, and changes nothing.
unfoldable pub acquire : Host → String → String → List String → Machine → Acquired × Machine
unfolding acquire_unheld own_info
acquire h source operation command m =
    let info : UpdateLockInfo = own_info h source operation command in
    if m.lock_held
    then (ok (record { info = info; finished = true; signal_watcher = false }), m)
    else acquire_unheld h info m

-- The file after a removal that is tried only where it holds the pid.
unfoldable pub remove_if_own : Host → ℕ → Option LockFile → Option LockFile
unfolding read_lock
remove_if_own h pid file = elim (read_lock h.read_ok file) [
  | none ↦ file
  | some info ↦ if info.pid == pid && h.remove_ok then none else file
]

-- `finish(status)`, and `drop` with the status `error_or_interrupted`.
unfoldable pub release : Host → String → UpdateLockGuard → Machine → UpdateLockGuard × Machine
unfolding remove_if_own
release h status g m = if g.finished then (g, m) else (
  record g { finished = true },
  record {
    lock_file = remove_if_own h g.info.pid m.lock_file;
    lock_held = false;
    log = released g.info status ∷ m.log;
  },
)

-- The watcher's last round after a signal, before it exits the process.
unfoldable pub cancel_by_signal : Host → UpdateLockGuard → Machine → Machine
unfolding remove_if_own
cancel_by_signal h g m = record m {
  lock_file = remove_if_own h g.info.pid m.lock_file;
  log = cancelled g.info ∷ m.log;
}
