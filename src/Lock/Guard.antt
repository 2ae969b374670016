-- ===== src/Lock/Guard.antt =====
-- One call of src/update_lock.rs `acquire` and of the guard's `release`, on every branch.
use text.Mathlib.Text.{◌==◌ as str_eq}
use mlai_trade.Common.{
  ◌⊎◌, ◌≡◌, refl, ◌↔◌, Bool, true, false, Option, none, some, List, String, arith,
}
use mlai_trade.Lock.{
  UpdateLockInfo, LockFile, json, garbage, LockEvent, Machine, Host, UpdateLockGuard, Acquired, ok,
  busy, own_info, acquire, release,
}

-- The slot can be taken: there is no file, or one that cannot be read, holds no lock or whose process is
-- gone, and that can be removed.
abbrev pub IsFree : Host → Option LockFile → Type 0
IsFree h none = Unit
IsFree h (some garbage) = h.remove_ok ≡ true
IsFree h (some (json info)) =
    ((h.read_ok ≡ false) ⊎ (h.alive info.pid ≡ false)) × (h.remove_ok ≡ true)

abbrev pub is_ok : Acquired → Bool
is_ok (ok g) = true
is_ok (busy i) = false

-- One statement for success, another for a busy slot.
abbrev pub IfOk : Acquired → Type 0 → Type 0 → Type 0
IfOk (ok g) P Q = P
IfOk (busy i) P Q = Q

-- `source == "cli"`, the condition for a signal watcher.
abbrev pub is_cli : String → Bool
is_cli source = str_eq source "cli"

module _ (h : Host) (source operation : String) (command : List String) where
  abbrev run : Machine → Acquired × Machine
  run = acquire h source operation command

  abbrev own : UpdateLockInfo
  own = own_info h source operation command

  IsFree-cases :
      (file : Option LockFile) (held : Bool) (log : List LockEvent)
      → held ≡ false
      → (is_ok (run (record { lock_file = file; lock_held = held; log = log })).0 ≡ true)
        ↔ (IsFree h file × (h.create_ok ≡ true) × (h.write_ok ≡ true))
  unfolding acquire
  IsFree-cases none held log e = ground arith
  IsFree-cases (some garbage) held log e = ground arith
  IsFree-cases (some (json info)) held log e = ground arith

  -- A process that does not hold the lock gets it exactly when the slot is free and the file can be
  -- created and written.
  acquire_ok_iff :
      (m : Machine)
      → m.lock_held ≡ false
      → (is_ok (run m).0 ≡ true)
        ↔ (IsFree h m.lock_file × (h.create_ok ≡ true) × (h.write_ok ≡ true))
  acquire_ok_iff m e = IsFree-cases m.lock_file m.lock_held m.log e

  outcome_cases :
      (file : Option LockFile) (held : Bool) (log : List LockEvent)
      → held ≡ false
      → let (r, m') = run (record { lock_file = file; lock_held = held; log = log }) in
        IfOk r
          ((r ≡ ok (record { info = own; finished = false; signal_watcher = is_cli source }))
            × (m'.lock_file ≡ some (json own))
            × (m'.lock_held ≡ true))
          (m'.lock_held ≡ false)
  unfolding acquire own_info
  outcome_cases none held log e = ground arith
  outcome_cases (some garbage) held log e = ground arith
  outcome_cases (some (json info)) held log e = ground arith

  -- Success leaves the caller's own information in the file, marks the process as the owner, and
  -- hands out an unfinished guard for it; a busy slot leaves the process unmarked.
  pub acquire_outcome :
      (m : Machine)
      → m.lock_held ≡ false
      → IfOk
          (run m).0
          (((run m).0
              ≡ ok (record { info = own; finished = false; signal_watcher = is_cli source }))
            × ((run m).1.lock_file ≡ some (json own))
            × ((run m).1.lock_held ≡ true))
          ((run m).1.lock_held ≡ false)
  acquire_outcome m e = outcome_cases m.lock_file m.lock_held m.log e

  -- The lock of a live process, if it can be read, refuses the call, reports that process, and nothing changes.
  pub acquire_live :
      (m : Machine) (info : UpdateLockInfo)
      → h.read_ok ≡ true
      → m.lock_held ≡ false
      → m.lock_file ≡ some (json info)
      → h.alive info.pid ≡ true
      → run m ≡ (busy info, m)
  unfolding acquire
  acquire_live m info r e f a = ground arith

-- The release of an unfinished guard over a lock file removes it exactly where it is read, holds the guard's
-- pid and removal succeeds, leaves it as it was otherwise, and clears the process's mark.
pub release-lock_file :
    (h : Host) (status : String) (g : UpdateLockGuard) (m : Machine) (info : UpdateLockInfo)
    → g.finished ≡ false
    → m.lock_file ≡ some (json info)
    → let m' = (release h status g m).1 in
      ((m'.lock_file ≡ none)
        ↔ ((h.read_ok ≡ true) × (info.pid ≡ g.info.pid) × (h.remove_ok ≡ true)))
      × ((m'.lock_file ≡ none) ⊎ (m'.lock_file ≡ m.lock_file))
      × (m'.lock_held ≡ false)
unfolding release
release-lock_file h status g m info e f = ground arith

-- While the process holds the lock, a nested acquire succeeds and neither it nor the release of its
-- guard changes anything.
pub nested_acquire :
    (h h' : Host) (source operation status : String) (command : List String) (m : Machine)
    → m.lock_held ≡ true
    → (g : UpdateLockGuard) × (acquire h source operation command m ≡ (ok g, m))
      × (release h' status g m ≡ (g, m))
unfolding acquire release
nested_acquire h h' source operation status command m e = (
  record { info = own_info h source operation command; finished = true; signal_watcher = false },
  ground arith,
  refl,
)
