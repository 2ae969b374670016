-- ===== src/Lock/Race.antt =====
-- Several processes inside src/update_lock.rs `acquire` at once. Every access to the file is a step
-- of its own: the existence test, the read, the removal of a stale lock, and `create_new`. (The
-- write that follows `create_new` is in that step, and file operations succeed.)
use mlai_trade.Common.{
  ℕ, ◌≡◌, refl, ◌≢◌, Bool, true, false, Option, none, some, ◌==◌, if◌then◌else◌, arith,
}
use mlai_trade.Lock.{UpdateLockInfo, LockFile, json, read_lock}

-- Where a process stands in `acquire`.
pub data Position : Type 0 where
  idle : Position
  file_seen : Position
  file_read : Option UpdateLockInfo → Position
  slot_clear : Position
  holding : Position
  refused : Position

pub record Shared : Type 0 where
  pub lock_file : Option LockFile
  pub position : ℕ → Position

abbrev pub move : Shared → Option LockFile → ℕ → Position → Shared
move s file p at = record { lock_file = file; position = λ q. if q == p then at else s.position q }

-- The owner that was read is gone, or nothing could be read.
abbrev pub IsStale : (ℕ → Bool) → Option UpdateLockInfo → Type 0
IsStale alive none = Unit
IsStale alive (some info) = alive info.pid ≡ false

module _ (alive : ℕ → Bool) (info_of : ℕ → UpdateLockInfo) where
  -- One access to the file by one running process.
  pub data Step (s : Shared) : Shared → Type 0 where
    see_none :
        (p : ℕ)
        → alive p ≡ true
        → s.position p ≡ idle
        → s.lock_file ≡ none
        → Step s (move s s.lock_file p slot_clear)
    see_file :
        (p : ℕ) {f : LockFile}
        → alive p ≡ true
        → s.position p ≡ idle
        → s.lock_file ≡ some f
        → Step s (move s s.lock_file p file_seen)
    read_file :
        (p : ℕ)
        → alive p ≡ true
        → s.position p ≡ file_seen
        → Step s (move s s.lock_file p (file_read (read_lock true s.lock_file)))
    refuse_live :
        (p : ℕ) {i : UpdateLockInfo}
        → alive p ≡ true
        → s.position p ≡ file_read (some i)
        → alive i.pid ≡ true
        → Step s (move s s.lock_file p refused)
    remove_file :
        (p : ℕ) {i : Option UpdateLockInfo} {f : LockFile}
        → alive p ≡ true
        → s.position p ≡ file_read i
        → IsStale alive i
        → s.lock_file ≡ some f
        → Step s (move s none p slot_clear)
    create_new :
        (p : ℕ)
        → alive p ≡ true
        → s.position p ≡ slot_clear
        → s.lock_file ≡ none
        → Step s (move s (some (json (info_of p))) p holding)
    create_refused :
        (p : ℕ) {f : LockFile}
        → alive p ≡ true
        → s.position p ≡ slot_clear
        → s.lock_file ≡ some f
        → Step s (move s s.lock_file p refused)

  pub data Reach (s : Shared) : Shared → Type 0 where
    here : Reach s s
    next : {t u : Shared} → Reach s t → Step t u → Reach s u

  module _ (p q : ℕ) (i : UpdateLockInfo) (s : Shared) where
    abbrev s1 : Shared
    s1 = move s s.lock_file p file_seen

    abbrev s2 : Shared
    s2 = move s1 s.lock_file p (file_read (read_lock true s.lock_file))

    abbrev s3 : Shared
    s3 = move s2 s.lock_file q file_seen

    abbrev s4 : Shared
    s4 = move s3 s.lock_file q (file_read (read_lock true s.lock_file))

    abbrev s5 : Shared
    s5 = move s4 none q slot_clear

    abbrev s6 : Shared
    s6 = move s5 (some (json (info_of q))) q holding

    abbrev s7 : Shared
    s7 = move s6 none p slot_clear

    abbrev s8 : Shared
    s8 = move s7 (some (json (info_of p))) p holding

    -- With a stale lock left behind, any two running processes that enter `acquire` at once can both
    -- come out holding the lock: the second removal takes away the first one's fresh lock.
    pub race_both_hold :
        p ≢ q
        → alive p ≡ true
        → alive q ≡ true
        → alive i.pid ≡ false
        → s.position p ≡ idle
        → s.position q ≡ idle
        → s.lock_file ≡ some (json i)
        → (t : Shared) × Reach s t × (t.position p ≡ holding) × (t.position q ≡ holding)
    unfolding read_lock
    race_both_hold ne ap aq dead ip iq file = (
      s8,
      next
          (next
            (next
              (next
                (next
                  (next (next (next here (see_file p ap ip file)) (read_file p ap (ground arith)))
                    (see_file q aq (ground arith) file))
                  (read_file q aq (ground arith)))
                (remove_file q {i = some i} aq (ground arith) dead file))
              (create_new q aq (ground arith) refl))
            (remove_file p {i = some i} ap (ground arith) dead refl))
          (create_new p ap (ground arith) refl),
      ground arith,
      ground arith,
    )
