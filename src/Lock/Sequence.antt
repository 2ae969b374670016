-- ===== src/Lock/Sequence.antt =====
-- At most one process holds the lock of src/update_lock.rs while calls run one after the other.
use mlai_trade.Common.{
  inl, inr, ℕ, ◌≡◌, refl, true, false, Option, none, some, List, [], ◌∷◌, String, arith, Bool-cases,
  subst, sym, ◌∙◌, ◌≢◌, ℕ_discrete, is_some, All,
}
use mlai_trade.Lock.Guard.{
  release-lock_file, acquire_outcome, acquire_live, nested_acquire, IfOk, is_cli,
}
use mlai_trade.Lock.{
  UpdateLockInfo, LockFile, json, garbage, Machine, Host, UpdateLockGuard, Acquired, ok, busy,
  acquire, release, own_info,
}
use mlai_trade.Lock.System.{
  Process, System, Weather, Op, host, machine, update, keep_guard, started, dead, release_with,
  step, run, ReadsLock, inherited, Holds, NamesPid, GuardOf, spawn, kill, acquire_op, release_op,
}

-- Every holder's pid stands in the file, and every guard is unfinished and for its process.
pub record IsExclusive (s : System) : Type 0 where
  pub named : (p : ℕ) → Holds s p → NamesPid s.lock_file p
  pub guarded : (p : ℕ) → GuardOf (s.process p).guard p

NamesPid_info :
    (f : Option LockFile) (p : ℕ)
    → NamesPid f p
    → (info : UpdateLockInfo) × (f ≡ some (json info)) × (info.pid ≡ p)
NamesPid_info none p h = absurd h
NamesPid_info (some garbage) p h = absurd h
NamesPid_info (some (json info)) p h = (info, refl, h)

acquire-others :
    (h : Host) (source operation : String) (command : List String) (m : Machine) (q : ℕ)
    → h.read_ok ≡ true
    → h.alive q ≡ true
    → NamesPid m.lock_file q
    → (acquire h source operation command m).1 ≡ m
acquire-others h source operation command m q r a n =
    let (info, f, e) = NamesPid_info m.lock_file q n in
    elim (Bool-cases m.lock_held) [
      | inl held ↦ rw (nested_acquire h h source operation "ok" command m held).1
      | inr free ↦ rw (acquire_live h source operation command m info r free f (rw e a))
    ]

outcome_names :
    (h : Host) (source operation : String) (command : List String) (m m' : Machine) (r : Acquired)
    (old : Option UpdateLockGuard)
    → IfOk r
        ((r
            ≡ ok (record {
              info = own_info h source operation command;
              finished = false;
              signal_watcher = is_cli source;
            }))
          × (m'.lock_file ≡ some (json (own_info h source operation command)))
          × (m'.lock_held ≡ true))
        (m'.lock_held ≡ false)
    → (is_some old ≡ true → NamesPid m'.lock_file h.pid)
    → GuardOf old h.pid
    → (is_some (keep_guard r old) ≡ true → NamesPid m'.lock_file h.pid)
      × GuardOf (keep_guard r old) h.pid
unfolding own_info
outcome_names h source operation command m m' (ok g) old (r, f, l) kept go =
    (λ t. rw f refl, subst (λ a. GuardOf (keep_guard a old) h.pid) (sym r) (refl, refl))
outcome_names h source operation command m m' (busy i) old l kept go = (kept, go)

acquire-names :
    (h : Host) (source operation : String) (command : List String) (m : Machine)
    (old : Option UpdateLockGuard)
    → m.lock_held ≡ false
    → h.read_ok ≡ true
    → h.alive h.pid ≡ true
    → (is_some old ≡ true → NamesPid m.lock_file h.pid)
    → GuardOf old h.pid
    → let (r, m') = acquire h source operation command m in
      (is_some (keep_guard r old) ≡ true → NamesPid m'.lock_file h.pid)
      × GuardOf (keep_guard r old) h.pid
acquire-names h source operation command m old e reads alive named go =
    let (r, m') = acquire h source operation command m in
    outcome_names h source operation command m m' r old
      (acquire_outcome h source operation command m e)
      (λ keeps.
        let n = named keeps in
        rw (acquire-others h source operation command m h.pid reads alive n) n)
      go

acquire-guard_held :
    (h : Host) (source operation : String) (command : List String) (m : Machine)
    (old : Option UpdateLockGuard)
    → m.lock_held ≡ true
    → (keep_guard (acquire h source operation command m).0 old ≡ old)
      × ((acquire h source operation command m).1 ≡ m)
unfolding acquire
acquire-guard_held h source operation command m old e = ground arith

release-others :
    (h : Host) (status : String) (g : UpdateLockGuard) (m : Machine) (q : ℕ)
    → g.finished ≡ false
    → g.info.pid ≢ q
    → NamesPid m.lock_file q
    → NamesPid (release h status g m).1.lock_file q
release-others h status g m q fin ne n =
    let (info, f, e) = NamesPid_info m.lock_file q n in
    let (gone, stays, _) = release-lock_file h status g m info fin f in
    elim stays [ inl none_now ↦ absurd (ne (sym (gone.0 none_now).1 ∙ e)) | inr same ↦ rw same n ]

-- The process table after an update, at the updated entry and elsewhere.
update_self : (f : ℕ → Process) (p : ℕ) (v : Process) → update f p v p ≡ v
update_self f p v = ground arith

update_ne : (f : ℕ → Process) (p q : ℕ) (v : Process) → q ≢ p → update f p v q ≡ f q
update_ne f p q v h = ground arith

-- A new state whose process table changed at `p` alone keeps the invariant, if the entry at `p` and
-- the pid of every other holder fit the new file.
update-IsExclusive :
    (s : System) (p : ℕ) (v : Process) (file : Option LockFile)
    → IsExclusive s
    → (v.alive ≡ true → is_some v.guard ≡ true → NamesPid file p)
    → GuardOf v.guard p
    → ((q : ℕ) → q ≢ p → Holds s q → NamesPid s.lock_file q → NamesPid file q)
    → IsExclusive (record { lock_file = file; process = update s.process p v })
update-IsExclusive s p v file inv own guard others = record {
  named = λ q h. elim (ℕ_discrete q p) [
    | yes e ↦ rw e (
        own (subst (λ (u : Process). u.alive ≡ true) (self e) h.0)
          (subst (λ (u : Process). is_some u.guard ≡ true) (self e) h.1))
    | no ne ↦
        let h' : Holds s q =
          subst (λ (u : Process). (u.alive ≡ true) × (is_some u.guard ≡ true))
            (update_ne s.process p q v ne) h in
        others q ne h' (inv.named q h')
  ];
  guarded = λ q. elim (ℕ_discrete q p) [
    | yes e ↦ rw (self e) (rw e guard)
    | no ne ↦ rw (update_ne s.process p q v ne) (inv.guarded q)
  ];
}
  where
    self : {q : ℕ} → q ≡ p → update s.process p v q ≡ v
    self e = rw e (update_self s.process p v)

acquire_op-IsExclusive :
    (s : System) (p : ℕ) (w : Weather) (source operation : String) (command : List String)
    → (s.process p).alive ≡ true
    → w.read_ok ≡ true
    → IsExclusive s
    → IsExclusive (step s (acquire_op p w source operation command))
unfolding step
acquire_op-IsExclusive s p w source operation command a reads inv =
    rw a (elim (Bool-cases (s.process p).lock_held) [
      | inl held ↦
          let (g, m) =
            acquire-guard_held (host p w s) source operation command (machine p s)
              (s.process p).guard held in
          rw (g, m)
            (update-IsExclusive s p _ _ inv (λ _ keeps. inv.named p (a, keeps)) (inv.guarded p)
              (λ q ne h n. n))
      | inr free ↦
          let (names, guard) =
            acquire-names (host p w s) source operation command (machine p s) (s.process p).guard
              free reads a (λ keeps. inv.named p (a, keeps)) (inv.guarded p) in
          update-IsExclusive s p _ _ inv (λ _. names) guard
            (λ q ne h n.
              rw (acquire-others (host p w s) source operation command (machine p s) q reads h.0 n)
                n)
    ])

release_with-IsExclusive :
    (s : System) (p : ℕ) (w : Weather) (status : String) (guard : Option UpdateLockGuard)
    → GuardOf guard p
    → IsExclusive s
    → IsExclusive (release_with s p w status guard)
unfolding release_with
release_with-IsExclusive s p w status none go inv = inv
release_with-IsExclusive s p w status (some g) (pid, fin) inv =
    elim (Bool-cases (s.process p).alive) [
      | inr gone ↦ rw gone inv
      | inl a ↦ rw a (
          update-IsExclusive s p _ _ inv (λ _ l. cc) tt
            (λ q ne h n.
              release-others (host p w s) status g (machine p s) q fin (λ same. ne (sym same ∙ pid))
                n))
    ]

step-IsExclusive : (s : System) (op : Op) → ReadsLock op → IsExclusive s → IsExclusive (step s op)
unfolding step
step-IsExclusive s (spawn p parent) reads inv = elim (Bool-cases (s.process p).alive) [
  | inl a ↦ rw a inv
  | inr a ↦ rw a (
      update-IsExclusive s p (started (inherited s parent)) s.lock_file inv (λ _ l. cc) tt
        (λ q ne h n. n))
]
step-IsExclusive s (kill p) reads inv =
    update-IsExclusive s p dead s.lock_file inv (λ _ l. cc) tt (λ q ne h n. n)
step-IsExclusive s (acquire_op p w source operation command) reads inv =
    elim (Bool-cases (s.process p).alive) [
      | inl a ↦ acquire_op-IsExclusive s p w source operation command a reads inv
      | inr a ↦ rw a inv
    ]
step-IsExclusive s (release_op p w status) reads inv =
    release_with-IsExclusive s p w status (s.process p).guard (inv.guarded p) inv

run-IsExclusive :
    (s : System) (ops : List Op) → All ReadsLock ops → IsExclusive s → IsExclusive (run s ops)
unfolding run
run-IsExclusive s [] reads inv = inv
run-IsExclusive s (op ∷ ops) (read, reads) inv =
    run-IsExclusive (step s op) ops reads (step-IsExclusive s op read inv)

-- No process runs; the lock file is whatever an earlier run has left.
abbrev pub boot : Option LockFile → System
boot file = record { lock_file = file; process = λ p. dead }

boot-IsExclusive : (file : Option LockFile) → IsExclusive (boot file)
boot-IsExclusive file = record { named = λ p h. cc; guarded = λ p. tt }

NamesPid_unique : (f : Option LockFile) (p q : ℕ) → NamesPid f p → NamesPid f q → p ≡ q
NamesPid_unique f p q a b =
    let (i, e, x) = NamesPid_info f p a in let (j, e', y) = NamesPid_info f q b in cc

-- From any file left behind, after any starts, kills, acquires and releases that run one call at a time, the
-- children of a holder included: if every acquire can read the file that is there, and whatever removal,
-- creation, write or read in a release fails, at most one running process keeps the guard of the lock, and
-- the file names it.
pub mutual_exclusion :
    (file : Option LockFile) (ops : List Op) (p q : ℕ)
    → All ReadsLock ops
    → Holds (run (boot file) ops) p
    → Holds (run (boot file) ops) q
    → (p ≡ q) × NamesPid (run (boot file) ops).lock_file p
mutual_exclusion file ops p q reads hp hq =
    let inv = run-IsExclusive (boot file) ops reads (boot-IsExclusive file) in
    (NamesPid_unique _ p q (inv.named p hp) (inv.named q hq), inv.named p hp)
