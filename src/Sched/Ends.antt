-- ===== src/Sched/Ends.antt =====
-- `sched_wait` and `sched_kill` of kernel/sched.cpp: ended processes leave the table.
use cofeuos.Base.{
  ℕ, ◌<◌, ◌≡◌, refl, ap, ◌∙◌, subst, ◌≢◌, ◌⊎◌, inl, inr, Bool, true, false, Option, none, some,
  arith, ◌==◌, if◌then◌else◌, length, Bool-cases,
}
use cofeuos.Sched.{
  PState, ready, running, sleeping, zombie, empty, Process, Machine, is_empty, is_zombie, max_proc,
  proc, put_proc, find_entry, find_by_pid, has_pid,
}
use cofeuos.Sched.Space.{vm_free}
use cofeuos.Sched.Life.{reap, reap_found, awaited, wait, wait_found, kill, kill_found, is_current}
use cofeuos.Sched.Procs.{proc-put_proc}
use cofeuos.Sched.Table.{IsTable, alike-IsTable, put_empty-IsTable}
use cofeuos.Sched.Found.{FoundEntry, find_entry-FoundEntry}

-- The entry is empty and the others are as before.
pub record Reaped (m : Machine) (i : ℕ) (m' : Machine) : Type 0 where
  pub gone : is_empty (proc m' i).state ≡ true
  pub others : (j : ℕ) → j ≢ i → proc m' j ≡ proc m j

pub reap-Reaped : (m : Machine) (i : ℕ) → i < length m.table → Reaped m i (reap m i)
unfolding reap
reap-Reaped m i lt =
    let p = record (vm_free (proc m i) m.pmm).0 { state = empty; pid = 0 } in
    record {
      gone = ground (arith, proc-put_proc m i i p lt);
      others = λ j ne. ground (arith, proc-put_proc m i j p lt);
    }

pub cur-reap : (m : Machine) (i : ℕ) → (reap m i).cur ≡ m.cur
unfolding reap
cur-reap m i = refl

pub reap-IsTable : (m : Machine) (i : ℕ) → IsTable m → i < max_proc → IsTable (reap m i)
unfolding reap
reap-IsTable m i t lt =
    let p = record (vm_free (proc m i) m.pmm).0 { state = empty; pid = 0 } in
    alike-IsTable (put_proc m i p) (reap m i) refl refl (put_empty-IsTable m i p t lt refl refl)

-- A zombie that a wait for `want` finds, where 0 is any.
abbrev pub IsAwaited : ℕ → Process → Type 0
IsAwaited want p = (p.state ≡ zombie) × ((want ≡ 0) ⊎ (p.pid ≡ want))

-- The process with the PID.
abbrev pub HasPid : ℕ → Process → Type 0
HasPid pid p = (p.state ≢ empty) × (p.pid ≡ pid)

is_zombie-eq : (s : PState) → is_zombie s ≡ true → s ≡ zombie
is_zombie-eq empty e = absurd (cc)
is_zombie-eq ready e = absurd (cc)
is_zombie-eq running e = absurd (cc)
is_zombie-eq sleeping e = absurd (cc)
is_zombie-eq zombie e = refl

is_empty-ne : (s : PState) → is_empty s ≡ false → s ≢ empty
is_empty-ne s e e' = ground (arith, ap is_empty e')

is_empty-eq : (s : PState) → is_empty s ≡ true → s ≡ empty
is_empty-eq empty e = refl
is_empty-eq ready e = absurd (cc)
is_empty-eq running e = absurd (cc)
is_empty-eq sleeping e = absurd (cc)
is_empty-eq zombie e = absurd (cc)

awaited-IsAwaited : (want : ℕ) (p : Process) → awaited want p ≡ true → IsAwaited want p
awaited-IsAwaited want p e = (
  is_zombie-eq p.state (ground arith),
  elim (Bool-cases (want == 0)) [ inl z ↦ inl (ground arith) | inr z ↦ inr (ground arith) ],
)

not_awaited : (want : ℕ) (p : Process) → awaited want p ≡ false → ¬ IsAwaited want p
not_awaited want p miss (z, inl e) = ground (arith, ap is_zombie z)
not_awaited want p miss (z, inr e) = ground (arith, ap is_zombie z)

has_pid-HasPid : (pid : ℕ) (p : Process) → has_pid pid p ≡ true → HasPid pid p
has_pid-HasPid pid p e = (is_empty-ne p.state (ground arith), ground arith)

not_has_pid : (pid : ℕ) (p : Process) → has_pid pid p ≡ false → ¬ HasPid pid p
not_has_pid pid p miss (there, e) = elim (Bool-cases (is_empty p.state)) [
  | inl gone ↦ there (is_empty-eq p.state gone)
  | inr here ↦ ground arith
]

-- How a wait for `want` ends.
abbrev pub Waited : Machine → ℕ → Machine × Option ℕ → Type 0
Waited m want (m', none) = (m' ≡ m) × ((j : ℕ) → j < length m.table → ¬ IsAwaited want (proc m j))
Waited m want (m', some code) =
    (i : ℕ) × IsAwaited want (proc m i)
    × ((j : ℕ) → j < i → ¬ IsAwaited want (proc m j))
    × (code ≡ (proc m i).exitcode)
    × Reaped m i m'

pub wait_lem : (m : Machine) (want : ℕ) → Waited m want (wait m want)
unfolding wait
wait_lem m want =
    go (find_entry (awaited want) m.table 0) (find_entry-FoundEntry (awaited want) m.table)
  where
    go : (o : Option ℕ) → FoundEntry (awaited want) m.table o → Waited m want (wait_found m o)
    go none f = (refl, λ j lt. not_awaited want (proc m j) (f j lt))
    go (some i) (lt, hit, before) = (
      i,
      awaited-IsAwaited want (proc m i) hit,
      (λ j lt'. not_awaited want (proc m j) (before j lt')),
      refl,
      reap-Reaped m i lt,
    )

-- How an attempt to kill ends.
abbrev pub Killed : Machine → ℕ → Machine × Bool → Type 0
Killed m pid (m', true) = (i : ℕ) × HasPid pid (proc m i) × (m.cur ≢ some i) × Reaped m i m'
Killed m pid (m', false) =
    (m' ≡ m)
    × (((j : ℕ) → j < length m.table → ¬ HasPid pid (proc m j))
        ⊎ ((i : ℕ) × HasPid pid (proc m i) × (m.cur ≡ some i)))

-- `sched_kill` empties the entry of the process with the PID and leaves all others as before; it fails
-- and changes nothing only if no process has the PID or the one that has it is the current one.
pub kill_lem : (m : Machine) (pid : ℕ) → Killed m pid (kill m pid)
unfolding kill find_by_pid
kill_lem m pid =
    go (find_entry (has_pid pid) m.table 0) (find_entry-FoundEntry (has_pid pid) m.table)
  where
    found :
        (i : ℕ) (c : Option ℕ)
        → m.cur ≡ c
        → i < length m.table
        → HasPid pid (proc m i)
        → Killed m pid (if is_current c i then (m, false) else (reap m i, true))
    found i none e lt hit = (i, hit, (λ e'. absurd (cc)), reap-Reaped m i lt)
    found i (some c) e lt hit = elim (Bool-cases (c == i)) [
      | inl same ↦ let e' : c ≡ i = ground arith in rw same (refl, inr (i, hit, e ∙ ap some e'))
      | inr other ↦ rw other (i, hit, (λ e'. ground arith), reap-Reaped m i lt)
    ]

    go : (o : Option ℕ) → FoundEntry (has_pid pid) m.table o → Killed m pid (kill_found m o)
    go none f = (refl, inl (λ j lt. not_has_pid pid (proc m j) (f j lt)))
    go (some i) (lt, hit, before) = found i m.cur refl lt (has_pid-HasPid pid (proc m i) hit)

pub cur-wait : (m : Machine) (want : ℕ) → (wait m want).0.cur ≡ m.cur
unfolding wait
cur-wait m want = go (find_entry (awaited want) m.table 0)
  where
    go : (o : Option ℕ) → (wait_found m o).0.cur ≡ m.cur
    go none = refl
    go (some i) = cur-reap m i

pub cur-kill : (m : Machine) (pid : ℕ) → (kill m pid).0.cur ≡ m.cur
unfolding kill
cur-kill m pid = go (find_by_pid m.table pid)
  where
    go : (o : Option ℕ) → (kill_found m o).0.cur ≡ m.cur
    go none = refl
    go (some i) = ground (arith, cur-reap m i)

reap_found-IsTable :
    (m : Machine) (o : Option ℕ) (keep : Process → Bool)
    → IsTable m
    → FoundEntry keep m.table o
    → IsTable (reap_found m o).0
reap_found-IsTable m none keep t f = t
reap_found-IsTable m (some i) keep t (lt, _, _) =
    reap-IsTable m i t (subst (λ n. i < n) t.sched.full lt)

pub wait-IsTable : (m : Machine) (want : ℕ) → IsTable m → IsTable (wait m want).0
unfolding wait
wait-IsTable m want t =
    go (find_entry (awaited want) m.table 0) (find_entry-FoundEntry (awaited want) m.table)
  where
    go : (o : Option ℕ) → FoundEntry (awaited want) m.table o → IsTable (wait_found m o).0
    go none f = t
    go (some i) f = reap_found-IsTable m (some i) (awaited want) t f

pub kill-IsTable : (m : Machine) (pid : ℕ) → IsTable m → IsTable (kill m pid).0
unfolding kill find_by_pid
kill-IsTable m pid t =
    go (find_entry (has_pid pid) m.table 0) (find_entry-FoundEntry (has_pid pid) m.table)
  where
    go : (o : Option ℕ) → FoundEntry (has_pid pid) m.table o → IsTable (kill_found m o).0
    go none f = t
    go (some i) f = ground (arith, t, reap_found-IsTable m (some i) (has_pid pid) t f)
