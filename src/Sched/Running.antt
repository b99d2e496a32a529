-- ===== src/Sched/Running.antt =====
-- The invariant of the process table of kernel/sched.cpp, and the switch to a process.
use cofeuos.Base.{
  ℕ, ◌<◌, ◌≡◌, refl, ◌∙◌, ◌⊎◌, inl, inr, true, false, List, Option, none, some, arith, ◌==◌,
  if◌then◌else◌, length, add64,
}
use cofeuos.Sched.{
  Process, Machine, running, is_running, max_proc, kstack_size, proc, wake, wake_sleepers,
}
use cofeuos.Sched.Pick.{ready_at, RoundRobin}
use cofeuos.Sched.Procs.{proc-put_proc, proc-wake_sleepers, length-wake_all, length-put_proc}
use cofeuos.Sched.Switch.{enter, boot_pml4}

-- The table is full length, and only the current process, an entry of it, is in the running state.
pub record IsSched (m : Machine) : Type 0 where
  pub full : length m.table ≡ max_proc
  pub running_is_cur : (i : ℕ) → is_running (proc m i).state ≡ true → m.cur ≡ some i
  pub cur_in : (i : ℕ) → m.cur ≡ some i → i < max_proc

-- Process `n` runs: its tables and its kernel stack are in place, and its frame is returned.
pub record Runs (n : ℕ) (r : Machine × ℕ) : Type 0 where
  pub current : r.0.cur ≡ some n
  pub state : (proc r.0 n).state ≡ running
  pub tables : r.0.cr3_loaded ≡ (proc r.0 n).cr3
  pub stack : r.0.rsp0 ≡ add64 (proc r.0 n).kstack kstack_size
  pub frame : r.1 ≡ (proc r.0 n).ctx

-- No process runs: the kernel's own tables are in place, or were and still are.
abbrev pub Idle : Machine → Machine × ℕ → Type 0
Idle m r =
    (r.0.cur ≡ none)
    × ((r.0.cr3_loaded ≡ boot_pml4) ⊎ (r.0.cr3_loaded ≡ m.cr3_loaded) × (m.cur ≡ none))

abbrev pub NoneRuns : Machine → Type 0
NoneRuns m = (i : ℕ) → is_running (proc m i).state ≡ false

pub proc-enter :
    (m : Machine) (n j : ℕ)
    → n < length m.table
    → proc (enter m n) j ≡ (if n == j then record (proc m n) { state = running } else proc m j)
unfolding enter
proc-enter m n j lt = proc-put_proc m n j (record (proc m n) { state = running }) lt

pub enter-Runs : (m : Machine) (n : ℕ) → n < length m.table → Runs n (enter m n, (proc m n).ctx)
unfolding enter
enter-Runs m n lt =
    let e = proc-enter m n n lt in
    record {
      current = refl;
      state = ground (arith, e);
      tables = ground (arith, e);
      stack = ground (arith, e);
      frame = ground (arith, e);
    }

pub enter-IsSched :
    (m : Machine) (n : ℕ)
    → length m.table ≡ max_proc
    → NoneRuns m
    → n < max_proc
    → IsSched (enter m n)
unfolding enter
enter-IsSched m n full none_runs lt = record {
  full = length-put_proc m n _ ∙ full;
  running_is_cur = λ i r. ground (arith, proc-enter m n i (omega arith), none_runs i);
  cur_in = λ i e. ground arith;
}

-- After the wake-ups the state is as it should be still.
pub wake-running : (now : ℕ) (p : Process) → is_running (wake now p).state ≡ is_running p.state
unfolding wake
wake-running now p = ground arith

pub wake_sleepers-IsSched : (m : Machine) → IsSched m → IsSched (wake_sleepers m)
unfolding wake_sleepers
wake_sleepers-IsSched m v = record {
  full = length-wake_all m.ticks m.table ∙ v.full;
  running_is_cur = λ i r.
      v.running_is_cur i (ground (arith, proc-wake_sleepers m i, wake-running m.ticks (proc m i)));
  cur_in = v.cur_in;
}

pub picked_in :
    (t : List Process) (cur skip : Option ℕ) (n : ℕ)
    → ((s : ℕ) → skip ≡ some s → s < max_proc)
    → RoundRobin t cur skip (some n)
    → (n < max_proc) × (ready_at t n ≡ true)
picked_in t cur skip n small (inl (d, lt, e, hit, _)) = (omega arith, ground arith)
picked_in t cur skip n small (inr (e, r, _)) = (small n e, r)
