-- ===== src/Sched/Made.antt =====
-- The results of `sched_spawn` and SYS_FORK in kernel/sched.cpp: what the new process is.
use cofeuos.Base.{ℕ, ◌<◌, ◌≡◌, ◌⊎◌, false, List, Option, none, some}
use cofeuos.Heap
use cofeuos.Sched.{Machine, ready, max_proc, proc, kstack_size}
use cofeuos.Sched.Space.{user_img_base}
use cofeuos.Sched.Life.{find_hole, copy_name}
use cofeuos.Sched.Alike.{Alike}
use cofeuos.Pmm.{Pmm}
use cofeuos.Sched.Tables.{OwnTables}
use cofeuos.Sched.Spares.{is_gone}
use cofeuos.Sched.Frames.{IsFrame, first_reg}

-- A process of machine `m` that may run for the first time: its name, the registers of its frame, and
-- its page tables, in frames that were free in `q`.
pub record NewProcess (q : Pmm) (pid : ℕ) (name : List ℕ) (regs : ℕ → ℕ) (m : Machine) (i : ℕ)
    : Type 0 where
  pub inside : i < max_proc
  pub pid_is : (proc m i).pid ≡ pid
  pub name_is : (proc m i).name ≡ name
  pub state_is : (proc m i).state ≡ ready
  pub frame : IsFrame (proc m i).kstack regs (m, (proc m i).ctx)
  pub space : OwnTables q (proc m i)

-- Why there can be no new process: every entry has one that has not ended, or the heap has no kernel
-- stack, or there are fewer than four free frames, once an entry has been found.
abbrev pub Lacks : Machine → Type 0
Lacks m =
    ((j : ℕ) → j < max_proc → is_gone (proc m j).state ≡ false)
    ⊎ ((Heap.kmalloc (find_hole m).0.heap kstack_size).1 ≡ 0)
    ⊎ ((find_hole m).0.pmm.free_frames < 4)

-- How a spawn ends.
abbrev pub Spawned : Machine → List ℕ → Machine × Option ℕ → Type 0
Spawned m name (m', none) = Lacks m
Spawned m name (m', some pid) =
    (i : ℕ) × NewProcess (find_hole m).0.pmm pid (copy_name name) (first_reg user_img_base) m' i
