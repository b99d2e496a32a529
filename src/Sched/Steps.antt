-- ===== src/Sched/Steps.antt =====
-- The calls of kernel/sched.cpp one after the other, from `sched_init` on.
use cofeuos.Base.{
  ℕ, zero, suc, ◌%◌, ◌^◌, ◌≡◌, refl, ◌∙◌, ◌≢◌, false, List, [], ◌∷◌, none, some, arith, length,
  get_or,
}
use cofeuos.Pmm.{Pmm}
use cofeuos.Heap.{Heap}
use cofeuos.Sched.{Process, Machine, empty, max_proc, zeroed}
use cofeuos.Sched.Switch.{
  tick, set_rax, sys_exit, sys_sleep, sys_yield, sys_getpid, sys_getticks, userpf_kill,
}
use cofeuos.Sched.Life.{spawn, sys_fork, wait, sys_wait, kill}
use cofeuos.Sched.Start.{Image, init, load_image, go, clear_table}
use cofeuos.Sched.Table.{IsTable, alike-IsTable}
use cofeuos.Sched.Spares.{spawn-Spares, sys_fork-Spares}
use cofeuos.Sched.Ordered.{
  IsOrdered, alike-IsOrdered, Spares-IsOrdered, reschedule-IsOrdered, sys_exit-IsOrdered,
  sys_sleep-IsOrdered, userpf_kill-IsOrdered, wait-IsOrdered, kill-IsOrdered,
}
use cofeuos.Sched.Births.{spawn-IsTable, sys_fork-IsTable}

-- A call of the scheduler, by an interrupt, by the current process or by the kernel, but for those
-- that load a program, or what the rest of the machine does to memory, frames, heap and clock in between.
pub data Step : Machine → Machine → Type 0 where
  ticks : (m : Machine) (ctx : ℕ) → Step m (tick m ctx).0
  exits : (m : Machine) (c a0 ctx : ℕ) → m.cur ≡ some c → Step m (sys_exit m c a0 ctx).0
  sleeps : (m : Machine) (c a0 ctx : ℕ) → m.cur ≡ some c → Step m (sys_sleep m c a0 ctx).0
  yields : (m : Machine) (ctx : ℕ) → Step m (sys_yield m ctx).0
  asks_pid : (m : Machine) (c ctx : ℕ) → m.cur ≡ some c → Step m (sys_getpid m c ctx).0
  asks_ticks : (m : Machine) (ctx : ℕ) → Step m (sys_getticks m ctx).0
  faults : (m : Machine) (ctx : ℕ) → Step m (userpf_kill m ctx).0
  forks : (m : Machine) (c ctx : ℕ) → m.cur ≡ some c → Step m (sys_fork m c ctx).0
  waits : (m : Machine) (a0 ctx : ℕ) → Step m (sys_wait m a0 ctx).0
  reaps : (m : Machine) (pid : ℕ) → Step m (wait m pid).0
  spawns : (m : Machine) (name : List ℕ) → Step m (spawn m name).0
  kills : (m : Machine) (pid : ℕ) → Step m (kill m pid).0
  opens : (m : Machine) → Step m (go m)
  runs :
      (m : Machine) (mem : ℕ → ℕ) (q : Pmm) (h : Heap) (now : ℕ)
      → Step m (record m { mem = mem; pmm = q; heap = h; ticks = now })

pub data Reachable : Machine → Type 0 where
  starts : (m : Machine) (image : Image) → length m.table ≡ max_proc → Reachable (init m image)
  next : (m m' : Machine) → Reachable m → Step m m' → Reachable m'

clear_table-empty : (t : List Process) (i : ℕ) → (get_or (clear_table t) i zeroed).state ≡ empty
unfolding clear_table
clear_table-empty [] i = refl
clear_table-empty (p ∷ ps) zero = refl
clear_table-empty (p ∷ ps) (suc i) = clear_table-empty ps i

length-clear_table : (t : List Process) → length (clear_table t) ≡ length t
unfolding clear_table
length-clear_table [] = refl
length-clear_table (p ∷ ps) = omega (arith, length-clear_table ps)

load_image-table : (m : Machine) (image : Image) → (load_image m image).table ≡ m.table
unfolding load_image
load_image-table m image = ground arith

load_image-cur : (m : Machine) (image : Image) → (load_image m image).cur ≡ m.cur
unfolding load_image
load_image-cur m image = ground arith

init-IsTable : (m : Machine) (image : Image) → length m.table ≡ max_proc → IsTable (init m image)
unfolding init
init-IsTable m image full =
    let blank = record m {
      table = clear_table m.table;
      cur = none;
      kernel_ctx = 0;
      kernel_ctx_valid = false;
      sched_ready = false;
    } in
    let none' = clear_table-empty m.table in
    alike-IsTable blank (load_image blank image) (load_image-table blank image)
      (load_image-cur blank image)
      (record {
        sched = record {
          full = length-clear_table m.table ∙ full;
          running_is_cur = λ i r. absurd (ground (arith, none' i));
          cur_in = λ i e. absurd (cc);
        };
        positive = λ i l. absurd (ground (arith, none' i));
        distinct = λ i j l l' e. absurd (ground (arith, none' i));
      })

cur-init : (m : Machine) (image : Image) (i : ℕ) → (init m image).cur ≢ some i
unfolding init
cur-init m image i e =
    let blank = record m {
      table = clear_table m.table;
      cur = none;
      kernel_ctx = 0;
      kernel_ctx_valid = false;
      sched_ready = false;
    } in
    let none' = load_image-cur blank image in absurd (cc)

Step-IsOrdered : (m m' : Machine) → Step m m' → IsOrdered m → IsOrdered m'
unfolding tick sys_yield sys_getpid sys_getticks sys_wait go
Step-IsOrdered m _ (ticks _ ctx) v = reschedule-IsOrdered m ctx v.table
Step-IsOrdered m _ (exits _ c a0 ctx e) v = sys_exit-IsOrdered m c a0 ctx v e
Step-IsOrdered m _ (sleeps _ c a0 ctx e) v = sys_sleep-IsOrdered m c a0 ctx v e
Step-IsOrdered m _ (yields _ ctx) v =
    reschedule-IsOrdered (set_rax m ctx 0) ctx (alike-IsTable m _ refl refl v.table)
Step-IsOrdered m _ (asks_pid _ c ctx e) v = alike-IsOrdered m _ refl refl v
Step-IsOrdered m _ (asks_ticks _ ctx) v = alike-IsOrdered m _ refl refl v
Step-IsOrdered m _ (faults _ ctx) v = userpf_kill-IsOrdered m ctx v
Step-IsOrdered m _ (forks _ c ctx e) v =
    Spares-IsOrdered m (sys_fork m c ctx).0 v (sys_fork-Spares m c ctx v.table)
      (sys_fork-IsTable m c ctx v.table)
Step-IsOrdered m _ (waits _ a0 ctx) v =
    alike-IsOrdered (wait m (a0 % 2 ^ 16)).0 _ refl refl (wait-IsOrdered m (a0 % 2 ^ 16) v)
Step-IsOrdered m _ (reaps _ pid) v = wait-IsOrdered m pid v
Step-IsOrdered m _ (spawns _ name) v =
    Spares-IsOrdered m (spawn m name).0 v (spawn-Spares m name v.table)
      (spawn-IsTable m name v.table)
Step-IsOrdered m _ (kills _ pid) v = kill-IsOrdered m pid v
Step-IsOrdered m _ (opens _) v = alike-IsOrdered m _ refl refl v
Step-IsOrdered m _ (runs _ mem q h now) v = alike-IsOrdered m _ refl refl v

-- After `sched_init` and any sequence of timer ticks, of the system calls to exit, sleep, yield, fork,
-- wait and ask for the PID or the time, of faults of a process, and of the kernel's calls to spawn, wait
-- for and kill processes and to let the switching begin, with any changes of memory, frames, heap and clock
-- in between, the table has its 32 entries, the current process is the only one in the running state,
-- and the processes have positive PIDs, no two the same. Loading a program (exec) is not among these
-- calls.
pub reachable-IsOrdered : (m : Machine) → Reachable m → IsOrdered m
reachable-IsOrdered _ (starts m image full) = record {
  table = init-IsTable m image full;
  current = λ i e. absurd (cur-init m image i e);
}
reachable-IsOrdered _ (next m m' r s) = Step-IsOrdered m m' s (reachable-IsOrdered m r)
