-- ===== src/Sched/Switch.antt =====
-- `sched_reschedule` of kernel/sched.cpp, and the system calls that end in it.
use cofeuos.Base.{
  ℕ, ◌+◌, ◌*◌, ◌/◌, ◌%◌, Bool, true, false, Option, none, some, ◌==◌, if◌then◌else◌, add64, u32_mod,
}
use cofeuos.Sched.{
  Machine, ready, running, sleeping, zombie, is_running, kstack_size, proc, put_proc, wake_sleepers,
  pick_ready,
}
use cofeuos.Sched.Space.{store}

abbrev pub boot_pml4 : ℕ
boot_pml4 = 0x70000

-- The process that runs from now on: its kernel stack and its page tables are put in place.
unfoldable pub enter : Machine → ℕ → Machine
enter m n =
    let p = record (proc m n) { state = running } in
    record (put_proc m n p) { cur = some n; rsp0 = add64 p.kstack kstack_size; cr3_loaded = p.cr3 }

-- From the kernel's own thread of control: whether processes may run, and what `pick_ready` gave.
unfoldable pub start_first : Machine → ℕ → Bool → Option ℕ → Machine × ℕ
start_first m ctx false next = (m, ctx)
start_first m ctx true none = (m, ctx)
start_first m ctx true (some n) =
    let p = proc m n in
    let counted = put_proc m n (record p { preempts = add64 p.preempts 1 }) in
    (enter (record counted { kernel_ctx = ctx; kernel_ctx_valid = true }) n, p.ctx)

unfoldable pub from_kernel : Machine → ℕ → Machine × ℕ
from_kernel m ctx = start_first m ctx m.sched_ready (pick_ready m.table none none)

-- The process that was running may be chosen again, and counts the switch.
unfoldable pub set_aside : Machine → ℕ → Machine
set_aside m s =
    let self = proc m s in
    put_proc m s (record self {
      state = if is_running self.state then ready else self.state;
      preempts = add64 self.preempts 1;
    })

unfoldable pub to_kernel : Machine → ℕ → Machine × ℕ
to_kernel m ctx = (
  record m { cur = none; cr3_loaded = boot_pml4 },
  if m.kernel_ctx_valid then m.kernel_ctx else ctx,
)

unfoldable pub save_ctx : Machine → ℕ → ℕ → Machine
save_ctx m s ctx = put_proc m s (record (proc m s) { ctx = ctx })

-- From process `s`, with what `set_aside` left.
unfoldable pub from_process : Machine → ℕ → ℕ → Option ℕ → Machine × ℕ
from_process m s ctx none = to_kernel m ctx
from_process m s ctx (some n) = let saved = save_ctx m s ctx in (enter saved n, (proc saved n).ctx)

-- What `pick_ready` is told to leave for the end.
abbrev pub skip_of : Machine → ℕ → Option ℕ
skip_of m s = if is_running (proc m s).state then some s else none

unfoldable pub dispatch : Machine → ℕ → Option ℕ → Machine × ℕ
dispatch m ctx none = from_kernel m ctx
dispatch m ctx (some s) =
    let aside = set_aside m s in
    from_process aside s ctx (pick_ready aside.table (some s) (skip_of m s))

unfoldable pub reschedule : Machine → ℕ → Machine × ℕ
reschedule m ctx = dispatch (wake_sleepers m) ctx m.cur

-- `sched_tick`
unfoldable pub tick : Machine → ℕ → Machine × ℕ
tick m ctx = reschedule m ctx

-- The saved register number `i` of the frame at `ctx`.
abbrev pub reg : Machine → ℕ → ℕ → ℕ
reg m ctx i = m.mem (ctx + 8 * i)

abbrev pub off_rax : ℕ
off_rax = 14

abbrev pub set_rax : Machine → ℕ → ℕ → Machine
set_rax m ctx v = store m (ctx + 8 * off_rax) v

-- SYS_EXIT of process `c`.
unfoldable pub sys_exit : Machine → ℕ → ℕ → ℕ → Machine × ℕ
sys_exit m c a0 ctx =
    let ended = record (proc m c) { exitcode = a0 % u32_mod; state = zombie } in
    reschedule (set_rax (put_proc m c ended) ctx 0) ctx

-- SYS_SLEEP: `a0` milliseconds, at a hundred ticks a second.
unfoldable pub sys_sleep : Machine → ℕ → ℕ → ℕ → Machine × ℕ
sys_sleep m c a0 ctx =
    let asleep = record (proc m c) { state = sleeping; waketick = add64 m.ticks (a0 / 10) } in
    if a0 == 0 then (set_rax m ctx 0, ctx) else reschedule (set_rax (put_proc m c asleep) ctx 0) ctx

-- SYS_YIELD
unfoldable pub sys_yield : Machine → ℕ → Machine × ℕ
sys_yield m ctx = reschedule (set_rax m ctx 0) ctx

-- SYS_GETPID
unfoldable pub sys_getpid : Machine → ℕ → ℕ → Machine × ℕ
sys_getpid m c ctx = (set_rax m ctx (proc m c).pid, ctx)

-- SYS_GETTICKS
unfoldable pub sys_getticks : Machine → ℕ → Machine × ℕ
sys_getticks m ctx = (set_rax m ctx m.ticks, ctx)

-- `sched_userpf_kill`
unfoldable pub kill_faulting : Machine → ℕ → Option ℕ → Machine × ℕ
kill_faulting m ctx none = (m, ctx)
kill_faulting m ctx (some c) =
    reschedule (put_proc m c (record (proc m c) { exitcode = 128 + 14; state = zombie })) ctx

unfoldable pub userpf_kill : Machine → ℕ → Machine × ℕ
userpf_kill m ctx = kill_faulting m ctx m.cur
