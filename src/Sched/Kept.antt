-- ===== src/Sched/Kept.antt =====
-- What a switch in kernel/sched.cpp leaves of the process table.
use cofeuos.Base.{ℕ, ◌≡◌, refl, ◌∙◌, Bool, true, false, Option, none, some, arith, length, add64}
use cofeuos.Sched.{Machine, max_proc, proc, put_proc, wake, wake_sleepers, pick_ready}
use cofeuos.Sched.Pick.{RoundRobin, pick_ready_lem}
use cofeuos.Sched.Procs.{proc-put_proc, proc-wake_sleepers, length-put_proc}
use cofeuos.Sched.Switch.{
  start_first, from_kernel, set_aside, to_kernel, save_ctx, from_process, skip_of, dispatch,
  reschedule,
}
use cofeuos.Sched.Running.{IsSched, proc-enter, picked_in, wake_sleepers-IsSched}
use cofeuos.Sched.Resched.{proc-aside, proc-saved, length-saved, skip_in, reschedule_lem}
use cofeuos.Sched.Table.{IsTable, Keeps, Keeps-IsTable}

wake_sleepers-Keeps : (m : Machine) → Keeps m (wake_sleepers m)
unfolding wake
wake_sleepers-Keeps m i = ground (arith, proc-wake_sleepers m i)

start_first-Keeps :
    (m : Machine) (ctx : ℕ) (go : Bool) (o : Option ℕ)
    → IsSched m
    → RoundRobin m.table none none o
    → Keeps m (start_first m ctx go o).0
unfolding start_first
start_first-Keeps m ctx false o v f i = (refl, refl)
start_first-Keeps m ctx true none v f i = (refl, refl)
start_first-Keeps m ctx true (some n) v f i =
    let ok = picked_in m.table none none n (λ s e. absurd (cc)) f in
    let p = record (proc m n) { preempts = add64 (proc m n).preempts 1 } in
    let counted = record (put_proc m n p) { kernel_ctx = ctx; kernel_ctx_valid = true } in
    let len : length counted.table ≡ max_proc = length-put_proc m n p ∙ v.full in
    ground (
      arith,
      ok,
      proc-put_proc m n i p (omega (arith, v.full, ok)),
      proc-put_proc m n n p (omega (arith, v.full, ok)),
      proc-enter counted n i (omega (arith, len, ok)),
    )

from_process-Keeps :
    (m : Machine) (ctx s : ℕ) (o : Option ℕ) (v : IsSched m)
    → m.cur ≡ some s
    → RoundRobin (set_aside m s).table (some s) (skip_of m s) o
    → Keeps m (from_process (set_aside m s) s ctx o).0
unfolding from_process to_kernel
from_process-Keeps m ctx s none v e f i = ground (arith, proc-aside m ctx v s e i)
from_process-Keeps m ctx s (some n) v e f i =
    let ok = picked_in (set_aside m s).table (some s) (skip_of m s) n (skip_in m ctx v s e) f in
    let aside = proc-aside m ctx v s e in
    let saved = proc-saved m ctx v s e in
    ground (
      arith,
      ok,
      aside i,
      aside s,
      aside n,
      saved i,
      saved n,
      proc-enter (save_ctx (set_aside m s) s ctx) n i (omega (arith, ok, length-saved m ctx v s e)),
    )

dispatch-Keeps :
    (m : Machine) (ctx : ℕ) (c : Option ℕ) → IsSched m → m.cur ≡ c → Keeps m (dispatch m ctx c).0
unfolding dispatch from_kernel
dispatch-Keeps m ctx none v e =
    start_first-Keeps m ctx m.sched_ready (pick_ready m.table none none) v
      (pick_ready_lem m.table none none)
dispatch-Keeps m ctx (some s) v e =
    from_process-Keeps m ctx s (pick_ready (set_aside m s).table (some s) (skip_of m s)) v e
      (pick_ready_lem (set_aside m s).table (some s) (skip_of m s))

reschedule-Keeps : (m : Machine) (ctx : ℕ) → IsSched m → Keeps m (reschedule m ctx).0
unfolding reschedule wake_sleepers
reschedule-Keeps m ctx v i =
    let woken = wake_sleepers-Keeps m i in
    let d = dispatch-Keeps (wake_sleepers m) ctx m.cur (wake_sleepers-IsSched m v) refl i in
    (d.0 ∙ woken.0, d.1 ∙ woken.1)

pub reschedule-IsTable : (m : Machine) (ctx : ℕ) → IsTable m → IsTable (reschedule m ctx).0
reschedule-IsTable m ctx t =
    Keeps-IsTable m (reschedule m ctx).0 t (reschedule-Keeps m ctx t.sched)
      (reschedule_lem m ctx t.sched).0
