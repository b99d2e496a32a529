-- ===== src/Sched/Births.antt =====
-- `sched_spawn` and SYS_FORK of kernel/sched.cpp: new processes enter the table.
use cofeuos.Base.{
  ==→eq, ℕ, zero, suc, ◌<◌, ◌≡◌, refl, ap, ◌∙◌, subst, ◌≢◌, inl, inr, true, false, ◌||◌, not, List,
  [], ◌∷◌, Option, none, some, arith, ◌==◌, if◌then◌else◌, get_or, length, Bool-cases,
}
use cofeuos.Heap
use cofeuos.Sched.{
  Process, Machine, empty, ready, is_empty, is_running, max_proc, proc, put_proc, find_by_pid,
  has_pid, zeroed, pid_alloc, kstack_size,
}
use cofeuos.Sched.Space.{vm_new, user_img_base}
use cofeuos.Sched.Life.{
  with_pid, with_slot, find_hole, spawn_in, spawn, fork_in, fork_result, sys_fork, give_up,
  copy_name, initial_context, fork_context, copy_stack,
}
use cofeuos.Sched.Procs.{proc-put_proc}
use cofeuos.Sched.Pid.{FreshPid, pid_alloc_lem}
use cofeuos.Sched.Table.{IsTable, live, alike-IsTable, put_empty-IsTable, put_new-IsTable}
use cofeuos.Sched.Alike.{
  Alike, chain, vm_new-Alike, initial_context-Alike, fork_context-Alike, copy_stack-Alike,
}
use cofeuos.Sched.Found.{FoundEntry, find_entry-FoundEntry, vm_new-Named}
use cofeuos.Sched.Holes.{Hole, find_hole-Hole}

live_below :
    (t : List Process) (j : ℕ) → not (is_empty (get_or t j zeroed).state) ≡ true → j < length t
live_below [] j l = absurd (cc)
live_below (p ∷ ps) zero l = omega arith
live_below (p ∷ ps) (suc j) l = omega (arith, live_below ps j l)

-- No process has the PID.
pub record Unborn (m : Machine) (pid : ℕ) : Type 0 where
  pub positive : 0 < pid
  pub unused : (j : ℕ) → live m j ≡ true → (proc m j).pid ≢ pid

pub FreshPid-Unborn : (m : Machine) (pid : ℕ) → FreshPid m.table pid → Unborn m pid
unfolding find_by_pid
FreshPid-Unborn m pid f =
    let miss : FoundEntry (has_pid pid) m.table none =
      subst (FoundEntry (has_pid pid) m.table) f.unused
        (find_entry-FoundEntry (has_pid pid) m.table) in
    record {
      positive = f.positive;
      unused = λ j l e. ground (arith, miss j (live_below m.table j l));
    }

-- What holds when an entry, a kernel stack and a PID have been found.
pub record Ready (m : Machine) (i pid : ℕ) : Type 0 where
  pub table : IsTable m
  pub inside : i < max_proc
  pub hole : is_empty (proc m i).state ≡ true
  pub unborn : Unborn m pid

-- With the kernel stack taken.
abbrev pub kept_for : Machine → Machine
kept_for m = record m { heap = (Heap.kmalloc m.heap kstack_size).0 }

-- What holds of the machine if no entry, stack or PID is found, and after `build`, holds in the end.
pub with_slot_ends :
    {A : Type 0}
    → (P : Machine × Option A → Type 0) (r : Machine × Option ℕ)
      (build : Machine → ℕ → ℕ → ℕ → Machine × Option A)
    → Hole r
    → (r.1 ≡ none → P (r.0, none))
    → ((Heap.kmalloc r.0.heap kstack_size).1 ≡ 0 → P (kept_for r.0, none))
    → ((i k pid : ℕ) → Ready (kept_for r.0) i pid → P (build (kept_for r.0) i k pid))
    → P (with_slot r build)
with_slot_ends P (m, none) build t here kept born = here refl
with_slot_ends P (m, some i) build (t, lt, hole) here kept born =
    elim (Bool-cases ((Heap.kmalloc m.heap kstack_size).1 == 0)) [
      | inl full ↦ rw full (kept (==→eq (Heap.kmalloc m.heap kstack_size).1 0 full))
      | inr got ↦ rw got (go (pid_alloc_lem m.table (omega (arith, t.sched.full))))
    ]
  where
    go :
        (p : ℕ) × (pid_alloc m.table ≡ some p) × FreshPid m.table p
        → P (
            with_pid
              (kept_for m)
              (Heap.kmalloc m.heap kstack_size).1
              (pid_alloc m.table)
              (λ n. build n i))
    go (p, e, f) = rw e (
        born i (Heap.kmalloc m.heap kstack_size).1 p (record {
          table = alike-IsTable m (kept_for m) refl refl t;
          inside = lt;
          hole = hole;
          unborn = FreshPid-Unborn (kept_for m) p f;
        }))

Hole-IsTable : (r : Machine × Option ℕ) → Hole r → IsTable r.0
Hole-IsTable (m, none) t = t
Hole-IsTable (m, some i) (t, _, _) = t

with_slot-IsTable :
    {A : Type 0}
    → (r : Machine × Option ℕ) (build : Machine → ℕ → ℕ → ℕ → Machine × Option A) → Hole r
    → ((m : Machine) (i k pid : ℕ) → Ready m i pid → IsTable (build m i k pid).0)
    → IsTable (with_slot r build).0
with_slot-IsTable r build h born =
    let t = Hole-IsTable r h in
    with_slot_ends (λ x. IsTable x.0) r build h (λ e. t)
      (λ e. alike-IsTable r.0 (kept_for r.0) refl refl t) (born (kept_for r.0))

-- The new process in its entry, whose PID nobody else has.
born-IsTable :
    (m mid : Machine) (i pid : ℕ) (fresh p : Process)
    → Ready m i pid
    → is_empty fresh.state ≡ true
    → is_running fresh.state ≡ false
    → Alike (put_proc m i fresh) mid
    → p.pid ≡ pid
    → is_running p.state ≡ false
    → IsTable (put_proc mid i p)
born-IsTable m mid i pid fresh p r hollow still (et, ec) e idle =
    let t = put_empty-IsTable m i fresh r.table r.inside hollow still in
    let t' = alike-IsTable (put_proc m i fresh) mid et ec t in
    put_new-IsTable mid i p t' r.inside idle (rw e r.unborn.positive) (λ j l same.
      let at : proc mid j ≡ (if i == j then fresh else proc m j) =
        ap (λ t. get_or t j zeroed) et
        ∙ proc-put_proc m i j fresh (omega (arith, r.inside, r.table.sched.full)) in
      ground (arith, at, r.unborn.unused j))

give_up-IsTable :
    (m : Machine) (i : ℕ) (p : Process) → IsTable m → i < max_proc → IsTable (give_up m i p)
give_up-IsTable m i p t lt =
    let p' = record p { state = empty; pid = 0 } in
    alike-IsTable (put_proc m i p') (give_up m i p) refl refl
      (put_empty-IsTable m i p' t lt refl refl)

spawn_in-IsTable :
    (name : List ℕ) (m : Machine) (i k pid : ℕ)
    → Ready m i pid
    → IsTable (spawn_in name m i k pid).0
unfolding spawn_in
spawn_in-IsTable name m i k pid r =
    let fresh = record zeroed { pid = pid; kstack = k; name = copy_name name } in
    let m0 = put_proc m i fresh in
    let m1 = (vm_new m0 fresh).0 in
    let p1 = (vm_new m0 fresh).1 in
    let m2 = (initial_context m1 k user_img_base).0 in
    let ctx = (initial_context m1 k user_img_base).1 in
    let new = vm_new-Alike m0 fresh in
    let empty' = put_empty-IsTable m i fresh r.table r.inside refl refl in
    let failed = give_up-IsTable m1 i p1 (alike-IsTable m0 m1 (new.0) (new.1) empty') r.inside in
    let made =
      born-IsTable m m2 i pid fresh (record p1 { start_tick = m.ticks; ctx = ctx; state = ready }) r
        refl refl (chain m0 m1 m2 new (initial_context-Alike m1 k user_img_base))
        (vm_new-Named m0 fresh).0 refl in
    elim (Bool-cases (p1.cr3 == 0)) [ inl e ↦ rw e failed | inr e ↦ rw e made ]

pub spawn-IsTable : (m : Machine) (name : List ℕ) → IsTable m → IsTable (spawn m name).0
unfolding spawn
spawn-IsTable m name t =
    with_slot-IsTable (find_hole m) (spawn_in name) (find_hole-Hole m t) (spawn_in-IsTable name)

fork_in-IsTable :
    (c pr : ℕ) (m : Machine) (i k pid : ℕ) → Ready m i pid → IsTable (fork_in c pr m i k pid).0
unfolding fork_in
fork_in-IsTable c pr m i k pid r =
    let fresh = record zeroed { pid = pid; kstack = k; name = (proc m c).name } in
    let m0 = put_proc m i fresh in
    let m1 = (vm_new m0 fresh).0 in
    let p1 = (vm_new m0 fresh).1 in
    let m2 = copy_stack (proc m1 c).stk_pages p1.stk_pages m1 in
    let m3 = (fork_context m2 k pr).0 in
    let ctx = (fork_context m2 k pr).1 in
    let new = vm_new-Alike m0 fresh in
    let empty' = put_empty-IsTable m i fresh r.table r.inside refl refl in
    let failed = give_up-IsTable m1 i p1 (alike-IsTable m0 m1 (new.0) (new.1) empty') r.inside in
    let made =
      born-IsTable m m3 i pid fresh (record p1 { ctx = ctx; state = ready }) r refl refl
        (chain m0 m1 m3 new (
          chain m1 m2 m3 (copy_stack-Alike (proc m1 c).stk_pages p1.stk_pages m1)
            (fork_context-Alike m2 k pr)))
        (vm_new-Named m0 fresh).0 refl in
    elim (Bool-cases (p1.cr3 == 0)) [ inl e ↦ rw e failed | inr e ↦ rw e made ]

fork_result-IsTable :
    (ctx : ℕ) (m : Machine) (o : Option (Option ℕ)) → IsTable m → IsTable (fork_result ctx (m, o))
fork_result-IsTable ctx m none t = alike-IsTable m _ refl refl t
fork_result-IsTable ctx m (some none) t = t
fork_result-IsTable ctx m (some (some pid)) t = alike-IsTable m _ refl refl t

pub sys_fork-IsTable : (m : Machine) (c ctx : ℕ) → IsTable m → IsTable (sys_fork m c ctx).0
unfolding sys_fork
sys_fork-IsTable m c ctx t =
    let forked = with_slot (find_hole m) (fork_in c ctx) in
    let ok =
      with_slot-IsTable (find_hole m) (fork_in c ctx) (find_hole-Hole m t)
        (fork_in-IsTable c ctx) in
    let done = fork_result-IsTable ctx forked.0 forked.1 ok in
    elim (Bool-cases ((proc m c).cr3 == 0 || m.img_pages == 0)) [
      | inl e ↦ rw e (alike-IsTable m _ refl refl t)
      | inr e ↦ rw e done
    ]
