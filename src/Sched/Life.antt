-- ===== src/Sched/Life.antt =====
-- How processes of kernel/sched.cpp begin and end: spawn, fork, wait and kill.
use cofeuos.Base.{
  ℕ, zero, suc, ◌+◌, ◌-◌, ◌%◌, ◌^◌, Bool, true, false, ◌&&◌, ◌||◌, List, [], ◌∷◌, ◌++◌, Option,
  none, some, ltb, leb, ◌==◌, if◌then◌else◌, u64_mod, take, replicate, length,
}
use cofeuos.Heap
use cofeuos.Heap.{Heap}
use cofeuos.Sched.{
  Process, Machine, empty, ready, is_empty, is_zombie, zeroed, kstack_size, proc, put_proc,
  find_entry, find_by_pid, pid_alloc,
}
use cofeuos.Sched.Space.{store, vm_free, vm_new, user_img_base, user_stack_top}
use cofeuos.Sched.Switch.{reg, set_rax, off_rax}

abbrev free_stack : Heap → ℕ → Heap
free_stack h k = if k == 0 then h else Heap.kfree h k

-- The address space, the kernel stack and the entry of process `i` are given back.
unfoldable pub reap : Machine → ℕ → Machine
reap m i =
    let (p, q) = vm_free (proc m i) m.pmm in
    record (put_proc m i (record p { state = empty; pid = 0 })) {
      pmm = q;
      heap = free_stack m.heap p.kstack;
    }

abbrev pub reap_found : Machine → Option ℕ → Machine × Option ℕ
reap_found m none = (m, none)
reap_found m (some i) = (reap m i, some i)

abbrev pub hole_or_zombie : Machine → Option ℕ → Machine × Option ℕ
hole_or_zombie m (some i) = (m, some i)
hole_or_zombie m none = reap_found m (find_entry (λ p. is_zombie p.state) m.table 0)

-- The first empty entry, or else the first zombie's, which is reaped.
unfoldable pub find_hole : Machine → Machine × Option ℕ
find_hole m = hole_or_zombie m (find_entry (λ p. is_empty p.state) m.table 0)

-- Words pushed one after the other.
unfoldable pub push_all : Machine → ℕ → List ℕ → Machine × ℕ
push_all m sp [] = (m, sp)
push_all m sp (v ∷ vs) = push_all (store m (sp - 8) v) (sp - 8) vs

abbrev pub ucs : ℕ
ucs = 0x2b

abbrev pub uds : ℕ
uds = 0x23

-- `build_initial_context2`
unfoldable pub initial_context : Machine → ℕ → ℕ → Machine × ℕ
initial_context m kstack entry =
    push_all m (kstack + kstack_size)
      (uds ∷ user_stack_top ∷ 0x202 ∷ ucs ∷ entry ∷ 0 ∷ 0 ∷ replicate 15 0)

-- The general registers from number `i - 1` down to 0, with 0 for RAX.
unfoldable pub child_regs : Machine → ℕ → ℕ → List ℕ
child_regs m pr zero = []
child_regs m pr (suc i) = (if i == off_rax then 0 else reg m pr i) ∷ child_regs m pr i

-- `build_fork_context`, from the parent's frame at `pr`.
unfoldable pub fork_context : Machine → ℕ → ℕ → Machine × ℕ
fork_context m kstack pr = push_all m (kstack + kstack_size) (
    reg m pr 21
    ∷ reg m pr 20
    ∷ reg m pr 19
    ∷ reg m pr 18
    ∷ reg m pr 17
    ∷ 0
    ∷ 0
    ∷ child_regs m pr 15)

-- At most 14 bytes of a name, and zeros up to the 15th.
unfoldable pub copy_name : List ℕ → List ℕ
copy_name name = let short = take 14 name in short ++ replicate (15 - length short) 0

-- What `sched_spawn` and SYS_FORK have in common: an entry, a kernel stack and a PID, then `build`.
-- The value is the result of `build`, or none.
abbrev pub with_pid :
    {A : Type 0}
    → Machine
    → ℕ
    → Option ℕ
    → (Machine → ℕ → ℕ → Machine × Option A)
    → Machine × Option A
with_pid m k none build = (record m { heap = Heap.kfree m.heap k }, none)
with_pid m k (some pid) build = build m k pid

abbrev pub with_slot :
    {A : Type 0}
    → Machine × Option ℕ
    → (Machine → ℕ → ℕ → ℕ → Machine × Option A)
    → Machine × Option A
with_slot (m, none) build = (m, none)
with_slot (m, some i) build =
    let (h, k) = Heap.kmalloc m.heap kstack_size in
    let m' = record m { heap = h } in
    if k == 0 then (m', none) else with_pid m' k (pid_alloc m.table) (λ n. build n i)

abbrev pub give_up : Machine → ℕ → Process → Machine
give_up m i p = record (put_proc m i (record p { state = empty; pid = 0 })) {
  heap = Heap.kfree m.heap p.kstack;
}

-- The rest of `sched_spawn`, in entry `i` with kernel stack `k`.
unfoldable pub spawn_in : List ℕ → Machine → ℕ → ℕ → ℕ → Machine × Option ℕ
spawn_in name m i k pid =
    let fresh = record zeroed { pid = pid; kstack = k; name = copy_name name } in
    let (m1, p1) = vm_new (put_proc m i fresh) fresh in
    let (m2, ctx) = initial_context m1 k user_img_base in
    if p1.cr3 == 0
    then (give_up m1 i p1, none)
    else (put_proc m2 i (record p1 { start_tick = m.ticks; ctx = ctx; state = ready }), some pid)

unfoldable pub spawn : Machine → List ℕ → Machine × Option ℕ
spawn m name = with_slot (find_hole m) (spawn_in name)

-- The page at `src` copied to `dst`, word by word.
abbrev pub copy_page : (ℕ → ℕ) → ℕ → ℕ → ℕ → ℕ
copy_page mem dst src x = if leb dst x && ltb x (dst + 4096) then mem (src + (x - dst)) else mem x

unfoldable pub copy_stack : List ℕ → List ℕ → Machine → Machine
copy_stack [] ds m = m
copy_stack (s ∷ ss) [] m = m
copy_stack (s ∷ ss) (d ∷ ds) m =
    copy_stack ss ds (if s == 0 || d == 0 then m else record m { mem = copy_page m.mem d s })

-- The rest of SYS_FORK by process `c`, whose registers are at `r`: none in the value means that RAX is
-- written as it is after each of the earlier failures.
unfoldable pub fork_in : ℕ → ℕ → Machine → ℕ → ℕ → ℕ → Machine × Option (Option ℕ)
fork_in c r m i k pid =
    let fresh = record zeroed { pid = pid; kstack = k; name = (proc m c).name } in
    let (m1, p1) = vm_new (put_proc m i fresh) fresh in
    let m2 = copy_stack (proc m1 c).stk_pages p1.stk_pages m1 in
    let (m3, ctx) = fork_context m2 k r in
    if p1.cr3 == 0
    then (give_up m1 i p1, some none)
    else (put_proc m3 i (record p1 { ctx = ctx; state = ready }), some (some pid))

abbrev pub minus_one : ℕ
minus_one = u64_mod - 1

-- The failure of `vm_new` leaves RAX as it is.
abbrev pub fork_result : ℕ → Machine × Option (Option ℕ) → Machine
fork_result ctx (m, none) = set_rax m ctx minus_one
fork_result ctx (m, some none) = m
fork_result ctx (m, some (some pid)) = set_rax m ctx pid

-- SYS_FORK
unfoldable pub sys_fork : Machine → ℕ → ℕ → Machine × ℕ
sys_fork m c ctx =
    if (proc m c).cr3 == 0 || m.img_pages == 0
    then (set_rax m ctx minus_one, ctx)
    else (fork_result ctx (with_slot (find_hole m) (fork_in c ctx)), ctx)

-- The zombie that a wait for `want` finds, where 0 is any.
abbrev pub awaited : ℕ → Process → Bool
awaited want p = is_zombie p.state && (want == 0 || p.pid == want)

abbrev pub wait_found : Machine → Option ℕ → Machine × Option ℕ
wait_found m none = (m, none)
wait_found m (some i) = (reap m i, some (proc m i).exitcode)

-- `sched_wait`
unfoldable pub wait : Machine → ℕ → Machine × Option ℕ
wait m pid = wait_found m (find_entry (awaited pid) m.table 0)

abbrev pub or_minus_one : Option ℕ → ℕ
or_minus_one none = minus_one
or_minus_one (some v) = v

-- SYS_WAIT
unfoldable pub sys_wait : Machine → ℕ → ℕ → Machine × ℕ
sys_wait m a0 ctx =
    let (m', code) = wait m (a0 % 2 ^ 16) in (set_rax m' ctx (or_minus_one code), ctx)

abbrev pub is_current : Option ℕ → ℕ → Bool
is_current none i = false
is_current (some c) i = c == i

abbrev pub kill_found : Machine → Option ℕ → Machine × Bool
kill_found m none = (m, false)
kill_found m (some i) = if is_current m.cur i then (m, false) else (reap m i, true)

-- `sched_kill`
unfoldable pub kill : Machine → ℕ → Machine × Bool
kill m pid = kill_found m (find_by_pid m.table pid)
