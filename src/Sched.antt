-- ===== src/Sched.antt =====
-- kernel/sched.cpp: the process table, its scans, and the state that the scheduler shares with the
-- frame manager, the heap and the timer.
pub mod Space
pub mod Switch
pub mod Life
pub mod Pid
pub mod Pick
pub mod Procs
pub mod Running
pub mod Resched
pub mod Turns
pub mod Window
pub mod Table
pub mod Kept
pub mod Alike
pub mod Found
pub mod Births
pub mod Start
pub mod Spares
pub mod Ordered
pub mod Steps
pub mod Frames
pub mod Enough
pub mod Tables
pub mod Made
pub mod Ends
pub mod Holes
mod Tests
use cofeuos.Base.{
  ℕ, zero, suc, ◌+◌, ◌-◌, ◌*◌, ◌/◌, ◌%◌, ◌^◌, ◌≡◌, Bool, true, false, not, ◌&&◌, ◌||◌, List, [],
  ◌∷◌, Option, none, some, ltb, leb, ◌==◌, if◌then◌else◌, length, get_or, set, replicate,
}
use cofeuos.Pmm.{Pmm}
use cofeuos.Heap.{Heap}

-- P_EMPTY, P_READY, P_RUNNING, P_SLEEPING, P_ZOMBIE
pub data PState : Type 0 where
  empty ready running sleeping zombie : PState

abbrev pub is_empty : PState → Bool
is_empty empty = true
is_empty _ = false

abbrev pub is_ready : PState → Bool
is_ready ready = true
is_ready _ = false

abbrev pub is_running : PState → Bool
is_running running = true
is_running _ = false

abbrev pub is_sleeping : PState → Bool
is_sleeping sleeping = true
is_sleeping _ = false

abbrev pub is_zombie : PState → Bool
is_zombie zombie = true
is_zombie _ = false

abbrev pub max_proc : ℕ
max_proc = 32

abbrev pub kstack_size : ℕ
kstack_size = 8192

abbrev pub user_stack_pages : ℕ
user_stack_pages = 4

abbrev pub user_code_max_pages : ℕ
user_code_max_pages = 256

pub record Process : Type 0 where
  pub pid : ℕ
  pub name : List ℕ
  pub state : PState
  pub ctx : ℕ
  pub kstack : ℕ
  pub cr3 : ℕ
  pub pml4 : ℕ
  pub pdpt : ℕ
  pub pd : ℕ
  pub pt : ℕ
  pub stk_pages : List ℕ
  pub user_code_pages : ℕ
  pub code_frames : List ℕ
  pub waketick : ℕ
  pub preempts : ℕ
  pub exitcode : ℕ
  pub start_tick : ℕ

-- What `memset(&p, 0, sizeof(p))` leaves.
abbrev pub zeroed : Process
zeroed = record {
  pid = 0;
  name = replicate 15 0;
  state = empty;
  ctx = 0;
  kstack = 0;
  cr3 = 0;
  pml4 = 0;
  pdpt = 0;
  pd = 0;
  pt = 0;
  stk_pages = replicate user_stack_pages 0;
  user_code_pages = 0;
  code_frames = replicate user_code_max_pages 0;
  waketick = 0;
  preempts = 0;
  exitcode = 0;
  start_tick = 0;
}

-- The file's variables, where `cur` is the number `cur_idx` of the current process or none; the
-- timer's ticks, the page directory of kernel/mmio.cpp, the frame manager and the heap; of the machine
-- the 64-bit word at every address, CR3, and the kernel stack of the task state segment.
pub record Machine : Type 0 where
  pub table : List Process
  pub cur : Option ℕ
  pub kernel_ctx : ℕ
  pub kernel_ctx_valid : Bool
  pub sched_ready : Bool
  pub img_frames : List ℕ
  pub img_pages : ℕ
  pub ticks : ℕ
  pub shared_pd : ℕ
  pub pmm : Pmm
  pub heap : Heap
  pub mem : ℕ → ℕ
  pub cr3_loaded : ℕ
  pub rsp0 : ℕ

abbrev pub proc : Machine → ℕ → Process
proc m i = get_or m.table i zeroed

abbrev pub put_proc : Machine → ℕ → Process → Machine
put_proc m i p = record m { table = set m.table i p }

-- The first entry from number `i` on that passes the test.
pub find_entry : (Process → Bool) → List Process → ℕ → Option ℕ
find_entry keep [] i = none
find_entry keep (p ∷ ps) i =
    let rest = find_entry keep ps (i + 1) in if keep p then some i else rest

abbrev pub has_pid : ℕ → Process → Bool
has_pid pid p = not (is_empty p.state) && p.pid == pid

pub find_by_pid : List Process → ℕ → Option ℕ
find_by_pid table pid = find_entry (has_pid pid) table 0

-- The inner loop of `pid_alloc`.
pub pid_used : List Process → ℕ → Bool
pid_used [] p = false
pid_used (q ∷ qs) p = if has_pid p q then true else pid_used qs p

-- The outer loop, with the rounds left.
pub pid_scan : List Process → ℕ → ℕ → Option ℕ
pid_scan table zero p = none
pid_scan table (suc k) p =
    let next = pid_scan table k (p + 1) in if pid_used table p then next else some p

pub pid_alloc : List Process → Option ℕ
pid_alloc table = pid_scan table 0xffff 1

-- One round of `wake_sleepers`.
pub wake : ℕ → Process → Process
wake now p = if is_sleeping p.state && leb p.waketick now then record p { state = ready } else p

pub wake_all : ℕ → List Process → List Process
wake_all now [] = []
wake_all now (p ∷ ps) = wake now p ∷ wake_all now ps

pub wake_sleepers : Machine → Machine
wake_sleepers m = record m { table = wake_all m.ticks m.table }

abbrev pub is_skipped : Option ℕ → ℕ → Bool
is_skipped none i = false
is_skipped (some s) i = s == i

-- The loop of `pick_ready`, with the rounds left; the next entry is number `j % 32`.
pub pick_scan : List Process → Option ℕ → ℕ → ℕ → Option ℕ
pick_scan table skip zero j = none
pick_scan table skip (suc k) j =
    let next = pick_scan table skip k (j + 1) in
    let i = j % max_proc in
    if is_ready (get_or table i zeroed).state && not (is_skipped skip i) then some i else next

-- `cur_idx + 1`, where `cur_idx` is -1 if no process is current.
abbrev pub after_cur : Option ℕ → ℕ
after_cur none = 0
after_cur (some i) = i + 1

abbrev pub fall_back : List Process → Option ℕ → Option ℕ
fall_back table none = none
fall_back table (some s) = if is_ready (get_or table s zeroed).state then some s else none

abbrev pub or_else : Option ℕ → Option ℕ → Option ℕ
or_else (some i) other = some i
or_else none other = other

pub pick_ready : List Process → Option ℕ → Option ℕ → Option ℕ
pick_ready table cur skip =
    or_else (pick_scan table skip max_proc (after_cur cur)) (fall_back table skip)

-- `sched_count`
pub count_live : List Process → ℕ
count_live [] = 0
count_live (p ∷ ps) = (if is_empty p.state || is_zombie p.state then 0 else 1) + count_live ps
