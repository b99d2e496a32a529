-- ===== src/Sched/Tests.antt =====
-- Runs of kernel/sched.cpp: process 1 runs, process 2 sleeps until tick 5, process 3 is ready.
mod Life
use cofeuos.Base.{
  ℕ, zero, suc, get_or, ◌+◌, ◌-◌, ◌≡◌, refl, ◌<◌, ◌≤◌, ◌≢◌, true, false, [], ◌∷◌, some, arith,
  replicate, u64_mod,
}
use cofeuos.Pmm.{blank}
use cofeuos.Heap.{Heap}
use cofeuos.Sched.{
  Process, Machine, ready, running, sleeping, is_running, is_ready, zeroed, proc, pid_used,
  pid_scan, pid_alloc, wake, wake_all, wake_sleepers, pick_scan, pick_ready, count_live,
}
use cofeuos.Sched.Space.{uaddr_ok, user_img_base, user_window_end}
use cofeuos.Sched.Switch.{enter, set_aside, save_ctx, from_process, dispatch, reschedule}
use cofeuos.Sched.Pick.{RoundRobin, pick_ready_lem}
use cofeuos.Sched.Running.{IsSched}
use cofeuos.Sched.Resched.{Outcome, reschedule_lem}
use cofeuos.Sched.Turns.{Switches, reschedule-Switches, reschedule_progress, reschedule_rotates}
use cofeuos.Sched.Window.{uaddr_ok-inside, uaddr_ok_wraps}

abbrev pub first : Process
first = record zeroed { pid = 1; state = running; cr3 = 0x5000; kstack = 0x100000; ctx = 0x101f00 }

abbrev pub second : Process
second = record zeroed { pid = 2; state = sleeping; waketick = 5 }

abbrev pub third : Process
third = record zeroed { pid = 3; state = ready; cr3 = 0x9000; kstack = 0x200000; ctx = 0x201f00 }

abbrev no_heap : Heap
no_heap = record {
  arena_start = 0;
  arena_size = 0;
  heap_used = 0;
  free_list = [];
  size_at = λ a. 0;
}

-- At tick `now`.
abbrev three : ℕ → Machine
three now = record {
  table = first ∷ second ∷ third ∷ replicate 29 zeroed;
  cur = some 0;
  kernel_ctx = 0x7f000;
  kernel_ctx_valid = true;
  sched_ready = true;
  img_frames = [];
  img_pages = 0;
  ticks = now;
  shared_pd = 0;
  pmm = blank;
  heap = no_heap;
  mem = λ a. 0;
  cr3_loaded = 0x5000;
  rsp0 = 0x102000;
}

pub three-IsSched : (now : ℕ) → IsSched (three now)
three-IsSched now = record {
  full = refl;
  running_is_cur = λ i r. only i r;
  cur_in = λ i e. ground arith;
}
  where
    idle : (k i : ℕ) → is_running (get_or (replicate k zeroed) i zeroed).state ≡ false
    idle zero i = refl
    idle (suc k) zero = refl
    idle (suc k) (suc i) = idle k i

    only : (i : ℕ) → is_running (proc (three now) i).state ≡ true → some 0 ≡ some i
    only zero r = refl
    only (suc zero) r = absurd (cc)
    only (suc (suc zero)) r = absurd (cc)
    only (suc (suc (suc i))) r = absurd (ground (arith, idle 29 i))

pid_alloc_runs : pid_alloc (three 0).table ≡ some 4
unfolding pid_alloc pid_scan pid_used
pid_alloc_runs = refl

count_live_runs : count_live (three 0).table ≡ 3
unfolding count_live
count_live_runs = refl

-- Before tick 5 the third process is next, from then on the second.
reschedule_runs :
    ((reschedule (three 0) 0x101e00).0.cur ≡ some 2)
    × ((reschedule (three 5) 0x101e00).0.cur ≡ some 1)
unfolding reschedule dispatch from_process set_aside save_ctx enter wake_sleepers wake_all wake
    pick_ready pick_scan
reschedule_runs = (refl, refl)

pick_ready_lem_example :
    RoundRobin (three 0).table (some 0) (some 0) (pick_ready (three 0).table (some 0) (some 0))
pick_ready_lem_example = pick_ready_lem (three 0).table (some 0) (some 0)

reschedule_lem_example : Outcome (three 5) (reschedule (three 5) 0x101e00)
reschedule_lem_example = reschedule_lem (three 5) 0x101e00 (three-IsSched 5)

reschedule-Switches_example :
    Switches (wake_sleepers (three 5)) 0x101e00 0 1 (reschedule (three 5) 0x101e00)
reschedule-Switches_example =
    reschedule-Switches (three 5) 0x101e00 0 1 (three-IsSched 5) refl reschedule_runs.1

second_wakes : is_ready (wake 5 (proc (three 5) 1)).state ≡ true
unfolding wake
second_wakes = refl

reschedule_rotates_example : (n : ℕ) × ((reschedule (three 5) 0x101e00).0.cur ≡ some n) × (n ≢ 0)
reschedule_rotates_example =
    reschedule_rotates (three 5) 0x101e00 0 1 (three-IsSched 5) refl refl (omega arith)
      (λ e. ground arith) second_wakes

passes : uaddr_ok 0x40010000 100 ≡ true
unfolding uaddr_ok
passes = refl

uaddr_ok-inside_example : (user_img_base ≤ 0x40010000 + 99) × (0x40010000 + 99 < user_window_end)
uaddr_ok-inside_example = uaddr_ok-inside 0x40010000 100 99 (omega arith) passes (omega arith)

uaddr_ok_wraps_example : (uaddr_ok (u64_mod - 8) 100 ≡ true) × (user_window_end < u64_mod - 8)
uaddr_ok_wraps_example = uaddr_ok_wraps 100 8 (omega arith) (omega arith) (omega arith)
