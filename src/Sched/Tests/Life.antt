-- ===== src/Sched/Tests/Life.antt =====
-- Runs of kernel/sched.cpp: processes that are made and ended.
use cofeuos.Base.{◌≡◌, refl, true, false, [], ◌∷◌, some, none, replicate}
use cofeuos.Bitmap.{test, byte_test, mark, byte_mark}
use cofeuos.Pmm.{Pmm, alloc_frame, scan_frame}
use cofeuos.Heap.{kmalloc, alloc_from, need_of, align8}
use cofeuos.Sched.{
  Machine, zombie, zeroed, put_proc, find_entry, find_by_pid, pid_alloc, pid_scan, pid_used,
}
use cofeuos.Sched.Tests.{second, three}
use cofeuos.Sched.Space.{
  alloc_zero_frame, alloc_tables, link_tables, map_pages, map_image, map_stack, vm_build, vm_new,
}
use cofeuos.Sched.Switch.{tick}
use cofeuos.Sched.Life.{
  find_hole, spawn_in, push_all, copy_name, wait, kill, spawn, initial_context, fork_context,
}
use cofeuos.Sched.Start.{Image, init, go}
use cofeuos.Sched.Ends.{Killed, kill_lem}
use cofeuos.Sched.Ordered.{IsOrdered}
use cofeuos.Sched.Steps.{Reachable, starts, next, ticks, spawns, opens, reachable-IsOrdered}
use cofeuos.Sched.Frames.{IsFrame, child_reg, fork_context_lem}

abbrev image : Image
image = record { size = 5000; word = λ a. 0x90 }

-- The kernel sets the scheduler up, spawns a process, lets processes run, and the timer ticks.
abbrev set_up : Machine
set_up = init (three 0) image

abbrev spawned : Machine
spawned = (spawn set_up (0x61 ∷ 0x62 ∷ [])).0

abbrev ticked : Machine
ticked = (tick (go spawned) 0x7f00).0

ticked-Reachable : Reachable ticked
ticked-Reachable =
    next (go spawned) ticked
      (next spawned (go spawned)
        (next set_up spawned (starts (three 0) image refl) (spawns set_up (0x61 ∷ 0x62 ∷ [])))
        (opens spawned))
      (ticks (go spawned) 0x7f00)

reachable-IsOrdered_example : IsOrdered ticked
reachable-IsOrdered_example = reachable-IsOrdered ticked ticked-Reachable

-- With the second process ended.
abbrev ended : Machine
ended = put_proc (three 0) 1 (record second { state = zombie; exitcode = 7 })

wait_runs : (wait ended 2).1 ≡ some 7
unfolding wait find_entry
wait_runs = refl

wait_other_fails : (wait ended 3).1 ≡ none
unfolding wait find_entry
wait_other_fails = refl

kill_runs : ((kill ended 3).1 ≡ true) × ((kill ended 1).1 ≡ false)
unfolding kill find_by_pid find_entry
kill_runs = (refl, refl)

kill_lem_example : Killed ended 3 (kill ended 3)
kill_lem_example = kill_lem ended 3

fork_context_lem_example :
    IsFrame 0x200000 (child_reg (three 0) 0x101f00) (fork_context (three 0) 0x200000 0x101f00)
fork_context_lem_example = fork_context_lem (three 0) 0x200000 0x101f00

-- No processes, eight free frames and a heap of 64 KiB.
abbrev eight : Pmm
eight = record {
  bits = 0 ∷ [];
  base = 0x10000;
  nframes = 8;
  free_frames = 8;
  ram_top = 0x18000;
  ram_kb = 96;
}

abbrev bare : Machine
bare = record (three 0) {
  table = replicate 32 zeroed;
  cur = none;
  pmm = eight;
  heap = record {
    arena_start = 0x20000;
    arena_size = 0x10000;
    heap_used = 0;
    free_list = 0x20000 ∷ [];
    size_at = λ a. 0x10000;
  };
}

spawn_runs : (spawn bare (0x61 ∷ [])).1 ≡ some 1
unfolding spawn find_hole find_entry pid_alloc pid_scan pid_used kmalloc alloc_from need_of align8
    spawn_in vm_new vm_build alloc_tables alloc_zero_frame alloc_frame scan_frame test byte_test
    mark byte_mark link_tables map_pages map_image map_stack initial_context push_all copy_name
spawn_runs = refl
