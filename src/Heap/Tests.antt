-- ===== src/Heap/Tests.antt =====
-- Runs of kernel/memory.cpp: an arena of 128 bytes, 40 free, then 24 handed out, then 64 free.
use cofeuos.Base.{ℕ, ◌+◌, ◌≤◌, ◌≡◌, refl, inr, [], ◌∷◌, arith, ◌==◌, if◌then◌else◌}
use cofeuos.Bitmap.{test, byte_test}
use cofeuos.Bitmap.Count.{free_below}
use cofeuos.Pmm.{Pmm}
use cofeuos.Pmm.Inv.{IsValid}
use cofeuos.Heap.{
  Heap, kmalloc, kfree, alloc_from, insert_keep_coalesced, below, from, merge_right, merge_left,
  in_arena, need_of,
}
use cofeuos.Heap.Blocks.{covers, bytes}
use cofeuos.Heap.Inv.{Inv}
use cofeuos.Heap.Calls.{Allocated, kmalloc_lem, kfree_lem, kfree-kmalloc}
use cofeuos.Heap.Leak.{kfree-kmalloc_loses}

abbrev sizes : ℕ → ℕ
sizes a = if a == 0x1000 then 40 else if a == 0x1028 then 24 else 64

abbrev small : Heap
small = record {
  arena_start = 0x1000;
  arena_size = 128;
  heap_used = 24;
  free_list = 0x1000 ∷ 0x1040 ∷ [];
  size_at = sizes;
}

small-Inv : Inv small (0x1028 ∷ [])
unfolding covers bytes
small-Inv = record {
  chain = omega arith;
  top = omega arith;
  held = omega arith;
  apart = λ x. ground arith;
  used = refl;
  room = omega arith;
}

-- The first block is too small for 40 bytes and their header; the second is split.
kmalloc_splits : (kmalloc small 16).1 ≡ 0x1010
unfolding kmalloc alloc_from need_of
kmalloc_splits = refl

kmalloc_refuses : kmalloc small 60 ≡ (small, 0)
unfolding kmalloc alloc_from need_of
kmalloc_refuses = refl

-- The freed block merges with both neighbours.
kfree_merges : (kfree small 0x1038).free_list ≡ 0x1000 ∷ []
unfolding kfree in_arena insert_keep_coalesced below from merge_right merge_left
kfree_merges = refl

kfree_size : (kfree small 0x1038).size_at 0x1000 ≡ 128
unfolding kfree in_arena insert_keep_coalesced below from merge_right merge_left
kfree_size = refl

kmalloc_lem_example : Allocated small (0x1028 ∷ []) 16 (kmalloc small 16)
kmalloc_lem_example = kmalloc_lem small-Inv 16 (omega arith)

kfree_lem_example : Inv (kfree small 0x1038) []
kfree_lem_example = (kfree_lem [] [] 0x1028 small-Inv).inv

kfree-kmalloc_example :
    bytes (kfree (kmalloc small 16).0 0x1010).size_at (kfree (kmalloc small 16).0 0x1010).free_list
    ≤ 104
unfolding kmalloc alloc_from need_of bytes
kfree-kmalloc_example = (kfree-kmalloc 16 small-Inv (omega arith) (omega arith)).2

-- 16 bytes take the whole block of 40, and 32 of them come back.
kfree-kmalloc_loses_example :
    bytes (kfree (kmalloc small 16).0 0x1010).size_at (kfree (kmalloc small 16).0 0x1010).free_list
      + 8
    ≡ 104
unfolding kmalloc alloc_from need_of bytes
kfree-kmalloc_loses_example =
    kfree-kmalloc_loses 16 0x1000 small-Inv (omega arith) refl (omega arith) (omega arith)

abbrev frames : Pmm
frames = record {
  bits = 5 ∷ [];
  base = 0x10000;
  nframes = 6;
  free_frames = 4;
  ram_top = 0x16000;
  ram_kb = 88;
}

frames-IsValid : IsValid frames
unfolding free_below test byte_test
frames-IsValid = record {
  aligned = refl;
  inside = omega arith;
  placed = inr (omega arith);
  covered = omega arith;
  bytes = omega arith;
  counted = refl;
}
