-- ===== src/Sched/Enough.antt =====
-- What a new process needs in kernel/sched.cpp: an entry of the table and frames.
use cofeuos.Base.{
  ℕ, zero, suc, ◌+◌, ◌*◌, ◌<◌, ◌≤◌, ◌≡◌, refl, sym, ◌∙◌, ◌≢◌, inl, inr, false, List, Option, none,
  some, arith, ◌==◌, if◌then◌else◌, ltb, get_or, set, bit_or, ==→ne, ne→==,
}
use cofeuos.Bitmap.Count.{free_below-full}
use cofeuos.Pmm
use cofeuos.Pmm.{Pmm}
use cofeuos.Pmm.Inv.{IsValid}
use cofeuos.Pmm.Alloc.{OneFrame, alloc_frame_lem}
use cofeuos.Sched.Table.{IsTable}
use cofeuos.Sched.Life.{reap_found, hole_or_zombie, find_hole}
use cofeuos.Sched.Found.{FoundEntry, find_entry-FoundEntry}
use cofeuos.Sched.Spares.{is_gone}
use cofeuos.Sched.{
  is_empty, is_zombie, max_proc, proc, find_entry, Process, Machine, user_stack_pages,
  user_code_max_pages,
}
use cofeuos.Sched.Space.{
  alloc_zero_frame, store, map_code, map_stack, stack_index, alloc_tables, link_tables, map_pages,
  vm_build, vm_new, lacks_table,
}

-- A frame was handed out.
record Gets (m : Machine) (r : Machine × ℕ) : Type 0 where
  pub nonzero : r.1 ≢ 0
  pub valid : IsValid r.0.pmm
  pub left : r.0.pmm.free_frames + 1 ≡ m.pmm.free_frames

alloc_frame-some :
    (q : Pmm)
    → IsValid q
    → 0 < q.free_frames
    → ((Pmm.alloc_frame q).1 ≢ 0)
      × IsValid (Pmm.alloc_frame q).0
      × ((Pmm.alloc_frame q).0.free_frames + 1 ≡ q.free_frames)
alloc_frame-some q v pos = go (alloc_frame_lem v)
  where
    go :
        OneFrame q (Pmm.alloc_frame q)
        → ((Pmm.alloc_frame q).1 ≢ 0)
          × IsValid (Pmm.alloc_frame q).0
          × ((Pmm.alloc_frame q).0.free_frames + 1 ≡ q.free_frames)
    go (inl (e, all)) = absurd (
        omega (
          arith,
          v.counted,
          free_below-full q.bits q.nframes (λ j lt. all j (omega arith) (omega arith)),
        ))
    go (inr (i, g, _)) = (g.nonzero, g.valid, g.counted)

alloc_zero_frame-Gets :
    (m : Machine) → IsValid m.pmm → 0 < m.pmm.free_frames → Gets m (alloc_zero_frame m)
unfolding alloc_zero_frame
alloc_zero_frame-Gets m v pos =
    let (ne, ok, left) = alloc_frame-some m.pmm v pos in
    rw (ne→== (Pmm.alloc_frame m.pmm).1 0 ne) (record { nonzero = ne; valid = ok; left = left })

alloc_tables-some :
    (m : Machine) (p : Process)
    → IsValid m.pmm
    → 4 ≤ m.pmm.free_frames
    → lacks_table (alloc_tables m p).1 ≡ false
unfolding alloc_tables
alloc_tables-some m p v four =
    let ma = (alloc_zero_frame m).0 in
    let mb = (alloc_zero_frame ma).0 in
    let mc = (alloc_zero_frame mb).0 in
    let a = alloc_zero_frame-Gets m v (omega arith) in
    let b = alloc_zero_frame-Gets ma a.valid (omega (arith, a.left)) in
    let c = alloc_zero_frame-Gets mb b.valid (omega (arith, a.left, b.left)) in
    let d = alloc_zero_frame-Gets mc c.valid (omega (arith, a.left, b.left, c.left)) in
    rw
      (
        ne→== (alloc_zero_frame m).1 0 a.nonzero,
        ne→== (alloc_zero_frame ma).1 0 b.nonzero,
        ne→== (alloc_zero_frame mb).1 0 c.nonzero,
        ne→== (alloc_zero_frame mc).1 0 d.nonzero,
      )
      refl

map_code-pml4 :
    (k i : ℕ) (fs : List ℕ) (m : Machine) (p : Process) → (map_code k i fs m p).1.pml4 ≡ p.pml4
unfolding map_code
map_code-pml4 zero i fs m p = refl
map_code-pml4 (suc k) i fs m p =
    map_code-pml4 k (i + 1) fs (store m (p.pt + 8 * i) (bit_or (get_or fs i 0) 5))
      (record p { code_frames = set p.code_frames i (get_or fs i 0) })

map_stack-pml4 : (left k : ℕ) (m : Machine) (p : Process) → (map_stack left k m p).1.pml4 ≡ p.pml4
unfolding map_stack
map_stack-pml4 zero k m p = refl
map_stack-pml4 (suc left) k m p = ground (
  arith,
  map_stack-pml4 left (k + 1)
      (store (alloc_zero_frame m).0 (p.pt + 8 * stack_index k) (bit_or (alloc_zero_frame m).1 7))
      (record p { stk_pages = set p.stk_pages k (alloc_zero_frame m).1 }),
)

map_pages-pml4 :
    (frames : Option (List ℕ)) (n : ℕ) (m : Machine) (p : Process)
    → (map_pages frames n m p).1.pml4 ≡ p.pml4
unfolding map_pages
map_pages-pml4 none n m p = refl
map_pages-pml4 (some fs) n m p =
    map_code-pml4 (if ltb n user_code_max_pages then n else user_code_max_pages) 0 fs m p

-- With four free frames there is an address space.
pub vm_new-some :
    (m : Machine) (p : Process) → IsValid m.pmm → 4 ≤ m.pmm.free_frames → (vm_new m p).1.cr3 ≢ 0
unfolding vm_new vm_build
vm_new-some m p v four =
    let t = alloc_tables m p in
    let lacks = alloc_tables-some m p v four in
    let p1 = record t.1 { user_code_pages = 0 } in
    let c = map_pages none 0 (link_tables t.0 t.1) p1 in
    let same : (map_stack user_stack_pages 0 c.0 c.1).1.pml4 ≡ t.1.pml4 =
      map_stack-pml4 user_stack_pages 0 c.0 c.1 ∙ map_pages-pml4 none 0 (link_tables t.0 t.1) p1 in
    let there : (t.1.pml4 == 0) ≡ false = ground arith in
    rw lacks (λ e. ==→ne t.1.pml4 0 there (sym same ∙ e))

-- No entry is found only if each has a process that has not ended.
pub find_hole-none :
    (m : Machine)
    → IsTable m
    → (find_hole m).1 ≡ none
    → (j : ℕ) → j < max_proc
    → is_gone (proc m j).state ≡ false
unfolding find_hole
find_hole-none m t =
    go (find_entry (λ p. is_empty p.state) m.table 0)
      (find_entry-FoundEntry (λ p. is_empty p.state) m.table)
  where
    zombies :
        (o : Option ℕ)
        → FoundEntry (λ p. is_empty p.state) m.table none
        → FoundEntry (λ p. is_zombie p.state) m.table o
        → (reap_found m o).1 ≡ none
        → (j : ℕ) → j < max_proc
        → is_gone (proc m j).state ≡ false
    zombies none f g e j lt =
        ground (arith, f j (omega (arith, t.sched.full)), g j (omega (arith, t.sched.full)))
    zombies (some i) f g e j lt = absurd (cc)

    go :
        (o : Option ℕ)
        → FoundEntry (λ p. is_empty p.state) m.table o
        → (hole_or_zombie m o).1 ≡ none
        → (j : ℕ) → j < max_proc
        → is_gone (proc m j).state ≡ false
    go (some i) f e j lt = absurd (cc)
    go none f e j lt =
        zombies (find_entry (λ p. is_zombie p.state) m.table 0) f
          (find_entry-FoundEntry (λ p. is_zombie p.state) m.table) e j lt
