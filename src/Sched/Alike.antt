-- ===== src/Sched/Alike.antt =====
-- Building page tables and kernel stacks in kernel/sched.cpp, as far as the process table goes.
use cofeuos.Base.{
  ℕ, zero, suc, ◌+◌, ◌-◌, ◌*◌, ◌≡◌, refl, ◌∙◌, ◌||◌, List, [], ◌∷◌, Option, none, some, arith, ◌==◌,
  if◌then◌else◌, set, bit_or,
}
use cofeuos.Sched.{Process, Machine, user_stack_pages}
use cofeuos.Sched.Space.{
  alloc_zero_frame, store, map_code, map_image, map_stack, stack_index, alloc_tables, link_tables,
  map_pages, vm_build, vm_new,
}
use cofeuos.Sched.Life.{push_all, initial_context, fork_context, copy_stack, copy_page}

-- The table and the current process are as before.
abbrev pub Alike : Machine → Machine → Type 0
Alike m m' = (m'.table ≡ m.table) × (m'.cur ≡ m.cur)

pub chain : (a b c : Machine) → Alike a b → Alike b c → Alike a c
chain a b c (e, f) (e', f') = (e' ∙ e, f' ∙ f)

alloc_zero_frame-Alike : (m : Machine) → Alike m (alloc_zero_frame m).0
unfolding alloc_zero_frame
alloc_zero_frame-Alike m = ground arith

map_code-Alike :
    (k i : ℕ) (fs : List ℕ) (m : Machine) (p : Process) → Alike m (map_code k i fs m p).0
unfolding map_code
map_code-Alike zero i fs m p = (refl, refl)
map_code-Alike (suc k) i fs m p = map_code-Alike k (i + 1) fs _ _

map_image-Alike : (k i : ℕ) (m : Machine) (pt : ℕ) → Alike m (map_image k i m pt)
unfolding map_image
map_image-Alike zero i m pt = (refl, refl)
map_image-Alike (suc k) i m pt = map_image-Alike k (i + 1) _ pt

map_stack-Alike : (left k : ℕ) (m : Machine) (p : Process) → Alike m (map_stack left k m p).0
unfolding map_stack
map_stack-Alike zero k m p = (refl, refl)
map_stack-Alike (suc left) k m p = ground (
  arith,
  alloc_zero_frame-Alike m,
  map_stack-Alike left (k + 1)
      (store (alloc_zero_frame m).0 (p.pt + 8 * stack_index k) (bit_or (alloc_zero_frame m).1 7))
      (record p { stk_pages = set p.stk_pages k (alloc_zero_frame m).1 }),
)

alloc_tables-Alike : (m : Machine) (p : Process) → Alike m (alloc_tables m p).0
unfolding alloc_tables
alloc_tables-Alike m p =
    let a = (alloc_zero_frame m).0 in
    let b = (alloc_zero_frame a).0 in
    let c = (alloc_zero_frame b).0 in
    let d = (alloc_zero_frame c).0 in
    chain m a d (alloc_zero_frame-Alike m) (
      chain a b d (alloc_zero_frame-Alike a)
        (chain b c d (alloc_zero_frame-Alike b) (alloc_zero_frame-Alike c)))

link_tables-Alike : (m : Machine) (p : Process) → Alike m (link_tables m p)
unfolding link_tables
link_tables-Alike m p = ground arith

map_pages-Alike :
    (frames : Option (List ℕ)) (n : ℕ) (m : Machine) (p : Process)
    → Alike m (map_pages frames n m p).0
unfolding map_pages
map_pages-Alike none n m p = map_image-Alike m.img_pages 0 m p.pt
map_pages-Alike (some fs) n m p = map_code-Alike _ 0 fs m p

vm_build-Alike :
    (m : Machine) (p : Process) (frames : Option (List ℕ)) (n : ℕ)
    → Alike m (vm_build m p frames n).0
unfolding vm_build
vm_build-Alike m p frames n =
    let t = alloc_tables m p in
    let l = link_tables t.0 t.1 in
    let c = map_pages frames n l (record t.1 { user_code_pages = n }) in
    let s = map_stack user_stack_pages 0 c.0 c.1 in
    let tables = alloc_tables-Alike m p in
    let stack = chain m t.0 s.0 tables (
      chain t.0 l s.0 (link_tables-Alike t.0 t.1) (
        chain l c.0 s.0 (map_pages-Alike frames n l (record t.1 { user_code_pages = n }))
          (map_stack-Alike user_stack_pages 0 c.0 c.1))) in
    ground (arith, tables, stack)

pub vm_new-Alike : (m : Machine) (p : Process) → Alike m (vm_new m p).0
unfolding vm_new
vm_new-Alike m p = vm_build-Alike m p none 0

push_all-Alike : (m : Machine) (sp : ℕ) (vs : List ℕ) → Alike m (push_all m sp vs).0
unfolding push_all
push_all-Alike m sp [] = (refl, refl)
push_all-Alike m sp (v ∷ vs) = push_all-Alike (store m (sp - 8) v) (sp - 8) vs

pub initial_context-Alike : (m : Machine) (k entry : ℕ) → Alike m (initial_context m k entry).0
unfolding initial_context
initial_context-Alike m k entry = push_all-Alike m _ _

pub fork_context-Alike : (m : Machine) (k pr : ℕ) → Alike m (fork_context m k pr).0
unfolding fork_context
fork_context-Alike m k pr = push_all-Alike m _ _

pub copy_stack-Alike : (ss ds : List ℕ) (m : Machine) → Alike m (copy_stack ss ds m)
unfolding copy_stack
copy_stack-Alike [] ds m = (refl, refl)
copy_stack-Alike (s ∷ ss) [] m = (refl, refl)
copy_stack-Alike (s ∷ ss) (d ∷ ds) m =
    let m' = if s == 0 || d == 0 then m else record m { mem = copy_page m.mem d s } in
    let one : Alike m m' = ground arith in
    chain m m' (copy_stack ss ds m') one (copy_stack-Alike ss ds m')
