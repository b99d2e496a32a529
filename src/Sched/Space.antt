-- ===== src/Sched/Space.antt =====
-- Address spaces of kernel/sched.cpp: the page tables of a process, built from frames and freed.
use cofeuos.Base.{
  ℕ, zero, suc, ◌+◌, ◌-◌, ◌*◌, ◌/◌, ◌%◌, bit_or, Bool, ◌&&◌, ◌||◌, List, [], ◌∷◌, Option, none,
  some, ltb, leb, ◌==◌, if◌then◌else◌, get_or, set, add64,
}
use cofeuos.Pmm
use cofeuos.Pmm.{Pmm}
use cofeuos.Sched.{Process, Machine, user_stack_pages, user_code_max_pages}

abbrev pub user_img_base : ℕ
user_img_base = 0x40000000

abbrev pub user_window_end : ℕ
user_window_end = 0x40020000

abbrev pub user_stack_top : ℕ
user_stack_top = 0x4001f000

unfoldable pub uaddr_ok : ℕ → ℕ → Bool
uaddr_ok a n =
    leb user_img_base a
    && leb n (user_window_end - user_img_base)
    && leb (add64 a n) user_window_end

-- A write of the word at address `a`, and of a page of zeros at `f`.
abbrev pub write : (ℕ → ℕ) → ℕ → ℕ → ℕ → ℕ
write mem a v x = if a == x then v else mem x

abbrev pub zero_page : (ℕ → ℕ) → ℕ → ℕ → ℕ
zero_page mem f x = if leb f x && ltb x (f + 4096) then 0 else mem x

abbrev pub store : Machine → ℕ → ℕ → Machine
store m a v = record m { mem = write m.mem a v }

unfoldable pub alloc_zero_frame : Machine → Machine × ℕ
alloc_zero_frame m =
    let (q, f) = Pmm.alloc_frame m.pmm in
    if f == 0 then (record m { pmm = q }, f) else (record m { pmm = q; mem = zero_page m.mem f }, f)

abbrev free_nonzero : Pmm → ℕ → Pmm
free_nonzero q f = if f == 0 then q else Pmm.free_frame q f

-- The first `n` entries, each given back and cleared if it is not 0.
unfoldable pub free_slots : ℕ → List ℕ → Pmm → List ℕ × Pmm
free_slots zero fs q = (fs, q)
free_slots (suc n) [] q = ([], q)
free_slots (suc n) (f ∷ fs) q =
    let (rest, q') = free_slots n fs (free_nonzero q f) in (0 ∷ rest, q')

unfoldable pub vm_free : Process → Pmm → Process × Pmm
vm_free p q =
    let (code, q1) = free_slots p.user_code_pages p.code_frames q in
    let (stack, q2) = free_slots user_stack_pages p.stk_pages q1 in
    let q3 = free_nonzero q2 p.pt in
    let q4 = free_nonzero q3 p.pd in
    let q5 = free_nonzero q4 p.pdpt in
    let q6 = free_nonzero q5 p.pml4 in
    (
      record p {
        cr3 = 0;
        pml4 = 0;
        pdpt = 0;
        pd = 0;
        pt = 0;
        stk_pages = stack;
        code_frames = code;
      },
      q6,
    )

-- The loop over the code frames, from page `i` on with the rounds left; a private copy of the frame
-- numbers is kept if `keep` says so.
unfoldable pub map_code : ℕ → ℕ → List ℕ → Machine → Process → Machine × Process
map_code zero i frames m p = (m, p)
map_code (suc k) i frames m p =
    let f = get_or frames i 0 in
    map_code k (i + 1) frames (store m (p.pt + 8 * i) (bit_or f 5))
      (record p { code_frames = set p.code_frames i f })

unfoldable pub map_image : ℕ → ℕ → Machine → ℕ → Machine
map_image zero i m pt = m
map_image (suc k) i m pt =
    map_image k (i + 1) (store m (pt + 8 * i) (bit_or (get_or m.img_frames i 0) 5)) pt

abbrev pub stack_index : ℕ → ℕ
stack_index k = (user_stack_top / 4096 - 1 - k) % 512

-- The loop over the stack pages, from page `k` on.
unfoldable pub map_stack : ℕ → ℕ → Machine → Process → Machine × Process
map_stack zero k m p = (m, p)
map_stack (suc left) k m p =
    let (m', f) = alloc_zero_frame m in
    let next =
      map_stack left (k + 1) (store m' (p.pt + 8 * stack_index k) (bit_or f 7))
        (record p { stk_pages = set p.stk_pages k f }) in
    if f == 0 then (m', p) else next

-- The four tables of `p`, each a new frame or 0.
unfoldable pub alloc_tables : Machine → Process → Machine × Process
unfolding alloc_zero_frame
alloc_tables m p =
    let (m1, a) = alloc_zero_frame m in
    let (m2, b) = alloc_zero_frame m1 in
    let (m3, c) = alloc_zero_frame m2 in
    let (m4, d) = alloc_zero_frame m3 in (m4, record p { pml4 = a; pdpt = b; pd = c; pt = d })

abbrev pub lacks_table : Process → Bool
lacks_table p = p.pml4 == 0 || p.pdpt == 0 || p.pd == 0 || p.pt == 0

unfoldable pub link_tables : Machine → Process → Machine
link_tables m p =
    let m1 = store m p.pml4 (bit_or p.pdpt 7) in
    let m2 = store m1 p.pdpt (bit_or 0x72000 3) in
    let m3 = store m2 (p.pdpt + 8) (bit_or p.pd 7) in
    let m4 = if m.shared_pd == 0 then m3 else store m3 (p.pdpt + 24) (bit_or m.shared_pd 3) in
    store m4 p.pd (bit_or p.pt 7)

-- The code pages: those given, at most 256 of them, or those of the shared image.
unfoldable pub map_pages : Option (List ℕ) → ℕ → Machine → Process → Machine × Process
map_pages none n m p = (map_image m.img_pages 0 m p.pt, p)
map_pages (some frames) n m p =
    map_code (if ltb n user_code_max_pages then n else user_code_max_pages) 0 frames m p

abbrev free_space : Machine → Process → Machine × Process
free_space m p = let (p', q) = vm_free p m.pmm in (record m { pmm = q }, p')

-- `frames` is none for the shared image.
unfoldable pub vm_build : Machine → Process → Option (List ℕ) → ℕ → Machine × Process
vm_build m p frames n =
    let (m1, p1) = alloc_tables m p in
    let (m2, p2) = map_pages frames n (link_tables m1 p1) (record p1 { user_code_pages = n }) in
    let (m3, p3) = map_stack user_stack_pages 0 m2 p2 in
    if lacks_table p1 then free_space m1 p1 else (m3, record p3 { cr3 = p3.pml4 })

unfoldable pub vm_new : Machine → Process → Machine × Process
vm_new m p = vm_build m p none 0
