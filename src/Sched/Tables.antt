-- ===== src/Sched/Tables.antt =====
-- The page tables of a new process in kernel/sched.cpp: `vm_build` takes four frames for them.
use cofeuos.Base.{
  ℕ, zero, suc, ◌+◌, ◌<◌, ◌≡◌, refl, ap, ◌∙◌, ◌≢◌, inl, inr, false, true, arith, ◌==◌, ◌&&◌, leb,
  ltb, ◌*◌, none, if◌then◌else◌, Bool-cases, set, bit_or, ==→ne,
}
use cofeuos.Bitmap.{test}
use cofeuos.Pmm
use cofeuos.Pmm.{Pmm}
use cofeuos.Pmm.Inv.{IsValid, frame_addr}
use cofeuos.Pmm.Alloc.{Grants, OneFrame, alloc_frame_lem}
use cofeuos.Sched.{Process, Machine, user_stack_pages}
use cofeuos.Sched.Space.{
  alloc_zero_frame, store, map_stack, stack_index, alloc_tables, link_tables, map_pages, vm_build,
  vm_new, lacks_table, vm_free,
}

-- The address is that of a frame which is free.
abbrev pub IsFree : Pmm → ℕ → Type 0
IsFree q a = (i : ℕ) × (i < q.nframes) × (test q.bits i ≡ false) × (a ≡ frame_addr q i)

-- Four tables lie in different frames that were free, and CR3 is the first.
pub record OwnFrames (q : Pmm) (cr3 pml4 pdpt pd pt : ℕ) : Type 0 where
  pub root : cr3 ≡ pml4
  pub pml4_free : IsFree q pml4
  pub pdpt_free : IsFree q pdpt
  pub pd_free : IsFree q pd
  pub pt_free : IsFree q pt
  pub pml4_apart : (pml4 ≢ pdpt) × (pml4 ≢ pd) × (pml4 ≢ pt)
  pub pdpt_apart : (pdpt ≢ pd) × (pdpt ≢ pt)
  pub pd_apart : pd ≢ pt

abbrev pub OwnTables : Pmm → Process → Type 0
OwnTables q p = OwnFrames q p.cr3 p.pml4 p.pdpt p.pd p.pt

-- A frame `a` was handed out: what is free afterwards is another one that was free before.
record Took (q : Pmm) (a : ℕ) (q' : Pmm) : Type 0 where
  valid : IsValid q'
  free : IsFree q a
  others : (x : ℕ) → IsFree q' x → IsFree q x × (a ≢ x)

Grants-Took : (q : Pmm) (i : ℕ) (r : Pmm × ℕ) → Grants q i 1 r → Took q r.1 r.0
Grants-Took q i r g = record {
  valid = g.valid;
  free = (i, omega (arith, g.managed), g.were_free i (omega arith) (omega arith), g.address);
  others = λ x (j, lt, f, e).
      let was : test r.0.bits j ≡ (if leb i j && ltb j (i + 1) then true else test q.bits j) =
        g.changes.frames j in
      elim (Bool-cases (leb i j && ltb j (i + 1))) [
        | inl same ↦ absurd (ground arith)
        | inr other ↦
            let apart : i ≢ j = λ e'. ground arith in
            (
              (
                j,
                omega (arith, g.changes.same_nframes),
                ground arith,
                e ∙ ap (λ b. b + j * 4096) g.changes.same_base,
              ),
              λ h. apart (omega (arith, g.address, g.changes.same_base)),
            )
      ];
}

alloc_zero_frame-Took :
    (m : Machine)
    → IsValid m.pmm
    → ((alloc_zero_frame m).1 == 0) ≡ false
    → Took m.pmm (alloc_zero_frame m).1 (alloc_zero_frame m).0.pmm
unfolding alloc_zero_frame
alloc_zero_frame-Took m v = elim (Bool-cases ((Pmm.alloc_frame m.pmm).1 == 0)) [
  | inl h ↦ rw h (λ ne. absurd (ground arith))
  | inr h ↦ rw h (λ ne. go h (alloc_frame_lem v))
]
  where
    go :
        ((Pmm.alloc_frame m.pmm).1 == 0) ≡ false
        → OneFrame m.pmm (Pmm.alloc_frame m.pmm)
        → Took m.pmm (Pmm.alloc_frame m.pmm).1 (Pmm.alloc_frame m.pmm).0
    go ne (inl (e, all)) =
        let none_left : (Pmm.alloc_frame m.pmm).1 ≡ 0 = ap (λ r. r.1) e in
        absurd (==→ne _ 0 ne none_left)
    go ne (inr (i, g, _)) = Grants-Took m.pmm i (Pmm.alloc_frame m.pmm) g

-- What `alloc_tables` makes, before CR3 is set.
record TablesOf (q : Pmm) (a b c d : ℕ) : Type 0 where
  a_free : IsFree q a
  b_free : IsFree q b
  c_free : IsFree q c
  d_free : IsFree q d
  a_apart : (a ≢ b) × (a ≢ c) × (a ≢ d)
  b_apart : (b ≢ c) × (b ≢ d)
  c_apart : c ≢ d

four_tables :
    (q q1 q2 q3 q4 : Pmm) (a b c d : ℕ)
    → Took q a q1
    → Took q1 b q2
    → Took q2 c q3
    → Took q3 d q4
    → TablesOf q a b c d
four_tables q q1 q2 q3 q4 a b c d ta tb tc td =
    let b0 = ta.others b tb.free in
    let c1 = tb.others c tc.free in
    let c0 = ta.others c c1.0 in
    let d2 = tc.others d td.free in
    let d1 = tb.others d d2.0 in
    let d0 = ta.others d d1.0 in
    record {
      a_free = ta.free;
      b_free = b0.0;
      c_free = c0.0;
      d_free = d0.0;
      a_apart = (b0.1, c0.1, d0.1);
      b_apart = (c1.1, d1.1);
      c_apart = d2.1;
    }

abbrev TablesIn : Pmm → Process → Type 0
TablesIn q p = TablesOf q p.pml4 p.pdpt p.pd p.pt

alloc_tables-TablesIn :
    (m : Machine) (p : Process)
    → IsValid m.pmm
    → lacks_table (alloc_tables m p).1 ≡ false
    → TablesIn m.pmm (alloc_tables m p).1
unfolding alloc_tables
alloc_tables-TablesIn m p v has =
    let ma = (alloc_zero_frame m).0 in
    let mb = (alloc_zero_frame ma).0 in
    let mc = (alloc_zero_frame mb).0 in
    let a = alloc_zero_frame-Took m v (ground arith) in
    let b = alloc_zero_frame-Took ma a.valid (ground arith) in
    let c = alloc_zero_frame-Took mb b.valid (ground arith) in
    let d = alloc_zero_frame-Took mc c.valid (ground arith) in
    four_tables m.pmm _ _ _ _ _ _ _ _ a b c d

-- The pages of the stack leave the tables as they are.
map_stack-TablesIn :
    (q : Pmm) (left k : ℕ) (m : Machine) (p : Process)
    → TablesIn q p
    → TablesIn q (map_stack left k m p).1
unfolding map_stack
map_stack-TablesIn q zero k m p t = t
map_stack-TablesIn q (suc left) k m p t =
    let rest =
      map_stack-TablesIn q left (k + 1)
        (store (alloc_zero_frame m).0 (p.pt + 8 * stack_index k) (bit_or (alloc_zero_frame m).1 7))
        (record p { stk_pages = set p.stk_pages k (alloc_zero_frame m).1 }) t in
    elim (Bool-cases ((alloc_zero_frame m).1 == 0)) [ inl e ↦ rw e t | inr e ↦ rw e rest ]

-- A process that gets an address space from `vm_new` has tables of its own.
pub vm_new-OwnTables :
    (m : Machine) (p : Process)
    → IsValid m.pmm
    → ((vm_new m p).1.cr3 == 0) ≡ false
    → OwnTables m.pmm (vm_new m p).1
unfolding vm_new vm_build map_pages vm_free
vm_new-OwnTables m p v =
    let t = alloc_tables m p in
    let p1 = record t.1 { user_code_pages = 0 } in
    let c = map_pages none 0 (link_tables t.0 t.1) p1 in
    elim (Bool-cases (lacks_table t.1)) [
      | inl lacks ↦ rw lacks (λ made. absurd (ground arith))
      | inr has ↦
          let tables =
            map_stack-TablesIn m.pmm user_stack_pages 0 c.0 c.1 (alloc_tables-TablesIn m p v has) in
          rw has (λ made. record {
            root = refl;
            pml4_free = tables.a_free;
            pdpt_free = tables.b_free;
            pd_free = tables.c_free;
            pt_free = tables.d_free;
            pml4_apart = tables.a_apart;
            pdpt_apart = tables.b_apart;
            pd_apart = tables.c_apart;
          })
    ]
