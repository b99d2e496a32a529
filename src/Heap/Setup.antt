-- ===== src/Heap/Setup.antt =====
-- `kmalloc_init` of kernel/memory.cpp, on the frames of kernel/pmm.cpp.
use cofeuos.Base.{
  ℕ, ◌+◌, ◌*◌, ◌%◌, ◌^◌, ◌≤◌, ◌<◌, ◌≡◌, refl, ap, ◌⊎◌, inl, inr, true, false, [], ◌∷◌, arith, ◌==◌,
  mul64, Bool-cases, ne→==,
}
use cofeuos.Pmm
use cofeuos.Pmm.{Pmm}
use cofeuos.Pmm.Inv.{IsValid}
use cofeuos.Pmm.Alloc.{Grants}
use cofeuos.Pmm.Runs.{RangeGiven, alloc_range_lem}
use cofeuos.Heap.{Heap, update, pages_wanted, claim_arena, kmalloc_init}
use cofeuos.Heap.Blocks.{covers, bytes}
use cofeuos.Heap.Inv.{Inv}

-- The heap holds the frames that the manager granted, as one free block.
pub record SetUp (p : Pmm) (r : Heap × Pmm) : Type 0 where
  pub first : ℕ
  pub granted : Grants p first (pages_wanted p) (r.1, r.0.arena_start)
  pub sized : r.0.arena_size ≡ pages_wanted p * 4096
  pub all_free : bytes r.0.size_at r.0.free_list ≡ r.0.arena_size
  pub inv : Inv r.0 []

whole_block : (f : ℕ → ℕ) (a n : ℕ) → bytes (update f a n) (a ∷ []) ≡ n
unfolding bytes
whole_block f a n = ground arith

one_block :
    (f : ℕ → ℕ) (a n : ℕ)
    → 0 < n
    → a % 8 ≡ 0
    → n ≤ 2 ^ 20
    → a + n * 4096 < 2 ^ 63
    → Inv
        (record {
          arena_start = a;
          arena_size = n * 4096;
          heap_used = 0;
          free_list = a ∷ [];
          size_at = update f a (n * 4096);
        })
        []
unfolding covers bytes
one_block f a n pos al small top =
    let here : update f a (n * 4096) a ≡ n * 4096 = ground arith in
    record {
      chain = (
        omega arith,
        record {
          address_aligned = al;
          size_aligned = omega (arith, here);
          roomy = omega (arith, here);
        },
        omega (arith, here),
      );
      top = top;
      held = tt;
      apart = λ x. ground arith;
      used = refl;
      room = omega (arith, here);
    }

pages_wanted-le : (p : Pmm) → pages_wanted p ≤ 256
unfolding pages_wanted
pages_wanted-le p = ground arith

claimed :
    (h : Heap) {p : Pmm}
    → IsValid p
    → 0 < pages_wanted p
    → (r : Pmm × ℕ) → RangeGiven p (pages_wanted p) r
    → (claim_arena h (pages_wanted p) r ≡ (h, p)) ⊎ SetUp p (claim_arena h (pages_wanted p) r)
unfolding claim_arena
claimed h {p} v pos (q, a) (inl (e, _)) =
    let same : q ≡ p = ap (λ r. r.0) e in
    let null : a ≡ 0 = ap (λ r. r.1) e in rw null (inl (ap (λ m. (h, m)) same))
claimed h {p} v pos (q, a) (inr (s, g, _)) =
    let small = pages_wanted-le p in
    let size : mul64 (pages_wanted p) 4096 ≡ pages_wanted p * 4096 = omega arith in
    let there : (a == 0) ≡ false = ne→== a 0 g.nonzero in
    rw (there, size)
      (inr (record {
        first = s;
        granted = g;
        sized = refl;
        all_free = whole_block h.size_at a (pages_wanted p * 4096);
        inv =
            one_block h.size_at a (pages_wanted p) pos (omega (arith, g.address, v.aligned))
              (omega arith) (omega (arith, g.address, g.managed, v.inside));
      }))

-- On a valid frame manager `kmalloc_init` either leaves an uninitialised heap and the manager as they
-- are, or sets the heap up on frames that were free: 256, or half of the free ones if fewer are.
pub kmalloc_init_lem :
    (h : Heap) {p : Pmm}
    → IsValid p
    → h.arena_size ≡ 0
    → (kmalloc_init h p ≡ (h, p)) ⊎ SetUp p (kmalloc_init h p)
unfolding kmalloc_init
kmalloc_init_lem h {p} v fresh =
    let first_time : (h.arena_size == 0) ≡ true = ground arith in
    rw first_time (elim (Bool-cases (pages_wanted p == 0)) [
      | inl nothing ↦ rw nothing (inl refl)
      | inr something ↦
          let pos : 0 < pages_wanted p = ground arith in
          rw something (
            claimed h v pos (Pmm.alloc_range p (pages_wanted p))
              (alloc_range_lem (pages_wanted p) v pos))
    ])
