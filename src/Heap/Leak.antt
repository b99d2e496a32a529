-- ===== src/Heap/Leak.antt =====
-- The branch of `alloc_from` in kernel/memory.cpp that takes a whole block.
use cofeuos.Base.{
  ℕ, suc, ◌+◌, ◌-◌, ◌^◌, ◌≤◌, ◌<◌, ◌≡◌, refl, ap, ◌∙◌, subst, ◌≢◌, inl, inr, List, [], ◌∷◌, some,
  arith, add64,
}
use cofeuos.Heap.{Heap, hdr, min_block, update, need_of, alloc_from, kmalloc, kfree}
use cofeuos.Heap.Blocks.{bytes, Chain, Chain-le, Chain-agree}
use cofeuos.Heap.Calls.{Frees, kmalloc_lem, kfree_lem}
use cofeuos.Heap.Inv.{Inv, arena_end}

whole_block :
    (size : ℕ → ℕ) (need b : ℕ) (bs : List ℕ)
    → need ≤ size b
    → size b < need + min_block
    → size b < 2 ^ 63
    → alloc_from size need (b ∷ bs)
      ≡ some (record { block = b; free_list = bs; size_at = update size b need })
unfolding alloc_from
whole_block size need b bs fits short small = ground arith

module _ {h : Heap} {live bs : List ℕ} (n b : ℕ) (v : Inv h live)
    (first : h.free_list ≡ b ∷ bs) where
  chain : Chain h.size_at h.arena_start (arena_end h) (b ∷ bs)
  chain = subst (Chain h.size_at h.arena_start (arena_end h)) first v.chain

  bytes_first : bytes h.size_at h.free_list ≡ h.size_at b + bytes h.size_at bs
  unfolding bytes
  bytes_first = rw first

  kmalloc_whole :
      need_of n ≤ h.size_at b
      → h.size_at b < need_of n + min_block
      → kmalloc h n ≡ (
        record h {
          heap_used = add64 h.heap_used (need_of n);
          free_list = bs;
          size_at = update h.size_at b (need_of n);
        },
        add64 b hdr,
      )
  unfolding kmalloc
  kmalloc_whole fits short =
      let end = Chain-le h.size_at bs (suc (b + h.size_at b)) (arena_end h) chain.2 in
      let taken : alloc_from h.size_at (need_of n) h.free_list
          ≡ some (record { block = b; free_list = bs; size_at = update h.size_at b (need_of n) }) =
        ap (alloc_from h.size_at (need_of n)) first
        ∙ whole_block h.size_at (need_of n) b bs fits short (omega (arith, v.top, end)) in
      rw (taken, kmalloc) refl

  -- The bytes that stay on the free list.
  bytes_left :
      need_of n ≤ h.size_at b
      → h.size_at b < need_of n + min_block
      → (bytes (kmalloc h n).0.size_at (kmalloc h n).0.free_list ≡ bytes h.size_at bs)
        × ((kmalloc h n).1 ≢ 0)
  bytes_left fits short =
      let call = kmalloc_whole fits short in
      let same =
        Chain-agree h.size_at (update h.size_at b (need_of n)) bs (suc (b + h.size_at b))
          (arena_end h) (λ a lo hi. ground arith) chain.2 in
      let end = Chain-le h.size_at bs (suc (b + h.size_at b)) (arena_end h) chain.2 in
      (
        ap (λ r. bytes r.0.size_at r.0.free_list) call ∙ same.2,
        λ e. omega (arith, v.top, end, e, ap (λ r. r.1) call),
      )

-- Where the first free block is larger than the request's block by fewer than 32 bytes, the surplus
-- is lost: after `kmalloc` and `kfree` the free list has that many bytes fewer than before.
pub kfree-kmalloc_loses :
    {h : Heap} {live bs : List ℕ} (n b : ℕ)
    → Inv h live
    → n + 32 ≤ 2 ^ 64
    → h.free_list ≡ b ∷ bs
    → need_of n < h.size_at b
    → h.size_at b < need_of n + min_block
    → let q = kfree (kmalloc h n).0 (kmalloc h n).1 in
      bytes q.size_at q.free_list + (h.size_at b - need_of n) ≡ bytes h.size_at h.free_list
kfree-kmalloc_loses {h} {live} {bs} n b v small first fits short = elim (kmalloc_lem v n small) [
  | inl (e, _) ↦ absurd (left.1 (ap (λ r. r.1) e))
  | inr (c, a) ↦ rw a.address (
      omega
        (arith, Frees.total (kfree_lem [] live c a.inv), a.sized, left.0, bytes_first n b v first))
]
  where
    left :
        (bytes (kmalloc h n).0.size_at (kmalloc h n).0.free_list ≡ bytes h.size_at bs)
        × ((kmalloc h n).1 ≢ 0)
    left = bytes_left n b v first (omega arith) short
