-- ===== src/Heap/Calls.antt =====
-- `kmalloc` and `kfree` of kernel/memory.cpp.
use cofeuos.Base.{
  ℕ, ◌+◌, ◌%◌, ◌^◌, ◌≤◌, ◌<◌, ◌≡◌, refl, ap, ◌≢◌, ◌⊎◌, inl, inr, true, false, List, ◌∷◌, ◌++◌,
  Option, none, some, arith, ◌==◌, sub64, add64,
}
use cofeuos.Heap.{
  Heap, Taken, hdr, min_block, need_of, alloc_from, kmalloc, kfree, in_arena, insert_keep_coalesced,
}
use cofeuos.Heap.Blocks.{hit, covers, bytes}
use cofeuos.Heap.Take.{TooSmall, Takes, Outcome, alloc_from-Outcome}
use cofeuos.Heap.Join.{Inserts, insert-Inserts}
use cofeuos.Heap.Inv.{Inv, SameSizes, arena_end, Held-agree, Inv-middle}

-- Below 2^64 - 32 a request's block holds the header and the bytes asked for, on a multiple of eight.
need_of_bounds :
    (n : ℕ)
    → n + 32 ≤ 2 ^ 64
    → (need_of n % 8 ≡ 0) × (hdr + 8 ≤ need_of n) × (n + hdr ≤ need_of n) × (need_of n < n + 32)
unfolding need_of
need_of_bounds n h = ground arith

-- A request of the last seven byte counts wraps round and takes a block for eight bytes.
pub need_of_wraps : (n : ℕ) → 2 ^ 64 ≤ n + 7 → n < 2 ^ 64 → need_of n ≡ 24
unfolding need_of
need_of_wraps n lo hi = ground arith

-- What a successful `kmalloc` of `n` bytes does: block `b` joins those handed out, and was free.
pub record Allocates (h : Heap) (live : List ℕ) (n b : ℕ) (r : Heap × ℕ) : Type 0 where
  pub address : r.1 ≡ b + hdr
  pub aligned : r.1 % 8 ≡ 0
  pub enough : n + hdr ≤ r.0.size_at b
  pub sized : r.0.size_at b ≡ need_of n
  pub counted : r.0.heap_used ≡ h.heap_used + need_of n
  pub were_free : (x : ℕ) → hit r.0.size_at b x ≤ covers h.size_at h.free_list x
  pub others : SameSizes h.size_at r.0.size_at live
  pub lost :
      bytes r.0.size_at r.0.free_list + need_of n ≤ bytes h.size_at h.free_list
      × (bytes h.size_at h.free_list < bytes r.0.size_at r.0.free_list + need_of n + min_block)
  pub inv : Inv r.0 (b ∷ live)

abbrev pub Allocated : Heap → List ℕ → ℕ → Heap × ℕ → Type 0
Allocated h live n r =
    ((r ≡ (h, 0)) × TooSmall h.size_at (need_of n) h.free_list) ⊎ ((b : ℕ) × Allocates h live n b r)

module _ {h : Heap} {live : List ℕ} (v : Inv h live) (n : ℕ) (small : n + 32 ≤ 2 ^ 64) where
  abbrev after_taking : Taken → Heap
  after_taking t = record h {
    heap_used = add64 h.heap_used (need_of n);
    free_list = t.free_list;
    size_at = t.size_at;
  }

  taken_Allocates :
      (t : Taken)
      → Takes h.size_at (need_of n) h.arena_start (arena_end h) h.free_list t
      → Allocates h live n t.block (after_taking t, add64 t.block hdr)
  unfolding covers bytes
  taken_Allocates t k =
      let need = need_of_bounds n small in
      let same =
        Held-agree h.size_at t.size_at (covers h.size_at h.free_list) h.arena_start (arena_end h)
          live k.others v.apart v.held in
      let addr : add64 t.block hdr ≡ t.block + hdr = omega (arith, k.under, v.top) in
      let sum : add64 h.heap_used (need_of n) ≡ need_of n + bytes h.size_at live =
        omega (arith, v.used, v.room, k.kept, v.top) in
      record {
        address = addr;
        aligned = omega (arith, addr, k.aligned);
        enough = omega (arith, k.sized, need);
        sized = k.sized;
        counted = omega (arith, sum, v.used);
        were_free = λ x. omega (arith, k.was_free x);
        others = same.3;
        lost = omega (arith, k.kept, k.slack);
        inv = record {
          chain = k.chain;
          top = v.top;
          held = (
            record {
              address_aligned = k.aligned;
              size_aligned = rw k.sized need.0;
              roomy = omega (arith, k.sized, need);
            },
            k.above,
            omega (arith, k.under, k.sized),
            same.0,
          );
          apart = λ x. omega (arith, k.was_free x, same.1 x, v.apart x);
          used = omega (arith, sum, k.sized, same.2);
          room = omega (arith, k.kept, k.sized, same.2, v.room);
        };
      }

  -- `kmalloc` of `n` bytes, `n` at least 32 below 2^64, returns 0 and changes nothing if no free
  -- block has the size, and otherwise hands out a block of free bytes that is large enough and on an
  -- eight-byte boundary, changes no other block's header and keeps the invariant.
  pub kmalloc_lem : Allocated h live n (kmalloc h n)
  unfolding kmalloc
  kmalloc_lem =
      let need = need_of_bounds n small in
      go (alloc_from h.size_at (need_of n) h.free_list) (
        alloc_from-Outcome h.size_at (need_of n) h.arena_start (arena_end h) h.free_list v.chain
          need.0 need.1 v.top)
    where
      go :
          (o : Option Taken)
          → Outcome h.size_at (need_of n) h.arena_start (arena_end h) h.free_list o
          → Allocated h live n
              (elim o [ none ↦ (h, 0) | some t ↦ (after_taking t, add64 t.block hdr) ])
      go none k = inl (refl, k)
      go (some t) k = inr (t.block, taken_Allocates t k)

-- What a `kfree` of block `b` does, with `live` the blocks that stay handed out.
pub record Frees (h : Heap) (live : List ℕ) (b : ℕ) (q : Heap) : Type 0 where
  pub gained :
      (x : ℕ) → covers q.size_at q.free_list x ≡ covers h.size_at h.free_list x + hit h.size_at b x
  pub others : SameSizes h.size_at q.size_at live
  pub total : bytes q.size_at q.free_list ≡ bytes h.size_at h.free_list + h.size_at b
  pub used : q.heap_used + h.size_at b ≡ h.heap_used
  pub inv : Inv q live

module _ {h : Heap} {live : List ℕ} (b : ℕ) (v : Inv h (b ∷ live)) where
  abbrev after_freeing : Heap
  after_freeing = record h {
    heap_used = sub64 h.heap_used (h.size_at b);
    free_list = (insert_keep_coalesced h.size_at b h.free_list).chain;
    size_at = (insert_keep_coalesced h.size_at b h.free_list).size_at;
  }

  kfree_eq : kfree h (b + hdr) ≡ after_freeing
  unfolding kfree in_arena
  kfree_eq =
      let held = v.held in
      let back : sub64 (b + hdr) hdr ≡ b = omega (arith, v.top, held.2) in
      let inside : in_arena h b ≡ true = ground (arith, v.top) in
      let whole : (h.size_at b % 8 == 0) ≡ true = ground (arith, held.0.size_aligned) in
      let given : (b + hdr == 0) ≡ false = ground arith in rw (back, given, inside, whole)

  Inserts-Frees :
      Inserts h.size_at b h.arena_start
        (arena_end h)
        h.free_list
        (insert_keep_coalesced h.size_at b h.free_list)
      → Frees h live b after_freeing
  unfolding covers bytes
  Inserts-Frees k =
      let F : ℕ → ℕ = λ x. covers h.size_at h.free_list x + hit h.size_at b x in
      let same =
        Held-agree h.size_at after_freeing.size_at F h.arena_start (arena_end h) live
          (λ c e. k.others c (omega arith) (λ eq. ground (arith, v.held.0.roomy)))
          (λ x. omega (arith, v.apart x)) v.held.3 in
      let less : sub64 h.heap_used (h.size_at b) + h.size_at b ≡ h.heap_used =
        omega (arith, v.used, v.room, v.top) in
      record {
        gained = k.same;
        others = same.3;
        total = k.total;
        used = less;
        inv = record {
          chain = k.chain;
          top = v.top;
          held = same.0;
          apart = λ x. omega (arith, k.same x, same.1 x, v.apart x);
          used = omega (arith, less, v.used, same.2);
          room = omega (arith, k.total, same.2, v.room);
        };
      }

  kfree_first : Frees h live b (kfree h (b + hdr))
  unfolding covers
  kfree_first = rw kfree_eq (
      Inserts-Frees (
        insert-Inserts h.size_at b h.arena_start (arena_end h) h.free_list v.held.0 v.held.1
          v.held.2 v.top v.chain (λ x. omega (arith, v.apart x))))

-- `kfree` of a block that is handed out makes exactly its bytes free, takes its size off the bytes in
-- use, changes no other block's header and keeps the invariant.
pub kfree_lem :
    {h : Heap} (xs ys : List ℕ) (b : ℕ)
    → Inv h (xs ++ b ∷ ys)
    → Frees h (xs ++ ys) b (kfree h (b + hdr))
kfree_lem {h} xs ys b v = kfree_first b (Inv-middle h b xs ys v)

-- A null pointer, and one that does not lie in the arena, are ignored.
pub kfree_ignores :
    {h : Heap} {live : List ℕ} (p : ℕ)
    → Inv h live
    → (p ≡ 0) ⊎ (hdr ≤ p) × (p < 2 ^ 63) × ((p < h.arena_start + hdr) ⊎ (arena_end h + hdr < p))
    → h.size_at (sub64 p hdr) < 2 ^ 63
    → kfree h p ≡ h
unfolding kfree in_arena
kfree_ignores p v outside small = ground (arith, v.top)

-- What a block and its `kfree` give back to the free list falls short of what `kmalloc` took from it
-- by fewer than 32 bytes; the bytes in use are as before.
pub kfree-kmalloc :
    {h : Heap} {live : List ℕ} (n : ℕ)
    → Inv h live
    → n + 32 ≤ 2 ^ 64
    → (kmalloc h n).1 ≢ 0
    → let q = kfree (kmalloc h n).0 (kmalloc h n).1 in
      Inv q live
      × (q.heap_used ≡ h.heap_used)
      × (bytes q.size_at q.free_list ≤ bytes h.size_at h.free_list)
      × (bytes h.size_at h.free_list < bytes q.size_at q.free_list + min_block)
kfree-kmalloc {h} {live} n v small given = elim (kmalloc_lem v n small) [
  | inl (e, _) ↦ absurd (given (ap (λ r. r.1) e))
  | inr (b, a) ↦
      let f = kfree_first b a.inv in
      rw a.address (
        f.inv,
        omega (arith, f.used, a.counted, a.sized),
        omega (arith, f.total, a.sized, a.lost),
        omega (arith, f.total, a.sized, a.lost),
      )
]
