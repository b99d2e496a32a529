-- ===== src/Heap/Join.antt =====
-- `insert_keep_coalesced` of kernel/memory.cpp, as a whole.
use cofeuos.Base.{ℕ, ◌+◌, ◌^◌, ◌≤◌, ◌<◌, ◌≡◌, ◌≢◌, List, arith}
use cofeuos.Heap.{below, from, Linked, merge_right, insert_keep_coalesced}
use cofeuos.Heap.Blocks.{hit, covers, bytes, IsBlock, Chain, Chain-agree}
use cofeuos.Heap.Insert.{Apart, cut, merge_right-MergesRight, merge_left-MergesLeft}

-- What putting `b` back into the chain `l` between `lo` and `hi` does.
pub record Inserts (size : ℕ → ℕ) (b lo hi : ℕ) (l : List ℕ) (q : Linked) : Type 0 where
  pub chain : Chain q.size_at lo hi q.chain
  pub others : (a : ℕ) → covers size l a ≡ 0 → a ≢ b → q.size_at a ≡ size a
  pub same : (x : ℕ) → covers q.size_at q.chain x ≡ covers size l x + hit size b x
  pub total : bytes q.size_at q.chain ≡ bytes size l + size b

-- The freed block's bytes join the free ones, no others do, and the chain keeps its order and its
-- gaps.
pub insert-Inserts :
    (size : ℕ → ℕ) (b lo hi : ℕ) (l : List ℕ)
    → IsBlock size b
    → lo ≤ b
    → b + size b ≤ hi
    → hi < 2 ^ 63
    → Chain size lo hi l
    → Apart size b l
    → Inserts size b lo hi l (insert_keep_coalesced size b l)
unfolding insert_keep_coalesced
insert-Inserts size b lo hi l k h end top c ap =
    let u = cut size b lo hi l k (omega arith) end c ap in
    let m = merge_right-MergesRight size b hi (from b l) k end top u.right in
    let r = merge_right size b (from b l) in
    let before =
      Chain-agree size r.size_at (below b l) lo b (λ a lo' hi'. m.others a (λ e. omega arith))
        u.left in
    let q =
      merge_left-MergesLeft b hi r m.block m.chain top (below b l) lo (omega arith) (λ e. h)
        before.0 in
    record {
      chain = q.chain;
      others = λ a z ne. ground (arith, q.others a, m.others a, before.1 a, u.parts a);
      same = λ x. omega (arith, q.same x, before.1 x, m.same x, u.parts x);
      total = omega (arith, q.total, before.2, m.total, u.total);
    }
