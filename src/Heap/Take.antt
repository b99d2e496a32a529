-- ===== src/Heap/Take.antt =====
-- `alloc_from` of kernel/memory.cpp.
use cofeuos.Base.{
  ℕ, suc, ◌+◌, ◌-◌, ◌%◌, ◌^◌, ◌≤◌, ◌<◌, ◌≡◌, ◌⊎◌, inl, inr, true, false, List, [], ◌∷◌, Option,
  none, some, arith, leb, sub64, add64, Bool-cases, leb→le, leb→lt,
}
use cofeuos.Heap.{hdr, min_block, update, Taken, behind, alloc_from}
use cofeuos.Heap.Blocks.{
  hit, covers, bytes, Chain, covers_below, Chain-le, Chain-raise, Chain-agree,
}

-- Every block is too small.
abbrev pub TooSmall : (ℕ → ℕ) → ℕ → List ℕ → Type 0
TooSmall size need [] = Unit {0}
TooSmall size need (a ∷ rest) = (size a < need) × TooSmall size need rest

-- What taking `need` bytes off the chain `l` between `lo` and `hi` does.
pub record Takes (size : ℕ → ℕ) (need lo hi : ℕ) (l : List ℕ) (t : Taken) : Type 0 where
  pub chain : Chain t.size_at lo hi t.free_list
  pub sized : t.size_at t.block ≡ need
  pub aligned : t.block % 8 ≡ 0
  pub above : lo ≤ t.block
  pub under : t.block + need ≤ hi
  pub was_free :
      (x : ℕ) → covers t.size_at t.free_list x + hit t.size_at t.block x ≤ covers size l x
  pub others : (c : ℕ) → covers size l c ≡ 0 → t.size_at c ≡ size c
  pub kept : bytes t.size_at t.free_list + need ≤ bytes size l
  pub slack : bytes size l < bytes t.size_at t.free_list + need + min_block

abbrev pub Outcome : (ℕ → ℕ) → ℕ → ℕ → ℕ → List ℕ → Option Taken → Type 0
Outcome size need lo hi l none = TooSmall size need l
Outcome size need lo hi l (some t) = Takes size need lo hi l t

module _ {size : ℕ → ℕ} (need lo hi b : ℕ) (bs : List ℕ) (c : Chain size lo hi (b ∷ bs))
    (whole : need % 8 ≡ 0) (some_room : hdr + 8 ≤ need) (top : hi < 2 ^ 63) where
  end_le : b + size b ≤ hi
  end_le = omega (arith, Chain-le size bs (suc (b + size b)) hi c.2)

  abbrev split_size : ℕ → ℕ
  split_size = update (update size (b + need) (size b - need)) b need

  split_Takes :
      need + min_block ≤ size b
      → Takes size need lo hi
          (b ∷ bs)
          (record { block = b; free_list = (b + need) ∷ bs; size_at = split_size })
  unfolding covers bytes
  split_Takes fits =
      let here : split_size b ≡ need = ground arith in
      let there : split_size (b + need) ≡ size b - need = ground arith in
      let end : b + need + split_size (b + need) ≡ b + size b = omega arith in
      let same =
        Chain-agree size split_size bs (suc (b + size b)) hi (λ a lo' hi'. ground arith) c.2 in
      record {
        chain = (
          omega (arith, c.0),
          record {
            address_aligned = omega (arith, c.1.address_aligned);
            size_aligned = omega (arith, c.1.size_aligned);
            roomy = omega arith;
          },
          rw end same.0,
        );
        sized = here;
        aligned = c.1.address_aligned;
        above = c.0;
        under = omega (arith, end_le);
        was_free = λ x. ground (arith, same.1 x);
        others = λ a e. ground (arith, c.1.roomy);
        kept = omega (arith, same.2);
        slack = omega (arith, same.2);
      }

  whole_Takes :
      need ≤ size b
      → size b < need + min_block
      → Takes size need lo hi
          (b ∷ bs)
          (record { block = b; free_list = bs; size_at = update size b need })
  unfolding covers bytes
  whole_Takes fits short =
      let here : update size b need b ≡ need = ground arith in
      let same =
        Chain-agree size (update size b need) bs (suc (b + size b)) hi (λ a lo' hi'. ground arith)
          c.2 in
      record {
        chain =
            Chain-raise (update size b need) bs (suc (b + size b)) lo hi same.0
              (omega (arith, c.0));
        sized = here;
        aligned = c.1.address_aligned;
        above = c.0;
        under = omega (arith, end_le);
        was_free = λ x. ground (arith, same.1 x);
        others = λ a e. ground (arith, c.1.roomy);
        kept = omega (arith, same.2);
        slack = omega (arith, same.2);
      }

  behind_Takes :
      (t : Taken)
      → Takes size need (suc (b + size b)) hi bs t
      → Takes size need lo hi (b ∷ bs) (record t { free_list = b ∷ t.free_list })
  unfolding covers bytes
  behind_Takes t k =
      let here : t.size_at b ≡ size b =
        k.others b (covers_below size bs (suc (b + size b)) hi b c.2 (omega arith)) in
      record {
        chain = (
          c.0,
          record {
            address_aligned = c.1.address_aligned;
            size_aligned = rw here c.1.size_aligned;
            roomy = rw here c.1.roomy;
          },
          rw here k.chain,
        );
        sized = k.sized;
        aligned = k.aligned;
        above = omega (arith, k.above, c.0);
        under = k.under;
        was_free = λ x. ground (arith, here, k.was_free x);
        others = λ a e. k.others a (ground arith);
        kept = omega (arith, here, k.kept);
        slack = omega (arith, here, k.slack);
      }

-- On a chain below 2^63 `alloc_from` takes a block, or every block is too small.
pub alloc_from-Outcome :
    (size : ℕ → ℕ) (need lo hi : ℕ) (l : List ℕ)
    → Chain size lo hi l
    → need % 8 ≡ 0
    → hdr + 8 ≤ need
    → hi < 2 ^ 63
    → Outcome size need lo hi l (alloc_from size need l)
unfolding alloc_from
alloc_from-Outcome size need lo hi [] c whole room top = tt
alloc_from-Outcome size need lo hi (b ∷ bs) c whole room top =
    split (Bool-cases (leb need (size b))) (Bool-cases (leb min_block (sub64 (size b) need)))
      (alloc_from-Outcome size need (suc (b + size b)) hi bs c.2 whole room top)
  where
    end : b + size b ≤ hi
    end = end_le {size = size} need lo hi b bs c whole room top

    later :
        (o : Option Taken)
        → size b < need
        → Outcome size need (suc (b + size b)) hi bs o
        → Outcome size need lo hi (b ∷ bs) (behind b o)
    later none short k = (short, k)
    later (some t) short k = behind_Takes need lo hi b bs c whole room top t k

    split :
        (leb need (size b) ≡ true) ⊎ (leb need (size b) ≡ false)
        → (leb min_block (sub64 (size b) need) ≡ true)
          ⊎ (leb min_block (sub64 (size b) need) ≡ false)
        → Outcome size need (suc (b + size b)) hi bs (alloc_from size need bs)
        → Outcome size need lo hi (b ∷ bs) (alloc_from size need (b ∷ bs))
    split (inr short) _ rest = rw short (later (alloc_from size need bs) (leb→lt _ _ short) rest)
    split (inl fits) (inl big) rest =
        let cut : sub64 (size b) need ≡ size b - need = omega (arith, end, leb→le _ _ fits) in
        let next : add64 b need ≡ b + need = omega (arith, end, leb→le _ _ fits) in
        rw (fits, big, cut, next)
          (split_Takes need lo hi b bs c whole room top
            (omega (arith, cut, leb→le _ _ fits, leb→le _ _ big)))
    split (inl fits) (inr small) rest =
        let cut : sub64 (size b) need ≡ size b - need = omega (arith, end, leb→le _ _ fits) in
        rw (fits, small)
          (whole_Takes need lo hi b bs c whole room top (leb→le _ _ fits)
            (omega (arith, cut, leb→lt _ _ small)))
