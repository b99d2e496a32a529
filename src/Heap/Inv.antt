-- ===== src/Heap/Inv.antt =====
-- The invariant of kernel/memory.cpp's heap, with the blocks that its clients hold.
use cofeuos.Base.{ℕ, ◌+◌, ◌^◌, ◌≤◌, ◌<◌, ◌≡◌, refl, List, [], ◌∷◌, ◌++◌, arith}
use cofeuos.Heap.{Heap}
use cofeuos.Heap.Blocks.{hit, covers, bytes, IsBlock, Chain}

-- Each is a block between `lo` and `hi`.
abbrev pub Held : (ℕ → ℕ) → ℕ → ℕ → List ℕ → Type 0
Held size lo hi [] = Unit {0}
Held size lo hi (c ∷ cs) = IsBlock size c × (lo ≤ c) × (c + size c ≤ hi) × Held size lo hi cs

-- The size headers of these blocks are as before.
abbrev pub SameSizes : (ℕ → ℕ) → (ℕ → ℕ) → List ℕ → Type 0
SameSizes size t [] = Unit {0}
SameSizes size t (c ∷ cs) = (t c ≡ size c) × SameSizes size t cs

abbrev pub arena_end : Heap → ℕ
arena_end h = h.arena_start + h.arena_size

-- `live` are the addresses of the blocks that are handed out. No byte belongs to two blocks, free or
-- handed out.
pub record Inv (h : Heap) (live : List ℕ) : Type 0 where
  pub chain : Chain h.size_at h.arena_start (arena_end h) h.free_list
  pub top : arena_end h < 2 ^ 63
  pub held : Held h.size_at h.arena_start (arena_end h) live
  pub apart : (x : ℕ) → covers h.size_at h.free_list x + covers h.size_at live x ≤ 1
  pub used : h.heap_used ≡ bytes h.size_at live
  pub room : bytes h.size_at h.free_list + bytes h.size_at live ≤ h.arena_size

-- Sizes that change only where `F` counts leave the blocks alone that `F` does not touch.
pub Held-agree :
    (size t F : ℕ → ℕ) (lo hi : ℕ) (live : List ℕ)
    → ((c : ℕ) → F c ≡ 0 → t c ≡ size c)
    → ((x : ℕ) → F x + covers size live x ≤ 1)
    → Held size lo hi live
    → Held t lo hi live
      × ((x : ℕ) → covers t live x ≡ covers size live x)
      × (bytes t live ≡ bytes size live)
      × SameSizes size t live
unfolding covers bytes
Held-agree size t F lo hi [] e ap h = (tt, λ x. refl, refl, tt)
Held-agree size t F lo hi (c ∷ cs) e ap h =
    let here : t c ≡ size c = e c (ground (arith, ap c, h.0.roomy)) in
    let ih = Held-agree size t F lo hi cs e (λ x. omega (arith, ap x)) h.3 in
    (
      (
        record {
          address_aligned = h.0.address_aligned;
          size_aligned = rw here h.0.size_aligned;
          roomy = rw here h.0.roomy;
        },
        h.1,
        rw here h.2,
        ih.0,
      ),
      λ x. ground (arith, here, ih.1 x),
      omega (arith, here, ih.2),
      (here, ih.3),
    )

module _ (size : ℕ → ℕ) (lo hi b : ℕ) (ys : List ℕ) where
  covers_middle :
      (xs : List ℕ) (x : ℕ) → covers size (xs ++ b ∷ ys) x ≡ hit size b x + covers size (xs ++ ys) x
  unfolding covers
  covers_middle [] x = refl
  covers_middle (a ∷ xs) x = omega (arith, covers_middle xs x)

  bytes_middle : (xs : List ℕ) → bytes size (xs ++ b ∷ ys) ≡ size b + bytes size (xs ++ ys)
  unfolding bytes
  bytes_middle [] = refl
  bytes_middle (a ∷ xs) = omega (arith, bytes_middle xs)

  Held-middle : (xs : List ℕ) → Held size lo hi (xs ++ b ∷ ys) → Held size lo hi (b ∷ (xs ++ ys))
  Held-middle [] h = h
  Held-middle (a ∷ xs) h = let ih = Held-middle xs h.3 in (ih.0, ih.1, ih.2, (h.0, h.1, h.2, ih.3))

-- The order of the blocks that are handed out does not matter.
pub Inv-middle : (h : Heap) (b : ℕ) (xs ys : List ℕ) → Inv h (xs ++ b ∷ ys) → Inv h (b ∷ (xs ++ ys))
unfolding covers bytes
Inv-middle h b xs ys v = record {
  chain = v.chain;
  top = v.top;
  held = Held-middle h.size_at h.arena_start (arena_end h) b ys xs v.held;
  apart =
      λ x. omega (arith, v.apart x, covers_middle h.size_at h.arena_start (arena_end h) b ys xs x);
  used = omega (arith, v.used, bytes_middle h.size_at h.arena_start (arena_end h) b ys xs);
  room = omega (arith, v.room, bytes_middle h.size_at h.arena_start (arena_end h) b ys xs);
}
