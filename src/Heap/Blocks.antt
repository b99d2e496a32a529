-- ===== src/Heap/Blocks.antt =====
-- Chains of blocks of kernel/memory.cpp: their order, and the bytes that they cover.
use cofeuos.Base.{
  ℕ, suc, ◌+◌, ◌%◌, ◌≤◌, ◌<◌, ◌≡◌, refl, ◌≢◌, ◌&&◌, List, [], ◌∷◌, arith, ltb, leb, if◌then◌else◌,
}
use cofeuos.Heap.{hdr}

-- 1 if byte `x` belongs to the block at `a`, and 0 if not.
abbrev pub hit : (ℕ → ℕ) → ℕ → ℕ → ℕ
hit size a x = if leb a x && ltb x (a + size a) then 1 else 0

-- How many of the blocks byte `x` belongs to.
unfoldable pub covers : (ℕ → ℕ) → List ℕ → ℕ → ℕ
covers size [] x = 0
covers size (a ∷ rest) x = hit size a x + covers size rest x

-- The bytes of all the blocks.
unfoldable pub bytes : (ℕ → ℕ) → List ℕ → ℕ
bytes size [] = 0
bytes size (a ∷ rest) = size a + bytes size rest

-- A block with room for its header and eight bytes, on an eight-byte boundary.
pub record IsBlock (size : ℕ → ℕ) (a : ℕ) : Type 0 where
  pub address_aligned : a % 8 ≡ 0
  pub size_aligned : size a % 8 ≡ 0
  pub roomy : hdr + 8 ≤ size a

-- Blocks from `lo` on in the order of their addresses, ending at or before `hi`. Between two of them
-- there is a gap: a block that begins where another ends would have been merged with it.
abbrev pub Chain : (ℕ → ℕ) → ℕ → ℕ → List ℕ → Type 0
Chain size lo hi [] = lo ≤ suc hi
Chain size lo hi (a ∷ rest) = (lo ≤ a) × IsBlock size a × Chain size (suc (a + size a)) hi rest

module _ (size : ℕ → ℕ) where
  pub covers_below : (l : List ℕ) (lo hi x : ℕ) → Chain size lo hi l → x < lo → covers size l x ≡ 0
  unfolding covers
  covers_below [] lo hi x c h = refl
  covers_below (a ∷ rest) lo hi x c h =
      ground (arith, c.0, covers_below rest (suc (a + size a)) hi x c.2)

  pub Chain-le : (l : List ℕ) (lo hi : ℕ) → Chain size lo hi l → lo ≤ suc hi
  Chain-le [] lo hi c = c
  Chain-le (a ∷ rest) lo hi c = omega (arith, c.0, Chain-le rest (suc (a + size a)) hi c.2)

  pub covers_above : (l : List ℕ) (lo hi x : ℕ) → Chain size lo hi l → hi ≤ x → covers size l x ≡ 0
  unfolding covers
  covers_above [] lo hi x c h = refl
  covers_above (a ∷ rest) lo hi x c h = ground (
    arith,
    Chain-le rest (suc (a + size a)) hi c.2,
    covers_above rest (suc (a + size a)) hi x c.2,
  )

  pub Chain-raise :
      (l : List ℕ) (lo lo' hi : ℕ) → Chain size lo hi l → lo' ≤ lo → Chain size lo' hi l
  Chain-raise [] lo lo' hi c h = omega arith
  Chain-raise (a ∷ rest) lo lo' hi c h = (omega (arith, c.0), c.1, c.2)

  -- A chain depends on the sizes of its own blocks only.
  pub Chain-agree :
      (t : ℕ → ℕ) (l : List ℕ) (lo hi : ℕ)
      → ((a : ℕ) → lo ≤ a → a < hi → t a ≡ size a)
      → Chain size lo hi l
      → Chain t lo hi l × ((x : ℕ) → covers t l x ≡ covers size l x) × (bytes t l ≡ bytes size l)
  unfolding covers bytes
  Chain-agree t [] lo hi e c = (c, λ x. refl, refl)
  Chain-agree t (a ∷ rest) lo hi e c =
      let le : suc (a + size a) ≤ suc hi = Chain-le rest (suc (a + size a)) hi c.2 in
      let here : t a ≡ size a = e a c.0 (omega (arith, c.1.roomy)) in
      let ih =
        Chain-agree t rest (suc (a + size a)) hi (λ b lo' hi'. e b (omega (arith, c.0)) hi') c.2 in
      (
        (
          c.0,
          record {
            address_aligned = c.1.address_aligned;
            size_aligned = rw here c.1.size_aligned;
            roomy = rw here c.1.roomy;
          },
          rw here ih.0,
        ),
        λ x. ground (arith, here, ih.1 x),
        omega (arith, here, ih.2),
      )

  -- The first byte of a block of the chain is covered.
  pub uncovered_ne :
      (a : ℕ) (rest : List ℕ) (x : ℕ)
      → IsBlock size a
      → covers size (a ∷ rest) x ≡ 0
      → (x ≢ a) × (covers size rest x ≡ 0)
  unfolding covers
  uncovered_ne a rest x b e = (λ eq. ground (arith, b.roomy), ground arith)
