-- ===== src/Bitmap.antt =====
-- The bit maps of kernel/pmm.cpp (`bits`) and kernel/cofeufs.cpp (`bm`): bit i is bit i & 7 of byte
-- i >> 3, and 1 means taken.
pub mod Laws
pub mod Count
use cofeuos.Base.{
  ℕ, ◌-◌, ◌/◌, ◌%◌, ◌^◌, ◌<◌, bit_and, bit_or, Bool, not, List, ◌∷◌, [], get_or, set, ◌==◌,
}

-- byte & (1u << bit), as a truth value.
unfoldable pub byte_test : ℕ → ℕ → Bool
byte_test b k = not (bit_and b (2 ^ k) == 0)

-- byte | (1u << bit)
unfoldable pub byte_mark : ℕ → ℕ → ℕ
byte_mark b k = bit_or b (2 ^ k)

-- byte & (uint8_t)~(1u << bit)
unfoldable pub byte_clear : ℕ → ℕ → ℕ
byte_clear b k = bit_and b (255 - 2 ^ k)

unfoldable pub test : List ℕ → ℕ → Bool
test bits i = byte_test (get_or bits (i / 8) 0) (i % 8)

unfoldable pub mark : List ℕ → ℕ → List ℕ
mark bits i = set bits (i / 8) (byte_mark (get_or bits (i / 8) 0) (i % 8))

unfoldable pub clear : List ℕ → ℕ → List ℕ
clear bits i = set bits (i / 8) (byte_clear (get_or bits (i / 8) 0) (i % 8))

-- Every byte fits eight bits.
abbrev pub AllBytes : List ℕ → Type 0
AllBytes [] = Unit {0}
AllBytes (b ∷ bs) = (b < 256) × AllBytes bs
