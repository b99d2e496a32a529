-- ===== src/Bitmap/Count.antt =====
-- The number of free bits in the bit maps of kernel/pmm.cpp and kernel/cofeufs.cpp.
use cofeuos.Base.{
  ℕ, zero, suc, ◌+◌, ◌/◌, ◌<◌, ◌≤◌, ◌≡◌, refl, true, false, List, arith, if◌then◌else◌, length,
  replicate,
}
use cofeuos.Bitmap.{test, mark, clear, AllBytes}
use cofeuos.Bitmap.Laws.{test-mark, test-clear, test-replicate}

-- The number of clear bits among the first `n`.
unfoldable pub free_below : List ℕ → ℕ → ℕ
free_below bits zero = 0
free_below bits (suc n) = (if test bits n then 0 else 1) + free_below bits n

pub free_below-le : (bits : List ℕ) (n : ℕ) → free_below bits n ≤ n
unfolding free_below
free_below-le bits zero = omega arith
free_below-le bits (suc n) = ground (arith, free_below-le bits n)

pub free_below-replicate : (m n : ℕ) → free_below (replicate m 0) n ≡ n
unfolding free_below
free_below-replicate m zero = refl
free_below-replicate m (suc n) = rw (test-replicate m n, free_below-replicate m n) (omega arith)

module _ (bits : List ℕ) (i : ℕ) (h : AllBytes bits) (lt : i / 8 < length bits) where
  mark_above : (n : ℕ) → n ≤ i → free_below (mark bits i) n ≡ free_below bits n
  unfolding free_below
  mark_above zero le = refl
  mark_above (suc n) le = ground (arith, test-mark bits i n h lt, mark_above n)

  clear_above : (n : ℕ) → n ≤ i → free_below (clear bits i) n ≡ free_below bits n
  unfolding free_below
  clear_above zero le = refl
  clear_above (suc n) le = ground (arith, test-clear bits i n h lt, clear_above n)

  -- Marking a free bit takes one from the count.
  pub free_below-mark :
      (n : ℕ) → i < n → test bits i ≡ false → suc (free_below (mark bits i) n) ≡ free_below bits n
  unfolding free_below
  free_below-mark zero lt' e = absurd (omega arith)
  free_below-mark (suc n) lt' e =
      ground (arith, test-mark bits i n h lt, mark_above n, free_below-mark n)

  -- Clearing a taken bit adds one to it.
  pub free_below-clear :
      (n : ℕ) → i < n → test bits i ≡ true → free_below (clear bits i) n ≡ suc (free_below bits n)
  unfolding free_below
  free_below-clear zero lt' e = absurd (omega arith)
  free_below-clear (suc n) lt' e =
      ground (arith, test-clear bits i n h lt, clear_above n, free_below-clear n)

-- With a free bit the count is positive.
pub free_below-pos : (bits : List ℕ) (n i : ℕ) → i < n → test bits i ≡ false → 0 < free_below bits n
unfolding free_below
free_below-pos bits zero i h e = absurd (omega arith)
free_below-pos bits (suc n) i h e = ground (arith, free_below-pos bits n i)

pub free_below-ext :
    (xs ys : List ℕ) (n : ℕ) → ((j : ℕ) → test xs j ≡ test ys j) → free_below xs n ≡ free_below ys n
unfolding free_below
free_below-ext xs ys zero e = refl
free_below-ext xs ys (suc n) e = ground (arith, e n, free_below-ext xs ys n e)

pub free_below-full :
    (bits : List ℕ) (n : ℕ) → ((j : ℕ) → j < n → test bits j ≡ true) → free_below bits n ≡ 0
unfolding free_below
free_below-full bits zero e = refl
free_below-full bits (suc n) e =
    ground (arith, e n (omega arith), free_below-full bits n (λ j lt. e j (omega arith)))
