-- ===== src/Pmm/Range.antt =====
-- `range_mark` of kernel/pmm.cpp over frame numbers, and the free count.
use cofeuos.Base.{
  ℕ, zero, suc, ◌+◌, ◌*◌, ◌/◌, ◌%◌, ◌^◌, ◌≤◌, ◌<◌, ◌≡◌, refl, ◌∙◌, Bool, true, false, ◌&&◌, List,
  arith, ltb, leb, ◌==◌, if◌then◌else◌, length, add64, sub64,
}
use cofeuos.Bitmap.{test, mark, clear, AllBytes}
use cofeuos.Bitmap.Laws.{
  test-mark, test-clear, mark-AllBytes, clear-AllBytes, length-mark, length-clear,
}
use cofeuos.Bitmap.Count.{free_below, free_below-mark, free_below-clear}
use cofeuos.Pmm.{range_mark, one_gib}

abbrev put : Bool → List ℕ → ℕ → List ℕ
put used bits i = if used then mark bits i else clear bits i

-- The bits of `n` frames from frame `s` on, by number.
unfoldable pub fill : List ℕ → ℕ → ℕ → Bool → List ℕ
fill bits s zero used = bits
fill bits s (suc n) used = fill (put used bits s) (s + 1) n used

pub range_mark-fill :
    (base s n : ℕ) (bits : List ℕ) (used : Bool)
    → base + (s + n) * 4096 ≤ one_gib
    → range_mark base bits (base + s * 4096) n used ≡ fill bits s n used
unfolding range_mark fill
range_mark-fill base s zero bits used h = refl
range_mark-fill base s (suc n) bits used h =
    let here : sub64 (base + s * 4096) base / 4096 % 2 ^ 35 ≡ s = omega arith in
    let next : add64 (base + s * 4096) 4096 ≡ base + (s + 1) * 4096 = omega arith in
    rw (here, next) (range_mark-fill base (s + 1) n (put used bits s) used (omega arith))

put-AllBytes : (used : Bool) (bits : List ℕ) (i : ℕ) → AllBytes bits → AllBytes (put used bits i)
put-AllBytes true bits i h = mark-AllBytes bits i h
put-AllBytes false bits i h = clear-AllBytes bits i h

length-put : (used : Bool) (bits : List ℕ) (i : ℕ) → length (put used bits i) ≡ length bits
length-put true bits i = length-mark bits i
length-put false bits i = length-clear bits i

test-put :
    (used : Bool) (bits : List ℕ) (i j : ℕ)
    → AllBytes bits
    → i / 8 < length bits
    → test (put used bits i) j ≡ (if i == j then used else test bits j)
test-put true bits i j h lt = test-mark bits i j h lt
test-put false bits i j h lt = test-clear bits i j h lt

pub fill-AllBytes :
    (n s : ℕ) (bits : List ℕ) (used : Bool) → AllBytes bits → AllBytes (fill bits s n used)
unfolding fill
fill-AllBytes zero s bits used h = h
fill-AllBytes (suc n) s bits used h =
    fill-AllBytes n (s + 1) (put used bits s) used (put-AllBytes used bits s h)

pub length-fill :
    (n s : ℕ) (bits : List ℕ) (used : Bool) → length (fill bits s n used) ≡ length bits
unfolding fill
length-fill zero s bits used = refl
length-fill (suc n) s bits used =
    length-fill n (s + 1) (put used bits s) used ∙ length-put used bits s

pub test-fill :
    (n s : ℕ) (bits : List ℕ) (used : Bool) (j : ℕ)
    → AllBytes bits
    → s + n ≤ 8 * length bits
    → test (fill bits s n used) j ≡ (if leb s j && ltb j (s + n) then used else test bits j)
unfolding fill
test-fill zero s bits used j h lt = ground arith
test-fill (suc n) s bits used j h lt = ground (
  arith,
  test-fill n (s + 1) (put used bits s) used j (put-AllBytes used bits s h)
      (omega (arith, length-put used bits s)),
  test-put used bits s j h (omega arith),
)

-- Taking `n` free frames takes `n` from the count.
pub free_below-fill_used :
    (n s m : ℕ) (bits : List ℕ)
    → AllBytes bits
    → s + n ≤ 8 * length bits
    → s + n ≤ m
    → ((j : ℕ) → s ≤ j → j < s + n → test bits j ≡ false)
    → free_below (fill bits s n true) m + n ≡ free_below bits m
unfolding fill
free_below-fill_used zero s m bits h lt le free = omega arith
free_below-fill_used (suc n) s m bits h lt le free =
    let first : suc (free_below (mark bits s) m) ≡ free_below bits m =
      free_below-mark bits s h (omega arith) m (omega arith) (free s (omega arith) (omega arith)) in
    let rest : free_below (fill (mark bits s) (s + 1) n true) m + n ≡ free_below (mark bits s) m =
      free_below-fill_used n (s + 1) m (mark bits s) (mark-AllBytes bits s h)
        (omega (arith, length-mark bits s)) (omega arith)
        (λ j lo hi. test-mark bits s j h (omega arith) ∙ skip j lo hi) in
    omega arith
  where
    skip : (j : ℕ) → s + 1 ≤ j → j < s + 1 + n → (if s == j then true else test bits j) ≡ false
    skip j lo hi = let e : test bits j ≡ false = free j (omega arith) (omega arith) in ground arith

-- Giving `n` taken frames back adds `n` to it.
pub free_below-fill_free :
    (n s m : ℕ) (bits : List ℕ)
    → AllBytes bits
    → s + n ≤ 8 * length bits
    → s + n ≤ m
    → ((j : ℕ) → s ≤ j → j < s + n → test bits j ≡ true)
    → free_below (fill bits s n false) m ≡ free_below bits m + n
unfolding fill
free_below-fill_free zero s m bits h lt le used = omega arith
free_below-fill_free (suc n) s m bits h lt le used =
    let first : free_below (clear bits s) m ≡ suc (free_below bits m) =
      free_below-clear bits s h (omega arith) m (omega arith)
        (used s (omega arith) (omega arith)) in
    let rest : free_below (fill (clear bits s) (s + 1) n false) m
        ≡ free_below (clear bits s) m + n =
      free_below-fill_free n (s + 1) m (clear bits s) (clear-AllBytes bits s h)
        (omega (arith, length-clear bits s)) (omega arith)
        (λ j lo hi. test-clear bits s j h (omega arith) ∙ skip j lo hi) in
    omega arith
  where
    skip : (j : ℕ) → s + 1 ≤ j → j < s + 1 + n → (if s == j then false else test bits j) ≡ true
    skip j lo hi = let e : test bits j ≡ true = used j (omega arith) (omega arith) in ground arith
