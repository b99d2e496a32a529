-- ===== src/Util/Compare.antt =====
-- What `memcmp` of kernel/util.cpp finds.
use cofeuos.Base.{
  ℕ, zero, suc, ◌+◌, ◌<◌, ◌≡◌, ◌≢◌, ap, ◌∙◌, ◌⊎◌, inl, inr, true, false, Option, none, some, arith,
  ◌==◌, if◌then◌else◌, Bool-cases,
}
use cofeuos.Util.{Memory, memcmp}

-- The bytes at the first place where two blocks of `n` bytes differ, or none if they are the same.
abbrev pub FirstDifference : ℕ → Memory → ℕ → ℕ → Option (ℕ × ℕ) → Type 0
FirstDifference n mem a b none = (i : ℕ) → i < n → mem (a + i) ≡ mem (b + i)
FirstDifference n mem a b (some (x, y)) =
    (i : ℕ) × (i < n)
    × (x ≡ mem (a + i))
    × (y ≡ mem (b + i))
    × (x ≢ y)
    × ((j : ℕ) → j < i → mem (a + j) ≡ mem (b + j))

-- `memcmp` compares the bytes of the first difference, or finds the `n` bytes the same.
pub memcmp_lem : (n : ℕ) (mem : Memory) (a b : ℕ) → FirstDifference n mem a b (memcmp n mem a b)
unfolding memcmp
memcmp_lem zero mem a b = λ i lt. absurd (omega arith)
memcmp_lem (suc n) mem a b =
    split (Bool-cases (mem a == mem b)) (memcmp n mem (a + 1) (b + 1))
      (memcmp_lem n mem (a + 1) (b + 1))
  where
    shift :
        (bound : ℕ)
        → mem a ≡ mem b
        → ((i : ℕ) → i < bound → mem (a + 1 + i) ≡ mem (b + 1 + i))
        → (i : ℕ) → i < suc bound
        → mem (a + i) ≡ mem (b + i)
    shift bound same f zero lt =
        let ea : a + 0 ≡ a = omega arith in let eb : b + 0 ≡ b = omega arith in rw (ea, eb) same
    shift bound same f (suc i) lt =
        let ea : a + suc i ≡ a + 1 + i = omega arith in
        let eb : b + suc i ≡ b + 1 + i = omega arith in rw (ea, eb) (f i (omega arith))

    later :
        (o : Option (ℕ × ℕ))
        → mem a ≡ mem b
        → FirstDifference n mem (a + 1) (b + 1) o
        → FirstDifference (suc n) mem a b o
    later none same f = shift n same f
    later (some (x, y)) same (i, lt, ex, ey, ne, before) =
        let ea : a + 1 + i ≡ a + suc i = omega arith in
        let eb : b + 1 + i ≡ b + suc i = omega arith in
        (suc i, omega arith, ex ∙ ap mem ea, ey ∙ ap mem eb, ne, shift i same before)

    split :
        ((mem a == mem b) ≡ true) ⊎ ((mem a == mem b) ≡ false)
        → (o : Option (ℕ × ℕ)) → FirstDifference n mem (a + 1) (b + 1) o
        → FirstDifference (suc n) mem a b (if mem a == mem b then o else some (mem a, mem b))
    split (inl same) o f = rw same (later o (ground arith) f)
    split (inr other) o f =
        let ea : a ≡ a + 0 = omega arith in
        let eb : b ≡ b + 0 = omega arith in
        rw other
          (0, omega arith, ap mem ea, ap mem eb, (λ e. ground arith), λ j lt. absurd (omega arith))
